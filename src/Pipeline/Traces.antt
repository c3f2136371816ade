-- ===== src/Pipeline/Traces.antt =====
-- What an ETL reader scans, a syslog consumer sends: reader/etl_reader.go with
-- consumer/consumer_syslog.go.
use windns_logtail.Base.{Text, ℕ, ◌<◌, [], ◌++◌, ◌≡◌, ap, ◌∙◌, subst, sym, map, concat}
use windns_logtail.Chunk.{returned}
use windns_logtail.Consumer.Syslog.{Syslog, Net, message}
use windns_logtail.Consumer.Syslog.Delivery.{IsUp}
use windns_logtail.Eventlog.Win.{EventKind, WinRecord, win_kind}
use windns_logtail.Pipeline.{handle_batches}
use windns_logtail.Pipeline.Sent.{handle_batches-Handled}
use windns_logtail.Reader.Etl.Batches.{Emitted-concat, scan_events-Emitted}
use windns_logtail.Reader.Etl.Scan.{Scan, Events, time_of, add_new, scan_events}
use windns_logtail.Rising.{IsRising, end_time}

module _ (E : EventKind) (digest json : WinRecord E.Event → Text) where
  open E use {Event}

  -- If the new events of a trace rise in time from the consumer's state on, and the server is
  -- reached, then the reader gets through the trace and the consumer through all the batches
  -- that come of it: every new event is sent once, stripped, in the order of the trace, and the
  -- consumer's state comes to the time of the last one.
  pub scanned_is_sent :
      (s : Scan Event) (file : Events Event) (net : ℕ → ℕ → Net) (c : Syslog)
      → 0 < s.max_read
      → s.delta_events ≡ []
      → s.records ≡ []
      → ((i j : ℕ) → IsUp (win_kind E json) c (net i j))
      → let new = add_new E digest s.state file.event_logs in
        IsRising (time_of E digest) c.state.timestamp new
        → (v : Scan Event) × (scan_events E digest s file ≡ returned v)
          × ((u : Syslog) × (handle_batches (win_kind E json) net 0 c v.records ≡ returned u)
              × (u.sent ≡ c.sent ++ map (message (win_kind E json) c.log_format) new)
              × (u.state.timestamp ≡ end_time (time_of E digest) c.state.timestamp new))
  scanned_is_sent s file net c pos_read none_left fresh up rising =
      let k = win_kind E json in
      let t = c.state.timestamp in
      let (v, done, emitted, left) = scan_events-Emitted E digest s file pos_read none_left in
      let out : concat v.records ≡ add_new E digest s.state file.event_logs =
        Emitted-concat E digest _ v _ emitted
        ∙ ap (λ l. concat l ++ add_new E digest s.state file.event_logs) fresh in
      let (u, all, handled) =
        handle_batches-Handled k net 0 c v.records up
          (subst (IsRising (time_of E digest) t) (sym out) rising) in
      (
        v,
        done,
        (
          u,
          all,
          handled.sent ∙ ap (λ l. c.sent ++ map (message k c.log_format) l) out,
          handled.time ∙ ap (end_time (time_of E digest) t) out,
        ),
      )
