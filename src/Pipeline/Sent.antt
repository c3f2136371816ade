-- ===== src/Pipeline/Sent.antt =====
-- What a channel reader delivers, a syslog consumer sends: reader/channel_reader.go with
-- consumer/consumer_syslog.go.
use windns_logtail.Base.{
  Text, Time, ℕ, suc, List, [], ◌∷◌, ◌++◌, ◌≡◌, refl, sym, ap, ◌∙◌, subst, map, concat, length,
  append-nil, append_assoc, arith,
}
use mathlib.Core.List.{map-append}
use windns_logtail.Rising.{IsRising, end_time, IsRising-append, end_time-append}
use windns_logtail.Chunk.{returned}
use windns_logtail.Eventlog.Kind.{RecordKind}
use windns_logtail.Eventlog.Win.{win_kind, WinRecord}
use windns_logtail.Consumer.Syslog.{Syslog, Net, message}
use windns_logtail.Consumer.Syslog.Delivery.{IsUp, Handled, SameSettings, handle_events_delivers}
use windns_logtail.Pipeline.{handle_batches, after_batch}
use windns_logtail.Reader.Channel.Open.{Api, WinEventReader}
use windns_logtail.Reader.Channel.Read.{Xml, SysEvent, sys_events}
use windns_logtail.Reader.Channel.Loop.{ChannelReader, run}
use windns_logtail.Reader.Channel.Order.{IsInOrder, run-IsInOrder}

module _ (k : RecordKind) where
  open k use {Record, timestamp}

  same-IsUp : (s v : Syslog) (n : Net) → SameSettings k s v → IsUp k s n → IsUp k v n
  same-IsUp s v n same up = record { reached = rw (same.1, same.2) up.reached }

  -- Two stretches that were handled, one after the other.
  Handled-append :
      (s v u : Syslog) (xs ys : List Record)
      → Handled k s v (map (message k s.log_format) xs) (end_time timestamp s.state.timestamp xs)
      → Handled k v u (map (message k v.log_format) ys) (end_time timestamp v.state.timestamp ys)
      → Handled k s u
          (map (message k s.log_format) (xs ++ ys))
          (end_time timestamp s.state.timestamp (xs ++ ys))
  Handled-append s v u xs ys h g = record {
    sent =
        g.sent
        ∙ ap (λ l. l ++ map (message k v.log_format) ys) h.sent
        ∙ append_assoc s.sent _ _
        ∙ ap (λ f. s.sent ++ (map (message k s.log_format) xs ++ map (message k f) ys)) h.settings.0
        ∙ ap (◌++◌ s.sent) (sym (map-append (message k s.log_format) xs ys));
    time =
        g.time
        ∙ ap (λ t. end_time timestamp t ys) h.time
        ∙ sym (end_time-append timestamp s.state.timestamp xs ys);
    name = g.name ∙ h.name;
    settings =
        (g.settings.0 ∙ h.settings.0, g.settings.1 ∙ h.settings.1, g.settings.2 ∙ h.settings.2);
  }

  -- Batches that rise in time from the state on, over all of them, are sent whole and in order.
  pub handle_batches-Handled :
      (net : ℕ → ℕ → Net) (i : ℕ) (s : Syslog) (bs : List (List Record))
      → ((i j : ℕ) → IsUp k s (net i j))
      → IsRising timestamp s.state.timestamp (concat bs)
      → (v : Syslog) × (handle_batches k net i s bs ≡ returned v)
        × Handled k s v
            (map (message k s.log_format) (concat bs))
            (end_time timestamp s.state.timestamp (concat bs))
  unfolding handle_batches
  handle_batches-Handled net i s [] up rising = (
    s,
    refl,
    record {
      sent = sym (append-nil s.sent);
      time = refl;
      name = refl;
      settings = (refl, refl, refl);
    },
  )
  handle_batches-Handled net i s (b ∷ bs) up rising =
      let parts = IsRising-append timestamp s.state.timestamp b (concat bs) rising in
      let (v, e, h) =
        handle_events_delivers k (suc (length b)) (net i) s b (up i) parts.0 (omega arith) in
      let next =
        handle_batches-Handled net (suc i) v bs
          (λ i' j. same-IsUp s v (net i' j) h.settings (up i' j))
          (subst (λ t. IsRising timestamp t (concat bs)) (sym h.time) parts.1) in
      (
        next.0,
        ap (λ o. after_batch k o (λ u. handle_batches k net (suc i) u bs)) e ∙ next.1,
        Handled-append s v next.0 b (concat bs) h next.2,
      )

module _ {Rest W : Type 0} (xml : Xml Rest) (api : Api W) where
  abbrev pub kind : (WinRecord (SysEvent Rest) → Text) → RecordKind
  kind json = win_kind (sys_events Rest) json

  -- If a channel reader's deliveries since a time were in order, and a syslog consumer's state is
  -- at that time, then whatever the event log answers and however many rounds the reader
  -- makes: while the server is reached, the consumer gets through all the batches that
  -- the reader has delivered, sends every record in them exactly once and in order, and its state
  -- comes to the time of the reader's.
  pub delivered_is_sent :
      (json : WinRecord (SysEvent Rest) → Text) (t : Time) (n : ℕ) (c : ChannelReader xml api)
      (l : WinEventReader) (w : W) (net : ℕ → ℕ → Net) (s : Syslog)
      → IsInOrder xml api t c
      → s.state.timestamp ≡ t
      → ((i j : ℕ) → IsUp (kind json) s (net i j))
      → let c' = (run xml api n c l w).0 in
        (v : Syslog) × (handle_batches (kind json) net 0 s c'.records ≡ returned v)
        × (v.sent ≡ s.sent ++ map (message (kind json) s.log_format) (concat c'.records))
        × (v.state.timestamp ≡ c'.state.timestamp)
  delivered_is_sent json t n c l w net s v at up =
      let c' = (run xml api n c l w).0 in
      let order = run-IsInOrder xml api t n c l w v in
      let r = handle_batches-Handled (kind json) net 0 s c'.records up (
        subst
          (λ u.
            IsRising (λ (r : WinRecord (SysEvent Rest)). r.event.system_time) u (concat c'.records))
          (sym at) order.rising) in
      (
        r.0,
        r.1,
        r.2.sent,
        r.2.time
            ∙ ap
                (λ u.
                  end_time (λ (r : WinRecord (SysEvent Rest)). r.event.system_time) u
                    (concat c'.records))
                at
            ∙ sym order.at_end,
      )
