-- ===== src/Reader/Etl/Rescan.antt =====
-- reader/etl_reader.go: reading a trace again, as happens whenever it has not been rotated.
use windns_logtail.Base.{
  Text, text_eq_self, text_eq_iff, Time, before, not_after, ◌<◌, true, List, [], ◌∷◌, ◌++◌, ◌≡◌,
  ◌≢◌, refl, ap, ◌∙◌, subst, last, All, arith, concat,
}
use windns_logtail.Chunk.{returned}
use windns_logtail.Rising.{IsRising, rising_last_after}
use windns_logtail.Checkpoint.State.{EventLogState}
use windns_logtail.Eventlog.Win.{EventKind, WinRecord, bare}
use windns_logtail.Reader.Etl.Scan.{Events, Scan, time_of, is_new, add_new, position, scan_events}
use windns_logtail.Reader.Etl.Batches.{
  Emitted, Emitted-unchanged, Emitted-concat, end_state-last, scan_events-Emitted,
}

module _ (E : EventKind) (digest : WinRecord E.Event → Text) where
  open E use {Event, system_time}

  -- Parsing XML leaves the fields outside the event empty, so a record is what is kept of it.
  abbrev pub IsBare : WinRecord Event → Type 0
  IsBare r = bare r.event ≡ r

  -- Every event of a file that rises in time from the state on is new.
  add_new-IsRising :
      (st : EventLogState) (t : Time) (rs : List (WinRecord Event))
      → not_after st.timestamp t ≡ true
      → IsRising (time_of E digest) t rs
      → All IsBare rs
      → add_new E digest st rs ≡ rs
  unfolding add_new is_new
  add_new-IsRising st t [] h rising all_bare = refl
  add_new-IsRising st t (r ∷ rs) h rising all_bare = ground (
    arith,
    add_new-IsRising st (time_of E digest r) rs (ground arith) rising.1 all_bare.1,
    all_bare.0,
  )

  -- Where the state stands at the end of a file.
  abbrev pub IsAt : EventLogState → WinRecord Event → Type 0
  IsAt st r = (st.timestamp ≡ time_of E digest r) × (st.md5 ≡ digest r)

  -- Of a file that rises in time, nothing is new to a state at its last record.
  add_new-IsAt :
      (st : EventLogState) (t : Time) (r : WinRecord Event) (rs : List (WinRecord Event))
      → IsAt st (last r rs)
      → IsRising (time_of E digest) t (r ∷ rs)
      → add_new E digest st (r ∷ rs) ≡ []
  unfolding add_new is_new
  add_new-IsAt st t r [] at rising = ground (arith, text_eq_self (digest r))
  add_new-IsAt st t r (x ∷ xs) at rising = ground (
    arith,
    add_new-IsAt st (time_of E digest r) x xs at rising.1,
    rising_last_after (time_of E digest) (time_of E digest r) x xs rising.1,
  )

  position-IsAt :
      (log_path : Text) (st : EventLogState) (r : WinRecord Event)
      → st ≡ position E digest log_path r
      → IsAt st r
  unfolding position
  position-IsAt log_path st r e = (ap (λ u. u.timestamp) e, ap (λ u. u.md5) e)

  -- After a scan of a rising trace the same trace holds nothing new.
  add_new-Emitted :
      (s v : Scan Event) (rs : List (WinRecord Event))
      → IsRising (time_of E digest) s.state.timestamp rs
      → Emitted E digest s v rs
      → add_new E digest v.state rs ≡ []
  unfolding add_new
  add_new-Emitted s v [] rising e = refl
  add_new-Emitted s v (r ∷ rs) rising e =
      add_new-IsAt v.state s.state.timestamp r rs
        (position-IsAt s.log_path v.state (last r rs)
          (e.state ∙ end_state-last E digest s.log_path s.state e.batches r rs e.whole))
        rising

  -- With the file of that name removed.
  abbrev without : Scan Event → Text → Scan Event
  without s id = record s { removed = s.removed ++ id ∷ [] }

  -- If the batch size is positive, no event is held back, and the records of a trace hold nothing
  -- but their event and rise strictly in time from the state on, the trace is delivered whole, and
  -- only once: scanned again right after, it yields no batch and leaves the state, which is where
  -- the first scan put it.
  pub scan_events_again :
      (s : Scan Event) (events : Events Event)
      → 0 < s.max_read
      → s.delta_events ≡ []
      → IsRising (time_of E digest) s.state.timestamp events.event_logs
      → All IsBare events.event_logs
      → (v : Scan Event) × (w : Scan Event) × (scan_events E digest s events ≡ returned v)
        × (concat v.records ≡ concat s.records ++ events.event_logs)
        × (scan_events E digest v events ≡ returned w)
        × (w.records ≡ v.records)
        × (w.state ≡ v.state)
  scan_events_again s events pos_read none_left rising all_bare =
      let logs : List (WinRecord Event) = events.event_logs in
      let s' = without s events.id in
      let first = scan_events-Emitted E digest s events pos_read none_left in
      let v : Scan Event = first.0 in
      let v' = without v events.id in
      let all_new =
        add_new-IsRising s.state s.state.timestamp logs (ground arith) rising all_bare in
      let sent = subst (Emitted E digest s' v) all_new first.2 in
      let second = scan_events-Emitted E digest v events (rw sent.max_read pos_read) first.3 in
      let quiet = add_new-Emitted s' v logs rising sent in
      let same =
        Emitted-unchanged E digest v' second.0
          (subst (Emitted E digest v' second.0) quiet second.2) in
      (v, second.0, first.1, Emitted-concat E digest s' v logs sent, second.1, same.0, same.1)

  abbrev pub IsEarlier : WinRecord Event → WinRecord Event → Type 0
  IsEarlier l x = before (time_of E digest x) (time_of E digest l) ≡ true

  add_new-earlier :
      (st : EventLogState) (l : WinRecord Event) (xs rest : List (WinRecord Event))
      → st.timestamp ≡ time_of E digest l
      → All (IsEarlier l) xs
      → add_new E digest st (xs ++ rest) ≡ add_new E digest st rest
  unfolding add_new is_new
  add_new-earlier st l [] rest e h = refl
  add_new-earlier st l (x ∷ xs) rest e h = ground (arith, add_new-earlier st l xs rest e h.1)

  add_new-twins :
      (st : EventLogState) (r l : WinRecord Event)
      → IsAt st l
      → time_of E digest r ≡ time_of E digest l
      → digest r ≢ digest l
      → IsBare r
      → add_new E digest st (r ∷ l ∷ []) ≡ r ∷ []
  unfolding add_new is_new
  add_new-twins st r l at same other is_bare =
      ground (arith, text_eq_iff st.md5 (digest r), text_eq_self (digest l))

  -- A replay: if the last two records of a trace have the same time and are different, then a
  -- state at the last one does not stop the other. The trace, scanned again, delivers that record
  -- once more and the state goes back to it.
  pub scan_events_replays :
      (s : Scan Event) (id : Text) (xs : List (WinRecord Event)) (r l : WinRecord Event)
      → 0 < s.max_read
      → s.delta_events ≡ []
      → IsAt s.state l
      → All (IsEarlier l) xs
      → time_of E digest r ≡ time_of E digest l
      → digest r ≢ digest l
      → IsBare r
      → (v : Scan Event) × (scan_events E digest s
            (record { id = id; event_logs = xs ++ r ∷ l ∷ [] })
          ≡ returned v)
        × (concat v.records ≡ concat s.records ++ r ∷ [])
        × IsAt v.state r
  scan_events_replays s id xs r l pos_read none_left at earlier same other is_bare =
      let file : Events Event = record { id = id; event_logs = xs ++ r ∷ l ∷ [] } in
      let s' = without s id in
      let done = scan_events-Emitted E digest s file pos_read none_left in
      let only =
        add_new-earlier s.state l xs (r ∷ l ∷ []) at.0 earlier
        ∙ add_new-twins s.state r l at same other is_bare in
      let sent = subst (Emitted E digest s' done.0) only done.2 in
      (
        done.0,
        done.1,
        Emitted-concat E digest s' done.0 (r ∷ []) sent,
        position-IsAt s.log_path done.0.state r
            (sent.state ∙ end_state-last E digest s.log_path s.state sent.batches r [] sent.whole),
      )
