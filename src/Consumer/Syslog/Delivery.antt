-- ===== src/Consumer/Syslog/Delivery.antt =====
-- consumer/consumer_syslog.go: what `HandleEvents` sends of a batch that it can finish, and where
-- the state stands afterwards.
use windns_logtail.Base.{
  subst, sym, dec_lt, Time, not_after, ℕ, zero, suc, ◌-◌, ◌<◌, ◌≤◌, true, false, List, [], ◌∷◌,
  ◌++◌, ◌≡◌, refl, ◌∙◌, last, length, drop, arith, map, Text, append_assoc, append-nil, to_lower,
  drop-all,
}
use mathlib.Core.List.{map-append}
use windns_logtail.Rising.{
  IsRising, end_time, end_time-last, end_time-append, IsRising-append, IsRising-weaken,
  IsRising-last,
}
use windns_logtail.Chunk.{NextChunk, next_chunk, returned}
use windns_logtail.Eventlog.Kind.{RecordKind}
use windns_logtail.Consumer.Syslog.{
  Syslog, Net, chunk_size, message, run_tasks, batch_send, advance, handle_loop, handle_events,
}

module _ (k : RecordKind) where
  open k use {Record, timestamp}

  run_tasks-IsRising :
      (log_format : Text) (t : Time) (rs : List Record)
      → IsRising timestamp t rs
      → run_tasks k log_format t rs ≡ map (message k log_format) rs
  unfolding run_tasks
  run_tasks-IsRising log_format t [] h = refl
  run_tasks-IsRising log_format t (r ∷ rs) h = ground (
    arith,
    run_tasks-IsRising log_format t rs
        (IsRising-weaken timestamp t (timestamp r) rs (ground arith) h.1),
  )

  -- The settings of a consumer, which no round changes.
  abbrev pub SameSettings : Syslog → Syslog → Type 0
  SameSettings s v =
      (v.log_format ≡ s.log_format) × (v.network ≡ s.network) × (v.remote_addr ≡ s.remote_addr)

  -- `out` says what a rising batch puts on the wire, in whatever chunks it is sent.
  record Sends (net : ℕ → Net) (s : Syslog) (out : List Record → List Text) : Type 0 where
    out-nil : out [] ≡ []
    out-append : (xs ys : List Record) → out (xs ++ ys) ≡ out xs ++ out ys
    out-batch :
        (v : Syslog) (i : ℕ) (xs : List Record)
        → SameSettings s v
        → IsRising timestamp v.state.timestamp xs
        → batch_send k v (net i) xs ≡ out xs

  pub record Handled (s v : Syslog) (out : List Text) (t : Time) : Type 0 where
    pub sent : v.sent ≡ s.sent ++ out
    pub time : v.state.timestamp ≡ t
    pub name : v.state.name ≡ s.state.name
    pub settings : SameSettings s v

  -- The state after a chunk is sent.
  abbrev pub after_chunk :
      (ℕ → Net)
      → Syslog
      → {events : List Record} {start : ℕ} → NextChunk events chunk_size start
      → Syslog
  after_chunk net s {events} {start} c =
      advance k s (net start) (c.first ∷ c.others)
        (end_time timestamp s.state.timestamp (c.first ∷ c.others))

  pub handle_loop-next :
      (fuel : ℕ) (net : ℕ → Net) (s : Syslog) (events : List Record) (start : ℕ)
      (c : NextChunk events chunk_size start)
      → start < length events
      → not_after (timestamp (last c.first c.others)) s.state.timestamp ≡ false
      → handle_loop k (suc fuel) net s events start
        ≡ handle_loop k fuel net (after_chunk net s c) events c.next
  unfolding handle_loop
  handle_loop-next fuel net s events start c h new =
      rw (end_time-last timestamp s.state.timestamp c.first c.others) (ground (arith, c.reads))

  pub handle_loop-end :
      (fuel : ℕ) (net : ℕ → Net) (s : Syslog) (events : List Record) (start : ℕ)
      → length events ≤ start
      → handle_loop k (suc fuel) net s events start ≡ returned s
  unfolding handle_loop
  handle_loop-end fuel net s events start h = ground arith

  Sends-advance :
      (net : ℕ → Net) (s : Syslog) (out : List Record → List Text) (i : ℕ) (xs : List Record)
      (t : Time)
      → Sends net s out
      → Sends net (advance k s (net i) xs t) out
  unfolding advance
  Sends-advance net s out i xs t sends = record {
    out-nil = sends.out-nil;
    out-append = sends.out-append;
    out-batch = sends.out-batch;
  }

  -- A chunk that is sent, and then the rest of the batch.
  Handled-advance :
      (net : ℕ → Net) (s v : Syslog) (out : List Record → List Text) (i : ℕ) (xs ys : List Record)
      → Sends net s out
      → IsRising timestamp s.state.timestamp xs
      → let next = advance k s (net i) xs (end_time timestamp s.state.timestamp xs) in
        Handled next v (out ys) (end_time timestamp next.state.timestamp ys)
        → Handled s v (out (xs ++ ys)) (end_time timestamp s.state.timestamp (xs ++ ys))
  unfolding advance
  Handled-advance net s v out i xs ys sends rising h = record {
    sent = rw (sends.out-append xs ys) (
        h.sent
        ∙ rw (sends.out-batch s i xs (refl, refl, refl) rising)
            (append_assoc s.sent (out xs) (out ys)));
    time = h.time ∙ sym (end_time-append timestamp s.state.timestamp xs ys);
    name = h.name;
    settings = h.settings;
  }

  handle_loop-Handled :
      (fuel : ℕ) (net : ℕ → Net) (s : Syslog) (out : List Record → List Text) (events : List Record)
      (start : ℕ)
      → Sends net s out
      → IsRising timestamp s.state.timestamp (drop start events)
      → length events - start < fuel
      → (v : Syslog) × (handle_loop k fuel net s events start ≡ returned v)
        × Handled s v
            (out (drop start events))
            (end_time timestamp s.state.timestamp (drop start events))
  handle_loop-Handled zero net s out events start sends rising enough = absurd (omega arith)
  handle_loop-Handled (suc fuel) net s out events start sends rising enough =
      elim (dec_lt start (length events)) [
        | yes more ↦
            let c = next_chunk events chunk_size start (omega arith) more in
            let parts =
              IsRising-append timestamp s.state.timestamp (c.first ∷ c.others) (drop c.next events)
                (subst (IsRising timestamp s.state.timestamp) (sym c.splits) rising) in
            let new = IsRising-last timestamp s.state.timestamp c.first c.others parts.0 in
            let v = after_chunk net s c in
            let rest =
              handle_loop-Handled fuel net v out events c.next
                (Sends-advance net s out start (c.first ∷ c.others) _ sends)
                (unfold advance in parts.1) (omega (arith, c.later, c.within)) in
            (
              rest.0,
              handle_loop-next fuel net s events start c more new ∙ rest.1,
              rw (← c.splits) (
                  Handled-advance net s rest.0 out start (c.first ∷ c.others) (drop c.next events)
                    sends parts.0 rest.2),
            )
        | no end ↦ rw (drop-all start events (omega arith)) (
          s,
          handle_loop-end fuel net s events start (omega arith),
          record {
            sent = simp (sends.out-nil, append-nil);
            time = refl;
            name = refl;
            settings = (refl, refl, refl);
          },
        )
      ]

  handle_events-Handled :
      (fuel : ℕ) (net : ℕ → Net) (s : Syslog) (out : List Record → List Text) (events : List Record)
      → Sends net s out
      → IsRising timestamp s.state.timestamp events
      → length events < fuel
      → (v : Syslog) × (handle_events k net s events fuel ≡ returned v)
        × Handled s v (out events) (end_time timestamp s.state.timestamp events)
  unfolding handle_events
  handle_events-Handled fuel net s out [] sends rising enough = (
    s,
    refl,
    record {
      sent = simp (sends.out-nil, append-nil);
      time = refl;
      name = refl;
      settings = (refl, refl, refl);
    },
  )
  handle_events-Handled fuel net s out (r ∷ rs) sends rising enough =
      handle_loop-Handled fuel net s out (r ∷ rs) 0 sends rising (omega arith)

  -- The server is reached.
  pub record IsUp (s : Syslog) (n : Net) : Type 0 where
    pub reached : n.dial (to_lower s.network) s.remote_addr ≡ true

  up-Sends :
      (net : ℕ → Net) (s : Syslog)
      → ((i : ℕ) → IsUp s (net i))
      → Sends net s (map (message k s.log_format))
  unfolding batch_send
  up-Sends net s up = record {
    out-nil = refl;
    out-append = map-append (message k s.log_format);
    out-batch = λ v i xs same rising.
        rw (same.0, same.1, same.2, (up i).reached)
          (run_tasks-IsRising s.log_format v.state.timestamp xs rising);
  }

  -- If the records of a batch rise in time from the state on and the server is reached at each
  -- chunk, then `HandleEvents` returns within one round more than there are records, every record has
  -- been sent once, in order of submission, and the state is at the last record.
  pub handle_events_delivers :
      (fuel : ℕ) (net : ℕ → Net) (s : Syslog) (events : List Record)
      → ((i : ℕ) → IsUp s (net i))
      → IsRising timestamp s.state.timestamp events
      → length events < fuel
      → (v : Syslog) × (handle_events k net s events fuel ≡ returned v)
        × Handled s v
            (map (message k s.log_format) events)
            (end_time timestamp s.state.timestamp events)
  handle_events_delivers fuel net s events up =
      handle_events-Handled fuel net s (map (message k s.log_format)) events (up-Sends net s up)

  down-Sends :
      (net : ℕ → Net) (s : Syslog)
      → ((i : ℕ) → (net i).dial (to_lower s.network) s.remote_addr ≡ false)
      → Sends net s (λ _. [])
  unfolding batch_send
  down-Sends net s down = record {
    out-nil = refl;
    out-append = λ xs ys. refl;
    out-batch = λ v i xs same rising. rw (same.1, same.2, down i);
  }

  -- While the server cannot be reached, `HandleEvents` returns all the same, nothing of a rising
  -- batch has been sent, and the state is past it: its records are never tried again.
  pub handle_events_loses :
      (fuel : ℕ) (net : ℕ → Net) (s : Syslog) (events : List Record)
      → ((i : ℕ) → (net i).dial (to_lower s.network) s.remote_addr ≡ false)
      → IsRising timestamp s.state.timestamp events
      → length events < fuel
      → (v : Syslog) × (handle_events k net s events fuel ≡ returned v)
        × (v.sent ≡ s.sent)
        × (v.state.timestamp ≡ end_time timestamp s.state.timestamp events)
  handle_events_loses fuel net s events down rising enough =
      let r =
        handle_events-Handled fuel net s (λ _. []) events (down-Sends net s down) rising enough in
      (r.0, r.1, r.2.sent ∙ append-nil s.sent, r.2.time)
