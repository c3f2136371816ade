-- ===== src/Consumer/Syslog/Stuck.antt =====
-- consumer/consumer_syslog.go: the batches on which `HandleEvents` never returns.
use windns_logtail.Base.{
  subst, sym, not_after, ℕ, zero, suc, ◌<◌, true, List, [], ◌∷◌, ◌≡◌, ◌≢◌, refl, All, All-last, ap,
  last, length, drop, arith,
}
use windns_logtail.Chunk.{read_chunk, next_chunk, running}
use windns_logtail.Eventlog.Kind.{RecordKind}
use windns_logtail.Consumer.Syslog.{Syslog, Net, chunk_size, handle_loop, handle_events}

module _ (k : RecordKind) where
  open k use {Record, timestamp}

  -- Once a chunk ends in a record that is not newer than the state, no number of rounds ends the
  -- loop.
  handle_loop_stuck :
      (fuel : ℕ) (net : ℕ → Net) (s : Syslog) (events : List Record) (start : ℕ) {r : Record}
      {rs : List Record}
      → start < length events
      → (read_chunk events chunk_size start).0 ≡ r ∷ rs
      → not_after (timestamp (last r rs)) s.state.timestamp ≡ true
      → handle_loop k fuel net s events start ≡ running
  unfolding handle_loop
  handle_loop_stuck zero net s events start h e old = refl
  handle_loop_stuck (suc fuel) net s events start h e old =
      ground (arith, handle_loop_stuck fuel net s events start h e old)

  abbrev pub IsOld : Syslog → Record → Type 0
  IsOld s r = not_after (timestamp r) s.state.timestamp ≡ true

  -- A batch that is not empty and holds no record newer than the state is never finished: after
  -- any number of rounds the loop is still running.
  pub handle_events_stuck :
      (fuel : ℕ) (net : ℕ → Net) (s : Syslog) (events : List Record)
      → events ≢ []
      → All (IsOld s) events
      → handle_events k net s events fuel ≡ running
  unfolding handle_events
  handle_events_stuck fuel net s [] some_event old = absurd (some_event refl)
  handle_events_stuck fuel net s (r ∷ rs) some_event old =
      let c = next_chunk (r ∷ rs) chunk_size 0 (omega arith) (omega arith) in
      handle_loop_stuck fuel net s (r ∷ rs) 0 (omega arith) (ap (λ p. p.0) c.reads) (
        All-last (IsOld s) c.first c.others (drop c.next (r ∷ rs))
          (subst (All (IsOld s)) (sym c.splits) old))
