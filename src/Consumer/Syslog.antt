-- ===== src/Consumer/Syslog.antt =====
-- consumer/consumer_syslog.go: `HandleEvents` sends the records of a batch, newest state last.
pub mod Delivery
pub mod Stuck
pub mod Send
use windns_logtail.Base.{
  Text, lit, text_eq, to_lower, Time, not_after, ℕ, zero, suc, ltb, Bool, true, false, List, [],
  ◌∷◌, ◌++◌, last, length, if◌then◌else◌,
}
use windns_logtail.Base.Decimal.{decimal}
use windns_logtail.Chunk.{read_chunk, Outcome, returned, panicked, running}
use windns_logtail.Checkpoint.State.{EventLogState}
use windns_logtail.Eventlog.Kind.{RecordKind}

-- `Syslog`, with a log of what it hands to others: the states given to the checkpoint, and the
-- messages given to `send`, oldest first.
pub record Syslog : Type 0 where
  pub name : Text
  pub remote_addr : Text
  pub network : Text
  pub log_format : Text
  pub state : EventLogState
  pub persisted : List EventLogState
  pub sent : List Text

-- One call of the client: whether `syslog.NewClient` connects. The pool blocks while it is full,
-- and `Submit` fails only once `Shutdown` has released it, which is not followed here.
pub record Net : Type 0 where
  pub dial : Text → Text → Bool

-- `syslog.Client` of simplesyslog, as far as `send` reads it.
pub record Client : Type 0 where
  pub no_prio : Bool
  pub hostname : Text

-- The line that `send` passes to `SendRaw`, at a time printed by RFC 3339.
unfoldable pub raw_line : Client → ℕ → Text → Text → Text
unfolding decimal
raw_line client priority timestamp message =
    (if client.no_prio
      then timestamp ++ (lit " " ++ client.hostname)
      else lit "<"
        ++ (decimal priority ++ (lit ">" ++ (timestamp ++ (lit " " ++ client.hostname)))))
    ++ (lit " " ++ message)

abbrev pub chunk_size : ℕ
chunk_size = 100

module _ (k : RecordKind) where
  open k use {Record, timestamp, string, json}

  -- What a record is sent as.
  unfoldable pub message : Text → Record → Text
  message log_format r =
      if text_eq log_format (lit "json") then json r ++ lit "\n" else string r ++ lit "\n"

  -- The tasks of a batch. A record that is not newer than the state is skipped. The tasks run in
  -- a pool while `batchSend` waits, so the state is the same for all. The order in which they
  -- reach the server is not fixed, and the list gives the order of submission.
  unfoldable pub run_tasks : Text → Time → List Record → List Text
  unfolding message
  run_tasks log_format seen [] = []
  run_tasks log_format seen (r ∷ rs) =
      let rest = run_tasks log_format seen rs in
      if not_after (timestamp r) seen then rest else message log_format r ∷ rest

  -- `batchSend`. Its error is only logged by the caller.
  unfoldable pub batch_send : Syslog → Net → List Record → List Text
  unfolding run_tasks
  batch_send s net records =
      if net.dial (to_lower s.network) s.remote_addr
      then run_tasks s.log_format s.state.timestamp records
      else []

  -- The rest of a round: the state moves to the last record of the chunk, sent or not.
  unfoldable pub advance : Syslog → Net → List Record → Time → Syslog
  unfolding batch_send
  advance s net records t =
      let st = record s.state { timestamp = t } in
      record s {
        sent = s.sent ++ batch_send s net records;
        state = st;
        persisted = s.persisted ++ st ∷ [];
      }

  -- The `for` loop. A chunk whose last record is not newer than the state is met by `continue`,
  -- which does not move the start index. `net i` is what the chunk that starts at `i` meets.
  unfoldable pub handle_loop : ℕ → (ℕ → Net) → Syslog → List Record → ℕ → Outcome Syslog
  unfolding advance read_chunk
  handle_loop zero net s events start = running
  handle_loop (suc fuel) net s events start = elim (ltb start (length events)) [
    | false ↦ returned s
    | true ↦ elim (read_chunk events chunk_size start).0 [
      | [] ↦ panicked
      | r ∷ rs ↦
          let t = timestamp (last r rs) in
          elim (not_after t s.state.timestamp) [
            | true ↦ handle_loop fuel net s events start
            | false ↦
                handle_loop fuel net (advance s (net start) (r ∷ rs) t) events
                  (read_chunk events chunk_size start).1
          ]
    ]
  ]

  -- `HandleEvents`. The loop needs at most one round for each record, if it ends.
  unfoldable pub handle_events : (ℕ → Net) → Syslog → List Record → ℕ → Outcome Syslog
  unfolding handle_loop
  handle_events net s [] fuel = returned s
  handle_events net s (r ∷ rs) fuel = handle_loop fuel net s (r ∷ rs) 0
