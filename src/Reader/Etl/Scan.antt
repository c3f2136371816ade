-- ===== src/Reader/Etl/Scan.antt =====
-- `scanXML` of reader/etl_reader.go: the new events of a loaded file go to the records channel in
-- batches, and the state follows them.
use windns_logtail.Base.{
  Text, text_eq, Time, before, ℕ, zero, suc, ltb, Bool, true, false, not, List, [], ◌∷◌, ◌++◌, last,
  length, if◌then◌else◌,
}
use windns_logtail.Chunk.{read_chunk, Outcome, returned, panicked, running}
use windns_logtail.Checkpoint.State.{EventLogState}
use windns_logtail.Eventlog.Win.{EventKind, WinRecord, bare}

-- A loaded file: `Events`.
pub record Events (Event : Type 0) : Type 0 where
  pub id : Text
  pub event_logs : List (WinRecord Event)

-- The part of `ETL` that `scanXML` works on, with `deltaEvents`, and a log of what it hands on:
-- the states given to the checkpoint, the batches given to the channel `records`, and the files
-- removed, oldest first. The channel is drained by a consumer, so a send on it ends.
pub record Scan (Event : Type 0) : Type 0 where
  pub log_path : Text
  pub max_read : ℕ
  pub state : EventLogState
  pub delta_events : List (WinRecord Event)
  pub persisted : List EventLogState
  pub records : List (List (WinRecord Event))
  pub removed : List Text

-- `digest` is the hex MD5 of the record printed by "%+v".
module _ (E : EventKind) (digest : WinRecord E.Event → Text) where
  open E use {Event, system_time}

  abbrev pub time_of : WinRecord Event → Time
  time_of r = system_time r.event

  -- Newer than the state, or at its time with another digest.
  unfoldable pub is_new : EventLogState → WinRecord Event → Bool
  is_new st r =
      if before (time_of r) st.timestamp
      then false
      else if before st.timestamp (time_of r)
      then true
      else not (text_eq st.md5 (digest r))

  -- The loop over `events.EventLogs`; the state does not move in it.
  unfoldable pub add_new : EventLogState → List (WinRecord Event) → List (WinRecord Event)
  unfolding is_new
  add_new st [] = []
  add_new st (r ∷ rs) =
      let rest = add_new st rs in if is_new st r then bare r.event ∷ rest else rest

  -- The state after a batch that ends in `r`.
  unfoldable pub position : Text → WinRecord Event → EventLogState
  position log_path r = record {
    name = log_path;
    record_number = 0;
    timestamp = time_of r;
    md5 = digest r;
    bookmark = [];
  }

  -- One round of the loop over `deltaEvents`.
  unfoldable pub emit : Scan Event → WinRecord Event → List (WinRecord Event) → Scan Event
  unfolding position
  emit s r rs =
      let st = position s.log_path (last r rs) in
      record s {
        state = st;
        persisted = s.persisted ++ st ∷ [];
        records = s.records ++ (r ∷ rs) ∷ [];
      }

  -- An empty chunk would be indexed at -1.
  unfoldable pub emit_loop : ℕ → Scan Event → List (WinRecord Event) → ℕ → Outcome (Scan Event)
  unfolding emit read_chunk
  emit_loop zero s delta start = running
  emit_loop (suc fuel) s delta start = elim (ltb start (length delta)) [
    | false ↦ returned s
    | true ↦ elim (read_chunk delta s.max_read start).0 [
      | [] ↦ panicked
      | r ∷ rs ↦ emit_loop fuel (emit s r rs) delta (read_chunk delta s.max_read start).1
    ]
  ]

  -- What becomes of the scan when the loop is done.
  abbrev pub cleared : Outcome (Scan Event) → Outcome (Scan Event)
  cleared (returned s) = returned (record s { delta_events = [] })
  cleared panicked = panicked
  cleared running = running

  -- The events that are left after the filter; nothing is done if there are none.
  unfoldable pub emit_all : Scan Event → List (WinRecord Event) → Outcome (Scan Event)
  unfolding emit_loop
  emit_all s [] = returned s
  emit_all s (r ∷ rs) = cleared (emit_loop (suc (length (r ∷ rs))) s (r ∷ rs) 0)

  -- The case `events := <-w.events` at a file; the removal of the file is not checked.
  unfoldable pub scan_events : Scan Event → Events Event → Outcome (Scan Event)
  unfolding add_new emit_all
  scan_events s events =
      let delta = s.delta_events ++ add_new s.state events.event_logs in
      emit_all (record s { delta_events = delta; removed = s.removed ++ events.id ∷ [] }) delta

  -- The files in the order in which they come through the channel.
  unfoldable pub scan_all : Scan Event → List (Events Event) → Outcome (Scan Event)
  unfolding scan_events
  scan_all s [] = returned s
  scan_all s (f ∷ fs) = elim (scan_events s f) [
    | returned s' ↦ scan_all s' fs
    | panicked ↦ panicked
    | running ↦ running
  ]
