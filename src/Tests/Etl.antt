-- ===== src/Tests/Etl.antt =====
-- reader/etl_reader.go at concrete inputs.
use windns_logtail.Base.{
  some, length, false, true, List, ◌++◌, keep, contains, leb, ◌&&◌, if◌then◌else◌, Text, lit,
  text_eq, pos, ℕ, [], ◌∷◌, ◌≡◌, refl, concat, arith,
}
use windns_logtail.Reader.Etl.Load.{
  Folder, entries, list_logfile, is_etl, is_xml, load_files, loaded, blocked,
}
use windns_logtail.Reader.Etl.Load.Full.{load_files-fit}
use windns_logtail.Chunk.{returned, panicked, read_chunk}
use windns_logtail.Checkpoint.State.{EventLogState, zero_state}
use windns_logtail.Eventlog.Win.{EventKind, WinRecord, bare}
use windns_logtail.Reader.Etl.Scan.{Events, Scan, add_new, position, scan_events}
use windns_logtail.Reader.Etl.Batches.{Emitted, scan_events-Emitted}
use windns_logtail.Reader.Etl.Rescan.{IsAt, scan_events_again, scan_events_replays}

-- An event is its time and its digest.
abbrev pub kind : EventKind
kind = record { Event = ℕ × ℕ; system_time = λ e. pos e.0; record_id = λ e. 0 }

abbrev pub digest : WinRecord (ℕ × ℕ) → Text
digest r = r.event.1 ∷ []

abbrev rec : ℕ → ℕ → WinRecord (ℕ × ℕ)
rec t d = bare (t, d)

abbrev pub scanner : Scan (ℕ × ℕ)
scanner = record {
  log_path = lit "a.etl";
  max_read = 2;
  state = record zero_state { timestamp = pos 3; md5 = 1 ∷ [] };
  delta_events = [];
  persisted = [];
  records = [];
  removed = [];
}

abbrev pub trace : Events (ℕ × ℕ)
trace = record { id = lit "1.xml"; event_logs = rec 4 1 ∷ rec 5 2 ∷ rec 6 3 ∷ [] }

end_of_trace : EventLogState
end_of_trace = record {
  name = lit "a.etl";
  record_number = 0;
  timestamp = pos 6;
  md5 = 3 ∷ [];
  bookmark = [];
}

scan_trace :
    scan_events kind digest scanner trace
    ≡ returned (record scanner {
      state = end_of_trace;
      persisted = position kind digest (lit "a.etl") (rec 5 2) ∷ end_of_trace ∷ [];
      records = (rec 4 1 ∷ rec 5 2 ∷ []) ∷ (rec 6 3 ∷ []) ∷ [];
      removed = lit "1.xml" ∷ [];
    })
unfolding scan_events read_chunk end_of_trace text_eq
scan_trace = refl

-- The program passes 10000; a batch size of 0 would index at -1.
scan_zero : scan_events kind digest (record scanner { max_read = 0 }) trace ≡ panicked
unfolding scan_events read_chunk
scan_zero = refl

scan_events-Emitted_example :
    (v : Scan (ℕ × ℕ)) × (scan_events kind digest scanner trace ≡ returned v)
    × Emitted kind digest
        (record scanner { removed = lit "1.xml" ∷ [] })
        v
        (add_new kind digest scanner.state trace.event_logs)
    × (v.delta_events ≡ [])
scan_events-Emitted_example = scan_events-Emitted kind digest scanner trace (omega arith) refl

scan_events_again_example :
    (v : Scan (ℕ × ℕ)) × (w : Scan (ℕ × ℕ)) × (scan_events kind digest scanner trace ≡ returned v)
    × (concat v.records ≡ trace.event_logs)
    × (scan_events kind digest v trace ≡ returned w)
    × (w.records ≡ v.records)
    × (w.state ≡ v.state)
scan_events_again_example =
    scan_events_again kind digest scanner trace (omega arith) refl (refl, (refl, (refl, tt)))
      (refl, (refl, (refl, tt)))

scan_events_replays_example :
    (v : Scan (ℕ × ℕ)) × (scan_events kind digest scanner
        (record { id = lit "1.xml"; event_logs = rec 2 7 ∷ rec 3 9 ∷ rec 3 1 ∷ [] })
      ≡ returned v)
    × (concat v.records ≡ rec 3 9 ∷ [])
    × IsAt kind digest v.state (rec 3 9)
scan_events_replays_example =
    scan_events_replays kind digest scanner (lit "1.xml") (rec 2 7 ∷ []) (rec 3 9) (rec 3 1)
      (omega arith) refl (refl, refl) (refl, tt) refl (λ e. cc) refl

-- Two traces, an XML file, and a folder.
abbrev left_over : Folder
left_over = entries (
    record { name = lit "a.etl"; is_dir = false }
    ∷ record { name = lit "c.etl"; is_dir = true }
    ∷ record { name = lit "b.xml"; is_dir = false }
    ∷ [])

abbrev left_files : List Text
left_files = lit "logs/a.etl" ∷ lit "logs/b.xml" ∷ []

listed : list_logfile (λ n. lit "logs/" ++ n) left_over ≡ some left_files
unfolding list_logfile
listed = refl

load_files-fit_example :
    let etls = keep is_etl left_files in
    let xmls = keep is_xml left_files in
    load_files (λ n. lit "logs/" ++ n) (λ l. l) left_over ≡ (
      if leb (length etls) 20 && leb (length xmls) 20
      then loaded (record { etl_logfiles = etls; sort_list = xmls; xml_logfiles = xmls })
      else blocked)
load_files-fit_example = load_files-fit (λ n. lit "logs/" ++ n) (λ l. l) left_over left_files listed

both_kinds :
    load_files (λ n. lit "logs/" ++ n) (λ l. l) left_over
    ≡ loaded (record {
      etl_logfiles = lit "logs/a.etl" ∷ [];
      sort_list = lit "logs/b.xml" ∷ [];
      xml_logfiles = lit "logs/b.xml" ∷ [];
    })
unfolding load_files contains
both_kinds = refl
