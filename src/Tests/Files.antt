-- ===== src/Tests/Files.antt =====
-- reader/etl_reader.go: the goroutines at two files.
use windns_logtail.Base.{[], ◌∷◌, true, false, if◌then◌else◌}
use windns_logtail.Reader.Etl.Files.{Files, loaded_files}
use windns_logtail.Reader.Etl.Shutdown.{transfer, same, Stopping, signalled}

-- A trace and an XML file were there at the start. Both have passed `wait` in order, and the trace
-- is sent first.
abbrev swapped : Files
swapped = record (loaded_files [] []) { leaving = 1 ∷ []; events = 2 ∷ []; left = 1 ∷ 2 ∷ [] }

-- A shutdown that has set `stop` and sent its signals, with one transfer at work.
abbrev halfway : Stopping
halfway = record {
  busy = λ t. if same transfer t then 1 else 0;
  looping = λ t. false;
  phase = signalled;
  up = true;
}
