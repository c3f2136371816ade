-- ===== src/Reader/Etl/Shutdown/Crash.antt =====
-- When `Shutdown` of reader/etl_reader.go ends the process.
use windns_logtail.Base.{◌<◌, ◌≤◌, false, ◌≡◌}
use windns_logtail.Reader.Etl.Shutdown.{Task, Stopping, can_begin}

-- No task can begin.
abbrev pub IsEnding : Stopping → Type 0
IsEnding s = (t : Task) → can_begin t s ≡ false

-- What a run keeps, if no task can begin: none begins, and the process is up, or a task was at work.
record Kept (s u : Stopping) : Type 0 where
  ending : IsEnding u
  fewer : (t : Task) → u.busy t ≤ s.busy t
  reason : u.up ≡ false → (t : Task) × (0 < s.busy t)
