-- ===== src/Checkpoint/Crash.antt =====
-- checkpoint/checkpoint.go: what a restart finds after a crash at any moment.
use windns_logtail.Base.{Text, ◌≡◌, Option, none, []}
use windns_logtail.Base.Dict.{lookup}
use windns_logtail.Checkpoint.State.{EventLogState, Yaml}
use windns_logtail.Checkpoint.Point.{
  Checkpoint, World, load_states, absent, unreadable, loaded, Loaded,
}
use windns_logtail.Checkpoint.Worker.{Reach}

-- A map that a run had in memory after one of its steps.
abbrev pub WasInMemory : Yaml → World → World → (Text → Option EventLogState) → Type 0
WasInMemory y w w' f =
    (v : World) × Reach y w v × Reach y v w' × ((k : Text) → f k ≡ lookup k v.point.states)

-- The entry in what `read` gives.
abbrev entry_loaded : Loaded → Text → Option EventLogState
entry_loaded (loaded ps) k = lookup k (load_states [] ps.states)
entry_loaded absent k = none
entry_loaded unreadable k = none
