-- ===== src/Checkpoint/Flush.antt =====
-- checkpoint/checkpoint.go: what `flush` does to the state file on each of its branches.
use windns_logtail.Base.{
  Bool-cases, Option-cases, ◌==◌, ◌↔◌, Text, ◌≡◌, ◌≢◌, ◌⊎◌, inl, inr, true, Option, none, some,
  arith,
}
use windns_logtail.Checkpoint.State.{Yaml, Os}
use windns_logtail.Checkpoint.Point.{World, create_temp, snapshot, flush, persist}

-- `bytes` is the whole document of the current states.
abbrev pub Holds : Yaml → Os → World → Option Text → Type 0
Holds y os w content =
    (bytes : Text) × (y.marshal (snapshot os.now w.point.states) ≡ some bytes)
    × (content ≡ some bytes)

-- The system calls of a flush all succeed.
pub record Succeeds (os : Os) : Type 0 where
  pub makes : create_temp os ≡ true
  pub writes : os.cut_short ≡ none
  pub renames : os.rename_ok ≡ true

-- Whatever the system calls do, a flush either reports success and the state file is the whole
-- document of the current states, or it reports an error and the state file is what it was.
pub flush_atomic :
    (y : Yaml) (os : Os) (w : World)
    → (((flush y os w).1 ≡ none) × Holds y os w (flush y os w).0.disk.file)
      ⊎ (((flush y os w).1 ≢ none) × ((flush y os w).0.disk.file ≡ w.disk.file))
unfolding flush
flush_atomic y os w = ground arith

-- A flush leaves the map, the counts and the channels as they are.
pub flush_keeps :
    (y : Yaml) (os : Os) (w : World)
    → ((flush y os w).0.point.states ≡ w.point.states)
      × ((flush y os w).0.point.num_updates ≡ w.point.num_updates)
      × ((flush y os w).0.point.max_updates ≡ w.point.max_updates)
      × ((flush y os w).0.point.save ≡ w.point.save)
      × ((flush y os w).0.point.done ≡ w.point.done)
      × ((flush y os w).0.point.running ≡ w.point.running)
      × ((flush y os w).0.point.flush_interval ≡ w.point.flush_interval)
unfolding flush
flush_keeps y os w = ground arith

pub flush-Succeeds :
    (y : Yaml) (os : Os) (w : World) {bytes : Text}
    → Succeeds os
    → y.marshal (snapshot os.now w.point.states) ≡ some bytes
    → (flush y os w).1 ≡ none
unfolding flush
flush-Succeeds y os w ok e = ground arith

-- A flush reports success exactly when every system call and the marshalling succeed.
pub flush_success_iff :
    (y : Yaml) (os : Os) (w : World)
    → ((flush y os w).1 ≡ none)
      ↔ (Succeeds os × ((bytes : Text) × (y.marshal (snapshot os.now w.point.states) ≡ some bytes)))
unfolding flush
flush_success_iff y os w = (
  λ h. (
    record { makes = ground arith; writes = ground arith; renames = ground arith },
    ground arith,
  ),
  λ (ok, (bytes, e)). flush-Succeeds y os w ok e,
)

-- The update count after a successful flush.
abbrev pub saved : World → World
saved w = record w { point = record w.point { num_updates = 0 } }

-- The three outcomes of `persist`.
pub persist_cases {ℓ} :
    (P : World → Type ℓ) (y : Yaml) (os : Os) (w : World)
    → (w.point.num_updates ≡ 0 → P w)
    → (w.point.num_updates ≢ 0 → (flush y os w).1 ≢ none → P (flush y os w).0)
    → (w.point.num_updates ≢ 0 → (flush y os w).1 ≡ none → P (saved (flush y os w).0))
    → P (persist y os w).0
unfolding persist
persist_cases P y os w unchanged failed done = elim (Bool-cases (w.point.num_updates == 0)) [
  | inl zero ↦ rw zero (unchanged (ground arith))
  | inr more ↦ elim (Option-cases (flush y os w).1) [
    | inl e ↦ rw (more, e, persist) (done (ground arith) e)
    | inr (err, e) ↦ rw (more, e, persist) (failed (ground arith) (λ n. cc))
  ]
]
