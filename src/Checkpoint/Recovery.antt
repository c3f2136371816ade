-- ===== src/Checkpoint/Recovery.antt =====
-- checkpoint/checkpoint.go: what a restart finds, after any interleaving of the worker, the
-- callers and failing system calls.
use windns_logtail.Base.{
  Text, text_eq_iff, Time, ◌≡◌, ap, inl, inr, Bool, true, none, some, List, [], ◌∷◌, arith, ℤ, pos,
  ◌≤ℤ◌, nano_per_second,
}
use windns_logtail.Base.Dict.{Dict, lookup, insert, lookup-insert}
use windns_logtail.Checkpoint.State.{EventLogState, Yaml, ReadsBack, AlwaysWrites, Disk, Os}
use windns_logtail.Checkpoint.Point.{
  Checkpoint, World, snapshot, flush, persist, persist_state, load_states, read, new_checkpoint,
  start_point, start_from, fresh_point, at_least, absent, unreadable, loaded, Loaded,
}
use windns_logtail.Checkpoint.Worker.{
  Select, store, work, shutdown, Step, works, sends, shuts, Reach, here, next,
}
use windns_logtail.Checkpoint.Rounds.{work_keeps}
use windns_logtail.Checkpoint.Snapshot.{IsKeyed, lookup-load_states-snapshot}
use windns_logtail.Checkpoint.Flush.{
  Succeeds, flush-Succeeds, flush_atomic, flush_keeps, persist_cases,
}

-- The state file is a whole document of the given map.
pub record Saved (y : Yaml) (disk : Disk) (states : Dict EventLogState) : Type 0 where
  pub now : Time
  pub bytes : Text
  pub written : y.marshal (snapshot now states) ≡ some bytes
  pub on_disk : disk.file ≡ some bytes

-- The states stand under their names, and a map that counts no update is the one on disk.
pub record Inv (y : Yaml) (w : World) : Type 0 where
  pub keyed : IsKeyed w.point.states
  pub clean : w.point.num_updates ≡ 0 → Saved y w.disk w.point.states

pub insert-IsKeyed :
    (s : EventLogState) (d : Dict EventLogState) → IsKeyed d → IsKeyed (insert s.name s d)
insert-IsKeyed s d keyed k t e =
    ground (arith, keyed k t, lookup-insert k s.name s d, text_eq_iff k s.name)

flush-Saved :
    (y : Yaml) (os : Os) (w : World)
    → (flush y os w).1 ≡ none
    → Saved y (flush y os w).0.disk (flush y os w).0.point.states
flush-Saved y os w h = elim (flush_atomic y os w) [
  | inl (_, (bytes, e, f)) ↦ record {
    now = os.now;
    bytes = bytes;
    written = rw ((flush_keeps y os w).0) e;
    on_disk = f;
  }
  | inr (bad, _) ↦ absurd (bad h)
]

pub persist-Inv : (y : Yaml) (os : Os) (w : World) → Inv y w → Inv y (persist y os w).0
persist-Inv y os w inv =
    persist_cases (Inv y) y os w (λ _. inv)
      (λ more failed. record {
        keyed = rw (flush_keeps y os w).0 inv.keyed;
        clean = λ zero. absurd (more (ground (arith, flush_keeps y os w)));
      })
      λ more ok. record {
        keyed = rw (flush_keeps y os w).0 inv.keyed;
        clean = λ _. flush-Saved y os w ok;
      }

store-Inv :
    (y : Yaml) (s : EventLogState) (rest : List EventLogState) (w : World)
    → Inv y w
    → Inv y (store s rest w)
unfolding store
store-Inv y s rest w inv = record {
  keyed = insert-IsKeyed s w.point.states inv.keyed;
  clean = λ zero. absurd (omega arith);
}

work-Inv :
    (y : Yaml) (os : Os) (select : Select) (w : World) {w' : World}
    → work y os select w ≡ some w'
    → Inv y w
    → Inv y w'
work-Inv y os select w =
    work_keeps (Inv y) y os select w (persist-Inv y os) (store-Inv y)
      λ v inv. record { keyed = inv.keyed; clean = inv.clean }

persist_state-Inv :
    (y : Yaml) (st : EventLogState) (w : World) {w' : World}
    → persist_state st w ≡ some w'
    → Inv y w
    → Inv y w'
unfolding persist_state
persist_state-Inv y st w e inv = ground arith

Step-Inv : {y : Yaml} {w w' : World} → Step y w w' → Inv y w → Inv y w'
unfolding shutdown
Step-Inv {y} {w} (works os select e) inv = work-Inv y os select w e inv
Step-Inv {y} {w} (sends st e) inv = persist_state-Inv y st w e inv
Step-Inv {y} {w} (shuts e) inv = rw e (record { keyed = inv.keyed; clean = inv.clean })

pub Reach-Inv : {y : Yaml} {w w' : World} → Reach y w w' → Inv y w → Inv y w'
Reach-Inv here inv = inv
Reach-Inv (next r s) inv = Step-Inv s (Reach-Inv r inv)

pub load_states-IsKeyed :
    (d : Dict EventLogState) (ss : List EventLogState) → IsKeyed d → IsKeyed (load_states d ss)
unfolding load_states
load_states-IsKeyed d [] keyed = keyed
load_states-IsKeyed d (s ∷ ss) keyed =
    load_states-IsKeyed (insert s.name s d) ss (insert-IsKeyed s d keyed)

pub nil-IsKeyed : IsKeyed []
unfolding lookup
nil-IsKeyed k s e = cc

-- `start_point` yields a checkpoint exactly when its flush succeeds.
pub start_point_lem :
    (y : Yaml) (os : Os) (w : World) {c : Checkpoint}
    → (start_point y os w).1 ≡ some c
    → ((flush y os w).1 ≡ none) × (c ≡ record (flush y os w).0.point { running = true })
unfolding start_point
start_point_lem y os w e = ground arith

start_point-disk : (y : Yaml) (os : Os) (w : World) → (start_point y os w).0 ≡ (flush y os w).0.disk
unfolding start_point
start_point-disk y os w = ground arith

start_point-Inv :
    (y : Yaml) (os : Os) (w : World) {c : Checkpoint}
    → IsKeyed w.point.states
    → (start_point y os w).1 ≡ some c
    → Inv y (record { disk = (start_point y os w).0; point = c })
start_point-Inv y os w keyed e =
    let (ok, q) = start_point_lem y os w e in
    rw (start_point-disk y os w, q)
      (record { keyed = rw (flush_keeps y os w).0 keyed; clean = λ _. flush-Saved y os w ok })

-- What `NewCheckpoint` promises of a world that it sets up.
abbrev pub IsFresh : Yaml → Disk → Checkpoint → Type 0
IsFresh y d c =
    Inv y (record { disk = d; point = c })
    × (pos 1 ≤ℤ c.max_updates)
    × (pos nano_per_second ≤ℤ c.flush_interval)

at_least_le : (lo x : ℤ) → lo ≤ℤ at_least lo x
unfolding at_least
at_least_le lo x = ground arith

start_point-IsFresh :
    (y : Yaml) (os : Os) (d : Disk) (m i : ℤ) (found : Dict EventLogState) {c : Checkpoint}
    → IsKeyed found
    → (start_point y os (record { disk = d; point = fresh_point m i found })).1 ≡ some c
    → IsFresh y (start_point y os (record { disk = d; point = fresh_point m i found })).0 c
unfolding fresh_point
start_point-IsFresh y os d m i found keyed e =
    let w : World = record { disk = d; point = fresh_point m i found } in
    let (ok, q) = start_point_lem y os w e in
    let kept = flush_keeps y os w in
    (
      start_point-Inv y os w keyed e,
      rw (ap (λ p. p.max_updates) q, kept.2) (at_least_le (pos 1) m),
      rw (ap (λ p. p.flush_interval) q, kept.6) (at_least_le (pos nano_per_second) i),
    )

start_from-IsFresh :
    (y : Yaml) (os : Os) (m i : ℤ) (d : Disk) (l : Loaded) {c : Checkpoint}
    → (start_from y os m i d l).1 ≡ some c
    → IsFresh y (start_from y os m i d l).0 c
unfolding start_from
start_from-IsFresh y os m i d unreadable e = ground arith
start_from-IsFresh y os m i d absent e = start_point-IsFresh y os d m i [] nil-IsKeyed e
start_from-IsFresh y os m i d (loaded ps) e =
    start_point-IsFresh y os d m i _ (load_states-IsKeyed [] ps.states nil-IsKeyed) e

-- A checkpoint that `NewCheckpoint` returns satisfies the invariant, with a batch of at least one
-- update and an interval of at least one second, whatever was on disk and whatever was asked for.
new_checkpoint-IsFresh :
    (y : Yaml) (os : Os) (readable : Bool) (max_updates interval : ℤ) (d : Disk) {c : Checkpoint}
    → (new_checkpoint y os readable max_updates interval d).1 ≡ some c
    → IsFresh y (new_checkpoint y os readable max_updates interval d).0 c
unfolding new_checkpoint
new_checkpoint-IsFresh y os readable m i d e = start_from-IsFresh y os m i d (read y readable d) e

-- A saved document is what `read` finds.
read-Saved :
    {y : Yaml} {d : Disk} {states : Dict EventLogState}
    → ReadsBack y
    → (saved : Saved y d states) → read y true d ≡ loaded (snapshot saved.now states)
unfolding read
read-Saved back saved = rw (saved.on_disk, back _ _ saved.written)

start_point-Succeeds :
    (y : Yaml) (os : Os) (w : World)
    → AlwaysWrites y
    → Succeeds os
    → (start_point y os w).1 ≡ some (record (flush y os w).0.point { running = true })
unfolding start_point
start_point-Succeeds y os w writes ok =
    let (bytes, e) = writes (snapshot os.now w.point.states) in
    let good = flush-Succeeds y os w ok e in ground arith

-- A map saved on disk is the map of a checkpoint that is opened on it.
new_checkpoint-Saved :
    {y : Yaml} {d : Disk} {states : Dict EventLogState} (os : Os) (m i : ℤ)
    → ReadsBack y
    → AlwaysWrites y
    → IsKeyed states
    → Saved y d states
    → Succeeds os
    → (c : Checkpoint) × ((new_checkpoint y os true m i d).1 ≡ some c)
      × ((k : Text) → lookup k c.states ≡ lookup k states)
unfolding new_checkpoint start_from
new_checkpoint-Saved {y} {d} {states} os m i back writes keyed saved ok =
    let found : Dict EventLogState = load_states [] (snapshot saved.now states).states in
    let w : World = record { disk = d; point = fresh_point m i found } in
    (
      record (flush y os w).0.point { running = true },
      rw (read-Saved back saved) (start_point-Succeeds y os w writes ok),
      λ k. rw (flush_keeps y os w).0 (lookup-load_states-snapshot saved.now states k keyed),
    )

-- After any steps, once no update is pending, a restart finds every state again: if the system
-- calls succeed, `NewCheckpoint` returns a checkpoint with the same map.
pub restart_finds :
    {y : Yaml} {w w' : World} (os : Os) (max_updates interval : ℤ)
    → ReadsBack y
    → AlwaysWrites y
    → Inv y w
    → Reach y w w'
    → w'.point.num_updates ≡ 0
    → Succeeds os
    → (c : Checkpoint) × ((new_checkpoint y os true max_updates interval w'.disk).1 ≡ some c)
      × ((k : Text) → lookup k c.states ≡ lookup k w'.point.states)
restart_finds os m i back writes inv r zero ok =
    let reached = Reach-Inv r inv in
    new_checkpoint-Saved os m i back writes reached.keyed (reached.clean zero) ok
