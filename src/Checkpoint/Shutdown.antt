-- ===== src/Checkpoint/Shutdown.antt =====
-- checkpoint/checkpoint.go: the batches of the worker, the states it takes in, and its shutdown.
use windns_logtail.Base.{
  Text, text_eq, ◌≡◌, refl, true, false, some, List, [], ◌∷◌, if◌then◌else◌, arith, pos, ltb_ℤ,
  ◌≤ℤ◌,
}
use windns_logtail.Base.Dict.{lookup, lookup-insert}
use windns_logtail.Checkpoint.State.{EventLogState, Yaml, AlwaysWrites, Os}
use windns_logtail.Checkpoint.Point.{World, persist, snapshot}
use windns_logtail.Checkpoint.Worker.{
  Select, from_done, from_save, from_timer, store, take_save, finish, work, shutdown,
}
use windns_logtail.Checkpoint.Rounds.{ended}
use windns_logtail.Checkpoint.Flush.{Succeeds, flush-Succeeds, flush_keeps}
use windns_logtail.Checkpoint.Recovery.{Inv, Saved, persist-Inv}

-- Whatever `persist` comes to, it leaves the map and the channels alone.
persist_keeps :
    (y : Yaml) (os : Os) (w : World)
    → ((persist y os w).0.point.states ≡ w.point.states)
      × ((persist y os w).0.point.save ≡ w.point.save)
      × ((persist y os w).0.point.max_updates ≡ w.point.max_updates)
      × ((persist y os w).0.point.running ≡ w.point.running)
unfolding persist
persist_keeps y os w = ground (arith, flush_keeps y os w)

-- If the system calls succeed, nothing is pending after `persist`.
persist-Succeeds :
    (y : Yaml) (os : Os) (w : World)
    → AlwaysWrites y
    → Succeeds os
    → (persist y os w).0.point.num_updates ≡ 0
unfolding persist
persist-Succeeds y os w writes ok =
    let (bytes, e) = writes (snapshot os.now w.point.states) in
    ground (arith, flush-Succeeds y os w ok e)

-- The round that takes a state files it under its name, over an older one, and touches no other
-- name; the state leaves the channel, whatever the system calls do.
pub work-lookup :
    (y : Yaml) (os : Os) (w : World) (s : EventLogState) (rest : List EventLogState) {w' : World}
    → w.point.save ≡ s ∷ rest
    → work y os from_save w ≡ some w'
    → (w'.point.save ≡ rest)
      × ((k : Text)
          → lookup k w'.point.states
            ≡ (if text_eq k s.name then some s else lookup k w.point.states))
unfolding work take_save store
work-lookup y os w s rest {w'} q e = (
  ground (arith, persist_keeps y os (store s rest w)),
  λ k. ground (arith, persist_keeps y os (store s rest w), lookup-insert k s.name s w.point.states),
)

-- While the system calls succeed, fewer updates than a batch are pending after every round that
-- began so.
work_bounds :
    (y : Yaml) (os : Os) (select : Select) (w : World) {w' : World}
    → AlwaysWrites y
    → Succeeds os
    → pos 1 ≤ℤ w.point.max_updates
    → ltb_ℤ (pos w.point.num_updates) w.point.max_updates ≡ true
    → work y os select w ≡ some w'
    → ltb_ℤ (pos w'.point.num_updates) w'.point.max_updates ≡ true
unfolding work take_save finish
work_bounds y os from_done w writes ok low few e =
    ground (arith, persist-Succeeds y os w writes ok, persist_keeps y os w)
work_bounds y os from_timer w writes ok low few e =
    ground (arith, persist-Succeeds y os w writes ok, persist_keeps y os w)
work_bounds y os from_save w {w'} writes ok low few e = taken w.point.save refl
  where
    taken :
        (save : List EventLogState)
        → w.point.save ≡ save
        → ltb_ℤ (pos w'.point.num_updates) w'.point.max_updates ≡ true
    taken [] q = ground arith
    taken (s ∷ rest) q = ground (
      arith,
      persist-Succeeds y os (store s rest w) writes ok,
      persist_keeps y os (store s rest w),
    )

-- After `Shutdown` the worker can end, and if the system calls succeed then the state file is the
-- document of the map in memory. A state that waits in the channel stays there, and is in neither.
pub shutdown_saves :
    (y : Yaml) (os : Os) (w : World)
    → AlwaysWrites y
    → Succeeds os
    → Inv y w
    → w.point.running ≡ true
    → (w' : World) × (work y os from_done (shutdown w) ≡ some w')
      × Saved y w'.disk w'.point.states
      × (w'.point.states ≡ w.point.states)
      × (w'.point.save ≡ w.point.save)
      × (w'.point.running ≡ false)
unfolding work finish shutdown
shutdown_saves y os w writes ok inv on =
    let v = shutdown w in
    let kept = persist_keeps y os v in
    let after = persist-Inv y os v (record { keyed = inv.keyed; clean = inv.clean }) in
    (
      ended (persist y os v).0,
      rw on,
      after.clean (persist-Succeeds y os v writes ok),
      kept.0,
      kept.1,
      refl,
    )
