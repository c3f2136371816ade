-- ===== src/Checkpoint/Worker.antt =====
-- The goroutine `run` of checkpoint/checkpoint.go, one `select` at a time, among the calls that
-- the rest of the program makes.
use windns_logtail.Base.{
  ◌+◌, pos, ltb_ℤ, true, false, ◌≡◌, Option, none, some, List, [], ◌∷◌, if◌then◌else◌,
}
use windns_logtail.Base.Dict.{insert}
use windns_logtail.Checkpoint.State.{EventLogState, Yaml, Os}
use windns_logtail.Checkpoint.Point.{World, persist, persist_state}

-- The channel that `select` takes.
pub data Select : Type 0 where
  from_done from_save from_timer : Select

-- `c.states[s.Name] = s` and `c.numUpdates++`.
unfoldable pub store : EventLogState → List EventLogState → World → World
store s rest w = record w {
  point = record w.point {
    states = insert s.name s w.point.states;
    num_updates = w.point.num_updates + 1;
    save = rest;
  };
}

-- The case of a received state: it is written once enough of them have come.
unfoldable pub take_save : Yaml → Os → World → Option World
unfolding store
take_save y os w = elim w.point.save [
  | [] ↦ none
  | s ∷ rest ↦
      let w' = store s rest w in
      some
        (if ltb_ℤ (pos w'.point.num_updates) w'.point.max_updates then w' else (persist y os w').0)
]

-- The deferred `persist` runs when the loop is left.
unfoldable pub finish : Yaml → Os → World → World
finish y os w =
    let w' = (persist y os w).0 in record w' { point = record w'.point { running = false } }

-- One round of the loop. `none` means that the chosen channel is not ready, or that the goroutine
-- has ended.
unfoldable pub work : Yaml → Os → Select → World → Option World
unfolding take_save finish
work y os select w = elim w.point.running [
  | false ↦ none
  | true ↦ elim select [
    | from_done ↦ if w.point.done then some (finish y os w) else none
    | from_save ↦ take_save y os w
    | from_timer ↦ some (persist y os w).0
  ]
]

-- The first call of `Shutdown`; a later one finds the channel closed.
unfoldable pub shutdown : World → World
shutdown w = record w { point = record w.point { done = true } }

-- What can happen to a running checkpoint, in any order.
pub data Step (y : Yaml) (w : World) : World → Type 0 where
  works : (os : Os) (select : Select) {w' : World} → work y os select w ≡ some w' → Step y w w'
  sends : (st : EventLogState) {w' : World} → persist_state st w ≡ some w' → Step y w w'
  shuts : {w' : World} → w' ≡ shutdown w → Step y w w'

pub data Reach (y : Yaml) (w : World) : World → Type 0 where
  here : Reach y w w
  next : {v u : World} → Reach y w v → Step y v u → Reach y w u
