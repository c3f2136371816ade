-- ===== src/Scheduler/Point.antt =====
-- The checkpoint of a manager as cmd/wineventtail/schduler.go uses it: it asks for the state of a
-- name, and gives it one if there is none.
use windns_logtail.Base.{Text, Time, ℕ, suc, none, some, List, [], ◌∷◌, ◌++◌, take}
use windns_logtail.Base.Dict.{Dict, lookup}
use windns_logtail.Checkpoint.State.{EventLogState, zero_state}
use windns_logtail.Checkpoint.Point.{Checkpoint, load_states}

-- The states that were there at the start, those given by `PersistState` since, oldest first, and
-- how often a state was asked for.
pub record Point : Type 0 where
  pub found : Dict EventLogState
  pub given : List EventLogState
  pub asked : ℕ

-- At each time that a state is asked for: the time of day, and how many of the states given the
-- worker has filed.
pub record PointOs : Type 0 where
  pub now : ℕ → Time
  pub filed : ℕ → ℕ

-- A checkpoint that `NewCheckpoint` has just returned.
abbrev pub opened : Checkpoint → Point
opened c = record { found = c.states; given = []; asked = 0 }

-- What `States` returns: a state that is filed stands under its name.
unfoldable pub states_at : PointOs → Point → Dict EventLogState
states_at os p = load_states p.found (take (os.filed p.asked) p.given)

unfoldable pub new_state : Text → Time → EventLogState
new_state name now = record zero_state { name = name; timestamp = now }

-- The state that is there, or a new one, which is given to the checkpoint. The caller waits while
-- the channel of the checkpoint is full; its worker empties it.
unfoldable pub state_for : PointOs → Text → Point → EventLogState × Point
unfolding states_at new_state
state_for os name p = elim (lookup name (states_at os p)) [
  | some st ↦ (st, record p { asked = suc p.asked })
  | none ↦
      let st = new_state name (os.now p.asked) in
      (st, record p { given = p.given ++ st ∷ []; asked = suc p.asked })
]
