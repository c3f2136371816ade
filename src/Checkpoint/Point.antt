-- ===== src/Checkpoint/Point.antt =====
-- `Checkpoint` of checkpoint/checkpoint.go and its methods, each run under its lock.
use windns_logtail.Base.{
  Text, Time, ℤ, pos, ltb_ℤ, nano_per_second, ℕ, ◌==◌, Bool, true, false, not, Option, none, some,
  List, [], ◌∷◌, map, if◌then◌else◌,
}
use windns_logtail.Base.Dict.{Dict, lookup, insert, keys, or_zero}
use windns_logtail.Base.Sort.{sort_texts}
use windns_logtail.Checkpoint.State.{
  EventLogState, zero_state, PersistedState, Yaml, Disk, created, not_exist, denied, Os,
}

-- The wait group and the locks are left out: each method below is one critical section, and
-- `running` says whether the goroutine of `run` is alive.
pub record Checkpoint : Type 0 where
  pub num_updates : ℕ
  pub max_updates : ℤ
  pub flush_interval : ℤ
  pub sort : List Text
  pub states : Dict EventLogState
  pub save : List EventLogState  -- a channel of capacity 1
  pub done : Bool  -- the channel is closed
  pub running : Bool

-- A checkpoint with the two files that it writes.
pub record World : Type 0 where
  pub disk : Disk
  pub point : Checkpoint

pub data FlushError : Type 0 where
  no_file no_yaml no_write no_rename : FlushError

-- The file is created; its directory is made first if that is what is missing.
unfoldable pub create_temp : Os → Bool
create_temp os = elim os.create_first [
  | created ↦ true
  | not_exist ↦ elim os.mkdir_ok [
    | true ↦ elim os.create_again [ created ↦ true | not_exist ↦ false | denied ↦ false ]
    | false ↦ false
  ]
  | denied ↦ false
]

-- `c.states[name]`.
abbrev pub state_of : Dict EventLogState → Text → EventLogState
state_of states name = or_zero zero_state (lookup name states)

-- What is written: the states in ascending order of their names.
unfoldable pub snapshot : Time → Dict EventLogState → PersistedState
snapshot now states = record {
  update_time = now;
  states = map (state_of states) (sort_texts (keys states));
}

-- `flush`, after the temporary file is there and the document made.
unfoldable pub write_temp : Os → Disk → Text → Disk × Option FlushError
write_temp os d bytes = elim os.cut_short [
  | some part ↦ (record d { temp = some part }, some no_write)
  | none ↦
      if os.rename_ok
      then (record { file = some bytes; temp = none }, none)
      else (record d { temp = some bytes }, some no_rename)
]

unfoldable pub flush : Yaml → Os → World → World × Option FlushError
unfolding create_temp write_temp
flush y os w =
    if not (create_temp os)
    then (w, some no_file)
    else let c = record w.point { sort = sort_texts (keys w.point.states) } in
      elim (y.marshal (snapshot os.now w.point.states)) [
        | none ↦ (record { disk = record w.disk { temp = some [] }; point = c }, some no_yaml)
        | some bytes ↦
            let (d, e) = write_temp os w.disk bytes in (record { disk = d; point = c }, e)
      ]

-- Writes the state if it has changed; an update count of 0 means that it has not.
unfoldable pub persist : Yaml → Os → World → World × Bool
persist y os w =
    if w.point.num_updates == 0
    then (w, false)
    else let (w', e) = flush y os w in
      elim e [
        | some err ↦ (w', false)
        | none ↦ (record w' { point = record w'.point { num_updates = 0 } }, true)
      ]

-- `States`, a copy of the map.
unfoldable pub states : World → Dict EventLogState
states w = w.point.states

-- `PersistState`: `none` means that the channel is full and the caller blocks.
unfoldable pub persist_state : EventLogState → World → Option World
persist_state st w = elim w.point.save [
  | [] ↦ some (record w { point = record w.point { save = st ∷ [] } })
  | s ∷ rest ↦ none
]

-- `Persist`.
unfoldable pub persist_fields : Text → ℕ → Time → Text → World → Option World
persist_fields name number ts bookmark =
    persist_state (record {
      name = name;
      record_number = number;
      timestamp = ts;
      md5 = [];
      bookmark = bookmark;
    })

-- `read`: the file may be missing, or the read may fail otherwise.
pub data Loaded : Type 0 where
  absent unreadable : Loaded
  loaded : PersistedState → Loaded

unfoldable pub read : Yaml → Bool → Disk → Loaded
read y readable d = if not readable then unreadable else elim d.file [
  | none ↦ absent
  | some bytes ↦ elim (y.unmarshal bytes) [ none ↦ unreadable | some ps ↦ loaded ps ]
]

-- The loop over `ps.States`.
unfoldable pub load_states : Dict EventLogState → List EventLogState → Dict EventLogState
load_states d [] = d
load_states d (s ∷ ss) = load_states (insert s.name s d) ss

unfoldable pub at_least : ℤ → ℤ → ℤ
at_least lo x = if ltb_ℤ x lo then lo else x

-- The struct that `NewCheckpoint` makes, with the states that it read.
unfoldable pub fresh_point : ℤ → ℤ → Dict EventLogState → Checkpoint
unfolding at_least
fresh_point max_updates interval found = record {
  num_updates = 0;
  max_updates = at_least (pos 1) max_updates;
  flush_interval = at_least (pos nano_per_second) interval;
  sort = [];
  states = found;
  save = [];
  done = false;
  running = false;
}

-- The end of `NewCheckpoint`: the first flush, then the worker is started.
unfoldable pub start_point : Yaml → Os → World → Disk × Option Checkpoint
start_point y os w =
    let (w', e) = flush y os w in
    elim e [
      | some err ↦ (w'.disk, none)
      | none ↦ (w'.disk, some (record w'.point { running = true }))
    ]

-- `NewCheckpoint`, by what `read` gave it.
unfoldable pub start_from : Yaml → Os → ℤ → ℤ → Disk → Loaded → Disk × Option Checkpoint
unfolding load_states fresh_point
start_from y os max_updates interval d unreadable = (d, none)
start_from y os max_updates interval d absent =
    start_point y os (record { disk = d; point = fresh_point max_updates interval [] })
start_from y os max_updates interval d (loaded ps) =
    start_point y os
      (record { disk = d; point = fresh_point max_updates interval (load_states [] ps.states) })

-- `NewCheckpoint`. No checkpoint means that it returned an error.
unfoldable pub new_checkpoint : Yaml → Os → Bool → ℤ → ℤ → Disk → Disk × Option Checkpoint
unfolding read start_from
new_checkpoint y os readable max_updates interval d =
    start_from y os max_updates interval d (read y readable d)
