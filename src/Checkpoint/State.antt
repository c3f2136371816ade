-- ===== src/Checkpoint/State.antt =====
-- The data that checkpoint/checkpoint.go persists, and the library and system calls by which it
-- does so: the YAML codec and the outcomes of the file operations.
use windns_logtail.Base.{Text, Time, zero_time, ℕ, Option, some, List, [], Bool, ◌≡◌}

-- `EventLogState`.
pub record EventLogState : Type 0 where
  pub name : Text
  pub record_number : ℕ  -- uint64
  pub timestamp : Time
  pub md5 : Text
  pub bookmark : Text

-- `EventLogState{}`.
abbrev pub zero_state : EventLogState
zero_state = record { name = []; record_number = 0; timestamp = zero_time; md5 = []; bookmark = [] }

-- `PersistedState`.
pub record PersistedState : Type 0 where
  pub update_time : Time
  pub states : List EventLogState

-- gopkg.in/yaml.v2, as far as it is called: `Marshal` and `Unmarshal` at `PersistedState`.
pub record Yaml : Type 0 where
  pub marshal : PersistedState → Option Text
  pub unmarshal : Text → Option PersistedState

-- What is relied on: a document that `Marshal` wrote is read back as it was.
abbrev pub ReadsBack : Yaml → Type 0
ReadsBack y =
    (ps : PersistedState) (bytes : Text) → y.marshal ps ≡ some bytes → y.unmarshal bytes ≡ some ps

-- And `Marshal` does not fail on such a value.
abbrev pub AlwaysWrites : Yaml → Type 0
AlwaysWrites y = (ps : PersistedState) → (bytes : Text) × (y.marshal ps ≡ some bytes)

-- The contents of the state file, and of the file with the suffix ".new" beside it; `none` where
-- there is no such file.
pub record Disk : Type 0 where
  pub file : Option Text
  pub temp : Option Text

-- What `create` says: a file, an error for which `os.IsNotExist` holds, or another error.
pub data Create : Type 0 where
  created not_exist denied : Create

-- The outcomes of the system calls of one `flush`.
pub record Os : Type 0 where
  pub create_first : Create
  pub mkdir_ok : Bool
  pub create_again : Create
  pub now : Time
  pub cut_short : Option Text  -- what a failed write left in the file; `none` if it succeeded
  pub rename_ok : Bool
