-- ===== src/Eventlog/Win.antt =====
-- eventlog/normal_log.go: `WinRecord`, a Windows event with its position.
use windns_logtail.Base.{Text, Time, ℕ, []}
use windns_logtail.Checkpoint.State.{EventLogState, zero_state}
use windns_logtail.Eventlog.Kind.{RecordKind}

-- `sys.Event` of winlogbeat is any type with the two fields that are read here.
pub record EventKind : Type 1 where
  pub Event : Type 0
  pub system_time : Event → Time
  pub record_id : Event → ℕ

-- `WinRecord`.
pub record WinRecord (Event : Type 0) : Type 0 where
  pub event : Event
  pub file : Text
  pub api : Text
  pub xml : Text
  pub offset : EventLogState

-- `WinRecord{Event: e}`.
abbrev pub bare : {Event : Type 0} → Event → WinRecord Event
bare e = record { event = e; file = []; api = []; xml = []; offset = zero_state }

-- `WinRecord` as a `Record`: its `String` is its JSON.
abbrev pub win_kind : (E : EventKind) → (WinRecord E.Event → Text) → RecordKind
win_kind E json = record {
  Record = WinRecord E.Event;
  timestamp = λ r. E.system_time r.event;
  string = json;
  json = json;
}
