-- ===== src/Eventlog/Kind.antt =====
-- eventlog/log.go: the interface `Record`, which readers and consumers know records by.
use windns_logtail.Base.{Text, Time}

-- A type of records with its methods, and with `json.Marshal` of it.
pub record RecordKind : Type 1 where
  pub Record : Type 0
  pub timestamp : Record → Time
  pub string : Record → Text
  pub json : Record → Text
