-- ===== src/Reader/Etl/Copies.antt =====
-- `Run` of reader/etl_reader.go: the trace is copied, unless too many copies are under way.
pub mod Blocked
use windns_logtail.Base.{
  Text, ℤ, pos, negsuc, ltb_ℤ, ℕ, zero, suc, Bool, true, false, List, [], ◌∷◌, ◌++◌, if◌then◌else◌,
}

-- The counter `count`, an int32 that stays far from its bounds, the channel `etlLogfiles`, how many
-- transfers are under way, and a log: how many runs were counted and have failed.
pub record Copies : Type 0 where
  pub count : ℤ
  pub etl_logfiles : List Text
  pub transferring : ℕ
  pub failed : ℕ

-- `os.Stat` of the folder: it is there, missing, or fails otherwise.
pub data Stat : Type 0 where
  present missing unknown : Stat

-- The outcomes of a run, with the name that the copy gets.
pub record RunOs : Type 0 where
  pub stat : Stat
  pub mkdir_ok : Bool
  pub copy_ok : Bool
  pub etl_logfile : Text

abbrev pub suc_ℤ : ℤ → ℤ
suc_ℤ (pos n) = pos (suc n)
suc_ℤ (negsuc zero) = pos 0
suc_ℤ (negsuc (suc n)) = negsuc n

abbrev pub pred_ℤ : ℤ → ℤ
pred_ℤ (pos zero) = negsuc 0
pred_ℤ (pos (suc n)) = pos n
pred_ℤ (negsuc n) = negsuc (suc n)

-- Whether the folder can be used.
unfoldable pub has_folder : RunOs → Stat → Bool
has_folder os present = true
has_folder os missing = os.mkdir_ok
has_folder os unknown = false

abbrev pub copies : RunOs → Bool
copies os = if has_folder os os.stat then os.copy_ok else false

-- The file is counted before the first call that may fail. A send that waits for room in the
-- channel counts as made.
unfoldable pub run : RunOs → Copies → Copies
unfolding has_folder
run os s =
    if ltb_ℤ (pos 10) s.count
    then s
    else if copies os
    then record s { count = suc_ℤ s.count; etl_logfiles = s.etl_logfiles ++ os.etl_logfile ∷ [] }
    else record s { count = suc_ℤ s.count; failed = suc s.failed }

-- A file is taken from the channel, by `transferETL`.
unfoldable pub taken : List Text → Copies → Copies
taken [] s = s
taken (file ∷ rest) s = record s { etl_logfiles = rest; transferring = suc s.transferring }

-- The end of the transfer of a file, with an error or without.
unfoldable pub transferred : ℕ → Copies → Copies
transferred zero s = s
transferred (suc n) s = record s { count = pred_ℤ s.count; transferring = n }

-- A run of the schedule, or what the goroutines of transfers do.
pub data Turn : Type 0 where
  runs : RunOs → Turn
  takes ends : Turn

unfoldable pub turn : Turn → Copies → Copies
unfolding run taken transferred
turn (runs os) s = run os s
turn takes s = taken s.etl_logfiles s
turn ends s = transferred s.transferring s

unfoldable pub turns : List Turn → Copies → Copies
unfolding turn
turns [] s = s
turns (t ∷ ts) s = turns ts (turn t s)

-- At the start, with the files that `loadFiles` has put into the channel, which are not counted.
abbrev pub loaded : List Text → Copies
loaded files = record { count = pos 0; etl_logfiles = files; transferring = 0; failed = 0 }
