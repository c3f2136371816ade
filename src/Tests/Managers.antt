-- ===== src/Tests/Managers.antt =====
-- consumer/consumer.go, reader/reader.go, and `Run` of reader/etl_reader.go, at concrete inputs.
use windns_logtail.Base.{
  lit, Bool, pos, ℕ, true, false, List, [], ◌∷◌, ◌++◌, ◌≡◌, refl, none, some, text_eq, arith,
}
use windns_logtail.Consumer.Manager.{ConsumerKind, Received, stop_signal, batch}
use windns_logtail.Consumer.Manager.Topics.{Added, added_for}
use windns_logtail.Reader.Etl.Copies.{
  RunOs, missing, present, run, Turn, runs, takes, ends, turns, loaded,
}
use windns_logtail.Reader.Etl.Copies.Blocked.{turns-failed_blocks}
use windns_logtail.Reader.Manager.{ReaderKind}
use windns_logtail.Reader.Manager.Added.{Call}

-- A consumer keeps what it was given, and never ends with an empty batch.
abbrev kind : ConsumerKind
kind = record {
  Consumer = List ℕ;
  Record = ℕ;
  set_point = λ c. c;
  handle_events = λ c rs. elim rs [ [] ↦ none | r ∷ more ↦ some (c ++ r ∷ more) ];
  shutdown = λ c. c;
}

abbrev calls : List (Added kind)
calls =
    record { topic = lit "dns"; consumer = 1 ∷ []; events = 0 }
    ∷ record { topic = lit "win"; consumer = 2 ∷ []; events = 1 }
    ∷ record { topic = lit "dns"; consumer = 3 ∷ []; events = 2 }
    ∷ []

two_for_dns : added_for kind (lit "dns") calls ≡ (1 ∷ []) ∷ (3 ∷ []) ∷ []
unfolding text_eq
two_for_dns = refl

abbrev received : List (Received kind)
received = batch (7 ∷ []) ∷ stop_signal ∷ batch (8 ∷ 9 ∷ []) ∷ []

abbrev no_copy : RunOs
no_copy = record { stat = missing; mkdir_ok = true; copy_ok = false; etl_logfile = lit "1.etl" }

abbrev copy : RunOs
copy = record { stat = present; mkdir_ok = true; copy_ok = true; etl_logfile = lit "2.etl" }

copied : (run copy (loaded [])).etl_logfiles ≡ lit "2.etl" ∷ []
unfolding run
copied = refl

-- Twelve failed copies, with a transfer of the file that was there at the start.
abbrev no_copies : List Turn
no_copies =
    runs no_copy
    ∷ runs no_copy
    ∷ runs no_copy
    ∷ runs no_copy
    ∷ takes
    ∷ runs no_copy
    ∷ runs no_copy
    ∷ runs no_copy
    ∷ ends
    ∷ runs no_copy
    ∷ runs no_copy
    ∷ runs no_copy
    ∷ runs no_copy
    ∷ runs no_copy
    ∷ []

twelve_failed : (turns no_copies (loaded (lit "1.etl" ∷ []))).failed ≡ 12
unfolding turns
twelve_failed = refl

turns-failed_blocks_example :
    let s = turns (runs copy ∷ []) (turns no_copies (loaded (lit "1.etl" ∷ []))) in run copy s ≡ s
turns-failed_blocks_example =
    turns-failed_blocks (lit "1.etl" ∷ []) no_copies (runs copy ∷ []) copy
      (omega (arith, twelve_failed))

-- A reader is whether its `Init` works.
abbrev readers : ReaderKind
readers = record {
  Reader = Bool;
  set_max_read = λ n r. r;
  set_point = λ r. r;
  init = λ r. (r, r);
  set_cron = λ n r. (r, true);
}

abbrev reader_calls : List (Call readers)
reader_calls =
    record { reader = false; max_read = pos 9; internal = pos 1 }
    ∷ record { reader = true; max_read = pos 9; internal = pos 1 }
    ∷ []
