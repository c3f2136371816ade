-- ===== src/Reader/Manager.antt =====
-- reader/reader.go: the readers that are set up, and the start of their schedule.
pub mod Added
use windns_logtail.Base.{Bool, true, false, List, [], ◌∷◌, ◌++◌, ℤ}

-- The interface `Reader`, by what calls do to the value behind it, and whether those that may fail
-- do not.
pub record ReaderKind : Type 1 where
  pub Reader : Type 0
  pub set_max_read : ℤ → Reader → Reader
  pub set_point : Reader → Reader
  pub init : Reader → Reader × Bool
  pub set_cron : ℤ → Reader → Reader × Bool

module _ (k : ReaderKind) where
  open k use {Reader}

  -- A reader that `Init` has been called on, and whether that failed.
  unfoldable pub scheduled : ℤ → Reader × Bool → Reader × Bool
  scheduled internal (r, false) = (r, false)
  scheduled internal (r, true) = k.set_cron internal r

  -- The setters come first, then `Init`, then `SetCron`.
  unfoldable pub set_up : ℤ → ℤ → Reader → Reader × Bool
  unfolding scheduled
  set_up max_read internal r = scheduled internal (k.init (k.set_point (k.set_max_read max_read r)))

  -- The end of `AddReader`.
  unfoldable pub append_if : Reader × Bool → List Reader → List Reader × Bool
  append_if (r, false) readers = (readers, false)
  append_if (r, true) readers = (readers ++ r ∷ [], true)

  -- `AddReader` on the field `Readers`, and whether it returns no error.
  unfoldable pub add_reader : Reader → ℤ → ℤ → List Reader → List Reader × Bool
  unfolding set_up append_if
  add_reader r max_read internal readers = append_if (set_up max_read internal r) readers

  -- `Start`: an error if there is no reader; else the schedule starts.
  unfoldable pub start : List Reader → Bool
  start [] = false
  start (r ∷ rs) = true
