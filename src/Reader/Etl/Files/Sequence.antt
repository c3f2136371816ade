-- ===== src/Reader/Etl/Files/Sequence.antt =====
-- reader/etl_reader.go: files pass `wait` in the order in which `transferETL` took them.
use windns_logtail.Base.{ℕ, List, [], ◌∷◌, ◌++◌}
use windns_logtail.Reader.Etl.Files.{Files, Attempt, done, waits, panics, races}

-- The first list is the second with some of its elements left out.
pub data IsWithin : List ℕ → List ℕ → Type 0 where
  nil : IsWithin [] []
  both : {x : ℕ} {xs ys : List ℕ} → IsWithin xs ys → IsWithin (x ∷ xs) (x ∷ ys)
  skip : {y : ℕ} {xs ys : List ℕ} → IsWithin xs ys → IsWithin xs (y ∷ ys)

module _ (files : List ℕ) where
  -- The files that have passed, then those in the list, then those to be taken.
  abbrev pub InSequence : Files → Type 0
  InSequence s = IsWithin (s.left ++ (s.sort_list ++ s.etl_logfiles)) files

  abbrev pub Fits : Attempt → Type 0
  Fits (done s) = InSequence s
  Fits waits = Unit
  Fits panics = Unit
  Fits races = Unit
