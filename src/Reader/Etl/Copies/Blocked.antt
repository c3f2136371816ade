-- ===== src/Reader/Etl/Copies/Blocked.antt =====
-- reader/etl_reader.go: failed copies are counted and never counted back.
use windns_logtail.Base.{
  Text, ℕ, ℤ, pos, negsuc, ltb_ℤ, zero, suc, ◌+◌, ◌≤◌, ◌<◌, true, List, [], ◌∷◌, length,
  length-append, ◌≡◌, refl, sym, ap, ◌∙◌, arith, inl, inr, lt→ltb, Bool-cases,
}
use windns_logtail.Reader.Etl.Copies.{
  Copies, RunOs, suc_ℤ, pred_ℤ, copies, run, taken, transferred, Turn, runs, takes, ends, turn,
  turns, loaded,
}

-- The first number less the second.
less : ℕ → ℕ → ℤ
less m zero = pos m
less zero (suc n) = negsuc n
less (suc m) (suc n) = less m n

suc_ℤ-less : (m n : ℕ) → suc_ℤ (less m n) ≡ less (suc m) n
unfolding less
suc_ℤ-less m zero = refl
suc_ℤ-less zero (suc zero) = refl
suc_ℤ-less zero (suc (suc n)) = refl
suc_ℤ-less (suc m) (suc n) = suc_ℤ-less m n

pred_ℤ-less : (m n : ℕ) → pred_ℤ (less (suc m) n) ≡ less m n
unfolding less
pred_ℤ-less m zero = refl
pred_ℤ-less zero (suc zero) = refl
pred_ℤ-less zero (suc (suc n)) = refl
pred_ℤ-less (suc m) (suc n) = pred_ℤ-less m n

less-over : (m n : ℕ) → 10 + n < m → ltb_ℤ (pos 10) (less m n) ≡ true
unfolding less
less-over m zero h = lt→ltb _ _ (omega arith)
less-over zero (suc n) h = absurd (omega arith)
less-over (suc m) (suc n) h = less-over m n (omega arith)

-- How much is counted: the failures, the files in the channel and those under way.
abbrev counted : Copies → ℕ
counted s = s.failed + (length s.etl_logfiles + s.transferring)

-- The counter is what is counted, less the files that were never counted but are counted back.
IsBalanced : ℕ → Copies → Type 0
IsBalanced k s = s.count ≡ less (counted s) k

same_less : (m n k : ℕ) → m ≡ n → less m k ≡ less n k
same_less m n k e = ap (λ i. less i k) e

run-IsBalanced : (k : ℕ) (os : RunOs) (s : Copies) → IsBalanced k s → IsBalanced k (run os s)
unfolding IsBalanced run
run-IsBalanced k os s b = elim (Bool-cases (ltb_ℤ (pos 10) s.count)) [
  | inl many ↦ rw many b
  | inr few ↦ elim (Bool-cases (copies os)) [
    | inl copied ↦
        rw (few, copied)
          (ap suc_ℤ b
            ∙ suc_ℤ-less (counted s) k
            ∙ same_less _ _ k (omega (arith, length-append s.etl_logfiles (os.etl_logfile ∷ []))))
    | inr not_copied ↦
        rw (few, not_copied) (ap suc_ℤ b ∙ suc_ℤ-less (counted s) k ∙ same_less _ _ k (omega arith))
  ]
]

taken-IsBalanced :
    (k : ℕ) (files : List Text) (s : Copies)
    → s.etl_logfiles ≡ files
    → IsBalanced k s
    → IsBalanced k (taken files s)
unfolding IsBalanced taken
taken-IsBalanced k [] s e b = b
taken-IsBalanced k (file ∷ rest) s e b = b ∙ same_less _ _ k (omega (arith, ap length e))

transferred-IsBalanced :
    (k n : ℕ) (s : Copies) → s.transferring ≡ n → IsBalanced k s → IsBalanced k (transferred n s)
unfolding IsBalanced transferred
transferred-IsBalanced k zero s e b = b
transferred-IsBalanced k (suc n) s e b =
    ap pred_ℤ (
      b ∙ same_less (counted s) (suc (s.failed + (length s.etl_logfiles + n))) k (omega (arith, e)))
    ∙ pred_ℤ-less (s.failed + (length s.etl_logfiles + n)) k

turn-IsBalanced : (k : ℕ) (t : Turn) (s : Copies) → IsBalanced k s → IsBalanced k (turn t s)
unfolding turn
turn-IsBalanced k (runs os) s b = run-IsBalanced k os s b
turn-IsBalanced k takes s b = taken-IsBalanced k s.etl_logfiles s refl b
turn-IsBalanced k ends s b = transferred-IsBalanced k s.transferring s refl b

turns-IsBalanced :
    (k : ℕ) (ts : List Turn) (s : Copies) → IsBalanced k s → IsBalanced k (turns ts s)
unfolding turns
turns-IsBalanced k [] s b = b
turns-IsBalanced k (t ∷ ts) s b = turns-IsBalanced k ts (turn t s) (turn-IsBalanced k t s b)

taken-failed : (files : List Text) (s : Copies) → (taken files s).failed ≡ s.failed
unfolding taken
taken-failed [] s = refl
taken-failed (file ∷ rest) s = refl

transferred-failed : (n : ℕ) (s : Copies) → (transferred n s).failed ≡ s.failed
unfolding transferred
transferred-failed zero s = refl
transferred-failed (suc n) s = refl

-- Failures are never forgotten.
turn-failed : (t : Turn) (s : Copies) → s.failed ≤ (turn t s).failed
unfolding turn run
turn-failed (runs os) s = ground arith
turn-failed takes s = omega (arith, taken-failed s.etl_logfiles s)
turn-failed ends s = omega (arith, transferred-failed s.transferring s)

turns-failed : (ts : List Turn) (s : Copies) → s.failed ≤ (turns ts s).failed
unfolding turns
turns-failed [] s = omega arith
turns-failed (t ∷ ts) s = omega (arith, turn-failed t s, turns-failed ts (turn t s))

less_self : (n : ℕ) → less n n ≡ pos 0
unfolding less
less_self zero = refl
less_self (suc n) = less_self n

loaded-IsBalanced : (files : List Text) → IsBalanced (length files) (loaded files)
unfolding IsBalanced
loaded-IsBalanced files =
    sym (less_self (length files)) ∙ same_less _ _ (length files) (omega arith)

run_blocked : (os : RunOs) (s : Copies) → ltb_ℤ (pos 10) s.count ≡ true → run os s ≡ s
unfolding run
run_blocked os s many = rw many refl

-- However runs of the schedule, transfers that begin and transfers that end have come one after the
-- other: once more than ten copies have failed, and one more for each file that was there at the
-- start, every later run is skipped, whatever is transferred in between, and also when nothing is
-- under way any more.
pub turns-failed_blocks :
    (files : List Text) (ts later : List Turn) (os : RunOs)
    → 10 + length files < (turns ts (loaded files)).failed
    → let s = turns later (turns ts (loaded files)) in run os s ≡ s
unfolding IsBalanced
turns-failed_blocks files ts later os many =
    let s = turns ts (loaded files) in
    let b = turns-IsBalanced (length files) ts (loaded files) (loaded-IsBalanced files) in
    let b' = turns-IsBalanced (length files) later s b in
    run_blocked os (turns later s) (
      ap (ltb_ℤ (pos 10)) b'
      ∙ less-over (counted (turns later s)) (length files)
          (omega (arith, many, turns-failed later s)))
