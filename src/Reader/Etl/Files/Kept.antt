-- ===== src/Reader/Etl/Files/Kept.antt =====
-- reader/etl_reader.go: no file is lost between the goroutines, and `wait` always has a front.
use windns_logtail.Base.{
  ℕ, ◌+◌, ◌-◌, ◌==◌, ==_iff, ltb→lt, ◌<◌, ◌≤◌, Bool, true, false, List, [], ◌∷◌, ◌++◌, ◌≡◌, refl,
  sym, ap, subst, arith, if◌then◌else◌, Bool-cases, inl, inr,
}
use windns_logtail.Reader.Etl.Files.{
  Files, count, remove_one, holds, Attempt, done, waits, panics, races, Action, take_etl, take_xml,
  transfer_ok, transfer_error, load_error, leave_wait, send, add_sort_file, receive_xml,
  leave_if_first, step, Steps, start, then_step,
}

count-append : (i : ℕ) (xs ys : List ℕ) → count i (xs ++ ys) ≡ count i xs + count i ys
unfolding count
count-append i [] ys = omega arith
count-append i (x ∷ xs) ys = ground (arith, count-append i xs ys)

count-nil : (i : ℕ) → count i [] ≡ 0
unfolding count
count-nil i = refl

-- How often `i` is the one file `j`.
unfoldable one : ℕ → ℕ → ℕ
one i j = if i == j then 1 else 0

count-one : (i j : ℕ) (xs : List ℕ) → count i (j ∷ xs) ≡ one i j + count i xs
unfolding count one
count-one i j xs = ground arith

count-added : (i j : ℕ) (xs : List ℕ) → count i (xs ++ j ∷ []) ≡ count i xs + one i j
unfolding count
count-added i j xs = omega (arith, count-append i xs (j ∷ []), count-one i j [])

count-remove_one : (i j : ℕ) (xs : List ℕ) → count i (remove_one j xs) ≡ count i xs - one i j
unfolding count remove_one one
count-remove_one i j [] = ground arith
count-remove_one i j (x ∷ xs) = ground (arith, count-remove_one i j xs)

one_most : (i j : ℕ) (xs : List ℕ) → 0 < count j xs → one i j ≤ count i xs
unfolding one
one_most i j xs h = elim (Bool-cases (i == j)) [
  | inl same ↦
      let there : 0 < count i xs = subst (λ m. 0 < count m xs) (sym ((==_iff i j).0 same)) h in
      rw same (omega (arith, there))
  | inr other ↦ rw other (omega arith)
]

module _ (etl xml : List ℕ) where
  -- The list holds just the files that are being transferred, wait to be loaded or are loaded;
  -- every file is still to be taken, in the list, about to be sent, or sent; and it is still to be
  -- taken, in the list, has passed `wait`, or its load failed.
  pub record IsKept (s : Files) : Type 0 where
    pub listed :
        (i : ℕ)
        → count i s.sort_list ≡ count i s.transferring + count i s.xml_logfiles + count i s.loading
    pub kept :
        (i : ℕ)
        → count i s.etl_logfiles + count i s.sort_list + count i s.leaving + count i s.events
          ≡ count i xml + count i etl
    pub accounted :
        (i : ℕ)
        → count i s.left + count i s.sort_list + count i s.etl_logfiles + count i s.failed
          ≡ count i xml + count i etl

  -- A step keeps the files, and does not panic.
  abbrev pub IsFine : Attempt → Type 0
  IsFine (done s) = IsKept s
  IsFine waits = Unit
  IsFine races = Unit
  IsFine panics = 0 < 0

  if_IsFine : (b : Bool) (a : Attempt) → (b ≡ true → IsFine a) → IsFine (if b then a else waits)
  if_IsFine true a h = h refl
  if_IsFine false a h = tt

  add_sort_file-IsFine :
      (queue : List ℕ) (s : Files)
      → s.etl_logfiles ≡ queue
      → IsKept s
      → IsFine (add_sort_file queue s)
  unfolding add_sort_file
  add_sort_file-IsFine [] s e v = tt
  add_sort_file-IsFine (j ∷ rest) s e v = record {
    listed =
        λ i. omega (arith, v.listed i, count-added i j s.sort_list, count-added i j s.transferring);
    kept = λ i.
        omega (arith, v.kept i, count-added i j s.sort_list, count-one i j rest, ap (count i) e);
    accounted = λ i.
        omega
          (arith, v.accounted i, count-added i j s.sort_list, count-one i j rest, ap (count i) e);
  }

  receive_xml-IsFine :
      (queue : List ℕ) (s : Files)
      → s.xml_logfiles ≡ queue
      → IsKept s
      → IsFine (receive_xml queue s)
  unfolding receive_xml
  receive_xml-IsFine [] s e v = tt
  receive_xml-IsFine (j ∷ rest) s e v = record {
    listed = λ i.
        omega (arith, v.listed i, count-added i j s.loading, count-one i j rest, ap (count i) e);
    kept = v.kept;
    accounted = v.accounted;
  }

  leave_if_first-IsFine :
      (j : ℕ) (front : List ℕ) (s : Files)
      → s.sort_list ≡ front
      → 0 < count j s.loading
      → IsKept s
      → IsFine (leave_if_first j front s)
  unfolding leave_if_first
  leave_if_first-IsFine j [] s e some v =
      omega (arith, v.listed j, ap (count j) e, count-nil j, some)
  leave_if_first-IsFine j (k ∷ rest) s e some v = if_IsFine (j == k) _ (λ same.
      let j_is_k : j ≡ k = (==_iff j k).0 same in
      record {
        listed = λ i. omega (
          arith,
          v.listed i,
          ap (count i) e,
          count-one i k rest,
          ap (one i) j_is_k,
          count-remove_one i j s.loading,
          one_most i j s.loading some,
        );
        kept = λ i. omega (
          arith,
          v.kept i,
          ap (count i) e,
          count-one i k rest,
          ap (one i) j_is_k,
          count-added i j s.leaving,
        );
        accounted = λ i. omega (
          arith,
          v.accounted i,
          ap (count i) e,
          count-one i k rest,
          ap (one i) j_is_k,
          count-added i j s.left,
        );
      })

  -- A file that leaves one group of tasks, and perhaps the list, for another.
  step-IsFine : (a : Action) (s : Files) → IsKept s → IsFine (step a s)
  unfolding step
  step-IsFine take_etl s v = add_sort_file-IsFine s.etl_logfiles s refl v
  step-IsFine take_xml s v = receive_xml-IsFine s.xml_logfiles s refl v
  step-IsFine (transfer_ok j) s v = if_IsFine (holds j s.transferring) _ (λ h. record {
    listed = λ i. omega (
      arith,
      v.listed i,
      count-remove_one i j s.transferring,
      one_most i j s.transferring (ltb→lt _ _ h),
      count-added i j s.xml_logfiles,
    );
    kept = v.kept;
    accounted = v.accounted;
  })
  step-IsFine (transfer_error j) s v = if_IsFine (holds j s.transferring) _ (λ h. tt)
  step-IsFine (load_error j) s v = if_IsFine (holds j s.loading) _ (λ h. record {
    listed = λ i. omega (
      arith,
      v.listed i,
      count-remove_one i j s.loading,
      one_most i j s.loading (ltb→lt _ _ h),
      count-remove_one i j s.sort_list,
    );
    kept = λ i. omega (
      arith,
      v.kept i,
      v.listed i,
      one_most i j s.loading (ltb→lt _ _ h),
      count-remove_one i j s.sort_list,
      count-added i j s.events,
    );
    accounted = λ i. omega (
      arith,
      v.accounted i,
      v.listed i,
      one_most i j s.loading (ltb→lt _ _ h),
      count-remove_one i j s.sort_list,
      count-added i j s.failed,
    );
  })
  step-IsFine (leave_wait j) s v =
      if_IsFine (holds j s.loading) _
        (λ h. leave_if_first-IsFine j s.sort_list s refl (ltb→lt _ _ h) v)
  step-IsFine (send j) s v = if_IsFine (holds j s.leaving) _ (λ h. record {
    listed = v.listed;
    kept = λ i. omega (
      arith,
      v.kept i,
      count-remove_one i j s.leaving,
      one_most i j s.leaving (ltb→lt _ _ h),
      count-added i j s.events,
    );
    accounted = v.accounted;
  })

  pub IsKept-Steps : {s t : Files} → Steps s t → IsKept s → IsKept t
  IsKept-Steps start v = v
  IsKept-Steps (then_step {t = t} steps a e) v =
      subst IsFine e (step-IsFine a t (IsKept-Steps steps v))
