-- ===== src/Rising.antt =====
-- Batches of records that rise in time. The readers make them, and the consumers rely on them.
use windns_logtail.Base.{
  Time, before, not_after, ◌≡◌, refl, true, false, List, [], ◌∷◌, ◌++◌, last, arith, before_trans,
}

module _ {Record : Type 0} (timestamp : Record → Time) where
  -- Each record is newer than the one before it, and the first is newer than `t`.
  abbrev pub IsRising : Time → List Record → Type 0
  IsRising t [] = Unit
  IsRising t (r ∷ rs) = (before t (timestamp r) ≡ true) × IsRising (timestamp r) rs

  -- The time of the last record, or `t` if there is none.
  abbrev pub end_time : Time → List Record → Time
  end_time t [] = t
  end_time t (r ∷ rs) = end_time (timestamp r) rs

  pub end_time-last :
      (t : Time) (r : Record) (rs : List Record) → end_time t (r ∷ rs) ≡ timestamp (last r rs)
  end_time-last t r [] = refl
  end_time-last t r (x ∷ rs) = end_time-last (timestamp r) x rs

  pub end_time-append :
      (t : Time) (xs ys : List Record) → end_time t (xs ++ ys) ≡ end_time (end_time t xs) ys
  end_time-append t [] ys = refl
  end_time-append t (x ∷ xs) ys = end_time-append (timestamp x) xs ys

  pub IsRising-append :
      (t : Time) (xs ys : List Record)
      → IsRising t (xs ++ ys)
      → IsRising t xs × IsRising (end_time t xs) ys
  IsRising-append t [] ys h = (tt, h)
  IsRising-append t (x ∷ xs) ys h = ground (arith, IsRising-append (timestamp x) xs ys h.1)

  pub IsRising-weaken :
      (t u : Time) (xs : List Record) → not_after t u ≡ true → IsRising u xs → IsRising t xs
  IsRising-weaken t u [] h r = tt
  IsRising-weaken t u (x ∷ xs) h r = (ground arith, r.1)

  -- A nonempty chunk of a rising batch ends after the state's time.
  pub IsRising-last :
      (t : Time) (r : Record) (rs : List Record)
      → IsRising t (r ∷ rs)
      → not_after (timestamp (last r rs)) t ≡ false
  IsRising-last t r [] h = ground arith
  IsRising-last t r (x ∷ rs) h =
      IsRising-last t x rs (IsRising-weaken t (timestamp r) (x ∷ rs) (ground arith) h.1)

  -- The last record of a rising batch comes after what the batch starts from.
  pub rising_last_after :
      (t : Time) (r : Record) (rs : List Record)
      → IsRising t (r ∷ rs)
      → before t (timestamp (last r rs)) ≡ true
  rising_last_after t r [] h = h.0
  rising_last_after t r (x ∷ rs) h =
      before_trans t (timestamp r) (timestamp (last x rs)) h.0
        (rising_last_after (timestamp r) x rs h.1)

  pub append-IsRising :
      (t : Time) (xs ys : List Record)
      → IsRising t xs
      → IsRising (end_time t xs) ys
      → IsRising t (xs ++ ys)
  append-IsRising t [] ys h k = k
  append-IsRising t (x ∷ xs) ys h k = (h.0, append-IsRising (timestamp x) xs ys h.1 k)
