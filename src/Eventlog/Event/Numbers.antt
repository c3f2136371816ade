-- ===== src/Eventlog/Event/Numbers.antt =====
-- eventlog/normal_log.go: which versions `Version` reads.
use windns_logtail.Base.{
  Text, ℕ, zero, suc, ◌+◌, ◌*◌, ◌/◌, ◌%◌, ◌<◌, ◌-◌, ltb, leb, sym, Bool-cases, inl, inr, Option,
  none, some, List, [], ◌∷◌, ◌++◌, ◌≡◌, refl, ap, ◌∙◌, append-nil, arith, if◌then◌else◌,
}
use windns_logtail.Base.Decimal.{decimal, digits_of}
use windns_logtail.Eventlog.Event.{
  Token, chars, closes, char_data, digits_upto, parse_uint, or_old, version,
}

abbrev further : ℕ → ℕ → Option ℕ → Option ℕ
further most c none = none
further most c (some n) = digits_upto most n (c ∷ [])

digits_upto-append :
    (most acc : ℕ) (s : Text) (c : ℕ)
    → digits_upto most acc (s ++ c ∷ []) ≡ further most c (digits_upto most acc s)
unfolding digits_upto
digits_upto-append most acc [] c = refl
digits_upto-append most acc (d ∷ s) c =
    ground (arith, digits_upto-append most (acc * 10 + (d - b'0')) s c)

digits_upto-digits_of :
    (most fuel n : ℕ)
    → n < fuel
    → digits_upto most 0 (digits_of fuel n) ≡ (if leb n most then some n else none)
unfolding digits_upto digits_of
digits_upto-digits_of most zero n h = absurd (omega arith)
digits_upto-digits_of most (suc fuel) n h = ground (
  arith,
  digits_upto-append most 0 (digits_of fuel (n / 10)) (b'0' + n % 10),
  digits_upto-digits_of most fuel (n / 10),
)

digits_of-some : (fuel n : ℕ) → n < fuel → (c : ℕ) × (s : Text) × (digits_of fuel n ≡ c ∷ s)
unfolding digits_of
digits_of-some zero n h = absurd (omega arith)
digits_of-some (suc fuel) n h = elim (Bool-cases (ltb n 10)) [
  | inl e ↦ (b'0' + n, [], rw e refl)
  | inr e ↦
      let (c, s, p) = digits_of-some fuel (n / 10) (ground arith) in
      (c, s ++ (b'0' + n % 10) ∷ [], rw e (rw p refl))
]

-- A printed number is parsed back, if it is in range.
parse_uint-decimal :
    (most n : ℕ) → parse_uint most (decimal n) ≡ (if leb n most then some n else none)
unfolding parse_uint decimal
parse_uint-decimal most n =
    let (c, s, p) = digits_of-some (suc n) n (omega arith) in
    ap (parse_uint most) p
    ∙ ap (digits_upto most 0) (sym p)
    ∙ digits_upto-digits_of most (suc n) n (omega arith)

or_old-if :
    (old n : ℕ) → or_old old (if leb n 255 then some n else none) ≡ (if ltb n 256 then n else old)
or_old-if old n = ground arith

-- A version that is printed in decimal is read back if it is below 256, and leaves the version as
-- it was if it is not; what follows the element is left to the decoder.
pub version-decimal :
    (old n : ℕ) (ts : List Token)
    → version old (chars (decimal n) ∷ closes ∷ ts) ≡ some (if ltb n 256 then n else old, ts)
unfolding version char_data
version-decimal old n ts =
    ap (λ s. some (or_old old (parse_uint 255 s), ts)) (append-nil (decimal n))
    ∙ ap (λ o. some (or_old old o, ts)) (parse_uint-decimal 255 n)
    ∙ ap (λ v. some (v, ts)) (or_old-if old n)
