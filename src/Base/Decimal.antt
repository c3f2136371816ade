-- ===== src/Base/Decimal.antt =====
-- Numbers in decimal, as `strconv.Itoa` and `%d` print them.
use windns_logtail.Base.Tests.{ltb, if◌then◌else◌}
use windns_logtail.Base.Clock.{ℤ, pos, negsuc}
use windns_logtail.Base.Bytes.{Text}
use windns_logtail.Base.Split.{lacks, lacks-append}
use Prim.Native.Nat.{ℕ, zero, suc, ◌+◌, ◌*◌, ◌/◌, ◌%◌, ◌<◌, ◌-◌}
use mathlib.Core.Path.{◌≡◌, refl}
use mathlib.Core.Bool.{true}
use mathlib.Core.List.{[], ◌∷◌, ◌++◌}
use native.Mathlib.Omega.{arith}

-- What a `let` binds waits, so the fuel costs nothing.
unfoldable pub digits_of : ℕ → ℕ → Text
digits_of zero n = []
digits_of (suc fuel) n =
    let rest = digits_of fuel (n / 10) ++ (b'0' + n % 10) ∷ [] in
    if ltb n 10 then (b'0' + n) ∷ [] else rest

unfoldable pub decimal : ℕ → Text
unfolding digits_of
decimal n = digits_of (suc n) n

unfoldable pub signed_decimal : ℤ → Text
unfolding decimal
signed_decimal (pos n) = decimal n
signed_decimal (negsuc n) = b'-' ∷ decimal (suc n)

-- The number that a row of digits stands for.
unfoldable pub value : ℕ → Text → ℕ
value acc [] = acc
value acc (c ∷ s) = value (acc * 10 + (c - b'0')) s

value-append : (acc : ℕ) (s t : Text) → value acc (s ++ t) ≡ value (value acc s) t
unfolding value
value-append acc [] t = refl
value-append acc (c ∷ s) t = value-append (acc * 10 + (c - b'0')) s t

value-digits_of : (fuel n : ℕ) → n < fuel → value 0 (digits_of fuel n) ≡ n
unfolding value digits_of
value-digits_of zero n h = absurd (omega arith)
value-digits_of (suc fuel) n h = ground (
  arith,
  value-append 0 (digits_of fuel (n / 10)) ((b'0' + n % 10) ∷ []),
  value-digits_of fuel (n / 10),
)

-- The digits give the number back, so different numbers print differently.
pub value-decimal : (n : ℕ) → value 0 (decimal n) ≡ n
unfolding decimal
value-decimal n = value-digits_of (suc n) n (omega arith)

-- A separator above the digits does not stand in a number.
digits_of-lacks : (sep fuel n : ℕ) → b'9' < sep → lacks sep (digits_of fuel n) ≡ true
unfolding digits_of
digits_of-lacks sep zero n h = refl
digits_of-lacks sep (suc fuel) n h = ground (
  arith,
  digits_of-lacks sep fuel (n / 10) h,
  lacks-append sep (digits_of fuel (n / 10)) ((b'0' + n % 10) ∷ []),
)

pub decimal-lacks : (sep n : ℕ) → b'9' < sep → lacks sep (decimal n) ≡ true
unfolding decimal
decimal-lacks sep n h = digits_of-lacks sep (suc n) n h

pub signed_decimal-lacks : (sep : ℕ) (n : ℤ) → b'9' < sep → lacks sep (signed_decimal n) ≡ true
unfolding signed_decimal
signed_decimal-lacks sep (pos n) h = decimal-lacks sep n h
signed_decimal-lacks sep (negsuc n) h = ground (arith, decimal-lacks sep (suc n) h)
