-- ===== src/Base/Clock.antt =====
-- Instants. The source reads a `time.Time` by `UnixNano` and `Unix` alone, so a time is its signed
-- count of nanoseconds since 1970.
use Prim.Native.Nat.{ℕ, suc, ◌+◌, ◌/◌, ◌≤◌}
use mathlib.Core.Path.{◌≡◌}
use mathlib.Core.Logic.{◌⊎◌}
use mathlib.Core.Bool.{Bool, true}
use native.Mathlib.Omega.{arith}
use windns_logtail.Base.Tests.{ltb, leb}

-- `negsuc n` is -(n + 1).
pub data ℤ : Type 0 where
  pos : ℕ → ℤ
  negsuc : ℕ → ℤ

abbrev pub pos_part : ℤ → ℕ
pos_part (pos n) = n
pos_part (negsuc n) = 0

abbrev pub neg_part : ℤ → ℕ
neg_part (pos n) = 0
neg_part (negsuc n) = suc n

infix 50 ◌≤ℤ◌
abbrev pub ◌≤ℤ◌ : ℤ → ℤ → Type 0
a ≤ℤ b = pos_part a + neg_part b ≤ pos_part b + neg_part a

abbrev pub ltb_ℤ : ℤ → ℤ → Bool
ltb_ℤ a b = ltb (pos_part a + neg_part b) (pos_part b + neg_part a)

abbrev pub leb_ℤ : ℤ → ℤ → Bool
leb_ℤ a b = leb (pos_part a + neg_part b) (pos_part b + neg_part a)

abbrev pub Time : Type 0
Time = ℤ

abbrev pub nano_per_second : ℕ
nano_per_second = 1_000_000_000

-- `Unix`: whole seconds, rounded down, of a time in the range of `UnixNano`.
abbrev pub unix : Time → ℤ
unix (pos n) = pos (n / nano_per_second)
unix (negsuc n) = negsuc (n / nano_per_second)

-- `time.Time{}.UnixNano()`: the zero time lies outside the range of an int64, and this is the
-- wrapped value that Go computes.
abbrev pub zero_time : Time
zero_time = negsuc 6_795_364_578_871_345_151

-- The time order, which the source writes as a comparison of two `UnixNano`.
abbrev pub before : Time → Time → Bool
before = ltb_ℤ

abbrev pub not_after : Time → Time → Bool
not_after = leb_ℤ

pub before_trans : (s t u : Time) → before s t ≡ true → before t u ≡ true → before s u ≡ true
before_trans s t u h k = ground arith

pub ≤ℤ_total : (a b : ℤ) → (a ≤ℤ b) ⊎ (b ≤ℤ a)
≤ℤ_total a b = omega arith
