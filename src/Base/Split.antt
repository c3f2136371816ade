-- ===== src/Base/Split.antt =====
-- `strings.Split` at one byte and `strings.Join` with it.
use windns_logtail.Base.Tests.{◌==◌, if◌then◌else◌}
use windns_logtail.Base.Bytes.{Text, join}
use windns_logtail.Base.Lists.{all, All}
use Prim.Native.Nat.{ℕ}
use mathlib.Core.Path.{◌≡◌, refl, ap, ◌∙◌}
use mathlib.Core.Logic.{◌≢◌}
use mathlib.Core.Bool.{Bool, true, not}
use mathlib.Core.List.{List, [], ◌∷◌, ◌++◌, map}
use native.Mathlib.Omega.{arith}

-- A byte before the first part.
abbrev pub onto_head : ℕ → List Text → List Text
onto_head c [] = (c ∷ []) ∷ []
onto_head c (p ∷ ps) = (c ∷ p) ∷ ps

unfoldable pub split : ℕ → Text → List Text
split sep [] = [] ∷ []
split sep (c ∷ s) = let rest = split sep s in if c == sep then [] ∷ rest else onto_head c rest

-- A part in which the separator does not stand.
abbrev pub lacks : ℕ → Text → Bool
lacks sep = all (λ c. not (c == sep))

pub lacks-append :
    (sep : ℕ) (p q : Text) → lacks sep p ≡ true → lacks sep q ≡ true → lacks sep (p ++ q) ≡ true
lacks-append sep [] q h k = k
lacks-append sep (c ∷ p) q h k = ground (arith, lacks-append sep p q)

pub split-append :
    (sep : ℕ) (p s : Text) → lacks sep p ≡ true → split sep (p ++ sep ∷ s) ≡ p ∷ split sep s
unfolding split
split-append sep [] s h = ground arith
split-append sep (c ∷ p) s h = ground (arith, split-append sep p s)

split-lacks : (sep : ℕ) (p : Text) → lacks sep p ≡ true → split sep p ≡ p ∷ []
unfolding split
split-lacks sep [] h = refl
split-lacks sep (c ∷ p) h = ground (arith, split-lacks sep p)

split-join_cons :
    (sep : ℕ) (p : Text) (ps : List Text)
    → All (λ q. lacks sep q ≡ true) (p ∷ ps)
    → split sep (join (sep ∷ []) (p ∷ ps)) ≡ p ∷ ps
unfolding join
split-join_cons sep p [] h = split-lacks sep p h.0
split-join_cons sep p (q ∷ qs) h =
    split-append sep p (join (sep ∷ []) (q ∷ qs)) h.0 ∙ ap (◌∷◌ p) (split-join_cons sep q qs h.1)

-- Parts without the separator are found again.
pub split-join :
    (sep : ℕ) (ps : List Text)
    → ps ≢ []
    → All (λ q. lacks sep q ≡ true) ps
    → split sep (join (sep ∷ []) ps) ≡ ps
split-join sep [] some_part h = absurd (some_part refl)
split-join sep (p ∷ ps) some_part h = split-join_cons sep p ps h

-- One byte for another.
abbrev pub swap_byte : ℕ → ℕ → ℕ → ℕ
swap_byte old new c = if c == old then new else c

join-onto_head : (sep : Text) (c : ℕ) (ps : List Text) → join sep (onto_head c ps) ≡ c ∷ join sep ps
unfolding join
join-onto_head sep c [] = refl
join-onto_head sep c (p ∷ []) = refl
join-onto_head sep c (p ∷ q ∷ qs) = refl

join-nil-split :
    (new old : ℕ) (s : Text)
    → join (new ∷ []) ([] ∷ split old s) ≡ new ∷ join (new ∷ []) (split old s)
unfolding join split
join-nil-split new old [] = refl
join-nil-split new old (c ∷ s) = ground arith

-- Splitting at one byte and joining with another replaces the byte.
pub join-split :
    (old new : ℕ) (s : Text) → join (new ∷ []) (split old s) ≡ map (swap_byte old new) s
unfolding split join
join-split old new [] = refl
join-split old new (c ∷ s) = ground (
  arith,
  join-split old new s,
  join-onto_head (new ∷ []) c (split old s),
  join-nil-split new old s,
)
