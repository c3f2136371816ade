-- ===== src/Scheduler/Calls.antt =====
-- Calls of cmd/wineventtail/schduler.go that may return an error: what they leave, and whether they
-- returned none.
use windns_logtail.Base.{Bool, true, false, List, [], ◌∷◌, ◌≡◌, refl}

-- `if err != nil { return err }`, and what follows it.
abbrev pub and_then : {S : Type 0} → S × Bool → (S → S × Bool) → S × Bool
and_then (s, true) next = next s
and_then (s, false) next = (s, false)

-- Calls that return no error did so one after the other.
pub and_then-true :
    {S : Type 0} (r : S × Bool) (next : S → S × Bool) (u : S)
    → and_then r next ≡ (u, true)
    → (s : S) × (r ≡ (s, true)) × (next s ≡ (u, true))
and_then-true (s, true) next u h = (s, refl, h)
and_then-true (s, false) next u h = cc

-- `range` over a list, in a body that may return an error.
unfoldable pub for_each : {A S : Type 0} → (A → S → S × Bool) → List A → S → S × Bool
for_each body [] s = (s, true)
for_each body (x ∷ xs) s = and_then (body x s) (λ s'. for_each body xs s')

-- What each call keeps, with an error or without, is kept by them all.
pub and_then-keeps :
    {S : Type 0} (P : S → Type 0) (r : S × Bool) (next : S → S × Bool)
    → P r.0
    → ((s : S) → P s → P (next s).0)
    → P (and_then r next).0
and_then-keeps P (s, true) next h step = step s h
and_then-keeps P (s, false) next h step = h

pub for_each-keeps :
    {A S : Type 0} (P : S → Type 0) (body : A → S → S × Bool)
    → ((x : A) (s : S) → P s → P (body x s).0)
    → (xs : List A) (s : S) → P s
    → P (for_each body xs s).0
unfolding for_each
for_each-keeps P body step [] s h = h
for_each-keeps P body step (x ∷ xs) s h =
    and_then-keeps P (body x s) (λ t. for_each body xs t) (step x s h)
      (λ t k. for_each-keeps P body step xs t k)
