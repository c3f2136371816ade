-- ===== src/Base/Dict.antt =====
-- A Go map from strings, as an association list: lookup, assignment, keys. An entry is the pair
-- of a key and its value, and the order of the list is an order in which `range` may visit it.
use windns_logtail.Base.Tests.{if◌then◌else◌}
use windns_logtail.Base.Bytes.{Text, text_eq, text_eq_iff, text_eq_self}
use mathlib.Core.Path.{◌≡◌, refl}
use mathlib.Core.Logic.{◌≢◌}
use mathlib.Core.Bool.{Bool, true, false, ◌||◌}
use mathlib.Core.Option.{Option, none, some}
use mathlib.Core.List.{List, [], ◌∷◌}
use native.Mathlib.Omega.{arith}

abbrev pub Dict {ℓ} : Type ℓ → Type ℓ
Dict V = List (Text × V)

-- Whether a list of strings holds one.
unfoldable pub mem_text : Text → List Text → Bool
mem_text k [] = false
mem_text k (j ∷ ks) = text_eq k j || mem_text k ks

abbrev pub is_some {ℓ} : {V : Type ℓ} → Option V → Bool
is_some none = false
is_some (some v) = true

text_eq_other : (j k : Text) → j ≢ k → text_eq j k ≡ false
text_eq_other j k h = ground (arith, text_eq_iff j k, h)

module _ {ℓ} {V : Type ℓ} where
  unfoldable pub lookup : Text → Dict V → Option V
  lookup k [] = none
  lookup k ((j, v) ∷ d) = if text_eq k j then some v else lookup k d

  -- `d[k] = v`.
  unfoldable pub insert : Text → V → Dict V → Dict V
  insert k v [] = (k, v) ∷ []
  insert k v ((j, w) ∷ d) = if text_eq k j then (k, v) ∷ d else (j, w) ∷ insert k v d

  unfoldable pub keys : Dict V → List Text
  keys [] = []
  keys ((k, v) ∷ d) = k ∷ keys d

  -- `d[k]`, with the zero value for a key that is missing.
  abbrev pub or_zero : V → Option V → V
  or_zero z none = z
  or_zero z (some v) = v

  -- No key stands twice, as in every Go map.
  abbrev pub NodupKeys : Dict V → Type ℓ
  NodupKeys [] = Unit
  NodupKeys ((k, v) ∷ d) = (lookup k d ≡ none) × NodupKeys d

  lookup-nil : (k : Text) → lookup k [] ≡ none
  unfolding lookup
  lookup-nil k = refl

  pub lookup-insert :
      (j k : Text) (v : V) (d : Dict V)
      → lookup j (insert k v d) ≡ (if text_eq j k then some v else lookup j d)
  unfolding lookup insert
  lookup-insert j k v [] = refl
  lookup-insert j k v ((i, w) ∷ d) =
      ground (arith, text_eq_iff k i, text_eq_iff j i, text_eq_iff j k, lookup-insert j k v d)

  pub insert-NodupKeys : (k : Text) (v : V) (d : Dict V) → NodupKeys d → NodupKeys (insert k v d)
  unfolding insert
  insert-NodupKeys k v [] u = (lookup-nil k, tt)
  insert-NodupKeys k v ((j, w) ∷ d) (fresh, u) =
      ground
        (arith, insert-NodupKeys k v d u, lookup-insert j k v d, text_eq_iff k j, text_eq_iff j k)

  -- The keys are what lookup finds.
  pub mem_text-keys : (k : Text) (d : Dict V) → mem_text k (keys d) ≡ is_some (lookup k d)
  unfolding mem_text keys lookup
  mem_text-keys k [] = refl
  mem_text-keys k ((j, v) ∷ d) = ground (arith, mem_text-keys k d)

  -- `delete(d, k)`.
  unfoldable pub erase : Text → Dict V → Dict V
  erase k [] = []
  erase k ((j, v) ∷ d) = if text_eq k j then erase k d else (j, v) ∷ erase k d

  pub lookup-erase :
      (j k : Text) (d : Dict V) → lookup j (erase k d) ≡ (if text_eq j k then none else lookup j d)
  unfolding lookup erase
  lookup-erase j k [] = ground arith
  lookup-erase j k ((i, w) ∷ d) =
      ground (arith, text_eq_iff k i, text_eq_iff j i, text_eq_iff j k, lookup-erase j k d)

  pub lookup-insert_self : (k : Text) (v : V) (d : Dict V) → lookup k (insert k v d) ≡ some v
  lookup-insert_self k v d = rw (lookup-insert k k v d, text_eq_self k) refl

  pub lookup-insert_other :
      (j k : Text) (v : V) (d : Dict V) → j ≢ k → lookup j (insert k v d) ≡ lookup j d
  lookup-insert_other j k v d h = rw (lookup-insert j k v d, text_eq_other j k h) refl

  pub lookup-erase_self : (k : Text) (d : Dict V) → lookup k (erase k d) ≡ none
  lookup-erase_self k d = rw (lookup-erase k k d, text_eq_self k) refl

  pub lookup-erase_other : (j k : Text) (d : Dict V) → j ≢ k → lookup j (erase k d) ≡ lookup j d
  lookup-erase_other j k d h = rw (lookup-erase j k d, text_eq_other j k h) refl
