-- ===== src/Base/Sort.antt =====
-- `sort.Strings`: the ascending arrangement of a list of strings, which does not depend on the
-- order in which they come.
use windns_logtail.Base.Tests.{if◌then◌else◌}
use windns_logtail.Base.Bytes.{
  Text, text_eq, text_le, text_le_total, text_le_antisymm, text_le_trans,
}
use windns_logtail.Base.Dict.{mem_text}
use mathlib.Core.Path.{◌≡◌, refl, ap, ap₂, ◌∙◌}
use mathlib.Core.Logic.{∥∥₁_elim}
use mathlib.Core.Bool.{true, ◌||◌}
use mathlib.Core.List.{List, [], ◌∷◌, Perm, Permᴰ}
use native.Mathlib.Nat.{ℕ_set}
use native.Mathlib.Omega.{arith}

unfoldable pub insert_text : Text → List Text → List Text
insert_text x [] = x ∷ []
insert_text x (y ∷ ys) = if text_le x y then x ∷ y ∷ ys else y ∷ insert_text x ys

unfoldable pub sort_texts : List Text → List Text
unfolding insert_text
sort_texts [] = []
sort_texts (x ∷ xs) = insert_text x (sort_texts xs)

-- Each string is at most the next.
abbrev pub IsAscending : List Text → Type 0
IsAscending [] = Unit
IsAscending (x ∷ []) = Unit
IsAscending (x ∷ y ∷ ys) = (text_le x y ≡ true) × IsAscending (y ∷ ys)

insert_text-IsAscending :
    (x : Text) (ys : List Text) → IsAscending ys → IsAscending (insert_text x ys)
unfolding insert_text
insert_text-IsAscending x [] h = tt
insert_text-IsAscending x (y ∷ []) h = ground (arith, text_le_total x y)
insert_text-IsAscending x (y ∷ z ∷ zs) h =
    ground (arith, text_le_total x y, insert_text-IsAscending x (z ∷ zs) h.1)

pub sort_texts-IsAscending : (xs : List Text) → IsAscending (sort_texts xs)
unfolding sort_texts
sort_texts-IsAscending [] = tt
sort_texts-IsAscending (x ∷ xs) =
    insert_text-IsAscending x (sort_texts xs) (sort_texts-IsAscending xs)

insert_text_comm :
    (x y : Text) (zs : List Text)
    → insert_text x (insert_text y zs) ≡ insert_text y (insert_text x zs)
unfolding insert_text
insert_text_comm x y [] = ground (arith, text_le_total x y, text_le_antisymm x y, text_le_total y x)
insert_text_comm x y (z ∷ zs) = ground (
  arith,
  text_le_total x y,
  text_le_total y x,
  text_le_antisymm x y,
  text_le_total x z,
  text_le_total y z,
  text_le_trans x y z,
  text_le_trans y x z,
  text_le_trans x z y,
  text_le_trans y z x,
  insert_text_comm x y zs,
)

texts_set : IsSet (List Text)
texts_set = hlevel ℕ_set

sort_texts_permᴰ : {xs ys : List Text} → Permᴰ xs ys → sort_texts xs ≡ sort_texts ys
unfolding sort_texts
sort_texts_permᴰ Permᴰ.nil = refl
sort_texts_permᴰ (Permᴰ.cons e d) = ap₂ insert_text e (sort_texts_permᴰ d)
sort_texts_permᴰ (Permᴰ.swap {a = a} {b = b} {l = l} p q) = cc (insert_text_comm a b (sort_texts l))
sort_texts_permᴰ (Permᴰ.trans d e) = sort_texts_permᴰ d ∙ sort_texts_permᴰ e

-- Sorting forgets the order of its argument.
pub sort_texts-perm : {xs ys : List Text} → Perm xs ys → sort_texts xs ≡ sort_texts ys
sort_texts-perm {xs} {ys} p = ∥∥₁_elim p (texts_set _ _) sort_texts_permᴰ

mem_text-insert_text :
    (k x : Text) (xs : List Text) → mem_text k (insert_text x xs) ≡ (text_eq k x || mem_text k xs)
unfolding insert_text mem_text
mem_text-insert_text k x [] = refl
mem_text-insert_text k x (y ∷ ys) = ground (arith, mem_text-insert_text k x ys)

pub mem_text-sort_texts : (k : Text) (xs : List Text) → mem_text k (sort_texts xs) ≡ mem_text k xs
unfolding sort_texts mem_text
mem_text-sort_texts k [] = refl
mem_text-sort_texts k (x ∷ xs) =
    mem_text-insert_text k x (sort_texts xs) ∙ ap (◌||◌ (text_eq k x)) (mem_text-sort_texts k xs)
