-- ===== src/Checkpoint/Snapshot.antt =====
-- checkpoint/checkpoint.go: what `flush` writes and what `NewCheckpoint` makes of it. The map is
-- iterated in an order that Go does not fix.
use windns_logtail.Base.{
  Text, text_eq_iff, Time, ◌≡◌, refl, true, Option, none, some, List, [], ◌∷◌, map, if◌then◌else◌,
  fun_ext, arith,
}
use windns_logtail.Base.Dict.{
  Dict, lookup, insert, keys, is_some, mem_text, mem_text-keys, lookup-insert,
}
use windns_logtail.Base.Sort.{sort_texts, sort_texts-perm, mem_text-sort_texts}
use windns_logtail.Checkpoint.State.{EventLogState}
use windns_logtail.Checkpoint.Point.{snapshot, state_of, load_states}
use mathlib.Core.List.{Perm}

-- Every state is filed under its own name.
abbrev pub IsKeyed : Dict EventLogState → Type 0
IsKeyed d = (k : Text) (s : EventLogState) → lookup k d ≡ some s → s.name ≡ k

-- Two orders of iteration over the same map lead to the same document.
pub snapshot-perm :
    (now : Time) (d e : Dict EventLogState)
    → Perm (keys d) (keys e)
    → ((k : Text) → lookup k d ≡ lookup k e)
    → snapshot now d ≡ snapshot now e
unfolding snapshot
snapshot-perm now d e p same = rw (sort_texts-perm p, fun_ext same_state)
  where
    same_state : (k : Text) → state_of d k ≡ state_of e k
    same_state k = rw (same k)

-- The loop of `NewCheckpoint` over states that carry the names `ks`.
lookup-load_states :
    (ks : List Text) (f : Text → EventLogState) (d : Dict EventLogState) (j : Text)
    → ((k : Text) → mem_text k ks ≡ true → (f k).name ≡ k)
    → lookup j (load_states d (map f ks)) ≡ (if mem_text j ks then some (f j) else lookup j d)
unfolding load_states mem_text
lookup-load_states [] f d j named = refl
lookup-load_states (k ∷ ks) f d j named = ground (
  arith,
  lookup-load_states ks f (insert (f k).name (f k) d) j rest,
  lookup-insert j (f k).name (f k) d,
  named k,
  text_eq_iff k k,
  text_eq_iff j k,
)
  where
    rest : (i : Text) → mem_text i ks ≡ true → (f i).name ≡ i
    rest i h = ground (arith, named i)

state_of-name :
    (d : Dict EventLogState) (k : Text)
    → IsKeyed d
    → mem_text k (sort_texts (keys d)) ≡ true
    → (state_of d k).name ≡ k
state_of-name d k keyed h =
    ground (arith, mem_text-sort_texts k (keys d), mem_text-keys k d, found (lookup k d) refl)
  where
    found : (o : Option EventLogState) → lookup k d ≡ o → is_some o ≡ true → (state_of d k).name ≡ k
    found none e h = cc
    found (some s) e h = rw e (keyed k s e)

-- Reading a document back gives a map with the same entries.
pub lookup-load_states-snapshot :
    (now : Time) (d : Dict EventLogState) (k : Text)
    → IsKeyed d
    → lookup k (load_states [] (snapshot now d).states) ≡ lookup k d
unfolding snapshot lookup
lookup-load_states-snapshot now d k keyed = ground (
  arith,
  lookup-load_states (sort_texts (keys d)) (state_of d) [] k (λ j. state_of-name d j keyed),
  mem_text-sort_texts k (keys d),
  mem_text-keys k d,
)
