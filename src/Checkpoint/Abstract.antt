-- ===== src/Checkpoint/Abstract.antt =====
-- The map of checkpoint/checkpoint.go without the order in which Go iterates over it: the dictionaries
-- of states, up to what a lookup finds.
use windns_logtail.Base.{
  Text, text_eq, text_eq-true, Time, true, Option, some, List, [], ◌∷◌, ◌≡◌, ◌≢◌, ◌↔◌, sym, ap, ◌∙◌,
  arith, if◌then◌else◌, Bool-cases, inl, inr, text_eq_iff,
}
use mathlib.Core.Logic.Or
use mathlib.Core.Bool.{Bool-set}
use mathlib.Core.Quot
use mathlib.Core.Quot.{Quot, Quot-set}
use mathlib.Core.List.{
  Perm, Mem, Nodup, Nodup-nil, Nodup-cons, mem-cons, not-mem-nil, perm_ext_iff_of_Nodup,
}
use windns_logtail.Base.Dict.{
  Dict, lookup, insert, keys, is_some, mem_text, mem_text-keys, NodupKeys, insert-NodupKeys,
  lookup-insert,
}
use windns_logtail.Checkpoint.State.{EventLogState, PersistedState}
use windns_logtail.Checkpoint.Point.{snapshot, load_states}
use windns_logtail.Checkpoint.Snapshot.{IsKeyed, snapshot-perm, lookup-load_states-snapshot}
use windns_logtail.Checkpoint.Recovery.{insert-IsKeyed, load_states-IsKeyed, nil-IsKeyed}

mem_text→Mem : (k : Text) (ks : List Text) → mem_text k ks ≡ true → Mem k ks
unfolding mem_text
mem_text→Mem k [] h = cc
mem_text→Mem k (j ∷ ks) h = elim (Bool-cases (text_eq k j)) [
  | inl same ↦ mem-cons.1 (Or.inl (text_eq-true k j same))
  | inr other ↦ mem-cons.1 (Or.inr (mem_text→Mem k ks (ground (arith, h, other))))
]

Mem→mem_text : (k : Text) (ks : List Text) → Mem k ks → mem_text k ks ≡ true
unfolding mem_text
Mem→mem_text k [] m = absurd (not-mem-nil m)
Mem→mem_text k (j ∷ ks) m =
    Or.elim (Bool-set _ _) (mem-cons.0 m) (λ e. ground (arith, text_eq_iff k j, e))
      (λ rest. ground (arith, Mem→mem_text k ks rest))

keys-Nodup : (d : Dict EventLogState) → NodupKeys d → Nodup (keys d)
unfolding keys
keys-Nodup [] h = Nodup-nil
keys-Nodup ((k, v) ∷ d) h = Nodup-cons.1 (
  λ m.
      let there : is_some (lookup k d) ≡ true =
        sym (mem_text-keys k d) ∙ Mem→mem_text k (keys d) m in
      absurd (ground (arith, h.0, there)),
  keys-Nodup d h.1,
)

keys-perm :
    (d e : Dict EventLogState)
    → NodupKeys d
    → NodupKeys e
    → ((k : Text) → lookup k d ≡ lookup k e)
    → Perm (keys d) (keys e)
keys-perm d e u v same = (perm_ext_iff_of_Nodup (keys-Nodup d u) (keys-Nodup e v)).1 (λ k.
    let both : mem_text k (keys d) ≡ mem_text k (keys e) =
      mem_text-keys k d ∙ ap is_some (same k) ∙ sym (mem_text-keys k e) in
    (
      λ m. mem_text→Mem k (keys e) (sym both ∙ Mem→mem_text k (keys d) m),
      λ m. mem_text→Mem k (keys d) (both ∙ Mem→mem_text k (keys e) m),
    ))

-- A map as the code has it: every state under its own name, no name twice.
pub record States : Type 0 where
  pub entries : Dict EventLogState
  pub keyed : IsKeyed entries
  pub nodup : NodupKeys entries

abbrev pub Same : States → States → Type 0
Same a b = (k : Text) → lookup k a.entries ≡ lookup k b.entries

abbrev pub StateMap : Type 0
StateMap = Quot Same

abbrev pub of : States → StateMap
of s = Quot.mk s

EventLogState-set : IsSet EventLogState
EventLogState-set = hlevel

PersistedState-set : IsSet PersistedState
PersistedState-set = hlevel

found-set : IsSet (Option EventLogState)
found-set = hlevel

-- What `flush` writes of a map.
pub document : Time → StateMap → PersistedState
document now =
    Quot.lift PersistedState-set (λ s. snapshot now s.entries)
      (λ a b h.
        snapshot-perm now a.entries b.entries (keys-perm a.entries b.entries a.nodup b.nodup h) h)

load_states-NodupKeys :
    (d : Dict EventLogState) (ss : List EventLogState) → NodupKeys d → NodupKeys (load_states d ss)
unfolding load_states
load_states-NodupKeys d [] h = h
load_states-NodupKeys d (s ∷ ss) h =
    load_states-NodupKeys (insert s.name s d) ss (insert-NodupKeys s.name s d h)

-- What `NewCheckpoint` makes of a document.
pub recover : PersistedState → StateMap
recover ps = of (record {
  entries = load_states [] ps.states;
  keyed = load_states-IsKeyed [] ps.states nil-IsKeyed;
  nodup = load_states-NodupKeys [] ps.states tt;
})

file_in : EventLogState → States → States
file_in st s = record {
  entries = insert st.name st s.entries;
  keyed = insert-IsKeyed st s.entries s.keyed;
  nodup = insert-NodupKeys st.name st s.entries s.nodup;
}

-- What the worker does with a state.
pub file : EventLogState → StateMap → StateMap
unfolding file_in
file st =
    Quot.lift Quot-set (λ s. of (file_in st s))
      (λ a b h. Quot.sound (λ k.
        lookup-insert k st.name st a.entries
        ∙ ap (λ o. if text_eq k st.name then some st else o) (h k)
        ∙ sym (lookup-insert k st.name st b.entries)))

recover-document : (now : Time) (m : StateMap) → recover (document now m) ≡ m
unfolding recover document
recover-document now =
    Quot.ind (λ m. Quot-set _ _)
      (λ s. Quot.sound (λ k. lookup-load_states-snapshot now s.entries k s.keyed))

file_comm :
    (a b : EventLogState) → a.name ≢ b.name → (m : StateMap) → file a (file b m) ≡ file b (file a m)
unfolding file file_in
file_comm a b differ =
    Quot.ind (λ m. Quot-set _ _)
      (λ s. Quot.sound (λ k. ground (
        arith,
        lookup-insert k a.name a (insert b.name b s.entries),
        lookup-insert k b.name b s.entries,
        lookup-insert k b.name b (insert a.name a s.entries),
        lookup-insert k a.name a s.entries,
        text_eq_iff k a.name,
        text_eq_iff k b.name,
        differ,
      )))

-- On the maps without their order of iteration, the document that a flush writes is one of the map
-- alone, `NewCheckpoint` gets the same map back from it, so that two maps have the same document
-- only if they are equal, and states with different names can be filed in either order.
pub document_of_map :
    (now : Time) (m n : StateMap) (a b : EventLogState)
    → (recover (document now m) ≡ m)
      × ((document now m ≡ document now n) ↔ (m ≡ n))
      × (a.name ≢ b.name → file a (file b m) ≡ file b (file a m))
document_of_map now m n a b = (
  recover-document now m,
  (
    λ h. sym (recover-document now m) ∙ ap recover h ∙ recover-document now n,
    λ e. ap (document now) e,
  ),
  λ differ. file_comm a b differ m,
)
