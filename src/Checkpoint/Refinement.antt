-- ===== src/Checkpoint/Refinement.antt =====
-- checkpoint/checkpoint.go: the store as its users see it, a map in memory and the map that a
-- restart would find, and the steps of the program as moves of that view.
use windns_logtail.Base.{
  Text, Time, text_eq, ◌≡◌, refl, sym, ap, ◌∙◌, subst, Option, none, some, List, [], ◌∷◌, ◌⊎◌, inl,
  inr, arith, if◌then◌else◌, fun_ext, Bool-cases, some_inj, pos, ltb_ℤ,
}
use windns_logtail.Base.Dict.{Dict, lookup, lookup-insert}
use windns_logtail.Checkpoint.State.{EventLogState, PersistedState, Yaml, ReadsBack, Os}
use windns_logtail.Checkpoint.Point.{World, snapshot, flush, persist, persist_state, load_states}
use windns_logtail.Checkpoint.Worker.{
  Select, from_done, from_save, from_timer, store, take_save, finish, work, shutdown, Step, works,
  sends, shuts, Reach, here, next,
}
use windns_logtail.Checkpoint.Rounds.{ended}
use windns_logtail.Checkpoint.Snapshot.{IsKeyed, lookup-load_states-snapshot}
use windns_logtail.Checkpoint.Flush.{
  Succeeds, flush_atomic, flush_keeps, flush_success_iff, persist_cases,
}
use windns_logtail.Checkpoint.Recovery.{insert-IsKeyed}

-- The states by name, in memory and after a restart, and the state that was sent and waits.
pub record Store : Type 0 where
  pub memory : Text → Option EventLogState
  pub durable : Text → Option EventLogState
  pub pending : List EventLogState

-- A waiting state is put under its name.
abbrev pub put_in : EventLogState → List EventLogState → Store → Store
put_in s rest a = record {
  memory = λ k. if text_eq k s.name then some s else a.memory k;
  durable = a.durable;
  pending = rest;
}

abbrev pub synced : Store → Store
synced a = record a { durable = a.memory }

-- What the users of a store ask, and the rounds of its worker.
pub data Call : Type 0 where
  sent : EventLogState → Call
  round : Os → Select → Call
  shut : Call

-- A round that takes a state puts just the one that waits.
abbrev pub Takes : Select → Store → Store → Type 0
Takes from_done a b = b ≡ a
Takes from_timer a b = b ≡ a
Takes from_save a b =
    (s : EventLogState) × (rest : List EventLogState) × (a.pending ≡ s ∷ rest)
    × (b ≡ put_in s rest a)

-- The whole map becomes durable at once, and only if every system call succeeds.
abbrev pub Writes : Os → Store → Store → Type 0
Writes os a b = (b ≡ a) ⊎ (Succeeds os × (b ≡ synced a))

-- What one call may do to the store.
abbrev pub Moves : Store → Call → Store → Type 0
Moves a (sent st) b = (a.pending ≡ []) × (b ≡ record a { pending = st ∷ [] })
Moves a (round os select) b = (c : Store) × Takes select a c × Writes os c b
Moves a shut b = b ≡ a

-- The store after some calls, the newest one first.
pub data Trail (a : Store) : List Call → Store → Type 0 where
  begins : Trail a [] a
  then_moves :
      {cs : List Call} {b d : Store} → Trail a cs b → (c : Call) → Moves b c d → Trail a (c ∷ cs) d

-- The entry that `NewCheckpoint` would read from the contents of the state file.
abbrev pub entry_in : Option PersistedState → Text → Option EventLogState
entry_in none k = none
entry_in (some ps) k = lookup k (load_states [] ps.states)

abbrev pub entry_of : Yaml → Option Text → Text → Option EventLogState
entry_of y none k = none
entry_of y (some bytes) k = entry_in (y.unmarshal bytes) k

abbrev pub view_of : Yaml → Dict EventLogState → Option Text → List EventLogState → Store
view_of y states file save = record {
  memory = λ k. lookup k states;
  durable = λ k. entry_of y file k;
  pending = save;
}

abbrev pub view : Yaml → World → Store
view y w = view_of y w.point.states w.disk.file w.point.save

-- The call that a step of the program is.
abbrev pub call : {y : Yaml} {w w' : World} → Step y w w' → Call
call (works os select e) = round os select
call (sends st e) = sent st
call (shuts e) = shut

abbrev pub calls : {y : Yaml} {w w' : World} → Reach y w w' → List Call
calls here = []
calls (next r s) = call s ∷ calls r

-- What a round of the worker does to the program.
abbrev Outcome : Yaml → Os → Select → World → World → Type 0
Outcome y os from_done w w' = w' ≡ ended (persist y os w).0
Outcome y os from_timer w w' = w' ≡ (persist y os w).0
Outcome y os from_save w w' =
    (s : EventLogState) × (rest : List EventLogState) × (w.point.save ≡ s ∷ rest)
    × ((w' ≡ store s rest w) ⊎ (w' ≡ (persist y os (store s rest w)).0))

take_save-Outcome :
    (y : Yaml) (os : Os) (save : List EventLogState) (w : World) {w' : World}
    → w.point.save ≡ save
    → take_save y os w ≡ some w'
    → Outcome y os from_save w w'
unfolding take_save
take_save-Outcome y os [] w q e = ground arith
take_save-Outcome y os (s ∷ rest) w q e = (
  s,
  rest,
  q,
  elim (Bool-cases
      (ltb_ℤ (pos (store s rest w).point.num_updates) (store s rest w).point.max_updates)) [
        | inl few ↦ inl (sym (some_inj (rw (q, take_save, few) at e)))
        | inr enough ↦ inr (sym (some_inj (rw (q, take_save, enough) at e)))
      ],
)

work-Outcome :
    (y : Yaml) (os : Os) (select : Select) (w : World) {w' : World}
    → work y os select w ≡ some w'
    → Outcome y os select w w'
unfolding work finish
work-Outcome y os from_done w e = ground arith
work-Outcome y os from_timer w e = ground arith
work-Outcome y os from_save w e = take_save-Outcome y os w.point.save w refl (ground arith)

module _ (y : Yaml) (back : ReadsBack y) where
  entry_of-snapshot :
      (now : Time) (d : Dict EventLogState) (k : Text) {bytes : Text}
      → IsKeyed d
      → y.marshal (snapshot now d) ≡ some bytes
      → entry_of y (some bytes) k ≡ lookup k d
  entry_of-snapshot now d k keyed written =
      ap (λ o. entry_in o k) (back _ _ written) ∙ lookup-load_states-snapshot now d k keyed

  view-flush :
      (os : Os) (w : World)
      → view y (flush y os w).0 ≡ view_of y w.point.states (flush y os w).0.disk.file w.point.save
  view-flush os w =
      let kept = flush_keeps y os w in
      ap (λ d. view_of y d (flush y os w).0.disk.file (flush y os w).0.point.save) kept.0
      ∙ ap (λ l. view_of y w.point.states (flush y os w).0.disk.file l) kept.3

  flush-Writes :
      (os : Os) (w : World)
      → IsKeyed w.point.states
      → Writes os (view y w) (view y (flush y os w).0)
  flush-Writes os w keyed = elim (flush_atomic y os w) [
    | inl (ok, (bytes, written, on_disk)) ↦ inr (
      ((flush_success_iff y os w).0 ok).0,
      view-flush os w
          ∙ ap (λ f. view_of y w.point.states f w.point.save) on_disk
          ∙ ap (λ f. record (view y w) { durable = f })
              (fun_ext (λ k. entry_of-snapshot os.now w.point.states k keyed written)),
    )
    | inr (bad, unchanged) ↦
        inl (view-flush os w ∙ ap (λ f. view_of y w.point.states f w.point.save) unchanged)
  ]

  persist-Writes :
      (os : Os) (w : World)
      → IsKeyed w.point.states
      → Writes os (view y w) (view y (persist y os w).0)
  persist-Writes os w keyed =
      persist_cases (λ v. Writes os (view y w) (view y v)) y os w (λ zero. inl refl)
        (λ more failed. flush-Writes os w keyed) (λ more ok. flush-Writes os w keyed)

  persist-IsKeyed :
      (os : Os) (w : World) → IsKeyed w.point.states → IsKeyed (persist y os w).0.point.states
  persist-IsKeyed os w keyed =
      let kept = subst IsKeyed (sym (flush_keeps y os w).0) keyed in
      persist_cases (λ v. IsKeyed v.point.states) y os w (λ zero. keyed) (λ more failed. kept)
        (λ more ok. kept)

  store-put_in :
      (s : EventLogState) (rest : List EventLogState) (w : World)
      → view y (store s rest w) ≡ put_in s rest (view y w)
  unfolding store
  store-put_in s rest w =
      ap (λ m. record { memory = m; durable = λ k. entry_of y w.disk.file k; pending = rest })
        (fun_ext (λ k. lookup-insert k s.name s w.point.states))

  store-IsKeyed :
      (s : EventLogState) (rest : List EventLogState) (w : World)
      → IsKeyed w.point.states
      → IsKeyed (store s rest w).point.states
  unfolding store
  store-IsKeyed s rest w keyed = insert-IsKeyed s w.point.states keyed

  -- One step of the program is one move of the store, and its states stand under their names.
  abbrev pub Follows : World → Call → World → Type 0
  Follows w c w' = Moves (view y w) c (view y w') × IsKeyed w'.point.states

  Outcome-Follows :
      (os : Os) (select : Select) (w w' : World)
      → Outcome y os select w w'
      → IsKeyed w.point.states
      → Follows w (round os select) w'
  Outcome-Follows os from_done w w' e keyed =
      subst (Follows w (round os from_done)) (sym e)
        ((view y w, refl, persist-Writes os w keyed), persist-IsKeyed os w keyed)
  Outcome-Follows os from_timer w w' e keyed =
      subst (Follows w (round os from_timer)) (sym e)
        ((view y w, refl, persist-Writes os w keyed), persist-IsKeyed os w keyed)
  Outcome-Follows os from_save w w' (s, rest, waits, o) keyed =
      let put = store-put_in s rest w in
      let keyed' = store-IsKeyed s rest w keyed in
      elim o [
        | inl e ↦
            subst (Follows w (round os from_save)) (sym e)
              ((put_in s rest (view y w), (s, rest, waits, refl), inl put), keyed')
        | inr e ↦ subst (Follows w (round os from_save)) (sym e) (
          (
            put_in s rest (view y w),
            (s, rest, waits, refl),
            subst (λ a. Writes os a (view y (persist y os (store s rest w)).0)) put
                (persist-Writes os (store s rest w) keyed'),
          ),
          persist-IsKeyed os (store s rest w) keyed',
        )
      ]

  persist_state-Follows :
      (st : EventLogState) (w : World) {w' : World}
      → persist_state st w ≡ some w'
      → IsKeyed w.point.states
      → Follows w (sent st) w'
  unfolding persist_state
  persist_state-Follows st w {w'} e keyed =
      let empty : w.point.save ≡ [] = ground arith in
      let q : record w { point = record w.point { save = st ∷ [] } } ≡ w' = ground arith in
      subst (Follows w (sent st)) q ((empty, refl), keyed)

  pub Step-Follows :
      {w w' : World} (s : Step y w w') → IsKeyed w.point.states → Follows w (call s) w'
  unfolding shutdown
  Step-Follows {w} {w'} (works os select e) keyed =
      Outcome-Follows os select w w' (work-Outcome y os select w e) keyed
  Step-Follows {w} (sends st e) keyed = persist_state-Follows st w e keyed
  Step-Follows {w} (shuts e) keyed = subst (Follows w shut) (sym e) (refl, keyed)

  pub Reach-Follows :
      {w w' : World} (r : Reach y w w')
      → IsKeyed w.point.states
      → Trail (view y w) (calls r) (view y w') × IsKeyed w'.point.states
  Reach-Follows here keyed = (begins, keyed)
  Reach-Follows (next r s) keyed =
      let (trail, keyed') = Reach-Follows r keyed in
      let (moves, keyed'') = Step-Follows s keyed' in (then_moves trail (call s) moves, keyed'')

-- If a document that was marshalled is read back, and the states of the map stand under their
-- names, the program refines the store, call by call: a state that is sent waits, if none waits
-- yet, and is the very one that the next round that takes a state puts under its name; a round
-- either leaves the map that the state file holds, or makes it the whole map in memory, and this
-- only if all its system calls succeed; and nothing else changes what the users see.
pub Reach-Trail :
    {y : Yaml} {w w' : World}
    → ReadsBack y
    → IsKeyed w.point.states
    → (r : Reach y w w') → Trail (view y w) (calls r) (view y w')
Reach-Trail {y} back keyed r = (Reach-Follows y back r keyed).0
