-- ===== src/Scheduler/Resumed.antt =====
-- What a start of cmd/wineventtail/schduler.go does to saved states.
pub mod Hook
pub mod Start
use windns_logtail.Base.{
  Text, text_eq, text_eq_iff, ℕ, Option, none, some, List, [], ◌∷◌, ◌++◌, ◌≡◌, ◌≢◌, refl, arith,
  All, take, All-append, zero, suc, if◌then◌else◌, Option-cases, inl, inr, sym, ◌∙◌, subst,
  some_inj,
}
use windns_logtail.Base.Dict.{Dict, lookup, insert, lookup-insert}
use windns_logtail.Checkpoint.State.{EventLogState}
use windns_logtail.Checkpoint.Point.{load_states}
use windns_logtail.Scheduler.Point.{Point, PointOs, states_at, state_for, new_state}

-- The states `found` are those that were there, and no state given since has the name of one.
pub record IsFresh (found : Dict EventLogState) (p : Point) : Type 0 where
  pub same : p.found ≡ found
  pub new : All (λ (g : EventLogState). lookup g.name found ≡ none) p.given

module _ (found : Dict EventLogState) (name : Text) where
  -- States of other names do not hide a saved one.
  saved-load_states :
      (st : EventLogState) (d : Dict EventLogState) (gs : List EventLogState)
      → lookup name found ≡ some st
      → lookup name d ≡ some st
      → All (λ (g : EventLogState). lookup g.name found ≡ none) gs
      → lookup name (load_states d gs) ≡ some st
  unfolding load_states
  saved-load_states st d [] saved here fresh = here
  saved-load_states st d (g ∷ gs) saved here (other, fresh) =
      saved-load_states st (insert g.name g d) gs saved
        (ground (arith, lookup-insert name g.name g d, text_eq_iff name g.name)) fresh

  -- A name that is missing afterwards was missing before.
  none-load_states :
      (d : Dict EventLogState) (gs : List EventLogState)
      → lookup name (load_states d gs) ≡ none
      → lookup name d ≡ none
  unfolding load_states
  none-load_states d [] h = h
  none-load_states d (g ∷ gs) h =
      ground (arith, none-load_states (insert g.name g d) gs h, lookup-insert name g.name g d)

All-take : {A : Type 0} (P : A → Type 0) (n : ℕ) (xs : List A) → All P xs → All P (take n xs)
All-take P zero xs h = tt
All-take P (suc n) [] h = tt
All-take P (suc n) (x ∷ xs) h = (h.0, All-take P n xs h.1)

module _ {found : Dict EventLogState} (os : PointOs) (name : Text) (p : Point)
    (f : IsFresh found p) where
  -- A state that was saved is the one that is returned.
  pub state_for_saved :
      (st : EventLogState) → lookup name found ≡ some st → (state_for os name p).0 ≡ st
  unfolding state_for states_at
  state_for_saved st saved =
      let there =
        saved-load_states found name st p.found (take (os.filed p.asked) p.given) saved
          (rw f.same saved)
          (All-take (λ (g : EventLogState). lookup g.name found ≡ none) (os.filed p.asked) p.given
            f.new) in
      ground (arith, there)

  pub state_for-IsFresh : IsFresh found (state_for os name p).1
  unfolding state_for states_at new_state
  state_for-IsFresh =
      elim (Option-cases (lookup name (load_states p.found (take (os.filed p.asked) p.given)))) [
        | inr (st, there) ↦ rw (there, state_for) (record { same = f.same; new = f.new })
        | inl missing ↦
            rw (missing, state_for)
              (record {
                same = f.same;
                new =
                    All-append (λ (g : EventLogState). lookup g.name found ≡ none) p.given _ f.new
                      (rw (sym f.same) (none-load_states found name p.found _ missing), tt);
              })
      ]

-- Once everything given is filed, a saved state is still what it was.
pub IsFresh-lookup :
    {found : Dict EventLogState} {p : Point} (name : Text) (st : EventLogState)
    → IsFresh found p
    → lookup name found ≡ some st
    → lookup name (load_states p.found p.given) ≡ some st
IsFresh-lookup {found} {p} name st f saved =
    saved-load_states found name st p.found p.given saved (rw f.same saved) f.new
