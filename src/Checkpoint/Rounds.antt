-- ===== src/Checkpoint/Rounds.antt =====
-- checkpoint/checkpoint.go: the rounds of `run`, and the rule that proves a property of all rounds.
use windns_logtail.Base.{
  ◌≡◌, refl, false, some, List, [], ◌∷◌, arith, inl, inr, Bool-cases, pos, ltb_ℤ, some_inj, subst,
}
use windns_logtail.Checkpoint.State.{EventLogState, Yaml, Os}
use windns_logtail.Checkpoint.Point.{World, persist}
use windns_logtail.Checkpoint.Worker.{
  Select, from_done, from_save, from_timer, store, take_save, finish, work,
}

-- The goroutine of `run` has ended.
abbrev pub ended : World → World
ended w = record w { point = record w.point { running = false } }

module _ {ℓ} (P : World → Type ℓ) (y : Yaml) (os : Os) where
  take_save_keeps :
      (save : List EventLogState) (w : World) {w' : World}
      → w.point.save ≡ save
      → ((v : World) → P v → P (persist y os v).0)
      → ((s : EventLogState) (rest : List EventLogState) (v : World) → P v → P (store s rest v))
      → take_save y os w ≡ some w'
      → P w
      → P w'
  unfolding take_save
  take_save_keeps [] w q keep_persist keep_store e p = ground arith
  take_save_keeps (s ∷ rest) w q keep_persist keep_store e p =
      elim (Bool-cases
        (ltb_ℤ (pos (store s rest w).point.num_updates) (store s rest w).point.max_updates)) [
          | inl few ↦ subst P (some_inj (rw (q, take_save, few) at e)) (keep_store s rest w p)
          | inr enough ↦
              subst P (some_inj (rw (q, take_save, enough) at e))
                (keep_persist _ (keep_store s rest w p))
        ]

  -- What `persist`, the arrival of a state and the end of the loop keep, every round keeps.
  pub work_keeps :
      (select : Select) (w : World) {w' : World}
      → ((v : World) → P v → P (persist y os v).0)
      → ((s : EventLogState) (rest : List EventLogState) (v : World) → P v → P (store s rest v))
      → ((v : World) → P v → P (ended v))
      → work y os select w ≡ some w'
      → P w
      → P w'
  unfolding work
  work_keeps from_done w {w'} keep_persist keep_store keep_end e p =
      elim (Bool-cases w.point.running) [
        | inl on ↦ elim (Bool-cases w.point.done) [
          | inl closed ↦
              let q : finish y os w ≡ w' = ground arith in
              subst P q (unfold finish in keep_end _ (keep_persist w p))
          | inr open_yet ↦ ground arith
        ]
        | inr off ↦ ground arith
      ]
  work_keeps from_save w {w'} keep_persist keep_store keep_end e p =
      elim (Bool-cases w.point.running) [
        | inl on ↦ take_save_keeps w.point.save w refl keep_persist keep_store (ground arith) p
        | inr off ↦ ground arith
      ]
  work_keeps from_timer w {w'} keep_persist keep_store keep_end e p =
      elim (Bool-cases w.point.running) [
        | inl on ↦ let q : (persist y os w).0 ≡ w' = ground arith in subst P q (keep_persist w p)
        | inr off ↦ ground arith
      ]
