-- ===== src/Consumer/Ftp/Newest.antt =====
-- consumer/consumer_ftp.go: the time that `HandleEvents` gives to the checkpoint.
use windns_logtail.Base.{
  Text, Time, before, not_after, Bool, true, false, Option, none, some, List, [], ◌∷◌, ◌++◌, ◌≡◌,
  ◌⊎◌, inl, inr, refl, sym, subst, All, arith, if◌then◌else◌,
}
use windns_logtail.Eventlog.Kind.{RecordKind}
use windns_logtail.Consumer.Ftp.Archive.{Disk, ZipError}
use windns_logtail.Consumer.Ftp.Handle.{
  Ftp, HandleOs, newest, after_zip, after_stat, after_write, after_open, handle_events,
}

not_after_trans :
    (s t u : Time) → not_after s t ≡ true → not_after t u ≡ true → not_after s u ≡ true
not_after_trans s t u h h' = ground arith

abbrev newer : Time → Time → Time
newer t u = if before t u then u else t

newer_left : (t u : Time) → not_after t (newer t u) ≡ true
newer_left t u = ground arith

newer_right : (t u : Time) → not_after u (newer t u) ≡ true
newer_right t u = ground arith

module _ (k : RecordKind) where
  open k use {Record, timestamp}

  newest_least : (t : Time) (events : List Record) → not_after t (newest k t events) ≡ true
  unfolding newest
  newest_least t [] = ground arith
  newest_least t (r ∷ rs) =
      not_after_trans t _ _ (newer_left t (timestamp r)) (newest_least (newer t (timestamp r)) rs)

  newest-All :
      (t : Time) (events : List Record)
      → All (λ r. not_after (timestamp r) (newest k t events) ≡ true) events
  unfolding newest
  newest-All t [] = tt
  newest-All t (r ∷ rs) = (
    not_after_trans (timestamp r) _ _ (newer_right t (timestamp r))
        (newest_least (newer t (timestamp r)) rs),
    newest-All (newer t (timestamp r)) rs,
  )

  -- The time is one that was there.
  abbrev pub IsFrom : Time → Time → List Record → Type 0
  IsFrom u t [] = u ≡ t
  IsFrom u t (r ∷ rs) = (u ≡ timestamp r) ⊎ IsFrom u t rs

  newer-IsFrom :
      (u t : Time) (r : Record) (rs : List Record)
      → IsFrom u (newer t (timestamp r)) rs
      → IsFrom u t (r ∷ rs)
  newer-IsFrom u t r [] h = ground arith
  newer-IsFrom u t r (x ∷ rs) (inl h) = inr (inl h)
  newer-IsFrom u t r (x ∷ rs) (inr h) = elim (newer-IsFrom u t r rs h) [
    | inl e ↦ inl e
    | inr g ↦ inr (inr g)
  ]

  newest-IsFrom : (t : Time) (events : List Record) → IsFrom (newest k t events) t events
  unfolding newest
  newest-IsFrom t [] = refl
  newest-IsFrom t (r ∷ rs) =
      newer-IsFrom (newest k (newer t (timestamp r)) rs) t r rs
        (newest-IsFrom (newer t (timestamp r)) rs)

  -- What `HandleEvents` leaves in the consumer's state: a time not before the state's and not
  -- before any event's, which is the state's or an event's; the checkpoint is given this state,
  -- once, under the name that the state has.
  abbrev pub IsMoved : Ftp → List Record → Ftp → Type 0
  IsMoved f events f' =
      let t = f'.state.timestamp in
      (not_after f.state.timestamp t ≡ true)
      × All (λ r. not_after (timestamp r) t ≡ true) events
      × IsFrom t f.state.timestamp events
      × (f'.persisted ≡ f.persisted ++ f'.state ∷ [])
      × (f'.state ≡ record f.state { timestamp = t })

  module _ (zip_of : Text → Text → Text) where
    after_zip-ftp : (f : Ftp) (r : Disk × Option ZipError) → (after_zip k zip_of f r).ftp ≡ f
    unfolding after_zip
    after_zip-ftp f (d, none) = refl
    after_zip-ftp f (d, some z) = refl

    after_stat-ftp :
        (stat large : Bool) (os : HandleOs) (f : Ftp) (d : Disk)
        → (after_stat k zip_of stat large os f d).ftp ≡ f
    unfolding after_stat
    after_stat-ftp false large os f d = refl
    after_stat-ftp true false os f d = refl
    after_stat-ftp true true os f d = after_zip-ftp f _

    -- If the log file opens, the state of the consumer moves to the newest time among its own and
    -- the events', whether or not the events were written, and it is given to the checkpoint with
    -- its name unchanged.
    pub handle_events-IsMoved :
        (os : HandleOs) (f : Ftp) (d : Disk) (events : List Record)
        → os.open_ok ≡ true
        → IsMoved f events (handle_events k zip_of os f d events).ftp
    unfolding handle_events after_open after_write
    handle_events-IsMoved os f d events opened =
        let t = f.state.timestamp in
        subst (λ b. IsMoved f events (after_open k zip_of b os f d events).ftp) (sym opened)
          (subst (IsMoved f events) (sym (after_stat-ftp os.stat_ok _ os _ _))
            (newest_least t events, newest-All t events, newest-IsFrom t events, refl, refl))
