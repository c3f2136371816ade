-- ===== src/Reader/Channel/Order.antt =====
-- reader/channel_reader.go: what is delivered rises in time, as the consumers need it.
use windns_logtail.Base.{
  Text, Time, not_after, ℕ, zero, suc, ◌<◌, Bool, true, false, List, [], ◌∷◌, ◌++◌, ◌≡◌, refl, sym,
  ap, subst, ◌∙◌, length, last, map, concat, concat-append, append-nil, All, All-append, arith,
  if◌then◌else◌, Bool-cases, inl, inr,
}
use mathlib.Core.List.{map-append}
use windns_logtail.Rising.{IsRising, end_time, end_time-append, end_time-last, append-IsRising}
use windns_logtail.Checkpoint.State.{EventLogState}
use windns_logtail.Reader.Channel.Open.{Api, WinEventReader, open_events}
use windns_logtail.Reader.Channel.Read.{Xml, Record, Batch, batch, stopped, unfinished}
use windns_logtail.Reader.Channel.Loop.{
  ChannelReader, moved_to, take_new, deliver, on_batch, round, rounds, after_open, run,
}

module _ {Rest W : Type 0} (xml : Xml Rest) (api : Api W) where
  abbrev pub event_time : Record xml api → Time
  event_time r = r.event.system_time

  take_new-IsRising :
      (bookmark : Text) (st : EventLogState) (rs : List (Record xml api))
      → let r = take_new xml api bookmark st rs in
        IsRising event_time st.timestamp r.1
        × (r.0.timestamp ≡ end_time event_time st.timestamp r.1)
  unfolding take_new
  take_new-IsRising bookmark st [] = (tt, refl)
  take_new-IsRising bookmark st (r ∷ rs) =
      elim (Bool-cases (not_after r.event.system_time st.timestamp)) [
        | inl old ↦ rw old (take_new-IsRising bookmark st rs)
        | inr new ↦
            let later = take_new-IsRising bookmark (moved_to xml api bookmark r st) rs in
            rw new ((ground arith, later.0), later.1)
      ]

  -- If the events of a read rise strictly in time from the state on, the loop over them lets all of
  -- them go on, in their order.
  pub take_new-whole :
      (bookmark : Text) (st : EventLogState) (rs : List (Record xml api))
      → IsRising event_time st.timestamp rs
      → (take_new xml api bookmark st rs).1 ≡ rs
  unfolding take_new
  take_new-whole bookmark st [] h = refl
  take_new-whole bookmark st (r ∷ rs) h =
      let new : not_after r.event.system_time st.timestamp ≡ false = ground arith in
      rw new (ap (◌∷◌ r) (take_new-whole bookmark (moved_to xml api bookmark r st) rs h.1))

  -- The time of the last record of a batch.
  abbrev pub batch_time : Time → List (Record xml api) → Time
  batch_time t [] = t
  batch_time t (r ∷ rs) = event_time (last r rs)

  -- From time `t` on: the batches, one after the other, rise in time, none is empty, the state is
  -- at the time of the last record, and the checkpoint has the times of the batches.
  pub record IsInOrder (t : Time) (c : ChannelReader xml api) : Type 0 where
    pub rising : IsRising event_time t (concat c.records)
    pub at_end : c.state.timestamp ≡ end_time event_time t (concat c.records)
    pub some_record : All (λ b. 0 < length b) c.records
    pub followed : map (λ st. st.timestamp) c.persisted ≡ map (batch_time t) c.records

  deliver-IsInOrder :
      (t : Time) (c : ChannelReader xml api) (st : EventLogState) (rs : List (Record xml api))
      → IsRising event_time c.state.timestamp rs
      → st.timestamp ≡ end_time event_time c.state.timestamp rs
      → IsInOrder t c
      → IsInOrder t (deliver xml api c (st, rs))
  unfolding deliver
  deliver-IsInOrder t c st [] h e v = record {
    rising = v.rising;
    at_end = e ∙ v.at_end;
    some_record = v.some_record;
    followed = v.followed;
  }
  deliver-IsInOrder t c st (r ∷ rs) h e v =
      let joined : concat (c.records ++ (r ∷ rs) ∷ []) ≡ concat c.records ++ r ∷ rs =
        concat-append c.records ((r ∷ rs) ∷ [])
        ∙ ap (λ l. concat c.records ++ l) (append-nil (r ∷ rs)) in
      record {
        rising = subst (IsRising event_time t) (sym joined) (
            append-IsRising event_time t (concat c.records) (r ∷ rs) v.rising
              (subst (λ u. IsRising event_time u (r ∷ rs)) v.at_end h));
        at_end =
            e
            ∙ ap (λ u. end_time event_time u (r ∷ rs)) v.at_end
            ∙ sym (end_time-append event_time t (concat c.records) (r ∷ rs))
            ∙ ap (end_time event_time t) (sym joined);
        some_record = All-append _ c.records ((r ∷ rs) ∷ []) v.some_record (omega arith, tt);
        followed =
            map-append (λ s. s.timestamp) c.persisted (st ∷ [])
            ∙ ap (λ l. l ++ st.timestamp ∷ []) v.followed
            ∙ ap (λ u. map (batch_time t) c.records ++ u ∷ [])
                (e ∙ end_time-last event_time c.state.timestamp r rs)
            ∙ sym (map-append (batch_time t) c.records ((r ∷ rs) ∷ []));
      }

  pub on_batch-IsInOrder :
      (t : Time) (bookmark : Text) (c : ChannelReader xml api) (b : Batch xml api)
      → IsInOrder t c
      → IsInOrder t (on_batch xml api bookmark c b)
  unfolding on_batch
  on_batch-IsInOrder t bookmark c (batch rs) v =
      let r = take_new-IsRising bookmark c.state rs in
      deliver-IsInOrder t c (take_new xml api bookmark c.state rs).0 _ r.0 r.1 v
  on_batch-IsInOrder t bookmark c (stopped e) v = record {
    rising = v.rising;
    at_end = v.at_end;
    some_record = v.some_record;
    followed = v.followed;
  }
  on_batch-IsInOrder t bookmark c unfinished v = v

  if_IsInOrder :
      (t : Time) (b : Bool) (s s' : ChannelReader xml api × WinEventReader × W)
      → IsInOrder t s.0
      → IsInOrder t s'.0
      → IsInOrder t (if b then s else s').0
  if_IsInOrder t true s s' v v' = v
  if_IsInOrder t false s s' v v' = v'

  rounds-IsInOrder :
      (t : Time) (n : ℕ) (s : ChannelReader xml api × WinEventReader × W)
      → IsInOrder t s.0
      → IsInOrder t (rounds xml api n s).0
  unfolding rounds round
  rounds-IsInOrder t zero s v = v
  rounds-IsInOrder t (suc n) s v =
      let next = on_batch-IsInOrder t _ s.0 _ v in
      if_IsInOrder t s.0.running (rounds xml api n (round xml api s)) s
        (rounds-IsInOrder t n (round xml api s) next) v

  after_open-IsInOrder :
      (t : Time) (n : ℕ) (c : ChannelReader xml api) (r : (W × WinEventReader) × Bool)
      → IsInOrder t c
      → IsInOrder t (after_open xml api n c r).0
  unfolding after_open
  after_open-IsInOrder t n c (s, false) v = v
  after_open-IsInOrder t n c (s, true) v = rounds-IsInOrder t n (c, s.1, s.0) v

  -- However many rounds `Run` makes and whatever the event log answers, all the records that a
  -- reader has delivered since time `t` rise strictly in time over all batches, no batch is empty,
  -- the state is at the last record delivered, and the checkpoint was given, for each batch in
  -- turn, a state with the time of its last record, if this was so before the run.
  pub run-IsInOrder :
      (t : Time) (n : ℕ) (c : ChannelReader xml api) (l : WinEventReader) (w : W)
      → IsInOrder t c
      → IsInOrder t (run xml api n c l w).0
  unfolding run
  run-IsInOrder t n c l w v =
      let started : IsInOrder t (record c { running = true }) = record {
        rising = v.rising;
        at_end = v.at_end;
        some_record = v.some_record;
        followed = v.followed;
      } in
      if_IsInOrder t c.running (c, l, w) _ v
        (after_open-IsInOrder t n _ (open_events api l l.state w) started)
