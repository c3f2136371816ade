-- ===== src/Reader/Channel/Shutdown/Sent.antt =====
-- What reader/channel_reader.go has sent when it is shut down.
use windns_logtail.Base.{
  Text, Time, Bool, true, false, List, [], ◌∷◌, ◌++◌, ◌≡◌, ◌≢◌, ◌⊎◌, inl, inr, refl, sym, subst,
  append-nil,
}
use windns_logtail.Checkpoint.State.{EventLogState}
use windns_logtail.Reader.Channel.Open.{Api}
use windns_logtail.Reader.Channel.Read.{Xml, Record, Batch, batch, stopped, unfinished}
use windns_logtail.Reader.Channel.Loop.{ChannelReader, deliver, on_batch}
use windns_logtail.Reader.Channel.Order.{IsInOrder, on_batch-IsInOrder}
use windns_logtail.Reader.Channel.Shutdown.{
  records_shut, ShutdownState, goes_on, before_send, ShutdownStep, reads, gives, sends, panics,
  shuts_point, tells_loop, shuts_records, ShutdownRun, at_rest, and_then,
}

module _ {Rest W : Type 0} (xml : Xml Rest) (api : Api W) where
  abbrev in_hand : List (Record xml api) → List (List (Record xml api))
  in_hand [] = []
  in_hand (r ∷ rs) = (r ∷ rs) ∷ []

  -- The state that is still to be given.
  abbrev to_give : List (Record xml api) → Bool → EventLogState → List EventLogState
  to_give [] given st = []
  to_give (r ∷ rs) true st = []
  to_give (r ∷ rs) false st = st ∷ []

  abbrev pub reader_with :
      ChannelReader xml api
      → List (List (Record xml api))
      → List EventLogState
      → ChannelReader xml api
  reader_with c records persisted = record c { records = records; persisted = persisted }

  -- The reader, with the batch in hand as if it were sent, and its state given.
  abbrev pub with_hand : ShutdownState xml api → ChannelReader xml api
  with_hand c =
      reader_with c.reader (c.reader.records ++ in_hand c.held)
        (c.reader.persisted ++ to_give c.held c.given c.reader.state)

  move :
      (t : Time) (c : ChannelReader xml api) {l l' : List (List (Record xml api))}
      {p p' : List EventLogState}
      → l ≡ l'
      → p ≡ p'
      → IsInOrder xml api t (reader_with c l p)
      → IsInOrder xml api t (reader_with c l' p')
  move t c {l} {l'} {p} {p'} e f v =
      subst (λ q. IsInOrder xml api t (reader_with c l' q)) f
        (subst (λ m. IsInOrder xml api t (reader_with c m p)) e v)

  deliver-in_hand :
      (t : Time) (c : ChannelReader xml api) (st : EventLogState) (rs : List (Record xml api))
      → IsInOrder xml api t (deliver xml api c (st, rs))
      → IsInOrder xml api t (
          reader_with
            (deliver xml api c (st, rs))
            (c.records ++ in_hand rs)
            (c.persisted ++ to_give rs false (deliver xml api c (st, rs)).state))
  unfolding deliver
  deliver-in_hand t c st [] v =
      move t (record c { state = st }) (sym (append-nil c.records)) (sym (append-nil c.persisted)) v
  deliver-in_hand t c st (r ∷ rs) v = v

  on_batch-in_hand :
      (t : Time) (bookmark : Text) (c : ChannelReader xml api) (b : Batch xml api)
      → IsInOrder xml api t c
      → IsInOrder xml api t (
          reader_with
            (on_batch xml api bookmark c b)
            (c.records ++ in_hand (goes_on xml api bookmark c b))
            (c.persisted
              ++ to_give
                  (goes_on xml api bookmark c b)
                  false
                  (on_batch xml api bookmark c b).state))
  unfolding on_batch goes_on
  on_batch-in_hand t bookmark c (batch rs) v =
      deliver-in_hand t c _ _ (on_batch-IsInOrder xml api t bookmark c (batch rs) v)
  on_batch-in_hand t bookmark c (stopped e) v =
      move t (record c { running = false }) (sym (append-nil c.records))
        (sym (append-nil c.persisted)) (on_batch-IsInOrder xml api t bookmark c (stopped e) v)
  on_batch-in_hand t bookmark c unfinished v =
      move t c (sym (append-nil c.records)) (sym (append-nil c.persisted)) v

  -- All that was sent, with the batch in hand, is in order since a time, and its states are those
  -- that `PersistState` took, with the one that is still to be given; and the process is up, or it
  -- is down with the channel closed and a batch in hand whose state was taken.
  pub record IsOrderly (t : Time) (c : ShutdownState xml api) : Type 0 where
    pub in_order : IsInOrder xml api t (with_hand c)
    pub up_or : c.up ≡ true ⊎ ((c.closing ≡ records_shut) × (c.held ≢ []) × (c.given ≡ true))

  nothing_held :
      (t : Time) (c : ChannelReader xml api) (held : List (Record xml api)) (given : Bool)
      → held ≡ []
      → IsInOrder xml api t
          (reader_with c (c.records ++ in_hand held) (c.persisted ++ to_give held given c.state))
      → IsInOrder xml api t c
  nothing_held t c [] given h v = move t c (append-nil c.records) (append-nil c.persisted) v
  nothing_held t c (r ∷ rs) given h v = cc

  hands_over :
      (t : Time) (c : ChannelReader xml api) (held : List (Record xml api)) (given : Bool)
      → held ≢ []
      → given ≡ true
      → IsInOrder xml api t
          (reader_with c (c.records ++ in_hand held) (c.persisted ++ to_give held given c.state))
      → IsInOrder xml api t (reader_with c ((c.records ++ held ∷ []) ++ []) (c.persisted ++ []))
  hands_over t c [] given h g v = absurd (h refl)
  hands_over t c (r ∷ rs) true h g v =
      move t c (sym (append-nil (c.records ++ (r ∷ rs) ∷ []))) refl v
  hands_over t c (r ∷ rs) false h g v = cc

  gives_state :
      (t : Time) (c : ChannelReader xml api) (held : List (Record xml api)) (given : Bool)
      → held ≢ []
      → given ≡ false
      → IsInOrder xml api t
          (reader_with c (c.records ++ in_hand held) (c.persisted ++ to_give held given c.state))
      → IsInOrder xml api t (
          reader_with c
            (c.records ++ in_hand held)
            ((c.persisted ++ c.state ∷ []) ++ to_give held true c.state))
  gives_state t c [] given h g v = absurd (h refl)
  gives_state t c (r ∷ rs) true h g v = cc
  gives_state t c (r ∷ rs) false h g v =
      move t c refl (sym (append-nil (c.persisted ++ c.state ∷ []))) v

  step-IsOrderly :
      (t : Time) (c : ShutdownState xml api) {u : ShutdownState xml api}
      → ShutdownStep xml api c u
      → IsOrderly t c
      → IsOrderly t u
  unfolding before_send
  step-IsOrderly t c (reads up running empty) v = record {
    in_order =
        on_batch-in_hand t _ c.reader _ (nothing_held t c.reader c.held c.given empty v.in_order);
    up_or = inl up;
  }
  step-IsOrderly t c (gives up some_held not_yet taken) v = record {
    in_order = gives_state t c.reader c.held c.given some_held not_yet v.in_order;
    up_or = inl up;
  }
  step-IsOrderly t c (sends up opened some_held given) v = record {
    in_order = hands_over t c.reader c.held c.given some_held given v.in_order;
    up_or = inl up;
  }
  step-IsOrderly t c (panics up shut some_held given) v = record {
    in_order = v.in_order;
    up_or = inr (shut, some_held, given);
  }
  step-IsOrderly t c (shuts_point up at) v = record { in_order = v.in_order; up_or = inl up }
  step-IsOrderly t c (tells_loop up at) v = record {
    in_order = record {
      rising = v.in_order.rising;
      at_end = v.in_order.at_end;
      some_record = v.in_order.some_record;
      followed = v.in_order.followed;
    };
    up_or = inl up;
  }
  step-IsOrderly t c (shuts_records up at) v = record { in_order = v.in_order; up_or = inl up }

  -- However the calls of `Shutdown` fall among the rounds of a run and whatever the event log
  -- answers: if what was delivered since time `t` was in order and its states were given to the
  -- checkpoint, this is still so of what was sent together with the batch in hand, whose state
  -- may still be to be given; and if the process is down, the channel was closed with a batch in
  -- hand, which no consumer gets, and whose state the channel of the checkpoint had taken.
  pub ShutdownRun-IsOrderly :
      (t : Time) {s u : ShutdownState xml api}
      → IsOrderly t s
      → ShutdownRun xml api s u
      → IsOrderly t u
  ShutdownRun-IsOrderly t v at_rest = v
  ShutdownRun-IsOrderly t v (and_then run step) =
      step-IsOrderly t _ step (ShutdownRun-IsOrderly t v run)
