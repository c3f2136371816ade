-- ===== src/Consumer/Manager/Topics.antt =====
-- consumer/consumer.go: who consumes a topic, and what a consumer gets.
use windns_logtail.Base.{
  Text, text_eq, text_eq-true, ℕ, Option, none, some, List, [], ◌∷◌, ◌++◌, append-nil, append_assoc,
  ◌≡◌, refl, ap, ◌∙◌, sym, if◌then◌else◌, Bool-cases, inl, inr, Option-cases, arith,
}
use windns_logtail.Base.Dict.{lookup, lookup-insert}
use windns_logtail.Consumer.Manager.{
  ConsumerKind, ConsumeBinder, Manager, bound, add_consumer, Received, stop_signal, batch, beside,
  once_done,
}

module _ (k : ConsumerKind) where
  open k use {Consumer, Record, set_point}

  -- A call of `AddConsumer`.
  pub record Added : Type 0 where
    pub topic : Text
    pub consumer : Consumer
    pub events : ℕ

  abbrev pub add_all : List Added → Manager k → Manager k
  add_all [] m = m
  add_all (a ∷ more) m = add_all more (add_consumer k a.topic a.consumer a.events m)

  abbrev pub consumes_of : Option (ConsumeBinder k) → List Consumer
  consumes_of none = []
  consumes_of (some b) = b.consumes

  -- The consumers added for a topic, in their order, with the checkpoint set.
  abbrev pub added_for : Text → List Added → List Consumer
  added_for t [] = []
  added_for t (a ∷ more) =
      let rest = added_for t more in if text_eq t a.topic then set_point a.consumer ∷ rest else rest

  consumes_of-bound :
      (o : Option (ConsumeBinder k)) (c : Consumer) (events : ℕ)
      → consumes_of (some (bound k o c events)) ≡ consumes_of o ++ c ∷ []
  unfolding bound
  consumes_of-bound none c events = refl
  consumes_of-bound (some b) c events = refl

  consumes_of-add_consumer :
      (t : Text) (a : Added) (m : Manager k)
      → consumes_of (lookup t (add_consumer k a.topic a.consumer a.events m).consumers)
        ≡ consumes_of (lookup t m.consumers) ++ added_for t (a ∷ [])
  unfolding add_consumer
  consumes_of-add_consumer t a m =
      let c = set_point a.consumer in
      let b = bound k (lookup a.topic m.consumers) c a.events in
      let found = lookup-insert t a.topic b m.consumers in
      elim (Bool-cases (text_eq t a.topic)) [
        | inl same ↦
            rw (found, same)
              (consumes_of-bound (lookup a.topic m.consumers) c a.events
                ∙ ap (λ x. consumes_of (lookup x m.consumers) ++ c ∷ [])
                    (sym (text_eq-true t a.topic same)))
        | inr other ↦ rw (found, other) (sym (append-nil _))
      ]

  added_for-first :
      (t : Text) (a : Added) (more : List Added)
      → added_for t (a ∷ []) ++ added_for t more ≡ added_for t (a ∷ more)
  added_for-first t a more = elim (Bool-cases (text_eq t a.topic)) [
    | inl same ↦ rw same refl
    | inr other ↦ rw other refl
  ]

  -- After any calls of `AddConsumer`, a topic's consumers are those that were added for it, each
  -- with the checkpoint set, in the order of the calls.
  pub consumes_of-add_all :
      (t : Text) (more : List Added) (m : Manager k)
      → consumes_of (lookup t (add_all more m).consumers)
        ≡ consumes_of (lookup t m.consumers) ++ added_for t more
  consumes_of-add_all t [] m = sym (append-nil _)
  consumes_of-add_all t (a ∷ more) m =
      consumes_of-add_all t more (add_consumer k a.topic a.consumer a.events m)
      ∙ ap (λ l. l ++ added_for t more) (consumes_of-add_consumer t a m)
      ∙ append_assoc (consumes_of (lookup t m.consumers)) (added_for t (a ∷ [])) (added_for t more)
      ∙ ap (λ l. consumes_of (lookup t m.consumers) ++ l) (added_for-first t a more)

  -- The channel of a topic, if the topic is there.
  abbrev pub events_of : Option (ConsumeBinder k) → Option ℕ
  events_of none = none
  events_of (some b) = some b.events

  -- The channel of the first call for a topic.
  abbrev pub first_events : Text → List Added → Option ℕ
  first_events t [] = none
  first_events t (a ∷ more) = if text_eq t a.topic then some a.events else first_events t more

  abbrev or_else : Option ℕ → Option ℕ → Option ℕ
  or_else none y = y
  or_else (some x) y = some x

  events_of-bound :
      (o : Option (ConsumeBinder k)) (c : Consumer) (events : ℕ)
      → events_of (some (bound k o c events)) ≡ or_else (events_of o) (some events)
  unfolding bound
  events_of-bound none c events = refl
  events_of-bound (some b) c events = refl

  -- A topic keeps the channel that it got first.
  pub events_of-add_all :
      (t : Text) (more : List Added) (m : Manager k)
      → events_of (lookup t (add_all more m).consumers)
        ≡ or_else (events_of (lookup t m.consumers)) (first_events t more)
  unfolding add_consumer
  events_of-add_all t [] m = ground (arith, Option-cases (lookup t m.consumers))
  events_of-add_all t (a ∷ more) m =
      let b = bound k (lookup a.topic m.consumers) (set_point a.consumer) a.events in
      let found = lookup-insert t a.topic b m.consumers in
      events_of-add_all t more (add_consumer k a.topic a.consumer a.events m)
      ∙ elim (Bool-cases (text_eq t a.topic)) [
        | inl same ↦
            let t_is : t ≡ a.topic = text_eq-true t a.topic same in
            rw
              (
                found,
                same,
                events_of-bound (lookup a.topic m.consumers) (set_point a.consumer) a.events,
              )
              (ap (λ x. or_else (events_of (lookup x m.consumers)) (some a.events)) (sym t_is))
        | inr other ↦ rw (found, other) refl
      ]

  -- The batches that come, in order.
  abbrev pub batches : List (Received k) → List (List Record)
  batches [] = []
  batches (stop_signal ∷ rest) = batches rest
  batches (batch events ∷ rest) = events ∷ batches rest

  -- What one consumer does alone; `none` if it never gets through.
  abbrev pub consume_alone : Consumer → List (List Record) → Option Consumer
  consume_alone c [] = some c
  consume_alone c (b ∷ bs) = once_done k (k.handle_events c b) (λ c'. consume_alone c' bs)

  -- All of them, each alone; `none` if one never gets through.
  abbrev pub each_alone : List (List Record) → List Consumer → Option (List Consumer)
  each_alone bs [] = some []
  each_alone bs (c ∷ cs) = beside k (consume_alone c bs) (each_alone bs cs)
