-- ===== src/Consumer/Manager.antt =====
-- consumer/consumer.go: the consumers of each topic, and the loop that hands them its batches.
pub mod Topics
use windns_logtail.Base.{
  Text, leb, length, ℕ, zero, suc, Bool, true, false, Option, none, some, List, [], ◌∷◌, ◌++◌, map,
  take, if◌then◌else◌,
}
use windns_logtail.Base.Dict.{Dict, lookup, insert}

-- The interface `Consumer`, by what calls do to the value behind it. An error of `HandleEvents` is
-- only logged; `none` is a call that never returns.
pub record ConsumerKind : Type 1 where
  pub Consumer : Type 0
  pub Record : Type 0
  pub set_point : Consumer → Consumer
  pub handle_events : Consumer → List Record → Option Consumer
  pub shutdown : Consumer → Consumer

module _ (k : ConsumerKind) where
  open k use {Consumer, Record, set_point, shutdown}

  -- `consumeBinder`; a channel is known by a number.
  pub record ConsumeBinder : Type 0 where
    pub consumes : List Consumer
    pub events : ℕ

  -- `stop_chan` holds, for each topic, how many stop signals are in its channel.
  pub record Manager : Type 0 where
    pub stop_chan : Dict ℕ
    pub consumers : Dict ConsumeBinder

  abbrev pub new_manager : Manager
  new_manager = record { stop_chan = []; consumers = [] }

  -- A topic that is there keeps its channel of events.
  unfoldable pub bound : Option ConsumeBinder → Consumer → ℕ → ConsumeBinder
  bound none c events = record { consumes = c ∷ []; events = events }
  bound (some b) c events = record b { consumes = b.consumes ++ c ∷ [] }

  unfoldable pub add_consumer : Text → Consumer → ℕ → Manager → Manager
  unfolding bound
  add_consumer topic c events m = record {
    stop_chan = insert topic 0 m.stop_chan;
    consumers = insert topic (bound (lookup topic m.consumers) (set_point c) events) m.consumers;
  }

  -- What `select` receives in the loop of a topic.
  pub data Received : Type 0 where
    stop_signal : Received
    batch : List Record → Received

  abbrev pub beside : Option Consumer → Option (List Consumer) → Option (List Consumer)
  beside none cs = none
  beside (some c) none = none
  beside (some c) (some cs) = some (c ∷ cs)

  -- All consumers of the topic work at a batch at the same time, each on its own state, and the
  -- loop waits for them all.
  unfoldable pub hand_out : List Record → List Consumer → Option (List Consumer)
  hand_out events [] = some []
  hand_out events (c ∷ cs) = beside (k.handle_events c events) (hand_out events cs)

  abbrev pub once_done : {A B : Type 0} → Option A → (A → Option B) → Option B
  once_done none go_on = none
  once_done (some a) go_on = go_on a

  -- The loop of a topic, for what it receives; `none` if it waits for ever. `break` leaves the
  -- `select`, not the loop.
  unfoldable pub consume_topic : List Consumer → List Received → Option (List Consumer)
  unfolding hand_out
  consume_topic cs [] = some cs
  consume_topic cs (stop_signal ∷ rest) = consume_topic cs rest
  consume_topic cs (batch events ∷ rest) =
      once_done (hand_out events cs) (λ cs'. consume_topic cs' rest)

  -- `Start`: the topics whose loops the pool takes (`none`: all, else so many before `Submit`
  -- fails), and whether all were taken. `range` visits the topics in some order.
  unfoldable pub start : Option ℕ → Manager → Dict ConsumeBinder × Bool
  start none m = (m.consumers, true)
  start (some n) m = (take n m.consumers, leb (length m.consumers) n)

  -- `Shutdown` of the consumers, and a stop signal for each topic.
  unfoldable pub shutdown_binder : ConsumeBinder → ConsumeBinder
  shutdown_binder b = record b { consumes = map shutdown b.consumes }
