-- ===== src/Pipeline.antt =====
-- A reader and a syslog consumer of its topic: the batches that go through the channel between
-- them.
pub mod Sent
pub mod Traces
use windns_logtail.Base.{ℕ, suc, length, List, [], ◌∷◌}
use windns_logtail.Chunk.{Outcome, returned, panicked, running}
use windns_logtail.Eventlog.Kind.{RecordKind}
use windns_logtail.Consumer.Syslog.{Syslog, Net, handle_events}

module _ (k : RecordKind) where
  open k use {Record}

  abbrev pub after_batch : Outcome Syslog → (Syslog → Outcome Syslog) → Outcome Syslog
  after_batch (returned s) rest = rest s
  after_batch panicked rest = panicked
  after_batch running rest = running

  -- The loop of a topic of consumer/consumer.go, with one syslog consumer: a batch after the other.
  -- `net i` is what the chunks of batch `i` meet. An error is only logged.
  unfoldable pub handle_batches : (ℕ → ℕ → Net) → ℕ → Syslog → List (List Record) → Outcome Syslog
  handle_batches net i s [] = returned s
  handle_batches net i s (b ∷ bs) =
      after_batch (handle_events k (net i) s b (suc (length b)))
        (λ v. handle_batches net (suc i) v bs)
