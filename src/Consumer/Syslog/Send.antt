-- ===== src/Consumer/Syslog/Send.antt =====
-- `send` of consumer/consumer_syslog.go: one goroutine writes to the server, and the caller waits
-- for it, for ten seconds at most.
pub mod Late
use windns_logtail.Base.{Text, ℕ, Bool, true, false, List, [], ◌∷◌, ◌++◌, ◌≡◌}
use windns_logtail.Consumer.Syslog.{Client, raw_line}

-- The goroutine is at `SendRaw`, at `done <- struct{}{}`, at its end, or it has panicked, which
-- ends the process.
pub data Sender : Type 0 where
  writing signalling ended crashed : Sender

-- The caller is at `select`, or has returned and so closed `done`.
pub data Waiter : Type 0 where
  selecting returned : Waiter

-- `buffered` and `closed` are those of the channel `done`, of capacity 1; `expired` says that the
-- timer was what `select` took. `written` is what reached the server.
pub record Sending : Type 0 where
  pub sender : Sender
  pub waiter : Waiter
  pub buffered : Bool
  pub closed : Bool
  pub expired : Bool
  pub written : List Text

abbrev pub begun : Sending
begun = record {
  sender = writing;
  waiter = selecting;
  buffered = false;
  closed = false;
  expired = false;
  written = [];
}

-- What can happen next. An error of `SendRaw` is only logged. A send on a closed channel panics.
-- `select` may take the timer although `done` is ready.
pub data SendStep (line : Text) (s : Sending) : Sending → Type 0 where
  writes :
      {t : Sending}
      → s.sender ≡ writing
      → t ≡ record s { sender = signalling; written = s.written ++ line ∷ [] }
      → SendStep line s t
  write_fails :
      {t : Sending} → s.sender ≡ writing → t ≡ record s { sender = signalling } → SendStep line s t
  signals :
      {t : Sending}
      → s.sender ≡ signalling
      → s.closed ≡ false
      → t ≡ record s { sender = ended; buffered = true }
      → SendStep line s t
  panics :
      {t : Sending}
      → s.sender ≡ signalling
      → s.closed ≡ true
      → t ≡ record s { sender = crashed }
      → SendStep line s t
  receives :
      {t : Sending}
      → s.waiter ≡ selecting
      → s.buffered ≡ true
      → t ≡ record s { waiter = returned; buffered = false; closed = true }
      → SendStep line s t
  expires :
      {t : Sending}
      → s.waiter ≡ selecting
      → t ≡ record s { waiter = returned; closed = true; expired = true }
      → SendStep line s t

pub data SendRun (line : Text) (s : Sending) : Sending → Type 0 where
  starts : SendRun line s s
  and_then : {t u : Sending} → SendRun line s t → SendStep line t u → SendRun line s u

-- `send` of a message at a time printed by RFC 3339.
abbrev pub SendRunOf : Client → ℕ → Text → Text → Sending → Sending → Type 0
SendRunOf client priority timestamp message = SendRun (raw_line client priority timestamp message)
