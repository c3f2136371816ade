-- ===== src/Tests/Syslog.antt =====
-- consumer/consumer_syslog.go at concrete inputs.
use windns_logtail.Base.{
  lit, length, true, ◌≤◌, ◌≢◌, text_eq, to_lower, pos, ℕ, false, List, [], ◌∷◌, ◌≡◌, refl, map,
  arith,
}
use windns_logtail.Base.Decimal.{decimal}
use windns_logtail.Chunk.{returned, running, read_chunk}
use windns_logtail.Checkpoint.State.{zero_state}
use windns_logtail.Eventlog.Kind.{RecordKind}
use windns_logtail.Consumer.Syslog.{Syslog, Net, raw_line, message, handle_events}
use windns_logtail.Consumer.Syslog.Delivery.{
  IsUp, Handled, handle_events_delivers, handle_events_loses,
}
use windns_logtail.Consumer.Syslog.Send.{
  Sending, begun, SendRun, starts, and_then, writes, panics, expires, returned as at_end,
  signalling, crashed, ended,
}
use windns_logtail.Consumer.Syslog.Send.Late.{IsOver, send_late}
use windns_logtail.Consumer.Syslog.Stuck.{handle_events_stuck}

-- A record is its time; its text is one letter.
abbrev kind : RecordKind
kind = record { Record = ℕ; timestamp = λ t. pos t; string = λ t. lit "r"; json = λ t. lit "j" }

abbrev consumer : Syslog
consumer = record {
  name = lit "dns";
  remote_addr = lit "10.0.0.1:514";
  network = lit "TCP";
  log_format = lit "json";
  state = record zero_state { timestamp = pos 4 };
  persisted = [];
  sent = [];
}

abbrev up : ℕ → Net
up i = record { dial = λ network addr. text_eq network (lit "tcp") }

abbrev down : ℕ → Net
down i = record { dial = λ network addr. false }

abbrev batch : List ℕ
batch = 5 ∷ 8 ∷ 9 ∷ []

handle_batch :
    handle_events kind up consumer batch 4
    ≡ returned (record consumer {
      state = record zero_state { timestamp = pos 9 };
      persisted = record zero_state { timestamp = pos 9 } ∷ [];
      sent = lit "j\n" ∷ lit "j\n" ∷ lit "j\n" ∷ [];
    })
unfolding handle_events read_chunk text_eq to_lower
handle_batch = refl

raw_line_lem :
    raw_line (record { no_prio = false; hostname = lit "host" }) 6 (lit "T") (lit "m\n")
    ≡ lit "<6>T host m\n"
unfolding raw_line decimal
raw_line_lem = refl

up-IsUp : (i : ℕ) → IsUp kind consumer (up i)
unfolding to_lower text_eq
up-IsUp i = record { reached = refl }

handle_events_delivers_example :
    (v : Syslog) × (handle_events kind up consumer batch 4 ≡ returned v)
    × Handled kind consumer v (map (message kind (lit "json")) batch) (pos 9)
handle_events_delivers_example =
    handle_events_delivers kind 4 up consumer batch up-IsUp (refl, (refl, (refl, tt))) (omega arith)

handle_events_loses_example :
    (v : Syslog) × (handle_events kind down consumer batch 4 ≡ returned v)
    × (v.sent ≡ [])
    × (v.state.timestamp ≡ pos 9)
handle_events_loses_example =
    handle_events_loses kind 4 down consumer batch (λ i. refl) (refl, (refl, (refl, tt)))
      (omega arith)

handle_events_stuck_example : handle_events kind up consumer (3 ∷ 4 ∷ []) 1000 ≡ running
handle_events_stuck_example =
    handle_events_stuck kind 1000 up consumer (3 ∷ 4 ∷ []) (λ e. cc) (refl, (refl, tt))

-- The timer expires, and the line is written after all.
abbrev after_timer : Sending
after_timer = record begun { waiter = at_end; closed = true; expired = true }

abbrev written_late : Sending
written_late = record after_timer { sender = signalling; written = lit "m" ∷ [] }

abbrev down_process : Sending
down_process = record written_late { sender = crashed }

timer_first : SendRun (lit "m") begun after_timer
timer_first = and_then starts (expires refl refl)

then_crash : SendRun (lit "m") after_timer down_process
then_crash = and_then (and_then starts (writes refl refl)) (panics refl refl refl)

send_late_example :
    (length after_timer.written ≤ 1)
    × (after_timer.expired ≡ false → after_timer.sender ≢ crashed)
    × (after_timer.expired ≡ true
        → after_timer.sender ≢ ended
        → IsOver down_process
        → down_process.sender ≡ crashed)
send_late_example = send_late timer_first then_crash
