-- ===== src/Tests/Pipeline.antt =====
-- A reader and a consumer together, at a concrete input.
use windns_logtail.Base.{ℕ, lit, pos, arith, [], ◌≡◌, ◌++◌, refl, map, concat, text_eq, to_lower}
use windns_logtail.Chunk.{returned}
use windns_logtail.Checkpoint.State.{zero_state}
use windns_logtail.Consumer.Syslog.{Syslog, Net, message}
use windns_logtail.Consumer.Syslog.Delivery.{IsUp}
use windns_logtail.Eventlog.Win.{WinRecord, win_kind}
use windns_logtail.Reader.Channel.Read.{SysEvent}
use windns_logtail.Base.{Text}
use windns_logtail.Reader.Channel.Loop.{run}
use windns_logtail.Pipeline.{handle_batches}
use windns_logtail.Pipeline.Sent.{kind, delivered_is_sent}
use windns_logtail.Tests.Etl
use windns_logtail.Rising.{IsRising, end_time}
use windns_logtail.Pipeline.Traces.{scanned_is_sent}
use windns_logtail.Reader.Etl.Scan.{Scan, time_of, add_new, scan_events}
use windns_logtail.Tests.Channel.{xml, api, win, reader, reader-IsInOrder}

abbrev json : WinRecord (SysEvent Unit) → Text
json r = lit "j"

abbrev consumer : Syslog
consumer = record {
  name = lit "System";
  remote_addr = lit "10.0.0.1:514";
  network = lit "udp";
  log_format = lit "json";
  state = record zero_state { timestamp = pos 2 };
  persisted = [];
  sent = [];
}

abbrev up : ℕ → ℕ → Net
up i j = record { dial = λ network addr. text_eq network (lit "udp") }

up-IsUp : (i j : ℕ) → IsUp (kind xml api json) consumer (up i j)
unfolding to_lower text_eq
up-IsUp i j = record { reached = refl }

delivered_is_sent_example :
    (v : Syslog) × (handle_batches
        (kind xml api json)
        up
        0
        consumer
        (run xml api 6 reader win 1).0.records
      ≡ returned v)
    × (v.sent
        ≡ []
          ++ map
              (message (kind xml api json) (lit "json"))
              (concat (run xml api 6 reader win 1).0.records))
    × (v.state.timestamp ≡ (run xml api 6 reader win 1).0.state.timestamp)
delivered_is_sent_example =
    delivered_is_sent xml api json (pos 2) 6 reader win 1 up consumer reader-IsInOrder refl up-IsUp

abbrev trace_json : WinRecord (ℕ × ℕ) → Text
trace_json r = lit "j"

abbrev trace_consumer : Syslog
trace_consumer = record consumer { state = record zero_state { timestamp = pos 3 } }

trace_up : (i j : ℕ) → IsUp (win_kind Etl.kind trace_json) trace_consumer (up i j)
unfolding to_lower text_eq
trace_up i j = record { reached = refl }

trace_rises :
    IsRising
      (time_of Etl.kind Etl.digest)
      (pos 3)
      (add_new Etl.kind Etl.digest Etl.scanner.state Etl.trace.event_logs)
unfolding add_new
trace_rises = (refl, (refl, (refl, tt)))

scanned_is_sent_example :
    let new = add_new Etl.kind Etl.digest Etl.scanner.state Etl.trace.event_logs in
    (v : Scan (ℕ × ℕ)) × (scan_events Etl.kind Etl.digest Etl.scanner Etl.trace ≡ returned v)
    × ((u : Syslog) × (handle_batches (win_kind Etl.kind trace_json) up 0 trace_consumer v.records
          ≡ returned u)
        × (u.sent ≡ [] ++ map (message (win_kind Etl.kind trace_json) (lit "json")) new)
        × (u.state.timestamp ≡ end_time (time_of Etl.kind Etl.digest) (pos 3) new))
scanned_is_sent_example =
    scanned_is_sent Etl.kind Etl.digest trace_json Etl.scanner Etl.trace up trace_consumer
      (omega arith) refl refl trace_up trace_rises
