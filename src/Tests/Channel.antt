-- ===== src/Tests/Channel.antt =====
-- reader/channel_reader.go at concrete inputs.
use windns_logtail.Base.{
  nano_per_second, ◌*◌, ◌<◌, Text, text_eq, lit, pos, ℕ, zero, suc, ◌+◌, inl, inr, Bool-cases, ◌≤◌,
  ltb, true, false, Option, none, some, List, [], ◌∷◌, ◌++◌, ◌≡◌, refl, map, length, arith,
  if◌then◌else◌,
}
use windns_logtail.Checkpoint.State.{zero_state}
use windns_logtail.Reader.Channel.Open.{
  Api, Fetched, got, no_more_items, invalid_bound, refused, WinEventReader,
}
use windns_logtail.Reader.Channel.New.{reader_for, with_stop, with_level}
use windns_logtail.Reader.Channel.Window.{query_window}
use windns_logtail.Reader.Channel.Fetch.{IsBounded, IsAnswer, event_handles, event_handles_lem}
use windns_logtail.Reader.Channel.Read.{Xml, SysEvent, Record}
use windns_logtail.Reader.Channel.Loop.{ChannelReader, run}
use windns_logtail.Reader.Channel.Shutdown.{
  ShutdownState, still_open, records_shut, before_send, ShutdownRun, reads, gives, panics,
  shuts_point, tells_loop, shuts_records, at_rest, and_then,
}
use windns_logtail.Reader.Channel.Shutdown.Sent.{IsOrderly, ShutdownRun-IsOrderly}
use windns_logtail.Reader.Channel.Order.{IsInOrder, run-IsInOrder}

-- A log in which the next event has number `w`, which ends at 4, and which gives one at a time:
-- it refuses a larger request.
abbrev pub answer : ℕ → ℕ → Fetched
answer zero w = refused
answer (suc zero) w = if ltb w 4 then got (w ∷ []) else no_more_items
answer (suc (suc n)) w = invalid_bound

abbrev pub api : Api ℕ
api = record {
  bookmark_from_xml = λ x w. (w, some 9);
  bookmark_from_id = λ name n w. (w, some 9);
  create_event = λ w. (w, true);
  build_query = λ q. some (lit "*");
  subscribe = λ filter bookmark after w. (w, some 7);
  query_file = λ path w. (w, some 7);
  seek = λ s h b w. (w, true);
  close = λ h w. (w, true);
  event_handles = λ h n w. (elim (answer n w) [ got hs ↦ suc w | _ ↦ w ], answer n w);
  render = λ h size. (h ∷ [], none);
  bookmark_of = λ h. h ∷ [];
}

abbrev pub event : Text → SysEvent Unit × Option Text
event x = (
  record {
    render_err = [];
    render_error_code = 0;
    level = [];
    level_raw = 4;
    system_time = pos (length x + elim x [ [] ↦ 0 | c ∷ cs ↦ c ]);
    record_id = elim x [ [] ↦ 0 | c ∷ cs ↦ c ];
    rest = tt;
  },
  none,
)

abbrev pub xml : Xml Unit
xml = record {
  unmarshal = event;
  populate_account = λ u. u;
  errno_text = λ c. lit "error";
  level_name = λ n. lit "Information";
}

abbrev pub win : WinEventReader
win = record {
  channel_name = lit "System";
  file = false;
  query = record { log = lit "System"; ignore_older = pos 0; level = []; event_id = [] };
  max_read = 5;
  subscription = 0;
  state = zero_state;
  render_buf = 16384;
  stop_if_empty = true;
}

abbrev pub reader : ChannelReader xml api
reader = record {
  name = lit "System";
  max_read = 5;
  running = false;
  state = record zero_state { timestamp = pos 2 };
  persisted = [];
  records = [];
}

-- Events 1, 2 and 3 are read; the first has the time of the state.
delivered : map length (run xml api 6 reader win 1).0.records ≡ 1 ∷ 1 ∷ []
unfolding run text_eq
delivered = refl

got_one : (n w : ℕ) (hs : List ℕ) → answer n w ≡ got hs → length hs ≤ n
got_one zero w hs h = ground arith
got_one (suc zero) w hs h = elim (Bool-cases (ltb w 4)) [
  | inl more ↦ ground arith
  | inr ended ↦ ground arith
]
got_one (suc (suc n)) w hs h = ground arith

api-IsBounded : IsBounded api
api-IsBounded = record {
  at_most = λ h n w hs e. got_one n w hs e;
  none_refused = λ h w e. ground arith;
}

event_handles_lem_example : IsAnswer api 5 (event_handles api 6 win 1 5).1
event_handles_lem_example = event_handles_lem api api-IsBounded 6 win 1 5 (omega arith)

pub reader-IsInOrder : IsInOrder xml api (pos 2) reader
reader-IsInOrder = record { rising = tt; at_end = refl; some_record = tt; followed = refl }

run-IsInOrder_example : IsInOrder xml api (pos 2) (run xml api 6 reader win 1).0
run-IsInOrder_example = run-IsInOrder xml api (pos 2) 6 reader win 1 reader-IsInOrder

-- A run that is shut down after its second read, before the state of that read is given: the checkpoint is shut
-- down, its channel takes the state, and the channel of batches is closed.
abbrev looping : ShutdownState xml api
looping = record {
  reader = record reader { running = true };
  log = win;
  system = 1;
  held = [];
  given = false;
  room = true;
  closing = still_open;
  up = true;
}

abbrev holding : ShutdownState xml api
holding = before_send xml api (before_send xml api looping)

abbrev fallen : ShutdownState xml api
fallen = record holding {
  reader = record holding.reader {
    running = false;
    persisted = holding.reader.persisted ++ holding.reader.state ∷ [];
  };
  closing = records_shut;
  given = true;
  room = false;
  up = false;
}

to_holding : ShutdownRun xml api looping holding
unfolding before_send text_eq
to_holding = and_then (and_then at_rest (reads refl refl refl)) (reads refl refl refl)

to_fallen : ShutdownRun xml api looping fallen
unfolding before_send text_eq
to_fallen =
    and_then
      (and_then
        (and_then
          (and_then (and_then to_holding (shuts_point refl refl))
            (gives refl (λ e. cc) refl (inr refl)))
          (tells_loop refl refl))
        (shuts_records refl refl))
      (panics refl refl (λ e. cc) refl)

looping-IsOrderly : IsOrderly xml api (pos 2) looping
looping-IsOrderly = record {
  in_order = record { rising = tt; at_end = refl; some_record = tt; followed = refl };
  up_or = inl refl;
}

ShutdownRun-IsOrderly_example : IsOrderly xml api (pos 2) fallen
ShutdownRun-IsOrderly_example = ShutdownRun-IsOrderly xml api (pos 2) looping-IsOrderly to_fallen

-- A record with time n + 1.
abbrev at : ℕ → Record xml api
at n = record { event = (event (n ∷ [])).0; file = []; api = []; xml = []; offset = zero_state }

abbrev system_reader : WinEventReader
system_reader =
    reader_for (λ p. false) (λ p. p) (lit "System") 1000
      (record zero_state { timestamp = pos 1_600_000_000_000_000_000 })
      (with_stop ∷ with_level (lit "2") ∷ [])

query_window_example :
    (system_reader.file ≡ false)
    × ((d : ℕ) × (system_reader.query.ignore_older ≡ pos d)
        × (d * nano_per_second ≤ 1_600_000_000_000_000_000)
        × (1_600_000_000_000_000_000 < (d + 1) * nano_per_second)
        × (d < 10 * nano_per_second))
query_window_example =
    query_window (λ p. false) (λ p. p) (lit "System") 1000
      (record zero_state { timestamp = pos 1_600_000_000_000_000_000 })
      (with_stop ∷ with_level (lit "2") ∷ []) 1_600_000_000_000_000_000 refl refl (omega arith)
