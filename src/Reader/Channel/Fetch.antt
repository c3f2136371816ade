-- ===== src/Reader/Channel/Fetch.antt =====
-- `eventHandles` of reader/channel_reader.go: a request that is too large is halved.
use windns_logtail.Base.{
  ℕ, zero, suc, ◌/◌, ◌≤◌, ◌<◌, Bool, true, false, Option, none, some, List, [], ◌≡◌, ◌≢◌, refl,
  length, arith, if◌then◌else◌,
}
use windns_logtail.Reader.Channel.Open.{
  Api, Fetched, got, no_more_items, invalid_bound, refused, WinEventReader, open_events,
  close_events,
}

pub data FetchError : Type 0 where
  eof no_close no_open no_events : FetchError

-- Handles, an error, or no end within the fuel.
pub data Handles : Type 0 where
  handles : List ℕ → Handles
  failed : FetchError → Handles
  asking : Handles

module _ {W : Type 0} (api : Api W) where
  -- Closing and opening again, after a request that the service refused.
  unfoldable pub reopen : WinEventReader → W → (W × WinEventReader) × Option FetchError
  unfolding open_events close_events
  reopen l w =
      let (w1, shut) = close_events api l w in
      elim shut [
        | false ↦ ((w1, l), some no_close)
        | true ↦
            let r = open_events api l l.state w1 in
            elim (r.1) [ false ↦ (r.0, some no_open) | true ↦ (r.0, none) ]
      ]

  -- The cases of an answer, given how to ask again.
  unfoldable pub on_reopen :
      (W × WinEventReader → (W × WinEventReader) × Handles)
      → (W × WinEventReader) × Option FetchError
      → (W × WinEventReader) × Handles
  on_reopen again (r, none) = again r
  on_reopen again (r, some e) = (r, failed e)

  unfoldable pub on_answer :
      (W × WinEventReader → (W × WinEventReader) × Handles)
      → WinEventReader
      → W
      → Fetched
      → (W × WinEventReader) × Handles
  unfolding on_reopen reopen
  on_answer again l w (got hs) = ((w, l), handles hs)
  on_answer again l w no_more_items = ((w, l), if l.stop_if_empty then failed eof else handles [])
  on_answer again l w invalid_bound = on_reopen again (reopen l w)
  on_answer again l w refused = ((w, l), failed no_events)

  unfoldable pub event_handles : ℕ → WinEventReader → W → ℕ → (W × WinEventReader) × Handles
  unfolding on_answer
  event_handles zero l w max_read = ((w, l), asking)
  event_handles (suc fuel) l w max_read =
      let (w1, answer) = api.event_handles l.subscription max_read w in
      on_answer (λ r. event_handles fuel r.1 r.0 (max_read / 2)) l w1 answer

  -- The service gives no more handles than asked, and a request for none is an error of another
  -- kind than a bound.
  pub record IsBounded : Type 0 where
    pub at_most :
        (h n : ℕ) (w : W) (hs : List ℕ) → (api.event_handles h n w).1 ≡ got hs → length hs ≤ n
    pub none_refused : (h : ℕ) (w : W) → (api.event_handles h 0 w).1 ≢ invalid_bound

  -- An answer: not more handles than asked for first, or an error.
  abbrev pub IsAnswer : ℕ → Handles → Type 0
  IsAnswer n (handles hs) = length hs ≤ n
  IsAnswer n (failed e) = Unit
  IsAnswer n asking = n < n

  no_more-IsAnswer : (n : ℕ) (stops : Bool) → IsAnswer n (if stops then failed eof else handles [])
  no_more-IsAnswer n true = tt
  no_more-IsAnswer n false = omega arith

  on_reopen-IsAnswer :
      (n : ℕ) (again : W × WinEventReader → (W × WinEventReader) × Handles)
      (r : (W × WinEventReader) × Option FetchError)
      → ((s : W × WinEventReader) → IsAnswer n (again s).1)
      → IsAnswer n (on_reopen again r).1
  unfolding on_reopen
  on_reopen-IsAnswer n again (r, none) h = h r
  on_reopen-IsAnswer n again (r, some e) h = tt

  on_answer-IsAnswer :
      (n : ℕ) (again : W × WinEventReader → (W × WinEventReader) × Handles) (l : WinEventReader)
      (w : W) (answer : Fetched)
      → ((hs : List ℕ) → answer ≡ got hs → length hs ≤ n)
      → (answer ≡ invalid_bound → (s : W × WinEventReader) → IsAnswer n (again s).1)
      → IsAnswer n (on_answer again l w answer).1
  unfolding on_answer
  on_answer-IsAnswer n again l w (got hs) few h = few hs refl
  on_answer-IsAnswer n again l w no_more_items few h = no_more-IsAnswer n l.stop_if_empty
  on_answer-IsAnswer n again l w invalid_bound few h =
      on_reopen-IsAnswer n again (reopen l w) (h refl)
  on_answer-IsAnswer n again l w refused few h = tt

  weaker-IsAnswer : (m n : ℕ) (h : Handles) → m ≤ n → IsAnswer m h → IsAnswer n h
  weaker-IsAnswer m n (handles hs) le few = omega arith
  weaker-IsAnswer m n (failed e) le few = tt
  weaker-IsAnswer m n asking le few = absurd (omega arith)

  -- If the service keeps to its documentation, then with more fuel than the size asked for, the
  -- halving comes to an end, and gives an error or no more handles than were asked for.
  pub event_handles_lem :
      IsBounded
      → (fuel : ℕ) (l : WinEventReader) (w : W) (max_read : ℕ) → max_read < fuel
      → IsAnswer max_read (event_handles fuel l w max_read).1
  unfolding event_handles
  event_handles_lem b zero l w max_read enough = absurd (omega arith)
  event_handles_lem b (suc fuel) l w zero enough =
      on_answer-IsAnswer zero (λ r. event_handles fuel r.1 r.0 (0 / 2)) l _ _
        (b.at_most l.subscription zero w)
        (λ refusal. absurd (b.none_refused l.subscription w refusal))
  event_handles_lem b (suc fuel) l w (suc n) enough =
      on_answer-IsAnswer (suc n) (λ r. event_handles fuel r.1 r.0 (suc n / 2)) l _ _
        (b.at_most l.subscription (suc n) w)
        (λ refusal s.
          weaker-IsAnswer (suc n / 2) (suc n) _ (omega arith)
            (event_handles_lem b fuel s.1 s.0 (suc n / 2) (omega arith)))
