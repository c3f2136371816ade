-- ===== src/Reader/Channel/Open.antt =====
-- `winEventReader` of reader/channel_reader.go with `Open`, `openChannel`, `openFile` and `Close`,
-- over the calls of the Windows event log, which pass on a state `W` of the system.
use windns_logtail.Base.{
  Text, ℕ, ℤ, ltb, Bool, true, false, Option, none, some, List, length, if◌then◌else◌,
}
use windns_logtail.Checkpoint.State.{EventLogState}

-- A call for handles: at most as many as asked, no more items, a size that the service refuses,
-- or another error.
pub data Fetched : Type 0 where
  got : List ℕ → Fetched
  no_more_items invalid_bound refused : Fetched

-- `EvtSeek` strictly to a bookmark, one past it, or to the first event.
pub data Seek : Type 0 where
  to_bookmark past_bookmark to_first : Seek

-- A render writes text, with an error or without; the error may ask for a larger buffer, and has a
-- text.
pub data RenderError : Type 0 where
  insufficient : ℕ → Text → RenderError
  broken : Text → RenderError

-- `wineventlog.Query`. `ignore_older` is a `time.Duration`: nanoseconds.
pub record Query : Type 0 where
  pub log : Text
  pub ignore_older : ℤ
  pub level : Text
  pub event_id : Text

-- Handles are numbers, and 0 is none. `build_query` is `Query.Build`. `bookmark_of` is the text that is rendered of the bookmark
-- of an event, empty or cut short if a call fails.
pub record Api (W : Type 0) : Type 0 where
  pub bookmark_from_xml : Text → W → W × Option ℕ
  pub bookmark_from_id : Text → ℕ → W → W × Option ℕ
  pub create_event : W → W × Bool
  pub build_query : Query → Option Text
  pub subscribe : Text → ℕ → Bool → W → W × Option ℕ
  pub query_file : Text → W → W × Option ℕ
  pub seek : Seek → ℕ → ℕ → W → W × Bool
  pub close : ℕ → W → W × Bool
  pub event_handles : ℕ → ℕ → W → W × Fetched
  pub render : ℕ → ℕ → Text × Option RenderError
  pub bookmark_of : ℕ → Text

-- `renderBuf` is known by its size.
pub record WinEventReader : Type 0 where
  pub channel_name : Text
  pub file : Bool
  pub query : Query
  pub max_read : ℕ
  pub subscription : ℕ
  pub state : EventLogState
  pub render_buf : ℕ
  pub stop_if_empty : Bool

module _ {W : Type 0} (api : Api W) where
  abbrev is_set : ℕ → Bool
  is_set bookmark = ltb 0 bookmark

  -- The handle that a call gave becomes the subscription.
  abbrev subscribed : WinEventReader → W × Option ℕ → (W × WinEventReader) × Bool
  subscribed l (w, none) = ((w, l), false)
  subscribed l (w, some h) = ((w, record l { subscription = h }), true)

  -- If `CreateEvent` fails, the call says that all is well.
  unfoldable pub open_channel : WinEventReader → ℕ → W → (W × WinEventReader) × Bool
  open_channel l bookmark w =
      let (w1, signalled) = api.create_event w in
      elim signalled [
        | false ↦ ((w1, l), true)
        | true ↦ elim (api.build_query l.query) [
          | none ↦ ((w1, l), false)
          | some filter ↦ subscribed l (api.subscribe filter bookmark (is_set bookmark) w1)
        ]
      ]

  -- The place of the bookmark, or the beginning if it is not in the file any more.
  unfoldable pub seek_to : ℕ → ℕ → W → W × Bool
  seek_to h bookmark w =
      let (w1, there) = api.seek to_bookmark h bookmark w in
      elim there [ true ↦ api.seek past_bookmark h bookmark w1 | false ↦ api.seek to_first h 0 w1 ]

  unfoldable pub open_file : WinEventReader → ℕ → W → (W × WinEventReader) × Bool
  unfolding seek_to
  open_file l bookmark w =
      let (w1, opened) = api.query_file l.channel_name w in
      elim opened [
        | none ↦ ((w1, l), false)
        | some h ↦ elim (is_set bookmark) [
          | false ↦ ((w1, record l { subscription = h }), true)
          | true ↦
              let (w2, sought) = seek_to h bookmark w1 in
              elim sought [
                | false ↦ ((w2, l), false)
                | true ↦ ((w2, record l { subscription = h }), true)
              ]
        ]
      ]

  -- The bookmark that a state stands for: its own, else one made from its record number, else
  -- none.
  unfoldable pub bookmark_for : WinEventReader → EventLogState → W → W × Option ℕ
  bookmark_for l state w =
      if ltb 0 (length state.bookmark)
      then api.bookmark_from_xml state.bookmark w
      else if ltb 0 state.record_number
      then api.bookmark_from_id l.channel_name state.record_number w
      else (w, some 0)

  -- `Open`. The bookmark is closed at the end, whatever that call says.
  unfoldable pub open_events : WinEventReader → EventLogState → W → (W × WinEventReader) × Bool
  unfolding bookmark_for open_file open_channel
  open_events l state w =
      let (w1, made) = bookmark_for l state w in
      elim made [
        | none ↦ ((w1, l), false)
        | some bookmark ↦
            let r = if l.file then open_file l bookmark w1 else open_channel l bookmark w1 in
            (((api.close bookmark r.0.0).0, r.0.1), r.1)
      ]

  unfoldable pub close_events : WinEventReader → W → W × Bool
  close_events l w = api.close l.subscription w
