-- ===== src/Reader/Channel/Loop.antt =====
-- `Run` and `run` of reader/channel_reader.go: the records that are newer than the state go on.
use windns_logtail.Base.{
  Text, not_after, ℕ, zero, suc, Bool, true, false, List, [], ◌∷◌, ◌++◌, if◌then◌else◌,
}
use windns_logtail.Checkpoint.State.{EventLogState}
use windns_logtail.Reader.Channel.Open.{Api, WinEventReader, open_events, close_events}
use windns_logtail.Reader.Channel.Read.{Xml, Record, Batch, batch, stopped, unfinished, read}

module _ {Rest W : Type 0} (xml : Xml Rest) (api : Api W) where
  -- `ChannelReader`, with a log of the states given to the checkpoint and of the batches sent on
  -- the channel `records`, oldest first.
  pub record ChannelReader : Type 0 where
    pub name : Text
    pub max_read : ℕ
    pub running : Bool
    pub state : EventLogState
    pub persisted : List EventLogState
    pub records : List (List (Record xml api))

  abbrev pub moved_to : Text → Record xml api → EventLogState → EventLogState
  moved_to bookmark r st = record st {
    record_number = r.event.record_id;
    timestamp = r.event.system_time;
    bookmark = bookmark;
  }

  -- The loop over the events: the state after it, and the records that go on. `bookmark` is that
  -- of the last event read.
  unfoldable pub take_new :
      Text → EventLogState → List (Record xml api) → EventLogState × List (Record xml api)
  take_new bookmark st [] = (st, [])
  take_new bookmark st (r ∷ rs) =
      let next = moved_to bookmark r st in
      let later = take_new bookmark next rs in
      let same = take_new bookmark st rs in
      if not_after r.event.system_time st.timestamp then same else (later.0, r ∷ later.1)

  unfoldable pub deliver : ChannelReader → EventLogState × List (Record xml api) → ChannelReader
  deliver c (st, []) = record c { state = st }
  deliver c (st, r ∷ rs) = record c {
    state = st;
    persisted = c.persisted ++ st ∷ [];
    records = c.records ++ (r ∷ rs) ∷ [];
  }

  -- What `run` does with what `Read` returned. An error of any kind ends the loop.
  unfoldable pub on_batch : Text → ChannelReader → Batch xml api → ChannelReader
  unfolding deliver take_new
  on_batch bookmark c (batch rs) = deliver c (take_new bookmark c.state rs)
  on_batch bookmark c (stopped e) = record c { running = false }
  on_batch bookmark c unfinished = c

  -- One round.
  unfoldable pub round : ChannelReader × WinEventReader × W → ChannelReader × WinEventReader × W
  unfolding on_batch read
  round (c, l, w) = let r = read xml api l w in (on_batch r.0.1.state.bookmark c r.1, r.0.1, r.0.0)

  -- The first `n` rounds of the loop, fewer if it ends.
  unfoldable pub rounds :
      ℕ → ChannelReader × WinEventReader × W → ChannelReader × WinEventReader × W
  unfolding round
  rounds zero s = s
  rounds (suc n) s = let next = rounds n (round s) in if s.0.running then next else s

  unfoldable pub after_open :
      ℕ → ChannelReader → (W × WinEventReader) × Bool → ChannelReader × WinEventReader × W
  unfolding rounds close_events
  after_open n c (s, false) = (c, s.1, s.0)
  after_open n c (s, true) =
      let (c', l, w) = rounds n (c, s.1, s.0) in (c', l, (close_events api l w).0)

  -- `Run` with the reader that it makes. `running` stays true if `Open` fails.
  unfoldable pub run : ℕ → ChannelReader → WinEventReader → W → ChannelReader × WinEventReader × W
  unfolding after_open open_events
  run n c l w =
      if c.running
      then (c, l, w)
      else after_open n (record c { running = true }) (open_events api l l.state w)
