-- ===== src/Reader/Channel/Shutdown.antt =====
-- `Shutdown` of reader/channel_reader.go beside the loop of `run`, which it does not wait for.
pub mod Sent
use windns_logtail.Base.{Text, Bool, true, false, List, [], ◌∷◌, ◌++◌, ◌≡◌, ◌≢◌, ◌⊎◌}
use windns_logtail.Reader.Channel.Open.{Api, WinEventReader}
use windns_logtail.Reader.Channel.Read.{Xml, Record, Batch, batch, stopped, unfinished, read}
use windns_logtail.Reader.Channel.Loop.{ChannelReader, take_new, on_batch}

-- What `Shutdown` has done last: the checkpoint is shut down, `running` is false, and the channel
-- `records` is closed.
pub data Closing : Type 0 where
  still_open point_shut loop_told records_shut : Closing

module _ {Rest W : Type 0} (xml : Xml Rest) (api : Api W) where
  -- A reader in its loop, the batch that a round is about to send (empty at the head of the loop),
  -- whether `PersistState` has taken its state, whether the process is up, and whether the channel
  -- of the checkpoint has room for a state once nobody takes states from it.
  pub record ShutdownState : Type 0 where
    pub reader : ChannelReader xml api
    pub log : WinEventReader
    pub system : W
    pub held : List (Record xml api)
    pub given : Bool
    pub room : Bool
    pub closing : Closing
    pub up : Bool

  -- The records of a read that go on.
  unfoldable pub goes_on : Text → ChannelReader xml api → Batch xml api → List (Record xml api)
  goes_on bookmark c (batch rs) = (take_new xml api bookmark c.state rs).1
  goes_on bookmark c (stopped e) = []
  goes_on bookmark c unfinished = []

  -- A round up to its call of `PersistState`: the state has moved.
  unfoldable pub before_send : ShutdownState → ShutdownState
  unfolding goes_on on_batch read
  before_send c =
      let r = read xml api c.log c.system in
      record c {
        reader = record (on_batch xml api r.0.1.state.bookmark c.reader r.1) {
          records = c.reader.records;
          persisted = c.reader.persisted;
        };
        held = goes_on r.0.1.state.bookmark c.reader r.1;
        given = false;
        log = r.0.1;
        system = r.0.0;
      }

  -- While the checkpoint runs, `PersistState` is taken at last; afterwards a state stays in the
  -- channel if there is room, and the call blocks for ever if there is none.
  abbrev pub IsTaken : ShutdownState → Type 0
  IsTaken c = c.closing ≡ still_open ⊎ c.room ≡ true

  abbrev pub room_left : Closing → Bool → Bool
  room_left still_open room = room
  room_left point_shut room = false
  room_left loop_told room = false
  room_left records_shut room = false

  -- A read that `Shutdown` overtakes counts as done before it. A send to a closed channel panics.
  pub data ShutdownStep (c : ShutdownState) : ShutdownState → Type 0 where
    reads : c.up ≡ true → c.reader.running ≡ true → c.held ≡ [] → ShutdownStep c (before_send c)
    gives :
        c.up ≡ true
        → c.held ≢ []
        → c.given ≡ false
        → IsTaken c
        → ShutdownStep c (record c {
          reader = record c.reader { persisted = c.reader.persisted ++ c.reader.state ∷ [] };
          given = true;
          room = room_left c.closing c.room;
        })
    sends :
        c.up ≡ true
        → c.closing ≢ records_shut
        → c.held ≢ []
        → c.given ≡ true
        → ShutdownStep c (record c {
          reader = record c.reader { records = c.reader.records ++ c.held ∷ [] };
          held = [];
        })
    panics :
        c.up ≡ true
        → c.closing ≡ records_shut
        → c.held ≢ []
        → c.given ≡ true
        → ShutdownStep c (record c { up = false })
    shuts_point :
        c.up ≡ true → c.closing ≡ still_open → ShutdownStep c (record c { closing = point_shut })
    tells_loop :
        c.up ≡ true
        → c.closing ≡ point_shut
        → ShutdownStep c
            (record c { reader = record c.reader { running = false }; closing = loop_told })
    shuts_records :
        c.up ≡ true → c.closing ≡ loop_told → ShutdownStep c (record c { closing = records_shut })

  pub data ShutdownRun (c : ShutdownState) : ShutdownState → Type 0 where
    at_rest : ShutdownRun c c
    and_then : {t u : ShutdownState} → ShutdownRun c t → ShutdownStep t u → ShutdownRun c u
