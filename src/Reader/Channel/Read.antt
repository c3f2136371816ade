-- ===== src/Reader/Channel/Read.antt =====
-- `Read` of reader/channel_reader.go, with `buildRecordFromXML` and `createBookmarkFromEvent`.
use windns_logtail.Base.{
  Text, lit, text_eq, Time, ℕ, ◌==◌, Option, none, some, List, [], ◌∷◌, ◌++◌, if◌then◌else◌, suc,
}
use windns_logtail.Checkpoint.State.{zero_state}
use windns_logtail.Eventlog.Win.{EventKind, WinRecord}
use windns_logtail.Reader.Channel.Open.{Api, RenderError, insufficient, broken, WinEventReader}
use windns_logtail.Reader.Channel.Fetch.{
  Handles, handles, failed, asking, FetchError, event_handles,
}

-- `sys.Event` of winlogbeat, with the fields that are read or written here.
pub record SysEvent (Rest : Type 0) : Type 0 where
  pub render_err : List Text
  pub render_error_code : ℕ
  pub level : Text
  pub level_raw : ℕ
  pub system_time : Time
  pub record_id : ℕ
  pub rest : Rest

abbrev pub sys_events : Type 0 → EventKind
sys_events Rest = record {
  Event = SysEvent Rest;
  system_time = λ e. e.system_time;
  record_id = λ e. e.record_id;
}

-- What winlogbeat does to an event: reading it from XML, with an error or without, looking its
-- account up, and the names of errors and levels.
pub record Xml (Rest : Type 0) : Type 0 where
  pub unmarshal : Text → SysEvent Rest × Option Text
  pub populate_account : Rest → Rest
  pub errno_text : ℕ → Text
  pub level_name : ℕ → Text

abbrev pub add_error : {Rest : Type 0} → Option Text → SysEvent Rest → SysEvent Rest
add_error none e = e
add_error (some m) e = record e { render_err = e.render_err ++ m ∷ [] }

-- A second request for a larger buffer counts as an error.
abbrev pub error_text : Option RenderError → Option Text
error_text none = none
error_text (some (broken m)) = some m
error_text (some (insufficient n m)) = some m

module _ {Rest W : Type 0} (xml : Xml Rest) (api : Api W) where
  abbrev pub Record : Type 0
  Record = WinRecord (SysEvent Rest)

  -- The errors of an event: that of its code, or else that of its rendering.
  unfoldable pub with_errors : Option Text → SysEvent Rest → SysEvent Rest
  with_errors recovered e =
      if e.render_error_code == 0
      then add_error recovered e
      else add_error (some (xml.errno_text e.render_error_code)) e

  unfoldable pub with_level : SysEvent Rest → SysEvent Rest
  with_level e =
      if text_eq e.level (lit "") then record e { level = xml.level_name e.level_raw } else e

  unfoldable pub build_record : WinEventReader → Text → Option Text → Record
  unfolding with_errors with_level
  build_record l x recovered =
      let (e, error) = xml.unmarshal x in
      let read = add_error error e in
      let known = record read { rest = xml.populate_account read.rest } in
      record {
        event = with_level (with_errors recovered known);
        file = if l.file then l.channel_name else lit "";
        api = lit "ReaderAPI";
        xml = [];
        offset = zero_state;
      }

  -- Rendering, again with a larger buffer if that is what the first try asks for: the size of the
  -- buffer, the text, and the error.
  unfoldable pub retry : ℕ → ℕ → Text × Option RenderError → ℕ × Text × Option Text
  retry h size (x, some (insufficient n m)) = let (y, e) = api.render h n in (n, y, error_text e)
  retry h size (x, some (broken m)) = (size, x, some m)
  retry h size (x, none) = (size, x, none)

  unfoldable pub render_event : WinEventReader → ℕ → ℕ × Text × Option Text
  unfolding retry
  render_event l h = retry h l.render_buf (api.render h l.render_buf)

  -- The record of a handle with its position, and the bookmark of the reader moved there.
  unfoldable pub placed : WinEventReader → ℕ → Record → WinEventReader × List Record
  placed l h r =
      let offset = record zero_state {
        name = l.channel_name;
        record_number = r.event.record_id;
        timestamp = r.event.system_time;
        bookmark = api.bookmark_of h;
      } in
      (
        record l { state = record l.state { bookmark = api.bookmark_of h } },
        (record r { offset = offset }) ∷ [],
      )

  -- A handle is dropped if rendering it fails and writes nothing.
  unfoldable pub read_rendered :
      WinEventReader → ℕ → ℕ × Text × Option Text → WinEventReader × List Record
  unfolding placed build_record
  read_rendered l h (size, [], some m) = (record l { render_buf = size }, [])
  read_rendered l h (size, [], none) =
      placed (record l { render_buf = size }) h (build_record l [] none)
  read_rendered l h (size, c ∷ x, error) =
      placed (record l { render_buf = size }) h (build_record l (c ∷ x) error)

  unfoldable pub read_handles : WinEventReader → List ℕ → WinEventReader × List Record
  unfolding read_rendered render_event
  read_handles l [] = (l, [])
  read_handles l (h ∷ hs) =
      let (l1, rs) = read_rendered l h (render_event l h) in
      let (l2, rest) = read_handles l1 hs in (l2, rs ++ rest)

  abbrev close_all : List ℕ → W → W
  close_all [] w = w
  close_all (h ∷ hs) w = close_all hs (api.close h w).0

  -- What `Read` returns.
  pub data Batch : Type 0 where
    batch : List Record → Batch
    stopped : FetchError → Batch
    unfinished : Batch

  unfoldable pub read_batch : (W × WinEventReader) × Handles → (W × WinEventReader) × Batch
  unfolding read_handles
  read_batch ((w, l), failed e) = ((w, l), stopped e)
  read_batch ((w, l), asking) = ((w, l), unfinished)
  read_batch ((w, l), handles hs) =
      let (l', rs) = read_handles l hs in ((close_all hs w, l'), batch rs)

  -- The halving needs one round more than the largest request.
  unfoldable pub read : WinEventReader → W → (W × WinEventReader) × Batch
  unfolding read_batch event_handles
  read l w = read_batch (event_handles api (suc l.max_read) l w l.max_read)
