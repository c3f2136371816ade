-- ===== src/Reader/Channel/New.antt =====
-- `newWinEventReader` of reader/channel_reader.go with its options.
use windns_logtail.Base.{Text, ℕ, ℤ, Bool, true, false, List, [], ◌∷◌, if◌then◌else◌, unix}
use windns_logtail.Checkpoint.State.{EventLogState}
use windns_logtail.Reader.Channel.Open.{WinEventReader}

-- `WinEventOptions`, by the functions that make them.
pub data WinEventOption : Type 0 where
  with_level with_event_id : Text → WinEventOption
  with_stop : WinEventOption

-- What an option does to the reader and its query.
unfoldable pub apply_option : WinEventOption → WinEventReader → WinEventReader
apply_option (with_level level) l = record l { query = record l.query { level = level } }
apply_option (with_event_id event_id) l = record l {
  query = record l.query { event_id = event_id };
}
apply_option with_stop l = record l { stop_if_empty = true }

unfoldable pub apply_options : List WinEventOption → WinEventReader → WinEventReader
unfolding apply_option
apply_options [] l = l
apply_options (o ∷ os) l = apply_options os (apply_option o l)

-- `render_buf` has 1 << 14 bytes. A `last_time` of 0 leaves the duration at 0, its zero value.
-- `is_abs` and `clean` are the functions of `path/filepath` on the platform.
unfoldable pub new_win_event_reader :
    (Text → Bool)
    → (Text → Text)
    → Text
    → ℤ
    → ℕ
    → EventLogState
    → List WinEventOption
    → WinEventReader
unfolding apply_options
new_win_event_reader is_abs clean name last_time max_read st options =
    let channel = if is_abs name then clean name else name in
    apply_options options (record {
      channel_name = channel;
      file = is_abs channel;
      query = record { log = name; ignore_older = last_time; level = []; event_id = [] };
      max_read = max_read;
      subscription = 0;
      state = st;
      render_buf = 16384;
      stop_if_empty = false;
    })

-- `Run` of a channel reader makes its reader with the second of the state's time.
unfoldable pub reader_for :
    (Text → Bool) → (Text → Text) → Text → ℕ → EventLogState → List WinEventOption → WinEventReader
unfolding new_win_event_reader
reader_for is_abs clean name max_read st options =
    new_win_event_reader is_abs clean name (unix st.timestamp) max_read st options
