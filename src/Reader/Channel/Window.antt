-- ===== src/Reader/Channel/Window.antt =====
-- How far back a channel reader of reader/channel_reader.go asks for events.
use windns_logtail.Base.{
  Text, ℕ, pos, Bool, false, List, [], ◌∷◌, ◌≡◌, refl, ◌∙◌, ap, ◌+◌, ◌<◌, ◌≤◌, ◌*◌, ◌/◌, ◌^◌, arith,
  unix, nano_per_second,
}
use windns_logtail.Checkpoint.State.{EventLogState}
use windns_logtail.Reader.Channel.Open.{WinEventReader}
use windns_logtail.Reader.Channel.New.{
  WinEventOption, with_level, with_event_id, with_stop, apply_option, apply_options,
  new_win_event_reader, reader_for,
}

-- No option changes the age, or whether a file is read.
apply_options-query :
    (os : List WinEventOption) (l : WinEventReader)
    → ((apply_options os l).query.ignore_older ≡ l.query.ignore_older)
      × ((apply_options os l).file ≡ l.file)
unfolding apply_options apply_option
apply_options-query [] l = (refl, refl)
apply_options-query (with_level level ∷ os) l = apply_options-query os _
apply_options-query (with_event_id event_id ∷ os) l = apply_options-query os _
apply_options-query (with_stop ∷ os) l = apply_options-query os _

-- Whatever its options, a reader whose name is not an absolute path and whose state has a time from
-- 1970 to 2286 (10 ^ 19 nanoseconds) reads a channel, and its query, which `openChannel`
-- builds the subscription from, leaves out what is older than some duration: that is
-- the number of whole seconds of the state's time, taken as nanoseconds, so it is below ten
-- seconds, however long ago the state was saved.
pub query_window :
    (is_abs : Text → Bool) (clean : Text → Text) (name : Text) (max_read : ℕ) (st : EventLogState)
    (options : List WinEventOption) (t : ℕ)
    → is_abs name ≡ false
    → st.timestamp ≡ pos t
    → t < 10 ^ 19
    → let l = reader_for is_abs clean name max_read st options in
      (l.file ≡ false)
      × ((d : ℕ) × (l.query.ignore_older ≡ pos d)
          × (d * nano_per_second ≤ t)
          × (t < (d + 1) * nano_per_second)
          × (d < 10 * nano_per_second))
unfolding reader_for new_win_event_reader
query_window is_abs clean name max_read st options t channel at h = (
  (apply_options-query options _).1 ∙ rw (channel, channel) refl,
  (
    t / nano_per_second,
    (apply_options-query options _).0 ∙ ap unix at,
    omega arith,
    omega arith,
    omega arith,
  ),
)
