-- ===== src/Consumer/Ftp/Handle.antt =====
-- `HandleEvents` of consumer/consumer_ftp.go.
use windns_logtail.Base.{
  Text, lit, text_eq, Time, ℤ, pos, negsuc, before, ℕ, suc, ◌*◌, ltb, Bool, true, false, Option,
  none, some, List, [], ◌∷◌, ◌++◌, length, take, if◌then◌else◌,
}
use windns_logtail.Base.Dict.{or_zero}
use windns_logtail.Checkpoint.State.{EventLogState}
use windns_logtail.Eventlog.Kind.{RecordKind}
use windns_logtail.Consumer.Ftp.Archive.{Disk, Zipping, ZipError, zip_archive_file}

-- `FTP`, with a log of the states given to the checkpoint, oldest first.
pub record Ftp : Type 0 where
  pub name : Text
  pub remote_addr : Text
  pub username : Text
  pub password : Text
  pub file_path : Text
  pub file_max_size : ℤ
  pub is_sftp : Bool
  pub log_file_prefix : Text
  pub log_format : Text
  pub state : EventLogState
  pub persisted : List EventLogState

-- The outcomes of the system calls. The write of record `i` writes all (`none`), or fails after
-- some bytes. `stamp` is the time that the archive is named for.
pub record HandleOs : Type 0 where
  pub open_ok : Bool
  pub writes : ℕ → Option ℕ
  pub stat_ok : Bool
  pub zip : Zipping
  pub stamp : Text

pub data HandleError : Type 0 where
  open_failed stat_failed : HandleError
  zip_failed : ZipError → HandleError

-- What a call leaves: `checks` says that it started `checkArchiveLog`.
pub record Handled : Type 0 where
  pub ftp : Ftp
  pub disk : Disk
  pub error : Option HandleError
  pub checks : Bool

-- `float64(size)/1024/1024 > float64(max)`, which is exact for sizes below 2^53 bytes.
abbrev pub is_large : ℤ → ℕ → Bool
is_large (pos m) size = ltb (m * 1048576) size
is_large (negsuc m) size = true

-- What a write leaves of a line.
abbrev pub written : Option ℕ → Text → Text
written none line = line
written (some n) line = take n line

module _ (k : RecordKind) where
  open k use {Record, timestamp, string, json}

  unfoldable pub line : Text → Record → Text
  line log_format r =
      if text_eq log_format (lit "json") then json r ++ lit "\n" else string r ++ lit "\n"

  -- The loop, on what is in the file; record `i` comes first.
  unfoldable pub write_lines : Text → (ℕ → Option ℕ) → ℕ → List Record → Text → Text
  unfolding line
  write_lines log_format writes i [] log = log
  write_lines log_format writes i (r ∷ rs) log =
      write_lines log_format writes (suc i) rs (log ++ written (writes i) (line log_format r))

  -- The loop, on the time of the state.
  unfoldable pub newest : Time → List Record → Time
  newest t [] = t
  newest t (r ∷ rs) = newest (if before t (timestamp r) then timestamp r else t) rs

  module _ (zip_of : Text → Text → Text) where
    unfoldable pub after_zip : Ftp → Disk × Option ZipError → Handled
    after_zip f (d, none) = record { ftp = f; disk = d; error = none; checks = true }
    after_zip f (d, some z) = record {
      ftp = f;
      disk = d;
      error = some (zip_failed z);
      checks = false;
    }

    -- Given whether `Stat` works, and whether the file is large.
    unfoldable pub after_stat : Bool → Bool → HandleOs → Ftp → Disk → Handled
    unfolding after_zip zip_archive_file
    after_stat false large os f d = record {
      ftp = f;
      disk = d;
      error = some stat_failed;
      checks = false;
    }
    after_stat true false os f d = record { ftp = f; disk = d; error = none; checks = true }
    after_stat true true os f d =
        after_zip f (zip_archive_file zip_of f.log_file_prefix os.stamp os.zip d)

    -- After the file was opened; `log` is what it holds after the loop.
    unfoldable pub after_write : HandleOs → Ftp → Disk → List Record → Text → Handled
    unfolding after_stat newest
    after_write os f d events log =
        let st = record f.state { timestamp = newest f.state.timestamp events } in
        after_stat os.stat_ok (is_large f.file_max_size (length log)) os
          (record f { state = st; persisted = f.persisted ++ st ∷ [] })
          (record d { log = some log })

    -- `none` is no log file yet: opening makes an empty one.
    unfoldable pub after_open : Bool → HandleOs → Ftp → Disk → List Record → Handled
    unfolding after_write write_lines
    after_open false os f d events = record {
      ftp = f;
      disk = d;
      error = some open_failed;
      checks = false;
    }
    after_open true os f d events =
        after_write os f d events (write_lines f.log_format os.writes 0 events (or_zero [] d.log))

    unfoldable pub handle_events : HandleOs → Ftp → Disk → List Record → Handled
    unfolding after_open
    handle_events os f d events = after_open os.open_ok os f d events
