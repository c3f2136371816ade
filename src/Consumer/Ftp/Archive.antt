-- ===== src/Consumer/Ftp/Archive.antt =====
-- `zipArchiveFile` of consumer/consumer_ftp.go, on a disk that is the log file and the files of
-- the archive folder.
use windns_logtail.Base.{
  Text, lit, text_eq, Bool, true, false, Option, none, some, ◌++◌, if◌then◌else◌,
}
use windns_logtail.Base.Dict.{Dict, insert, erase}

-- The file `ArchiveLog`, if it exists, and the folder `ArchiveLogPath` by the names in it.
pub record Disk : Type 0 where
  pub log : Option Text
  pub archive : Dict Text

-- How far the calls go: which one fails first, with what the zip file then holds when it is
-- closed. At the end `os.Remove` may fail, and the deferred `Close` of the zip may fail too and
-- leave other contents, both without notice.
pub data Zipping : Type 0 where
  no_rename no_create : Zipping
  no_entry no_read no_write : Text → Zipping
  zipped : Bool → Option Text → Zipping

pub data ZipError : Type 0 where
  rename_failed create_failed entry_failed read_failed write_failed : ZipError

-- The names of the files at a time printed as `20060102150405`.
abbrev pub log_name : Text → Text
log_name stamp = stamp ++ lit ".log"

unfoldable pub zip_name : Text → Text → Text
zip_name file_prefix stamp =
    (if text_eq file_prefix (lit "") then lit "" else file_prefix ++ lit "_")
    ++ (stamp ++ lit "_1.zip")

-- What a closed zip holds, if its `Close` worked.
abbrev closed : Text → Option Text → Text
closed whole none = whole
closed whole (some other) = other

abbrev remove_if : Bool → Text → Disk → Disk
remove_if true name d = record d { archive = erase name d.archive }
remove_if false name d = d

abbrev put : Text → Text → Disk → Disk
put name bytes d = record d { archive = insert name bytes d.archive }

-- The log file renamed into the folder.
abbrev moved : Text → Text → Disk → Disk
moved name bytes d = record { log = none; archive = insert name bytes d.archive }

module _ (zip_of : Text → Text → Text) where
  -- With the log file there. `zip_of name bytes` is a zip with one file.
  unfoldable pub pack : Text → Text → Text → Zipping → Disk → Disk × Option ZipError
  pack log zip bytes no_rename d = (d, some rename_failed)
  pack log zip bytes no_create d = (moved log bytes d, some create_failed)
  pack log zip bytes (no_entry t) d = (put zip t (moved log bytes d), some entry_failed)
  pack log zip bytes (no_read t) d = (put zip t (moved log bytes d), some read_failed)
  pack log zip bytes (no_write t) d = (put zip t (moved log bytes d), some write_failed)
  pack log zip bytes (zipped removed close) d =
      (remove_if removed log (put zip (closed (zip_of log bytes) close) (moved log bytes d)), none)

  -- `pack` of what is at the log file's path.
  unfoldable pub pack_log : Text → Text → Zipping → Disk → Option Text → Disk × Option ZipError
  unfolding pack zip_name
  pack_log file_prefix stamp z d none = (d, some rename_failed)
  pack_log file_prefix stamp z d (some bytes) =
      pack (log_name stamp) (zip_name file_prefix stamp) bytes z d

  unfoldable pub zip_archive_file : Text → Text → Zipping → Disk → Disk × Option ZipError
  unfolding pack_log
  zip_archive_file file_prefix stamp z d = pack_log file_prefix stamp z d d.log
