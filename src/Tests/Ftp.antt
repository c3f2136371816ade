-- ===== src/Tests/Ftp.antt =====
-- consumer/consumer_ftp.go at concrete inputs.
use windns_logtail.Base.{
  Text, lit, pos, ℕ, true, false, none, some, List, [], ◌∷◌, ◌++◌, ◌≡◌, refl, ap, last, map, concat,
  text_eq, arith,
}
use windns_logtail.Base.Dict.{lookup, insert, erase}
use windns_logtail.Checkpoint.State.{zero_state}
use windns_logtail.Eventlog.Kind.{RecordKind}
use windns_logtail.Consumer.Ftp.Archive.{Disk, zipped}
use windns_logtail.Consumer.Ftp.Handle.{Ftp, HandleOs, line, handle_events}
use windns_logtail.Consumer.Ftp.Kept.{IsKept, handle_events-IsKept}
use windns_logtail.Consumer.Ftp.Newest.{IsMoved, handle_events-IsMoved}
use windns_logtail.Consumer.Ftp.Path.{path_join}
use windns_logtail.Consumer.Ftp.Upload.{
  FileInfo, Sites, stored, Server, CheckOs, retire, check_archive_log,
}
use windns_logtail.Consumer.Ftp.Uploaded.{IsSafe, check_archive_log-IsSafe}

-- A record is its time; its text is one letter.
abbrev kind : RecordKind
kind = record { Record = ℕ; timestamp = λ t. pos t; string = λ t. lit "r"; json = λ t. lit "j" }

abbrev zip_of : Text → Text → Text
zip_of name bytes = lit "zip " ++ (name ++ (lit ":" ++ bytes))

abbrev ftp : Ftp
ftp = record {
  name = lit "ftp";
  remote_addr = lit "10.0.0.1:21";
  username = lit "u";
  password = lit "p";
  file_path = lit "/logs";
  file_max_size = pos 0;
  is_sftp = false;
  log_file_prefix = lit "dns";
  log_format = lit "json";
  state = record zero_state { timestamp = pos 6 };
  persisted = [];
}

abbrev os : HandleOs
os = record {
  open_ok = true;
  writes = λ i. none;
  stat_ok = true;
  zip = zipped true none;
  stamp = lit "20240102030405";
}

abbrev disk : Disk
disk = record { log = some (lit "old\n"); archive = [] }

abbrev batch : List ℕ
batch = 5 ∷ 9 ∷ 7 ∷ []

packed :
    lookup
      (lit "dns_20240102030405_1.zip")
      (handle_events kind zip_of os ftp disk batch).disk.archive
    ≡ some (lit "zip 20240102030405.log:old\nj\nj\nj\n")
unfolding handle_events lookup insert erase text_eq
packed = refl

handle_events-IsKept_example :
    IsKept zip_of
      (lit "dns")
      (lit "20240102030405")
      (lit "old\n" ++ concat (map (line kind (lit "json")) batch))
      (handle_events kind zip_of os ftp disk batch).disk
handle_events-IsKept_example =
    handle_events-IsKept kind zip_of os ftp disk batch refl (λ i. refl) refl

handle_events-IsMoved_example :
    IsMoved kind ftp batch (handle_events kind zip_of os ftp disk batch).ftp
handle_events-IsMoved_example = handle_events-IsMoved kind zip_of os ftp disk batch refl

windows_join : path_join (lit "C:\\logs\\dns") (lit "a.zip") ≡ lit "C:\\logs\\dns\\a.zip"
unfolding path_join
windows_join = refl

unix_join : path_join (lit "/logs") (lit "a.zip") ≡ lit "/logs/a.zip"
unfolding path_join
unix_join = refl

abbrev file : Text → ℕ → FileInfo
file name age = record { name = name; is_dir = false; mod_time = pos age }

abbrev files : List FileInfo
files =
    file (lit "a") 5
    ∷ file (lit "b") 3
    ∷ file (lit "c") 4
    ∷ file (lit "d") 6
    ∷ file (lit "e") 7
    ∷ file (lit "f") 8
    ∷ file (lit "g") 9
    ∷ file (lit "h") 10
    ∷ file (lit "i") 11
    ∷ file (lit "j") 12
    ∷ file (lit "k") 13
    ∷ []

abbrev sites : Sites
sites = record { archive = (lit "a", lit "one") ∷ (lit "b", lit "two") ∷ []; remote = [] }

abbrev server : Server
server = record { dial = true; login = true; put = λ path. stored }

abbrev check_os : CheckOs
check_os = record {
  try_lock = true;
  read_dir = some files;
  removes = λ name. true;
  reads = λ name. true;
  sftp = server;
  ftp = server;
}

retired : (retire files).0 ≡ file (lit "b") 3 ∷ []
unfolding retire
retired = refl

check_archive_log-IsSafe_example :
    IsSafe
      (lit "/logs")
      (lit "a")
      (lit "one")
      (check_archive_log check_os false (lit "/logs") sites).0
unfolding retire lookup text_eq
check_archive_log-IsSafe_example =
    check_archive_log-IsSafe (lit "/logs") (lit "a") (lit "one") check_os false files sites refl
      ((λ e. let same : b'a' ≡ b'b' = ap (last 0) e in omega (arith, same)), tt) refl
