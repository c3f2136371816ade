-- ===== src/Consumer/Ftp/Upload.antt =====
-- `checkArchiveLog` of consumer/consumer_ftp.go: the folder is cut down to ten files and uploaded.
use windns_logtail.Base.{
  Text, Time, before, ℕ, ◌-◌, ltb, Bool, true, false, Option, none, some, List, [], ◌∷◌, length,
  take, drop, if◌then◌else◌,
}
use windns_logtail.Base.Dict.{Dict, lookup, insert, erase}
use windns_logtail.Consumer.Ftp.Path.{path_join}

-- An entry of the listing.
pub record FileInfo : Type 0 where
  pub name : Text
  pub is_dir : Bool
  pub mod_time : Time

-- The archive folder by names, and the server by paths.
pub record Sites : Type 0 where
  pub archive : Dict Text
  pub remote : Dict Text

-- `Create` and `Write` of sftp, or `Stor` of ftp: done, refused, or cut off after some bytes.
pub data Put : Type 0 where
  stored refused : Put
  cut : ℕ → Put

-- One protocol: whether the server answers, whether the client is let in, and what storing at a
-- path does.
pub record Server : Type 0 where
  pub dial : Bool
  pub login : Bool
  pub put : Text → Put

-- `removes` says whether `os.Remove` of a file works, which no caller looks at.
pub record CheckOs : Type 0 where
  pub try_lock : Bool
  pub read_dir : Option (List FileInfo)
  pub removes : Text → Bool
  pub reads : Text → Bool
  pub sftp : Server
  pub ftp : Server

pub data CheckError : Type 0 where
  no_list no_dial no_client no_file no_put : CheckError

-- `sort.Slice` by `ModTime`, the oldest first.
unfoldable pub insert_file : FileInfo → List FileInfo → List FileInfo
insert_file x [] = x ∷ []
insert_file x (y ∷ ys) =
    let rest = insert_file x ys in if before y.mod_time x.mod_time then y ∷ rest else x ∷ y ∷ ys

unfoldable pub sort_files : List FileInfo → List FileInfo
unfolding insert_file
sort_files [] = []
sort_files (x ∷ xs) = insert_file x (sort_files xs)

abbrev pub max_files : ℕ
max_files = 10

-- The files that are removed, and those that stay.
unfoldable pub retire : List FileInfo → List FileInfo × List FileInfo
unfolding sort_files
retire files =
    if ltb max_files (length files)
    then (
      take (length files - max_files) (sort_files files),
      drop (length files - max_files) (sort_files files),
    )
    else ([], files)

abbrev pub remove : (Text → Bool) → Text → Dict Text → Dict Text
remove removes name d = if removes name then erase name d else d

unfoldable pub remove_all : (Text → Bool) → List FileInfo → Dict Text → Dict Text
remove_all removes [] d = d
remove_all removes (x ∷ xs) d = remove_all removes xs (remove removes x.name d)

-- What the server holds after a try to store, and whether it worked.
unfoldable pub put_file : Put → Text → Text → Dict Text → Dict Text × Bool
put_file stored path bytes remote = (insert path bytes remote, true)
put_file refused path bytes remote = (remote, false)
put_file (cut n) path bytes remote = (insert path (take n bytes) remote, false)

-- A file is removed from the folder once it is stored.
unfoldable pub after_put :
    (Text → Bool) → Text → Sites → Dict Text × Bool → Sites × Option CheckError
after_put removes name s (remote, false) = (record s { remote = remote }, some no_put)
after_put removes name s (remote, true) =
    (record { archive = remove removes name s.archive; remote = remote }, none)

-- One file, given whether it is a folder and what reading it gives.
unfoldable pub upload_file :
    CheckOs → Server → Text → Text → Bool → Option Text → Sites → Sites × Option CheckError
unfolding after_put put_file path_join
upload_file os server folder name true found s = (s, none)
upload_file os server folder name false none s = (s, some no_file)
upload_file os server folder name false (some bytes) s =
    let path = path_join folder name in
    after_put os.removes name s (put_file (server.put path) path bytes s.remote)

abbrev pub read_file : CheckOs → Text → Sites → Option Text
read_file os name s = if os.reads name then lookup name s.archive else none

-- The loop over the files, which the first error ends.
unfoldable pub upload_loop :
    CheckOs → Server → Text → List FileInfo → Sites → Sites × Option CheckError
unfolding upload_file
upload_loop os server folder [] s = (s, none)
upload_loop os server folder (x ∷ xs) s =
    let (s', e) = upload_file os server folder x.name x.is_dir (read_file os x.name s) s in
    elim e [ none ↦ upload_loop os server folder xs s' | some error ↦ (s', some error) ]

unfoldable pub upload : CheckOs → Server → Text → List FileInfo → Sites → Sites × Option CheckError
unfolding upload_loop
upload os server folder files s =
    if server.dial
    then if server.login then upload_loop os server folder files s else (s, some no_client)
    else (s, some no_dial)

-- `checkArchiveLog` with the lock held, on what the folder lists.
unfoldable pub check_files :
    CheckOs → Bool → Text → Option (List FileInfo) → Sites → Sites × Option CheckError
unfolding retire remove_all upload
check_files os is_sftp folder none s = (s, some no_list)
check_files os is_sftp folder (some []) s = (s, none)
check_files os is_sftp folder (some (x ∷ xs)) s =
    let (old, kept) = retire (x ∷ xs) in
    upload os (if is_sftp then os.sftp else os.ftp) folder kept
      (record s { archive = remove_all os.removes old s.archive })

-- A call that does not get the lock does nothing.
unfoldable pub check_archive_log : CheckOs → Bool → Text → Sites → Sites × Option CheckError
unfolding check_files
check_archive_log os is_sftp folder s =
    if os.try_lock then check_files os is_sftp folder os.read_dir s else (s, none)
