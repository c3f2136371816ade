-- ===== src/Consumer/Ftp/Kept.antt =====
-- consumer/consumer_ftp.go: what is written is kept on every path of `HandleEvents`, and what the
-- state of the consumer says.
use windns_logtail.Base.{
  Text, lit, text_eq, ℕ, suc, Bool, true, false, Option, none, some, List, [], ◌∷◌, ◌++◌, ◌≡◌, ◌≢◌,
  ◌⊎◌, inl, inr, refl, ap, ◌∙◌, sym, subst, last, last-concat, map, concat, append_assoc,
  append-nil, arith, if◌then◌else◌,
}
use windns_logtail.Base.Dict.{
  Dict, lookup, insert, lookup-insert_self, lookup-insert_other, lookup-erase_other, or_zero,
}
use windns_logtail.Eventlog.Kind.{RecordKind}
use windns_logtail.Consumer.Ftp.Archive.{
  Disk, Zipping, no_rename, no_create, no_entry, no_read, no_write, zipped, log_name, zip_name,
  pack, pack_log, ZipError, zip_archive_file,
}
use windns_logtail.Consumer.Ftp.Handle.{
  Ftp, HandleOs, written, line, write_lines, after_zip, after_stat, after_write, after_open,
  handle_events,
}

log_name-zip_name : (file_prefix stamp : Text) → log_name stamp ≢ zip_name file_prefix stamp
unfolding zip_name
log_name-zip_name file_prefix stamp h =
    let start : Text = if text_eq file_prefix (lit "") then lit "" else file_prefix ++ lit "_" in
    let g_end : last 0 (log_name stamp) ≡ b'g' =
      ap (last 0) (sym (append_assoc stamp (lit ".lo") (b'g' ∷ [])))
      ∙ last-concat 0 (stamp ++ lit ".lo") b'g' in
    let p_end : last 0 (zip_name file_prefix stamp) ≡ b'p' =
      ap (last 0) (
        ap (◌++◌ start) (sym (append_assoc stamp (lit "_1.zi") (b'p' ∷ [])))
        ∙ sym (append_assoc start (stamp ++ lit "_1.zi") (b'p' ∷ [])))
      ∙ last-concat 0 (start ++ (stamp ++ lit "_1.zi")) b'p' in
    let same : b'g' ≡ b'p' = sym g_end ∙ ap (last 0) h ∙ p_end in omega (arith, same)

module _ (zip_of : Text → Text → Text) where
  abbrev InDisk : Text → Text → Text → Disk → Type 0
  InDisk log zip bytes d =
      (d.log ≡ some bytes)
      ⊎ ((lookup log d.archive ≡ some bytes) ⊎ (lookup zip d.archive ≡ some (zip_of log bytes)))

  -- The bytes are in the log file, in a renamed copy of it, or in the zip.
  abbrev pub IsKept : Text → Text → Text → Disk → Type 0
  IsKept file_prefix stamp = InDisk (log_name stamp) (zip_name file_prefix stamp)

  -- The zip that was packed to the end was closed without an error.
  abbrev pub IsClosed : Zipping → Type 0
  IsClosed (zipped removed close) = close ≡ none
  IsClosed _ = Unit

  lookup_renamed :
      (log zip bytes t : Text) (d : Dict Text)
      → log ≢ zip
      → lookup log (insert zip t (insert log bytes d)) ≡ some bytes
  lookup_renamed log zip bytes t d h =
      lookup-insert_other log zip t (insert log bytes d) h ∙ lookup-insert_self log bytes d

  pack-IsKept :
      (log zip bytes : Text) (z : Zipping) (d : Disk)
      → log ≢ zip
      → d.log ≡ some bytes
      → IsClosed z
      → InDisk log zip bytes (pack zip_of log zip bytes z d).0
  unfolding pack
  pack-IsKept log zip bytes no_rename d h e c = inl e
  pack-IsKept log zip bytes no_create d h e c = inr (inl (lookup-insert_self log bytes d.archive))
  pack-IsKept log zip bytes (no_entry t) d h e c =
      inr (inl (lookup_renamed log zip bytes t d.archive h))
  pack-IsKept log zip bytes (no_read t) d h e c =
      inr (inl (lookup_renamed log zip bytes t d.archive h))
  pack-IsKept log zip bytes (no_write t) d h e c =
      inr (inl (lookup_renamed log zip bytes t d.archive h))
  pack-IsKept log zip bytes (zipped true close) d h e c =
      let whole : Text = zip_of log bytes in
      inr (
        inr (
          rw c (
            lookup-erase_other zip log (insert zip whole (insert log bytes d.archive))
              (λ p. h (sym p))
            ∙ lookup-insert_self zip whole (insert log bytes d.archive))))
  pack-IsKept log zip bytes (zipped false close) d h e c =
      inr (inr (rw c (lookup-insert_self zip (zip_of log bytes) (insert log bytes d.archive))))

  zip_archive_file-IsKept :
      (file_prefix stamp bytes : Text) (z : Zipping) (d : Disk)
      → d.log ≡ some bytes
      → IsClosed z
      → IsKept file_prefix stamp bytes (zip_archive_file zip_of file_prefix stamp z d).0
  unfolding zip_archive_file pack_log
  zip_archive_file-IsKept file_prefix stamp bytes z d e c =
      let named = log_name-zip_name file_prefix stamp in
      subst (λ o. IsKept file_prefix stamp bytes (pack_log zip_of file_prefix stamp z d o).0)
        (sym e) (pack-IsKept (log_name stamp) (zip_name file_prefix stamp) bytes z d named e c)

module _ (k : RecordKind) (zip_of : Text → Text → Text) where
  open k use {Record, timestamp}

  after_zip-disk : (f : Ftp) (r : Disk × Option ZipError) → (after_zip k zip_of f r).disk ≡ r.0
  unfolding after_zip
  after_zip-disk f (d, none) = refl
  after_zip-disk f (d, some z) = refl

  after_stat-IsKept :
      (stat large : Bool) (os : HandleOs) (f : Ftp) (d : Disk) (bytes : Text)
      → d.log ≡ some bytes
      → IsClosed zip_of os.zip
      → IsKept zip_of f.log_file_prefix os.stamp bytes (after_stat k zip_of stat large os f d).disk
  unfolding after_stat
  after_stat-IsKept false large os f d bytes e c = inl e
  after_stat-IsKept true false os f d bytes e c = inl e
  after_stat-IsKept true true os f d bytes e c =
      let r = zip_archive_file zip_of f.log_file_prefix os.stamp os.zip d in
      subst (IsKept zip_of f.log_file_prefix os.stamp bytes) (sym (after_zip-disk f r))
        (zip_archive_file-IsKept zip_of f.log_file_prefix os.stamp bytes os.zip d e c)

  write_lines-whole :
      (log_format : Text) (writes : ℕ → Option ℕ) (i : ℕ) (events : List Record) (log : Text)
      → ((i : ℕ) → writes i ≡ none)
      → write_lines k log_format writes i events log
        ≡ log ++ concat (map (line k log_format) events)
  unfolding write_lines
  write_lines-whole log_format writes i [] log whole = sym (append-nil log)
  write_lines-whole log_format writes i (r ∷ rs) log whole =
      let l = line k log_format r in
      ap (λ w. write_lines k log_format writes (suc i) rs (log ++ written w l)) (whole i)
      ∙ write_lines-whole log_format writes (suc i) rs (log ++ l) whole
      ∙ append_assoc log l (concat (map (line k log_format) rs))

  -- If the log file opens, every write is whole, and a zip that is packed to the end closes without
  -- an error, then whatever the other calls do (also where `HandleEvents` returns an error), what
  -- the log file held, followed by the lines of all events in order, is afterwards in the log file,
  -- or in the folder under the archive's name, or in the zip of that name.
  pub handle_events-IsKept :
      (os : HandleOs) (f : Ftp) (d : Disk) (events : List Record)
      → os.open_ok ≡ true
      → ((i : ℕ) → os.writes i ≡ none)
      → IsClosed zip_of os.zip
      → IsKept zip_of f.log_file_prefix os.stamp
          (or_zero [] d.log ++ concat (map (line k f.log_format) events))
          (handle_events k zip_of os f d events).disk
  unfolding handle_events after_write
  handle_events-IsKept os f d events opened whole c =
      let log = write_lines k f.log_format os.writes 0 events (or_zero [] d.log) in
      let e = write_lines-whole f.log_format os.writes 0 events (or_zero [] d.log) whole in
      let goal : Disk → Type 0 =
        IsKept zip_of f.log_file_prefix os.stamp
          (or_zero [] d.log ++ concat (map (line k f.log_format) events)) in
      subst (λ b. goal (after_open k zip_of b os f d events).disk) (sym opened)
        (subst (λ l. goal (after_write k zip_of os f d events l).disk) (sym e)
          (after_stat-IsKept os.stat_ok _ os _ _ _ refl c))
