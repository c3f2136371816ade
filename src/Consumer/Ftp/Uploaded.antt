-- ===== src/Consumer/Ftp/Uploaded.antt =====
-- consumer/consumer_ftp.go: `checkArchiveLog` removes no file but the oldest
-- before the server has it.
use windns_logtail.Base.{
  Text, text_eq, text_eq-true, text_eq_iff, Bool, true, false, Option, none, some, some_inj, List,
  [], ◌∷◌, ◌≡◌, ◌≢◌, ◌⊎◌, inl, inr, refl, ◌∙◌, sym, subst, take, All, arith, if◌then◌else◌,
  Bool-cases,
}
use windns_logtail.Base.Dict.{
  Dict, lookup, lookup-insert_self, lookup-insert_other, lookup-erase_self, lookup-erase_other,
}
use windns_logtail.Consumer.Ftp.Path.{path_join, path_join_inj}
use windns_logtail.Consumer.Ftp.Upload.{
  FileInfo, Sites, Put, stored, refused, cut, Server, CheckOs, CheckError, retire, remove,
  remove_all, put_file, after_put, upload_file, read_file, upload_loop, upload, check_files,
  check_archive_log,
}

-- Equal strings or not.
Text-cases : (s t : Text) → (s ≡ t) ⊎ (s ≢ t)
Text-cases s t = elim (Bool-cases (text_eq s t)) [
  | inl same ↦ inl (text_eq-true s t same)
  | inr other ↦ inr (λ e. ground (arith, text_eq_iff s t, e))
]

module _ (folder name bytes : Text) where
  -- The file is still there, or it is gone and the server has it.
  abbrev pub IsSafe : Sites → Type 0
  IsSafe s =
      (lookup name s.archive ≡ some bytes)
      ⊎ ((lookup name s.archive ≡ none) × (lookup (path_join folder name) s.remote ≡ some bytes))

  remove_other :
      (removes : Text → Bool) (x : Text) (d : Dict Text)
      → name ≢ x
      → lookup name (remove removes x d) ≡ lookup name d
  remove_other removes x d h = elim (Bool-cases (removes x)) [
    | inl gone ↦ rw gone (lookup-erase_other name x d h)
    | inr left ↦ rw left refl
  ]

  put_file_other :
      (p : Put) (x b : Text) (remote : Dict Text)
      → name ≢ x
      → lookup (path_join folder name) (put_file p (path_join folder x) b remote).0
        ≡ lookup (path_join folder name) remote
  unfolding put_file
  put_file_other stored x b remote h =
      lookup-insert_other _ _ b remote (λ e. h (path_join_inj folder name x e))
  put_file_other refused x b remote h = refl
  put_file_other (cut n) x b remote h =
      lookup-insert_other _ _ (take n b) remote (λ e. h (path_join_inj folder name x e))

  after_put_other :
      (removes : Text → Bool) (x : Text) (s : Sites) (r : Dict Text × Bool)
      → name ≢ x
      → lookup (path_join folder name) r.0 ≡ lookup (path_join folder name) s.remote
      → IsSafe s
      → IsSafe (after_put removes x s r).0
  unfolding after_put
  after_put_other removes x s (remote, false) h e (inl here) = inl here
  after_put_other removes x s (remote, false) h e (inr (gone, there)) = inr (gone, e ∙ there)
  after_put_other removes x s (remote, true) h e (inl here) =
      inl (remove_other removes x s.archive h ∙ here)
  after_put_other removes x s (remote, true) h e (inr (gone, there)) =
      inr (remove_other removes x s.archive h ∙ gone, e ∙ there)

  upload_other :
      (os : CheckOs) (server : Server) (x : Text) (is_dir : Bool) (found : Option Text) (s : Sites)
      → name ≢ x
      → IsSafe s
      → IsSafe (upload_file os server folder x is_dir found s).0
  unfolding upload_file
  upload_other os server x true found s h safe = safe
  upload_other os server x false none s h safe = safe
  upload_other os server x false (some b) s h safe =
      after_put_other os.removes x s _ h (put_file_other _ x b s.remote h) safe

  removed_self :
      (removes : Text → Bool) (s : Sites) (remote : Dict Text)
      → lookup name s.archive ≡ some bytes
      → lookup (path_join folder name) remote ≡ some bytes
      → IsSafe (record { archive = remove removes name s.archive; remote = remote })
  removed_self removes s remote here there = elim (Bool-cases (removes name)) [
    | inl gone ↦ rw gone (inr (lookup-erase_self name s.archive, there))
    | inr left ↦ rw left (inl here)
  ]

  put_self :
      (removes : Text → Bool) (p : Put) (s : Sites)
      → lookup name s.archive ≡ some bytes
      → IsSafe (after_put removes name s (put_file p (path_join folder name) bytes s.remote)).0
  unfolding after_put put_file
  put_self removes stored s here =
      removed_self removes s _ here (lookup-insert_self (path_join folder name) bytes s.remote)
  put_self removes refused s here = inl here
  put_self removes (cut n) s here = inl here

  upload_self :
      (os : CheckOs) (server : Server) (is_dir : Bool) (found : Option Text) (s : Sites)
      → ((b : Text) → found ≡ some b → (b ≡ bytes) × (lookup name s.archive ≡ some bytes))
      → IsSafe s
      → IsSafe (upload_file os server folder name is_dir found s).0
  unfolding upload_file
  upload_self os server true found s m safe = safe
  upload_self os server false none s m safe = safe
  upload_self os server false (some b) s m safe =
      let (same, here) = m b refl in
      subst
        (λ c.
          IsSafe
            (after_put os.removes name s
              (put_file (server.put (path_join folder name)) (path_join folder name) c s.remote)).0)
        (sym same) (put_self os.removes _ s here)

  read_self :
      (os : CheckOs) (s : Sites) (b : Text)
      → IsSafe s
      → read_file os name s ≡ some b
      → (b ≡ bytes) × (lookup name s.archive ≡ some bytes)
  read_self os s b (inl here) h = grind (arith, some_inj)
  read_self os s b (inr (gone, there)) h = ground arith

  upload_file-IsSafe :
      (os : CheckOs) (server : Server) (x : Text) (is_dir : Bool) (s : Sites)
      → IsSafe s
      → IsSafe (upload_file os server folder x is_dir (read_file os x s) s).0
  upload_file-IsSafe os server x is_dir s safe = elim (Text-cases name x) [
    | inl same ↦
        subst (λ y. IsSafe (upload_file os server folder y is_dir (read_file os y s) s).0) same
          (upload_self os server is_dir (read_file os name s) s (λ b h. read_self os s b safe h)
            safe)
    | inr other ↦ upload_other os server x is_dir (read_file os x s) s other safe
  ]

  upload_loop-IsSafe :
      (os : CheckOs) (server : Server) (files : List FileInfo) (s : Sites)
      → IsSafe s
      → IsSafe (upload_loop os server folder files s).0
  unfolding upload_loop
  upload_loop-IsSafe os server [] s safe = safe
  upload_loop-IsSafe os server (x ∷ xs) s safe =
      let r = upload_file os server folder x.name x.is_dir (read_file os x.name s) s in
      let next = upload_file-IsSafe os server x.name x.is_dir s safe in
      elim (r.1)
        as (λ e.
          IsSafe
            (elim e as (λ x. Sites × Option CheckError) [
              | none ↦ upload_loop os server folder xs r.0
              | some error ↦ (r.0, some error)
            ]).0) [ none ↦ upload_loop-IsSafe os server xs r.0 next | some error ↦ next ]

  if_IsSafe :
      (b : Bool) (r r' : Sites × Option CheckError)
      → IsSafe r.0
      → IsSafe r'.0
      → IsSafe (if b then r else r').0
  if_IsSafe true r r' safe safe' = safe
  if_IsSafe false r r' safe safe' = safe'

  same-IsSafe :
      (s : Sites) (d : Dict Text)
      → lookup name d ≡ lookup name s.archive
      → IsSafe s
      → IsSafe (record s { archive = d })
  same-IsSafe s d e (inl here) = inl (e ∙ here)
  same-IsSafe s d e (inr (gone, there)) = inr (e ∙ gone, there)

  upload-IsSafe :
      (os : CheckOs) (server : Server) (files : List FileInfo) (s : Sites)
      → IsSafe s
      → IsSafe (upload os server folder files s).0
  unfolding upload
  upload-IsSafe os server files s safe =
      if_IsSafe server.dial _ _
        (if_IsSafe server.login _ _ (upload_loop-IsSafe os server files s safe) safe) safe

  -- None of some files has the name.
  abbrev pub IsSpared : List FileInfo → Type 0
  IsSpared = All (λ x. name ≢ x.name)

  remove_all_other :
      (removes : Text → Bool) (xs : List FileInfo) (d : Dict Text)
      → IsSpared xs
      → lookup name (remove_all removes xs d) ≡ lookup name d
  unfolding remove_all
  remove_all_other removes [] d h = refl
  remove_all_other removes (x ∷ xs) d h =
      remove_all_other removes xs (remove removes x.name d) h.1 ∙ remove_other removes x.name d h.0

  check_files-IsSafe :
      (os : CheckOs) (is_sftp : Bool) (files : List FileInfo) (s : Sites)
      → IsSpared (retire files).0
      → IsSafe s
      → IsSafe (check_files os is_sftp folder (some files) s).0
  unfolding check_files
  check_files-IsSafe os is_sftp [] s spared safe = safe
  check_files-IsSafe os is_sftp (x ∷ xs) s spared safe =
      let same = remove_all_other os.removes (retire (x ∷ xs)).0 s.archive spared in
      upload-IsSafe os (if is_sftp then os.sftp else os.ftp) (retire (x ∷ xs)).1 _
        (same-IsSafe s _ same safe)

  -- Whatever calls fail, and whichever file an upload stops at, a file of the folder that is not
  -- among the oldest ones, which `checkArchiveLog` removes when there are more than ten, is
  -- afterwards still in the folder, or it is gone from it and the server has all its bytes at the
  -- path of its name.
  pub check_archive_log-IsSafe :
      (os : CheckOs) (is_sftp : Bool) (files : List FileInfo) (s : Sites)
      → os.read_dir ≡ some files
      → IsSpared (retire files).0
      → lookup name s.archive ≡ some bytes
      → IsSafe (check_archive_log os is_sftp folder s).0
  unfolding check_archive_log
  check_archive_log-IsSafe os is_sftp files s listed spared here =
      if_IsSafe os.try_lock _ _
        (subst (λ l. IsSafe (check_files os is_sftp folder l s).0) (sym listed)
          (check_files-IsSafe os is_sftp files s spared (inl here)))
        (inl here)
