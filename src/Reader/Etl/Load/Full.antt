-- ===== src/Reader/Etl/Load/Full.antt =====
-- How many files `loadFiles` of reader/etl_reader.go can take.
use windns_logtail.Base.{
  Text, ◌+◌, ◌≤◌, leb, Bool, true, false, ◌&&◌, none, some, List, [], ◌∷◌, ◌++◌, ◌≡◌, refl, arith,
  keep, length, length-append, append-nil, append_assoc, if◌then◌else◌, ap, sym, ◌∙◌, Bool-cases,
  Option-cases, inl, inr,
}
use windns_logtail.Reader.Etl.Load.{
  Queues, no_files, capacity, is_etl, is_xml, load_etl, load_xml, load_all, ◌>>=◌, blocked, loaded,
  Folder, list_logfile, load_files,
}

-- The files of a list put behind those in the channels.
abbrev behind : List Text → Queues → Queues
behind files q = record {
  etl_logfiles = q.etl_logfiles ++ keep is_etl files;
  sort_list = q.sort_list ++ keep is_xml files;
  xml_logfiles = q.xml_logfiles ++ keep is_xml files;
}

abbrev fit : List Text → Queues → Bool
fit files q =
    leb (length q.etl_logfiles + length (keep is_etl files)) capacity
    && leb (length q.xml_logfiles + length (keep is_xml files)) capacity

keep-cons :
    (p : Text → Bool) (x : Text) (xs : List Text) → keep p (x ∷ xs) ≡ keep p (x ∷ []) ++ keep p xs
keep-cons p x xs = elim (Bool-cases (p x)) [ inl is ↦ rw is refl | inr not_it ↦ rw not_it refl ]

behind-cons :
    (file : Text) (files : List Text) (q : Queues)
    → behind files (behind (file ∷ []) q) ≡ behind (file ∷ files) q
behind-cons file files q =
    let etl =
      append_assoc q.etl_logfiles (keep is_etl (file ∷ [])) (keep is_etl files)
      ∙ ap (◌++◌ q.etl_logfiles) (sym (keep-cons is_etl file files)) in
    let list =
      append_assoc q.sort_list (keep is_xml (file ∷ [])) (keep is_xml files)
      ∙ ap (◌++◌ q.sort_list) (sym (keep-cons is_xml file files)) in
    let xml =
      append_assoc q.xml_logfiles (keep is_xml (file ∷ [])) (keep is_xml files)
      ∙ ap (◌++◌ q.xml_logfiles) (sym (keep-cons is_xml file files)) in
    cc

length-keep_cons :
    (p : Text → Bool) (xs : List Text) (x : Text) (ys : List Text)
    → length (xs ++ keep p (x ∷ [])) + length (keep p ys) ≡ length xs + length (keep p (x ∷ ys))
length-keep_cons p xs x ys =
    let e = ap length (keep-cons p x ys) ∙ length-append (keep p (x ∷ [])) (keep p ys) in
    omega (arith, length-append xs (keep p (x ∷ [])))

fit-cons :
    (file : Text) (files : List Text) (q : Queues)
    → fit files (behind (file ∷ []) q) ≡ fit (file ∷ files) q
fit-cons file files q =
    rw
      (
        length-keep_cons is_etl q.etl_logfiles file files,
        length-keep_cons is_xml q.xml_logfiles file files,
      )
      refl

-- One file.
load_one :
    (file : Text) (q : Queues)
    → length q.etl_logfiles ≤ capacity
    → length q.xml_logfiles ≤ capacity
    → (load_etl file q >>= λ r. load_xml file r)
      ≡ (if fit (file ∷ []) q then some (behind (file ∷ []) q) else none)
unfolding load_etl load_xml
load_one file q h k = elim (Bool-cases (is_etl file)) [
  | inl e ↦ elim (Bool-cases (is_xml file)) [
    | inl x ↦ ground arith
    | inr x ↦ ground (arith, append-nil q.sort_list, append-nil q.xml_logfiles)
  ]
  | inr e ↦ elim (Bool-cases (is_xml file)) [
    | inl x ↦ ground (arith, append-nil q.etl_logfiles)
    | inr x ↦
        ground (arith, append-nil q.etl_logfiles, append-nil q.sort_list, append-nil q.xml_logfiles)
  ]
]

after_one :
    (file : Text) (files : List Text) (q : Queues)
    → load_all (file ∷ files) q ≡ (load_etl file q >>= (λ r. load_xml file r) >>= load_all files)
unfolding load_all
after_one file files q = elim (Option-cases (load_etl file q)) [
  | inl full ↦ rw full refl
  | inr (r, sent) ↦ rw sent refl
]

fit-first :
    (file : Text) (files : List Text) (q : Queues)
    → fit (file ∷ []) q ≡ false
    → fit (file ∷ files) q ≡ false
fit-first file files q h = ground (
  arith,
  ap length (keep-cons is_etl file files),
  ap length (keep-cons is_xml file files),
  length-append (keep is_etl (file ∷ [])) (keep is_etl files),
  length-append (keep is_xml (file ∷ [])) (keep is_xml files),
)

fit-room :
    (files : List Text) (q : Queues)
    → fit files q ≡ true
    → (length (q.etl_logfiles ++ keep is_etl files) ≤ capacity)
      × (length (q.xml_logfiles ++ keep is_xml files) ≤ capacity)
fit-room files q h = (
  ground (arith, length-append q.etl_logfiles (keep is_etl files)),
  ground (arith, length-append q.xml_logfiles (keep is_xml files)),
)

load_all-fit :
    (files : List Text) (q : Queues)
    → length q.etl_logfiles ≤ capacity
    → length q.xml_logfiles ≤ capacity
    → load_all files q ≡ (if fit files q then some (behind files q) else none)
unfolding load_all
load_all-fit [] q h k =
    ground (arith, append-nil q.etl_logfiles, append-nil q.sort_list, append-nil q.xml_logfiles)
load_all-fit (file ∷ files) q h k =
    after_one file files q
    ∙ ap (λ o. o >>= load_all files) (load_one file q h k)
    ∙ elim (Bool-cases (fit (file ∷ []) q)) [
      | inl one ↦
          let room = fit-room (file ∷ []) q one in
          rw one (
            load_all-fit files (behind (file ∷ []) q) room.0 room.1
            ∙ rw (fit-cons file files q, behind-cons file files q) refl)
      | inr none_fits ↦ rw (none_fits, fit-first file files q none_fits) refl
    ]

-- If the folder can be listed, `loadFiles` comes to an end just if at most twenty of the files are
-- traces and at most twenty are XML files, by their names; then each file is in its channel, and
-- the XML files in the list too, all in the order in which they were sorted. Else it blocks, before
-- `Init` has started the goroutines that would empty the channels.
pub load_files-fit :
    (join_path : Text → Text) (sorted : List Text → List Text) (folder : Folder) (files : List Text)
    → list_logfile join_path folder ≡ some files
    → let etls = keep is_etl (sorted files) in
      let xmls = keep is_xml (sorted files) in
      load_files join_path sorted folder ≡ (
        if leb (length etls) 20 && leb (length xmls) 20
        then loaded (record { etl_logfiles = etls; sort_list = xmls; xml_logfiles = xmls })
        else blocked)
unfolding load_files
load_files-fit join_path sorted folder files listed =
    ground (arith, listed, load_all-fit (sorted files) no_files (omega arith) (omega arith))
