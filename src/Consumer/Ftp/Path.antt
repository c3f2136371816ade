-- ===== src/Consumer/Ftp/Path.antt =====
-- `pathJoin` of consumer/consumer_ftp.go: a file's name is put after a folder's path, with the
-- separator of the path's system.
use windns_logtail.Base.{
  Text, ℕ, leb, ◌==◌, Bool, true, false, not, ◌&&◌, ◌||◌, drop, length, ◌<◌, List, [], ◌∷◌, ◌++◌,
  ◌≡◌, refl, ap, all, arith, if◌then◌else◌,
}
use windns_logtail.Base.Split.{split, onto_head}

abbrev is_some_text : Text → Bool
is_some_text [] = false
is_some_text (c ∷ cs) = true

abbrev pub is_letter : ℕ → Bool
is_letter c = (leb b'a' c && leb c b'z') || (leb b'A' c && leb c b'Z')

-- What `[^\\/:*?"<>|]` takes.
unfoldable pub is_plain : ℕ → Bool
is_plain c = not (
    (c == 92)
    || ((c == b'/')
        || ((c == b':')
            || ((c == b'*')
                || ((c == b'?') || ((c == 34) || ((c == b'<') || ((c == b'>') || (c == b'|')))))))))

-- `(?:[^...]+\\)*[^...]*$`, with whether the segment that is read has a character yet.
unfoldable pub segments : Bool → Text → Bool
unfolding is_plain
segments some_read [] = true
segments some_read (c ∷ cs) =
    let first = segments false cs in
    let more = segments true cs in
    if is_plain c then more else if c == 92 then some_read && first else false

-- The whole pattern, which never fails to compile.
unfoldable pub is_windows_path : Text → Bool
unfolding segments
is_windows_path (c ∷ d ∷ e ∷ cs) = is_letter c && ((d == b':') && ((e == 92) && segments false cs))
is_windows_path _ = false

unfoldable pub path_join : Text → Text → Text
unfolding is_windows_path
path_join path filename =
    if is_windows_path path then path ++ 92 ∷ filename else path ++ b'/' ∷ filename

append_inj : (p s t : Text) → p ++ s ≡ p ++ t → s ≡ t
append_inj [] s t h = h
append_inj (x ∷ p) s t h = append_inj p s t (ap (drop 1) h)

joined_inj :
    (windows : Bool) (path j k : Text)
    → (if windows then path ++ 92 ∷ j else path ++ b'/' ∷ j)
      ≡ (if windows then path ++ 92 ∷ k else path ++ b'/' ∷ k)
    → j ≡ k
joined_inj true path j k h = ap (drop 1) (append_inj path (92 ∷ j) (92 ∷ k) h)
joined_inj false path j k h = ap (drop 1) (append_inj path (b'/' ∷ j) (b'/' ∷ k) h)

-- Two files of the archive folder never share a remote path.
pub path_join_inj : (path j k : Text) → path_join path j ≡ path_join path k → j ≡ k
unfolding path_join
path_join_inj path = joined_inj (is_windows_path path) path

-- The folders that a path names, cut at its backslashes: only the last may be empty.
abbrev pub are_folders : Bool → List Text → Bool
are_folders some_read [] = true
are_folders some_read (p ∷ []) = all is_plain p
are_folders some_read (p ∷ q ∷ ps) =
    all is_plain p && ((some_read || is_some_text p) && are_folders false (q ∷ ps))

are_folders-onto_head :
    (some_read : Bool) (c : ℕ) (ps : List Text)
    → are_folders some_read (onto_head c ps) ≡ (is_plain c && are_folders true ps)
are_folders-onto_head some_read c [] = refl
are_folders-onto_head some_read c (p ∷ []) = refl
are_folders-onto_head some_read c (p ∷ q ∷ ps) = ground arith

are_folders_after :
    (some_read : Bool) (ps : List Text)
    → 0 < length ps
    → are_folders some_read ([] ∷ ps) ≡ (some_read && are_folders false ps)
are_folders_after some_read [] h = absurd (omega arith)
are_folders_after some_read (p ∷ ps) h = ground arith

length-onto_head : (c : ℕ) (ps : List Text) → 0 < length (onto_head c ps)
length-onto_head c [] = omega arith
length-onto_head c (p ∷ ps) = omega arith

length-split : (sep : ℕ) (t : Text) → 0 < length (split sep t)
unfolding split
length-split sep [] = omega arith
length-split sep (c ∷ cs) = ground (arith, length-onto_head c (split sep cs))

plain_is_no_separator : (c : ℕ) → (c == 92) ≡ true → is_plain c ≡ false
unfolding is_plain
plain_is_no_separator c h = ground arith

-- The part of the pattern after the drive takes just the texts whose folders, cut at the
-- backslashes, have no character that is not allowed and, but for the last, are not empty.
pub segments-split :
    (some_read : Bool) (t : Text) → segments some_read t ≡ are_folders some_read (split 92 t)
unfolding segments split
segments-split some_read [] = refl
segments-split some_read (c ∷ cs) = ground (
  arith,
  segments-split true cs,
  segments-split false cs,
  are_folders-onto_head some_read c (split 92 cs),
  are_folders_after some_read (split 92 cs) (length-split 92 cs),
  plain_is_no_separator c,
)
