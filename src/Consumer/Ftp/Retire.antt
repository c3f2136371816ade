-- ===== src/Consumer/Ftp/Retire.antt =====
-- consumer/consumer_ftp.go: `checkArchiveLog` keeps ten files, and removes the oldest.
use windns_logtail.Base.{
  before, not_after, ℕ, zero, suc, ◌-◌, ◌≤◌, ltb, ltb→lt, true, List, [], ◌∷◌, ◌++◌, ◌≡◌, inl, inr,
  refl, ap, ◌∙◌, sym, subst, length, length-drop, take, drop, All, All-drop, take-append-drop,
  arith, Bool-cases,
}
use mathlib.Core.List.{Permᴰ}
use mathlib.Core.List.Permᴰ
use windns_logtail.Consumer.Ftp.Upload.{FileInfo, insert_file, sort_files, max_files, retire}

-- The later files are not older.
abbrev pub IsByAge : List FileInfo → Type 0
IsByAge [] = Unit
IsByAge (x ∷ xs) = All (λ y. not_after x.mod_time y.mod_time ≡ true) xs × IsByAge xs

All_newer :
    (x y : FileInfo) (ys : List FileInfo)
    → not_after x.mod_time y.mod_time ≡ true
    → All (λ z. not_after y.mod_time z.mod_time ≡ true) ys
    → All (λ z. not_after x.mod_time z.mod_time ≡ true) ys
All_newer x y [] h hs = tt
All_newer x y (z ∷ zs) h hs = (ground arith, All_newer x y zs h hs.1)

insert_file-All :
    (x y : FileInfo) (ys : List FileInfo)
    → not_after y.mod_time x.mod_time ≡ true
    → All (λ z. not_after y.mod_time z.mod_time ≡ true) ys
    → All (λ z. not_after y.mod_time z.mod_time ≡ true) (insert_file x ys)
unfolding insert_file
insert_file-All x y [] h hs = (h, tt)
insert_file-All x y (z ∷ zs) h hs = ground (arith, insert_file-All x y zs h hs.1)

insert_file-IsByAge : (x : FileInfo) (ys : List FileInfo) → IsByAge ys → IsByAge (insert_file x ys)
unfolding insert_file
insert_file-IsByAge x [] h = (tt, tt)
insert_file-IsByAge x (y ∷ ys) h = elim (Bool-cases (before y.mod_time x.mod_time)) [
  | inl older ↦ rw older (insert_file-All x y ys (ground arith) h.0, insert_file-IsByAge x ys h.1)
  | inr newer ↦
      let first : not_after x.mod_time y.mod_time ≡ true = ground arith in
      rw newer ((first, All_newer x y ys first h.0), h)
]

sort_files-IsByAge : (xs : List FileInfo) → IsByAge (sort_files xs)
unfolding sort_files
sort_files-IsByAge [] = tt
sort_files-IsByAge (x ∷ xs) = insert_file-IsByAge x (sort_files xs) (sort_files-IsByAge xs)

length-insert_file :
    (x : FileInfo) (ys : List FileInfo) → length (insert_file x ys) ≡ suc (length ys)
unfolding insert_file
length-insert_file x [] = refl
length-insert_file x (y ∷ ys) = ground (arith, length-insert_file x ys)

length-sort_files : (xs : List FileInfo) → length (sort_files xs) ≡ length xs
unfolding sort_files
length-sort_files [] = refl
length-sort_files (x ∷ xs) = length-insert_file x (sort_files xs) ∙ ap suc (length-sort_files xs)

-- Everything in a prefix is not younger than everything after it.
cut_IsByAge :
    (n : ℕ) (xs : List FileInfo)
    → IsByAge xs
    → All (λ x. All (λ y. not_after x.mod_time y.mod_time ≡ true) (drop n xs)) (take n xs)
cut_IsByAge zero xs h = tt
cut_IsByAge (suc n) [] h = tt
cut_IsByAge (suc n) (x ∷ xs) h = (All-drop _ n xs h.0, cut_IsByAge n xs h.1)

insert_file-Perm : (x : FileInfo) (ys : List FileInfo) → Permᴰ (insert_file x ys) (x ∷ ys)
unfolding insert_file
insert_file-Perm x [] = Permᴰ.cons refl Permᴰ.nil
insert_file-Perm x (y ∷ ys) = elim (Bool-cases (before y.mod_time x.mod_time)) [
  | inl older ↦
      rw older (Permᴰ.trans (Permᴰ.cons refl (insert_file-Perm x ys)) (Permᴰ.swap refl refl))
  | inr newer ↦ rw newer (Permᴰ.refl (x ∷ y ∷ ys))
]

sort_files-Perm : (xs : List FileInfo) → Permᴰ (sort_files xs) xs
unfolding sort_files
sort_files-Perm [] = Permᴰ.nil
sort_files-Perm (x ∷ xs) =
    Permᴰ.trans (insert_file-Perm x (sort_files xs)) (Permᴰ.cons refl (sort_files-Perm xs))

-- The files of the folder are divided: at most ten of them stay, the others are removed, and none
-- that stays is older than one that is removed.
pub retire_lem :
    (files : List FileInfo)
    → Permᴰ ((retire files).0 ++ (retire files).1) files
      × (length (retire files).1 ≤ max_files)
      × All
          (λ x. All (λ y. not_after x.mod_time y.mod_time ≡ true) (retire files).1)
          (retire files).0
unfolding retire
retire_lem files =
    let over : ℕ = length files - max_files in
    elim (Bool-cases (ltb max_files (length files))) [
      | inl many ↦
          let left : length (drop over (sort_files files)) ≡ length (sort_files files) - over =
            length-drop over (sort_files files) in
          rw many (
            subst (λ l. Permᴰ l files) (sym (take-append-drop over (sort_files files)))
                (sort_files-Perm files),
            omega (arith, left, length-sort_files files, ltb→lt _ _ many),
            cut_IsByAge over (sort_files files) (sort_files-IsByAge files),
          )
      | inr few ↦ rw few (Permᴰ.refl files, ground arith, tt)
    ]
