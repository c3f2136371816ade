-- ===== src/Eventlog/Xml/Escape.antt =====
-- eventlog/normal_log.go: `xmlSafeReader` escapes each control character of an ASCII text, in
-- whatever pieces it is read.
use windns_logtail.Base.{
  Text, ℕ, zero, suc, ◌+◌, ◌-◌, ◌≤◌, ◌<◌, ltb, lt→ltb, true, false, Option, none, some, [], ◌∷◌,
  ◌++◌, ◌≡◌, refl, sym, ap, ◌∙◌, subst, length, length-append, length-take, length-drop, take-all,
  drop-all, take, drop, take-append-drop, append_assoc, All, arith, if◌then◌else◌, Bool-cases, inl,
  inr,
}
use windns_logtail.Eventlog.Xml.{
  XmlSafeReader, must_escape, escaped, backing_size, later, find_control, decode_rune, refill,
  emit_buf, read_buf, read_code, read_safe, new_reader, read_all,
}

-- The text with each control character written as its code.
unfoldable pub escape : Text → Text
unfolding must_escape escaped
escape [] = []
escape (b ∷ bs) = (if must_escape b then escaped b else b ∷ []) ++ escape bs

abbrev pub IsAscii : Text → Type 0
IsAscii = All (λ b. b < 128)

escape-append : (xs ys : Text) → escape (xs ++ ys) ≡ escape xs ++ escape ys
unfolding escape
escape-append [] ys = refl
escape-append (b ∷ xs) ys =
    ap (λ t. (if must_escape b then escaped b else b ∷ []) ++ t) (escape-append xs ys)
    ∙ sym (append_assoc (if must_escape b then escaped b else b ∷ []) (escape xs) (escape ys))

All-left : (xs ys : Text) → IsAscii (xs ++ ys) → IsAscii xs
All-left [] ys h = tt
All-left (x ∷ xs) ys h = (h.0, All-left xs ys h.1)

length-escaped : (c : ℕ) → length (escaped c) ≡ 6
unfolding escaped
length-escaped c = refl

-- What a search says of a text: it has nothing to escape, or it is escaped up to the index.
abbrev Found : Text → Option (ℕ × ℕ) → Type 0
Found bs none = escape bs ≡ bs
Found bs (some (i, c)) =
    (escape bs ≡ take i bs ++ (escaped c ++ escape (drop (suc i) bs))) × (i < length bs)

later-Found :
    (b : ℕ) (bs : Text) (r : Option (ℕ × ℕ))
    → must_escape b ≡ false
    → Found bs r
    → Found (b ∷ bs) (later r)
unfolding escape
later-Found b bs none plain h = rw plain (ap (◌∷◌ b) h)
later-Found b bs (some (i, c)) plain (h, less) = (rw plain (ap (◌∷◌ b) h), omega (arith, less))

first-Found : (b : ℕ) (bs : Text) → must_escape b ≡ true → Found (b ∷ bs) (some (0, b))
unfolding escape
first-Found b bs control = (rw control refl, omega arith)

find_control-Found : (bs : Text) → IsAscii bs → Found bs (find_control 0 bs)
unfolding find_control decode_rune escape
find_control-Found [] h = refl
find_control-Found (b ∷ bs) h =
    let one_byte : ltb b 128 ≡ true = lt→ltb b 128 h.0 in
    rw one_byte (elim (Bool-cases (must_escape b)) [
      | inl control ↦ rw control (first-Found b bs control)
      | inr plain ↦ rw plain (later-Found b bs _ plain (find_control-Found bs h.1))
    ])

-- What is still to be read.
abbrev pending : XmlSafeReader → Text
pending r = r.code ++ escape (r.buf ++ r.inner)

-- The buffer is no longer than the space behind it, and all that is left is ASCII.
record IsSound (r : XmlSafeReader) : Type 0 where
  short : length r.buf ≤ backing_size
  ascii : IsAscii (r.buf ++ r.inner)

-- A read goes on: it writes the beginning of what was pending, and nothing only at the end.
record Goes (start : Text) (s : XmlSafeReader × Text) : Type 0 where
  split_up : s.1 ++ pending s.0 ≡ start
  sound : IsSound s.0
  ends : s.1 ≡ [] → start ≡ []

rearranged : (h e e' x y : Text) → (h ++ e) ++ (e' ++ (x ++ y)) ≡ (h ++ ((e ++ e') ++ x)) ++ y
rearranged h e e' x y = simp append_assoc

IsAscii-drop : (n : ℕ) (buf inner : Text) → IsAscii (buf ++ inner) → IsAscii (drop n buf ++ inner)
IsAscii-drop zero buf inner h = h
IsAscii-drop (suc n) [] inner h = h
IsAscii-drop (suc n) (b ∷ bs) inner h = IsAscii-drop n bs inner h.1

emit_buf-Goes :
    (size : ℕ) (inner buf : Text) (f : Option (ℕ × ℕ))
    → backing_size ≤ size
    → length buf ≤ backing_size
    → IsAscii (buf ++ inner)
    → (buf ≡ [] → inner ≡ [])
    → Found buf f
    → Goes (escape (buf ++ inner)) (emit_buf size inner buf f)
unfolding emit_buf escape
emit_buf-Goes size inner buf none large short ascii last found =
    let whole : take size buf ≡ buf = take-all size buf (omega arith) in
    let gone : drop size buf ≡ [] = drop-all size buf (omega arith) in
    record {
      split_up =
          rw (whole, gone) (sym (escape-append buf inner ∙ ap (λ t. t ++ escape inner) found));
      sound = record {
        short = omega (arith, length-drop size buf);
        ascii = IsAscii-drop size buf inner ascii;
      };
      ends = λ e.
          let empty : buf ≡ [] = sym whole ∙ e in
          ap (λ b. escape (b ++ inner)) empty ∙ ap escape (last empty);
    }
emit_buf-Goes size inner buf (some (i, c)) large short ascii last (found, less) =
    let head : Text = take size (take i buf) in
    let same : head ≡ take i buf = take-all size (take i buf) (omega (arith, length-take i buf)) in
    let len : length head ≡ i = ap length same ∙ omega (arith, length-take i buf) in
    let left : ℕ = size - length head in
    let next : length head + 1 ≡ suc i = omega (arith, len) in
    let rest : Text = escape (drop (length head + 1) buf) in
    record {
      split_up =
          ap (λ t. (head ++ take left (escaped c)) ++ (drop left (escaped c) ++ t))
            (escape-append (drop (length head + 1) buf) inner)
          ∙ rearranged head (take left (escaped c)) (drop left (escaped c)) rest (escape inner)
          ∙ ap (λ t. (head ++ (t ++ rest)) ++ escape inner) (take-append-drop left (escaped c))
          ∙ ap (λ h. (h ++ (escaped c ++ rest)) ++ escape inner) same
          ∙ ap (λ n. (take i buf ++ (escaped c ++ escape (drop n buf))) ++ escape inner) next
          ∙ ap (λ t. t ++ escape inner) (sym found)
          ∙ sym (escape-append buf inner);
      sound = record {
        short = omega (arith, length-drop (length head + 1) buf);
        ascii = IsAscii-drop (length head + 1) buf inner ascii;
      };
      ends = λ e.
          let six : length (escaped c) ≡ 6 = length-escaped c in
          absurd (
            omega (
              arith,
              six,
              len,
              ap length e,
              length-append head (take left (escaped c)),
              length-take left (escaped c),
            ));
    }

read_buf-Goes :
    (size : ℕ) (inner buf : Text)
    → backing_size ≤ size
    → length buf ≤ backing_size
    → IsAscii (buf ++ inner)
    → (buf ≡ [] → inner ≡ [])
    → Goes (escape (buf ++ inner)) (read_buf size (inner, buf))
unfolding read_buf
read_buf-Goes size inner buf large short ascii last =
    emit_buf-Goes size inner buf _ large short ascii last
      (find_control-Found buf (All-left buf inner ascii))

all_taken : (inner : Text) → take backing_size inner ≡ [] → drop backing_size inner ≡ []
all_taken [] e = drop-all backing_size [] (omega arith)
all_taken (b ∷ bs) e = absurd (omega (arith, ap length e, length-take backing_size (b ∷ bs)))

refill-Goes :
    (size : ℕ) (inner buf : Text)
    → backing_size ≤ size
    → length buf ≤ backing_size
    → IsAscii (buf ++ inner)
    → Goes (escape (buf ++ inner)) (read_buf size (refill inner buf))
unfolding refill
refill-Goes size inner [] large short ascii =
    let all_there = take-append-drop backing_size inner in
    subst (λ t. Goes (escape t) (read_buf size (refill inner []))) all_there
      (read_buf-Goes size (drop backing_size inner) (take backing_size inner) large
        (omega (arith, length-take backing_size inner)) (subst IsAscii (sym all_there) ascii)
        (all_taken inner))
refill-Goes size inner (b ∷ bs) large short ascii =
    read_buf-Goes size inner (b ∷ bs) large short ascii (λ e. absurd (omega (arith, ap length e)))

read_code-Goes :
    (size : ℕ) (r : XmlSafeReader) (code : Text)
    → backing_size ≤ size
    → IsSound r
    → Goes (code ++ escape (r.buf ++ r.inner)) (read_code size r.inner r.buf code)
unfolding read_code
read_code-Goes size r [] large sound = refill-Goes size r.inner r.buf large sound.short sound.ascii
read_code-Goes size r (c ∷ cs) large sound = record {
  split_up =
      sym (append_assoc (take size (c ∷ cs)) (drop size (c ∷ cs)) (escape (r.buf ++ r.inner)))
      ∙ ap (λ t. t ++ escape (r.buf ++ r.inner)) (take-append-drop size (c ∷ cs));
  sound = record { short = sound.short; ascii = sound.ascii };
  ends = λ e. absurd (omega (arith, ap length e, length-take size (c ∷ cs)));
}

read_all_next :
    (size fuel : ℕ) (r r' : XmlSafeReader) (out : Text)
    → out ++ pending r' ≡ pending r
    → (out ≡ [] → pending r ≡ [])
    → (0 < length out → read_all fuel size r' ≡ pending r')
    → (elim out as (λ o. Text) [ [] ↦ [] | c ∷ cs ↦ (c ∷ cs) ++ read_all fuel size r' ]) ≡ pending r
read_all_next size fuel r r' [] split_up ends rest = sym (ends refl)
read_all_next size fuel r r' (c ∷ cs) split_up ends rest =
    ap (λ t. (c ∷ cs) ++ t) (rest (omega arith)) ∙ split_up

read_all_lem :
    (fuel size : ℕ) (r : XmlSafeReader)
    → backing_size ≤ size
    → IsSound r
    → length (pending r) < fuel
    → read_all fuel size r ≡ pending r
unfolding read_all read_safe
read_all_lem zero size r large sound enough = absurd (omega arith)
read_all_lem (suc fuel) size r large sound enough =
    let s = read_safe size r in
    let g : Goes (pending r) s = read_code-Goes size r r.code large sound in
    read_all_next size fuel r s.0 s.1 g.split_up g.ends (λ some_out.
      read_all_lem fuel size s.0 large g.sound
        (omega (arith, ap length g.split_up, length-append s.1 (pending s.0))))

-- If each `Read` is given room for 256 bytes or more, then reading an ASCII text to its end gives
-- the text with each control character replaced by its code, but for the white space among them
-- (tab, newline and such), which stays as it is, within one call more than there are bytes.
pub read_all-escape :
    (size : ℕ) (raw : Text)
    → backing_size ≤ size
    → IsAscii raw
    → read_all (suc (length (escape raw))) size (new_reader raw) ≡ escape raw
read_all-escape size raw large ascii =
    read_all_lem (suc (length (escape raw))) size (new_reader raw) large
      (record { short = omega arith; ascii = ascii }) (omega arith)
