-- ===== src/Eventlog/Xml.antt =====
-- eventlog/normal_log.go: `xmlSafeReader`, which escapes the control characters in XML.
pub mod Escape
use windns_logtail.Base.{
  Text, lit, ℕ, zero, suc, ◌+◌, ◌-◌, ◌*◌, ◌/◌, ◌%◌, ltb, leb, ◌==◌, Bool, true, false, not, ◌&&◌,
  ◌||◌, Option, none, some, List, [], ◌∷◌, ◌++◌, length, take, drop, if◌then◌else◌,
}

-- `utf8.DecodeRune`: the code and the number of bytes, 65533 and 1 for a byte that is in no
-- character.
abbrev in_range : ℕ → ℕ → ℕ → Bool
in_range lo hi b = leb lo b && leb b hi

abbrev is_tail : ℕ → Bool
is_tail = in_range 128 191

abbrev bad_byte : ℕ × ℕ
bad_byte = (65533, 1)

abbrev decode_two : ℕ → Text → ℕ × ℕ
decode_two b (c ∷ _) = if is_tail c then ((b - 192) * 64 + (c - 128), 2) else bad_byte
decode_two b [] = bad_byte

-- The second byte of a longer character has a range of its own.
abbrev decode_three : ℕ → Text → ℕ × ℕ
decode_three b (c ∷ d ∷ _) =
    if in_range (if b == 224 then 160 else 128) (if b == 237 then 159 else 191) c && is_tail d
    then (((b - 224) * 64 + (c - 128)) * 64 + (d - 128), 3)
    else bad_byte
decode_three b _ = bad_byte

abbrev decode_four : ℕ → Text → ℕ × ℕ
decode_four b (c ∷ d ∷ e ∷ _) =
    if in_range (if b == 240 then 144 else 128) (if b == 244 then 143 else 191) c
      && (is_tail d && is_tail e)
    then ((((b - 240) * 64 + (c - 128)) * 64 + (d - 128)) * 64 + (e - 128), 4)
    else bad_byte
decode_four b _ = bad_byte

unfoldable pub decode_rune : Text → ℕ × ℕ
decode_rune [] = (65533, 0)
decode_rune (b ∷ bs) =
    if ltb b 128
    then (b, 1)
    else if in_range 194 223 b
    then decode_two b bs
    else if in_range 224 239 b
    then decode_three b bs
    else if in_range 240 244 b
    then decode_four b bs
    else bad_byte

-- `!unicode.IsSpace(code) && unicode.IsControl(code)`. The control characters are below 256, and
-- there these are all the spaces.
unfoldable pub must_escape : ℕ → Bool
must_escape c =
    not (in_range 9 13 c || ((c == 32) || ((c == 133) || (c == 160))))
    && (ltb c 32 || in_range 127 159 c)

abbrev hex_digit : ℕ → ℕ
hex_digit n = if ltb n 10 then b'0' + n else 87 + n

-- `fmt.Sprintf("\\u%04x", code)`, of a code below 2 ^ 16.
unfoldable pub escaped : ℕ → Text
escaped c =
    92
    ∷ b'u'
    ∷ hex_digit (c / 4096 % 16)
    ∷ hex_digit (c / 256 % 16)
    ∷ hex_digit (c / 16 % 16)
    ∷ hex_digit (c % 16)
    ∷ []

-- The state of the reader: what `inner` has left, `buf` and `code`.
pub record XmlSafeReader : Type 0 where
  pub inner : Text
  pub buf : Text
  pub code : Text

abbrev pub backing_size : ℕ
backing_size = 256

abbrev later : Option (ℕ × ℕ) → Option (ℕ × ℕ)
later none = none
later (some (i, c)) = some (suc i, c)

-- The loop: the first index with a code to escape. `skip` bytes still belong to a character.
unfoldable pub find_control : ℕ → Text → Option (ℕ × ℕ)
unfolding decode_rune must_escape
find_control skip [] = none
find_control zero (b ∷ bs) =
    let (c, size) = decode_rune (b ∷ bs) in
    let rest = find_control (size - 1) bs in if must_escape c then some (0, c) else later rest
find_control (suc skip) (b ∷ bs) = later (find_control skip bs)

-- With `code` empty: an empty buffer is filled from `inner`.
unfoldable pub refill : Text → Text → Text × Text
refill inner [] = (drop backing_size inner, take backing_size inner)
refill inner (b ∷ bs) = (inner, b ∷ bs)

-- What `Read` then copies into `d` of length `size`, given where the first control character is.
unfoldable pub emit_buf : ℕ → Text → Text → Option (ℕ × ℕ) → XmlSafeReader × Text
unfolding escaped
emit_buf size inner buf none =
    (record { inner = inner; buf = drop size buf; code = [] }, take size buf)
emit_buf size inner buf (some (i, c)) =
    let head = take size (take i buf) in
    let left = size - length head in
    (
      record { inner = inner; buf = drop (length head + 1) buf; code = drop left (escaped c) },
      head ++ take left (escaped c),
    )

unfoldable pub read_buf : ℕ → Text × Text → XmlSafeReader × Text
unfolding find_control emit_buf
read_buf size (inner, buf) = emit_buf size inner buf (find_control 0 buf)

-- By what is in `code`.
unfoldable pub read_code : ℕ → Text → Text → Text → XmlSafeReader × Text
unfolding refill read_buf
read_code size inner buf [] = read_buf size (refill inner buf)
read_code size inner buf (c ∷ cs) =
    (record { inner = inner; buf = buf; code = drop size (c ∷ cs) }, take size (c ∷ cs))

-- `Read` into a slice of length `size`; nothing written is the end.
unfoldable pub read_safe : ℕ → XmlSafeReader → XmlSafeReader × Text
unfolding read_code
read_safe size r = read_code size r.inner r.buf r.code

-- `newXMLSafeReader`.
abbrev pub new_reader : Text → XmlSafeReader
new_reader raw = record { inner = raw; buf = []; code = [] }

-- Reading to the end.
unfoldable pub read_all : ℕ → ℕ → XmlSafeReader → Text
unfolding read_safe
read_all zero size r = []
read_all (suc fuel) size r =
    let (r', out) = read_safe size r in
    let rest = read_all fuel size r' in elim out [ [] ↦ [] | c ∷ cs ↦ (c ∷ cs) ++ rest ]
