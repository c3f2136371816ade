-- ===== src/Eventlog/Event.antt =====
-- eventlog/normal_log.go: how the parts of an event that have an `UnmarshalXML` of their own are
-- read, from the tokens of encoding/xml.
pub mod Written
pub mod Numbers
pub mod Fuel
use windns_logtail.Base.{
  Text, lit, text_eq, ℕ, zero, suc, ◌+◌, ◌*◌, ◌-◌, ltb, leb, ◌&&◌, Option, none, some, List, [],
  ◌∷◌, ◌++◌, length, if◌then◌else◌,
}

-- `xml.Name`.
pub record Name : Type 0 where
  pub space : Text
  pub local : Text

-- `xml.Attr`.
pub record Attr : Type 0 where
  pub name : Name
  pub value : Text

-- The tokens of a decoder, from the one after a start on. Comments, directives and processing
-- instructions are `other`. Starts and ends match, since the decoder checks them; where the list
-- ends, it has met an error.
pub data Token : Type 0 where
  opens : Name → List Attr → Token
  chars : Text → Token
  closes : Token
  other : Token

-- `Decoder.Skip` inside an element with some more open in it: what follows its end.
unfoldable pub skip : ℕ → List Token → Option (List Token)
skip depth [] = none
skip depth (opens n attrs ∷ ts) = skip (suc depth) ts
skip depth (chars s ∷ ts) = skip depth ts
skip depth (other ∷ ts) = skip depth ts
skip zero (closes ∷ ts) = some ts
skip (suc depth) (closes ∷ ts) = skip depth ts

abbrev pub prepend : {A : Type 0} → Text → Option (Text × A) → Option (Text × A)
prepend s none = none
prepend s (some (t, rest)) = some (s ++ t, rest)

-- A field `,chardata`: the characters of an element without those of the elements inside it.
unfoldable pub char_data : ℕ → List Token → Option (Text × List Token)
char_data depth [] = none
char_data depth (opens n attrs ∷ ts) = char_data (suc depth) ts
char_data depth (other ∷ ts) = char_data depth ts
char_data zero (chars s ∷ ts) = prepend s (char_data zero ts)
char_data (suc depth) (chars s ∷ ts) = char_data (suc depth) ts
char_data zero (closes ∷ ts) = some ([], ts)
char_data (suc depth) (closes ∷ ts) = char_data depth ts

-- A field `Name,attr`: the last attribute of that name, in any name space.
unfoldable pub attr_or : Text → Text → List Attr → Text
attr_or old label [] = old
attr_or old label (a ∷ attrs) =
    attr_or (if text_eq a.name.local label then a.value else old) label attrs

-- `KeyValue`.
pub record KeyValue : Type 0 where
  pub key : Text
  pub value : Text

-- The key of an element: its attribute `Name`, or its own name where that is empty.
abbrev pub name_or : Text → Text → Text
name_or [] local = local
name_or (c ∷ s) local = c ∷ s

abbrev pub as_pair : Text → Option (Text × List Token) → Option (KeyValue × List Token)
as_pair key none = none
as_pair key (some (text, rest)) = some (record { key = key; value = text }, rest)

-- `KeyValue.UnmarshalXML`, with what follows the element.
unfoldable pub key_value : Name → List Attr → List Token → Option (KeyValue × List Token)
key_value n attrs ts = as_pair (name_or (attr_or [] (lit "Name") attrs) n.local) (char_data zero ts)

abbrev pub with_pair :
    KeyValue → Option (List KeyValue × List Token) → Option (List KeyValue × List Token)
with_pair kv none = none
with_pair kv (some (kvs, rest)) = some (kv ∷ kvs, rest)

abbrev pub then_pairs :
    (List Token → Option (List KeyValue × List Token))
    → Option (KeyValue × List Token)
    → Option (List KeyValue × List Token)
then_pairs others none = none
then_pairs others (some (kv, rest)) = with_pair kv (others rest)

-- A field `Pairs`, `,any`: one pair for each element inside, each of them a round.
unfoldable pub pairs : ℕ → List Token → Option (List KeyValue × List Token)
pairs zero ts = none
pairs (suc fuel) [] = none
pairs (suc fuel) (opens n attrs ∷ ts) = then_pairs (pairs fuel) (key_value n attrs ts)
pairs (suc fuel) (chars s ∷ ts) = pairs fuel ts
pairs (suc fuel) (other ∷ ts) = pairs fuel ts
pairs (suc fuel) (closes ∷ ts) = some ([], ts)

-- `UserData`, and `EventData` without a name.
pub record UserData : Type 0 where
  pub name : Name
  pub pairs : List KeyValue

-- `UserData.UnmarshalXML`. The pairs are those of the first element inside, and the decoder then
-- skips to the end of its own element; a decoder that cannot is one that had an error. At the end
-- of its own element it finds `io.EOF`.
unfoldable pub user_data : List Token → Option (UserData × List Token)
user_data [] = none
user_data (chars s ∷ ts) = user_data ts
user_data (other ∷ ts) = user_data ts
user_data (closes ∷ ts) = none
user_data (opens n attrs ∷ ts) = elim (pairs (length ts) ts) [
  | none ↦ none
  | some (kvs, rest) ↦ elim (skip zero rest) [
    | none ↦ none
    | some after ↦ some (record { name = n; pairs = kvs }, after)
  ]
]

-- `strconv.ParseUint` in base 10, for numbers up to `most`.
unfoldable pub digits_upto : ℕ → ℕ → Text → Option ℕ
digits_upto most acc [] = some acc
digits_upto most acc (c ∷ s) =
    let rest = digits_upto most (acc * 10 + (c - b'0')) s in
    if (leb b'0' c && leb c b'9') && leb (acc * 10 + (c - b'0')) most then rest else none

unfoldable pub parse_uint : ℕ → Text → Option ℕ
unfolding digits_upto
parse_uint most [] = none
parse_uint most (c ∷ s) = digits_upto most 0 (c ∷ s)

abbrev pub or_old : ℕ → Option ℕ → ℕ
or_old old none = old
or_old old (some n) = n

-- `Version.UnmarshalXML`: a version that is not a number of eight bits is ignored.
unfoldable pub version : ℕ → List Token → Option (ℕ × List Token)
version old ts = elim (char_data zero ts) [
  | none ↦ none
  | some (text, rest) ↦ some (or_old old (parse_uint 255 text), rest)
]

-- `sidTypeToString`, from 1 on.
abbrev pub sid_types : List Text
sid_types =
    lit "User"
    ∷ lit "Group"
    ∷ lit "Domain"
    ∷ lit "Alias"
    ∷ lit "Well Known Group"
    ∷ lit "Deleted Account"
    ∷ lit "Invalid"
    ∷ lit "Unknown"
    ∷ lit "Computer"
    ∷ lit "Label"
    ∷ []

abbrev pub nth_or_empty : List Text → ℕ → Text
nth_or_empty [] n = []
nth_or_empty (s ∷ names) zero = s
nth_or_empty (s ∷ names) (suc n) = nth_or_empty names n

-- `SIDType.String`. A number that is not in the table gives the empty text.
unfoldable pub sid_type : ℕ → Text
sid_type zero = []
sid_type (suc n) = nth_or_empty sid_types n

-- `SID`.
pub record Sid : Type 0 where
  pub identifier : Text
  pub name : Text
  pub domain : Text
  pub kind : ℕ

-- `SID.String`.
unfoldable pub sid_string : Sid → Text
unfolding sid_type
sid_string a =
    lit "SID Identifier["
    ++ (a.identifier
        ++ (lit "] Name["
            ++ (a.name
                ++ (lit "] Domain["
                    ++ (a.domain ++ (lit "] Type[" ++ (sid_type a.kind ++ lit "]")))))))
