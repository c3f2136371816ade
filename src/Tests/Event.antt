-- ===== src/Tests/Event.antt =====
-- eventlog/normal_log.go: parts of events at concrete inputs.
use windns_logtail.Base.{
  lit, Bool, true, false, none, some, List, [], ◌∷◌, ◌≡◌, refl, map, text_eq, ltb, if◌then◌else◌,
}
use windns_logtail.Base.Decimal.{decimal}
use windns_logtail.Eventlog.Event.{
  Name, opens, chars, closes, other, KeyValue, char_data, attr_or, key_value, pairs, skip,
  user_data, version, parse_uint, sid_type, sid_string,
}
use windns_logtail.Eventlog.Event.Written.{before, elements, user_data-elements}
use windns_logtail.Eventlog.Event.Numbers.{version-decimal}

abbrev event_xml : Name
event_xml = record { space = lit "urn:dns"; local = lit "EventXML" }

abbrev two_pairs : List (Bool × KeyValue)
two_pairs =
    (true, record { key = lit "QNAME"; value = lit "a.b." })
    ∷ (false, record { key = lit "Zone"; value = [] })
    ∷ []

-- An element inside an element gives its characters to neither.
nested_data :
    user_data (
      chars (lit "\n")
      ∷ opens event_xml []
      ∷ opens (record { space = []; local = lit "Zone" }) []
      ∷ chars (lit "b")
      ∷ opens event_xml []
      ∷ chars (lit "c")
      ∷ closes
      ∷ chars (lit ".")
      ∷ closes
      ∷ closes
      ∷ closes
      ∷ [])
    ≡ some (
      record { name = event_xml; pairs = record { key = lit "Zone"; value = lit "b." } ∷ [] },
      [],
    )
unfolding user_data pairs skip key_value char_data attr_or text_eq
nested_data = refl

-- User data with no element in it ends at `io.EOF`.
empty_data : user_data (chars (lit "\n") ∷ closes ∷ other ∷ []) ≡ none
unfolding user_data
empty_data = refl

user_data-elements_example :
    user_data (
      before (none ∷ some (lit "\n") ∷ []) (
        opens event_xml []
        ∷ elements two_pairs (closes ∷ elements two_pairs (closes ∷ other ∷ []))))
    ≡ some (record { name = event_xml; pairs = map (λ e. e.1) two_pairs }, other ∷ [])
user_data-elements_example =
    user_data-elements (none ∷ some (lit "\n") ∷ []) event_xml [] two_pairs two_pairs (other ∷ [])
      (λ e. cc, (λ e. cc, tt))

version-decimal_example :
    version 1 (chars (decimal 300) ∷ closes ∷ []) ≡ some (if ltb 300 256 then 300 else 1, [])
version-decimal_example = version-decimal 1 300 []

-- A sign, a space or no digit at all is no number.
no_version :
    (version 1 (chars (lit "+2") ∷ closes ∷ []) ≡ some (1, []))
    × (version 1 (chars (lit " 2") ∷ closes ∷ []) ≡ some (1, []))
    × (version 1 (closes ∷ []) ≡ some (1, []))
unfolding version char_data parse_uint
no_version = (refl, refl, refl)

sid_string-eq :
    sid_string
      (record { identifier = lit "S-1-5-18"; name = lit "SYSTEM"; domain = lit "NT"; kind = 5 })
    ≡ lit "SID Identifier[S-1-5-18] Name[SYSTEM] Domain[NT] Type[Well Known Group]"
unfolding sid_string sid_type
sid_string-eq = refl

sid_type-unknown : (sid_type 0 ≡ []) × (sid_type 11 ≡ [])
unfolding sid_type
sid_type-unknown = (refl, refl)
