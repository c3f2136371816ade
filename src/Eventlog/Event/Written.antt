-- ===== src/Eventlog/Event/Written.antt =====
-- eventlog/normal_log.go: what `UserData` and `KeyValue` read of data that was written.
use windns_logtail.Base.{
  Text, lit, text_eq, ℕ, zero, suc, ◌≤◌, Bool, true, false, Option, none, some, List, [], ◌∷◌, ◌≡◌,
  ◌≢◌, refl, ap, ◌∙◌, length, map, append-nil, arith, All,
}
use windns_logtail.Eventlog.Event.{
  Name, Attr, Token, opens, chars, closes, other, KeyValue, name_or, skip, char_data, attr_or,
  key_value, pairs, user_data,
}

abbrev bare_name : Text → Name
bare_name s = record { space = []; local = s }

-- A pair as an element: its key in an attribute of `Data`, or as the element's name.
abbrev pub element : Bool × KeyValue → List Token → List Token
element (true, kv) ts =
    opens (bare_name (lit "Data")) (record { name = bare_name (lit "Name"); value = kv.key } ∷ [])
    ∷ chars kv.value
    ∷ closes
    ∷ ts
element (false, kv) ts = opens (bare_name kv.key) [] ∷ chars kv.value ∷ closes ∷ ts

abbrev pub elements : List (Bool × KeyValue) → List Token → List Token
elements [] ts = ts
elements (e ∷ es) ts = element e (elements es ts)

-- What stands before the first element: text and comments.
abbrev pub before : List (Option Text) → List Token → List Token
before [] ts = ts
before (none ∷ os) ts = other ∷ before os ts
before (some s ∷ os) ts = chars s ∷ before os ts

abbrev pub HasKey : Bool × KeyValue → Type 0
HasKey (b, kv) = kv.key ≢ []

name_or-left : (s t : Text) → s ≢ [] → name_or s t ≡ s
name_or-left [] t h = absurd (h refl)
name_or-left (c ∷ s) t h = refl

skip-elements :
    (es : List (Bool × KeyValue)) (ts : List Token) → skip 0 (elements es ts) ≡ skip 0 ts
unfolding skip
skip-elements [] ts = refl
skip-elements ((true, kv) ∷ es) ts = skip-elements es ts
skip-elements ((false, kv) ∷ es) ts = skip-elements es ts

char_data-written :
    (s : Text) (ts : List Token) → char_data 0 (chars s ∷ closes ∷ ts) ≡ some (s, ts)
unfolding char_data
char_data-written s ts = ap (λ t. some (t, ts)) (append-nil s)

key_value-written :
    (n : Name) (attrs : List Attr) (s : Text) (ts : List Token)
    → key_value n attrs (chars s ∷ closes ∷ ts)
      ≡ some (record { key = name_or (attr_or [] (lit "Name") attrs) n.local; value = s }, ts)
unfolding key_value
key_value-written n attrs s ts = rw (char_data-written s ts, key_value) refl

pairs-opens :
    (fuel : ℕ) (n : Name) (attrs : List Attr) (ts rest after : List Token) (kv : KeyValue)
    (kvs : List KeyValue)
    → key_value n attrs ts ≡ some (kv, rest)
    → pairs fuel rest ≡ some (kvs, after)
    → pairs (suc fuel) (opens n attrs ∷ ts) ≡ some (kv ∷ kvs, after)
unfolding pairs
pairs-opens fuel n attrs ts rest after kv kvs e f = rw (e, pairs) (rw f refl)

pairs-elements :
    (es : List (Bool × KeyValue)) (ts : List Token) (fuel : ℕ)
    → All HasKey es
    → length (elements es (closes ∷ ts)) ≤ fuel
    → pairs fuel (elements es (closes ∷ ts)) ≡ some (map (λ e. e.1) es, ts)
unfolding pairs attr_or text_eq
pairs-elements [] ts zero keys h = absurd (omega arith)
pairs-elements ((true, kv) ∷ es) ts zero keys h = absurd (omega arith)
pairs-elements ((false, kv) ∷ es) ts zero keys h = absurd (omega arith)
pairs-elements [] ts (suc fuel) keys h = refl
pairs-elements ((true, kv) ∷ es) ts (suc fuel) keys h =
    pairs-opens fuel (bare_name (lit "Data"))
      (record { name = bare_name (lit "Name"); value = kv.key } ∷ [])
      (chars kv.value ∷ closes ∷ elements es (closes ∷ ts)) (elements es (closes ∷ ts)) ts kv
      (map (λ e. e.1) es)
      (key_value-written (bare_name (lit "Data"))
          (record { name = bare_name (lit "Name"); value = kv.key } ∷ []) kv.value
          (elements es (closes ∷ ts))
        ∙ ap (λ k. some (record { key = k; value = kv.value }, elements es (closes ∷ ts)))
            (name_or-left kv.key (lit "Data") keys.0))
      (pairs-elements es ts fuel keys.1 (omega arith))
pairs-elements ((false, kv) ∷ es) ts (suc fuel) keys h =
    pairs-opens fuel (bare_name kv.key) [] (chars kv.value ∷ closes ∷ elements es (closes ∷ ts))
      (elements es (closes ∷ ts)) ts kv (map (λ e. e.1) es)
      (key_value-written (bare_name kv.key) [] kv.value (elements es (closes ∷ ts)))
      (pairs-elements es ts fuel keys.1 (omega arith))

user_data-opens :
    (n : Name) (attrs : List Attr) (ts rest after : List Token) (kvs : List KeyValue)
    → pairs (length ts) ts ≡ some (kvs, rest)
    → skip 0 rest ≡ some after
    → user_data (opens n attrs ∷ ts) ≡ some (record { name = n; pairs = kvs }, after)
unfolding user_data
user_data-opens n attrs ts rest after kvs e f = rw (e, user_data) (rw f refl)

-- What is written as an element with the pairs in elements of their own, after any text and
-- comments and before any other elements, is read back, whether a pair's key is the attribute
-- `Name` or the name of its element, if no key is empty. What follows is left to the decoder.
pub user_data-elements :
    (os : List (Option Text)) (n : Name) (attrs : List Attr) (es others : List (Bool × KeyValue))
    (ts : List Token)
    → All HasKey es
    → user_data (before os (opens n attrs ∷ elements es (closes ∷ elements others (closes ∷ ts))))
      ≡ some (record { name = n; pairs = map (λ e. e.1) es }, ts)
unfolding user_data skip
user_data-elements [] n attrs es others ts keys =
    user_data-opens n attrs _ (elements others (closes ∷ ts)) ts _
      (pairs-elements es (elements others (closes ∷ ts)) _ keys (omega arith))
      (skip-elements others (closes ∷ ts))
user_data-elements (none ∷ os) n attrs es others ts keys =
    user_data-elements os n attrs es others ts keys
user_data-elements (some s ∷ os) n attrs es others ts keys =
    user_data-elements os n attrs es others ts keys
