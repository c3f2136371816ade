-- ===== src/Eventlog/Event/Fuel.antt =====
-- eventlog/normal_log.go: the rounds that reading the pairs of an element needs.
use windns_logtail.Base.{
  Text, lit, ℕ, zero, suc, ◌<◌, ◌≤◌, Option, none, some, List, [], ◌∷◌, ◌≡◌, refl, ap, length,
  arith,
}
use windns_logtail.Eventlog.Event.{
  Name, Attr, Token, opens, chars, closes, other, KeyValue, name_or, as_pair, prepend, with_pair,
  then_pairs, char_data, attr_or, key_value, pairs,
}

abbrev left : {A : Type 0} → Option (A × List Token) → ℕ
left none = 0
left (some (x, rest)) = suc (length rest)

left-prepend : (s : Text) (o : Option (Text × List Token)) → left (prepend s o) ≡ left o
left-prepend s none = refl
left-prepend s (some (t, rest)) = refl

left-char_data : (depth : ℕ) (ts : List Token) → left (char_data depth ts) ≤ length ts
unfolding char_data
left-char_data depth [] = omega arith
left-char_data depth (opens n attrs ∷ ts) = omega (arith, left-char_data (suc depth) ts)
left-char_data depth (other ∷ ts) = omega (arith, left-char_data depth ts)
left-char_data zero (chars s ∷ ts) =
    omega (arith, left-char_data zero ts, left-prepend s (char_data zero ts))
left-char_data (suc depth) (chars s ∷ ts) = omega (arith, left-char_data (suc depth) ts)
left-char_data zero (closes ∷ ts) = omega arith
left-char_data (suc depth) (closes ∷ ts) = omega (arith, left-char_data depth ts)

left-as_pair : (key : Text) (o : Option (Text × List Token)) → left (as_pair key o) ≡ left o
left-as_pair key none = refl
left-as_pair key (some (text, rest)) = refl

left-key_value :
    (n : Name) (attrs : List Attr) (ts : List Token) → left (key_value n attrs ts) ≤ length ts
unfolding key_value
left-key_value n attrs ts = omega (
  arith,
  left-char_data zero ts,
  left-as_pair (name_or (attr_or [] (lit "Name") attrs) n.local) (char_data zero ts),
)

then_pairs-left :
    (f g : List Token → Option (List KeyValue × List Token)) (o : Option (KeyValue × List Token))
    → ((rest : List Token) → length rest < left o → f rest ≡ g rest)
    → then_pairs f o ≡ then_pairs g o
then_pairs-left f g none h = refl
then_pairs-left f g (some (kv, rest)) h = ap (with_pair kv) (h rest (omega arith))

same_rounds : (f g : ℕ) (ts : List Token) → length ts ≤ f → length ts ≤ g → pairs f ts ≡ pairs g ts
unfolding pairs
same_rounds zero zero ts h k = refl
same_rounds zero (suc g) [] h k = refl
same_rounds zero (suc g) (t ∷ ts) h k = absurd (omega arith)
same_rounds (suc f) zero [] h k = refl
same_rounds (suc f) zero (t ∷ ts) h k = absurd (omega arith)
same_rounds (suc f) (suc g) [] h k = refl
same_rounds (suc f) (suc g) (opens n attrs ∷ ts) h k =
    then_pairs-left (pairs f) (pairs g) (key_value n attrs ts) (λ rest l.
      same_rounds f g rest (omega (arith, left-key_value n attrs ts))
        (omega (arith, left-key_value n attrs ts)))
same_rounds (suc f) (suc g) (chars s ∷ ts) h k = same_rounds f g ts (omega arith) (omega arith)
same_rounds (suc f) (suc g) (other ∷ ts) h k = same_rounds f g ts (omega arith) (omega arith)
same_rounds (suc f) (suc g) (closes ∷ ts) h k = refl

-- Reading the pairs of an element needs at most one round for each token: with more of them, the
-- result is the same.
pub pairs_enough :
    (ts : List Token) (fuel : ℕ) → length ts ≤ fuel → pairs fuel ts ≡ pairs (length ts) ts
pairs_enough ts fuel h = same_rounds fuel (length ts) ts h (omega arith)
