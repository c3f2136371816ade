-- ===== src/Tests/Codec.antt =====
-- A codec for the persisted state that reads back what it wrote: checkpoint/checkpoint.go needs
-- one, and this one shows that what is asked of it can be met.
use windns_logtail.Base.{
  Text, Time, pos, negsuc, ℕ, zero, suc, Option, none, some, List, [], ◌∷◌, ◌++◌, ◌≡◌, refl, length,
  take, drop, ◌==◌, if◌then◌else◌, arith, some_inj, ◌<◌,
}
use windns_logtail.Checkpoint.State.{EventLogState, Yaml, ReadsBack, AlwaysWrites}

unfoldable pub put_text : Text → Text → Text
put_text s rest = length s ∷ (s ++ rest)

unfoldable pub put_time : Time → Text → Text
put_time (pos n) rest = 0 ∷ n ∷ rest
put_time (negsuc n) rest = 1 ∷ n ∷ rest

unfoldable pub put_state : EventLogState → Text → Text
put_state s rest =
    put_text s.name
      (s.record_number ∷ put_time s.timestamp (put_text s.md5 (put_text s.bookmark rest)))

unfoldable pub put_states : List EventLogState → Text
put_states [] = 0 ∷ []
put_states (s ∷ ss) = 1 ∷ put_state s (put_states ss)

infixl 5 ◌>>=◌
abbrev pub ◌>>=◌ : {A B : Type 0} → Option A → (A → Option B) → Option B
none >>= f = none
some a >>= f = f a

unfoldable pub get_number : Text → Option (ℕ × Text)
get_number [] = none
get_number (n ∷ rest) = some (n, rest)

unfoldable pub get_text : Text → Option (Text × Text)
get_text [] = none
get_text (n ∷ rest) = some (take n rest, drop n rest)

unfoldable pub get_time : Text → Option (Time × Text)
get_time [] = none
get_time (sign ∷ []) = none
get_time (sign ∷ n ∷ rest) = some (if sign == 0 then pos n else negsuc n, rest)

unfoldable pub get_state : Text → Option (EventLogState × Text)
get_state t = do
  (name, t1) ← get_text t
  (number, t2) ← get_number t1
  (time, t3) ← get_time t2
  (md5, t4) ← get_text t3
  (bookmark, t5) ← get_text t4
  some (
    record {
      name = name;
      record_number = number;
      timestamp = time;
      md5 = md5;
      bookmark = bookmark;
    },
    t5,
  )

unfoldable pub get_states : ℕ → Text → Option (List EventLogState)
get_states zero t = none
get_states (suc fuel) [] = none
get_states (suc fuel) (flag ∷ t) =
    let rest = (get_state t >>= λ (s, u). (get_states fuel u >>= λ ss. some (s ∷ ss))) in
    if flag == 0 then some [] else rest

take-length : (s rest : Text) → take (length s) (s ++ rest) ≡ s
take-length [] rest = refl
take-length (c ∷ s) rest = rw (take-length s rest)

drop-length : (s rest : Text) → drop (length s) (s ++ rest) ≡ rest
drop-length [] rest = refl
drop-length (c ∷ s) rest = drop-length s rest

get-put_text : (s rest : Text) → get_text (put_text s rest) ≡ some (s, rest)
unfolding get_text put_text
get-put_text s rest = rw (take-length s rest, drop-length s rest)

get-put_time : (t : Time) (rest : Text) → get_time (put_time t rest) ≡ some (t, rest)
unfolding get_time put_time
get-put_time (pos n) rest = refl
get-put_time (negsuc n) rest = refl

get-put_state : (s : EventLogState) (rest : Text) → get_state (put_state s rest) ≡ some (s, rest)
unfolding get_state put_state get_number
get-put_state s rest = simp (get-put_text, get-put_time)

get-put_states :
    (ss : List EventLogState) (fuel : ℕ)
    → length ss < fuel
    → get_states fuel (put_states ss) ≡ some ss
unfolding get_states put_states
get-put_states ss zero h = absurd (omega arith)
get-put_states [] (suc fuel) h = refl
get-put_states (s ∷ ss) (suc fuel) h =
    rw (get-put_state s (put_states ss), get-put_states ss fuel (omega arith))

-- The document begins with its time and its number of states.
unfoldable pub codec : Yaml
unfolding put_time put_states put_state put_text get_time get_number get_states get_state get_text
codec = record {
  marshal = λ ps. some (put_time ps.update_time (length ps.states ∷ put_states ps.states));
  unmarshal = λ t. get_time t >>= λ (now, u).
      (get_number u >>= λ (n, v).
      (get_states (suc n) v >>= λ ss. some (record { update_time = now; states = ss })));
}

pub codec-AlwaysWrites : AlwaysWrites codec
unfolding codec
codec-AlwaysWrites ps = (put_time ps.update_time (length ps.states ∷ put_states ps.states), refl)

pub codec-ReadsBack : ReadsBack codec
unfolding codec
codec-ReadsBack ps bytes e =
    rw (← some_inj e, get-put_time, get-put_states ps.states (suc (length ps.states)) (omega arith))
