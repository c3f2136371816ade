-- ===== src/Scheduler/Address/Dialled.antt =====
-- What `net.Dial` makes of the addresses of cmd/wineventtail/schduler.go: it splits them as
-- `net.SplitHostPort` does.
use windns_logtail.Base.{
  Text, lit, ℕ, ◌==◌, ℤ, true, not, ◌&&◌, Option, none, some, [], ◌∷◌, ◌++◌, ◌≡◌, refl,
  if◌then◌else◌, arith, ap, Bool-cases, inl, inr, append_assoc, sym, ◌∙◌,
}
use windns_logtail.Base.Decimal.{signed_decimal, signed_decimal-lacks}
use windns_logtail.Base.Split.{lacks}
use windns_logtail.Scheduler.Address.{Ip, plain, bracketed, sys_log_addr, ftp_addr}

abbrev further : ℕ → ℕ → Text → Option (Text × Text) → Option (Text × Text)
further sep c s (some (p, q)) = some (c ∷ p, q)
further sep c s none = if c == sep then some ([], s) else none

-- What stands before and after the last `sep`.
cut_last : ℕ → Text → Option (Text × Text)
cut_last sep [] = none
cut_last sep (c ∷ s) = further sep c s (cut_last sep s)

abbrev onto : ℕ → Option Text → Option Text
onto c none = none
onto c (some s) = some (c ∷ s)

-- What stands before a bracket that closes at the end, with no other bracket.
unbracket : Text → Option Text
unbracket [] = none
unbracket (c ∷ s) =
    if c == b']'
    then elim s [ [] ↦ some [] | d ∷ t ↦ none ]
    else if c == b'['
    then none
    else onto c (unbracket s)

host_of : Text → Option Text
unfolding unbracket
host_of [] = some []
host_of (c ∷ s) =
    if c == b'['
    then unbracket s
    else if lacks b':' (c ∷ s) && (lacks b'[' (c ∷ s) && lacks b']' (c ∷ s))
    then some (c ∷ s)
    else none

abbrev with_port : Text → Option Text → Option (Text × Text)
with_port port none = none
with_port port (some host) = some (host, port)

abbrev split_at : Option (Text × Text) → Option (Text × Text)
split_at none = none
split_at (some (before, port)) =
    if lacks b'[' port && lacks b']' port then with_port port (host_of before) else none

-- `net.SplitHostPort`.
pub split_host_port : Text → Option (Text × Text)
unfolding cut_last host_of
split_host_port t = split_at (cut_last b':' t)

cut_last-lacks : (sep : ℕ) (q : Text) → lacks sep q ≡ true → cut_last sep q ≡ none
unfolding cut_last
cut_last-lacks sep [] h = refl
cut_last-lacks sep (c ∷ q) h = ground (arith, cut_last-lacks sep q)

cut_last-append :
    (sep : ℕ) (p q : Text) → lacks sep q ≡ true → cut_last sep (p ++ sep ∷ q) ≡ some (p, q)
unfolding cut_last
cut_last-append sep [] q h = ground (arith, cut_last-lacks sep q h)
cut_last-append sep (c ∷ p) q h = rw (cut_last-append sep p q h)

unbracket-append :
    (s : Text) → lacks b'[' s ≡ true → lacks b']' s ≡ true → unbracket (s ++ lit "]") ≡ some s
unfolding unbracket
unbracket-append [] h k = refl
unbracket-append (c ∷ s) h k = ground (arith, unbracket-append s)

host_of-plain :
    (s : Text)
    → lacks b'[' s ≡ true
    → lacks b']' s ≡ true
    → host_of s ≡ (if lacks b':' s then some s else none)
unfolding host_of
host_of-plain [] h k = refl
host_of-plain (c ∷ s) h k = ground arith

-- A text with a port is split at the colon before it.
split_host_port-append :
    (before : Text) (port : ℤ)
    → split_host_port (before ++ (lit ":" ++ signed_decimal port))
      ≡ with_port (signed_decimal port) (host_of before)
unfolding split_host_port
split_host_port-append before port =
    rw
      (
        cut_last-append b':' before (signed_decimal port)
            (signed_decimal-lacks b':' port (omega arith)),
        signed_decimal-lacks b'[' port (omega arith),
        signed_decimal-lacks b']' port (omega arith),
      )
      refl

split-plain :
    (addr : Text) (port : ℤ)
    → lacks b'[' addr ≡ true
    → lacks b']' addr ≡ true
    → split_host_port (plain addr port)
      ≡ (if lacks b':' addr then some (addr, signed_decimal port) else none)
unfolding plain
split-plain addr port h k =
    split_host_port-append addr port
    ∙ ap (with_port (signed_decimal port)) (host_of-plain addr h k)
    ∙ elim (Bool-cases (lacks b':' addr)) [ inl e ↦ rw e refl | inr e ↦ rw e refl ]

split-bracketed :
    (addr : Text) (port : ℤ)
    → lacks b'[' addr ≡ true
    → lacks b']' addr ≡ true
    → split_host_port (bracketed addr port) ≡ some (addr, signed_decimal port)
unfolding bracketed host_of
split-bracketed addr port h k =
    ap split_host_port
      (ap (◌∷◌ b'[') (sym (append_assoc addr (lit "]") (lit ":" ++ signed_decimal port))))
    ∙ split_host_port-append (b'[' ∷ (addr ++ lit "]")) port
    ∙ ap (with_port (signed_decimal port)) (unbracket-append addr h k)

-- What is relied on: an address that `net.ParseIP` takes holds no bracket, and it has 16 bytes.
pub record ParsesIps (parse_ip : Text → Option Ip) : Type 0 where
  pub no_open : (a : Text) (ip : Ip) → parse_ip a ≡ some ip → lacks b'[' a ≡ true
  pub no_close : (a : Text) (ip : Ip) → parse_ip a ≡ some ip → lacks b']' a ≡ true
  pub has_16 : (a : Text) (ip : Ip) → parse_ip a ≡ some ip → ip.to16 ≡ true

-- If `net.ParseIP` takes an address, which then holds no bracket and has 16 bytes, both servers get
-- the same text. It is split into that address and the port again, except where the address is
-- an IPv4 one that is written with a colon (as `::ffff:10.0.0.1` is): that text is refused.
pub split-remote_addr :
    (parse_ip : Text → Option Ip) (addr : Text) (port : ℤ) (ip : Ip)
    → ParsesIps parse_ip
    → parse_ip addr ≡ some ip
    → (t : Text) × (sys_log_addr parse_ip addr port ≡ some t)
      × (ftp_addr parse_ip addr port ≡ some t)
      × (split_host_port t
          ≡ (if ip.to4 && not (lacks b':' addr) then none else some (addr, signed_decimal port)))
unfolding sys_log_addr ftp_addr
split-remote_addr parse_ip addr port ip p e = elim (Bool-cases ip.to4) [
  | inl four ↦ (
    plain addr port,
    ground arith,
    ground arith,
    rw four (
        split-plain addr port (p.no_open addr ip e) (p.no_close addr ip e)
        ∙ elim (Bool-cases (lacks b':' addr)) [ inl l ↦ rw l refl | inr l ↦ rw l refl ]),
  )
  | inr six ↦ (
    bracketed addr port,
    ground (arith, p.has_16 addr ip e),
    ground (arith, p.has_16 addr ip e),
    rw six (split-bracketed addr port (p.no_open addr ip e) (p.no_close addr ip e)),
  )
]
