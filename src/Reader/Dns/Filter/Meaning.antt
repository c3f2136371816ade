-- ===== src/Reader/Dns/Filter/Meaning.antt =====
-- reader/dns_packet_reader.go: the filter takes the DNS packets of the given hosts and no others,
-- by the rules of pcap-filter: `and` and `or` bind alike and from left to right.
use windns_logtail.Base.{
  Text, lit, join, text_eq, Bool, true, false, ◌&&◌, ◌||◌, Option, none, some, List, [], ◌∷◌, ◌++◌,
  ◌≡◌, ap, ◌∙◌, map, All, all, append_assoc, if◌then◌else◌,
}
use windns_logtail.Base.Split.{split, lacks, split-append}
use native.Mathlib.Omega.{arith}
use windns_logtail.Reader.Dns.Filter.{bpf_filter, host, get_bpf_filter_string}

-- Which words pcap takes for a host, and what the primitives say of a packet.
pub record View : Type 0 where
  pub is_host : Text → Bool
  pub at_host : Text → Bool
  pub udp : Bool
  pub at_port : Text → Bool

-- Before a primitive, with what is to be done with its value; before the argument of one; and
-- after one.
pub data Mode : Type 0 where
  before host_arg port_arg : (Bool → Bool) → Mode
  after : Bool → Mode

-- The value of a filter given by its words, unless they make no filter.
unfoldable pub value_of : View → Mode → List Text → Option Bool
unfolding text_eq
value_of v (before k) (w ∷ ws) =
    let at_udp = value_of v (after (k v.udp)) ws in
    let at_host = value_of v (host_arg k) ws in
    let at_port = value_of v (port_arg k) ws in
    if text_eq w (lit "udp")
    then at_udp
    else if text_eq w (lit "host")
    then at_host
    else if text_eq w (lit "port")
    then at_port
    else none
value_of v (host_arg k) (w ∷ ws) =
    let rest = value_of v (after (k (v.at_host w))) ws in if v.is_host w then rest else none
value_of v (port_arg k) (w ∷ ws) = value_of v (after (k (v.at_port w))) ws
value_of v (after b) (w ∷ ws) =
    let conj = value_of v (before (λ c. b && c)) ws in
    let disj = value_of v (before (λ c. b || c)) ws in
    if text_eq w (lit "and") then conj else if text_eq w (lit "or") then disj else none
value_of v (after b) [] = some b
value_of v _ [] = none

abbrev pub filter_value : View → Text → Option Bool
filter_value v filter = value_of v (before (λ c. c)) (split b' ' filter)

abbrev pub any_host : View → List Text → Bool
any_host v [] = false
any_host v (ip ∷ ips) = v.at_host ip || any_host v ips

-- The words of the filter after the first host.
abbrev more_words : List Text → List Text
more_words [] = lit "and" ∷ lit "udp" ∷ lit "and" ∷ lit "port" ∷ lit "53" ∷ []
more_words (ip ∷ ips) = lit "or" ∷ lit "host" ∷ ip ∷ more_words ips

split-host :
    (ip : Text) (rest : Text)
    → lacks b' ' ip ≡ true
    → split b' ' (host ip ++ rest) ≡ lit "host" ∷ ip ∷ split b' ' rest
unfolding split
split-host ip rest h =
    ap (◌∷◌ (lit "host"))
      (ap (split b' ') (append_assoc ip (lit " ") rest) ∙ split-append b' ' ip rest h)

words_of :
    (ip : Text) (ips : List Text)
    → All (λ i. lacks b' ' i ≡ true) (ip ∷ ips)
    → split b' ' (get_bpf_filter_string (ip ∷ ips)) ≡ lit "host" ∷ ip ∷ more_words ips
unfolding get_bpf_filter_string join split
words_of ip [] h = split-host ip (lit "and " ++ bpf_filter) h.0
words_of ip (j ∷ js) h =
    let others : Text = join (lit "or ") (map host (j ∷ js)) in
    ap (split b' ') (append_assoc (host ip) (lit "or " ++ others) (lit "and " ++ bpf_filter))
    ∙ split-host ip (lit "or " ++ (others ++ (lit "and " ++ bpf_filter))) h.0
    ∙ ap (λ ws. lit "host" ∷ ip ∷ lit "or" ∷ ws) (words_of j js h.1)

or_assoc : (a b c : Bool) → ((a || b) || c) ≡ (a || (b || c))
or_assoc a b c = ground arith

value_of-more_words :
    (v : View) (b : Bool) (ips : List Text)
    → value_of v (after b) (more_words ips) ≡ (
        if all v.is_host ips
        then some ((b || any_host v ips) && (v.udp && v.at_port (lit "53")))
        else none)
unfolding value_of text_eq
value_of-more_words v b [] = ground arith
value_of-more_words v b (ip ∷ ips) = ground (
  arith,
  value_of-more_words v (b || v.at_host ip) ips,
  or_assoc b (v.at_host ip) (any_host v ips),
)

-- Of addresses that are printed without a space: if pcap takes each of them for a host, the filter
-- is well formed and takes just the UDP packets at port 53 of one of the hosts; if it does not take
-- one of them for a host, it refuses the filter.
pub filter_value-get_bpf_filter_string :
    (v : View) (ip : Text) (ips : List Text)
    → All (λ i. lacks b' ' i ≡ true) (ip ∷ ips)
    → filter_value v (get_bpf_filter_string (ip ∷ ips)) ≡ (
        if all v.is_host (ip ∷ ips)
        then some (any_host v (ip ∷ ips) && (v.udp && v.at_port (lit "53")))
        else none)
unfolding value_of text_eq
filter_value-get_bpf_filter_string v ip ips h =
    ap (value_of v (before (λ c. c))) (words_of ip ips h)
    ∙ ground (arith, value_of-more_words v (v.at_host ip) ips)
