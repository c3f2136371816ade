-- ===== src/Eventlog/Dns/Line.antt =====
-- eventlog/dns_log.go: what a reader of the line of text gets back, and what a record takes over
-- from a message.
use windns_logtail.Base.{
  Text, join, ℕ, ◌==◌, ◌≡◌, ◌≢◌, refl, Bool, true, false, not, List, [], ◌∷◌, map, All, keep, all,
  if◌then◌else◌, arith, inl, inr, ℤ, Bool-cases,
}
use windns_logtail.Base.Decimal
use windns_logtail.Base.Decimal.{decimal, signed_decimal}
use windns_logtail.Base.Split.{split, lacks, lacks-append, split-join, join-split, swap_byte}
use windns_logtail.Eventlog.Dns.{
  Msg, Tables, DnsRecord, Formats, rr_to_string, dns_record_from_msg, fields, to_string,
  packet_type, bool_to_int, microseconds, rrs_to_strings,
}

decimal-lacks : (n : ℕ) → lacks b'|' (decimal n) ≡ true
decimal-lacks n = Decimal.decimal-lacks b'|' n (omega arith)

signed_decimal-lacks : (n : ℤ) → lacks b'|' (signed_decimal n) ≡ true
signed_decimal-lacks n = Decimal.signed_decimal-lacks b'|' n (omega arith)

join-lacks :
    (sep : ℕ) (glue : Text) (ps : List Text)
    → lacks sep glue ≡ true
    → All (λ p. lacks sep p ≡ true) ps
    → lacks sep (join glue ps) ≡ true
unfolding join
join-lacks sep glue [] g h = refl
join-lacks sep glue (p ∷ []) g h = h.0
join-lacks sep glue (p ∷ q ∷ qs) g h =
    lacks-append sep p _ h.0 (lacks-append sep glue _ g (join-lacks sep glue (q ∷ qs) g h.1))

abbrev IsClean : Text → Type 0
IsClean s = lacks b'|' s ≡ true

-- The parts of a record that the code does not make itself hold no bar: the printed time and
-- addresses, the names, and the resource records.
pub record HasNoBar (f : Formats) (d : DnsRecord) : Type 0 where
  pub time : IsClean (f.time_text d.packet_time)
  pub src : IsClean (f.ip_text d.src_ip)
  pub dst : IsClean (f.ip_text d.dst_ip)
  pub domain : IsClean d.domain
  pub query_class : IsClean d.query_class
  pub query_type : IsClean d.query_type
  pub rcode : IsClean d.rcode
  pub answer : All IsClean d.answer
  pub authority : All IsClean d.authority
  pub additional : All IsClean d.additional

packet_type-lacks : (b : Bool) → IsClean (packet_type b)
packet_type-lacks true = refl
packet_type-lacks false = refl

bool_to_int-lacks : (b : Bool) → IsClean (bool_to_int b)
bool_to_int-lacks true = refl
bool_to_int-lacks false = refl

fields-IsClean : (f : Formats) (d : DnsRecord) → HasNoBar f d → All IsClean (fields f d)
unfolding fields
fields-IsClean f d h = (
  h.time,
  (
    h.src,
    (
      h.dst,
      (
        decimal-lacks d.src_port,
        (
          decimal-lacks d.dst_port,
          (
            decimal-lacks d.trans_id,
            (
              packet_type-lacks d.response,
              (
                h.domain,
                (
                  h.query_class,
                  (
                    h.query_type,
                    (
                      h.rcode,
                      (
                        bool_to_int-lacks d.authoritative,
                        (
                          bool_to_int-lacks d.truncated,
                          (
                            bool_to_int-lacks d.recursion_desired,
                            (
                              bool_to_int-lacks d.recursion_available,
                              (
                                bool_to_int-lacks d.zero_bit,
                                (
                                  signed_decimal-lacks (microseconds d.resolv_duration),
                                  (
                                    join-lacks b'|' (b';' ∷ []) d.answer refl h.answer,
                                    (
                                      join-lacks b'|' (b';' ∷ []) d.authority refl h.authority,
                                      (
                                        join-lacks b'|' (b';' ∷ []) d.additional refl h.additional,
                                        tt,
                                      ),
                                    ),
                                  ),
                                ),
                              ),
                            ),
                          ),
                        ),
                      ),
                    ),
                  ),
                ),
              ),
            ),
          ),
        ),
      ),
    ),
  ),
)

fields-ne-nil : (f : Formats) (d : DnsRecord) → fields f d ≢ []
unfolding fields
fields-ne-nil f d e = cc

-- Then the line splits at the bars into exactly the twenty fields: the numbers, flags and joined
-- lists never add a bar.
pub split-to_string :
    (f : Formats) (d : DnsRecord) → HasNoBar f d → split b'|' (to_string f d) ≡ fields f d
unfolding to_string
split-to_string f d h = split-join b'|' (fields f d) (fields-ne-nil f d) (fields-IsClean f d h)

-- A resource record is printed with its newlines dropped and each tab a space.
pub rr_to_string_lem :
    (r : Text) → rr_to_string r ≡ map (swap_byte b'\t' b' ') (keep (λ c. not (c == b'\n')) r)
unfolding rr_to_string
rr_to_string_lem r = join-split b'\t' b' ' (keep (λ c. not (c == b'\n')) r)

all-keep : (p : ℕ → Bool) (s : Text) → all p (keep p s) ≡ true
all-keep p [] = refl
all-keep p (c ∷ s) = elim (Bool-cases (p c)) [
  | inl e ↦ rw (e, e) (all-keep p s)
  | inr e ↦ rw e (all-keep p s)
]

swap_byte-lacks :
    (s : Text) → lacks b'\n' s ≡ true → lacks b'\n' (map (swap_byte b'\t' b' ') s) ≡ true
swap_byte-lacks [] h = refl
swap_byte-lacks (c ∷ s) h = ground (arith, swap_byte-lacks s)

swap_byte-lacks_old : (s : Text) → lacks b'\t' (map (swap_byte b'\t' b' ') s) ≡ true
swap_byte-lacks_old [] = refl
swap_byte-lacks_old (c ∷ s) = ground (arith, swap_byte-lacks_old s)

-- So it holds neither, and a record stays one line.
pub rr_to_string-lacks :
    (r : Text) → (lacks b'\n' (rr_to_string r) ≡ true) × (lacks b'\t' (rr_to_string r) ≡ true)
rr_to_string-lacks r =
    let kept : Text = keep (λ c. not (c == b'\n')) r in
    rw (rr_to_string_lem r)
      (swap_byte-lacks kept (all-keep (λ c. not (c == b'\n')) r), swap_byte-lacks_old kept)

-- What a message gives: a query gives no response code and no sections, a response gives all; the
-- packet's time, addresses and ports stay; and the bit `Authoritative` of the record is the bit
-- `Response` of the message, whatever the message says.
pub dns_record_from_msg_lem :
    (t : Tables) (msg : Msg) (dl : DnsRecord)
    → let d = dns_record_from_msg t msg dl in
      (d.trans_id ≡ msg.id)
      × (d.authoritative ≡ msg.response)
      × (d.packet_time ≡ dl.packet_time)
      × (d.src_ip ≡ dl.src_ip)
      × (d.dst_ip ≡ dl.dst_ip)
      × (d.src_port ≡ dl.src_port)
      × (d.dst_port ≡ dl.dst_port)
      × (d.answer ≡ (if msg.response then rrs_to_strings msg.answer else dl.answer))
      × (d.authority ≡ (if msg.response then rrs_to_strings msg.ns else dl.authority))
      × (d.additional ≡ (if msg.response then rrs_to_strings msg.extra else dl.additional))
      × (d.rcode ≡ (if msg.response then t.rcode_to_string msg.rcode else dl.rcode))
      × ((msg.question ≡ []) → d.domain ≡ dl.domain)
unfolding dns_record_from_msg
dns_record_from_msg_lem t msg dl = ground arith
