-- ===== src/Eventlog/Dns.antt =====
-- eventlog/dns_log.go: the record of a DNS packet and its line of text.
pub mod Line
pub mod Columns
use windns_logtail.Base.{
  Text, lit, join, Time, ℤ, pos, negsuc, zero_time, ℕ, zero, suc, ◌/◌, ◌==◌, Bool, true, false, not,
  List, [], ◌∷◌, map, keep, if◌then◌else◌,
}
use windns_logtail.Base.Decimal.{decimal, signed_decimal}
use windns_logtail.Base.Split.{split}
use windns_logtail.Eventlog.Kind.{RecordKind}

-- `dns.Question` and `dns.Msg` of github.com/miekg/dns, as far as they are read. A resource record
-- is given by what its `String` method returns.
pub record Question : Type 0 where
  pub name : Text
  pub qtype : ℕ
  pub qclass : ℕ

pub record Msg : Type 0 where
  pub id : ℕ
  pub question : List Question
  pub response : Bool
  pub truncated : Bool
  pub recursion_desired : Bool
  pub recursion_available : Bool
  pub zero_bit : Bool
  pub rcode : ℕ
  pub answer : List Text
  pub ns : List Text
  pub extra : List Text

-- The tables `dns.ClassToString`, `dns.TypeToString` and `dns.RcodeToString`.
pub record Tables : Type 0 where
  pub class_to_string : ℕ → Text
  pub type_to_string : ℕ → Text
  pub rcode_to_string : ℕ → Text

-- `DnsRecord`. An IP address is the bytes of its `net.IP`.
pub record DnsRecord : Type 0 where
  pub packet_time : Time
  pub src_ip : List ℕ
  pub dst_ip : List ℕ
  pub src_port : ℕ  -- uint16
  pub dst_port : ℕ  -- uint16
  pub trans_id : ℕ  -- uint16
  pub domain : Text
  pub query_class : Text
  pub query_type : Text
  pub rcode : Text
  pub response : Bool
  pub authoritative : Bool
  pub truncated : Bool
  pub recursion_desired : Bool
  pub recursion_available : Bool
  pub zero_bit : Bool
  pub authenticated_data : Bool
  pub checking_disabled : Bool
  pub resolv_duration : ℤ
  pub answer : List Text
  pub authority : List Text
  pub additional : List Text

-- `&DnsRecord{}`.
abbrev pub zero_record : DnsRecord
zero_record = record {
  packet_time = zero_time;
  src_ip = [];
  dst_ip = [];
  src_port = 0;
  dst_port = 0;
  trans_id = 0;
  domain = [];
  query_class = [];
  query_type = [];
  rcode = [];
  response = false;
  authoritative = false;
  truncated = false;
  recursion_desired = false;
  recursion_available = false;
  zero_bit = false;
  authenticated_data = false;
  checking_disabled = false;
  resolv_duration = pos 0;
  answer = [];
  authority = [];
  additional = [];
}

-- `rrs2Strings` at one record: newlines are dropped and tabs become spaces.
unfoldable pub rr_to_string : Text → Text
rr_to_string r = join (b' ' ∷ []) (split b'\t' (keep (λ c. not (c == b'\n')) r))

abbrev pub rrs_to_strings : List Text → List Text
rrs_to_strings = map rr_to_string

-- The first question, if there is one.
unfoldable pub with_question : Tables → List Question → DnsRecord → DnsRecord
with_question t [] dl = dl
with_question t (q ∷ qs) dl = record dl {
  domain = q.name;
  query_class = t.class_to_string q.qclass;
  query_type = t.type_to_string q.qtype;
}

-- The header bits. The bit `Authoritative` is taken from `msg.Response`.
unfoldable pub with_flags : Msg → DnsRecord → DnsRecord
with_flags msg dl = record dl {
  response = msg.response;
  authoritative = msg.response;
  truncated = msg.truncated;
  recursion_desired = msg.recursion_desired;
  recursion_available = msg.recursion_available;
  zero_bit = msg.zero_bit;
}

unfoldable pub with_sections : Tables → Msg → DnsRecord → DnsRecord
unfolding rr_to_string
with_sections t msg dl =
    if dl.response
    then record dl {
      rcode = t.rcode_to_string msg.rcode;
      answer = rrs_to_strings msg.answer;
      authority = rrs_to_strings msg.ns;
      additional = rrs_to_strings msg.extra;
    }
    else dl

-- `DnsRecordFromMsg`, which fills the record in place.
unfoldable pub dns_record_from_msg : Tables → Msg → DnsRecord → DnsRecord
unfolding with_question with_flags with_sections
dns_record_from_msg t msg dl =
    with_sections t msg
      (with_flags msg (with_question t msg.question (record dl { trans_id = msg.id })))

-- How the standard library prints a local time and an address.
pub record Formats : Type 0 where
  pub time_text : Time → Text
  pub ip_text : List ℕ → Text

abbrev pub bool_to_int : Bool → Text
bool_to_int true = lit "1"
bool_to_int false = lit "0"

abbrev pub packet_type : Bool → Text
packet_type true = lit "response"
packet_type false = lit "query"

abbrev pub negate : ℕ → ℤ
negate zero = pos 0
negate (suc n) = negsuc n

-- `Microseconds`: nanoseconds divided by 1000, towards zero.
abbrev pub microseconds : ℤ → ℤ
microseconds (pos n) = pos (n / 1000)
microseconds (negsuc n) = negate (suc n / 1000)

-- The fields of the line, in their order.
unfoldable pub fields : Formats → DnsRecord → List Text
unfolding decimal signed_decimal
fields f d =
    f.time_text d.packet_time
    ∷ f.ip_text d.src_ip
    ∷ f.ip_text d.dst_ip
    ∷ decimal d.src_port
    ∷ decimal d.dst_port
    ∷ decimal d.trans_id
    ∷ packet_type d.response
    ∷ d.domain
    ∷ d.query_class
    ∷ d.query_type
    ∷ d.rcode
    ∷ bool_to_int d.authoritative
    ∷ bool_to_int d.truncated
    ∷ bool_to_int d.recursion_desired
    ∷ bool_to_int d.recursion_available
    ∷ bool_to_int d.zero_bit
    ∷ signed_decimal (microseconds d.resolv_duration)
    ∷ join (b';' ∷ []) d.answer
    ∷ join (b';' ∷ []) d.authority
    ∷ join (b';' ∷ []) d.additional
    ∷ []

-- `String`.
unfoldable pub to_string : Formats → DnsRecord → Text
unfolding fields
to_string f d = join (b'|' ∷ []) (fields f d)

-- `DnsRecord` as a `Record`; `json` is `json.Marshal` of it.
abbrev pub dns_kind : Formats → (DnsRecord → Text) → RecordKind
dns_kind f json = record {
  Record = DnsRecord;
  timestamp = λ d. d.packet_time;
  string = to_string f;
  json = json;
}
