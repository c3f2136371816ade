-- ===== src/Eventlog/Dns/Columns.antt =====
-- eventlog/dns_log.go: what each column of the line of text is, for a reader of the line.
use windns_logtail.Base.{
  Text, lit, join, text_eq, ℕ, zero, suc, ◌≡◌, refl, ap, ◌∙◌, Bool, true, false, List, [], ◌∷◌,
  length,
}
use windns_logtail.Base.Decimal.{signed_decimal, value, value-decimal}
use windns_logtail.Base.Split.{split}
use windns_logtail.Eventlog.Dns.{
  DnsRecord, Formats, fields, to_string, packet_type, bool_to_int, microseconds,
}
use windns_logtail.Eventlog.Dns.Line.{HasNoBar, split-to_string}

-- The columns by name, with numbers and flags read back.
pub record Columns : Type 0 where
  pub time : Text
  pub src : Text
  pub dst : Text
  pub src_port : ℕ
  pub dst_port : ℕ
  pub trans_id : ℕ
  pub response : Bool
  pub domain : Text
  pub query_class : Text
  pub query_type : Text
  pub rcode : Text
  pub authoritative : Bool
  pub truncated : Bool
  pub recursion_desired : Bool
  pub recursion_available : Bool
  pub zero_bit : Bool
  pub duration : Text
  pub answer : Text
  pub authority : Text
  pub additional : Text

-- Column `n`, counted from 0.
abbrev column : ℕ → List Text → Text
column n [] = []
column zero (c ∷ cs) = c
column (suc n) (c ∷ cs) = column n cs

abbrev number : Text → ℕ
number s = value 0 s

abbrev flag : Text → Bool
flag s = text_eq s (lit "1")

columns_of : List Text → Columns
columns_of cs = record {
  time = column 0 cs;
  src = column 1 cs;
  dst = column 2 cs;
  src_port = number (column 3 cs);
  dst_port = number (column 4 cs);
  trans_id = number (column 5 cs);
  response = text_eq (column 6 cs) (lit "response");
  domain = column 7 cs;
  query_class = column 8 cs;
  query_type = column 9 cs;
  rcode = column 10 cs;
  authoritative = flag (column 11 cs);
  truncated = flag (column 12 cs);
  recursion_desired = flag (column 13 cs);
  recursion_available = flag (column 14 cs);
  zero_bit = flag (column 15 cs);
  duration = column 16 cs;
  answer = column 17 cs;
  authority = column 18 cs;
  additional = column 19 cs;
}

-- What a reader makes of a line.
pub read_line : Text → Columns
read_line line = columns_of (split b'|' line)

flag-bool_to_int : (b : Bool) → flag (bool_to_int b) ≡ b
unfolding text_eq
flag-bool_to_int true = refl
flag-bool_to_int false = refl

response-packet_type : (b : Bool) → text_eq (packet_type b) (lit "response") ≡ b
unfolding text_eq
response-packet_type true = refl
response-packet_type false = refl

-- If the printed time and addresses, the names and the resource records of a record hold no bar, its
-- line has twenty columns, and they give back the record: the time and the addresses as printed,
-- the ports and the number of the message, its kind, the names, the five flags, the duration in
-- microseconds as printed, and the three sections, each with its records joined by semicolons.
pub read_line-to_string :
    (f : Formats) (d : DnsRecord)
    → HasNoBar f d
    → (length (split b'|' (to_string f d)) ≡ 20)
      × (read_line (to_string f d) ≡ record {
        time = f.time_text d.packet_time;
        src = f.ip_text d.src_ip;
        dst = f.ip_text d.dst_ip;
        src_port = d.src_port;
        dst_port = d.dst_port;
        trans_id = d.trans_id;
        response = d.response;
        domain = d.domain;
        query_class = d.query_class;
        query_type = d.query_type;
        rcode = d.rcode;
        authoritative = d.authoritative;
        truncated = d.truncated;
        recursion_desired = d.recursion_desired;
        recursion_available = d.recursion_available;
        zero_bit = d.zero_bit;
        duration = signed_decimal (microseconds d.resolv_duration);
        answer = join (lit ";") d.answer;
        authority = join (lit ";") d.authority;
        additional = join (lit ";") d.additional;
      })
unfolding fields read_line columns_of
read_line-to_string f d h = (
  ap length (split-to_string f d h),
  ap columns_of (split-to_string f d h)
      ∙ rw
          (
            value-decimal d.src_port,
            value-decimal d.dst_port,
            value-decimal d.trans_id,
            response-packet_type d.response,
            flag-bool_to_int d.authoritative,
            flag-bool_to_int d.truncated,
            flag-bool_to_int d.recursion_desired,
            flag-bool_to_int d.recursion_available,
            flag-bool_to_int d.zero_bit,
          )
          refl,
)
