-- ===== src/Tests/Dns.antt =====
-- eventlog/dns_log.go at concrete inputs.
use windns_logtail.Base.{
  length, Text, lit, join, true, false, [], ◌∷◌, ◌≡◌, refl, keep, map, not, ◌==◌,
}
use windns_logtail.Base.Split.{split, swap_byte}
use windns_logtail.Eventlog.Dns.{
  Msg, Tables, DnsRecord, zero_record, Formats, rr_to_string, dns_record_from_msg, to_string,
  microseconds,
}
use windns_logtail.Eventlog.Dns.Line.{HasNoBar, rr_to_string_lem}
use windns_logtail.Eventlog.Dns.Columns.{read_line, read_line-to_string}
use windns_logtail.Base.Decimal.{signed_decimal}

abbrev tables : Tables
tables = record {
  class_to_string = λ c. lit "IN";
  type_to_string = λ t. lit "A";
  rcode_to_string = λ c. lit "NOERROR";
}

abbrev formats : Formats
formats = record { time_text = λ t. lit "2024-01-02 03:04:05"; ip_text = λ ip. lit "10.0.0.1" }

abbrev answer_line : Text
answer_line = lit "a.test.\t60\tIN\tA\n10.0.0.9"

abbrev msg : Msg
msg = record {
  id = 513;
  question = record { name = lit "a.test."; qtype = 1; qclass = 1 } ∷ [];
  response = true;
  truncated = false;
  recursion_desired = true;
  recursion_available = true;
  zero_bit = false;
  rcode = 0;
  answer = answer_line ∷ [];
  ns = [];
  extra = [];
}

abbrev filled : DnsRecord
filled = dns_record_from_msg tables msg (record zero_record { src_port = 53; dst_port = 40000 })

line_of_filled :
    to_string formats filled
    ≡ lit
        "2024-01-02 03:04:05|10.0.0.1|10.0.0.1|53|40000|513|response|a.test.|IN|A|NOERROR|1|0|1|1|0|0|a.test. 60 IN A10.0.0.9||"
unfolding to_string dns_record_from_msg join split
line_of_filled = refl

filled-HasNoBar : HasNoBar formats filled
unfolding dns_record_from_msg split join
filled-HasNoBar = record {
  time = refl;
  src = refl;
  dst = refl;
  domain = refl;
  query_class = refl;
  query_type = refl;
  rcode = refl;
  answer = (refl, tt);
  authority = tt;
  additional = tt;
}

read_line-to_string_example :
    (length (split b'|' (to_string formats filled)) ≡ 20)
    × (read_line (to_string formats filled) ≡ record {
      time = lit "2024-01-02 03:04:05";
      src = lit "10.0.0.1";
      dst = lit "10.0.0.1";
      src_port = 53;
      dst_port = 40000;
      trans_id = 513;
      response = true;
      domain = lit "a.test.";
      query_class = lit "IN";
      query_type = lit "A";
      rcode = lit "NOERROR";
      authoritative = true;
      truncated = false;
      recursion_desired = true;
      recursion_available = true;
      zero_bit = false;
      duration = signed_decimal (microseconds filled.resolv_duration);
      answer = lit "a.test. 60 IN A10.0.0.9";
      authority = [];
      additional = [];
    })
unfolding dns_record_from_msg split join
read_line-to_string_example = read_line-to_string formats filled filled-HasNoBar

rr_to_string_lem_example :
    rr_to_string answer_line ≡ map (swap_byte b'\t' b' ') (keep (λ c. not (c == b'\n')) answer_line)
rr_to_string_lem_example = rr_to_string_lem answer_line
