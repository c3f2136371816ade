-- ===== src/Tests/Packets.antt =====
-- reader/dns_packet_reader.go at concrete inputs.
use windns_logtail.Base.{
  Text, text_eq, not, all, if◌then◌else◌, ◌&&◌, lit, pos, true, false, Option, none, some, map,
  length, List, [], ◌∷◌, ◌++◌, ◌≡◌, refl, arith,
}
use windns_logtail.Reader.Dns.Filter.{get_bpf_filter_string}
use windns_logtail.Reader.Dns.Filter.Meaning.{
  View, filter_value, any_host, filter_value-get_bpf_filter_string,
}
use windns_logtail.Checkpoint.State.{zero_state}
use windns_logtail.Eventlog.Dns.{Msg, DnsRecord, zero_record, dns_record_from_msg}
use windns_logtail.Reader.Dns.Packet.{Packet, Decoder, missing, layer, unpack}
use windns_logtail.Reader.Dns.Loop.{
  DnsPacketReader, Event, packet, no_packets, tick, stop, step, loop, run,
}
use windns_logtail.Reader.Dns.Shutdown.{
  Capture, serving, save_panics, panics, due, records_closed, of_event, CaptureRun, at_rest,
  and_then, receives, closes_handle, signals, closes_records,
}
use windns_logtail.Reader.Dns.Shutdown.Counted.{IsCounted, CaptureRun-IsCounted}
use windns_logtail.Reader.Dns.Delivery.{IsRegular, heard, taken, taken-loop, run-IsRegular}

abbrev msg : Msg
msg = record {
  id = 513;
  question = record { name = lit "a.test."; qtype = 1; qclass = 1 } ∷ [];
  response = true;
  truncated = false;
  recursion_desired = true;
  recursion_available = true;
  zero_bit = false;
  rcode = 0;
  answer = [];
  ns = [];
  extra = [];
}

-- A payload of one byte is a message.
abbrev decode : Text → Option Msg
decode [] = none
decode (c ∷ cs) = some msg

abbrev decoder : Decoder
decoder = record {
  unpack_msg = decode;
  tables = record {
    class_to_string = λ c. lit "IN";
    type_to_string = λ t. lit "A";
    rcode_to_string = λ c. lit "NOERROR";
  };
}

abbrev packet_of : Text → Packet
packet_of payload = record {
  metadata = some (pos 7);
  ipv4 = layer (record { src_ip = 10 ∷ []; dst_ip = 11 ∷ [] });
  ipv6 = missing;
  udp = layer (record { src_port = 53; dst_port = 40000; payload = payload });
}

abbrev reader : DnsPacketReader
reader = record {
  device_name = lit "eth0";
  max_read = 2;
  state = zero_state;
  tmp_records = [];
  persisted = [];
  records = [];
  running = false;
}

abbrev events : List Event
events =
    packet (packet_of (lit "m"))
    ∷ stop
    ∷ packet (packet_of [])
    ∷ packet (packet_of (lit "m"))
    ∷ packet (packet_of (lit "m"))
    ∷ tick
    ∷ no_packets
    ∷ packet (packet_of (lit "m"))
    ∷ []

reader-IsRegular : IsRegular reader
reader-IsRegular = record { held = omega arith; batches = tt; followed = refl }

two_batches : map length (run decoder reader events).records ≡ 2 ∷ 1 ∷ []
unfolding run unpack dns_record_from_msg
two_batches = refl

taken-loop_example : taken (loop decoder reader events) ≡ taken reader ++ heard decoder events
taken-loop_example = taken-loop decoder reader events

run-IsRegular_example : IsRegular (run decoder reader events)
run-IsRegular_example = run-IsRegular decoder reader events reader-IsRegular

abbrev view : View
view = record {
  is_host = λ h. not (text_eq h (lit "<nil>"));
  at_host = λ h. text_eq h (lit "10.0.0.2");
  udp = true;
  at_port = λ p. true;
}

filter_value-get_bpf_filter_string_example :
    filter_value view (get_bpf_filter_string (lit "10.0.0.1" ∷ lit "10.0.0.2" ∷ [])) ≡ (
      if all view.is_host (lit "10.0.0.1" ∷ lit "10.0.0.2" ∷ [])
      then some (any_host view (lit "10.0.0.1" ∷ lit "10.0.0.2" ∷ []) && (true && true))
      else none)
filter_value-get_bpf_filter_string_example =
    filter_value-get_bpf_filter_string view (lit "10.0.0.1") (lit "10.0.0.2" ∷ [])
      (refl, (refl, tt))

nil_address : filter_value view (get_bpf_filter_string (lit "<nil>" ∷ [])) ≡ none
unfolding text_eq
nil_address = filter_value-get_bpf_filter_string view (lit "<nil>") [] (refl, tt)

-- A record is held when `Shutdown` closes the channel, and a tick comes before the held record is
-- dropped.
abbrev serving_reader : Capture
serving_reader = record {
  reader = record reader { records = []; tmp_records = [] };
  looping = true;
  closed = false;
  up = true;
  phase = serving;
  unpacked_so_far = [];
  dropped = [];
}

abbrev holding : Capture
holding = record serving_reader {
  reader = (step decoder serving_reader.reader (packet (packet_of (lit "q")))).0;
  looping = (step decoder serving_reader.reader (packet (packet_of (lit "q")))).1;
  unpacked_so_far = of_event decoder (packet (packet_of (lit "q")));
}

abbrev closing : Capture
closing = record holding { closed = true; phase = records_closed }

to_holding : CaptureRun decoder serving_reader holding
to_holding = and_then at_rest (receives (packet (packet_of (lit "q"))) refl refl (λ h. cc))

to_closing : CaptureRun decoder serving_reader closing
unfolding step
to_closing =
    and_then (and_then (and_then to_holding (closes_handle refl refl)) (signals refl refl))
      (closes_records refl refl)

abbrev held : DnsRecord
held = dns_record_from_msg decoder.tables msg (record zero_record {
  packet_time = pos 7;
  src_ip = 10 ∷ [];
  dst_ip = 11 ∷ [];
  src_port = 53;
  dst_port = 40000;
})

abbrev fallen : Capture
fallen = record closing {
  reader = save_panics closing.reader held [];
  up = false;
  unpacked_so_far = closing.unpacked_so_far ++ of_event decoder tick;
}

to_fallen : CaptureRun decoder serving_reader fallen
unfolding step unpack due
to_fallen = and_then to_closing (panics tick held [] refl refl refl refl)

CaptureRun-IsCounted_example : IsCounted fallen
CaptureRun-IsCounted_example =
    CaptureRun-IsCounted to_fallen
      (record { whole = refl; open_first = refl; kept = λ h. refl; down = λ h. cc })
