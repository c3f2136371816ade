-- ===== src/Reader/Dns/Packet.antt =====
-- `unpack` of reader/dns_packet_reader.go. A packet is what gopacket has decoded of it.
use windns_logtail.Base.{Text, Time, ℕ, ◌%◌, Option, none, some, List}
use windns_logtail.Eventlog.Dns.{Msg, Tables, DnsRecord, zero_record, dns_record_from_msg}

-- `p.Layer(t)`: no such layer, a value of another type, or the layer.
pub data Layer (A : Type 0) : Type 0 where
  missing other : Layer A
  layer : A → Layer A

-- The addresses of `layers.IPv4` and `layers.IPv6`.
pub record Ip : Type 0 where
  pub src_ip : List ℕ
  pub dst_ip : List ℕ

pub record Udp : Type 0 where
  pub src_port : ℕ
  pub dst_port : ℕ
  pub payload : Text

-- `metadata` holds the timestamp of `p.Metadata()`, if there is one.
pub record Packet : Type 0 where
  pub metadata : Option Time
  pub ipv4 : Layer Ip
  pub ipv6 : Layer Ip
  pub udp : Layer Udp

pub data UnpackError : Type 0 where
  no_metadata bad_ipv4 no_ip bad_ipv6 no_udp bad_udp bad_message : UnpackError

-- The record that comes with an error is not used by the caller.
pub data Unpacked : Type 0 where
  unpacked : DnsRecord → Unpacked
  failed : UnpackError → Unpacked

abbrev with_ip : Ip → DnsRecord → DnsRecord
with_ip ip dl = record dl { src_ip = ip.src_ip; dst_ip = ip.dst_ip }

-- What the packet library and the DNS library give: the message in a payload, and the names of
-- codes.
pub record Decoder : Type 0 where
  pub unpack_msg : Text → Option Msg
  pub tables : Tables

-- The UDP layer and the message in it.
unfoldable pub unpack_udp : Decoder → Layer Udp → DnsRecord → Unpacked
unpack_udp d missing dl = failed no_udp
unpack_udp d other dl = failed bad_udp
unpack_udp d (layer udp) dl = elim (d.unpack_msg udp.payload) [
  | none ↦ failed bad_message
  | some msg ↦ unpacked (
      dns_record_from_msg d.tables msg
        (record dl { src_port = udp.src_port % 65536; dst_port = udp.dst_port % 65536 }))
]

unfoldable pub unpack_ipv6 : Decoder → Layer Ip → Layer Udp → DnsRecord → Unpacked
unfolding unpack_udp
unpack_ipv6 d missing udp dl = failed no_ip
unpack_ipv6 d other udp dl = failed bad_ipv6
unpack_ipv6 d (layer ip) udp dl = unpack_udp d udp (with_ip ip dl)

-- IPv6 is looked at only if there is no IPv4 layer.
unfoldable pub unpack_ip : Decoder → Layer Ip → Layer Ip → Layer Udp → DnsRecord → Unpacked
unfolding unpack_ipv6 unpack_udp
unpack_ip d missing ipv6 udp dl = unpack_ipv6 d ipv6 udp dl
unpack_ip d other ipv6 udp dl = failed bad_ipv4
unpack_ip d (layer ip) ipv6 udp dl = unpack_udp d udp (with_ip ip dl)

unfoldable pub unpack : Decoder → Packet → Unpacked
unfolding unpack_ip
unpack d p = elim p.metadata [
  | none ↦ failed no_metadata
  | some t ↦ unpack_ip d p.ipv4 p.ipv6 p.udp (record zero_record { packet_time = t })
]
