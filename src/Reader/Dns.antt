-- ===== src/Reader/Dns.antt =====
-- reader/dns_packet_reader.go: DNS messages are captured, unpacked, and handed on in batches.
pub mod Packet
pub mod Loop
pub mod Delivery
pub mod Shutdown
pub mod Filter
