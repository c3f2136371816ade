-- ===== src/Reader/Dns/Loop.antt =====
-- `Run` and `save` of reader/dns_packet_reader.go: one round of the loop for each event.
use windns_logtail.Base.{
  Text, lit, ℕ, ltb, Bool, true, false, List, [], ◌∷◌, ◌++◌, last, length, if◌then◌else◌,
}
use windns_logtail.Checkpoint.State.{EventLogState, zero_state}
use windns_logtail.Eventlog.Dns.{DnsRecord}
use windns_logtail.Reader.Dns.Packet.{Packet, Decoder, Unpacked, unpacked, failed, unpack}

-- `DnsPacketReader`, with a log of the states given to the checkpoint and of the batches sent on
-- the channel `records`, oldest first.
pub record DnsPacketReader : Type 0 where
  pub device_name : Text
  pub max_read : ℕ
  pub state : EventLogState
  pub tmp_records : List DnsRecord
  pub persisted : List EventLogState
  pub records : List (List DnsRecord)
  pub running : Bool

-- What `select` receives: a packet, the end of the packets, a tick, or the stop signal.
pub data Event : Type 0 where
  packet : Packet → Event
  no_packets tick stop : Event

-- The state of a batch that ends in `r`.
unfoldable pub position : Text → DnsRecord → EventLogState
position device_name r = record zero_state {
  name = lit "DNSLog" ++ device_name;
  timestamp = r.packet_time;
}

-- `save` with the batch `r ∷ rs`.
unfoldable pub save_batch : DnsPacketReader → DnsRecord → List DnsRecord → DnsPacketReader
unfolding position
save_batch s r rs =
    let st = position s.device_name (last r rs) in
    record s {
      state = st;
      persisted = s.persisted ++ st ∷ [];
      records = s.records ++ (r ∷ rs) ∷ [];
      tmp_records = [];
    }

-- Both callers of `save` have a record in the batch; with none it would index at -1.
unfoldable pub save : DnsPacketReader → List DnsRecord → DnsPacketReader
unfolding save_batch
save s [] = s
save s (r ∷ rs) = save_batch s r rs

unfoldable pub take_packet : DnsPacketReader → Unpacked → DnsPacketReader
unfolding save
take_packet s (failed e) = s
take_packet s (unpacked r) =
    let tmp = s.tmp_records ++ r ∷ [] in
    if ltb (length tmp) s.max_read
    then record s { tmp_records = tmp }
    else save (record s { tmp_records = tmp }) tmp

-- One round, and whether the loop goes on. `break` in the case of the stop signal leaves the
-- `select` and not the loop.
unfoldable pub step : Decoder → DnsPacketReader → Event → DnsPacketReader × Bool
unfolding take_packet
step d s (packet p) = (take_packet s (unpack d p), true)
step d s no_packets = (s, false)
step d s tick = (save s s.tmp_records, true)
step d s stop = (s, true)

unfoldable pub loop : Decoder → DnsPacketReader → List Event → DnsPacketReader
unfolding step
loop d s [] = s
loop d s (e ∷ es) = let (s', on) = step d s e in elim on [ true ↦ loop d s' es | false ↦ s' ]

-- `Run`, for the events that come while it runs.
unfoldable pub run : Decoder → DnsPacketReader → List Event → DnsPacketReader
unfolding loop
run d s es = if s.running then s else loop d (record s { running = true }) es
