-- ===== src/Reader/Dns/Shutdown.antt =====
-- `Shutdown` of reader/dns_packet_reader.go beside `Run`. A round of the loop is one step, and so is
-- each call of `Shutdown`.
pub mod Counted
use windns_logtail.Base.{ltb, Bool, true, false, List, [], ◌∷◌, ◌++◌, ◌≡◌, length, if◌then◌else◌}
use windns_logtail.Eventlog.Dns.{DnsRecord}
use windns_logtail.Reader.Dns.Packet.{Decoder, Unpacked, unpacked, failed, unpack}
use windns_logtail.Reader.Dns.Delivery.{heard}
use windns_logtail.Reader.Dns.Loop.{
  DnsPacketReader, Event, packet, no_packets, tick, stop, save_batch, step,
}

-- What `Shutdown` has done last.
pub data Phase : Type 0 where
  serving handle_closed signalled records_closed stop_closed shut : Phase

-- A reader whose loop runs, and the process: whether the loop goes on, whether the channel
-- `records` is closed, whether the process is up. Logs: the records of the packets that were
-- unpacked, and those that `Shutdown` dropped.
pub record Capture : Type 0 where
  pub reader : DnsPacketReader
  pub looping : Bool
  pub closed : Bool
  pub up : Bool
  pub phase : Phase
  pub unpacked_so_far : List DnsRecord
  pub dropped : List DnsRecord

-- The batch that a round is to send; none if it is empty.
unfoldable pub due_packet : DnsPacketReader → Unpacked → List DnsRecord
due_packet s (failed e) = []
due_packet s (unpacked r) =
    let tmp = s.tmp_records ++ r ∷ [] in if ltb (length tmp) s.max_read then [] else tmp

unfoldable pub due : Decoder → DnsPacketReader → Event → List DnsRecord
unfolding due_packet
due d s (packet p) = due_packet s (unpack d p)
due d s no_packets = []
due d s tick = s.tmp_records
due d s stop = []

abbrev pub of_event : Decoder → Event → List DnsRecord
of_event d e = heard d (e ∷ [])

-- What `save` has done when its send panics: the state is moved and given to the checkpoint, the
-- batch is still held.
unfoldable pub save_panics : DnsPacketReader → DnsRecord → List DnsRecord → DnsPacketReader
unfolding save_batch
save_panics s b bs = record (save_batch s b bs) { records = s.records; tmp_records = b ∷ bs }

-- The loop, and the calls of `Shutdown` in their order. A send to a closed channel panics.
pub data CaptureStep (d : Decoder) (c : Capture) : Capture → Type 0 where
  receives :
      (e : Event)
      → c.up ≡ true
      → c.looping ≡ true
      → (c.closed ≡ true → due d c.reader e ≡ [])
      → CaptureStep d c (record c {
        reader = (step d c.reader e).0;
        looping = (step d c.reader e).1;
        unpacked_so_far = c.unpacked_so_far ++ of_event d e;
      })
  panics :
      (e : Event) (b : DnsRecord) (bs : List DnsRecord)
      → c.up ≡ true
      → c.looping ≡ true
      → c.closed ≡ true
      → due d c.reader e ≡ b ∷ bs
      → CaptureStep d c (record c {
        reader = save_panics c.reader b bs;
        up = false;
        unpacked_so_far = c.unpacked_so_far ++ of_event d e;
      })
  closes_handle :
      c.up ≡ true → c.phase ≡ serving → CaptureStep d c (record c { phase = handle_closed })
  signals : c.up ≡ true → c.phase ≡ handle_closed → CaptureStep d c (record c { phase = signalled })
  closes_records :
      c.up ≡ true
      → c.phase ≡ signalled
      → CaptureStep d c (record c { closed = true; phase = records_closed })
  closes_stop :
      c.up ≡ true → c.phase ≡ records_closed → CaptureStep d c (record c { phase = stop_closed })
  clears :
      c.up ≡ true
      → c.phase ≡ stop_closed
      → CaptureStep d c (record c {
        reader = record c.reader { running = false; tmp_records = [] };
        phase = shut;
        dropped = c.dropped ++ c.reader.tmp_records;
      })

pub data CaptureRun (d : Decoder) (c : Capture) : Capture → Type 0 where
  at_rest : CaptureRun d c c
  and_then : {t u : Capture} → CaptureRun d c t → CaptureStep d t u → CaptureRun d c u
