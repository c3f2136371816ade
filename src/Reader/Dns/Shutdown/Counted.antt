-- ===== src/Reader/Dns/Shutdown/Counted.antt =====
-- Where the records of reader/dns_packet_reader.go are while it is shut down.
use windns_logtail.Base.{
  ◌<◌, ltb, Bool, true, false, List, [], ◌∷◌, ◌++◌, ◌≡◌, refl, sym, ap, ◌∙◌, length, arith, concat,
  length-append, not, append_assoc, append-nil, Bool-cases, inl, inr,
}
use windns_logtail.Eventlog.Dns.{DnsRecord}
use windns_logtail.Reader.Dns.Delivery.{taken, taken-step, of_packet}
use windns_logtail.Reader.Dns.Packet.{Decoder, Unpacked, unpacked, failed, unpack}
use windns_logtail.Reader.Dns.Loop.{
  DnsPacketReader, Event, packet, no_packets, tick, stop, save_batch, save, take_packet, step,
}
use windns_logtail.Reader.Dns.Shutdown.{
  Phase, serving, handle_closed, signalled, records_closed, stop_closed, shut, Capture, due_packet,
  due, of_event, save_panics, CaptureStep, receives, panics, closes_handle, signals, closes_records,
  closes_stop, clears, CaptureRun, at_rest, and_then,
}

quiet_packet :
    (s : DnsPacketReader) (u : Unpacked)
    → due_packet s u ≡ []
    → ((take_packet s u).records ≡ s.records)
      × ((take_packet s u).tmp_records ≡ s.tmp_records ++ of_packet u)
unfolding due_packet take_packet
quiet_packet s (failed e) h = (refl, sym (append-nil s.tmp_records))
quiet_packet s (unpacked r) h =
    elim (Bool-cases (ltb (length (s.tmp_records ++ r ∷ [])) s.max_read)) [
      | inl few ↦ (ground arith, ground arith)
      | inr full ↦ absurd (ground (arith, length-append s.tmp_records (r ∷ []), ap length h))
    ]

-- A round that has nothing to send leaves the batches that were sent.
quiet_step :
    (d : Decoder) (s : DnsPacketReader) (e : Event)
    → due d s e ≡ []
    → ((step d s e).0.records ≡ s.records)
      × ((step d s e).0.tmp_records ≡ s.tmp_records ++ of_event d e)
unfolding due step save
quiet_step d s (packet p) h =
    let q = quiet_packet s (unpack d p) h in
    (q.0, q.1 ∙ ap (◌++◌ s.tmp_records) (sym (append-nil (of_packet (unpack d p)))))
quiet_step d s no_packets h = (refl, sym (append-nil s.tmp_records))
quiet_step d s tick h = (ground (arith, h), ground (arith, h))
quiet_step d s stop h = (refl, sym (append-nil s.tmp_records))

due_packet-whole :
    (s : DnsPacketReader) (u : Unpacked) (b : DnsRecord) (bs : List DnsRecord)
    → due_packet s u ≡ b ∷ bs
    → b ∷ bs ≡ s.tmp_records ++ of_packet u
unfolding due_packet
due_packet-whole s (failed e) b bs h = cc
due_packet-whole s (unpacked r) b bs h =
    elim (Bool-cases (ltb (length (s.tmp_records ++ r ∷ [])) s.max_read)) [
      | inl few ↦ absurd (ground arith)
      | inr full ↦ ground arith
    ]

-- A batch that is due is all that is held, with the record of the round.
due-whole :
    (d : Decoder) (s : DnsPacketReader) (e : Event) (b : DnsRecord) (bs : List DnsRecord)
    → due d s e ≡ b ∷ bs
    → b ∷ bs ≡ s.tmp_records ++ of_event d e
unfolding due
due-whole d s (packet p) b bs h =
    due_packet-whole s (unpack d p) b bs h
    ∙ ap (◌++◌ s.tmp_records) (sym (append-nil (of_packet (unpack d p))))
due-whole d s no_packets b bs h = cc
due-whole d s tick b bs h = sym h ∙ sym (append-nil s.tmp_records)
due-whole d s stop b bs h = cc

abbrev is_open : Phase → Bool
is_open serving = true
is_open handle_closed = true
is_open signalled = true
is_open records_closed = false
is_open stop_closed = false
is_open shut = false

-- What was unpacked is what was sent, then what `Shutdown` dropped, then what is held; nothing is
-- dropped while the channel is open; and where the process is down, the channel is closed, and a
-- batch is held.
pub record IsCounted (c : Capture) : Type 0 where
  pub whole : concat c.reader.records ++ (c.dropped ++ c.reader.tmp_records) ≡ c.unpacked_so_far
  pub open_first : c.closed ≡ not (is_open c.phase)
  pub kept : c.closed ≡ false → c.dropped ≡ []
  pub down : c.up ≡ false → (c.closed ≡ true) × (0 < length c.reader.tmp_records)

-- More that is held counts as more that was unpacked.
more_held :
    (c : Capture) (more tmp : List DnsRecord)
    → IsCounted c
    → tmp ≡ c.reader.tmp_records ++ more
    → concat c.reader.records ++ (c.dropped ++ tmp) ≡ c.unpacked_so_far ++ more
more_held c more tmp k h =
    ap (λ t. concat c.reader.records ++ (c.dropped ++ t)) h
    ∙ ap (◌++◌ (concat c.reader.records)) (sym (append_assoc c.dropped c.reader.tmp_records more))
    ∙ sym (append_assoc (concat c.reader.records) (c.dropped ++ c.reader.tmp_records) more)
    ∙ ap (λ t. t ++ more) k.whole

receives-IsCounted :
    (d : Decoder) (c : Capture) (e : Event)
    → IsCounted c
    → c.up ≡ true
    → (c.closed ≡ true → due d c.reader e ≡ [])
    → IsCounted (record c {
      reader = (step d c.reader e).0;
      looping = (step d c.reader e).1;
      unpacked_so_far = c.unpacked_so_far ++ of_event d e;
    })
receives-IsCounted d c e k up quiet = record {
  whole = elim (Bool-cases c.closed) [
    | inl closed ↦
        let q = quiet_step d c.reader e (quiet closed) in
        rw q.0 (more_held c (of_event d e) _ k q.1)
    | inr open_still ↦
        let nothing = k.kept open_still in
        let before : taken c.reader ≡ c.unpacked_so_far =
          ap (λ l. concat c.reader.records ++ (l ++ c.reader.tmp_records)) (sym nothing)
          ∙ k.whole in
        rw nothing (taken-step d c.reader e ∙ ap (λ t. t ++ of_event d e) before)
  ];
  open_first = k.open_first;
  kept = k.kept;
  down = λ h. absurd (ground arith);
}

Step-IsCounted : {d : Decoder} {c u : Capture} → CaptureStep d c u → IsCounted c → IsCounted u
unfolding save_panics save_batch
Step-IsCounted {d} {c} (receives e up looping quiet) k = receives-IsCounted d c e k up quiet
Step-IsCounted {d} {c} (panics e b bs up looping closed sending) k = record {
  whole = more_held c (of_event d e) (b ∷ bs) k (due-whole d c.reader e b bs sending);
  open_first = k.open_first;
  kept = k.kept;
  down = λ h. (closed, omega arith);
}
Step-IsCounted (closes_handle up at) k = record {
  whole = k.whole;
  open_first = ground (arith, k.open_first);
  kept = k.kept;
  down = k.down;
}
Step-IsCounted (signals up at) k = record {
  whole = k.whole;
  open_first = ground (arith, k.open_first);
  kept = k.kept;
  down = k.down;
}
Step-IsCounted (closes_records up at) k = record {
  whole = k.whole;
  open_first = refl;
  kept = λ h. cc;
  down = λ h. absurd (ground arith);
}
Step-IsCounted (closes_stop up at) k = record {
  whole = k.whole;
  open_first = ground (arith, k.open_first);
  kept = k.kept;
  down = k.down;
}
Step-IsCounted {d} {c} (clears up at) k = record {
  whole =
      ap (◌++◌ (concat c.reader.records)) (append-nil (c.dropped ++ c.reader.tmp_records))
      ∙ k.whole;
  open_first = ground (arith, k.open_first);
  kept = λ h. absurd (ground (arith, k.open_first));
  down = λ h. absurd (ground arith);
}

-- However the loop's rounds and the calls of `Shutdown` follow one another: the records that were
-- unpacked are, each once and in order, those that were sent, those that `Shutdown` dropped, and
-- those that are held; none is dropped while the channel of batches is open; and if the process
-- is down, that is because a batch was due after `Shutdown` had closed that channel.
pub CaptureRun-IsCounted :
    {d : Decoder} {c u : Capture} → CaptureRun d c u → IsCounted c → IsCounted u
CaptureRun-IsCounted at_rest k = k
CaptureRun-IsCounted (and_then r s) k = Step-IsCounted s (CaptureRun-IsCounted r k)
