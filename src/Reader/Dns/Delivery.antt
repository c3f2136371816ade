-- ===== src/Reader/Dns/Delivery.antt =====
-- reader/dns_packet_reader.go: no record is lost or moved, the batches are bounded, and the stop
-- signal does nothing.
use windns_logtail.Base.{
  Text, ◌+◌, ◌≤◌, ◌<◌, ltb, ltb→lt, Bool, true, false, List, [], ◌∷◌, ◌++◌, ◌≡◌, refl, ap, ◌∙◌, sym,
  last, length, length-append, concat, concat-append, append_assoc, append-nil, All, All-append,
  arith, if◌then◌else◌, map, Bool-cases, inl, inr,
}
use mathlib.Core.List.{map-append}
use windns_logtail.Checkpoint.State.{EventLogState, zero_state}
use windns_logtail.Eventlog.Dns.{DnsRecord}
use windns_logtail.Reader.Dns.Packet.{Decoder, Unpacked, unpacked, failed, unpack}
use windns_logtail.Reader.Dns.Loop.{
  DnsPacketReader, Event, packet, no_packets, tick, stop, position, save_batch, save, take_packet,
  step, loop, run,
}

-- The records of the packets that unpack, up to the end of the packets.
abbrev pub of_packet : Unpacked → List DnsRecord
of_packet (unpacked r) = r ∷ []
of_packet (failed e) = []

abbrev pub heard : Decoder → List Event → List DnsRecord
heard d [] = []
heard d (packet p ∷ es) = of_packet (unpack d p) ++ heard d es
heard d (no_packets ∷ es) = []
heard d (tick ∷ es) = heard d es
heard d (stop ∷ es) = heard d es

-- All that a reader has taken in: what it sent, then what it still holds.
abbrev pub taken : DnsPacketReader → List DnsRecord
taken s = concat s.records ++ s.tmp_records

taken-save :
    (s : DnsPacketReader) (rs : List DnsRecord) → s.tmp_records ≡ rs → taken (save s rs) ≡ taken s
unfolding save
taken-save s [] e = refl
taken-save s (r ∷ rs) e = rw (concat-append s.records ((r ∷ rs) ∷ []), e) (simp append-nil)

taken-take_packet :
    (s : DnsPacketReader) (u : Unpacked) → taken (take_packet s u) ≡ taken s ++ of_packet u
unfolding take_packet
taken-take_packet s (failed e) = sym (append-nil (taken s))
taken-take_packet s (unpacked r) =
    let tmp : List DnsRecord = s.tmp_records ++ r ∷ [] in
    let grown : concat s.records ++ tmp ≡ taken s ++ r ∷ [] =
      sym (append_assoc (concat s.records) s.tmp_records (r ∷ [])) in
    elim (Bool-cases (ltb (length tmp) s.max_read)) [
      | inl few ↦ rw few grown
      | inr full ↦ rw full (taken-save (record s { tmp_records = tmp }) tmp refl ∙ grown)
    ]

pub taken-step :
    (d : Decoder) (s : DnsPacketReader) (e : Event)
    → taken (step d s e).0 ≡ taken s ++ heard d (e ∷ [])
unfolding step
taken-step d s (packet p) =
    taken-take_packet s (unpack d p)
    ∙ ap (◌++◌ (taken s)) (sym (append-nil (of_packet (unpack d p))))
taken-step d s no_packets = sym (append-nil (taken s))
taken-step d s tick = taken-save s s.tmp_records refl ∙ sym (append-nil (taken s))
taken-step d s stop = sym (append-nil (taken s))

-- Whatever packets, ticks and signals come, what the loop has sent, followed by what it still
-- holds, is what it had before followed by the records of the packets that unpack, in their order,
-- each once; a packet that does not unpack is dropped, and the loop ends when the packets end.
pub taken-loop :
    (d : Decoder) (s : DnsPacketReader) (es : List Event)
    → taken (loop d s es) ≡ taken s ++ heard d es
unfolding loop
taken-loop d s [] = sym (append-nil (taken s))
taken-loop d s (packet p ∷ es) =
    taken-loop d (step d s (packet p)).0 es
    ∙ rw (taken-take_packet s (unpack d p))
        (append_assoc (taken s) (of_packet (unpack d p)) (heard d es))
taken-loop d s (no_packets ∷ es) = sym (append-nil (taken s))
taken-loop d s (tick ∷ es) =
    taken-loop d (step d s tick).0 es ∙ ap (λ t. t ++ heard d es) (taken-save s s.tmp_records refl)
taken-loop d s (stop ∷ es) = taken-loop d s es

-- The events without the stop signals.
abbrev pub without_stops : List Event → List Event
without_stops [] = []
without_stops (packet p ∷ es) = packet p ∷ without_stops es
without_stops (no_packets ∷ es) = no_packets ∷ without_stops es
without_stops (tick ∷ es) = tick ∷ without_stops es
without_stops (stop ∷ es) = without_stops es

-- The stop signal that `Shutdown` sends has no effect on the loop: it works on as if the signal
-- had not come, wherever it comes, and only the end of the packets ends it.
pub loop_ignores_stop :
    (d : Decoder) (s : DnsPacketReader) (es : List Event)
    → loop d s es ≡ loop d s (without_stops es)
unfolding loop
loop_ignores_stop d s [] = refl
loop_ignores_stop d s (packet p ∷ es) = loop_ignores_stop d (step d s (packet p)).0 es
loop_ignores_stop d s (no_packets ∷ es) = refl
loop_ignores_stop d s (tick ∷ es) = loop_ignores_stop d (step d s tick).0 es
loop_ignores_stop d s (stop ∷ es) = loop_ignores_stop d s es

-- The state that goes with a batch.
abbrev pub end_position : Text → List DnsRecord → EventLogState
end_position device_name [] = zero_state
end_position device_name (r ∷ rs) = position device_name (last r rs)

-- Fewer records are held than make a batch, a batch is neither empty nor too long, and the
-- checkpoint was given the state at the end of each batch.
pub record IsRegular (s : DnsPacketReader) : Type 0 where
  pub held : length s.tmp_records < s.max_read
  pub batches : All (λ b. (0 < length b) × (length b ≤ s.max_read)) s.records
  pub followed : s.persisted ≡ map (end_position s.device_name) s.records

save_batch-IsRegular :
    (s : DnsPacketReader) (r : DnsRecord) (rs : List DnsRecord)
    → length (r ∷ rs) ≤ s.max_read
    → All (λ b. (0 < length b) × (length b ≤ s.max_read)) s.records
    → s.persisted ≡ map (end_position s.device_name) s.records
    → IsRegular (save_batch s r rs)
unfolding save_batch
save_batch-IsRegular s r rs fits batches followed = record {
  held = omega arith;
  batches = All-append _ s.records ((r ∷ rs) ∷ []) batches ((omega arith, fits), tt);
  followed =
      ap (λ t. t ++ position s.device_name (last r rs) ∷ []) followed
      ∙ sym (map-append (end_position s.device_name) s.records ((r ∷ rs) ∷ []));
}

save-IsRegular :
    (s : DnsPacketReader) (rs : List DnsRecord)
    → s.tmp_records ≡ rs
    → IsRegular s
    → IsRegular (save s rs)
unfolding save
save-IsRegular s [] e v = v
save-IsRegular s (r ∷ rs) e v =
    save_batch-IsRegular s r rs (omega (arith, ap length e, v.held)) v.batches v.followed

save_full :
    (s : DnsPacketReader) (rs : List DnsRecord)
    → 0 < length rs
    → length rs ≤ s.max_read
    → All (λ b. (0 < length b) × (length b ≤ s.max_read)) s.records
    → s.persisted ≡ map (end_position s.device_name) s.records
    → IsRegular (save s rs)
unfolding save
save_full s [] some_held fits batches followed = absurd (omega arith)
save_full s (r ∷ rs) some_held fits batches followed =
    save_batch-IsRegular s r rs fits batches followed

take_packet-IsRegular :
    (s : DnsPacketReader) (u : Unpacked) → IsRegular s → IsRegular (take_packet s u)
unfolding take_packet
take_packet-IsRegular s (failed e) v = v
take_packet-IsRegular s (unpacked r) v =
    let tmp : List DnsRecord = s.tmp_records ++ r ∷ [] in
    let grown : length tmp ≡ length s.tmp_records + 1 = length-append s.tmp_records (r ∷ []) in
    elim (Bool-cases (ltb (length tmp) s.max_read)) [
      | inl few ↦
          rw few (record { held = ltb→lt _ _ few; batches = v.batches; followed = v.followed })
      | inr full ↦ rw full (
          save_full (record s { tmp_records = tmp }) tmp (omega (arith, grown))
            (omega (arith, grown, v.held)) v.batches v.followed)
    ]

step-IsRegular :
    (d : Decoder) (s : DnsPacketReader) (e : Event) → IsRegular s → IsRegular (step d s e).0
unfolding step
step-IsRegular d s (packet p) v = take_packet-IsRegular s (unpack d p) v
step-IsRegular d s no_packets v = v
step-IsRegular d s tick v = save-IsRegular s s.tmp_records refl v
step-IsRegular d s stop v = v

loop-IsRegular :
    (d : Decoder) (s : DnsPacketReader) (es : List Event) → IsRegular s → IsRegular (loop d s es)
unfolding loop
loop-IsRegular d s [] v = v
loop-IsRegular d s (packet p ∷ es) v =
    loop-IsRegular d (step d s (packet p)).0 es (step-IsRegular d s (packet p) v)
loop-IsRegular d s (no_packets ∷ es) v = v
loop-IsRegular d s (tick ∷ es) v = loop-IsRegular d (step d s tick).0 es (step-IsRegular d s tick v)
loop-IsRegular d s (stop ∷ es) v = loop-IsRegular d s es v

either-IsRegular :
    (b : Bool) (s s' : DnsPacketReader)
    → IsRegular s
    → IsRegular s'
    → IsRegular (if b then s else s')
either-IsRegular true s s' v v' = v
either-IsRegular false s s' v v' = v'

-- Whatever comes, a run keeps it so that fewer records are held than make a batch, that no batch is
-- empty or longer than `maxRead`, and that the checkpoint was given, for each batch in turn, the
-- state of its last record, if this was so before the run.
pub run-IsRegular :
    (d : Decoder) (s : DnsPacketReader) (es : List Event) → IsRegular s → IsRegular (run d s es)
unfolding run
run-IsRegular d s es v =
    let started : IsRegular (record s { running = true }) = record {
      held = v.held;
      batches = v.batches;
      followed = v.followed;
    } in
    either-IsRegular s.running s _ v (loop-IsRegular d (record s { running = true }) es started)
