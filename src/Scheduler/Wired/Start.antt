-- ===== src/Scheduler/Wired/Start.antt =====
-- `Start` of cmd/wineventtail/schduler.go, when it returns no error.
use windns_logtail.Base.{
  Option, pos, ℕ, suc, ◌+◌, Bool, true, false, some, List, [], ◌∷◌, ◌++◌, ◌≡◌, refl, arith, map,
  concat, length, ap, sym, ◌∙◌, subst, append_assoc, append-nil, length-append, Text,
}
use mathlib.Core.List.{map-append}
use windns_logtail.Config.{Entry, DnsPacket, Config}
use windns_logtail.Scheduler.Calls.{and_then, and_then-true, for_each}
use windns_logtail.Scheduler.Point.{state_for}
use windns_logtail.Scheduler.Sinks.{Sink, Sinks, hook_consumer}
use windns_logtail.Scheduler.Sources.{new_dns_packet_reader, made}
use windns_logtail.Scheduler.Start.{
  StartOs, Scheduler, hook, add_reader, add_made_reader, add_entry, add_device, add_dns_packet,
  set_up, device_entry,
}
use windns_logtail.Scheduler.Wired.{
  Configured, analytical, audit, packets, configured, job, job_of, wires_of, entry_of, devices,
  sys_log_wires, ftp_wires,
}
use windns_logtail.Scheduler.Wired.Readers.{
  HasNew, made_reader-HasNew, add_reader-HasNew_analytical, add_reader-HasNew_audit,
}
use windns_logtail.Scheduler.Wired.Hooked.{HasWires, no_wires, more_wires, hook_consumer-HasWires}

module _ {R : Type 0} (handle : Sink → List R → Option Sink) (os : StartOs) where
  -- From one state to the next, the sources `cs` were set up: each has its reader, and its
  -- consumers, which take that reader's channel.
  pub record HasAll (s s' : Scheduler handle) (cs : List Configured) : Type 0 where
    pub jobs : map job s'.readers ≡ map job s.readers ++ map (job_of os.parse_filter) cs
    pub count : length s'.readers ≡ length s.readers + length cs
    pub wired :
        HasWires handle s.sinks.manager s'.sinks.manager (wires_of os.sinks (length s.readers) cs)

  nothing-HasAll : (s : Scheduler handle) → HasAll s s []
  nothing-HasAll s = record {
    jobs = sym (append-nil _);
    count = omega arith;
    wired = no_wires handle s.sinks.manager;
  }

  wires_of-append :
      (i : ℕ) (cs ds : List Configured)
      → wires_of os.sinks i (cs ++ ds)
        ≡ wires_of os.sinks i cs ++ wires_of os.sinks (i + length cs) ds
  wires_of-append i [] ds = let e : i + 0 ≡ i = omega arith in rw e
  wires_of-append i (c ∷ cs) ds =
      let e : i + suc (length cs) ≡ suc i + length cs = omega arith in
      rw e (
        ap (◌++◌ _) (wires_of-append (suc i) cs ds)
        ∙ sym (append_assoc _ (wires_of os.sinks (suc i) cs) _))

  HasAll-append :
      (s t u : Scheduler handle) (cs ds : List Configured)
      → HasAll s t cs
      → HasAll t u ds
      → HasAll s u (cs ++ ds)
  HasAll-append s t u cs ds h k = record {
    jobs =
        k.jobs
        ∙ ap (λ l. l ++ map (job_of os.parse_filter) ds) h.jobs
        ∙ append_assoc (map job s.readers) _ _
        ∙ ap (◌++◌ (map job s.readers)) (sym (map-append (job_of os.parse_filter) cs ds));
    count = omega (arith, length-append {0} cs ds, h.count, k.count);
    wired =
        subst (HasWires handle s.sinks.manager u.sinks.manager)
          (ap (λ n. wires_of os.sinks (length s.readers) cs ++ wires_of os.sinks n ds) h.count
            ∙ sym (wires_of-append (length s.readers) cs ds))
          (more_wires handle s.sinks.manager t.sinks.manager u.sinks.manager _ _ h.wired k.wired);
  }

  for_each-HasAll :
      {A : Type 0} (body : A → Scheduler handle → Scheduler handle × Bool)
      (sources : A → List Configured)
      → ((x : A) (s s' : Scheduler handle) → body x s ≡ (s', true) → HasAll s s' (sources x))
      → (xs : List A) (s s' : Scheduler handle) → for_each body xs s ≡ (s', true)
      → HasAll s s' (concat (map sources xs))
  unfolding for_each
  for_each-HasAll body sources one [] s s' h =
      let same : s ≡ s' = ground arith in subst (λ t. HasAll s t []) same (nothing-HasAll s)
  for_each-HasAll body sources one (x ∷ xs) s s' h =
      let (t, first, rest) = and_then-true (body x s) (λ t. for_each body xs t) s' h in
      HasAll-append s t s' (sources x) (concat (map sources xs)) (one x s t first)
        (for_each-HasAll body sources one xs t s' rest)

  -- A reader, then its consumers.
  source-HasAll :
      (s t u : Scheduler handle) (c : Configured)
      → HasNew handle os s t (job_of os.parse_filter c)
      → hook handle os (entry_of c) (length s.readers) t ≡ (u, true)
      → HasAll s u (c ∷ [])
  unfolding hook
  source-HasAll s t u c n h =
      let e = entry_of c in
      let same : u.readers ≡ s.readers ++ n.reader ∷ [] = ground (arith, n.readers) in
      let done : hook_consumer handle os.sinks e (length s.readers) t.sinks ≡ (u.sinks, true) =
        ground arith in
      let w = hook_consumer-HasWires handle os.sinks e (length s.readers) t.sinks u.sinks done in
      record {
        jobs =
            ap (map job) same
            ∙ map-append job s.readers (n.reader ∷ [])
            ∙ ap (λ j. map job s.readers ++ j ∷ []) n.does;
        count = ap length same ∙ length-append s.readers (n.reader ∷ []);
        wired =
            subst (λ l. HasWires handle s.sinks.manager u.sinks.manager l) (sym (append-nil _))
              (subst
                (λ (x : Sinks handle). HasWires handle x.manager u.sinks.manager (
                  sys_log_wires os.sinks (length s.readers) e
                  ++ ftp_wires os.sinks (length s.readers) e))
                n.sinks w);
      }

  analytical-HasAll :
      (e : Entry) (s u : Scheduler handle)
      → add_entry handle os true e s ≡ (u, true)
      → HasAll s u (analytical e ∷ [])
  unfolding add_entry
  analytical-HasAll e s u h =
      let (t, added, hooked) =
        and_then-true (add_reader handle os true e s) (λ t. hook handle os e (length s.readers) t) u
          h in
      source-HasAll s t u (analytical e) (add_reader-HasNew_analytical handle os e s t added) hooked

  audit-HasAll :
      (e : Entry) (s u : Scheduler handle)
      → add_entry handle os false e s ≡ (u, true)
      → HasAll s u (audit e ∷ [])
  unfolding add_entry
  audit-HasAll e s u h =
      let (t, added, hooked) =
        and_then-true (add_reader handle os false e s) (λ t. hook handle os e (length s.readers) t)
          u h in
      source-HasAll s t u (audit e) (add_reader-HasNew_audit handle os e s t added) hooked

  device-HasAll :
      (p : DnsPacket) (name : Text) (s u : Scheduler handle)
      → add_device handle os p name s ≡ (u, true)
      → HasAll s u (packets p name ∷ [])
  unfolding add_device new_dns_packet_reader made
  device-HasAll p name s u h =
      let e = device_entry p name in
      let st = state_for os.times e.path s.point in
      let s' : Scheduler handle = record s { point = st.1 } in
      let r = new_dns_packet_reader name (map os.parse_filter p.filter_ips) st.0 in
      let (t, added, hooked) =
        and_then-true (add_made_reader handle os (pos 1000) (pos 1) s' (some r))
          (λ t. hook handle os e (length s.readers) t) u h in
      let n = made_reader-HasNew handle os (pos 1000) (pos 1) s' t r added in
      source-HasAll s t u (packets p name)
        (record { reader = n.reader; readers = n.readers; does = n.does; sinks = n.sinks }) hooked

  concat_each :
      {A : Type 0} (f : A → Configured) (xs : List A) → concat (map (λ x. f x ∷ []) xs) ≡ map f xs
  concat_each f [] = refl
  concat_each f (x ∷ xs) = ap (◌∷◌ (f x)) (concat_each f xs)

  packet-HasAll :
      (p : DnsPacket) (s u : Scheduler handle)
      → add_dns_packet handle os p s ≡ (u, true)
      → HasAll s u (devices p)
  unfolding add_dns_packet
  packet-HasAll p s u h =
      subst (λ l. HasAll s u l) (concat_each (packets p) p.device_name)
        (for_each-HasAll (add_device handle os p) (λ name. packets p name ∷ []) (device-HasAll p)
          p.device_name s u h)

  -- The loops of `Start`.
  pub set_up-HasAll :
      (c : Config) (s u : Scheduler handle)
      → set_up handle os c s ≡ (u, true)
      → HasAll s u (configured c)
  unfolding set_up
  set_up-HasAll c s u h =
      let analytics = for_each (add_entry handle os true) c.analytical_entries s in
      let audits = for_each (add_entry handle os false) c.audit_entries in
      let (t, entries, rest) =
        and_then-true (and_then analytics audits)
          (λ t. for_each (add_dns_packet handle os) c.dns_packets t) u h in
      let (m, first, second) = and_then-true analytics audits t entries in
      HasAll-append s t u _ _
        (HasAll-append s m t _ _
          (subst (λ l. HasAll s m l) (concat_each analytical c.analytical_entries)
            (for_each-HasAll (add_entry handle os true) (λ e. analytical e ∷ []) analytical-HasAll
              c.analytical_entries s m first))
          (subst (λ l. HasAll m t l) (concat_each audit c.audit_entries)
            (for_each-HasAll (add_entry handle os false) (λ e. audit e ∷ []) audit-HasAll
              c.audit_entries m t second)))
        (for_each-HasAll (add_dns_packet handle os) devices packet-HasAll c.dns_packets t u rest)
