-- ===== src/Scheduler/Resumed/Start.antt =====
-- `Start` of cmd/wineventtail/schduler.go, error or not, on saved states.
use windns_logtail.Base.{
  Text, ℤ, pos, Bool, true, false, Option, none, some, List, [], ◌∷◌, ◌++◌, ◌≡◌, refl, arith, All,
  All-append, Bool-cases, ◌⊎◌, inl, inr, subst, sym, unix, length, map, some_inj,
}
use windns_logtail.Base.Dict.{Dict, lookup}
use windns_logtail.Checkpoint.State.{EventLogState}
use windns_logtail.Checkpoint.Point.{Checkpoint, load_states}
use windns_logtail.Config.{Entry, DnsPacket, Config, Load, loaded, no_file, no_yaml, exited}
use windns_logtail.Reader.Manager.{
  add_reader as add_to_manager, set_up as set_up_reader, scheduled, append_if,
}
use windns_logtail.Scheduler.Calls.{and_then-keeps, for_each-keeps}
use windns_logtail.Scheduler.Point.{Point, state_for}
use windns_logtail.Scheduler.Resumed.Hook.{state_name, Continues, Resumes, hook-Resumes}
use windns_logtail.Scheduler.Resumed.{IsFresh, state_for_saved, state_for-IsFresh, IsFresh-lookup}
use windns_logtail.Scheduler.Sinks.{Sink}
use windns_logtail.Scheduler.Sources.{
  Source, trace, events, device, Reader, source_kind, set_cron, made, new_etl_worker, at_least_one,
  new_channel_reader, new_dns_packet_reader, init_source, every, options_of,
}
use windns_logtail.Scheduler.Start.{
  StartOs, Scheduler, hook, add_reader, add_made_reader, add_entry, add_device, add_dns_packet,
  device_entry, set_up, run_all, start_with, start, empty,
}

module _ {R : Type 0} (handle : Sink → List R → Option Sink) (os : StartOs) where
  -- What `AddReader` leaves: the readers as they were, or the new one at the end.
  added_or_not :
      (max_read internal : ℤ) (r : Reader) (rs : List Reader)
      → ((add_to_manager (source_kind os.readers) r max_read internal rs).0 ≡ rs)
        ⊎ ((add_to_manager (source_kind os.readers) r max_read internal rs).0
            ≡ rs ++ record r { max_read = max_read; schedule = some (every internal) } ∷ [])
  unfolding add_to_manager set_up_reader scheduled append_if set_cron
  added_or_not max_read internal r rs = elim (Bool-cases (init_source os.readers r.source)) [
    | inr failed ↦ inl (ground arith)
    | inl ready ↦ elim (Bool-cases (os.readers.add_job (every internal))) [
      | inr failed ↦ inl (ground arith)
      | inl taken ↦ inr (ground arith)
    ]
  ]

  add_made_reader-Resumes :
      {found there : Dict EventLogState} (max_read internal : ℤ) (s : Scheduler handle)
      (o : Option Reader)
      → ((r : Reader) → o ≡ some r → Continues found r)
      → Resumes handle os found there s
      → Resumes handle os found there (add_made_reader handle os max_read internal s o).0
  unfolding add_made_reader
  add_made_reader-Resumes max_read internal s none continues h = h
  add_made_reader-Resumes {found} max_read internal s (some r) continues h = record {
    point = h.point;
    sinks = h.sinks;
    readers = elim (added_or_not max_read internal r s.readers) [
      | inl same ↦ rw same h.readers
      | inr more ↦ rw more (
          All-append (Continues found) s.readers _ h.readers
            ((λ st saved. continues r refl st saved), tt))
    ];
  }

  -- A reader made with the state that the checkpoint gives for its name.
  made-Continues :
      {found : Dict EventLogState} (name : Text) (p : Point) (source : Source)
      → IsFresh found p
      → state_name source ≡ name
      → Continues found (made source (state_for os.times name p).0)
  unfolding made
  made-Continues name p source f is st saved =
      state_for_saved os.times name p f st (rw (sym is) saved)

  worker-Continues :
      {found : Dict EventLogState} (e : Entry) (p : Point) (r : Reader)
      → IsFresh found p
      → new_etl_worker os.readers e.path e.transfer_threads (state_for os.times e.path p).0 ≡ some r
      → Continues found r
  unfolding new_etl_worker
  worker-Continues {found} e p r f h =
      let is : made (trace e.path (at_least_one e.transfer_threads)) (state_for os.times e.path p).0
          ≡ r =
        ground arith in
      subst (Continues found) is
        (made-Continues e.path p (trace e.path (at_least_one e.transfer_threads)) f refl)

  moved-Resumes :
      {found there : Dict EventLogState} (name : Text) (s : Scheduler handle)
      → Resumes handle os found there s
      → Resumes handle os found there (record s { point = (state_for os.times name s.point).1 })
  moved-Resumes name s h = record {
    point = state_for-IsFresh os.times name s.point h.point;
    sinks = h.sinks;
    readers = h.readers;
  }

  -- A reader that is made with that state, and added.
  made_reader-Resumes :
      {found there : Dict EventLogState} (max_read internal : ℤ) (name : Text) (source : Source)
      (s : Scheduler handle)
      → state_name source ≡ name
      → Resumes handle os found there s
      → let st = state_for os.times name s.point in
        Resumes handle os found there
          (add_made_reader handle os max_read internal
            (record s { point = st.1 })
            (some (made source st.0))).0
  made_reader-Resumes {found} max_read internal name source s is h =
      let st = state_for os.times name s.point in
      add_made_reader-Resumes max_read internal (record s { point = st.1 })
        (some (made source st.0))
        (λ r same.
          subst (Continues found) (some_inj same) (made-Continues name s.point source h.point is))
        (moved-Resumes name s h)

  add_reader-Resumes :
      {found there : Dict EventLogState} (is_etl : Bool) (e : Entry) (s : Scheduler handle)
      → Resumes handle os found there s
      → Resumes handle os found there (add_reader handle os is_etl e s).0
  unfolding add_reader new_channel_reader
  add_reader-Resumes true e s h =
      add_made_reader-Resumes (pos 10000) e.internal _ _
        (λ r is. worker-Continues e s.point r h.point is) (moved-Resumes e.path s h)
  add_reader-Resumes false e s h =
      made_reader-Resumes (pos 1000) e.internal e.path
        (events e.path (unix (state_for os.times e.path s.point).0.timestamp) (options_of e)) s refl
        h

  add_entry-Resumes :
      {found there : Dict EventLogState} (is_etl : Bool) (e : Entry) (s : Scheduler handle)
      → Resumes handle os found there s
      → Resumes handle os found there (add_entry handle os is_etl e s).0
  unfolding add_entry
  add_entry-Resumes {found} {there} is_etl e s h =
      and_then-keeps (Resumes handle os found there) (add_reader handle os is_etl e s)
        (λ t. hook handle os e (length s.readers) t) (add_reader-Resumes is_etl e s h)
        (hook-Resumes handle os e (length s.readers))

  add_device-Resumes :
      {found there : Dict EventLogState} (p : DnsPacket) (name : Text) (s : Scheduler handle)
      → Resumes handle os found there s
      → Resumes handle os found there (add_device handle os p name s).0
  unfolding add_device new_dns_packet_reader device_entry
  add_device-Resumes {found} {there} p name s h =
      let e = device_entry p name in
      let st = state_for os.times e.path s.point in
      let r = new_dns_packet_reader name (map os.parse_filter p.filter_ips) st.0 in
      let s' : Scheduler handle = record s { point = st.1 } in
      and_then-keeps (Resumes handle os found there)
        (add_made_reader handle os (pos 1000) (pos 1) s' (some r))
        (λ t. hook handle os e (length s.readers) t)
        (made_reader-Resumes (pos 1000) (pos 1) e.path
          (device name (map os.parse_filter p.filter_ips)) s refl h)
        (hook-Resumes handle os e (length s.readers))

  set_up-Resumes :
      {found there : Dict EventLogState} (c : Config) (s : Scheduler handle)
      → Resumes handle os found there s
      → Resumes handle os found there (set_up handle os c s).0
  unfolding set_up add_dns_packet
  set_up-Resumes {found} {there} c s h =
      let entries =
        λ (is_etl : Bool) (es : List Entry) (t : Scheduler handle)
            (k : Resumes handle os found there t).
          for_each-keeps (Resumes handle os found there) (add_entry handle os is_etl)
            (add_entry-Resumes is_etl) es t k in
      and_then-keeps (Resumes handle os found there) _ _
        (and_then-keeps (Resumes handle os found there) _ _ (entries true c.analytical_entries s h)
          (entries false c.audit_entries))
        (for_each-keeps (Resumes handle os found there) (add_dns_packet handle os)
          (λ p.
            for_each-keeps (Resumes handle os found there) (add_device handle os p)
              (add_device-Resumes p) p.device_name)
          c.dns_packets)

  left_lem :
      (r : Scheduler handle × Bool) (s : Scheduler handle)
      → (run_all handle os r).scheduler ≡ some s
      → r.0 ≡ s
  unfolding run_all
  left_lem (t, false) s h = ground arith
  left_lem (t, true) s h = ground arith

  -- Whatever calls fail, and however late the workers of the checkpoints file what they are given:
  -- where a start with two new checkpoints has managers at all, a reader whose state was saved
  -- goes on from that state, and once what it was given is filed, each of the two checkpoints has
  -- every state as it was saved.
  pub start_resumes :
      (load : Load) (rc sc : Checkpoint) (s : Scheduler handle)
      → (start handle os load (some rc) (some sc)).scheduler ≡ some s
      → All (Continues rc.states) s.readers
        × ((name : Text) (st : EventLogState)
            → lookup name rc.states ≡ some st
            → lookup name (load_states s.point.found s.point.given) ≡ some st)
        × ((name : Text) (st : EventLogState)
            → lookup name sc.states ≡ some st
            → lookup name (load_states s.sinks.point.found s.sinks.point.given) ≡ some st)
  unfolding start start_with run_all
  start_resumes no_file rc sc s h = cc
  start_resumes no_yaml rc sc s h = cc
  start_resumes exited rc sc s h = cc
  start_resumes (loaded c l) rc sc s h =
      let kept = set_up-Resumes c (empty handle rc sc) (record {
        point = record { same = refl; new = tt };
        sinks = record { same = refl; new = tt };
        readers = tt;
      }) in
      let r =
        subst (Resumes handle os rc.states sc.states)
          (left_lem (set_up handle os c (empty handle rc sc)) s h) kept in
      (
        r.readers,
        λ name st saved. IsFresh-lookup name st r.point saved,
        λ name st saved. IsFresh-lookup name st r.sinks saved,
      )
