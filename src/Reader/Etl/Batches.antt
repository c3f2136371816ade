-- ===== src/Reader/Etl/Batches.antt =====
-- reader/etl_reader.go: `scanXML` ends, and its batches are the new events, whole and in order.
use windns_logtail.Base.{
  Text, ℕ, zero, suc, ◌-◌, ◌<◌, ◌≤◌, dec_lt, List, [], ◌∷◌, ◌++◌, ◌≡◌, refl, sym, ap, ◌∙◌, map,
  last, length, drop, concat, All, arith, append_assoc, append-nil, drop-all, concat-append,
}
use windns_logtail.Chunk.{NextChunk, next_chunk, returned}
use windns_logtail.Checkpoint.State.{EventLogState}
use windns_logtail.Eventlog.Win.{EventKind, WinRecord}
use windns_logtail.Reader.Etl.Scan.{
  Events, Scan, add_new, position, emit, emit_loop, emit_all, cleared, scan_events,
}

module _ (E : EventKind) (digest : WinRecord E.Event → Text) where
  open E use {Event, system_time}

  -- A batch: its first record and the others.
  abbrev pub Batch : Type 0
  Batch = WinRecord Event × List (WinRecord Event)

  abbrev pub records_of : Batch → List (WinRecord Event)
  records_of b = b.0 ∷ b.1

  abbrev pub position_of : Text → Batch → EventLogState
  position_of log_path b = position E digest log_path (last b.0 b.1)

  abbrev pub end_state : Text → EventLogState → List Batch → EventLogState
  end_state log_path st [] = st
  end_state log_path st (b ∷ bs) = end_state log_path (position_of log_path b) bs

  -- The state after a list of records, one by one.
  abbrev state_after : Text → EventLogState → List (WinRecord Event) → EventLogState
  state_after log_path st [] = st
  state_after log_path st (r ∷ rs) = state_after log_path (position E digest log_path r) rs

  state_after-append :
      (log_path : Text) (st : EventLogState) (xs ys : List (WinRecord Event))
      → state_after log_path st (xs ++ ys) ≡ state_after log_path (state_after log_path st xs) ys
  state_after-append log_path st [] ys = refl
  state_after-append log_path st (x ∷ xs) ys =
      state_after-append log_path (position E digest log_path x) xs ys

  state_after-last :
      (log_path : Text) (st : EventLogState) (r : WinRecord Event) (rs : List (WinRecord Event))
      → state_after log_path st (r ∷ rs) ≡ position E digest log_path (last r rs)
  state_after-last log_path st r [] = refl
  state_after-last log_path st r (x ∷ rs) =
      state_after-last log_path (position E digest log_path r) x rs

  end_state-concat :
      (log_path : Text) (st : EventLogState) (bs : List Batch)
      → end_state log_path st bs ≡ state_after log_path st (concat (map records_of bs))
  end_state-concat log_path st [] = refl
  end_state-concat log_path st (b ∷ bs) =
      end_state-concat log_path (position_of log_path b) bs
      ∙ sym (
          state_after-append log_path st (records_of b) (concat (map records_of bs))
          ∙ ap (λ u. state_after log_path u (concat (map records_of bs)))
              (state_after-last log_path st b.0 b.1))

  -- However records are cut into batches, the state ends at the last of them.
  pub end_state-last :
      (log_path : Text) (st : EventLogState) (bs : List Batch) (r : WinRecord Event)
      (rs : List (WinRecord Event))
      → concat (map records_of bs) ≡ r ∷ rs
      → end_state log_path st bs ≡ position E digest log_path (last r rs)
  end_state-last log_path st bs r rs whole =
      end_state-concat log_path st bs
      ∙ ap (state_after log_path st) whole
      ∙ state_after-last log_path st r rs

  -- `v` is `s` after the records of `delta` have gone out in batches.
  pub record Emitted (s v : Scan Event) (delta : List (WinRecord Event)) : Type 0 where
    pub batches : List Batch
    pub records : v.records ≡ s.records ++ map records_of batches
    pub whole : concat (map records_of batches) ≡ delta
    pub short : All (λ b. length (records_of b) ≤ s.max_read) batches
    pub persisted : v.persisted ≡ s.persisted ++ map (position_of s.log_path) batches
    pub state : v.state ≡ end_state s.log_path s.state batches
    pub log_path : v.log_path ≡ s.log_path
    pub max_read : v.max_read ≡ s.max_read
    pub removed : v.removed ≡ s.removed

  map-records_of-nil : (bs : List Batch) → concat (map records_of bs) ≡ [] → bs ≡ []
  map-records_of-nil [] h = refl
  map-records_of-nil (b ∷ bs) h = cc

  -- Nothing to send leaves the batches and the state as they are.
  pub Emitted-unchanged :
      (s v : Scan Event) → Emitted s v [] → (v.records ≡ s.records) × (v.state ≡ s.state)
  Emitted-unchanged s v e =
      let none_sent = map-records_of-nil e.batches e.whole in
      (
        e.records ∙ rw none_sent (append-nil s.records),
        e.state ∙ ap (end_state s.log_path s.state) none_sent,
      )

  -- What has been sent grows by the records, whatever the batches.
  pub Emitted-concat :
      (s v : Scan Event) (delta : List (WinRecord Event))
      → Emitted s v delta
      → concat v.records ≡ concat s.records ++ delta
  Emitted-concat s v delta e =
      ap concat e.records
      ∙ concat-append s.records (map records_of e.batches)
      ∙ ap (◌++◌ (concat s.records)) e.whole

  Emitted-nil : (s : Scan Event) → Emitted s s []
  Emitted-nil s = record {
    batches = [];
    records = sym (append-nil s.records);
    whole = refl;
    short = tt;
    persisted = sym (append-nil s.persisted);
    state = refl;
    log_path = refl;
    max_read = refl;
    removed = refl;
  }

  Emitted-emit :
      (s v : Scan Event) (r : WinRecord Event) (rs rest : List (WinRecord Event))
      → length (r ∷ rs) ≤ s.max_read
      → Emitted (emit E digest s r rs) v rest
      → Emitted s v ((r ∷ rs) ++ rest)
  unfolding emit
  Emitted-emit s v r rs rest fits e = record {
    batches = (r, rs) ∷ e.batches;
    records = e.records ∙ append_assoc s.records ((r ∷ rs) ∷ []) (map records_of e.batches);
    whole = ap (◌++◌ (r ∷ rs)) e.whole;
    short = (fits, e.short);
    persisted =
        e.persisted
        ∙ append_assoc s.persisted (position_of s.log_path (r, rs) ∷ [])
            (map (position_of s.log_path) e.batches);
    state = e.state;
    log_path = e.log_path;
    max_read = e.max_read;
    removed = e.removed;
  }

  emit-max_read :
      (s : Scan Event) (r : WinRecord Event) (rs : List (WinRecord Event))
      → (emit E digest s r rs).max_read ≡ s.max_read
  unfolding emit
  emit-max_read s r rs = refl

  emit_loop-next :
      (fuel : ℕ) (s : Scan Event) (delta : List (WinRecord Event)) (start : ℕ)
      (c : NextChunk delta s.max_read start)
      → start < length delta
      → emit_loop E digest (suc fuel) s delta start
        ≡ emit_loop E digest fuel (emit E digest s c.first c.others) delta c.next
  unfolding emit_loop
  emit_loop-next fuel s delta start c more = ground (arith, c.reads)

  emit_loop-end :
      (fuel : ℕ) (s : Scan Event) (delta : List (WinRecord Event)) (start : ℕ)
      → length delta ≤ start
      → emit_loop E digest (suc fuel) s delta start ≡ returned s
  unfolding emit_loop
  emit_loop-end fuel s delta start h = ground arith

  emit_loop-Emitted :
      (fuel : ℕ) (s : Scan Event) (delta : List (WinRecord Event)) (start : ℕ)
      → 0 < s.max_read
      → length delta - start < fuel
      → (v : Scan Event) × (emit_loop E digest fuel s delta start ≡ returned v)
        × Emitted s v (drop start delta)
  emit_loop-Emitted zero s delta start pos_read enough = absurd (omega arith)
  emit_loop-Emitted (suc fuel) s delta start pos_read enough = elim (dec_lt start (length delta)) [
    | yes more ↦
        let c = next_chunk delta s.max_read start pos_read more in
        let s' = emit E digest s c.first c.others in
        let rest =
          emit_loop-Emitted fuel s' delta c.next (rw (emit-max_read s c.first c.others) pos_read)
            (omega (arith, c.later, c.within)) in
        (
          rest.0,
          emit_loop-next fuel s delta start c more ∙ rest.1,
          rw (← c.splits)
              (Emitted-emit s rest.0 c.first c.others (drop c.next delta) c.short rest.2),
        )
    | no end ↦
        rw (drop-all start delta (omega arith))
          (s, emit_loop-end fuel s delta start (omega arith), Emitted-nil s)
  ]

  -- `deltaEvents` is no part of it.
  Emitted-delta :
      (s v : Scan Event) (d e delta : List (WinRecord Event))
      → Emitted (record s { delta_events = d }) v delta
      → Emitted s (record v { delta_events = e }) delta
  Emitted-delta s v d e delta h = record {
    batches = h.batches;
    records = h.records;
    whole = h.whole;
    short = h.short;
    persisted = h.persisted;
    state = h.state;
    log_path = h.log_path;
    max_read = h.max_read;
    removed = h.removed;
  }

  emit_all-Emitted :
      (s : Scan Event) (delta : List (WinRecord Event))
      → 0 < s.max_read
      → s.delta_events ≡ delta
      → (v : Scan Event) × (emit_all E digest s delta ≡ returned v)
        × Emitted s v delta
        × (v.delta_events ≡ [])
  unfolding emit_all
  emit_all-Emitted s [] pos_read d = (s, refl, Emitted-nil s, d)
  emit_all-Emitted s (r ∷ rs) pos_read d =
      let done = emit_loop-Emitted (suc (length (r ∷ rs))) s (r ∷ rs) 0 pos_read (omega arith) in
      (
        record done.0 { delta_events = [] },
        ap (cleared E digest) done.1,
        Emitted-delta s done.0 s.delta_events [] (r ∷ rs) done.2,
        refl,
      )

  -- With a positive batch size `scanXML` neither hangs nor indexes out of range at any file: the
  -- new events of the file, stripped, leave in nonempty batches of at most `maxRead`, whole and
  -- in order; after each batch the state, which is also given to the checkpoint, is at its last
  -- record; the file is removed, and no event is held back.
  pub scan_events-Emitted :
      (s : Scan Event) (events : Events Event)
      → 0 < s.max_read
      → s.delta_events ≡ []
      → (v : Scan Event) × (scan_events E digest s events ≡ returned v)
        × Emitted
            (record s { removed = s.removed ++ events.id ∷ [] })
            v
            (add_new E digest s.state events.event_logs)
        × (v.delta_events ≡ [])
  unfolding scan_events
  scan_events-Emitted s events pos_read none_left =
      let new : List (WinRecord Event) = add_new E digest s.state events.event_logs in
      let all_new : s.delta_events ++ new ≡ new = ap (λ d. d ++ new) none_left in
      let s' : Scan Event = record s {
        delta_events = new;
        removed = s.removed ++ events.id ∷ [];
      } in
      let done = emit_all-Emitted s' new pos_read refl in
      (
        done.0,
        rw all_new done.1,
        Emitted-delta (record s { removed = s.removed ++ events.id ∷ [] }) done.0 new
            done.0.delta_events new done.2,
        done.3,
      )
