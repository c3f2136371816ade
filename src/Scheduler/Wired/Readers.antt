-- ===== src/Scheduler/Wired/Readers.antt =====
-- `addReader` of cmd/wineventtail/schduler.go, when it returns no error.
use windns_logtail.Base.{
  Text, ℤ, pos, true, false, Option, none, some, List, [], ◌∷◌, ◌++◌, ◌≡◌, refl, arith, subst, ap,
  unix,
}
use windns_logtail.Scheduler.Point.{state_for}
use windns_logtail.Scheduler.Sinks.{Sink}
use windns_logtail.Scheduler.Sources.{
  Reader, Source, trace, options_of, ReaderOs, set_cron, every, made, new_etl_worker, at_least_one,
  new_channel_reader,
}
use windns_logtail.Checkpoint.State.{EventLogState}
use windns_logtail.Config.{Entry}
use windns_logtail.Scheduler.Start.{StartOs, Scheduler, add_made_reader, add_reader}
use windns_logtail.Scheduler.Wired.{Job, job, scope, job_of, analytical, audit}
use windns_logtail.Reader.Manager.{add_reader as add_to_manager, set_up, scheduled, append_if}

module _ {R : Type 0} (handle : Sink → List R → Option Sink) (os : StartOs) where
  -- A reader with job `j` has come to the end, and the consumers are what they were.
  pub record HasNew (s s' : Scheduler handle) (j : Job) : Type 0 where
    pub reader : Reader
    pub readers : s'.readers ≡ s.readers ++ reader ∷ []
    pub does : job reader ≡ j
    pub sinks : s'.sinks ≡ s.sinks

  -- A reader that is made.
  pub made_reader-HasNew :
      (max_read internal : ℤ) (s s' : Scheduler handle) (r : Reader)
      → add_made_reader handle os max_read internal s (some r) ≡ (s', true)
      → HasNew s s'
          (record { scope = scope r.source; max_read = max_read; schedule = some (every internal) })
  unfolding add_made_reader add_to_manager set_up scheduled append_if set_cron
  made_reader-HasNew max_read internal s s' r h = record {
    reader = record r { max_read = max_read; schedule = some (every internal) };
    readers = ground arith;
    does = refl;
    sinks = ground arith;
  }

  etl_worker-made :
      (readers : ReaderOs) (path : Text) (threads : ℤ) (st : EventLogState) (r : Reader)
      → new_etl_worker readers path threads st ≡ some r
      → r ≡ made (trace path (at_least_one threads)) st
  unfolding new_etl_worker
  etl_worker-made readers path threads st r h = ground arith

  maybe_made-HasNew :
      (max_read internal : ℤ) (s s' : Scheduler handle) (o : Option Reader) (source : Source)
      → ((r : Reader) → o ≡ some r → r.source ≡ source)
      → add_made_reader handle os max_read internal s o ≡ (s', true)
      → HasNew s s'
          (record { scope = scope source; max_read = max_read; schedule = some (every internal) })
  unfolding add_made_reader
  maybe_made-HasNew max_read internal s s' (some r) source from h =
      subst
        (λ x.
          HasNew s s'
            (record { scope = scope x; max_read = max_read; schedule = some (every internal) }))
        (from r refl) (made_reader-HasNew max_read internal s s' r h)
  maybe_made-HasNew max_read internal s s' none source from h = cc

  -- `addReader` for an analytical entry.
  pub add_reader-HasNew_analytical :
      (e : Entry) (s s' : Scheduler handle)
      → add_reader handle os true e s ≡ (s', true)
      → HasNew s s' (job_of os.parse_filter (analytical e))
  unfolding add_reader made
  add_reader-HasNew_analytical e s s' h =
      let st = state_for os.times e.path s.point in
      let n =
        maybe_made-HasNew (pos 10000) e.internal (record s { point = st.1 }) s'
          (new_etl_worker os.readers e.path e.transfer_threads st.0)
          (trace e.path (at_least_one e.transfer_threads))
          (λ r same.
            ap (λ (x : Reader). x.source)
              (etl_worker-made os.readers e.path e.transfer_threads st.0 r same))
          h in
      record { reader = n.reader; readers = n.readers; does = n.does; sinks = n.sinks }

  -- `addReader` for an audit entry.
  pub add_reader-HasNew_audit :
      (e : Entry) (s s' : Scheduler handle)
      → add_reader handle os false e s ≡ (s', true)
      → HasNew s s' (job_of os.parse_filter (audit e))
  unfolding add_reader new_channel_reader made
  add_reader-HasNew_audit e s s' h =
      let st = state_for os.times e.path s.point in
      let n =
        made_reader-HasNew (pos 1000) e.internal (record s { point = st.1 }) s'
          (new_channel_reader e.path (unix st.0.timestamp) st.0 (options_of e)) h in
      record { reader = n.reader; readers = n.readers; does = n.does; sinks = n.sinks }
