-- ===== src/Scheduler/Wired/Topics.antt =====
-- Who consumes what after a start of cmd/wineventtail/schduler.go.
use windns_logtail.Base.{
  Text, text_eq, ℕ, Bool, true, false, Option, none, some, List, [], ◌∷◌, ◌≡◌, refl, arith, map,
  keep, ap, ◌∙◌, Bool-cases, inl, inr, take-all, length, leb→le,
}
use windns_logtail.Base.Dict.{lookup}
use windns_logtail.Checkpoint.Point.{Checkpoint}
use windns_logtail.Config.{Config, loaded}
use windns_logtail.Consumer.Manager.{Manager, new_manager, start as start_consumers}
use windns_logtail.Consumer.Manager.Topics.{
  Added, consumes_of, added_for, consumes_of-add_all, events_of, first_events, events_of-add_all,
}
use windns_logtail.Logger.{Logger}
use windns_logtail.Scheduler.Sinks.{Sink, sink_kind}
use windns_logtail.Scheduler.Start.{StartOs, Scheduler, start_with, run_all, start, set_up, empty}
use windns_logtail.Scheduler.Wired.{configured, job, job_of, Wire, wires_of, wire, target}
use windns_logtail.Scheduler.Wired.Start.{set_up-HasAll}

-- The consumers wanted for a topic.
abbrev pub for_topic : Text → List Wire → List Wire
for_topic t = keep (λ w. text_eq t w.topic)

abbrev pub first_channel : List Wire → Option ℕ
first_channel [] = none
first_channel (w ∷ ws) = some w.channel

module _ {R : Type 0} (handle : Sink → List R → Option Sink) where
  added_for-wires :
      (t : Text) (calls : List (Added (sink_kind handle)))
      → map target (added_for (sink_kind handle) t calls)
        ≡ map (λ (w : Wire). w.to) (for_topic t (map (wire handle) calls))
  added_for-wires t [] = refl
  added_for-wires t (a ∷ calls) = elim (Bool-cases (text_eq t a.topic)) [
    | inl same ↦ rw same (ap (◌∷◌ (target a.consumer)) (added_for-wires t calls))
    | inr other ↦ rw other (added_for-wires t calls)
  ]

  first_events-wires :
      (t : Text) (calls : List (Added (sink_kind handle)))
      → first_events (sink_kind handle) t calls
        ≡ first_channel (for_topic t (map (wire handle) calls))
  first_events-wires t [] = refl
  first_events-wires t (a ∷ calls) = elim (Bool-cases (text_eq t a.topic)) [
    | inl same ↦ rw same refl
    | inr other ↦ rw other (first_events-wires t calls)
  ]

  all_taken :
      (taken : Option ℕ) (m : Manager (sink_kind handle))
      → (start_consumers (sink_kind handle) taken m).1 ≡ true
      → (start_consumers (sink_kind handle) taken m).0 ≡ m.consumers
  unfolding start_consumers
  all_taken none m h = refl
  all_taken (some n) m h = take-all n m.consumers (leb→le (length m.consumers) n h)

  started :
      (os : StartOs) (r : Scheduler handle × Bool)
      → (run_all handle os r).done ≡ true
      → (s : Scheduler handle) × (r ≡ (s, true))
        × ((run_all handle os r).scheduler ≡ some s)
        × ((run_all handle os r).topics ≡ s.sinks.manager.consumers)
  unfolding run_all
  started os (s, false) h = cc
  started os (s, true) h =
      (s, refl, ground arith, ground (arith, all_taken os.taken s.sinks.manager))

  -- If `Start` returns no error, then, with the sources of the configuration numbered from 0 in the
  -- order of `Start`: there is just one reader for each, in their order, with its job, and for
  -- each topic a loop runs whose consumers are, in order, those that the sources of that path
  -- enable; all of them take the batches of the first such source's reader, so that those of
  -- a later source of the same path go to no one.
  pub start-wires :
      (os : StartOs) (c : Config) (l : Logger) (rc sc : Checkpoint)
      → (start handle os (loaded c l) (some rc) (some sc)).done ≡ true
      → let r = start handle os (loaded c l) (some rc) (some sc) in
        let ws = wires_of os.sinks 0 (configured c) in
        (s : Scheduler handle) × (r.scheduler ≡ some s)
        × (map job s.readers ≡ map (job_of os.parse_filter) (configured c))
        × ((t : Text)
            → (map target (consumes_of (sink_kind handle) (lookup t r.topics))
                ≡ map (λ (w : Wire). w.to) (for_topic t ws))
              × (events_of (sink_kind handle) (lookup t r.topics) ≡ first_channel (for_topic t ws)))
  unfolding start start_with lookup
  start-wires os c l rc sc h =
      let k = sink_kind handle in
      let (s, ok, at, topics) = started os (set_up handle os c (empty handle rc sc)) h in
      let all = set_up-HasAll handle os c (empty handle rc sc) s ok in
      let calls = all.wired.calls in
      let m = new_manager k in
      let same = topics ∙ ap (λ (m : Manager k). m.consumers) all.wired.manager in
      (
        s,
        at,
        all.jobs,
        λ t. (
          ap (λ d. map target (consumes_of k (lookup t d))) same
              ∙ ap (map target) (consumes_of-add_all k t calls m)
              ∙ added_for-wires t calls
              ∙ ap (λ ws. map (λ (w : Wire). w.to) (for_topic t ws)) all.wired.wires,
          ap (λ d. events_of k (lookup t d)) same
              ∙ events_of-add_all k t calls m
              ∙ first_events-wires t calls
              ∙ ap (λ ws. first_channel (for_topic t ws)) all.wired.wires,
        ),
      )
