-- ===== src/Scheduler/Resumed/Hook.antt =====
-- `hookConsumer` of cmd/wineventtail/schduler.go, error or not, on saved states.
use windns_logtail.Base.{
  Text, lit, ℕ, Option, none, some, List, ◌++◌, ◌≡◌, refl, All, Bool-cases, inl, inr, Option-cases,
}
use windns_logtail.Base.Dict.{Dict, lookup}
use windns_logtail.Checkpoint.State.{EventLogState}
use windns_logtail.Config.{Entry}
use windns_logtail.Scheduler.Address.{sys_log_addr, ftp_addr}
use windns_logtail.Scheduler.Calls.{and_then-keeps}
use windns_logtail.Scheduler.Point.{state_for}
use windns_logtail.Scheduler.Resumed.{IsFresh, state_for-IsFresh}
use windns_logtail.Scheduler.Sinks.{
  Sink, Sinks, add_made, as_sys_log, as_ftp, new_sys_log_consumer, new_ftp_consumer, with_max_size,
  hook_sys_log, hook_ftp, hook_consumer,
}
use windns_logtail.Scheduler.Sources.{Source, trace, events, device, Reader}
use windns_logtail.Scheduler.Start.{StartOs, Scheduler, hook}

-- The name of the state of a source.
abbrev pub state_name : Source → Text
state_name (trace log_path n) = log_path
state_name (events name last_time options) = name
state_name (device name ips) = lit "DNSLog" ++ name

-- A reader whose state, if it was saved, is the saved one.
abbrev pub Continues : Dict EventLogState → Reader → Type 0
Continues found r =
    (st : EventLogState) → lookup (state_name r.source) found ≡ some st → r.state ≡ st

module _ {R : Type 0} (handle : Sink → List R → Option Sink) (os : StartOs) where
  pub record Resumes (found there : Dict EventLogState) (s : Scheduler handle) : Type 0 where
    pub point : IsFresh found s.point
    pub sinks : IsFresh there s.sinks.point
    pub readers : All (Continues found) s.readers

  add_made-point :
      (topic : Text) (i : ℕ) (s : Sinks handle) (o : Option Sink)
      → (add_made handle topic i s o).0.point ≡ s.point
  unfolding add_made
  add_made-point topic i s none = refl
  add_made-point topic i s (some k) = refl

  hook_sys_log-IsFresh :
      {there : Dict EventLogState} (e : Entry) (i : ℕ) (s : Sinks handle)
      → IsFresh there s.point
      → IsFresh there (hook_sys_log handle os.sinks e i s).0.point
  unfolding hook_sys_log
  hook_sys_log-IsFresh {there} e i s f =
      let r = state_for os.sinks.times e.path s.point in
      let next : IsFresh there r.1 = state_for-IsFresh os.sinks.times e.path s.point f in
      elim (Bool-cases e.sys_log.enable) [
        | inr off ↦ rw (off, hook_sys_log) f
        | inl on ↦
            elim (Option-cases
              (sys_log_addr os.sinks.parse_ip e.sys_log.remote_addr e.sys_log.remote_port)) [
                | inl bad ↦ rw (on, hook_sys_log, bad) next
                | inr (addr, good) ↦
                    rw (on, hook_sys_log, good)
                      (rw
                        (add_made-point e.path i (record s { point = r.1 })
                          (as_sys_log handle (
                            new_sys_log_consumer os.sinks e.path addr e.sys_log.network e.log_format
                              r.0)))
                        next)
              ]
      ]

  hook_ftp-point :
      (e : Entry) (i : ℕ) (s : Sinks handle) → (hook_ftp handle os.sinks e i s).0.point ≡ s.point
  unfolding hook_ftp
  hook_ftp-point e i s = elim (Bool-cases e.ftp.enable) [
    | inr off ↦ rw (off, hook_ftp) refl
    | inl on ↦
        elim (Option-cases (ftp_addr os.sinks.parse_ip e.ftp.remote_addr e.ftp.remote_port)) [
          | inl bad ↦ rw (on, hook_ftp, bad) refl
          | inr (addr, good) ↦
              rw (on, hook_ftp, good)
                (add_made-point e.path i s (
                  as_ftp handle
                    (new_ftp_consumer os.sinks e.path addr e.log_format (with_max_size e.ftp))))
        ]
  ]

  pub hook-Resumes :
      {found there : Dict EventLogState} (e : Entry) (i : ℕ) (s : Scheduler handle)
      → Resumes found there s
      → Resumes found there (hook handle os e i s).0
  unfolding hook hook_consumer
  hook-Resumes {found} {there} e i s h = record {
    point = h.point;
    sinks =
        and_then-keeps (λ (t : Sinks handle). IsFresh there t.point)
          (hook_sys_log handle os.sinks e i s.sinks) (λ t. hook_ftp handle os.sinks e i t)
          (hook_sys_log-IsFresh e i s.sinks h.sinks) (λ t f. rw (hook_ftp-point e i t) f);
    readers = h.readers;
  }
