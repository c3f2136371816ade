-- ===== src/Scheduler/Wired/Hooked.antt =====
-- `hookConsumer` of cmd/wineventtail/schduler.go, when it returns no error.
use windns_logtail.Base.{
  Text, ℕ, Bool, true, Option, none, some, List, [], ◌∷◌, ◌++◌, ◌≡◌, refl, arith, map,
  if◌then◌else◌, Bool-cases, inl, inr, Option-cases, ap, sym, ◌∙◌,
}
use mathlib.Core.List.{map-append}
use windns_logtail.Checkpoint.State.{EventLogState}
use windns_logtail.Config.{Entry}
use windns_logtail.Consumer.Manager.{Manager}
use windns_logtail.Consumer.Manager.Topics.{Added, add_all}
use windns_logtail.Scheduler.Address.{sys_log_addr, ftp_addr}
use windns_logtail.Scheduler.Calls.{and_then-true}
use windns_logtail.Scheduler.Point.{state_for}
use windns_logtail.Scheduler.Sinks.{
  Sink, SinkOs, Sinks, sink_kind, add_made, as_sys_log, as_ftp, new_sys_log_consumer,
  new_ftp_consumer, with_max_size, hook_sys_log, hook_ftp, hook_consumer,
}
use windns_logtail.Scheduler.Wired.{
  Wire, wire, target, sys_log_wires, ftp_wires, Target, to_sys_log, ftp_target,
}

module _ {R : Type 0} (handle : Sink → List R → Option Sink) where
  -- Calls of `AddConsumer` that lead from one manager to the next, and add the consumers `ws`.
  pub record HasWires (c c' : Manager (sink_kind handle)) (ws : List Wire) : Type 0 where
    pub calls : List (Added (sink_kind handle))
    pub manager : c' ≡ add_all (sink_kind handle) calls c
    pub wires : map (wire handle) calls ≡ ws

  add_all-append :
      (xs ys : List (Added (sink_kind handle))) (m : Manager (sink_kind handle))
      → add_all (sink_kind handle) (xs ++ ys) m
        ≡ add_all (sink_kind handle) ys (add_all (sink_kind handle) xs m)
  add_all-append [] ys m = refl
  add_all-append (x ∷ xs) ys m = add_all-append xs ys _

  pub no_wires : (c : Manager (sink_kind handle)) → HasWires c c []
  no_wires c = record { calls = []; manager = refl; wires = refl }

  pub more_wires :
      (c d e : Manager (sink_kind handle)) (ws vs : List Wire)
      → HasWires c d ws
      → HasWires d e vs
      → HasWires c e (ws ++ vs)
  more_wires c d e ws vs h k = record {
    calls = h.calls ++ k.calls;
    manager =
        k.manager
        ∙ ap (add_all (sink_kind handle) k.calls) h.manager
        ∙ sym (add_all-append h.calls k.calls c);
    wires =
        map-append (wire handle) h.calls k.calls
        ∙ ap (λ l. l ++ map (wire handle) k.calls) h.wires
        ∙ ap (◌++◌ ws) k.wires;
  }

  -- A consumer that was made is the one wire.
  made-HasWires :
      (topic : Text) (records : ℕ) (s s' : Sinks handle) (o : Option Sink) (t : Target)
      → ((k : Sink) → o ≡ some k → target k ≡ t)
      → add_made handle topic records s o ≡ (s', true)
      → HasWires s.manager s'.manager (record { topic = topic; to = t; channel = records } ∷ [])
  unfolding add_made
  made-HasWires topic records s s' none t is h = cc
  made-HasWires topic records s s' (some k) t is h = record {
    calls = record { topic = topic; consumer = k; events = records } ∷ [];
    manager = ground arith;
    wires = rw (is k refl) refl;
  }

  if_on :
      (b : Bool) (c c' : Manager (sink_kind handle)) (ws : List Wire)
      → b ≡ true
      → HasWires c c' ws
      → HasWires c c' (if b then ws else [])
  if_on b c c' ws on h = rw on h

  sys_log_made :
      (os : SinkOs) (name addr network format : Text) (st : EventLogState) (k : Sink)
      → as_sys_log handle (new_sys_log_consumer os name addr network format st) ≡ some k
      → target k ≡ to_sys_log (some addr) network format
  unfolding new_sys_log_consumer
  sys_log_made os name addr network format st k h = ground arith

  ftp_made :
      (os : SinkOs) (e : Entry) (addr : Text) (k : Sink)
      → ftp_addr os.parse_ip e.ftp.remote_addr e.ftp.remote_port ≡ some addr
      → as_ftp handle (new_ftp_consumer os e.path addr e.log_format (with_max_size e.ftp)) ≡ some k
      → target k ≡ ftp_target os e.log_format e
  unfolding new_ftp_consumer
  ftp_made os e addr k a h = ground arith

  -- The part for the syslog server.
  hook_sys_log-HasWires :
      (os : SinkOs) (e : Entry) (i : ℕ) (s s' : Sinks handle)
      → hook_sys_log handle os e i s ≡ (s', true)
      → HasWires s.manager s'.manager (sys_log_wires os i e)
  unfolding hook_sys_log
  hook_sys_log-HasWires os e i s s' h =
      let point = (state_for os.times e.path s.point).1 in
      let st = (state_for os.times e.path s.point).0 in
      elim (Bool-cases e.sys_log.enable) [
        | inr off ↦ let same : s ≡ s' = ground arith in rw (off, sym same) (no_wires s.manager)
        | inl on ↦
            elim (Option-cases
              (sys_log_addr os.parse_ip e.sys_log.remote_addr e.sys_log.remote_port)) [
                | inl bad ↦ absurd (ground arith)
                | inr (addr, good) ↦
                    rw (on, good)
                      (made-HasWires e.path i (record s { point = point }) s'
                        (as_sys_log handle
                          (new_sys_log_consumer os e.path addr e.sys_log.network e.log_format st))
                        (to_sys_log (some addr) e.sys_log.network e.log_format)
                        (sys_log_made os e.path addr e.sys_log.network e.log_format st)
                        (ground arith))
              ]
      ]

  -- The part for the FTP server.
  hook_ftp-HasWires :
      (os : SinkOs) (e : Entry) (i : ℕ) (s s' : Sinks handle)
      → hook_ftp handle os e i s ≡ (s', true)
      → HasWires s.manager s'.manager (ftp_wires os i e)
  unfolding hook_ftp
  hook_ftp-HasWires os e i s s' h = elim (Bool-cases e.ftp.enable) [
    | inr off ↦ let same : s ≡ s' = ground arith in rw (off, sym same) (no_wires s.manager)
    | inl on ↦ elim (Option-cases (ftp_addr os.parse_ip e.ftp.remote_addr e.ftp.remote_port)) [
      | inl bad ↦ absurd (ground arith)
      | inr (addr, good) ↦ if_on e.ftp.enable s.manager s'.manager _ on (
          made-HasWires e.path i s s'
            (as_ftp handle (new_ftp_consumer os e.path addr e.log_format (with_max_size e.ftp)))
            (ftp_target os e.log_format e) (λ k. ftp_made os e addr k good) (ground arith))
    ]
  ]

  -- Both parts.
  pub hook_consumer-HasWires :
      (os : SinkOs) (e : Entry) (i : ℕ) (s s' : Sinks handle)
      → hook_consumer handle os e i s ≡ (s', true)
      → HasWires s.manager s'.manager (sys_log_wires os i e ++ ftp_wires os i e)
  unfolding hook_consumer
  hook_consumer-HasWires os e i s s' h =
      let (m, first, second) =
        and_then-true (hook_sys_log handle os e i s) (λ t. hook_ftp handle os e i t) s' h in
      more_wires s.manager m.manager s'.manager (sys_log_wires os i e) (ftp_wires os i e)
        (hook_sys_log-HasWires os e i s m first) (hook_ftp-HasWires os e i m s' second)
