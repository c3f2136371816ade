-- ===== src/Reader/Etl/Shutdown.antt =====
-- `Shutdown` of reader/etl_reader.go beside the work of the reader, of which it waits for none.
pub mod Crash
use windns_logtail.Base.{ℕ, suc, leb, Bool, true, false, ◌≡◌, if◌then◌else◌}

-- Work that ends by a send to a channel: a run of the schedule, to `etlLogfiles`; a transfer, to
-- `xmlLogfiles`; a load, to `events`; a batch of `scanXML`, to `records`.
pub data Task : Type 0 where
  copy transfer load scan : Task

unfoldable pub same : Task → Task → Bool
same copy copy = true
same transfer transfer = true
same load load = true
same scan scan = true
same t u = false

-- What `Shutdown` has done last.
pub data Stage : Type 0 where
  serving told signalled transfer_released load_released : Stage
  etl_closed events_closed xml_closed signals_closed shut : Stage

unfoldable pub next : Stage → Stage
next serving = told
next told = signalled
next signalled = transfer_released
next transfer_released = load_released
next load_released = etl_closed
next etl_closed = events_closed
next events_closed = xml_closed
next xml_closed = signals_closed
next signals_closed = shut
next shut = shut

-- How many calls are to come.
unfoldable pub remaining : Stage → ℕ
remaining serving = 9
remaining told = 8
remaining signalled = 7
remaining transfer_released = 6
remaining load_released = 5
remaining etl_closed = 4
remaining events_closed = 3
remaining xml_closed = 2
remaining signals_closed = 1
remaining shut = 0

-- Whether `Submit` is refused. A copy and a scan are not submitted.
unfoldable pub released : Task → Stage → Bool
unfolding remaining
released copy p = false
released transfer p = leb (remaining p) (remaining transfer_released)
released load p = leb (remaining p) (remaining load_released)
released scan p = false

-- Whether the channel that a task sends to is closed.
unfoldable pub is_closed : Task → Stage → Bool
unfolding remaining
is_closed copy p = leb (remaining p) (remaining etl_closed)
is_closed load p = leb (remaining p) (remaining events_closed)
is_closed transfer p = leb (remaining p) (remaining xml_closed)
is_closed scan p = leb (remaining p) (remaining shut)

-- Whether a task may end without a send, on an error.
unfoldable pub may_fail : Task → Bool
may_fail copy = true
may_fail transfer = true
may_fail load = false
may_fail scan = false

-- Whether what starts the tasks may end: the schedule at any time, a loop once `stop` is set.
unfoldable pub may_leave : Task → Stage → Bool
unfolding remaining
may_leave copy p = true
may_leave transfer p = leb (remaining p) (remaining told)
may_leave load p = leb (remaining p) (remaining told)
may_leave scan p = leb (remaining p) (remaining told)

-- The reader and the process: how many tasks of each kind are at work, whether the schedule or
-- loop that starts them goes on, and whether the process is up.
pub record Stopping : Type 0 where
  pub busy : Task → ℕ
  pub looping : Task → Bool
  pub phase : Stage
  pub up : Bool

abbrev pub put_at : {A : Type 0} → Task → A → (Task → A) → Task → A
put_at t x f u = if same t u then x else f u

unfoldable pub can_begin : Task → Stopping → Bool
unfolding released
can_begin t s = if released t s.phase then false else s.looping t

-- A round of `scanXML` may have several batches to send, and begins once for each.
pub data StopStep (s : Stopping) : Stopping → Type 0 where
  begins :
      (t : Task)
      → s.up ≡ true
      → can_begin t s ≡ true
      → StopStep s (record s { busy = put_at t (suc (s.busy t)) s.busy })
  fails :
      (t : Task) (n : ℕ)
      → s.up ≡ true
      → may_fail t ≡ true
      → s.busy t ≡ suc n
      → StopStep s (record s { busy = put_at t n s.busy })
  sends :
      (t : Task) (n : ℕ)
      → s.up ≡ true
      → is_closed t s.phase ≡ false
      → s.busy t ≡ suc n
      → StopStep s (record s { busy = put_at t n s.busy })
  panics :
      (t : Task) (n : ℕ)
      → s.up ≡ true
      → is_closed t s.phase ≡ true
      → s.busy t ≡ suc n
      → StopStep s (record s { up = false })
  leaves :
      (t : Task)
      → s.up ≡ true
      → may_leave t s.phase ≡ true
      → StopStep s (record s { looping = put_at t false s.looping })
  calls : s.up ≡ true → StopStep s (record s { phase = next s.phase })

pub data StopRun (s : Stopping) : Stopping → Type 0 where
  at_rest : StopRun s s
  and_then : {t u : Stopping} → StopRun s t → StopStep t u → StopRun s u
