-- ===== src/Scheduler/Start.antt =====
-- `Start` of cmd/wineventtail/schduler.go and cmd/dnslogtail/schduler.go, and what it calls.
use windns_logtail.Base.{
  Text, lit, ℕ, ℤ, pos, Bool, true, false, Option, none, some, List, [], ◌++◌, map, length,
  if◌then◌else◌, unix,
}
use windns_logtail.Checkpoint.Point.{Checkpoint}
use windns_logtail.Config.{Entry, DnsPacket, Config, Load, loaded, no_file, no_yaml, exited}
use windns_logtail.Base.Dict.{Dict}
use windns_logtail.Consumer.Manager.{ConsumeBinder, new_manager, start as start_consumers}
use windns_logtail.Reader.Manager.{add_reader as add_to_manager, start as start_readers}
use windns_logtail.Scheduler.Calls.{and_then, for_each}
use windns_logtail.Scheduler.Point.{Point, PointOs, opened, state_for}
use windns_logtail.Scheduler.Sources.{
  Reader, ReaderOs, source_kind, options_of, new_etl_worker, new_channel_reader,
  new_dns_packet_reader,
}
use windns_logtail.Scheduler.Sinks.{Sink, SinkOs, Sinks, sink_kind, hook_consumer}

-- The outcomes of the calls. `parse_filter` is `net.ParseIP`, printed; `taken` is how many topics
-- the pool takes.
pub record StartOs : Type 0 where
  pub times : PointOs
  pub readers : ReaderOs
  pub sinks : SinkOs
  pub parse_filter : Text → Option Text
  pub taken : Option ℕ

-- The entry that `addDNSPacket` makes for a device.
unfoldable pub device_entry : DnsPacket → Text → Entry
device_entry p device_name = record {
  path = lit "DNSLog" ++ device_name;
  internal = pos 0;
  level = [];
  event_id = [];
  transfer_threads = pos 0;
  log_format = p.log_format;
  sys_log = p.sys_log;
  ftp = p.ftp;
}

module _ {R : Type 0} (handle : Sink → List R → Option Sink) where
  -- `Scheduler`, once both managers are there.
  pub record Scheduler : Type 0 where
    pub readers : List Reader
    pub point : Point
    pub sinks : Sinks handle

  -- The end of `addReader`: a reader that was made is added to the manager.
  unfoldable pub add_made_reader : StartOs → ℤ → ℤ → Scheduler → Option Reader → Scheduler × Bool
  add_made_reader os max_read internal s none = (s, false)
  add_made_reader os max_read internal s (some r) =
      let (rs, done) = add_to_manager (source_kind os.readers) r max_read internal s.readers in
      (record s { readers = rs }, done)

  unfoldable pub add_reader : StartOs → Bool → Entry → Scheduler → Scheduler × Bool
  unfolding add_made_reader
  add_reader os is_etl e s =
      let (st, p) = state_for os.times e.path s.point in
      let s' = record s { point = p } in
      if is_etl
      then add_made_reader os (pos 10000) e.internal s'
          (new_etl_worker os.readers e.path e.transfer_threads st)
      else add_made_reader os (pos 1000) e.internal s'
          (some (new_channel_reader e.path (unix st.timestamp) st (options_of e)))

  -- The consumers of an entry, with the channel of the reader that was added last: the channel of
  -- a reader is known by the reader's place among the readers.
  unfoldable pub hook : StartOs → Entry → ℕ → Scheduler → Scheduler × Bool
  hook os e records s =
      let (c, done) = hook_consumer handle os.sinks e records s.sinks in
      (record s { sinks = c }, done)

  -- The body of the loops over entries.
  unfoldable pub add_entry : StartOs → Bool → Entry → Scheduler → Scheduler × Bool
  unfolding add_reader hook
  add_entry os is_etl e s =
      and_then (add_reader os is_etl e s) (λ s'. hook os e (length s.readers) s')

  -- The body of the loop of `addDNSPacket`.
  unfoldable pub add_device : StartOs → DnsPacket → Text → Scheduler → Scheduler × Bool
  unfolding add_made_reader hook device_entry
  add_device os packet device_name s =
      let e = device_entry packet device_name in
      let (st, p) = state_for os.times e.path s.point in
      let ips = map os.parse_filter packet.filter_ips in
      and_then
        (add_made_reader os (pos 1000) (pos 1) (record s { point = p })
          (some (new_dns_packet_reader device_name ips st)))
        (λ s'. hook os e (length s.readers) s')

  unfoldable pub add_dns_packet : StartOs → DnsPacket → Scheduler → Scheduler × Bool
  unfolding for_each add_device
  add_dns_packet os packet s = for_each (add_device os packet) packet.device_name s

  -- The loops of `Start` in cmd/wineventtail/schduler.go.
  unfoldable pub set_up : StartOs → Config → Scheduler → Scheduler × Bool
  unfolding for_each add_entry add_dns_packet
  set_up os c s =
      and_then
        (and_then (for_each (add_entry os true) c.analytical_entries s)
          (λ s1. for_each (add_entry os false) c.audit_entries s1))
        (λ s2. for_each (add_dns_packet os) c.dns_packets s2)

  -- The loop of `Start` in cmd/dnslogtail/schduler.go.
  unfoldable pub set_up_packets : StartOs → Config → Scheduler → Scheduler × Bool
  unfolding for_each add_dns_packet
  set_up_packets os c s = for_each (add_dns_packet os) c.dns_packets s

  -- What a start leaves: the managers, if there are any, the topics whose loops run, and whether
  -- there was no error.
  pub record Started : Type 0 where
    pub scheduler : Option Scheduler
    pub topics : Dict (ConsumeBinder (sink_kind handle))
    pub done : Bool

  -- Managers whose checkpoints are new.
  abbrev pub empty : Checkpoint → Checkpoint → Scheduler
  empty rc sc = record {
    readers = [];
    point = opened rc;
    sinks = record { manager = new_manager (sink_kind handle); point = opened sc };
  }

  -- The end of `Start`: the schedule, then the loops of the topics.
  unfoldable pub run_all : StartOs → Scheduler × Bool → Started
  run_all os (s, false) = record { scheduler = some s; topics = []; done = false }
  run_all os (s, true) =
      let (topics, done) = start_consumers (sink_kind handle) os.taken s.sinks.manager in
      if start_readers (source_kind os.readers) s.readers
      then record { scheduler = some s; topics = topics; done = done }
      else record { scheduler = some s; topics = []; done = false }

  abbrev pub no_start : Started
  no_start = record { scheduler = none; topics = []; done = false }

  -- `Start`, by the body `set` of its loops and what `loadConfig` and the two `NewManager` give.
  unfoldable pub start_with :
      StartOs
      → (Config → Scheduler → Scheduler × Bool)
      → Load
      → Option Checkpoint
      → Option Checkpoint
      → Started
  unfolding run_all
  start_with os set (loaded c l) (some rc) (some sc) = run_all os (set c (empty rc sc))
  start_with os set (loaded c l) (some rc) none = no_start
  start_with os set (loaded c l) none sc = no_start
  start_with os set no_file rc sc = no_start
  start_with os set no_yaml rc sc = no_start
  start_with os set exited rc sc = no_start

  -- `Start` of cmd/wineventtail/schduler.go.
  unfoldable pub start : StartOs → Load → Option Checkpoint → Option Checkpoint → Started
  unfolding start_with set_up
  start os = start_with os (set_up os)

  -- `Start` of cmd/dnslogtail/schduler.go.
  unfoldable pub start_packets : StartOs → Load → Option Checkpoint → Option Checkpoint → Started
  unfolding start_with set_up_packets
  start_packets os = start_with os (set_up_packets os)
