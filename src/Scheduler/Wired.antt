-- ===== src/Scheduler/Wired.antt =====
-- What a start of cmd/wineventtail/schduler.go sets up, described by the configuration alone.
pub mod Readers
pub mod Hooked
pub mod Start
pub mod Topics
use windns_logtail.Base.{
  Text, lit, ℕ, suc, ℤ, pos, Bool, Option, none, some, List, [], ◌∷◌, ◌++◌, map, if◌then◌else◌,
  concat,
}
use windns_logtail.Config.{Entry, DnsPacket, Config}
use windns_logtail.Consumer.Manager.Topics.{Added}
use windns_logtail.Scheduler.Address.{sys_log_addr, ftp_addr}
use windns_logtail.Scheduler.Sinks.{Sink, sys_log, ftp, SinkOs, sink_kind, with_max_size}
use windns_logtail.Scheduler.Sources.{
  Source, trace, events, device, Reader, at_least_one, options_of, every,
}
use windns_logtail.Scheduler.Start.{device_entry}

-- A source that the configuration names.
pub data Configured : Type 0 where
  analytical audit : Entry → Configured
  packets : DnsPacket → Text → Configured

abbrev pub devices : DnsPacket → List Configured
devices p = map (packets p) p.device_name

-- The analytical entries, the audit entries, and the devices, each in the order of the file.
abbrev pub configured : Config → List Configured
configured c =
    (map analytical c.analytical_entries ++ map audit c.audit_entries)
    ++ concat (map devices c.dns_packets)

-- A reader without its state: what it reads, with no start time, and how.
pub record Job : Type 0 where
  pub scope : Source
  pub max_read : ℤ
  pub schedule : Option Text

abbrev pub scope : Source → Source
scope (trace log_path n) = trace log_path n
scope (events name last_time options) = events name (pos 0) options
scope (device name ips) = device name ips

abbrev pub job : Reader → Job
job r = record { scope = scope r.source; max_read = r.max_read; schedule = r.schedule }

abbrev pub job_of : (Text → Option Text) → Configured → Job
job_of parse (analytical e) = record {
  scope = trace e.path (at_least_one e.transfer_threads);
  max_read = pos 10000;
  schedule = some (every e.internal);
}
job_of parse (audit e) = record {
  scope = events e.path (pos 0) (options_of e);
  max_read = pos 1000;
  schedule = some (every e.internal);
}
job_of parse (packets p name) = record {
  scope = device name (map parse p.filter_ips);
  max_read = pos 1000;
  schedule = some (every (pos 1));
}

abbrev pub entry_of : Configured → Entry
entry_of (analytical e) = e
entry_of (audit e) = e
entry_of (packets p name) = device_entry p name

-- A consumer without its state: its server with the address, and the format.
pub data Target : Type 0 where
  to_sys_log : Option Text → Text → Text → Target
  to_ftp : Option Text → Text → Text → Text → ℤ → Bool → Text → Text → Target

abbrev pub target : Sink → Target
target (sys_log c) = to_sys_log (some c.remote_addr) c.network c.log_format
target (ftp f) =
    to_ftp (some f.remote_addr) f.username f.password f.file_path f.file_max_size f.is_sftp
      f.log_file_prefix f.log_format

-- A consumer of a topic that takes the batches of channel `channel`.
pub record Wire : Type 0 where
  pub topic : Text
  pub to : Target
  pub channel : ℕ

abbrev pub sys_log_wires : SinkOs → ℕ → Entry → List Wire
sys_log_wires os i e =
    if e.sys_log.enable
    then record {
      topic = e.path;
      to =
          to_sys_log (sys_log_addr os.parse_ip e.sys_log.remote_addr e.sys_log.remote_port)
            e.sys_log.network e.log_format;
      channel = i;
    }
      ∷ []
    else []

abbrev pub ftp_target : SinkOs → Text → Entry → Target
ftp_target os format e =
    let c = with_max_size e.ftp in
    to_ftp (ftp_addr os.parse_ip e.ftp.remote_addr e.ftp.remote_port) c.username c.password
      c.file_path c.file_max_size c.is_sftp c.log_file_prefix format

abbrev pub ftp_wires : SinkOs → ℕ → Entry → List Wire
ftp_wires os i e =
    if e.ftp.enable
    then record { topic = e.path; to = ftp_target os e.log_format e; channel = i } ∷ []
    else []

-- The consumers that are wanted for the sources, the first of which has channel `i`: for each one
-- that of its syslog server, if enabled, then that of its FTP server, if enabled.
abbrev pub wires_of : SinkOs → ℕ → List Configured → List Wire
wires_of os i [] = []
wires_of os i (c ∷ cs) =
    (sys_log_wires os i (entry_of c) ++ ftp_wires os i (entry_of c)) ++ wires_of os (suc i) cs

abbrev pub wire :
    {R : Type 0} (handle : Sink → List R → Option Sink) → Added (sink_kind handle) → Wire
wire handle a = record { topic = a.topic; to = target a.consumer; channel = a.events }
