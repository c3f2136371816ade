-- ===== src/Tests/Scheduler.antt =====
-- cmd/wineventtail/schduler.go at concrete inputs.
use windns_logtail.Base.{
  Text, lit, text_eq, ℕ, pos, true, false, Option, none, some, List, [], ◌∷◌, ◌≡◌, refl, arith, All,
  map, if◌then◌else◌, Bool-cases, inl, inr, text_eq_iff,
}
use windns_logtail.Base.Decimal.{decimal, signed_decimal}
use windns_logtail.Base.Dict.{lookup}
use windns_logtail.Base.Split.{lacks}
use windns_logtail.Checkpoint.State.{EventLogState, zero_state}
use windns_logtail.Checkpoint.Point.{Checkpoint, load_states}
use windns_logtail.Config.{SysLogConfig, FtpConfig, Entry, Config, loaded}
use windns_logtail.Consumer.Manager.{start as start_consumers}
use windns_logtail.Reader.Manager.{add_reader as add_to_manager, start as start_readers}
use windns_logtail.Scheduler.Sources.{
  init_source, new_channel_reader, set_cron, new_dns_packet_reader,
}
use windns_logtail.Consumer.Manager.Topics.{consumes_of, events_of}
use windns_logtail.Logger.{Logger, stdout, info}
use windns_logtail.Scheduler.Address.{Ip, sys_log_addr, ftp_addr}
use windns_logtail.Scheduler.Address.Dialled.{split_host_port, ParsesIps, split-remote_addr}
use windns_logtail.Scheduler.Sinks.{Sink, sink_kind, hook_consumer}
use windns_logtail.Scheduler.Start.{StartOs, Scheduler, start, empty, set_up}
use windns_logtail.Scheduler.Wired.{configured, job, job_of, Wire, wires_of, target}
use windns_logtail.Scheduler.Wired.Topics.{for_topic, first_channel, start-wires}
use windns_logtail.Scheduler.Resumed.Hook.{Continues}
use windns_logtail.Scheduler.Resumed.Start.{start_resumes}

-- Two addresses are known: one of IPv4, and one that maps it into IPv6.
abbrev v4 : Text
v4 = lit "10.0.0.1"

abbrev mapped : Text
mapped = lit "::ffff:10.0.0.1"

abbrev four_bytes : Ip
four_bytes = record { to4 = true; to16 = true }

abbrev parse_ip : Text → Option Ip
parse_ip a =
    if text_eq a v4 then some four_bytes else if text_eq a mapped then some four_bytes else none

-- What a known address has.
known :
    (P : Text → Ip → Type 0)
    → P v4 four_bytes
    → P mapped four_bytes
    → (a : Text) (ip : Ip) → parse_ip a ≡ some ip
    → P a ip
known P p q a ip h = elim (Bool-cases (text_eq a v4)) [
  | inl e ↦ ground (arith, (text_eq_iff a v4).0 e, p)
  | inr n ↦ elim (Bool-cases (text_eq a mapped)) [
    | inl e ↦ ground (arith, (text_eq_iff a mapped).0 e, q)
    | inr m ↦ absurd (ground arith)
  ]
]

parse_ip-ParsesIps : ParsesIps parse_ip
parse_ip-ParsesIps = record {
  no_open = λ a ip h. known (λ a ip. lacks b'[' a ≡ true) refl refl a ip h;
  no_close = λ a ip h. known (λ a ip. lacks b']' a ≡ true) refl refl a ip h;
  has_16 = λ a ip h. known (λ a ip. ip.to16 ≡ true) refl refl a ip h;
}

mapped_known : parse_ip mapped ≡ some four_bytes
unfolding text_eq
mapped_known = refl

split-remote_addr_example :
    (t : Text) × (sys_log_addr parse_ip mapped (pos 514) ≡ some t)
    × (ftp_addr parse_ip mapped (pos 514) ≡ some t)
    × (split_host_port t ≡ none)
split-remote_addr_example =
    split-remote_addr parse_ip mapped (pos 514) four_bytes parse_ip-ParsesIps mapped_known

abbrev no_ftp : FtpConfig
no_ftp = record {
  remote_addr = v4;
  remote_port = pos 21;
  username = lit "u";
  password = lit "p";
  file_path = lit "logs";
  file_max_size = pos 0;
  enable = false;
  is_sftp = false;
  log_file_prefix = lit "";
}

abbrev server : SysLogConfig
server = record { remote_addr = v4; remote_port = pos 514; network = lit "udp"; enable = true }

-- An audit entry, and a second one of the same path that goes to FTP.
abbrev system : Entry
system = record {
  path = lit "System";
  internal = pos 5;
  level = lit "";
  event_id = lit "1-4";
  transfer_threads = pos 0;
  log_format = lit "json";
  sys_log = server;
  ftp = no_ftp;
}

abbrev again : Entry
again = record system {
  sys_log = record server { enable = false };
  ftp = record no_ftp { enable = true };
}

abbrev config : Config
config = record {
  installation_path = lit "";
  analytical_entries = [];
  audit_entries = system ∷ again ∷ [];
  dns_packets =
      record {
        enable = false;
        device_name = lit "eth0" ∷ [];
        filter_ips = v4 ∷ [];
        log_format = lit "json";
        sys_log = server;
        ftp = no_ftp;
      }
      ∷ [];
}

abbrev os : StartOs
os = record {
  times = record { now = λ i. pos 100; filed = λ i. 0 };
  readers = record {
    new_pool = λ n. true;
    loads = λ p. true;
    open_live = λ d. true;
    set_filter = λ d f. true;
    add_job = λ s. true;
  };
  sinks = record {
    times = record { now = λ i. pos 100; filed = λ i. 0 };
    parse_ip = λ a. some four_bytes;
    new_pool = λ n. true;
    folder_there = false;
    mkdir_ok = true;
  };
  parse_filter = λ a. some a;
  taken = none;
}

abbrev handle : Sink → List ℕ → Option Sink
handle c rs = some c

abbrev saved : EventLogState
saved = record zero_state { name = lit "System"; timestamp = pos 7 }

abbrev reader_point : Checkpoint
reader_point = record {
  num_updates = 0;
  max_updates = pos 1;
  flush_interval = pos 1;
  sort = [];
  states = (lit "System", saved) ∷ [];
  save = [];
  done = false;
  running = true;
}

abbrev sink_point : Checkpoint
sink_point = record reader_point { states = [] }

abbrev logger : Logger
logger = record { report_caller = true; json = false; output = stdout; level = info }

starts : (start handle os (loaded config logger) (some reader_point) (some sink_point)).done ≡ true
unfolding start text_eq decimal signed_decimal add_to_manager init_source new_channel_reader
    set_cron hook_consumer sys_log_addr ftp_addr new_dns_packet_reader start_readers start_consumers
starts = refl

start-wires_example :
    let r = start handle os (loaded config logger) (some reader_point) (some sink_point) in
    let ws = wires_of os.sinks 0 (configured config) in
    (s : Scheduler handle) × (r.scheduler ≡ some s)
    × (map job s.readers ≡ map (job_of os.parse_filter) (configured config))
    × ((t : Text)
        → (map target (consumes_of (sink_kind handle) (lookup t r.topics))
            ≡ map (λ (w : Wire). w.to) (for_topic t ws))
          × (events_of (sink_kind handle) (lookup t r.topics) ≡ first_channel (for_topic t ws)))
start-wires_example = start-wires handle os config logger reader_point sink_point starts

abbrev left : Scheduler handle
left = (set_up handle os config (empty handle reader_point sink_point)).0

has_left :
    (start handle os (loaded config logger) (some reader_point) (some sink_point)).scheduler
    ≡ some left
unfolding start text_eq decimal signed_decimal add_to_manager init_source new_channel_reader
    set_cron hook_consumer sys_log_addr ftp_addr new_dns_packet_reader start_readers start_consumers
has_left = refl

start_resumes_example :
    All (Continues reader_point.states) left.readers
    × ((name : Text) (st : EventLogState)
        → lookup name reader_point.states ≡ some st
        → lookup name (load_states left.point.found left.point.given) ≡ some st)
    × ((name : Text) (st : EventLogState)
        → lookup name sink_point.states ≡ some st
        → lookup name (load_states left.sinks.point.found left.sinks.point.given) ≡ some st)
start_resumes_example =
    start_resumes handle os (loaded config logger) reader_point sink_point left has_left
