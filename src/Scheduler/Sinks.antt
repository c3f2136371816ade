-- ===== src/Scheduler/Sinks.antt =====
-- `hookConsumer` of cmd/wineventtail/schduler.go, and the constructors of consumer/ that it calls.
use windns_logtail.Base.{
  Text, ltb_ℤ, ℕ, ℤ, pos, Bool, true, false, ◌||◌, Option, none, some, List, [], if◌then◌else◌, not,
}
use windns_logtail.Checkpoint.State.{EventLogState, zero_state}
use windns_logtail.Config.{FtpConfig, Entry}
use windns_logtail.Consumer.Ftp.Handle.{Ftp}
use windns_logtail.Consumer.Manager
use windns_logtail.Consumer.Manager.{ConsumerKind, add_consumer}
use windns_logtail.Consumer.Syslog.{Syslog}
use windns_logtail.Scheduler.Address.{Ip, sys_log_addr, ftp_addr}
use windns_logtail.Scheduler.Calls.{and_then}
use windns_logtail.Scheduler.Point.{Point, PointOs, state_for}

-- A consumer.
pub data Sink : Type 0 where
  sys_log : Syslog → Sink
  ftp : Ftp → Sink

-- The outcomes of the calls, with `net.ParseIP`: whether a pool can be made, whether the archive
-- folder is there, and whether it could be made.
pub record SinkOs : Type 0 where
  pub times : PointOs
  pub parse_ip : Text → Option Ip
  pub new_pool : ℤ → Bool
  pub folder_there : Bool
  pub mkdir_ok : Bool

-- `NewSysLogConsumer`.
unfoldable pub new_sys_log_consumer :
    SinkOs → Text → Text → Text → Text → EventLogState → Option Syslog
new_sys_log_consumer os name remote_addr network log_format st =
    if os.new_pool (pos 100)
    then some (record {
      name = name;
      remote_addr = remote_addr;
      network = network;
      log_format = log_format;
      state = st;
      persisted = [];
      sent = [];
    })
    else none

-- `NewFTPConsumer`, of an entry's name and format and its FTP server.
unfoldable pub new_ftp_consumer : SinkOs → Text → Text → Text → FtpConfig → Option Ftp
new_ftp_consumer os name remote_addr log_format c =
    if os.folder_there || os.mkdir_ok
    then some (record {
      name = name;
      remote_addr = remote_addr;
      username = c.username;
      password = c.password;
      file_path = c.file_path;
      file_max_size = c.file_max_size;
      is_sftp = c.is_sftp;
      log_file_prefix = c.log_file_prefix;
      log_format = log_format;
      state = zero_state;
      persisted = [];
    })
    else none

-- A maximum size that is not positive becomes ten.
unfoldable pub with_max_size : FtpConfig → FtpConfig
with_max_size c = if ltb_ℤ (pos 0) c.file_max_size then c else record c { file_max_size = pos 10 }

module _ {R : Type 0} (handle : Sink → List R → Option Sink) where
  abbrev pub sink_kind : ConsumerKind
  sink_kind = record {
    Consumer = Sink;
    Record = R;
    set_point = λ c. c;
    handle_events = handle;
    shutdown = λ c. c;
  }

  -- The manager of the consumers, with its checkpoint.
  pub record Sinks : Type 0 where
    pub manager : Manager.Manager sink_kind
    pub point : Point

  -- A consumer that was made is added, else the call fails.
  unfoldable pub add_made : Text → ℕ → Sinks → Option Sink → Sinks × Bool
  add_made topic records s none = (s, false)
  add_made topic records s (some c) =
      (record s { manager = add_consumer sink_kind topic c records s.manager }, true)

  abbrev pub as_sys_log : Option Syslog → Option Sink
  as_sys_log none = none
  as_sys_log (some c) = some (sys_log c)

  abbrev pub as_ftp : Option Ftp → Option Sink
  as_ftp none = none
  as_ftp (some c) = some (ftp c)

  -- The part for the syslog server of an entry; `records` is the channel of its reader. The state
  -- comes before the address.
  unfoldable pub hook_sys_log : SinkOs → Entry → ℕ → Sinks → Sinks × Bool
  unfolding add_made new_sys_log_consumer
  hook_sys_log os e records s =
      if not e.sys_log.enable
      then (s, true)
      else let (st, p) = state_for os.times e.path s.point in
        let s' = record s { point = p } in
        elim (sys_log_addr os.parse_ip e.sys_log.remote_addr e.sys_log.remote_port) [
          | none ↦ (s', false)
          | some addr ↦
              add_made e.path records s'
                (as_sys_log (new_sys_log_consumer os e.path addr e.sys_log.network e.log_format st))
        ]

  -- The part for its FTP server.
  unfoldable pub hook_ftp : SinkOs → Entry → ℕ → Sinks → Sinks × Bool
  unfolding add_made new_ftp_consumer with_max_size
  hook_ftp os e records s =
      if not e.ftp.enable
      then (s, true)
      else elim (ftp_addr os.parse_ip e.ftp.remote_addr e.ftp.remote_port) [
        | none ↦ (s, false)
        | some addr ↦
            add_made e.path records s
              (as_ftp (new_ftp_consumer os e.path addr e.log_format (with_max_size e.ftp)))
      ]

  -- `hookConsumer`, and whether it returns no error.
  unfoldable pub hook_consumer : SinkOs → Entry → ℕ → Sinks → Sinks × Bool
  unfolding hook_sys_log hook_ftp
  hook_consumer os e records s =
      and_then (hook_sys_log os e records s) (λ s'. hook_ftp os e records s')
