-- ===== src/Config.antt =====
-- global/config.go: the configuration and how it is loaded.
use windns_logtail.Base.{
  Text, lit, contains, ℤ, Bool, false, Option, none, some, List, [], if◌then◌else◌,
}
use windns_logtail.Logger.{Logger, Init, ready, init_logger}
use windns_logtail.Logger

-- `SysLogConfig`.
pub record SysLogConfig : Type 0 where
  pub remote_addr : Text
  pub remote_port : ℤ
  pub network : Text
  pub enable : Bool

-- `FTPConfig`.
pub record FtpConfig : Type 0 where
  pub remote_addr : Text
  pub remote_port : ℤ
  pub username : Text
  pub password : Text
  pub file_path : Text
  pub file_max_size : ℤ
  pub enable : Bool
  pub is_sftp : Bool
  pub log_file_prefix : Text

-- `Entry`.
pub record Entry : Type 0 where
  pub path : Text
  pub internal : ℤ
  pub level : Text
  pub event_id : Text
  pub transfer_threads : ℤ
  pub log_format : Text
  pub sys_log : SysLogConfig
  pub ftp : FtpConfig

-- `DNSPacket`.
pub record DnsPacket : Type 0 where
  pub enable : Bool
  pub device_name : List Text
  pub filter_ips : List Text
  pub log_format : Text
  pub sys_log : SysLogConfig
  pub ftp : FtpConfig

-- `Config`.
pub record Config : Type 0 where
  pub installation_path : Text
  pub analytical_entries : List Entry
  pub audit_entries : List Entry
  pub dns_packets : List DnsPacket

-- The file, gopkg.in/yaml.v3 at a `Config`, and the functions on file names that depend on the
-- platform.
pub record ConfigOs : Type 0 where
  pub read_file : Text → Option Text
  pub unmarshal : Text → Option Config
  pub dir : Text → Text
  pub join_path : Text → Text → Text
  pub clean : Text → Text

-- What `LoadConfig` comes to: an error that the logger was not touched for, a configuration with
-- the logger as it is then, or the end of the process.
pub data Load : Type 0 where
  no_file no_yaml : Load
  loaded : Config → Logger → Load
  exited : Load

unfoldable pub with_logger : Config → Init → Load
with_logger config (ready l) = loaded config l
with_logger config Logger.exits = exited

unfoldable pub load_config : ConfigOs → Text → Logger → Load
unfolding with_logger init_logger
load_config os filename l = elim (os.read_file filename) [
  | none ↦ no_file
  | some bytes ↦ elim (os.unmarshal bytes) [
    | none ↦ no_yaml
    | some config ↦ with_logger config (
        init_logger os.clean (os.join_path (os.dir filename) (lit "win-logtail.log")) (lit "info")
          false false l)
  ]
]

-- What the platform says about paths: the executable, symbolic links (an empty text on an error),
-- the folder for temporary files, and the source file of the caller.
pub record PathOs : Type 0 where
  pub executable : Option Text
  pub dir : Text → Text
  pub eval_symlinks : Text → Text
  pub temp_dir : Text
  pub caller : Option Text
  pub slash_dir : Text → Text

-- `getCurrentAbPathByExecutable`; `none` is the end of the process.
unfoldable pub path_by_executable : PathOs → Option Text
path_by_executable os = elim os.executable [
  | none ↦ none
  | some exe ↦ some (os.eval_symlinks (os.dir exe))
]

-- `getCurrentAbPathByCaller`.
unfoldable pub path_by_caller : PathOs → Text
path_by_caller os = elim os.caller [ none ↦ [] | some filename ↦ os.slash_dir filename ]

-- `GetCurrentAbPath`.
unfoldable pub get_current_ab_path : PathOs → Option Text
unfolding path_by_executable path_by_caller contains
get_current_ab_path os = elim (path_by_executable os) [
  | none ↦ none
  | some dir ↦ some (if contains dir (os.eval_symlinks os.temp_dir) then path_by_caller os else dir)
]
