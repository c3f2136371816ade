-- ===== src/Scheduler/Address.antt =====
-- The address of a server, as `hookConsumer` of cmd/wineventtail/schduler.go makes it.
pub mod Dialled
use windns_logtail.Base.{Text, lit, ℤ, Bool, Option, none, some, [], ◌++◌, if◌then◌else◌}
use windns_logtail.Base.Decimal.{signed_decimal}

-- A `net.IP` that is not nil, by whether `To4` and `To16` are not nil.
pub record Ip : Type 0 where
  pub to4 : Bool
  pub to16 : Bool

unfoldable pub plain : Text → ℤ → Text
plain addr port = addr ++ (lit ":" ++ signed_decimal port)

unfoldable pub bracketed : Text → ℤ → Text
bracketed addr port = lit "[" ++ (addr ++ (lit "]:" ++ signed_decimal port))

-- Of a syslog server; `none` is the error. `parse_ip` is `net.ParseIP`, with `none` for nil.
unfoldable pub sys_log_addr : (Text → Option Ip) → Text → ℤ → Option Text
unfolding plain bracketed
sys_log_addr parse_ip addr port = elim (parse_ip addr) [
  | none ↦ none
  | some ip ↦
      if ip.to4
      then some (plain addr port)
      else if ip.to16
      then some (bracketed addr port)
      else none
]

-- Of an FTP server.
unfoldable pub ftp_addr : (Text → Option Ip) → Text → ℤ → Option Text
unfolding plain bracketed
ftp_addr parse_ip addr port = elim (parse_ip addr) [
  | none ↦ none
  | some ip ↦
      if ip.to4
      then some (plain addr port)
      else if ip.to16
      then some (bracketed addr port)
      else some []
]
