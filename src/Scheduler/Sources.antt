-- ===== src/Scheduler/Sources.antt =====
-- The readers that cmd/wineventtail/schduler.go makes, with the constructors and setters of reader/.
use windns_logtail.Base.{
  Text, lit, text_eq, ℤ, pos, negsuc, zero, suc, Bool, true, false, ◌&&◌, Option, none, some, List,
  [], ◌∷◌, ◌++◌, map, if◌then◌else◌,
}
use windns_logtail.Base.Decimal.{signed_decimal}
use windns_logtail.Checkpoint.State.{EventLogState}
use windns_logtail.Config.{Entry}
use windns_logtail.Reader.Channel.New.{WinEventOption, with_level, with_event_id, with_stop}
use windns_logtail.Reader.Dns.Filter.{get_bpf_filter_string}
use windns_logtail.Reader.Etl.Copies.{suc_ℤ}
use windns_logtail.Reader.Manager.{ReaderKind}

-- What is read: a trace with its number of transfers at a time, a channel or file of events, or a
-- device with the addresses to filter by, where `none` is a nil `net.IP`.
pub data Source : Type 0 where
  trace : Text → ℤ → Source
  events : Text → ℤ → List WinEventOption → Source
  device : Text → List (Option Text) → Source

-- A reader, as far as it is set up. `schedule` is the job that `SetCron` adds.
pub record Reader : Type 0 where
  pub source : Source
  pub state : EventLogState
  pub max_read : ℤ
  pub schedule : Option Text

-- The outcomes of the calls: whether a pool of a size can be made, whether the folder of a trace
-- can be listed, a device opened, a filter set, and a job added.
pub record ReaderOs : Type 0 where
  pub new_pool : ℤ → Bool
  pub loads : Text → Bool
  pub open_live : Text → Bool
  pub set_filter : Text → Text → Bool
  pub add_job : Text → Bool

-- A constructor returns a reader with nothing set.
unfoldable pub made : Source → EventLogState → Reader
made source st = record { source = source; state = st; max_read = pos 0; schedule = none }

-- A configuration with no number of transfers means one.
unfoldable pub at_least_one : ℤ → ℤ
at_least_one (pos zero) = pos 1
at_least_one (pos (suc n)) = pos (suc n)
at_least_one (negsuc n) = negsuc n

-- `NewETLWorker`.
unfoldable pub new_etl_worker : ReaderOs → Text → ℤ → EventLogState → Option Reader
unfolding made at_least_one
new_etl_worker os log_path threads st =
    let n = at_least_one threads in
    if os.new_pool n
    then if os.new_pool (suc_ℤ n) then some (made (trace log_path n) st) else none
    else none

-- `NewChannelReader`.
unfoldable pub new_channel_reader : Text → ℤ → EventLogState → List WinEventOption → Reader
unfolding made
new_channel_reader name last_time st options = made (events name last_time options) st

-- `NewDnsPacketReader`.
unfoldable pub new_dns_packet_reader : Text → List (Option Text) → EventLogState → Reader
unfolding made
new_dns_packet_reader device_name ips st = made (device device_name ips) st

-- The options for an entry: `WithStop`, then the level and the events if they are given.
unfoldable pub options_of : Entry → List WinEventOption
unfolding text_eq
options_of e =
    with_stop ∷ (if text_eq e.level (lit "") then [] else with_level e.level ∷ [])
    ++ (if text_eq e.event_id (lit "") then [] else with_event_id e.event_id ∷ [])

-- How a `net.IP` is printed.
abbrev pub ip_text : Option Text → Text
ip_text none = lit "<nil>"
ip_text (some t) = t

-- `Init` of each kind of reader; that of a trace returns once its files are in the channels.
unfoldable pub init_source : ReaderOs → Source → Bool
unfolding get_bpf_filter_string
init_source os (trace log_path n) = os.loads log_path
init_source os (events name last_time options) = true
init_source os (device name ips) =
    os.open_live name && os.set_filter name (get_bpf_filter_string (map ip_text ips))

-- `fmt.Sprintf("@every %ds", internal)`.
unfoldable pub every : ℤ → Text
every internal = lit "@every " ++ (signed_decimal internal ++ lit "s")

-- `SetCron`. The pause that one of a channel reader also stores is not kept.
unfoldable pub set_cron : ReaderOs → ℤ → Reader → Reader × Bool
unfolding every
set_cron os internal r =
    if os.add_job (every internal)
    then (record r { schedule = some (every internal) }, true)
    else (r, false)

abbrev pub source_kind : ReaderOs → ReaderKind
source_kind os = record {
  Reader = Reader;
  set_max_read = λ n r. record r { max_read = n };
  set_point = λ r. r;
  init = λ r. (r, init_source os r.source);
  set_cron = set_cron os;
}
