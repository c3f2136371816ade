-- ===== src/Reader/Dns/Filter.antt =====
-- `getBpfFilterString` of reader/dns_packet_reader.go, and what the filter means to pcap.
pub mod Meaning
use windns_logtail.Base.{Text, lit, join, List, [], ◌∷◌, ◌++◌, map}

-- `bpfFilter`.
abbrev pub bpf_filter : Text
bpf_filter = lit "udp and port 53"

-- Of the printed addresses.
abbrev pub host : Text → Text
host ip = lit "host " ++ (ip ++ lit " ")

unfoldable pub get_bpf_filter_string : List Text → Text
unfolding join
get_bpf_filter_string [] = bpf_filter
get_bpf_filter_string (ip ∷ ips) =
    join (lit "or ") (map host (ip ∷ ips)) ++ (lit "and " ++ bpf_filter)
