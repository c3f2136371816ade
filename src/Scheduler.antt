-- ===== src/Scheduler.antt =====
-- cmd/wineventtail/schduler.go and cmd/dnslogtail/schduler.go: what a start sets up.
pub mod Calls
pub mod Address
pub mod Point
pub mod Sources
pub mod Sinks
pub mod Start
pub mod Wired
pub mod Resumed
