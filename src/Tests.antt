-- ===== src/Tests.antt =====
-- Runs of the models at concrete inputs, and the theorems applied there.
mod Codec
mod Channel
mod Checkpoint
mod Syslog
mod Etl
mod Files
mod Ftp
mod Managers
mod Packets
mod Dns
mod Xml
mod Pipeline
mod Scheduler
mod Event
