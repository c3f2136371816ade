-- ===== src/Eventlog.antt =====
-- eventlog/: the records that readers produce and consumers send.
pub mod Kind
pub mod Dns
pub mod Win
pub mod Xml
pub mod Event
