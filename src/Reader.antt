-- ===== src/Reader.antt =====
-- reader/: what produces records.
pub mod Etl
pub mod Manager
pub mod Channel
pub mod Dns
