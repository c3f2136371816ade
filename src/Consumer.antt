-- ===== src/Consumer.antt =====
-- consumer/: what takes records from the readers and sends them on.
pub mod Ftp
pub mod Manager
pub mod Syslog
