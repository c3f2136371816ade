-- ===== src/Reader/Etl.antt =====
-- reader/etl_reader.go: traces are copied, converted to XML, loaded, and scanned for new events.
pub mod Copies
pub mod Load
pub mod Files
pub mod Shutdown
pub mod Scan
pub mod Batches
pub mod Rescan
