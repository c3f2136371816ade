-- ===== src/Checkpoint.antt =====
-- checkpoint/checkpoint.go: the store that keeps, on disk, how far each log has been read.
pub mod State
pub mod Point
pub mod Worker
pub mod Snapshot
pub mod Flush
pub mod Rounds
pub mod Recovery
pub mod Shutdown
pub mod Refinement
pub mod Crash
pub mod Abstract
