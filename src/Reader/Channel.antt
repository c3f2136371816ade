-- ===== src/Reader/Channel.antt =====
-- reader/channel_reader.go: the events of a Windows event channel, or of a file of events.
pub mod New
pub mod Window
pub mod Open
pub mod Fetch
pub mod Read
pub mod Loop
pub mod Shutdown
pub mod Order
pub mod Placed
