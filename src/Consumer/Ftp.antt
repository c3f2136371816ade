-- ===== src/Consumer/Ftp.antt =====
-- consumer/consumer_ftp.go: records go to a file, which is packed into a folder when it is large,
-- and the folder is uploaded.
pub mod Archive
pub mod Handle
pub mod Kept
pub mod Newest
pub mod Path
pub mod Retire
pub mod Upload
pub mod Uploaded
