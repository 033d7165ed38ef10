-- ===== src/Nfs.antt =====
-- dpfs_nfs: a file system that reflects an NFS folder.
pub mod Handle
pub mod Inode
pub mod Wire
pub mod Session
pub mod State
pub mod Iovec
pub mod Requests
pub mod Callbacks
pub mod Writes
pub mod Answers
pub mod Opens
pub mod Flight
pub mod Connect
pub mod Tests
