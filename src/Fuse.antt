-- ===== src/Fuse.antt =====
-- dpfs_fuse, the layer between the hardware abstraction and a file system (dpfs_fuse/dpfs_fuse.cpp).
pub mod Iov
pub mod Direntry
pub mod Dispatch
pub mod Init
pub mod Reply
pub mod Tests
