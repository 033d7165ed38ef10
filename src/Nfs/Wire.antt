-- ===== src/Nfs/Wire.antt =====
-- The byte-level part of dpfs_nfs/nfs_v4.c: integers in network order and the parsers of the
-- attribute lists that GETATTR returns. A byte is a number below 256; the host is little-endian.
pub mod Bytes
pub mod Attributes
