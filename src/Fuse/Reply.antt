-- ===== src/Fuse/Reply.antt =====
-- The replies of the file systems (convert_stat, fill_entry, fill_open and fuse_ll_reply_* of
-- dpfs_fuse/dpfs_fuse.cpp). What calc_timeout_sec and calc_timeout_nsec make of a time, which is a
-- float there, is in the parameters of the entry.
use dpfs.Prelude.{ℕ, ◌+◌, ◌%◌, ◌^◌, Bool, ◌&&◌, List, [], ◌∷◌, ◌++◌, ltb, ◌==◌, if◌then◌else◌}
use dpfs.Fuse.Iov.{Iov}

-- The `error` of a header: 0, -e or e.
pub data HeaderError : Type 0 where
  clear : HeaderError
  minus plus : ℕ → HeaderError

-- struct fuse_out_header, without `unique`.
pub record OutHeader : Type 0 where
  pub error : HeaderError
  pub len : ℕ

-- struct stat, with its times in seconds.
pub record Stat : Type 0 where
  pub dev : ℕ
  pub ino : ℕ
  pub mode : ℕ
  pub nlink : ℕ
  pub uid : ℕ
  pub gid : ℕ
  pub rdev : ℕ
  pub size : ℕ
  pub blksize : ℕ
  pub blocks : ℕ
  pub atime : ℕ
  pub mtime : ℕ
  pub ctime : ℕ

-- struct fuse_attr.
pub record Attr : Type 0 where
  pub ino : ℕ
  pub mode : ℕ
  pub nlink : ℕ
  pub uid : ℕ
  pub gid : ℕ
  pub rdev : ℕ
  pub size : ℕ
  pub blksize : ℕ
  pub blocks : ℕ
  pub atime : ℕ
  pub mtime : ℕ
  pub ctime : ℕ
  pub atimensec : ℕ
  pub mtimensec : ℕ
  pub ctimensec : ℕ

-- The fields of 32 bits are cut.
unfoldable pub convert_stat : Stat → Attr
convert_stat s = record {
  ino = s.ino;
  mode = s.mode % 2 ^ 32;
  nlink = s.nlink % 2 ^ 32;
  uid = s.uid % 2 ^ 32;
  gid = s.gid % 2 ^ 32;
  rdev = s.rdev % 2 ^ 32;
  size = s.size;
  blksize = s.blksize % 2 ^ 32;
  blocks = s.blocks;
  atime = s.atime;
  mtime = s.mtime;
  ctime = s.ctime;
  atimensec = 0;
  mtimensec = 0;
  ctimensec = 0;
}

-- A time in whole seconds and the nanoseconds beside them.
pub record Timeout : Type 0 where
  pub sec : ℕ
  pub nsec : ℕ

-- struct fuse_entry_param.
pub record EntryParam : Type 0 where
  pub ino : ℕ
  pub generation : ℕ
  pub attr : Stat
  pub attr_timeout : Timeout
  pub entry_timeout : Timeout

-- struct fuse_entry_out.
pub record EntryOut : Type 0 where
  pub nodeid : ℕ
  pub generation : ℕ
  pub entry_valid : Timeout
  pub attr_valid : Timeout
  pub attr : Attr

unfoldable pub fill_entry : EntryParam → EntryOut
unfolding convert_stat
fill_entry e = record {
  nodeid = e.ino;
  generation = e.generation;
  entry_valid = e.entry_timeout;
  attr_valid = e.attr_timeout;
  attr = convert_stat e.attr;
}

-- The flags of struct fuse_file_info that the replies look at, and `fh`.
pub record FileInfo : Type 0 where
  pub fh : ℕ
  pub direct_io : Bool
  pub keep_cache : Bool
  pub cache_readdir : Bool
  pub nonseekable : Bool

pub data OpenFlag : Type 0 where
  fopen_direct_io fopen_keep_cache fopen_cache_dir fopen_nonseekable : OpenFlag

-- struct fuse_open_out, whose flags are listed.
pub record OpenOut : Type 0 where
  pub fh : ℕ
  pub open_flags : List OpenFlag

abbrev flag_if : Bool → OpenFlag → List OpenFlag
flag_if b flag = if b then flag ∷ [] else []

unfoldable pub fill_open : FileInfo → OpenOut
fill_open f = record {
  fh = f.fh;
  open_flags =
      flag_if f.direct_io fopen_direct_io
      ++ flag_if f.keep_cache fopen_keep_cache
      ++ flag_if f.cache_readdir fopen_cache_dir
      ++ flag_if f.nonseekable fopen_nonseekable;
}

-- The sizes of the structures of FUSE, where `compat` is the size before a version.
pub record OutSizes : Type 0 where
  pub attr_out : ℕ
  pub compat_attr_out : ℕ
  pub entry_out : ℕ
  pub compat_entry_out : ℕ
  pub open_out : ℕ
  pub enoent : ℕ

abbrev add_len : OutHeader → ℕ → OutHeader
add_len h n = record h { len = (h.len + n) % 2 ^ 32 }

-- What stands in the vectors behind the header; for a directory, with the inodes that its entries name.
pub data Payload : Type 0 where
  nothing : Payload
  attr : Timeout → Attr → Payload
  entry : EntryOut → Payload
  opened : OpenOut → Payload
  created : EntryOut → OpenOut → Payload
  listed : Iov → List ℕ → Payload

module _ (sizes : OutSizes) (proto_minor : ℕ) where
  unfoldable pub reply_attr : OutHeader → Stat → Timeout → OutHeader × Payload
  unfolding convert_stat
  reply_attr h s timeout =
      let size = if ltb proto_minor 9 then sizes.compat_attr_out else sizes.attr_out in
      (add_len h size, attr timeout (convert_stat s))

  unfoldable pub reply_entry : OutHeader → EntryParam → OutHeader × Payload
  unfolding fill_entry
  reply_entry h e =
      let size = if ltb proto_minor 9 then sizes.compat_entry_out else sizes.entry_out in
      if (e.ino == 0) && ltb proto_minor 4
      then (record h { error = minus sizes.enoent }, nothing)
      else (add_len h size, entry (fill_entry e))

  unfoldable pub reply_open : OutHeader → FileInfo → OutHeader × Payload
  unfolding fill_open
  reply_open h fi = (add_len h sizes.open_out, opened (fill_open fi))

  unfoldable pub reply_create : OutHeader → EntryParam → FileInfo → OutHeader × Payload
  unfolding fill_entry fill_open
  reply_create h e fi =
      let entrysize = if ltb proto_minor 9 then sizes.compat_entry_out else sizes.entry_out in
      (add_len h (entrysize + sizes.open_out), created (fill_entry e) (fill_open fi))
