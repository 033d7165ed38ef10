-- ===== src/Nfs/Wire/Attributes.antt =====
-- The attribute parsers of dpfs_nfs/nfs_v4.c. The C code walks a pointer `buf` and an int `len` that
-- is meant to count the bytes left; the model keeps the two apart, since they can disagree. On an
-- error the caller drops the attributes, so the fields written until then are not kept.
pub mod Reader
pub mod Strings
pub mod RoundTrip
pub mod StatfsTrip
pub mod Length
use Prim.Native.Nat.{bit_or}
use dpfs.Prelude.{
  ℕ, zero, suc, ◌+◌, ◌-◌, ◌*◌, ◌/◌, ◌%◌, ◌^◌, Bool, true, false, ◌&&◌, List, [], ◌∷◌, ltb, leb,
  ◌==◌, if◌then◌else◌,
}
use Reader.{
  Parse, ok, short, fault, negative, Cursor, cursor, P, pure, ◌>>=◌, ◌>>◌, check, skip, spend,
  field32, field64, field64_ntoh, result,
}

-- `attr->mode |= S_IF...`: the file types of NFS and of POSIX, whose numbers stand in their headers.
pub record FileTypes : Type 0 where
  pub nf4reg : ℕ
  pub nf4dir : ℕ
  pub nf4blk : ℕ
  pub nf4chr : ℕ
  pub nf4lnk : ℕ
  pub nf4sock : ℕ
  pub nf4fifo : ℕ
  pub s_ifreg : ℕ
  pub s_ifdir : ℕ
  pub s_ifblk : ℕ
  pub s_ifchr : ℕ
  pub s_iflnk : ℕ
  pub s_ifsock : ℕ
  pub s_ififo : ℕ

unfoldable pub with_type : FileTypes → ℕ → ℕ → ℕ
with_type t type mode =
    if type == t.nf4reg
    then bit_or mode t.s_ifreg
    else if type == t.nf4dir
    then bit_or mode t.s_ifdir
    else if type == t.nf4blk
    then bit_or mode t.s_ifblk
    else if type == t.nf4chr
    then bit_or mode t.s_ifchr
    else if type == t.nf4lnk
    then bit_or mode t.s_iflnk
    else if type == t.nf4sock
    then bit_or mode t.s_ifsock
    else if type == t.nf4fifo
    then bit_or mode t.s_ififo
    else mode

abbrev pub is_digit : ℕ → Bool
is_digit b = leb b'0' b && leb b b'9'

-- The loop of `nfs_get_ugid`: `slen` bytes of decimal digits, 65534 at the first other byte.
-- A number past the width of the signed `int` wraps, as it does on the machines that this is built for;
-- C leaves it open.
unfoldable pub ugid_loop : (slen ugid : ℕ) → List ℕ → Parse ℕ
ugid_loop zero ugid buf = ok ugid
ugid_loop (suc slen) ugid [] = fault
ugid_loop (suc slen) ugid (b ∷ buf) =
    let rest = ugid_loop slen ((ugid * 10 + (b - b'0')) % 2 ^ 32) buf in
    if is_digit b then rest else ok 65534

unfoldable pub nfs_get_ugid : ℕ → P ℕ
unfolding ugid_loop
nfs_get_ugid slen c = elim (ugid_loop slen 0 c.buf) [
  | ok ugid ↦ ok (ugid, c)
  | short ↦ short
  | fault ↦ fault
  | negative ↦ negative
]

-- `pad = (4 - (slen & 0x03)) & 0x03`.
abbrev pub pad_of : ℕ → ℕ
pad_of slen = (4 - slen % 4) % 4

-- `CHECK_GETATTR_BUF_SPACE(len, slen)` with an int `slen`: from 2^31 on the length is negative.
unfoldable pub check_slen : ℕ → P (Unit {0})
check_slen slen c = if ltb slen (2 ^ 31) then check slen c else negative

-- Owner and group: `buf` moves past the string, `len` does not.
unfoldable pub ugid_field : P ℕ
unfolding check_slen nfs_get_ugid
ugid_field = do
  slen ← field32
  check_slen slen
  ugid ← nfs_get_ugid slen
  skip slen
  check (pad_of slen)
  skip (pad_of slen)
  spend (pad_of slen)
  pure ugid

abbrev pub vnfs_blksize : ℕ
vnfs_blksize = 8192

pub record FuseAttr : Type 0 where
  pub size : ℕ
  pub ino : ℕ
  pub mode : ℕ
  pub nlink : ℕ
  pub uid : ℕ
  pub gid : ℕ
  pub atime : ℕ
  pub atimensec : ℕ
  pub ctime : ℕ
  pub ctimensec : ℕ
  pub mtime : ℕ
  pub mtimensec : ℕ
  pub blksize : ℕ
  pub blocks : ℕ
  pub rdev : ℕ

unfoldable pub parse_attributes : FileTypes → P FuseAttr
parse_attributes types = do
  type ← field32
  size ← field64
  ino ← field64
  mode ← field32
  nlink ← field32
  uid ← ugid_field
  gid ← ugid_field
  space_used ← field64
  atime ← field64
  atimensec ← field32
  ctime ← field64
  ctimensec ← field32
  mtime ← field64
  mtimensec ← field32
  pure (record {
    size = size;
    ino = ino;
    mode = with_type types type mode;
    nlink = nlink;
    uid = uid;
    gid = gid;
    atime = atime;
    atimensec = atimensec;
    ctime = ctime;
    ctimensec = ctimensec;
    mtime = mtime;
    mtimensec = mtimensec;
    blksize = vnfs_blksize;
    blocks = (space_used + vnfs_blksize - 1) % 2 ^ 64 / vnfs_blksize;
    rdev = 0;
  })

-- `nfs_parse_attributes(attr, buf, len)`, for a `len` below 2 ^ 31, where the conversion of the length in
-- the answer to an `int` changes nothing.
unfoldable pub nfs_parse_attributes : FileTypes → List ℕ → ℕ → Parse FuseAttr
nfs_parse_attributes types buf len = result (parse_attributes types (cursor buf len))

pub record Kstatfs : Type 0 where
  pub bsize : ℕ
  pub frsize : ℕ
  pub ffree : ℕ
  pub files : ℕ
  pub namelen : ℕ
  pub bavail : ℕ
  pub bfree : ℕ
  pub blocks : ℕ

unfoldable pub parse_statfs : P Kstatfs
parse_statfs = do
  ffree ← field64_ntoh
  files ← field64_ntoh
  namelen ← field32
  avail ← field64_ntoh
  free ← field64_ntoh
  total ← field64_ntoh
  pure (record {
    bsize = vnfs_blksize;
    frsize = vnfs_blksize;
    ffree = ffree;
    files = files;
    namelen = namelen;
    bavail = avail / vnfs_blksize;
    bfree = free / vnfs_blksize;
    blocks = total / vnfs_blksize;
  })

-- `nfs_parse_statfs(stat, buf, len)`.
unfoldable pub nfs_parse_statfs : List ℕ → ℕ → Parse Kstatfs
nfs_parse_statfs buf len = result (parse_statfs (cursor buf len))
