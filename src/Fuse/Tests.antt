-- ===== src/Fuse/Tests.antt =====
-- The writer at two vectors of four bytes each, a LOOKUP on a session that is ready, and a handshake.
use dpfs.Fuse.Reply.{EntryParam}
use dpfs.Fuse.Direntry.{Layout, add_direntry_plus}
use dpfs.Fuse.Direntry.Added.{IsLayout, Added, add_direntry_plus-Added}
use dpfs.Prelude.{
  ◌*◌, ◌/◌, replicate, ℕ, ◌+◌, ◌≡◌, List, [], ◌∷◌, arith, refl, Bool, true, false, not, Option,
  none, some, ◌==◌, if◌then◌else◌,
}
use dpfs.Fuse.Dispatch.{FuseOp, lookup, readdir, FuseReq, FuseSession, calls, faulted, handle_req}
use dpfs.Fuse.Dispatch.Guarded.{IsNumbered, handle_req-Guarded}
use dpfs.Fuse.Init.{Sizes, InitIn, InitSession, OpDone, InitResult, accepted}
use dpfs.Fuse.Init.Agreed.{Agreed}
use dpfs.Fuse.Iov.{Iov, iov_init, copy_at, returned, iov_write_buf}
use dpfs.Fuse.Iov.Repeats.{iov_write_buf-repeats}
use dpfs.Fuse.Iov.Fits.{IsWriter, init-IsWriter, iov_write_buf-IsWriter, at}

abbrev four : List ℕ
four = 0 ∷ 0 ∷ 0 ∷ 0 ∷ []

abbrev six : List ℕ
six = 1 ∷ 2 ∷ 3 ∷ 4 ∷ 5 ∷ 6 ∷ []

abbrev writer : Iov
writer = at [] (four ∷ four ∷ []) 0 8 8

writer-IsWriter : IsWriter writer
writer-IsWriter = record { place = omega arith; room = omega arith; small = omega arith }

iov_write_buf-IsWriter_example :
    (iov : Iov) × (iov_write_buf writer six ≡ returned 6 iov)
    × IsWriter iov
    × (iov.bytes_unused + 6 ≡ 8)
iov_write_buf-IsWriter_example = (iov_write_buf-IsWriter writer six writer-IsWriter).0 (omega arith)

-- The second vector begins with 1 and 2, not with 5 and 6.
iov_write_buf-repeats_example :
    iov_write_buf writer six
    ≡ returned 6 (at ((1 ∷ 2 ∷ 3 ∷ 4 ∷ []) ∷ []) ((1 ∷ 2 ∷ 0 ∷ 0 ∷ []) ∷ []) 2 8 2)
unfolding copy_at
iov_write_buf-repeats_example =
    iov_write_buf-repeats four four six [] [] 8 8 (omega arith) (omega arith) (omega arith)
      (omega arith)

abbrev gives_all : FuseOp → Bool
gives_all op = true

abbrev only_lookup : ℕ → Option FuseOp
only_lookup n = if n == 1 then some lookup else none

abbrev ready : FuseSession
ready = record { init_done = true; got_destroy = false }

abbrev asks : FuseReq
asks = record {
  opcode = 1;
  in_iov = 40 ∷ 6 ∷ [];
  out_iov = 16 ∷ 128 ∷ [];
  size = 0;
  lk_flock = false;
}

handle_req-Guarded_example :
    (handle_req gives_all only_lookup 47 ready asks ≡ calls lookup ready)
    × IsNumbered gives_all only_lookup 47 ready asks lookup
unfolding handle_req
handle_req-Guarded_example = (refl, handle_req-Guarded gives_all only_lookup 47 ready asks)

-- A READDIR with one input vector gets past the test of the vectors and reads the second one.
short_readdir :
    handle_req gives_all (λ n. some readdir) 47 ready (record asks { in_iov = 40 ∷ [] }) ≡ faulted
unfolding handle_req
short_readdir = refl

abbrev sizes : Sizes
sizes = record {
  page = 4096;
  min_read = 8192;
  header = 4096;
  default_pages = 32;
  background = 100000;
}

-- The kernel offers everything but capability 10.
abbrev kernel : InitIn
kernel = record {
  major = 7;
  minor = 31;
  flags = λ c. not (c == 10);
  pages = true;
  max_readahead = 131072;
}

abbrev fresh : InitSession
fresh = record {
  got_init = false;
  got_destroy = false;
  failed = false;
  bufsize = 1052672;
  conn = record {
    proto_major = 0;
    proto_minor = 0;
    max_write = 4294967295;
    max_readahead = 4294967295;
    capable = λ c. false;
    want = λ c. false;
    max_background = 0;
    congestion_threshold = 0;
    time_gran = 0;
  };
}

abbrev no_init : InitSession → InitIn → OpDone
no_init s q = record { session = s; res = 0; error = 0 }

-- The largest write and the background requests that are answered.
abbrev counts : InitResult → Option (ℕ × ℕ)
counts (accepted out s) = some (out.max_write, out.max_background)
counts _ = none

-- A struct fuse_dirent of 24 bytes, in front of which a READDIRPLUS has an entry of 128.
abbrev pub layout : Layout
layout = record {
  name_offset = 24;
  name_offset_plus = 152;
  align = λ n. (n + 7) / 8 * 8;
  dirent = λ ino off namelen t. replicate 24 0;
  entry_out = λ e. replicate 128 0;
}

pub layout-IsLayout : IsLayout layout
layout-IsLayout = record {
  dirent_size = λ ino off n t. refl;
  entry_size = λ e. refl;
  more = λ n. omega arith;
  some_front = omega arith;
}

abbrev buffer : Iov
buffer = iov_init (replicate 200 0 ∷ [])

abbrev a_file : EntryParam
a_file = record {
  ino = 1000;
  generation = 0;
  attr = record {
    dev = 7;
    ino = 42;
    mode = 33188;
    nlink = 1;
    uid = 0;
    gid = 0;
    rdev = 0;
    size = 10;
    blksize = 4096;
    blocks = 8;
    atime = 0;
    mtime = 0;
    ctime = 0;
  };
  attr_timeout = record { sec = 0; nsec = 0 };
  entry_timeout = record { sec = 0; nsec = 0 };
}

add_direntry_plus-Added_example :
    Added buffer 160 (add_direntry_plus layout buffer (97 ∷ []) a_file 1)
add_direntry_plus-Added_example =
    add_direntry_plus-Added layout layout-IsLayout buffer
      (init-IsWriter (replicate 200 0 ∷ []) (omega arith)).0 (97 ∷ []) a_file 1
