-- ===== src/Fuse/Init.antt =====
-- The handshake of a session (fuse_ll_init of dpfs_fuse/dpfs_fuse.cpp, behind its test of the
-- vectors). A word of capabilities is a function of the number of the bit; the flags of the kernel are
-- numbered like the capabilities of the same name.
pub mod Agreed
use dpfs.Prelude.{
  ℕ, zero, suc, ◌+◌, ◌*◌, ◌-◌, ◌/◌, ◌%◌, ◌^◌, Bool, true, false, not, ◌&&◌, ◌||◌, Option, none,
  some, List, [], ◌∷◌, ltb, leb, ◌==◌, if◌then◌else◌,
}
use dpfs.Fuse.Iov.{sub64, min}

abbrev pub Caps : Type 0
Caps = ℕ → Bool

-- The bits that the kernel's flags are looked at for.
abbrev pub offered_caps : List ℕ
offered_caps =
    0 ∷ 1 ∷ 3 ∷ 4 ∷ 6 ∷ 10 ∷ 12 ∷ 13 ∷ 14 ∷ 15 ∷ 16 ∷ 17 ∷ 18 ∷ 19 ∷ 20 ∷ 23 ∷ 24 ∷ 25 ∷ []

-- The bits that LL_SET_DEFAULT asks for.
abbrev pub default_caps : List ℕ
default_caps = 0 ∷ 18 ∷ 20 ∷ 15 ∷ 11 ∷ 3 ∷ 10 ∷ 13 ∷ 14 ∷ []

-- The bits that the answer has a flag for.
abbrev pub answered_caps : List ℕ
answered_caps = 0 ∷ 1 ∷ 3 ∷ 4 ∷ 6 ∷ 10 ∷ 12 ∷ 13 ∷ 14 ∷ 15 ∷ 16 ∷ 19 ∷ 23 ∷ 25 ∷ []

-- FUSE_BIG_WRITES, which every answer has.
abbrev pub big_writes : ℕ
big_writes = 5

abbrev pub ioctl_dir : ℕ
ioctl_dir = 11

unfoldable pub has : List ℕ → ℕ → Bool
has [] c = false
has (d ∷ caps) c = (d == c) || has caps c

-- struct fuse_init_in; `pages` is FUSE_MAX_PAGES among its flags.
pub record InitIn : Type 0 where
  pub major : ℕ
  pub minor : ℕ
  pub flags : Caps
  pub pages : Bool
  pub max_readahead : ℕ

-- struct fuse_conn_info.
pub record ConnInfo : Type 0 where
  pub proto_major : ℕ
  pub proto_minor : ℕ
  pub max_write : ℕ
  pub max_readahead : ℕ
  pub capable : Caps
  pub want : Caps
  pub max_background : ℕ
  pub congestion_threshold : ℕ
  pub time_gran : ℕ

-- struct fuse_session; `failed` is an `error` of -EPROTO.
pub record InitSession : Type 0 where
  pub got_init : Bool
  pub got_destroy : Bool
  pub failed : Bool
  pub bufsize : ℕ
  pub conn : ConnInfo

-- struct fuse_init_out, whose `max_pages` is not set without the flag of that name.
pub record InitOut : Type 0 where
  pub flags : Caps
  pub max_pages : Option ℕ
  pub max_readahead : ℕ
  pub max_write : ℕ
  pub max_background : ℕ
  pub congestion_threshold : ℕ
  pub time_gran : ℕ

-- What the operation `init` of the file system does: the session after it, what it returns and the
-- error that it puts into the header. It does not change the request, whose `max_readahead` has been
-- settled (`heard`). FUSE_BIG_WRITES, which is always answered, and the lengths in the header are left
-- out.
pub record OpDone : Type 0 where
  pub session : InitSession
  pub res : ℕ
  pub error : ℕ

-- `connected` is an answer of -EISCONN, `too_old` and `unsupported` are of -EPROTO, `second` is the
-- answer to a newer major version, and `op_failed` returns what the operation does.
pub data InitResult : Type 0 where
  connected too_old second unsupported : InitSession → InitResult
  op_failed : ℕ → InitSession → InitResult
  accepted : InitOut → InitSession → InitResult

-- The page size, the constants of FUSE and DPFS_HAL_MAX_BACKGROUND.
pub record Sizes : Type 0 where
  pub page : ℕ
  pub min_read : ℕ
  pub header : ℕ
  pub default_pages : ℕ
  pub background : ℕ

-- `conn.capable` and `conn.want` as the operation finds them.
unfoldable pub capable_of : InitIn → Caps
capable_of q c =
    (leb 6 q.minor && (has offered_caps c && q.flags c)) || (leb 18 q.minor && (c == ioctl_dir))

unfoldable pub buffer_size : Sizes → InitIn → ℕ → ℕ
buffer_size sizes q bufsize =
    let most =
      if leb 6 q.minor && not q.pages
      then min bufsize (sizes.default_pages * sizes.page + sizes.header)
      else bufsize in
    if ltb most sizes.min_read then sizes.min_read else most

unfoldable pub offer : Sizes → InitIn → InitSession → InitSession
unfolding buffer_size
offer sizes q se =
    let size = buffer_size sizes q se.bufsize in
    record se {
      got_init = true;
      bufsize = size;
      conn = record se.conn {
        proto_major = q.major;
        proto_minor = q.minor;
        capable = capable_of q;
        want = λ c. has default_caps c && capable_of q c;
        max_background = sizes.background;
        max_readahead = if leb 6 q.minor then min q.max_readahead se.conn.max_readahead else 0;
        max_write = min (sub64 size sizes.header) se.conn.max_write;
        time_gran = 1;
      };
    }

-- `(want & ~capable) == 0`, over the lowest bits.
unfoldable pub within : ℕ → Caps → Caps → Bool
within zero want capable = true
within (suc n) want capable = within n want capable && (not (want n) || capable n)

-- The bounds on `max_background` and `congestion_threshold`.
unfoldable pub settle : ConnInfo → ConnInfo
settle conn =
    let most = if leb (2 ^ 16) conn.max_background then 2 ^ 16 - 1 else conn.max_background in
    let limit = if ltb most conn.congestion_threshold then most else conn.congestion_threshold in
    let threshold = if limit == 0 then most * 3 / 4 else limit in
    if leb 13 conn.proto_minor
    then record conn { max_background = most; congestion_threshold = threshold }
    else conn

unfoldable pub answer : Sizes → InitIn → ConnInfo → InitOut
answer sizes q conn = record {
  flags = λ c. (c == big_writes) || (has answered_caps c && conn.want c);
  max_pages =
      if q.pages
      then some (((conn.max_write + 2 ^ 32 - 1) % 2 ^ 32 / sizes.page + 1) % 2 ^ 16)
      else none;
  max_readahead = conn.max_readahead;
  max_write = conn.max_write;
  max_background = if leb 13 conn.proto_minor then conn.max_background else 0;
  congestion_threshold = if leb 13 conn.proto_minor then conn.congestion_threshold else 0;
  time_gran = if leb 23 conn.proto_minor then conn.time_gran else 0;
}

unfoldable pub heard : InitSession → InitIn → InitIn
heard se q =
    let settled =
      if leb 6 q.minor then min q.max_readahead se.conn.max_readahead else q.max_readahead in
    record q { max_readahead = settled }

-- What follows the operation.
unfoldable pub conclude : Sizes → InitIn → OpDone → InitResult
unfolding within settle answer
conclude sizes q done =
    let se = done.session in
    let down : InitSession = record se { failed = true; got_destroy = true } in
    if not (done.error == 0) || not (done.res == 0)
    then op_failed done.res down
    else if not (within 32 se.conn.want se.conn.capable)
    then unsupported down
    else accepted (answer sizes q (settle se.conn)) (record se { conn = settle se.conn })

-- Before the operation, on a version that is not served.
unfoldable pub reset : Sizes → InitIn → InitSession → InitSession
reset sizes q se = record se {
  conn = record se.conn {
    proto_major = q.major;
    proto_minor = q.minor;
    capable = λ c. false;
    want = λ c. false;
    max_background = sizes.background;
  };
}

-- A file system without the operation leaves the session as it is, which `init` does then.
unfoldable pub fuse_ll_init :
    Sizes → (InitSession → InitIn → OpDone) → InitSession → InitIn → InitResult
unfolding offer conclude reset heard
fuse_ll_init sizes init se q =
    if se.got_init && not se.got_destroy
    then connected se
    else if ltb q.major 7
    then too_old (reset sizes q se)
    else if ltb 7 q.major
    then second (reset sizes q se)
    else conclude sizes q (init (offer sizes q se) (heard se q))
