-- ===== src/Nfs/State.antt =====
-- What a polling thread of dpfs_nfs works on: its session, its pool of callback data, the inodes,
-- and the requests that libnfs has accepted and not yet answered (dpfs_nfs/dpfs_nfs.h and
-- dpfs_nfs/dpfs_nfs.c). A pointer to an inode is its fileid, since inodes are never removed.
use dpfs.Prelude.{ℕ, ◌+◌, Bool, false, Option, none, some, List, ◌∷◌, if◌then◌else◌, leb, ◌==◌}
use dpfs.Mpool.{RingOps, mpool_alloc, mpool_free}
use dpfs.Nfs.Connect.Args.{ExchangeIdArgs, CreateSessionArgs}
use dpfs.Nfs.Inode.{Inode, InodeTable, inode_table_get}
use dpfs.Nfs.Session.{Slot, Session, SequenceArgs, op_sequence}
use dpfs.Nfs.Wire.Attributes.{FileTypes, FuseAttr, Kstatfs}

-- Numbers that stand in the headers of libnfs and of the FUSE protocol: the file types, the status
-- codes that are told apart, the length of a handle, and the sizes of the structs that are sent.
pub record Headers : Type 0 where
  pub types : FileTypes
  pub nfs4err_mlink : ℕ
  pub nfs4err_grace : ℕ
  pub nfs4err_nofilehandle : ℕ
  pub nfs4_fhsize : ℕ
  pub attr_out : ℕ
  pub compat_attr_out : ℕ
  pub entry_out : ℕ
  pub compat_entry_out : ℕ
  pub statfs_out : ℕ
  pub compat_statfs : ℕ
  pub open_out : ℕ
  pub write_out : ℕ

-- `status` is an NFS status that is also the number of an errno.
pub data Errno : Type 0 where
  enomem enoent eremoteio eagain ebadf enosys : Errno
  status : ℕ → Errno

unfoldable pub nfs_error_to_fuse_error : Headers → ℕ → Errno
nfs_error_to_fuse_error lib code =
    if leb code lib.nfs4err_mlink
    then status code
    else if code == lib.nfs4err_grace
    then eagain
    else if code == lib.nfs4err_nofilehandle
    then ebadf
    else enosys

-- `error` is the errno whose negation is stored, `none` for 0.
pub record OutHdr : Type 0 where
  pub error : Option Errno
  pub len : ℕ

abbrev pub fail_with : OutHdr → Errno → OutHdr
fail_with hdr e = record hdr { error = some e }

abbrev pub add_len : OutHdr → ℕ → OutHdr
add_len hdr n = record hdr { len = hdr.len + n }

-- A FUSE request: the node, the place that completion is reported to, the minor version of the
-- protocol and the header of the answer as it is handed in.
pub record Query : Type 0 where
  pub nodeid : ℕ
  pub ctx : ℕ
  pub proto_minor : ℕ
  pub out : OutHdr

pub data AttrSet : Type 0 where
  standard_attributes statfs_attributes : AttrSet

-- The operations of a compound. `uninit` is an element of the array that nothing was written to.
pub data ArgOp : Type 0 where
  sequence : SequenceArgs → ArgOp
  putfh : List ℕ → ArgOp
  lookup_op : List ℕ → ArgOp
  getattr_op : AttrSet → ArgOp
  getfh : ArgOp
  open_nocreate : (clientid owner : ℕ) → ArgOp
  close : (stateid : ℕ) → ArgOp
  commit : (offset count : ℕ) → ArgOp
  read_op : (stateid count offset : ℕ) → ArgOp
  write_op : (stateid offset len : ℕ) → ArgOp
  exchange_id : ExchangeIdArgs → ArgOp
  create_session : CreateSessionArgs → ArgOp
  putrootfh : ArgOp
  reclaim_complete : (one_fs : Bool) → ArgOp
  uninit : ArgOp

-- The operation-specific part of the callback data.
pub data Kind : Type 0 where
  lookups getattrs statfses writes fsyncs : Kind
  opens : (inode owner_val : ℕ) → Kind
  reads : (iov : List ℕ) → Kind
  releases : (inode : ℕ) → Kind

-- `chunk` is the address of the callback data itself.
pub record CbData : Type 0 where
  pub chunk : ℕ
  pub ctx : ℕ
  pub slotid : ℕ
  pub proto_minor : ℕ
  pub hdr : OutHdr
  pub kind : Kind

pub record Request : Type 0 where
  pub args : List ArgOp
  pub cb_data : CbData

-- What the answer holds besides the header; with an error the host reads nothing but the header.
pub data Out : Type 0 where
  nothing : Out
  attr_of_file : FuseAttr → Out
  entry : FuseAttr → (nodeid generation : ℕ) → Out
  fs_status : Kstatfs → Out
  opened : Out
  written : ℕ → Out
  filled : List (ℕ × List ℕ) → Out

-- A call of dpfs_hal_async_complete.
pub record Completion : Type 0 where
  pub ctx : ℕ
  pub hdr : OutHdr
  pub out : Out

-- What the outside answers during one call: the slot that stands past the array, the old content of
-- a field, whether libnfs accepts the request, and whether calloc finds memory.
pub record World : Type 0 where
  pub past : Slot
  pub stale : ℕ
  pub accepts : Bool
  pub alloc : Bool

module _ (ring : RingOps) where
  pub record Vnfs : Type 0 where
    pub session : Session
    pub inodes : InodeTable
    pub pool : ring.Ring
    pub open_owner_counter : ℕ
    pub clientid : ℕ
    pub pending : List Request
    pub completed : List Completion

  -- `stop` is `return 0` with the header and what was written for the host; `waits` is a poller that
  -- sleeps until a slot is released; `crash` is a read through NULL.
  pub data Step (A : Type 0) : Type 0 where
    next : A → Vnfs → Step A
    stop : OutHdr → Out → Vnfs → Step A
    waits crash : Step A

  abbrev pub H : Type 0 → Type 0
  H A = Vnfs → Step A

module _ {ring : RingOps} {A B : Type 0} where
  infixl 5 ◌>>=◌
  abbrev pub ◌>>=◌ : H ring A → (A → H ring B) → H ring B
  ◌>>=◌ m f s = elim (m s) [
    | next a s' ↦ f a s'
    | stop hdr out s' ↦ stop hdr out s'
    | waits ↦ waits
    | crash ↦ crash
  ]

module _ (ring : RingOps) where
  -- `mpool_alloc`, and -ENOMEM when the pool is empty.
  unfoldable pub alloc_cb : Query → H ring ℕ
  alloc_cb q s =
      let (chunk, p) = mpool_alloc ring s.pool in
      elim chunk [
        | none ↦ stop (fail_with q.out enomem) nothing (record s { pool = p })
        | some c ↦ next c (record s { pool = p })
      ]

  unfoldable pub claim_slot : World → H ring SequenceArgs
  claim_slot w s = elim (op_sequence w.past w.stale s.session false) [
    | none ↦ waits
    | some (args, session) ↦ next args (record s { session = session })
  ]

  -- `inode_table_get`; a nodeid that is not known gives the chunk back and answers -ENOENT.
  unfoldable pub find_inode : Query → ℕ → H ring Inode
  find_inode q chunk s = elim (inode_table_get s.inodes q.nodeid) [
    | none ↦
        stop (fail_with q.out enoent) nothing (record s { pool = mpool_free ring s.pool chunk })
    | some i ↦ next i s
  ]

  -- `rpc_nfs4_compound_async`: the request is on its way, and the handler returns EWOULDBLOCK; or
  -- the chunk is given back and the answer is -EREMOTEIO.
  unfoldable pub submit : World → Query → CbData → List ArgOp → H ring (Unit {0})
  submit w q data' args s =
      if w.accepts
      then next tt (record s { pending = record { args = args; cb_data = data' } ∷ s.pending })
      else stop (fail_with q.out eremoteio) nothing
          (record s { pool = mpool_free ring s.pool data'.chunk })

  abbrev pub cb_data : Query → ℕ → SequenceArgs → Kind → CbData
  cb_data q chunk seq kind = record {
    chunk = chunk;
    ctx = q.ctx;
    slotid = seq.slotid;
    proto_minor = q.proto_minor;
    hdr = q.out;
    kind = kind;
  }
