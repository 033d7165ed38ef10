-- ===== src/Nfs/Requests.antt =====
-- The handlers of the FUSE requests of dpfs_nfs (dpfs_nfs/dpfs_nfs.c), up to the point where the
-- request is with libnfs. A handler that comes to an end with `next` has returned EWOULDBLOCK.
use dpfs.Prelude.{
  ℕ, ◌+◌, ◌-◌, ◌%◌, ◌^◌, ◌&&◌, none, some, List, [], ◌∷◌, ◌++◌, ltb, if◌then◌else◌, length,
  replicate,
}
use dpfs.Mpool.{RingOps}
use dpfs.Nfs.Handle.{fh_bytes}
use dpfs.Nfs.Connect.Args.{nfs4_max_ops}
use dpfs.Nfs.Inode.{Inode, inode_table_get, inode_update}
use dpfs.Nfs.State.{
  Headers, fail_with, add_len, enoent, Query, standard_attributes, statfs_attributes, ArgOp,
  sequence, putfh, lookup_op, getattr_op, getfh, open_nocreate, close, commit, read_op, write_op,
  uninit, lookups, getattrs, statfses, opens, reads, writes, fsyncs, releases, nothing, World, next,
  stop, crash, H, ◌>>=◌, alloc_cb, claim_slot, find_inode, submit, cb_data,
}

-- FUSE_ROOT_ID (dpfs_nfs/inode.h gives its value).
abbrev pub fuse_root_id : ℕ
fuse_root_id = 1

-- `atomic_fetch_add` on an atomic_uint, and on an atomic_size_t up and down.
abbrev pub incr32 : ℕ → ℕ
incr32 n = (n + 1) % 2 ^ 32

abbrev pub incr64 : ℕ → ℕ
incr64 n = (n + 1) % 2 ^ 64

abbrev pub decr64 : ℕ → ℕ
decr64 n = (n + 2 ^ 64 - 1) % 2 ^ 64

-- The WRITE operations of a compound: `j` counts them and `offset` is what they cover so far.
unfoldable pub write_ops : (stateid in_offset maxwritesize j offset : ℕ) → List ℕ → List ArgOp
write_ops stateid in_offset max j offset [] = []
write_ops stateid in_offset max j offset (v ∷ iov) =
    let rest = write_ops stateid in_offset max (j + 1) (offset + v) iov in
    if ltb (offset + v) max && ltb (2 + j) nfs4_max_ops
    then write_op stateid ((in_offset + offset) % 2 ^ 64) v ∷ rest
    else []

-- `op[2+in_iov_cnt]`: what the loop does not reach keeps what the stack held.
abbrev pub pad_ops : ℕ → List ArgOp → List ArgOp
pad_ops n filled = filled ++ replicate (n - length filled) uninit

-- `ca_maxrequestsize - 4096`, in 32 bits.
abbrev pub maxwritesize : ℕ → ℕ
maxwritesize ca_maxrequestsize = (ca_maxrequestsize + 2 ^ 32 - 4096) % 2 ^ 32

module _ (ring : RingOps) where
  unfoldable pub lookup : World → Query → List ℕ → H ring (Unit {0})
  lookup w q name = do
    chunk ← alloc_cb ring q
    seq ← claim_slot ring w
    pi ← find_inode ring q chunk
    submit ring w q (cb_data ring q chunk seq lookups) (
        sequence seq
        ∷ putfh (fh_bytes pi.fh)
        ∷ lookup_op name
        ∷ getattr_op standard_attributes
        ∷ getfh
        ∷ [])

  unfoldable pub getattr : World → Query → H ring (Unit {0})
  getattr w q = do
    chunk ← alloc_cb ring q
    seq ← claim_slot ring w
    i ← find_inode ring q chunk
    submit ring w q (cb_data ring q chunk seq getattrs)
        (sequence seq ∷ putfh (fh_bytes i.fh) ∷ getattr_op standard_attributes ∷ [])

  -- The inode of the root is used without a test for NULL.
  unfoldable pub root_inode : H ring Inode
  root_inode s = elim (inode_table_get s.inodes fuse_root_id) [ none ↦ crash | some i ↦ next i s ]

  unfoldable pub statfs : World → Query → H ring (Unit {0})
  unfolding root_inode
  statfs w q = do
    chunk ← alloc_cb ring q
    seq ← claim_slot ring w
    rooti ← root_inode
    submit ring w q (cb_data ring q chunk seq statfses)
        (sequence seq ∷ putfh (fh_bytes rooti.fh) ∷ getattr_op statfs_attributes ∷ [])

  unfoldable pub vfsync : World → Query → H ring (Unit {0})
  vfsync w q = do
    chunk ← alloc_cb ring q
    seq ← claim_slot ring w
    i ← find_inode ring q chunk
    submit ring w q (cb_data ring q chunk seq fsyncs)
        (sequence seq ∷ putfh (fh_bytes i.fh) ∷ commit 0 0 ∷ [])

  unfoldable pub vread : World → Query → (size offset : ℕ) (iov : List ℕ) → H ring (Unit {0})
  vread w q size offset iov = do
    chunk ← alloc_cb ring q
    seq ← claim_slot ring w
    i ← find_inode ring q chunk
    submit ring w q (cb_data ring q chunk seq (reads iov))
        (sequence seq ∷ putfh (fh_bytes i.fh_open) ∷ read_op i.open_stateid size offset ∷ [])

  unfoldable pub max_write : H ring ℕ
  max_write s = next (maxwritesize s.session.ca_maxrequestsize) s

  unfoldable pub vwrite : World → Query → (in_offset : ℕ) (iov : List ℕ) → H ring (Unit {0})
  unfolding max_write
  vwrite w q in_offset iov = do
    chunk ← alloc_cb ring q
    seq ← claim_slot ring w
    i ← find_inode ring q chunk
    max ← max_write
    submit ring w q (cb_data ring q chunk seq writes) (
        sequence seq
        ∷ putfh (fh_bytes i.fh_open)
        ∷ pad_ops (length iov) (write_ops i.open_stateid in_offset max 0 0 iov))

  -- The lookup that `vopen` and `release` begin with: no chunk is held yet.
  unfoldable pub known_inode : Query → H ring Inode
  known_inode q s = elim (inode_table_get s.inodes q.nodeid) [
    | none ↦ stop (fail_with q.out enoent) nothing s
    | some i ↦ next i s
  ]

  unfoldable pub next_owner : H ring (ℕ × ℕ)
  next_owner s =
      next (s.clientid, s.open_owner_counter)
        (record s { open_owner_counter = incr32 s.open_owner_counter })

  -- A file that is open already is counted once more and the answer is filled in; then the request
  -- goes on as for a file that is not.
  unfoldable pub reopen : Headers → Query → Inode → H ring Query
  reopen lib q i s =
      if ltb 0 i.nopen
      then next (record q { out = add_len q.out lib.open_out })
          (record s {
            inodes = inode_update s.inodes i.fileid (λ n. record n { nopen = incr64 n.nopen });
          })
      else next q s

  unfoldable pub vopen : Headers → World → Query → H ring (Unit {0})
  unfolding known_inode reopen next_owner
  vopen lib w q = do
    i ← known_inode q
    q' ← reopen lib q i
    chunk ← alloc_cb ring q'
    seq ← claim_slot ring w
    (clientid, owner) ← next_owner
    submit ring w q' (cb_data ring q' chunk seq (opens i.fileid owner))
        (sequence seq ∷ putfh (fh_bytes i.fh) ∷ open_nocreate clientid owner ∷ getfh ∷ [])

  -- `atomic_fetch_sub`, and the test of the old count, which is cut to 32 bits.
  unfoldable pub drop_open : Query → Inode → H ring (Unit {0})
  drop_open q i s =
      let s' = record s {
        inodes = inode_update s.inodes i.fileid (λ n. record n { nopen = decr64 n.nopen });
      } in
      if ltb 1 (i.nopen % 2 ^ 32) then stop q.out nothing s' else next tt s'

  unfoldable pub release : World → Query → H ring (Unit {0})
  unfolding known_inode drop_open
  release w q = do
    i ← known_inode q
    _ ← drop_open q i
    chunk ← alloc_cb ring q
    seq ← claim_slot ring w
    submit ring w q (cb_data ring q chunk seq (releases i.fileid))
        (sequence seq ∷ putfh (fh_bytes i.fh_open) ∷ close i.open_stateid ∷ [])
