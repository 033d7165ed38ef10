-- ===== src/Nfs/Answers.antt =====
-- What the callbacks of dpfs_nfs/dpfs_nfs.c report to the host.
use dpfs.Prelude.{
  ℕ, ◌<◌, ◌≡◌, refl, Option, none, some, List, lt→ltb, length, take, [], ◌∷◌, ◌++◌, ◌==◌, false,
  if◌then◌else◌,
}
use dpfs.Mpool.{RingOps}
use dpfs.Mpool.Laws.{free-contents}
use dpfs.Nfs.Session.Slots.{in_use_at, in_use-set_in_use}
use dpfs.Nfs.Session.{release_slot}
use dpfs.Nfs.State.{
  Headers, Errno, eremoteio, nfs_error_to_fuse_error, fail_with, add_len, Kind, lookups, getattrs,
  statfses, writes, fsyncs, opens, reads, releases, CbData, World, Vnfs, nothing, filled,
}
use dpfs.Nfs.Callbacks.{
  rpc_error, nfs_error, nfs_ok, returned, complete, on_answer, lookup_cb, getattr_cb, statfs_cb,
  vwrite_cb, vfsync_cb, vopen_cb, vread_cb, release_cb,
}
use dpfs.Nfs.Iovec.Copy.{room, spread, iovec_write_buf-copies}
use dpfs.Nfs.Iovec.{copied}
use dpfs.Nfs.Flight.{Reply, callback}

-- A failed answer: `none` is a failed call, `some code` a compound whose status is not NFS4_OK.
abbrev pub failed : (k : Kind) → Option ℕ → Reply k
failed lookups none = rpc_error
failed lookups (some code) = nfs_error code
failed getattrs none = rpc_error
failed getattrs (some code) = nfs_error code
failed statfses none = rpc_error
failed statfses (some code) = nfs_error code
failed writes none = rpc_error
failed writes (some code) = nfs_error code
failed fsyncs none = rpc_error
failed fsyncs (some code) = nfs_error code
failed (opens inode owner_val) none = rpc_error
failed (opens inode owner_val) (some code) = nfs_error code
failed (reads iov) none = rpc_error
failed (reads iov) (some code) = nfs_error code
failed (releases inode) none = rpc_error
failed (releases inode) (some code) = nfs_error code

abbrev pub errno_of : Headers → Option ℕ → Errno
errno_of lib none = eremoteio
errno_of lib (some code) = nfs_error_to_fuse_error lib code

module _ (ring : RingOps) (lib : Headers) where
  pub failed_lem :
      (w : World) (k : Kind) (d : CbData) (e : Option ℕ) (s : Vnfs ring)
      → callback ring lib w k d (failed k e) s
        ≡ returned (
            complete ring d
              (fail_with d.hdr (errno_of lib e))
              nothing
              (record s { session = release_slot s.session d.slotid }))
  unfolding callback lookup_cb getattr_cb statfs_cb vwrite_cb vfsync_cb vopen_cb vread_cb release_cb
      on_answer
  failed_lem w lookups d none s = refl
  failed_lem w lookups d (some code) s = refl
  failed_lem w getattrs d none s = refl
  failed_lem w getattrs d (some code) s = refl
  failed_lem w statfses d none s = refl
  failed_lem w statfses d (some code) s = refl
  failed_lem w writes d none s = refl
  failed_lem w writes d (some code) s = refl
  failed_lem w fsyncs d none s = refl
  failed_lem w fsyncs d (some code) s = refl
  failed_lem w (opens inode owner_val) d none s = refl
  failed_lem w (opens inode owner_val) d (some code) s = refl
  failed_lem w (reads iov) d none s = refl
  failed_lem w (reads iov) d (some code) s = refl
  failed_lem w (releases inode) d none s = refl
  failed_lem w (releases inode) d (some code) s = refl

  -- A failed answer to a request of any kind, whose slot the session has and whose chunk has a place in
  -- the pool: the slot is free then and every other slot is as it was, the chunk is the last one in the
  -- pool, and the request is completed, once, with the errno for the failure in its header, whose length
  -- stays as it is, and nothing written for the host; the inodes and the requests on their way stay.
  pub callback-failed :
      (w : World) (k : Kind) (d : CbData) (e : Option ℕ) (s : Vnfs ring)
      → length (ring.contents s.pool) < ring.capacity s.pool
      → d.slotid < length s.session.slots
      → (s' : Vnfs ring) × (callback ring lib w k d (failed k e) s ≡ returned s')
        × (ring.contents s'.pool ≡ ring.contents s.pool ++ d.chunk ∷ [])
        × ((j : ℕ)
            → in_use_at s'.session.slots j
              ≡ (if d.slotid == j then false else in_use_at s.session.slots j))
        × (s'.completed
            ≡ record {
              ctx = d.ctx;
              hdr = record { error = some (errno_of lib e); len = d.hdr.len };
              out = nothing;
            }
              ∷ s.completed)
        × (s'.inodes ≡ s.inodes)
        × (s'.pending ≡ s.pending)
  unfolding complete release_slot
  callback-failed w k d e s room slot = (
    _,
    failed_lem w k d e s,
    free-contents ring s.pool d.chunk room,
    λ j. in_use-set_in_use s.session.slots d.slotid j false slot,
    refl,
    refl,
    refl,
  )

  -- A READ answer for a host with at least one vector completes the request: the vectors get the data
  -- that fit, in order, each from its start and as much as it holds until none is left, and the header's
  -- length grows by their number.
  pub vread_cb-fills :
      (iov : List ℕ) (d : CbData) (bytes : List ℕ) (s : Vnfs ring)
      → 0 < length iov
      → (ws : List (ℕ × List ℕ)) × (ws ≡ spread 0 iov bytes)
        × (copied ws ≡ take (room iov) bytes)
        × (vread_cb ring lib iov d (nfs_ok bytes) s
            ≡ returned (
                complete ring d
                  (add_len d.hdr (length (take (room iov) bytes)))
                  (filled ws)
                  (record s { session = release_slot s.session d.slotid })))
  unfolding vread_cb on_answer
  vread_cb-fills iov d bytes s h =
      let (ws, e, p, c) = iovec_write_buf-copies iov bytes in
      (ws, p, c, rw (lt→ltb 0 (length iov) h, e, ← c))
