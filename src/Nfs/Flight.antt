-- ===== src/Nfs/Flight.antt =====
-- The polling thread of dpfs_nfs as a sequence of steps: the host's requests go to the handlers of
-- dpfs_nfs/dpfs_nfs.c, and the answers of the server, in any order, to the callbacks.
pub mod Held
pub mod Triples
pub mod Handled
pub mod Answered
pub mod Invariant
pub mod Leak
use dpfs.Prelude.{ℕ, ◌≡◌, List, [], ◌∷◌, ◌++◌}
use dpfs.Mpool.{RingOps}
use dpfs.Nfs.State.{
  Headers, Query, Kind, lookups, getattrs, statfses, writes, fsyncs, opens, reads, releases, CbData,
  Request, World, Vnfs, next, stop, H, OutHdr, Out,
}
use dpfs.Nfs.Requests.{lookup, getattr, statfs, vfsync, vread, vwrite, vopen, release}
use dpfs.Nfs.Callbacks.{
  Answer, AttrList, LookupResult, OpenResult, Called, returned, lookup_cb, getattr_cb, statfs_cb,
  vfsync_cb, vread_cb, vwrite_cb, vopen_cb, release_cb,
}

-- What the host asks for, with what the request carries besides its header.
pub data Call : Type 0 where
  lookup_call : (name : List ℕ) → Call
  getattr_call statfs_call fsync_call open_call release_call : Call
  read_call : (size offset : ℕ) → (iov : List ℕ) → Call
  write_call : (offset : ℕ) → (iov : List ℕ) → Call

-- What the server's answer to a request of each kind holds.
abbrev pub Reply : Kind → Type 0
Reply lookups = Answer LookupResult
Reply getattrs = Answer AttrList
Reply statfses = Answer AttrList
Reply writes = Answer (List ℕ)
Reply fsyncs = Answer (Unit {0})
Reply (opens inode owner_val) = Answer OpenResult
Reply (reads iov) = Answer (List ℕ)
Reply (releases inode) = Answer (Unit {0})

module _ (ring : RingOps) (lib : Headers) where
  -- The handler that `dpfs_nfs_main` registers for the request.
  unfoldable pub handle : Call → World → Query → H ring (Unit {0})
  handle (lookup_call name) w q = lookup ring w q name
  handle getattr_call w q = getattr ring w q
  handle statfs_call w q = statfs ring w q
  handle fsync_call w q = vfsync ring w q
  handle open_call w q = vopen ring lib w q
  handle release_call w q = release ring w q
  handle (read_call size offset iov) w q = vread ring w q size offset iov
  handle (write_call offset iov) w q = vwrite ring w q offset iov

  -- The callback that the handler registered.
  unfoldable pub callback : World → (k : Kind) → CbData → Reply k → Vnfs ring → Called ring
  callback w lookups d r = lookup_cb ring lib w d r
  callback w getattrs d r = getattr_cb ring lib d r
  callback w statfses d r = statfs_cb ring lib d r
  callback w writes d r = vwrite_cb ring lib d r
  callback w fsyncs d r = vfsync_cb ring lib d r
  callback w (opens inode owner_val) d r = vopen_cb ring lib inode d r
  callback w (reads iov) d r = vread_cb ring lib iov d r
  callback w (releases inode) d r = release_cb ring lib inode d r

  -- The states that a thread gets to from `s0`. The index in front lists the contexts of the requests
  -- that were accepted, latest first.
  pub data Run (s0 : Vnfs ring) : List ℕ → Vnfs ring → Type 0 where
    start : Run s0 [] s0
    accepted :
        {acc : List ℕ}
        → {s s' : Vnfs ring} → (c : Call) → (w : World) → (q : Query) → Run s0 acc s
        → handle c w q s ≡ next tt s'
        → Run s0 (q.ctx ∷ acc) s'
    refused :
        {acc : List ℕ}
        → {s s' : Vnfs ring} → (c : Call) → (w : World) → (q : Query) → (hdr : OutHdr) → (out : Out)
        → Run s0 acc s
        → handle c w q s ≡ stop hdr out s'
        → Run s0 acc s'
    answered :
        {acc : List ℕ}
        → {s s' : Vnfs ring} → (w : World) → (before after : List Request) → (r : Request)
        → (reply : Reply r.cb_data.kind) → Run s0 acc s
        → s.pending ≡ before ++ r ∷ after
        → callback w r.cb_data.kind r.cb_data reply (record s { pending = before ++ after })
          ≡ returned s'
        → Run s0 acc s'
