-- ===== src/Nfs/Flight/Leak.antt =====
-- The slot of a request that dpfs_nfs refuses after it has claimed one.
use dpfs.Prelude.{ℕ, ◌≡◌, refl, Bool, true, false, none, some, List, [], ◌∷◌, ◌++◌, map}
use dpfs.Mpool.{RingOps, mpool_alloc, mpool_free}
use dpfs.Mpool.Laws.{alloc-front}
use dpfs.Nfs.Inode.{Inode, inode_table_get}
use dpfs.Nfs.Session.{Session, SequenceArgs, op_sequence}
use dpfs.Nfs.Session.Slots.{in_use_at}
use dpfs.Nfs.State.{
  Headers, Query, World, Vnfs, stop, H, ◌>>=◌, alloc_cb, claim_slot, find_inode, fail_with, enoent,
  nothing,
}
use dpfs.Nfs.Requests.{lookup, getattr, vfsync, vread, vwrite}
use dpfs.Nfs.Flight.{
  Run, Call, lookup_call, getattr_call, statfs_call, fsync_call, open_call, release_call, read_call,
  write_call, handle,
}
use dpfs.Nfs.Flight.Held.{Assets, Settled, Without, slot_of, front-IsHeld, back-IsHeld}
use dpfs.Nfs.Flight.Triples.{After, alloc_triple, claim_triple, freed}
use dpfs.Nfs.Flight.Invariant.{Run-Settled}

-- The requests whose handler looks the inode up when it holds a chunk and a slot.
abbrev pub finds_inode : Call → Bool
finds_inode (lookup_call name) = true
finds_inode getattr_call = true
finds_inode statfs_call = false
finds_inode fsync_call = true
finds_inode open_call = false
finds_inode release_call = false
finds_inode (read_call size offset iov) = true
finds_inode (write_call offset iov) = true

abbrev pub lose : ℕ → Assets → Assets
lose i a = record { chunks = a.chunks; lost = i ∷ a.lost }

module _ (ring : RingOps) where
  -- The state in which a handler gives up on a node that is not known.
  abbrev pub given_up : Vnfs ring → Session → ℕ → Vnfs ring
  given_up s session c = record s {
    session = session;
    pool = mpool_free ring (mpool_alloc ring s.pool).1 c;
  }

  given_up_lem :
      (w : World) (q : Query) (s : Vnfs ring) (k : ℕ → SequenceArgs → Inode → H ring (Unit {0}))
      (c : ℕ) (cs : List ℕ) (args : SequenceArgs) (session : Session)
      → inode_table_get s.inodes q.nodeid ≡ none
      → ring.contents s.pool ≡ c ∷ cs
      → op_sequence w.past w.stale s.session false ≡ some (args, session)
      → (do
        chunk ← alloc_cb ring q
        seq ← claim_slot ring w
        i ← find_inode ring q chunk
        k chunk seq i)
          s
        ≡ stop (fail_with q.out enoent) nothing (given_up s session c)
  unfolding alloc_cb claim_slot find_inode
  given_up_lem w q s k c cs args session unknown free claimed =
      rw (
        alloc-front ring s.pool c cs free,
        claimed,
        unknown,
        alloc_cb,
        claim_slot,
        find_inode,
        ◌>>=◌,
      )

  pub given_up-Settled :
      (a : Assets) (acc : List ℕ) (w : World) (q : Query) (s : Vnfs ring) (c : ℕ) (cs : List ℕ)
      (args : SequenceArgs) (session : Session)
      → Settled ring a acc s
      → ring.contents s.pool ≡ c ∷ cs
      → op_sequence w.past w.stale s.session false ≡ some (args, session)
      → Settled ring (lose args.slotid a) acc (given_up s session c)
  unfolding alloc_cb claim_slot
  given_up-Settled a acc w q s c cs args session b free claimed =
      let b1 =
        rw (alloc_cb, alloc-front ring s.pool c cs free, After) at
          ((alloc_triple ring a acc q).run s b) in
      let b2 = rw (claim_slot, claimed, After) at ((claim_triple ring a acc w c).run _ b1) in
      freed ring (lose args.slotid a) acc c [] []
        (record s { session = session; pool = (mpool_alloc ring s.pool).1 })
        (record {
          inodes = b2.inodes;
          chunks = b2.chunks;
          lengths = b2.lengths;
          room = b2.room;
          slots = back-IsHeld session.slots args.slotid (map slot_of s.pending) a.lost b2.slots;
          contexts = b2.contexts;
        })

  pub gives_up :
      (lib : Headers) (call : Call) (w : World) (q : Query) (s : Vnfs ring) (c : ℕ) (cs : List ℕ)
      (args : SequenceArgs) (session : Session)
      → finds_inode call ≡ true
      → inode_table_get s.inodes q.nodeid ≡ none
      → ring.contents s.pool ≡ c ∷ cs
      → op_sequence w.past w.stale s.session false ≡ some (args, session)
      → handle ring lib call w q s ≡ stop (fail_with q.out enoent) nothing (given_up s session c)
  unfolding handle lookup getattr vfsync vread vwrite
  gives_up lib (lookup_call name) w q s c cs args session f unknown free claimed =
      given_up_lem w q s _ c cs args session unknown free claimed
  gives_up lib getattr_call w q s c cs args session f unknown free claimed =
      given_up_lem w q s _ c cs args session unknown free claimed
  gives_up lib statfs_call w q s c cs args session f unknown free claimed = cc
  gives_up lib fsync_call w q s c cs args session f unknown free claimed =
      given_up_lem w q s _ c cs args session unknown free claimed
  gives_up lib open_call w q s c cs args session f unknown free claimed = cc
  gives_up lib release_call w q s c cs args session f unknown free claimed = cc
  gives_up lib (read_call size offset iov) w q s c cs args session f unknown free claimed =
      given_up_lem w q s _ c cs args session unknown free claimed
  gives_up lib (write_call offset iov) w q s c cs args session f unknown free claimed =
      given_up_lem w q s _ c cs args session unknown free claimed

  -- From settled books, a lookup, getattr, fsync, read or write for a node that is not known,
  -- when a chunk and a slot are free, is refused with -ENOENT and sends nothing, and the books
  -- are settled again; but the slot that it claimed joins those that are in use for nothing.
  pub unknown-loses_slot :
      (lib : Headers) (a : Assets) (acc : List ℕ) (call : Call) (w : World) (q : Query)
      (s : Vnfs ring) (c : ℕ) (cs : List ℕ) (args : SequenceArgs) (session : Session)
      → finds_inode call ≡ true
      → Settled ring a acc s
      → inode_table_get s.inodes q.nodeid ≡ none
      → ring.contents s.pool ≡ c ∷ cs
      → op_sequence w.past w.stale s.session false ≡ some (args, session)
      → (s' : Vnfs ring) × (handle ring lib call w q s ≡ stop (fail_with q.out enoent) nothing s')
        × (s'.pending ≡ s.pending)
        × Settled ring (lose args.slotid a) acc s'
  unknown-loses_slot lib a acc call w q s c cs args session finds b unknown free claimed = (
    given_up s session c,
    gives_up lib call w q s c cs args session finds unknown free claimed,
    refl,
    given_up-Settled a acc w q s c cs args session b free claimed,
  )

  Without-left : (i : ℕ) (xs ys : List ℕ) → Without i (xs ++ ys) → Without i xs
  Without-left i [] ys w = tt
  Without-left i (x ∷ xs) ys (ne, w) = (ne, Without-left i xs ys w)

  -- From settled books, a slot that is in use for nothing stays so: however the thread goes on,
  -- it is in use and no pending request has it.
  pub Run-lost :
      (lib : Headers) (a : Assets) (i : ℕ) (acc0 acc : List ℕ) (s t : Vnfs ring)
      → Settled ring (lose i a) acc0 s
      → Run ring lib s acc t
      → (in_use_at t.session.slots i ≡ true) × Without i (map slot_of t.pending)
  Run-lost lib a i acc0 acc s t b run =
      let b' = Run-Settled ring lib (lose i a) s acc0 acc t b run in
      let held = front-IsHeld t.session.slots i (map slot_of t.pending) a.lost b'.slots in
      (held.1, Without-left i (map slot_of t.pending) a.lost held.2)
