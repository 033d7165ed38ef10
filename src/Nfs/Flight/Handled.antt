-- ===== src/Nfs/Flight/Handled.antt =====
-- Every handler of dpfs_nfs keeps the books.
use dpfs.Prelude.{
  length, ◌%◌, ◌^◌, ℕ, ◌≡◌, refl, List, [], ◌∷◌, ltb, Bool-cases, Option-cases, inl, inr,
}
use dpfs.InodeTable.Invariant.{update-IsTable}
use dpfs.Mpool.{RingOps}
use dpfs.Nfs.Handle.{fh_bytes}
use dpfs.Nfs.Inode.{Inode, fileid_of, inode_table_get, inode_update}
use dpfs.Nfs.Session.{SequenceArgs}
use dpfs.Nfs.State.{
  Headers, Query, Kind, ArgOp, World, Vnfs, H, ◌>>=◌, alloc_cb, claim_slot, find_inode, submit,
  cb_data, opens, writes, sequence, putfh, open_nocreate, getfh,
}
use dpfs.Nfs.Requests.{
  lookup, getattr, statfs, vfsync, vread, vwrite, vopen, release, fuse_root_id, root_inode,
  max_write, known_inode, next_owner, reopen, drop_open, decr64, pad_ops, write_ops,
}
use dpfs.Nfs.Flight.{
  handle, Call, lookup_call, getattr_call, statfs_call, fsync_call, open_call, release_call,
  read_call, write_call,
}
use dpfs.Nfs.Flight.Held.{Assets, Books, Settled}
use dpfs.Nfs.Flight.Triples.{
  Triple, After, bind, alloc_triple, claim_triple, find_triple, submit_triple, with_inodes,
}

module _ (ring : RingOps) (all : Assets) (acc : List ℕ) where
  -- What a handler does to the books: it adds its request, or it leaves them as they were.
  abbrev pub Keeps : H ring (Unit {0}) → Query → Type 0
  Keeps m q =
      Triple ring (Settled ring all acc) m (λ _ s. Settled ring all (q.ctx ∷ acc) s)
        (Settled ring all acc)

  -- The part that most handlers share.
  from_alloc :
      (w : World) (q : Query) (kind : Kind) (args : SequenceArgs → Inode → List ArgOp)
      → Keeps
          (do
            chunk ← alloc_cb ring q
            seq ← claim_slot ring w
            i ← find_inode ring q chunk
            submit ring w q (cb_data ring q chunk seq kind) (args seq i))
          q
  from_alloc w q kind args = bind ring (alloc_triple ring all acc q) λ chunk.
      bind ring (claim_triple ring all acc w chunk) λ seq.
        bind ring (find_triple ring all acc q chunk seq.slotid)
          λ i. submit_triple ring all acc w q chunk seq kind (args seq i)

  -- A write to an inode that leaves the fileid alone.
  pub updated :
      (cs is xs : List ℕ) (s : Vnfs ring) (k : ℕ) (f : Inode → Inode)
      → ((i : Inode) → (f i).fileid ≡ i.fileid)
      → Books ring all acc cs is xs s
      → Books ring all acc cs is xs (record s { inodes = inode_update s.inodes k f })
  unfolding inode_update
  updated cs is xs s k f same b =
      with_inodes ring all acc cs is xs s _ (update-IsTable fileid_of s.inodes k f same b.inodes) b

  root_triple :
      (c i : ℕ)
      → Triple ring
          (λ s. Books ring all acc (c ∷ []) (i ∷ []) [] s)
          (root_inode ring)
          (λ _ s. Books ring all acc (c ∷ []) (i ∷ []) [] s)
          (Settled ring all acc)
  unfolding root_inode
  root_triple c i = record {
    run = λ s b. elim (Option-cases (inode_table_get s.inodes fuse_root_id)) [
      | inl e ↦ rw (e, After, root_inode) tt
      | inr (n, e) ↦ rw (e, After, root_inode) b
    ];
  }

  max_triple :
      (c i : ℕ)
      → Triple ring
          (λ s. Books ring all acc (c ∷ []) (i ∷ []) [] s)
          (max_write ring)
          (λ _ s. Books ring all acc (c ∷ []) (i ∷ []) [] s)
          (Settled ring all acc)
  unfolding max_write
  max_triple c i = record { run = λ s b. b }

  known_triple :
      (q : Query)
      → Triple ring
          (Settled ring all acc)
          (known_inode ring q)
          (λ _ s. Settled ring all acc s)
          (Settled ring all acc)
  unfolding known_inode
  known_triple q = record {
    run = λ s b. elim (Option-cases (inode_table_get s.inodes q.nodeid)) [
      | inl e ↦ rw (e, After, known_inode) b
      | inr (n, e) ↦ rw (e, After, known_inode) b
    ];
  }

  owner_triple :
      (c i : ℕ)
      → Triple ring
          (λ s. Books ring all acc (c ∷ []) (i ∷ []) [] s)
          (next_owner ring)
          (λ _ s. Books ring all acc (c ∷ []) (i ∷ []) [] s)
          (Settled ring all acc)
  unfolding next_owner
  owner_triple c i = record {
    run = λ s b. record {
      inodes = b.inodes;
      chunks = b.chunks;
      lengths = b.lengths;
      room = b.room;
      slots = b.slots;
      contexts = b.contexts;
    };
  }

  reopen_triple :
      (lib : Headers) (q : Query) (i : Inode)
      → Triple ring
          (Settled ring all acc)
          (reopen ring lib q i)
          (λ q' s. (q'.ctx ≡ q.ctx) × Settled ring all acc s)
          (Settled ring all acc)
  unfolding reopen
  reopen_triple lib q i = record {
    run = λ s b. elim (Bool-cases (ltb 0 i.nopen)) [
      | inl e ↦ rw (e, After, reopen) (refl, updated [] [] [] s i.fileid _ (λ n. refl) b)
      | inr e ↦ rw (e, After, reopen) (refl, b)
    ];
  }

  drop_triple :
      (q : Query) (i : Inode)
      → Triple ring
          (Settled ring all acc)
          (drop_open ring q i)
          (λ _ s. Settled ring all acc s)
          (Settled ring all acc)
  unfolding drop_open
  drop_triple q i = record {
    run = λ s b.
        let b' =
          updated [] [] [] s i.fileid (λ n. record n { nopen = decr64 n.nopen }) (λ n. refl) b in
        elim (Bool-cases (ltb 1 (i.nopen % 2 ^ 32))) [
          | inl e ↦ rw (e, After, drop_open) b'
          | inr e ↦ rw (e, After, drop_open) b'
        ];
  }

  knowing :
      {A : Type 0} {F : Type 0} {P R : Vnfs ring → Type 0} {Q : A → Vnfs ring → Type 0}
      {m : H ring A}
      → (F → Triple ring P m Q R)
      → Triple ring (λ s. F × P s) m Q R
  knowing h = record { run = λ s p. (h p.0).run s p.1 }

  submit_as :
      (w : World) (q q' : Query) (c : ℕ) (seq : SequenceArgs) (kind : Kind) (args : List ArgOp)
      → q'.ctx ≡ q.ctx
      → Triple ring
          (λ s. Books ring all acc (c ∷ []) (seq.slotid ∷ []) [] s)
          (submit ring w q' (cb_data ring q' c seq kind) args)
          (λ _ s. Settled ring all (q.ctx ∷ acc) s)
          (Settled ring all acc)
  submit_as w q q' c seq kind args same =
      rw (← same) (submit_triple ring all acc w q' c seq kind args)

  vopen-Keeps : (lib : Headers) (w : World) (q : Query) → Keeps (vopen ring lib w q) q
  unfolding vopen
  vopen-Keeps lib w q = bind ring (known_triple q) λ i. bind ring (reopen_triple lib q i) λ q'.
      knowing λ same. bind ring (alloc_triple ring all acc q') λ chunk.
        bind ring (claim_triple ring all acc w chunk) λ seq.
          bind ring (owner_triple chunk seq.slotid) λ ids.
            submit_as w q q' chunk seq (opens i.fileid ids.1)
              (sequence seq ∷ putfh (fh_bytes i.fh) ∷ open_nocreate ids.0 ids.1 ∷ getfh ∷ []) same

  release-Keeps : (w : World) (q : Query) → Keeps (release ring w q) q
  unfolding release
  release-Keeps w q = bind ring (known_triple q) λ i. bind ring (drop_triple q i) λ _.
      bind ring (alloc_triple ring all acc q) λ chunk.
        bind ring (claim_triple ring all acc w chunk)
          λ seq. submit_triple ring all acc w q chunk seq _ _

  statfs-Keeps : (w : World) (q : Query) → Keeps (statfs ring w q) q
  unfolding statfs
  statfs-Keeps w q = bind ring (alloc_triple ring all acc q) λ chunk.
      bind ring (claim_triple ring all acc w chunk) λ seq.
        bind ring (root_triple chunk seq.slotid) λ i. submit_triple ring all acc w q chunk seq _ _

  vwrite-Keeps :
      (w : World) (q : Query) (in_offset : ℕ) (iov : List ℕ)
      → Keeps (vwrite ring w q in_offset iov) q
  unfolding vwrite
  vwrite-Keeps w q in_offset iov = bind ring (alloc_triple ring all acc q) λ chunk.
      bind ring (claim_triple ring all acc w chunk) λ seq.
        bind ring (find_triple ring all acc q chunk seq.slotid) λ i.
          bind ring (max_triple chunk seq.slotid) λ max.
            submit_triple ring all acc w q chunk seq writes (
              sequence seq
              ∷ putfh (fh_bytes i.fh_open)
              ∷ pad_ops (length iov) (write_ops i.open_stateid in_offset max 0 0 iov))

  -- From settled books, a handler that has its request accepted adds the request's context to them and
  -- leaves them settled, and one that returns an error leaves them settled.
  pub handle-Keeps :
      (lib : Headers) (c : Call) (w : World) (q : Query) → Keeps (handle ring lib c w q) q
  unfolding handle lookup getattr vfsync vread
  handle-Keeps lib (lookup_call name) w q = from_alloc w q _ _
  handle-Keeps lib getattr_call w q = from_alloc w q _ _
  handle-Keeps lib statfs_call w q = statfs-Keeps w q
  handle-Keeps lib fsync_call w q = from_alloc w q _ _
  handle-Keeps lib open_call w q = vopen-Keeps lib w q
  handle-Keeps lib release_call w q = release-Keeps w q
  handle-Keeps lib (read_call size offset iov) w q = from_alloc w q _ _
  handle-Keeps lib (write_call offset iov) w q = vwrite-Keeps w q offset iov
