-- ===== src/Nfs/Flight/Answered.antt =====
-- Every callback of dpfs_nfs settles the books.
use dpfs.Prelude.{
  Bool, ap, sym, ℕ, ◌≡◌, refl, true, false, some, List, [], ◌∷◌, ◌++◌, map, ltb, ◌==◌, Bool-cases,
  Option-cases, inl, inr, arith, length,
}
use mathlib.Core.Option.{some-injective}
use dpfs.Nfs.Requests.{incr64}
use dpfs.InodeTable.Laws.{IsTable}
use dpfs.InodeTable.Invariant.{getsert-IsTable}
use dpfs.Mpool.{RingOps}
use dpfs.Nfs.Handle.{clone_fh}
use dpfs.Nfs.Iovec.{iovec_write_buf}
use dpfs.Nfs.Inode.{
  Inode, InodeTable, fileid_of, inode_table_get, inode_update, inode_table_getsert, inode_new,
}
use dpfs.Nfs.Session.{release_slot}
use dpfs.Nfs.State.{
  Headers, Kind, CbData, World, Vnfs, Out, OutHdr, lookups, getattrs, statfses, writes, fsyncs,
  opens, reads, releases,
}
use dpfs.Nfs.Wire.Attributes.{FuseAttr, nfs_parse_attributes, nfs_parse_statfs}
use dpfs.Nfs.Wire.Attributes.Reader
use dpfs.Nfs.Callbacks.{
  Answer, rpc_error, nfs_error, nfs_ok, Called, returned, fault, complete, on_answer, getattr_cb,
  statfs_cb, lookup_cb, enter, vopen_cb, opened_as, release_cb, vfsync_cb, vwrite_cb, vread_cb,
  OpenResult, AttrList,
}
use dpfs.Nfs.Flight.{Reply, callback}
use dpfs.Nfs.Flight.Held.{Assets, Books, Settled, released-IsHeld, slot_of}
use dpfs.Nfs.Flight.Triples.{with_inodes, freed}
use dpfs.Nfs.Flight.Handled.{updated}

module _ (ring : RingOps) (all : Assets) (acc : List ℕ) where
  abbrev pub Returns : (Vnfs ring → Type 0) → Called ring → Type 0
  Returns R (returned s) = R s
  Returns R fault = Unit

  -- The books while the callback of a request holds its chunk and its context, its slot released.
  abbrev pub Answering : CbData → Vnfs ring → Type 0
  Answering d s = Books ring all acc (d.chunk ∷ []) [] (d.ctx ∷ []) s

  complete-Settled :
      (d : CbData) (hdr : OutHdr) (out : Out) (s : Vnfs ring)
      → Answering d s
      → Settled ring all acc (complete ring d hdr out s)
  unfolding complete
  complete-Settled d hdr out s b =
      let f = freed ring all acc d.chunk [] (d.ctx ∷ []) s b in
      record {
        inodes = f.inodes;
        chunks = f.chunks;
        lengths = f.lengths;
        room = f.room;
        slots = f.slots;
        contexts = λ x. let h = f.contexts x in ground arith;
      }

  released :
      (d : CbData) (s : Vnfs ring)
      → Books ring all acc (d.chunk ∷ []) (d.slotid ∷ []) (d.ctx ∷ []) s
      → Answering d (record s { session = release_slot s.session d.slotid })
  unfolding release_slot
  released d s b = record {
    inodes = b.inodes;
    chunks = b.chunks;
    lengths = b.lengths;
    room = b.room;
    slots =
        released-IsHeld s.session.slots d.slotid (map slot_of s.pending ++ all.lost) b.slots.0
          b.slots.2 b.slots.3;
    contexts = b.contexts;
  }

  on_answer-Settled :
      {A : Type 0} (lib : Headers) (d : CbData) (r : Answer A)
      (handle : A → Vnfs ring → Called ring) (s : Vnfs ring)
      → ((a : A) (s' : Vnfs ring) → Answering d s' → Returns (Settled ring all acc) (handle a s'))
      → Books ring all acc (d.chunk ∷ []) (d.slotid ∷ []) (d.ctx ∷ []) s
      → Returns (Settled ring all acc) (on_answer ring lib d r handle s)
  unfolding on_answer
  on_answer-Settled lib d rpc_error handle s h b = complete-Settled d _ _ _ (released d s b)
  on_answer-Settled lib d (nfs_error code) handle s h b = complete-Settled d _ _ _ (released d s b)
  on_answer-Settled lib d (nfs_ok a) handle s h b = h a _ (released d s b)

  update-Answering :
      (d : CbData) (s : Vnfs ring) (k : ℕ) (f : Inode → Inode)
      → ((i : Inode) → (f i).fileid ≡ i.fileid)
      → Answering d s
      → Answering d (record s { inodes = inode_update s.inodes k f })
  update-Answering d s k f same b = updated ring all acc (d.chunk ∷ []) [] (d.ctx ∷ []) s k f same b

  parsed-Settled :
      {A : Type 0} (d : CbData) (p : Reader.Parse A) (s : Vnfs ring) (ok : A → Called ring)
      (hdr : OutHdr)
      → Answering d s
      → ((a : A) → Returns (Settled ring all acc) (ok a))
      → Returns (Settled ring all acc) (elim p [
        | Reader.Parse.ok a ↦ ok a
        | Reader.Parse.short ↦ returned (complete ring d hdr Out.nothing s)
        | _ ↦ fault
      ])
  parsed-Settled d (Reader.Parse.ok a) s ok hdr b h = h a
  parsed-Settled d Reader.Parse.short s ok hdr b h = complete-Settled d _ _ s b
  parsed-Settled d Reader.Parse.fault s ok hdr b h = tt
  parsed-Settled d Reader.Parse.negative s ok hdr b h = tt

  getattr_cb-Settled :
      (lib : Headers) (d : CbData) (r : Answer AttrList) (s : Vnfs ring)
      → Books ring all acc (d.chunk ∷ []) (d.slotid ∷ []) (d.ctx ∷ []) s
      → Returns (Settled ring all acc) (getattr_cb ring lib d r s)
  unfolding getattr_cb
  getattr_cb-Settled lib d r s b =
      on_answer-Settled lib d r _ s
        (λ attrs s' b'.
          parsed-Settled d (nfs_parse_attributes lib.types attrs.bytes attrs.len) s' _ _ b'
            (λ a. complete-Settled d _ _ s' b'))
        b

  statfs_cb-Settled :
      (lib : Headers) (d : CbData) (r : Answer AttrList) (s : Vnfs ring)
      → Books ring all acc (d.chunk ∷ []) (d.slotid ∷ []) (d.ctx ∷ []) s
      → Returns (Settled ring all acc) (statfs_cb ring lib d r s)
  unfolding statfs_cb
  statfs_cb-Settled lib d r s b =
      on_answer-Settled lib d r _ s
        (λ attrs s' b'.
          parsed-Settled d (nfs_parse_statfs attrs.bytes attrs.len) s' _ _ b'
            (λ a. complete-Settled d _ _ s' b'))
        b

  new-fileid :
      (alloc : Bool) (fileid : ℕ) (i : Inode) → inode_new alloc fileid ≡ some i → i.fileid ≡ fileid
  unfolding inode_new
  new-fileid true fileid i e = ap (λ (n : Inode). n.fileid) (sym (some-injective _ i e))
  new-fileid false fileid i e = cc

  getserted :
      (alloc : Bool) (t : InodeTable) (fileid : ℕ)
      → IsTable fileid_of t
      → IsTable fileid_of (inode_table_getsert alloc t fileid).1
  unfolding inode_table_getsert
  getserted alloc t fileid v =
      getsert-IsTable fileid_of t fileid (inode_new alloc fileid) (new-fileid alloc fileid) v

  entered :
      (lib : Headers) (w : World) (d : CbData) (attr : FuseAttr) (object : List ℕ) (s : Vnfs ring)
      → Answering d s
      → Settled ring all acc (enter ring lib w d attr object s)
  unfolding enter
  entered lib w d attr object s b =
      let b1 =
        with_inodes ring all acc (d.chunk ∷ []) [] (d.ctx ∷ []) s _
          (getserted w.alloc s.inodes attr.ino b.inodes) b in
      let b2 =
        update-Answering d _ attr.ino (λ n. record n { nlookup = incr64 n.nlookup }) (λ n. refl)
          b1 in
      elim (Option-cases (inode_table_getsert w.alloc s.inodes attr.ino).0) [
        | inl e ↦ rw (e, enter) (complete-Settled d _ _ _ b1)
        | inr (i, e) ↦ elim (Bool-cases (i.fh.len == 0)) [
          | inr f ↦ rw (e, f, enter) (complete-Settled d _ _ _ b2)
          | inl f ↦ elim (Option-cases (clone_fh lib.nfs4_fhsize i.fh object)) [
            | inl g ↦ rw (e, f, g, enter) (complete-Settled d _ _ _ b2)
            | inr (fh, g) ↦
                rw (e, f, g, enter)
                  (complete-Settled d _ _ _ (update-Answering d _ attr.ino _ (λ n. refl) b2))
          ]
        ]
      ]

  opened_as-Settled :
      (lib : Headers) (d : CbData) (i : Inode) (res : OpenResult) (s : Vnfs ring)
      → Answering d s
      → Settled ring all acc (opened_as ring lib d i res s)
  unfolding opened_as
  opened_as-Settled lib d i res s b =
      let b1 = update-Answering d s i.fileid _ (λ n. refl) b in
      elim (Option-cases (clone_fh lib.nfs4_fhsize i.fh_open res.object)) [
        | inl e ↦ rw (e, opened_as) (complete-Settled d _ _ _ b1)
        | inr (fh, e) ↦
            let b2 =
              update-Answering d _ i.fileid (λ n. record n { fh_open = fh }) (λ n. refl) b1 in
            elim (Bool-cases res.confirm) [
              | inl f ↦ rw (e, f, opened_as) (complete-Settled d _ _ _ b2)
              | inr f ↦
                  rw (e, f, opened_as)
                    (complete-Settled d _ _ _ (update-Answering d _ i.fileid _ (λ n. refl) b2))
            ]
      ]

  opened_triple :
      (lib : Headers) (inode : ℕ) (d : CbData) (r : Answer OpenResult) (s : Vnfs ring)
      → Books ring all acc (d.chunk ∷ []) (d.slotid ∷ []) (d.ctx ∷ []) s
      → Returns (Settled ring all acc) (vopen_cb ring lib inode d r s)
  unfolding vopen_cb
  opened_triple lib inode d r s b =
      on_answer-Settled lib d r _ s
        (λ res s' b'. elim (Option-cases (inode_table_get s'.inodes inode)) [
          | inl e ↦ rw (e, Returns) tt
          | inr (i, e) ↦ rw (e, Returns) (opened_as-Settled lib d i res s' b')
        ])
        b

  vread_cb-Settled :
      (lib : Headers) (iov : List ℕ) (d : CbData) (r : Answer (List ℕ)) (s : Vnfs ring)
      → Books ring all acc (d.chunk ∷ []) (d.slotid ∷ []) (d.ctx ∷ []) s
      → Returns (Settled ring all acc) (vread_cb ring lib iov d r s)
  unfolding vread_cb
  vread_cb-Settled lib iov d r s b =
      on_answer-Settled lib d r _ s
        (λ bytes s' b'. elim (Bool-cases (ltb 0 (length iov))) [
          | inr e ↦ rw (e, Returns) (complete-Settled d _ _ s' b')
          | inl e ↦ elim (Option-cases (iovec_write_buf iov bytes)) [
            | inl f ↦ rw (e, f, Returns) tt
            | inr (ws, f) ↦ rw (e, f, Returns) (complete-Settled d _ _ s' b')
          ]
        ])
        b

  -- From books on which the callback holds its request's chunk, slot and context, a callback that
  -- returns leaves settled books, whatever the answer says.
  pub callback-Settled :
      (lib : Headers) (w : World) (k : Kind) (d : CbData) (r : Reply k) (s : Vnfs ring)
      → Books ring all acc (d.chunk ∷ []) (d.slotid ∷ []) (d.ctx ∷ []) s
      → Returns (Settled ring all acc) (callback ring lib w k d r s)
  unfolding callback lookup_cb vwrite_cb vfsync_cb release_cb
  callback-Settled lib w lookups d r s b =
      on_answer-Settled lib d r _ s
        (λ res s' b'.
          parsed-Settled d (nfs_parse_attributes lib.types res.attrs.bytes res.attrs.len) s' _ _ b'
            (λ a. entered lib w d a res.object s' b'))
        b
  callback-Settled lib w getattrs d r s b = getattr_cb-Settled lib d r s b
  callback-Settled lib w statfses d r s b = statfs_cb-Settled lib d r s b
  callback-Settled lib w writes d r s b =
      on_answer-Settled lib d r _ s (λ _ s' b'. complete-Settled d _ _ s' b') b
  callback-Settled lib w fsyncs d r s b =
      on_answer-Settled lib d r _ s (λ _ s' b'. complete-Settled d _ _ s' b') b
  callback-Settled lib w (opens inode owner_val) d r s b = opened_triple lib inode d r s b
  callback-Settled lib w (reads iov) d r s b = vread_cb-Settled lib iov d r s b
  callback-Settled lib w (releases inode) d r s b =
      on_answer-Settled lib d r _ s
        (λ _ s' b'. complete-Settled d _ _ _ (update-Answering d s' inode _ (λ n. refl) b')) b
