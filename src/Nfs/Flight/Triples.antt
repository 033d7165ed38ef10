-- ===== src/Nfs/Flight/Triples.antt =====
-- What each piece of a handler of dpfs_nfs does to the books, put together along `◌>>=◌`.
use dpfs.Prelude.{
  count, count-append, ℕ, ◌<◌, ap, false, List, [], ◌∷◌, ◌++◌, map, arith, length, length-append,
  Bool-cases, Option-cases, inl, inr,
}
use dpfs.InodeTable.Laws.{IsTable}
use dpfs.Mpool.{RingOps, mpool_free}
use dpfs.Mpool.Laws.{alloc_cases, free-contents, free-capacity}
use dpfs.Nfs.Inode.{InodeTable, fileid_of, inode_table_get}
use dpfs.Nfs.Session.{SequenceArgs, op_sequence}
use dpfs.Nfs.Session.Slots.{op_sequence-Claimed}
use dpfs.Nfs.State.{
  Query, Kind, ArgOp, World, Vnfs, Step, next, stop, waits, crash, H, ◌>>=◌, alloc_cb, claim_slot,
  find_inode, submit, cb_data,
}
use dpfs.Nfs.Flight.Held.{Assets, Books, Settled, claimed-IsHeld, slot_of}

module _ (ring : RingOps) where
  -- The state that a computation leaves, by the way it ends.
  abbrev pub After :
      {A : Type 0} → (A → Vnfs ring → Type 0) → (Vnfs ring → Type 0) → Step ring A → Type 0
  After Q R (next a s) = Q a s
  After Q R (stop hdr out s) = R s
  After Q R waits = Unit
  After Q R crash = Unit

  -- From a state of `P` the computation goes on in `Q`, or it ends in `R`.
  pub record Triple {A : Type 0} (P : Vnfs ring → Type 0) (m : H ring A)
      (Q : A → Vnfs ring → Type 0) (R : Vnfs ring → Type 0) : Type 0 where
    pub run : (s : Vnfs ring) → P s → After Q R (m s)

  After-bind :
      {A B : Type 0} {Q : A → Vnfs ring → Type 0} (T : B → Vnfs ring → Type 0)
      (R : Vnfs ring → Type 0) (step : Step ring A) (f : A → H ring B)
      → After Q R step
      → ((a : A) → Triple (Q a) (f a) T R)
      → After T R (elim step [
        | next a s' ↦ f a s'
        | stop hdr out s' ↦ stop hdr out s'
        | waits ↦ waits
        | crash ↦ crash
      ])
  After-bind T R (next a s) f h k = (k a).run s h
  After-bind T R (stop hdr out s) f h k = h
  After-bind T R waits f h k = tt
  After-bind T R crash f h k = tt

  pub bind :
      {A B : Type 0} {P R : Vnfs ring → Type 0} {Q : A → Vnfs ring → Type 0}
      {T : B → Vnfs ring → Type 0} {m : H ring A} {f : A → H ring B}
      → Triple P m Q R
      → ((a : A) → Triple (Q a) (f a) T R)
      → Triple P (m >>= f) T R
  bind {m = m} {f = f} h k = record { run = λ s p. After-bind _ _ (m s) f (h.run s p) k }

module _ (ring : RingOps) (all : Assets) (acc : List ℕ) where
  -- A chunk that is held fits into the pool.
  pub room_for :
      (c : ℕ) (is xs : List ℕ) (s : Vnfs ring)
      → Books ring all acc (c ∷ []) is xs s
      → length (ring.contents s.pool) < ring.capacity s.pool
  room_for c is xs s b = let l = b.lengths in let r = b.room in omega arith

  -- Giving a held chunk back.
  pub freed :
      (c : ℕ) (is xs : List ℕ) (s : Vnfs ring)
      → Books ring all acc (c ∷ []) is xs s
      → Books ring all acc [] is xs (record s { pool = mpool_free ring s.pool c })
  freed c is xs s b =
      let e = free-contents ring s.pool c (room_for c is xs s b) in
      record {
        inodes = b.inodes;
        chunks = λ x. rw (e, count-append) (let h = b.chunks x in ground arith);
        lengths = rw (e, length-append) (let l = b.lengths in ground arith);
        room = rw free-capacity b.room;
        slots = b.slots;
        contexts = b.contexts;
      }

  -- A slot that is claimed but not held stays marked.
  pub dropped :
      (i : ℕ) (cs xs : List ℕ) (s : Vnfs ring)
      → Books ring all acc cs (i ∷ []) xs s
      → Books ring all acc cs [] xs s
  dropped i cs xs s b = record {
    inodes = b.inodes;
    chunks = b.chunks;
    lengths = b.lengths;
    room = b.room;
    slots = b.slots.3;
    contexts = b.contexts;
  }

  pub with_inodes :
      (cs is xs : List ℕ) (s : Vnfs ring) (t : InodeTable)
      → IsTable fileid_of t
      → Books ring all acc cs is xs s
      → Books ring all acc cs is xs (record s { inodes = t })
  with_inodes cs is xs s t v b = record {
    inodes = v;
    chunks = b.chunks;
    lengths = b.lengths;
    room = b.room;
    slots = b.slots;
    contexts = b.contexts;
  }

  pub alloc_triple :
      (q : Query)
      → Triple ring
          (Settled ring all acc)
          (alloc_cb ring q)
          (λ c s. Books ring all acc (c ∷ []) [] [] s)
          (Settled ring all acc)
  unfolding alloc_cb
  alloc_triple q = record {
    run = λ s b. elim (alloc_cases ring s.pool) [
      | inl (e, d) ↦ rw (d, After, alloc_cb) (rw d b)
      | inr (c, cs, p', e, d, e', kept) ↦
          rw (d, After, alloc_cb)
            (rw d (record {
              inodes = b.inodes;
              chunks = λ x. rw e' (let h = b.chunks x in let e2 = ap (count x) e in ground arith);
              lengths = rw e' (let l = b.lengths in let e2 = ap length e in ground arith);
              room = rw kept b.room;
              slots = b.slots;
              contexts = b.contexts;
            }))
    ];
  }

  pub claim_triple :
      (w : World) (c : ℕ)
      → Triple ring
          (λ s. Books ring all acc (c ∷ []) [] [] s)
          (claim_slot ring w)
          (λ seq s. Books ring all acc (c ∷ []) (seq.slotid ∷ []) [] s)
          (Settled ring all acc)
  unfolding claim_slot
  claim_triple w c = record {
    run = λ s b. elim (Option-cases (op_sequence w.past w.stale s.session false)) [
      | inl e ↦ rw (e, After, claim_slot) tt
      | inr ((args, after), e) ↦
          let f = op_sequence-Claimed w.past w.stale s.session after false args e in
          rw (e, After, claim_slot)
            (record {
              inodes = b.inodes;
              chunks = b.chunks;
              lengths = b.lengths;
              room = b.room;
              slots =
                  claimed-IsHeld s.session.slots after.slots args.slotid
                    (map slot_of s.pending ++ all.lost) f.bound f.was_free f.same_length f.claimed
                    b.slots;
              contexts = b.contexts;
            })
    ];
  }

  pub find_triple :
      (q : Query) (c i : ℕ)
      → Triple ring
          (λ s. Books ring all acc (c ∷ []) (i ∷ []) [] s)
          (find_inode ring q c)
          (λ _ s. Books ring all acc (c ∷ []) (i ∷ []) [] s)
          (Settled ring all acc)
  unfolding find_inode
  find_triple q c i = record {
    run = λ s b. elim (Option-cases (inode_table_get s.inodes q.nodeid)) [
      | inl e ↦ rw (e, After, find_inode) (freed c [] [] s (dropped i (c ∷ []) [] s b))
      | inr (n, e) ↦ rw (e, After, find_inode) b
    ];
  }

  -- An accepted request takes over what the handler holds, and its context is on the books.
  pub submit_triple :
      (w : World) (q : Query) (c : ℕ) (seq : SequenceArgs) (kind : Kind) (args : List ArgOp)
      → Triple ring
          (λ s. Books ring all acc (c ∷ []) (seq.slotid ∷ []) [] s)
          (submit ring w q (cb_data ring q c seq kind) args)
          (λ _ s. Settled ring all (q.ctx ∷ acc) s)
          (Settled ring all acc)
  unfolding submit
  submit_triple w q c seq kind args = record {
    run = λ s b. elim (Bool-cases w.accepts) [
      | inl e ↦
          rw (e, After, submit)
            (record {
              inodes = b.inodes;
              chunks = b.chunks;
              lengths = b.lengths;
              room = b.room;
              slots = b.slots;
              contexts = λ x. let h = b.contexts x in ground arith;
            })
      | inr e ↦ rw (e, After, submit) (freed c [] [] s (dropped seq.slotid (c ∷ []) [] s b))
    ];
  }
