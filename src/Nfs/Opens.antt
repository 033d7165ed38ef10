-- ===== src/Nfs/Opens.antt =====
-- How `vopen` and `release` of dpfs_nfs/dpfs_nfs.c count the opens of a file.
use mathlib.Core.Option
use dpfs.Prelude.{
  ℕ, ◌-◌, ◌%◌, ◌^◌, ◌<◌, ◌≡◌, ◌∙◌, refl, ap, true, false, some, List, [], ◌∷◌, arith, lt→ltb,
  ==_iff,
}
use dpfs.InodeTable.Laws.{IsTable}
use dpfs.InodeTable.Update.{table_get-key, table_get-update}
use dpfs.Mpool.{RingOps, mpool_alloc}
use dpfs.Mpool.Laws.{alloc-front}
use dpfs.Nfs.Handle.{fh_bytes}
use dpfs.Nfs.Inode.{Inode, InodeTable, fileid_of, inode_table_get, inode_update}
use dpfs.Nfs.Session.{Session, SequenceArgs, op_sequence}
use dpfs.Nfs.State.{
  Headers, Query, World, Vnfs, Request, next, stop, ◌>>=◌, alloc_cb, claim_slot, submit, cb_data,
  add_len, nothing, opens, sequence, putfh, open_nocreate, getfh,
}
use dpfs.Nfs.Requests.{
  vopen, release, known_inode, reopen, next_owner, drop_open, incr32, incr64, decr64,
}

abbrev pub opened_again : Inode → Inode
opened_again i = record i { nopen = incr64 i.nopen }

-- A write to the inode that a node names, seen through the table.
get-update :
    (t : InodeTable) (nodeid : ℕ) (i : Inode) (f : Inode → Inode)
    → IsTable fileid_of t
    → inode_table_get t nodeid ≡ some i
    → ((n : Inode) → (f n).fileid ≡ n.fileid)
    → inode_table_get (inode_update t i.fileid f) nodeid ≡ some (f i)
unfolding inode_table_get inode_update
get-update t nodeid i f v e same =
    let key : i.fileid ≡ nodeid = table_get-key fileid_of t nodeid i e in
    let got : inode_table_get (inode_update t nodeid f) nodeid ≡ some (f i) = rw (
      table_get-update fileid_of t nodeid nodeid f v.positive same,
      (==_iff nodeid nodeid).1 refl,
      e,
      Option.map,
    ) in
    ap (λ k. inode_table_get (inode_update t k f) nodeid) key ∙ got

module _ (ring : RingOps) where
  -- In a well-formed table, an open of a file that is open already, when a chunk and a slot are
  -- free and the request is accepted, counts the open and adds the length of the answer, and
  -- still sends an OPEN with the handle of the file and the owner's counter, whose callback starts
  -- from that length.
  pub vopen-reopens :
      (lib : Headers) (w : World) (q : Query) (s : Vnfs ring) (i : Inode) (c : ℕ) (cs : List ℕ)
      (args : SequenceArgs) (session : Session)
      → IsTable fileid_of s.inodes
      → inode_table_get s.inodes q.nodeid ≡ some i
      → 0 < i.nopen
      → ring.contents s.pool ≡ c ∷ cs
      → op_sequence w.past w.stale s.session false ≡ some (args, session)
      → w.accepts ≡ true
      → (s' : Vnfs ring) × (r : Request) × (vopen ring lib w q s ≡ next tt s')
        × (s'.pending ≡ r ∷ s.pending)
        × (r.args
            ≡ sequence args
              ∷ putfh (fh_bytes i.fh)
              ∷ open_nocreate s.clientid s.open_owner_counter
              ∷ getfh
              ∷ [])
        × (r.cb_data.kind ≡ opens i.fileid s.open_owner_counter)
        × (r.cb_data.hdr ≡ add_len q.out lib.open_out)
        × (inode_table_get s'.inodes q.nodeid ≡ some (opened_again i))
  unfolding vopen known_inode reopen alloc_cb claim_slot next_owner submit
  vopen-reopens lib w q s i c cs args session v e is_open free claimed accepts =
      let q' = record q { out = add_len q.out lib.open_out } in
      let r : Request = record {
        args =
            sequence args
            ∷ putfh (fh_bytes i.fh)
            ∷ open_nocreate s.clientid s.open_owner_counter
            ∷ getfh
            ∷ [];
        cb_data = cb_data ring q' c args (opens i.fileid s.open_owner_counter);
      } in
      (
        record s {
          inodes = inode_update s.inodes i.fileid opened_again;
          pool = (mpool_alloc ring s.pool).1;
          session = session;
          open_owner_counter = incr32 s.open_owner_counter;
          pending = r ∷ s.pending;
        },
        r,
        rw (
          e,
          lt→ltb 0 i.nopen is_open,
          alloc-front ring s.pool c cs free,
          claimed,
          accepts,
          vopen,
          known_inode,
          reopen,
          alloc_cb,
          claim_slot,
          next_owner,
          submit,
          ◌>>=◌,
        ),
        refl,
        refl,
        refl,
        refl,
        get-update s.inodes q.nodeid i opened_again v e (λ n. refl),
      )

  -- In a well-formed table, a release of a file that is open more than once, and less than 2^32
  -- times, answers at once: one open less is counted, and nothing is sent, allocated or claimed.
  release-stays_open :
      (w : World) (q : Query) (s : Vnfs ring) (i : Inode)
      → IsTable fileid_of s.inodes
      → inode_table_get s.inodes q.nodeid ≡ some i
      → 1 < i.nopen
      → i.nopen < 2 ^ 32
      → (t : InodeTable) × (release ring w q s ≡ stop q.out nothing (record s { inodes = t }))
        × (inode_table_get t q.nodeid ≡ some (record i { nopen = i.nopen - 1 }))
  unfolding release known_inode drop_open
  release-stays_open w q s i v e more few =
      let down = λ (n : Inode). record n { nopen = decr64 n.nopen } in
      let whole : i.nopen % 2 ^ 32 ≡ i.nopen = omega arith in
      let less : decr64 i.nopen ≡ i.nopen - 1 = omega arith in
      (
        inode_update s.inodes i.fileid down,
        rw (e, whole, lt→ltb 1 i.nopen more, release, known_inode, drop_open, ◌>>=◌),
        get-update s.inodes q.nodeid i down v e (λ n. refl)
            ∙ ap (λ k. some (record i { nopen = k })) less,
      )
