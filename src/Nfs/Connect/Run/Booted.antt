-- ===== src/Nfs/Connect/Run/Booted.antt =====
-- What the handshakes give the requests: the inode of the root, which statfs of dpfs_nfs/dpfs_nfs.c
-- reads without a test.
use dpfs.Prelude.{ℕ, ◌^◌, ◌<◌, ◌≡◌, ◌≢◌, inl, inr, Bool-cases, Option-cases, List, false, some}
use dpfs.Mpool.{RingOps, mpool_alloc}
use dpfs.Nfs.Session.{op_sequence}
use dpfs.Nfs.Inode.{Inode, inode_table_get}
use dpfs.Nfs.State.{
  Query, CbData, ArgOp, World, Vnfs, Step, next, stop, waits, crash, alloc_cb, claim_slot, submit,
}
use dpfs.Nfs.Requests.{statfs, root_inode, fuse_root_id}
use dpfs.Nfs.Connect.Booting.{Boot}
use dpfs.Nfs.Connect.Run.{Protocol, main_state, Boots}
use dpfs.Nfs.Connect.Run.Invariant.{Boots-IsBooting}

module _ (ring : RingOps) where
  abbrev Fine : {A : Type 0} → Step ring A → Type 0
  Fine (next a s) = Unit
  Fine (stop hdr out s) = Unit
  Fine waits = Unit
  Fine crash = ⊥

  Fine-ne : {A : Type 0} (m : Step ring A) → Fine m → m ≢ crash
  Fine-ne (next a s) h e = cc
  Fine-ne (stop hdr out s) h e = cc
  Fine-ne waits h e = cc
  Fine-ne crash h e = absurd h

  submit-Fine :
      (w : World) (q : Query) (d : CbData) (ops : List ArgOp) (s : Vnfs ring)
      → Fine (submit ring w q d ops s)
  unfolding submit
  submit-Fine w q d ops s = elim (Bool-cases w.accepts) [
    | inl on ↦ rw (on, Fine) tt
    | inr off ↦ rw (off, Fine) tt
  ]

  root-Fine :
      (w : World) (q : Query) (i : Inode) (s : Vnfs ring)
      → inode_table_get s.inodes fuse_root_id ≡ some i
      → Fine (statfs ring w q s)
  unfolding statfs root_inode alloc_cb claim_slot
  root-Fine w q i s h = elim (Option-cases (mpool_alloc ring s.pool).0) [
    | inl none_left ↦ rw (none_left, Fine) tt
    | inr (c, got) ↦ elim (Option-cases (op_sequence w.past w.stale s.session false)) [
      | inl busy ↦ rw (got, busy, Fine) tt
      | inr (a, claimed) ↦ rw (got, claimed, h, Fine) (submit-Fine w q _ _ _)
    ]
  ]

  -- As soon as one connection is up, with at least one polling thread and fewer than 2 ^ 16, statfs on
  -- a thread that shares the table of inodes does not read through NULL.
  pub booted-statfs :
      (lib : Protocol) (nthreads : ℕ) (export_path : List ℕ) (b : Boot) (w : World) (q : Query)
      (s : Vnfs ring)
      → 0 < nthreads
      → nthreads < 2 ^ 16
      → Boots lib (main_state nthreads export_path) b
      → 0 < b.conn_cntr
      → s.inodes ≡ b.inodes
      → statfs ring w q s ≢ crash
  booted-statfs lib nthreads path b w q s pos small run up same =
      let (i, e) = (Boots-IsBooting lib nthreads path b pos small run).based.rooted up in
      Fine-ne (statfs ring w q s) (root-Fine w q i s (rw same e))
