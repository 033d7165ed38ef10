-- ===== src/Nfs/Connect/Run.antt =====
-- The handshakes as a sequence of steps: dpfs_nfs_main of dpfs_nfs/dpfs_nfs.c starts the first one,
-- and each answer of the server goes to the callback that its request was sent with.
pub mod Steps
pub mod Callbacks
pub mod Invariant
pub mod Turns
pub mod First
pub mod Finish
pub mod Failure
pub mod Booted
pub mod Main
use dpfs.Prelude.{ℕ, ◌≡◌, none, List, [], ◌∷◌, ◌++◌, replicate}
use dpfs.InodeTable.{table_init}
use dpfs.Nfs.Inode.{inode_table_size}
use dpfs.Nfs.Connect.Trunking.{ExchangeOk}
use dpfs.Nfs.Connect.Booting.{
  Stage, exchanging, creating, looking, reclaiming, Sent, Boot, BootWorld, Outcome, went,
  zeroed_conn,
}
use dpfs.Nfs.Connect.{
  Reply, CreateOk, RootResult, init_connections, exchangeid_cb, create_session_cb,
  lookup_true_rootfh_cb, reclaim_complete_cb,
}

-- Numbers of the NFS protocol: NFS4_FHSIZE, OP_GETFH and NFS4ERR_COMPLETE_ALREADY.
pub record Protocol : Type 0 where
  pub fhsize : ℕ
  pub op_getfh : ℕ
  pub complete_already : ℕ

-- What the callback of each stage reads of the answer.
abbrev pub ReplyTo : Stage → Type 0
ReplyTo exchanging = Reply ExchangeOk
ReplyTo creating = Reply CreateOk
ReplyTo looking = Reply RootResult
ReplyTo reclaiming = Reply ℕ

unfoldable pub boot_callback : Protocol → BootWorld → (st : Stage) → ReplyTo st → Boot → Outcome
boot_callback lib w exchanging r = exchangeid_cb w r
boot_callback lib w creating r = create_session_cb w r
boot_callback lib w looking r = lookup_true_rootfh_cb lib.fhsize lib.op_getfh w r
boot_callback lib w reclaiming r = reclaim_complete_cb lib.complete_already w r

-- What dpfs_nfs_main has set up when it calls vnfs_init_connections.
unfoldable pub main_state : (nthreads : ℕ) (export_path : List ℕ) → Boot
main_state nthreads export_path = record {
  nthreads = nthreads;
  conn_cntr = 0;
  conns = replicate nthreads (zeroed_conn 0);
  export_path = export_path;
  first_exchangeid = none;
  inodes = table_init inode_table_size;
  sent = [];
}

-- The states that the handshakes get to from `b0`.
pub data Boots (lib : Protocol) (b0 : Boot) : Boot → Type 0 where
  begun : (w : BootWorld) → Boots lib b0 (init_connections w b0)
  told :
      {b b' : Boot}
      → (w : BootWorld) → (before after : List Sent) → (r : Sent) → (reply : ReplyTo r.stage)
      → Boots lib b0 b
      → b.sent ≡ before ++ r ∷ after
      → boot_callback lib w r.stage reply (record b { sent = before ++ after }) ≡ went b'
      → Boots lib b0 b'
