-- ===== src/Nfs/Inode.antt =====
-- The inodes of dpfs_nfs and their table (dpfs_nfs/inode.h, dpfs_nfs/inode.c). The table's mutex is
-- held over each insertion and removal, so an operation is one step.
use dpfs.Prelude.{ℕ, Bool, true, false, Option, none, some, List, [], if◌then◌else◌}
use dpfs.InodeTable.{
  Table, table_init, table_get, table_insert, table_getsert, table_remove, table_update,
}
use dpfs.Nfs.Handle.{Fh, no_fh}

pub record Inode : Type 0 where
  pub fileid : ℕ
  pub fh : Fh
  pub fh_open : Fh
  pub open_stateid : ℕ
  pub generation : ℕ
  pub nlookup : ℕ
  pub nopen : ℕ

abbrev pub InodeTable : Type 0
InodeTable = Table Inode

abbrev pub fileid_of : Inode → ℕ
fileid_of i = i.fileid

abbrev pub inode_table_size : ℕ
inode_table_size = 8192

-- What calloc and the assignment of the fileid leave.
abbrev pub zeroed_inode : ℕ → Inode
zeroed_inode fileid = record {
  fileid = fileid;
  fh = no_fh [];
  fh_open = no_fh [];
  open_stateid = 0;
  generation = 0;
  nlookup = 0;
  nopen = 0;
}

-- `alloc` says whether calloc finds memory.
unfoldable pub inode_new : Bool → ℕ → Option Inode
inode_new alloc fileid = if alloc then some (zeroed_inode fileid) else none

pub data Init : Type 0 where
  ready : InodeTable → Init
  enomem : Init
  failed : Init

-- `enomem` is -ENOMEM, from the first calloc, and `failed` is -1, from the second.
unfoldable pub inode_table_init : Bool → Bool → Init
inode_table_init alloc_table alloc_array =
    if alloc_table
    then if alloc_array then ready (table_init inode_table_size) else failed
    else enomem

unfoldable pub inode_table_get : InodeTable → ℕ → Option Inode
unfolding table_get
inode_table_get t fileid = table_get fileid_of t fileid

-- `next` is the chain that the new inode's own pointer leads to.
unfoldable pub inode_table_insert : InodeTable → Inode → List Inode → InodeTable
unfolding table_insert
inode_table_insert t i next = table_insert fileid_of t i next

unfoldable pub inode_table_getsert : Bool → InodeTable → ℕ → Option Inode × InodeTable
unfolding table_getsert inode_new
inode_table_getsert alloc t fileid = table_getsert fileid_of t fileid (inode_new alloc fileid)

unfoldable pub inode_table_remove : InodeTable → ℕ → Option Inode × InodeTable
unfolding table_remove
inode_table_remove t fileid = table_remove fileid_of t fileid

-- The inode is freed; the result says whether there was one.
unfoldable pub inode_table_erase : InodeTable → ℕ → Bool × InodeTable
unfolding inode_table_remove
inode_table_erase t fileid =
    let (found, t') = inode_table_remove t fileid in
    (elim found [ none ↦ false | some _ ↦ true ], t')

-- A write through the pointer that a lookup of the fileid gives.
unfoldable pub inode_update : InodeTable → ℕ → (Inode → Inode) → InodeTable
unfolding table_update
inode_update t fileid f = table_update fileid_of t fileid f
