-- ===== src/Mirror.antt =====
-- The mirrors of a local folder (dpfs_uring and dpfs_aio, whose fuser.c and mirror_impl.c have the
-- same inodes, lookups and handlers of metadata): the state of the file system and access to it.
pub mod Sound
pub mod Lookup
pub mod Forget
pub mod Handlers
pub mod Attributes
pub mod Listing
pub mod Clients
pub mod Requests
pub mod Served
pub mod Run
pub mod Rings
pub mod Failures
pub mod Tests
use mathlib.Core.Option
use dpfs.Prelude.{
  ℕ, zero, suc, ◌+◌, ◌-◌, ltb, not, ◌%◌, ◌^◌, Bool, true, false, Option, none, some, List, [], ◌∷◌,
  ◌==◌, if◌then◌else◌,
}
use dpfs.InodeTable.{Table, table_get, table_insert, table_remove}
use dpfs.Fuse.Direntry.{Layout}
use dpfs.Fuse.Reply.{Timeout, OutSizes, Stat, EntryParam}

-- The `fd` of an inode: -1, -ENOENT, or a descriptor.
pub data Fd : Type 0 where
  unset gone : Fd
  fd : ℕ → Fd

-- struct inode, without its mutex and `next`, which is the order in the table.
pub record Node : Type 0 where
  pub ino : ℕ
  pub fd : Fd
  pub src_dev : ℕ
  pub src_ino : ℕ
  pub generation : ℕ
  pub nopen : ℕ
  pub nlookup : ℕ

-- A pointer in the table: the address of an inode, and the key that it has for good.
pub record Ref : Type 0 where
  pub ino : ℕ
  pub at : ℕ

-- struct fuser: `root` is part of it, `heap` has the other inodes by their address, and `locked` is its
-- mutex. A handler runs to its end before another begins, so the mutex of an inode, which every
-- handler releases, is left out, but for the one that a directory has while it is read. `is_open` are
-- the process's descriptors. `stale` counts the inodes that forget_one reads after it has freed them;
-- what it reads is not known, and where that is not 0 the code unlocks the mutex in it.
pub record Fuser : Type 0 where
  pub root : Node
  pub heap : ℕ → Option Node
  pub table : Table Ref
  pub locked : Bool
  pub is_open : ℕ → Bool
  pub stale : ℕ

-- FUSE_ROOT_ID, the device of the source, whether there is a `timeout`, what it is, and the errors.
pub record Conf : Type 0 where
  pub root_id : ℕ
  pub src_dev : ℕ
  pub cached : Bool
  pub timeout : Timeout
  pub sizes : OutSizes
  pub layout : Layout
  pub proto_minor : ℕ
  pub enotsup : ℕ
  pub eio : ℕ
  pub enomem : ℕ
  pub einval : ℕ

-- `fault` is an access through NULL or to memory that was freed or never given, but for those that
-- `stale` counts, `exits` the end of the process and `hangs` a mutex that is never released.
pub data Result {ℓ} (A : Type ℓ) : Type ℓ where
  done : A → Fuser → Result A
  fault exits hangs : Result A

abbrev pub M : Type 0 → Type 0
M A = Fuser → Result A

abbrev pub pure : {A : Type 0} → A → M A
pure a s = done a s

-- What follows a step that is done.
abbrev pub bind : {A B : Type 0} → Result A → (A → M B) → Result B
bind (done a s) f = f a s
bind fault f = fault
bind exits f = exits
bind hangs f = hangs

infixl 5 ◌>>=◌ ◌>>◌
abbrev pub ◌>>=◌ : {A B : Type 0} → M A → (A → M B) → M B
◌>>=◌ m f s = bind (m s) f

abbrev pub ◌>>◌ : {B : Type 0} → M (Unit {0}) → M B → M B
m >> k = m >>= λ _. k

-- Where an inode is: in struct fuser, or at an address.
pub data Place : Type 0 where
  in_fuser : Place
  at : ℕ → Place

abbrev pub update_heap : (ℕ → Option Node) → ℕ → Option Node → ℕ → Option Node
update_heap heap a n b = if a == b then n else heap b

abbrev pub update_open : (ℕ → Bool) → ℕ → Bool → ℕ → Bool
update_open is_open x b y = if x == y then b else is_open y

unfoldable pub load : Place → M Node
load in_fuser s = done s.root s
load (at a) s = elim (s.heap a) [ none ↦ fault | some n ↦ done n s ]

unfoldable pub store : Place → Node → M (Unit {0})
store in_fuser n s = done tt (record s { root = n })
store (at a) n s = elim (s.heap a) [
  | none ↦ fault
  | some _ ↦ done tt (record s { heap = update_heap s.heap a (some n) })
]

unfoldable pub lock : M (Unit {0})
lock s = elim s.locked [ true ↦ hangs | false ↦ done tt (record s { locked = true }) ]

unfoldable pub unlock : M (Unit {0})
unlock s = done tt (record s { locked = false })

unfoldable pub open_fd : ℕ → M (Unit {0})
open_fd x s = done tt (record s { is_open = update_open s.is_open x true })

unfoldable pub close : ℕ → M (Unit {0})
close x s = done tt (record s { is_open = update_open s.is_open x false })

-- `i->fd > 0`
abbrev pub is_positive : Fd → Bool
is_positive (fd (suc x)) = true
is_positive _ = false

-- `close(i->fd)` behind that test.
unfoldable pub close_positive : Fd → M (Unit {0})
unfolding close
close_positive (fd (suc x)) = close (suc x)
close_positive _ = pure tt

abbrev pub ref_ino : Ref → ℕ
ref_ino r = r.ino

abbrev pub new_node : ℕ → Node
new_node ino = record {
  ino = ino;
  fd = unset;
  src_dev = 0;
  src_ino = 0;
  generation = 0;
  nopen = 0;
  nlookup = 0;
}

abbrev pub new_ref : ℕ → ℕ → Ref
new_ref ino a = record { ino = ino; at = a }

-- inode_table_getsert, where `fresh` is what calloc returns for a new inode.
unfoldable pub getsert : ℕ → Option ℕ → M (Option Ref)
getsert ino fresh s = elim (table_get ref_ino s.table ino) [
  | some r ↦ done (some r) s
  | none ↦ elim fresh [
    | none ↦ done none s
    | some a ↦ done (some (new_ref ino a)) (record s {
      heap = update_heap s.heap a (some (new_node ino));
      table = table_insert ref_ino s.table (new_ref ino a) [];
    })
  ]
]

unfoldable pub free : ℕ → M (Unit {0})
free a s = done tt (record s { heap = update_heap s.heap a none })

-- The removal of a key from the table.
unfoldable pub unlink_key : ℕ → M (Option Ref)
unlink_key ino s =
    let (found, table) = table_remove ref_ino s.table ino in done found (record s { table = table })

unfoldable pub inode_destroy : ℕ → M (Unit {0})
unfolding load close_positive free
inode_destroy a = do n ← load (at a); close_positive n.fd; free a

unfoldable pub inode_table_erase : ℕ → M (Unit {0})
unfolding unlink_key inode_destroy
inode_table_erase ino = unlink_key ino >>= λ (found : Option Ref). elim found [
  | none ↦ pure tt
  | some r ↦ inode_destroy r.at
]

-- The read of `i->nlookup` at the end of forget_one.
unfoldable pub read_again : Place → M (Unit {0})
read_again in_fuser s = done tt s
read_again (at a) s = elim (s.heap a) [
  | none ↦ done tt (record s { stale = s.stale + 1 })
  | some _ ↦ done tt s
]

-- What do_lookup returns: an error, or 0 with an entry.
pub data Looked : Type 0 where
  missed : ℕ → Looked
  found : EntryParam → Looked

pub data Opened : Type 0 where
  descriptor : ℕ → Opened
  failed : ℕ → Opened

pub data Statted : Type 0 where
  status : Stat → Statted
  failed : ℕ → Statted

-- What openat, fstatat and calloc give a do_lookup.
pub record Answers : Type 0 where
  pub opened : Opened
  pub statted : Statted
  pub fresh : Option ℕ

-- `nlookup++`, in 64 bits.
abbrev pub bump64 : ℕ → ℕ
bump64 n = (n + 1) % 2 ^ 64

module _ (c : Conf) where
  -- ino_to_inodeptr, which is NULL for an inode with an `fd` of -1.
  unfoldable pub ino_to_inodeptr : ℕ → M (Option Place)
  unfolding load
  ino_to_inodeptr ino =
      if ino == c.root_id
      then pure (some in_fuser)
      else load (at ino) >>= λ (n : Node). elim n.fd [
        | unset ↦ pure none
        | _ ↦ pure (some (at ino))
      ]

  -- An access through the pointer.
  abbrev pub deref : {A : Type 0} → Option Place → (Place → M A) → M A
  deref none k s = fault
  deref (some p) k s = k p s

  -- The descriptor is handed to the operating system, -1 included.
  unfoldable pub ino_to_fd : ℕ → M Fd
  unfolding load
  ino_to_fd ino = ino_to_inodeptr ino >>= λ (p : Option Place). elim p [
    | none ↦ pure unset
    | some p ↦ load p >>= λ (n : Node). pure n.fd
  ]

  -- What do_lookup does with the inode that the table has: an inode that is known gains a reference
  -- and the new descriptor is closed, and any other keeps the new descriptor.
  unfoldable pub take_ref : ℕ → Ref → Stat → M (Unit {0})
  unfolding load store unlock close
  take_ref x r st = do
    n ← load (at r.at)
    if is_positive n.fd
        then (do unlock; store (at r.at) (record n { nlookup = bump64 n.nlookup }); close x)
        else (do
          store (at r.at) (record n {
            src_ino = st.ino;
            src_dev = st.dev;
            nlookup = bump64 n.nlookup;
            fd = fd x;
          })
          unlock)

  abbrev pub entry_of : Ref → ℕ → Stat → EntryParam
  entry_of r generation st = record {
    ino = r.at;
    generation = generation;
    attr = st;
    attr_timeout = c.timeout;
    entry_timeout = c.timeout;
  }

  unfoldable pub enter_found : ℕ → Stat → Option Ref → M Looked
  unfolding load take_ref
  enter_found x st none = pure (missed c.enomem)
  enter_found x st (some r) = do
    n ← load (at r.at)
    take_ref x r st
    pure (found (entry_of r n.generation st))

  -- From the mutex on; without memory it stays locked.
  unfoldable pub enter_inode : ℕ → Stat → Option ℕ → M Looked
  unfolding lock getsert enter_found
  enter_inode x st fresh = do lock; got ← getsert st.ino fresh; enter_found x st got

  unfoldable pub look_at : ℕ → Answers → M Looked
  unfolding close enter_inode
  look_at x a = elim a.statted [
    | failed e ↦ close x >> pure (missed e)
    | status st ↦
        if not (st.dev == c.src_dev)
        then pure (missed c.enotsup)
        else if st.ino == c.root_id
        then pure (missed c.eio)
        else enter_inode x st a.fresh
  ]

  unfoldable pub do_lookup : ℕ → Answers → M Looked
  unfolding open_fd
  do_lookup parent a = ino_to_fd parent >>= λ (dir : Fd). elim a.opened [
    | failed e ↦ pure (missed e)
    | descriptor x ↦ open_fd x >> look_at x a
  ]

  -- What follows once the count is lower.
  unfoldable pub drop_inode : Place → Node → M (Unit {0})
  unfolding lock unlock
  drop_inode p n =
      if n.nlookup == 0 then (do lock; inode_table_erase n.src_ino; unlock) else pure tt

  unfoldable pub forget_at : ℕ → Place → M (Unit {0})
  unfolding load store read_again
  forget_at n p = load p >>= λ (i : Node). if ltb i.nlookup n then (λ s. exits) else (do
    let i' : Node = record i { nlookup = i.nlookup - n }
    store p i'
    drop_inode p i'
    read_again p)

  unfoldable pub forget_one : ℕ → ℕ → M (Unit {0})
  unfolding forget_at
  forget_one ino n = ino_to_inodeptr ino >>= λ (p : Option Place). deref p (forget_at n)
