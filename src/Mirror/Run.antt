-- ===== src/Mirror/Run.antt =====
-- The states that a mirror gets into, one request after the other, from the one that fuser_main sets up.
use mathlib.Core.Path.{subst}
use dpfs.Prelude.{ℕ, ◌≡◌, refl, arith, false, none, ◌==◌}
use dpfs.InodeTable.{table_init}
use dpfs.InodeTable.Laws.{table_get-init}
use dpfs.InodeTable.Invariant.{init-IsTable}
use dpfs.Fuse.Reply.{OutHeader, Payload}
use dpfs.Mirror.{Fuser, Conf, ref_ino, fd, done}
use dpfs.Mirror.Sound.{Client}
use dpfs.Mirror.Lookup.Held.{IsSound}
use dpfs.Mirror.Requests.{
  Request, looks, creates, makes, opens, releases, forgets, unlinks, lists, gets, sets, moves,
  removes, handle, give, receive, Legal, HasMemory, Served,
}
use dpfs.Mirror.Served.{
  lookup-Served, make_something-Served, open_file-Served, release-Served, batch_forget-Served,
}
use dpfs.Fuse.Direntry.Added.{IsLayout}
use dpfs.Mirror.Listing.Read.{readdir-Served}
use dpfs.Mirror.Attributes.Kept.{getattr-Served, setattr-Served, rename-Served, rmdir-Served}
use dpfs.Mirror.Served.Names.{create-Served, unlink-Served}

-- What fuser_main sets up: the root with its descriptor and 9999 references, and a table with no inode.
unfoldable pub fuser_init : (root_id root_fd : ℕ) → Fuser
fuser_init root_id root_fd = record {
  root = record {
    ino = root_id;
    fd = fd root_fd;
    src_dev = 0;
    src_ino = 0;
    generation = 0;
    nopen = 0;
    nlookup = 9999;
  };
  heap = λ a. none;
  table = table_init 8192;
  locked = false;
  is_open = λ x. x == root_fd;
  stale = 0;
}

-- The kernel holds nothing but the root, whose descriptor belongs to no other inode.
abbrev pub no_client : ℕ → Client
no_client root_fd = record { refs = λ a. 0; handles = λ x. x == root_fd }

module _ (c : Conf) (h : OutHeader) where
  -- A step is a request that the kernel may make and for which there is memory.
  pub data Run : Client → Fuser → Type 0 where
    start : (root_fd : ℕ) → Run (no_client root_fd) (fuser_init c.root_id root_fd)
    next :
        {cl : Client} {s s' : Fuser} (q : Request) (h' : OutHeader) (p : Payload)
        → Run cl s
        → Legal c cl s q
        → HasMemory q
        → handle c h q s ≡ done (h', p) s'
        → Run (receive (give cl q) p) s'

module _ (c : Conf) (laws : IsLayout c.layout) (h : OutHeader) where
  handle-Served :
      (q : Request) (cl : Client) (s : Fuser)
      → IsSound c cl s
      → s.locked ≡ false
      → Legal c cl s q
      → Served c (give cl q) (HasMemory q) (handle c h q s)
  unfolding handle
  handle-Served (looks parent a) cl s sound free (held, new) =
      lookup-Served c h cl s sound free parent a held new
  handle-Served (creates parent o a) cl s sound free (held, fresh, new) =
      create-Served c h cl s sound free parent o a held fresh new
  handle-Served (makes parent kind res a) cl s sound free (held, new) =
      make_something-Served c h cl s sound free parent kind res a held new
  handle-Served (opens ino o garbage) cl s sound free (held, new) =
      open_file-Served c h cl s sound free ino o garbage held new
  handle-Served (releases ino fh) cl s sound free (held, mine) =
      release-Served c h cl s sound free ino fh held mine
  handle-Served (forgets all) cl s sound free may = batch_forget-Served c h all cl s sound free may
  handle-Served (lists ino plus size off iov all last) cl s sound free
        (held, writer, few, small, may) =
      readdir-Served c c.layout laws h cl s sound free ino plus size off iov all last held writer
        few small may
  handle-Served (gets ino got) cl s sound free held =
      getattr-Served c h cl s sound free ino got held
  handle-Served (sets ino v st fi os got) cl s sound free held =
      setattr-Served c h cl s sound free ino v st fi os got held
  handle-Served (moves parent newdir res) cl s sound free (held, held') =
      rename-Served c h cl s sound free parent newdir res held held'
  handle-Served (removes parent res) cl s sound free held =
      rmdir-Served c h cl s sound free parent res held
  handle-Served (unlinks parent a res) cl s sound free (held, new) =
      unlink-Served c h cl s sound free parent a res held new

  init-Sound : (root_fd : ℕ) → IsSound c (no_client root_fd) (fuser_init c.root_id root_fd)
  unfolding fuser_init
  init-Sound root_fd =
      let empty = table_get-init ref_ino 8192 in
      record {
        in_place = init-IsTable ref_ino 8192 (omega arith);
        owned = λ k r e. cc (empty k);
        node = λ a n e. cc;
        alone = λ a b n m x e. cc;
        no_refs = λ a e. refl;
        others = λ x e. e;
      }

  init-free : (root_fd : ℕ) → (fuser_init c.root_id root_fd).locked ≡ false
  unfolding fuser_init
  init-free root_fd = refl

  -- In every state that is reached, the table is well formed and leads from a file's number to the one
  -- inode with it; an inode is allocated exactly when the kernel holds references to it, and its count is
  -- their number; its descriptor is open, is no other inode's and was not handed out; and the mutex is
  -- free. A request is one that the kernel may make: it names inodes that the kernel holds, and forgets
  -- and closes what it has; new descriptors and addresses are not in use, and there is memory. The
  -- buffer of a READDIR has less than 2 ^ 32 bytes, and its layout is as linux/fuse.h has it.
  pub Run-Sound : {cl : Client} {s : Fuser} → Run c h cl s → IsSound c cl s × (s.locked ≡ false)
  Run-Sound (start root_fd) = (init-Sound root_fd, init-free root_fd)
  Run-Sound (next {cl} {s} {s'} q h' p run legal memory e) =
      let (sound, free) = Run-Sound run in
      let served = handle-Served q cl s sound free legal in
      let served' : Served c (give cl q) (HasMemory q) (done (h', p) s') =
        subst (Served c (give cl q) (HasMemory q)) e served in
      (served'.0, served'.1 memory)

  -- In every state that is reached, each request that the kernel may make is served: its handler
  -- comes to an end, without the end of the process and without waiting for ever for a mutex, and
  -- leaves sound inodes. But for the inode that forget_one has freed and then reads and may unlock,
  -- nothing is accessed through NULL or after it was freed. A READDIRPLUS is one of a directory to
  -- which none of the entries that are looked up leads.
  pub Run-Served :
      {cl : Client} {s : Fuser} (q : Request)
      → Run c h cl s
      → Legal c cl s q
      → Served c (give cl q) (HasMemory q) (handle c h q s)
  Run-Served q run legal = let (sound, free) = Run-Sound run in handle-Served q _ _ sound free legal
