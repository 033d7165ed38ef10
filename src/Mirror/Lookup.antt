-- ===== src/Mirror/Lookup.antt =====
-- A lookup, on each of its ways.
pub mod Held
pub mod Changed
pub mod Counted
use dpfs.Prelude.{
  ℕ, suc, ◌+◌, ◌%◌, ◌^◌, ◌<◌, ◌≡◌, ◌≢◌, ◌⊎◌, ◌∙◌, inl, inr, refl, sym, ap, arith, Bool, true, false,
  Option, none, some, [], ◌==◌, ==_iff, if◌then◌else◌, Bool-cases, Option-cases,
}
use dpfs.InodeTable.{Table, table_get, table_insert, table_remove}
use dpfs.Fuse.Reply.{Stat, EntryParam}
use dpfs.Mirror.{
  Fd, unset, gone, fd, Node, Ref, ref_ino, Fuser, Conf, Result, done, fault, exits, hangs,
  update_heap, update_open, is_positive, new_node, new_ref, Looked, missed, found, Answers, bump64,
  entry_of, enter_inode, load, store, lock, unlock, getsert, take_ref, enter_found, close,
}

module _ (c : Conf) (x : ℕ) (st : Stat) (fresh : Option ℕ) (s : Fuser)
    (free : s.locked ≡ false) where
  -- The number is in the table, with a descriptor.
  pub enter-known :
      (r : Ref) (n : Node)
      → table_get ref_ino s.table st.ino ≡ some r
      → s.heap r.at ≡ some n
      → is_positive n.fd ≡ true
      → enter_inode c x st fresh s
        ≡ done (found (entry_of c r n.generation st)) (record s {
          locked = false;
          heap = update_heap s.heap r.at (some (record n { nlookup = bump64 n.nlookup }));
          is_open = update_open s.is_open x false;
        })
  unfolding enter_inode
  enter-known r n known at_r positive = ground arith

  -- What an inode with no descriptor becomes.
  abbrev pub renewed : Node → Node
  renewed n = record n { src_ino = st.ino; src_dev = st.dev; nlookup = bump64 n.nlookup; fd = fd x }

  -- The number is in the table, and its descriptor was given up.
  pub enter-renewed :
      (r : Ref) (n : Node)
      → table_get ref_ino s.table st.ino ≡ some r
      → s.heap r.at ≡ some n
      → is_positive n.fd ≡ false
      → enter_inode c x st fresh s
        ≡ done
            (found (entry_of c r n.generation st))
            (record s { locked = false; heap = update_heap s.heap r.at (some (renewed n)) })
  unfolding enter_inode
  enter-renewed r n known at_r closed = ground arith

  -- The number is not in the table.
  pub enter-new :
      (a : ℕ)
      → fresh ≡ some a
      → table_get ref_ino s.table st.ino ≡ none
      → enter_inode c x st fresh s
        ≡ done (found (entry_of c (new_ref st.ino a) 0 st)) (record s {
          locked = false;
          heap =
              update_heap
                (update_heap s.heap a (some (new_node st.ino)))
                a
                (some (renewed (new_node st.ino)));
          table = table_insert ref_ino s.table (new_ref st.ino a) [];
        })
  unfolding enter_inode
  enter-new a given unknown =
      let here : update_heap s.heap a (some (new_node st.ino)) a ≡ some (new_node st.ino) =
        ground arith in
      ground arith

  pub enter-no_memory :
      fresh ≡ none
      → table_get ref_ino s.table st.ino ≡ none
      → enter_inode c x st fresh s ≡ done (missed c.enomem) (record s { locked = true })
  unfolding enter_inode
  enter-no_memory no_memory unknown = ground arith
