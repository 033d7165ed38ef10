-- ===== src/Mirror/Forget.antt =====
-- A forget: the count goes down, and the inode goes with its last reference.
use mathlib.Core.Path.{subst}
use dpfs.Prelude.{
  ℕ, zero, suc, ◌+◌, ◌-◌, ◌<◌, ◌≤◌, ◌≡◌, ◌≢◌, ◌∙◌, inl, inr, refl, sym, ap, arith, Bool, true,
  false, Option, none, some, ltb, le→ltb, ◌==◌, ==_iff, if◌then◌else◌, Bool-cases,
}
use dpfs.InodeTable.{Table, table_get, table_remove}
use dpfs.InodeTable.Laws.{table_get-remove}
use dpfs.Mirror.{
  Fd, unset, gone, fd, Node, Ref, ref_ino, Fuser, Conf, Place, Result, done, fault, exits, hangs,
  update_heap, update_open, new_ref, ino_to_inodeptr, at, ◌>>=◌, forget_one, drop_inode,
  inode_table_erase, close_positive, free, ◌>>◌,
}
use dpfs.Mirror.Sound.{Client, set_refs, Sound}
use dpfs.Mirror.Sound.Place.{place-Sound}
use dpfs.Mirror.Sound.Gone.{gone-Sound}
use dpfs.Mirror.Lookup.Held.{IsSound, found_place}
use dpfs.Mirror.Lookup.Changed.{Placed-same, upd-upd}

-- The descriptors after the one of an inode is closed.
abbrev pub closed : Fd → (ℕ → Bool) → ℕ → Bool
closed (fd (suc x)) is_open = update_open is_open (suc x) false
closed _ is_open = is_open

pub closed_other :
    (d : Fd) (is_open : ℕ → Bool) (x : ℕ) → d ≢ fd x → is_open x ≡ true → closed d is_open x ≡ true
closed_other (fd (suc y)) is_open x ne o = elim (Bool-cases (suc y == x)) [
  | inl e ↦ absurd (ne (ap fd ((==_iff (suc y) x).0 e)))
  | inr e ↦ rw e o
]
closed_other (fd zero) is_open x ne o = o
closed_other unset is_open x ne o = o
closed_other gone is_open x ne o = o

pub close_positive_lem :
    (d : Fd) (s : Fuser) → close_positive d s ≡ done tt (record s { is_open = closed d s.is_open })
unfolding close_positive
close_positive_lem (fd (suc x)) s = refl
close_positive_lem (fd zero) s = refl
close_positive_lem unset s = refl
close_positive_lem gone s = refl

-- The inode of a key goes, with its descriptor.
erase_lem :
    (k ino : ℕ) (i : Node) (table' : Table Ref) (s : Fuser)
    → s.heap ino ≡ some i
    → table_remove ref_ino s.table k ≡ (some (new_ref k ino), table')
    → inode_table_erase k s
      ≡ done tt (record s {
        heap = update_heap s.heap ino none;
        table = table';
        is_open = closed i.fd s.is_open;
      })
unfolding inode_table_erase
erase_lem k ino i table' s there removed = rw (removed, there, ◌>>=◌) (destroyed i.fd)
  where
    destroyed :
        (d : Fd)
        → (close_positive d >> free ino) (record s { table = table' })
          ≡ done tt (record s {
            heap = update_heap s.heap ino none;
            table = table';
            is_open = closed d s.is_open;
          })
    destroyed (fd (suc x)) = refl
    destroyed (fd zero) = refl
    destroyed unset = refl
    destroyed gone = refl

drop-keeps :
    (c : Conf) (p : Place) (i : Node) (s : Fuser)
    → (i.nlookup == 0) ≡ false
    → drop_inode c p i s ≡ done tt s
unfolding drop_inode
drop-keeps c p i s left = rw left refl

drop-last :
    (c : Conf) (ino : ℕ) (i : Node) (table' : Table Ref) (s : Fuser)
    → s.heap ino ≡ some i
    → (i.nlookup == 0) ≡ true
    → s.locked ≡ false
    → table_remove ref_ino s.table i.src_ino ≡ (some (new_ref i.src_ino ino), table')
    → drop_inode c (at ino) i s
      ≡ done tt (record s {
        heap = update_heap s.heap ino none;
        table = table';
        locked = false;
        is_open = closed i.fd s.is_open;
      })
unfolding drop_inode
drop-last c ino i table' s there last free removed =
    ground (arith, erase_lem i.src_ino ino i table' (record s { locked = true }) there removed)

abbrev lower : Node → ℕ → Node
lower i n = record i { nlookup = i.nlookup - n }

module _ (c : Conf) (ino n : ℕ) (i : Node) (s : Fuser) (there : s.heap ino ≡ some i)
    (found : ino_to_inodeptr c ino s ≡ done (some (at ino)) s)
    (enough : ltb i.nlookup n ≡ false) where
  forget-keeps :
      ((i.nlookup - n) == 0) ≡ false
      → forget_one c ino n s
        ≡ done tt (record s { heap = update_heap s.heap ino (some (lower i n)) })
  unfolding forget_one
  forget-keeps left =
      let here : update_heap s.heap ino (some (lower i n)) ino ≡ some (lower i n) = ground arith in
      ground (
        arith,
        found,
        drop-keeps c (at ino) (lower i n)
            (record s { heap = update_heap s.heap ino (some (lower i n)) }) left,
      )

  forget-last :
      (table' : Table Ref)
      → ((i.nlookup - n) == 0) ≡ true
      → s.locked ≡ false
      → table_remove ref_ino s.table i.src_ino ≡ (some (new_ref i.src_ino ino), table')
      → forget_one c ino n s
        ≡ done tt (record s {
          heap = update_heap (update_heap s.heap ino (some (lower i n))) ino none;
          table = table';
          locked = false;
          is_open = closed i.fd s.is_open;
          stale = s.stale + 1;
        })
  unfolding forget_one
  forget-last table' last free removed =
      let heap : ℕ → Option Node = update_heap s.heap ino (some (lower i n)) in
      let at_here : heap ino ≡ some (lower i n) = ground arith in
      let away : update_heap heap ino none ino ≡ none = ground arith in
      ground (
        arith,
        found,
        drop-last c ino (lower i n) table' (record s { heap = heap }) at_here last free removed,
      )

-- What a forget leaves: so many references fewer, and nothing that was freed is read unless the inode
-- has gone.
abbrev pub Forgotten : Conf → Client → ℕ → ℕ → Fuser → Result (Unit {0}) → Type 0
Forgotten c cl ino n s (done u s') =
    IsSound c (set_refs cl ino (cl.refs ino - n)) s'
    × (s'.locked ≡ false)
    × (s'.stale ≡ (if cl.refs ino == n then s.stale + 1 else s.stale))
Forgotten c cl ino n s fault = ⊥
Forgotten c cl ino n s exits = ⊥
Forgotten c cl ino n s hangs = ⊥

module _ (c : Conf) (cl : Client) (s : Fuser) (h : IsSound c cl s) (free : s.locked ≡ false) where
  last-Forgotten :
      (ino : ℕ) (i : Node)
      → s.heap ino ≡ some i
      → ino_to_inodeptr c ino s ≡ done (some (at ino)) s
      → Forgotten c cl ino i.nlookup s (forget_one c ino i.nlookup s)
  last-Forgotten ino i there found =
      let old = h.node ino i there in
      let k : ℕ = i.src_ino in
      let listed : table_get ref_ino s.table k ≡ some (new_ref k ino) =
        subst (λ k. table_get ref_ino s.table k ≡ some (new_ref k ino)) (sym old.source)
          old.listed in
      let first : (table_remove ref_ino s.table k).0 ≡ some (new_ref k ino) =
        (table_get-remove ref_ino s.table k k h.in_place).0 ∙ listed in
      let removed : table_remove ref_ino s.table k
          ≡ (some (new_ref k ino), (table_remove ref_ino s.table k).1) =
        ap (λ (q : Option Ref). (q, (table_remove ref_ino s.table k).1)) first in
      let all : cl.refs ino - i.nlookup ≡ 0 = omega (arith, old.count) in
      let same : (cl.refs ino == i.nlookup) ≡ true =
        let count : i.nlookup ≡ cl.refs ino = old.count in ground arith in
      rw
        (
          forget-last c ino i.nlookup i s there found (ground arith) _ (ground arith) free removed,
          upd-upd s.heap ino (some (lower i i.nlookup)) none,
          all,
          same,
        )
        (
          subst
              (λ k.
                Sound c.root_id (set_refs cl ino 0) (update_heap s.heap ino none)
                  (table_remove ref_ino s.table k).1 (closed i.fd s.is_open))
              (sym old.source)
              (gone-Sound c.root_id cl s.heap s.table s.is_open h (closed i.fd s.is_open) ino i
                there (closed_other i.fd s.is_open)),
          refl,
          refl,
        )

  keeps-Forgotten :
      (ino n : ℕ) (i : Node)
      → s.heap ino ≡ some i
      → ino_to_inodeptr c ino s ≡ done (some (at ino)) s
      → n < i.nlookup
      → Forgotten c cl ino n s (forget_one c ino n s)
  keeps-Forgotten ino n i there found less =
      let old = h.node ino i there in
      let count : i.nlookup ≡ cl.refs ino = old.count in
      let p =
        Placed-same c cl s h s.is_open ino i (lower i n) there refl old.source (omega arith)
          old.known (λ x o _. o) (λ x f. inl (i, there, f, (old.opened x f).1)) in
      let differ : (cl.refs ino == n) ≡ false = ground arith in
      rw
        (
          forget-keeps c ino n i s there found (le→ltb i.nlookup n (omega arith)) (ground arith),
          differ,
        )
        (
          subst
              (λ k.
                Sound c.root_id (set_refs cl ino (k - n))
                  (update_heap s.heap ino (some (lower i n))) s.table s.is_open)
              count
              (place-Sound c.root_id cl s.heap s.table s.is_open h s.table s.is_open ino (lower i n)
                p),
          free,
          refl,
        )

  -- When the mutex is free and the kernel forgets no more references to an inode than it holds, of
  -- which there is one: the forget neither faults, exits nor hangs, the inodes stay sound with so many
  -- references fewer, and with the last one the inode is freed and then read once more.
  pub forget_one-Forgotten :
      (ino n : ℕ)
      → ino ≢ c.root_id
      → 0 < cl.refs ino
      → n ≤ cl.refs ino
      → Forgotten c cl ino n s (forget_one c ino n s)
  forget_one-Forgotten ino n other held few = elim (found_place c cl s h ino (inr held)) [
    | inl (root, e) ↦ absurd (other root)
    | inr (i, _, there, found) ↦
        let count : i.nlookup ≡ cl.refs ino = (h.node ino i there).count in
        elim (Bool-cases (n == i.nlookup)) [
          | inl e ↦
              let all : i.nlookup ≡ n = sym ((==_iff n i.nlookup).0 e) in
              subst (λ n. Forgotten c cl ino n s (forget_one c ino n s)) all
                (last-Forgotten ino i there found)
          | inr e ↦ keeps-Forgotten ino n i there found (ground arith)
        ]
  ]
