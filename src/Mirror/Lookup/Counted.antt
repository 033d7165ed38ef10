-- ===== src/Mirror/Lookup/Counted.antt =====
-- A lookup keeps the inodes sound, and counts what it hands out.
use mathlib.Core.Path.{subst}
use dpfs.Prelude.{
  ℕ, ◌+◌, ◌^◌, ◌<◌, ◌≡◌, ◌≢◌, ◌⊎◌, ◌∙◌, inl, inr, refl, sym, arith, true, false, Option, none, some,
  [], ◌==◌, ==_iff, Bool-cases, Option-cases, not,
}
use dpfs.InodeTable.{table_get, table_insert}
use dpfs.Fuse.Reply.{Stat}
use dpfs.Mirror.{
  fd, Node, Ref, ref_ino, Fuser, Conf, Result, done, fault, exits, hangs, update_heap, update_open,
  is_positive, new_node, new_ref, Looked, missed, found, Answers, Opened, Statted, status,
  descriptor, bump64, enter_inode, do_lookup, look_at, ◌>>=◌,
}
use dpfs.Mirror.Sound.{Client, set_refs, Sound}
use dpfs.Mirror.Sound.Place.{place-Sound}
use dpfs.Mirror.Lookup.{enter-known, enter-renewed, enter-new, enter-no_memory, renewed}
use dpfs.Mirror.Lookup.Held.{IsSound, Holds, gain, found_fd}
use dpfs.Mirror.Lookup.Changed.{
  upd-upd, fd-injective, weaken-Sound, reopened, wider, Placed-same, Placed-new,
}

-- What the operating system and the allocator give is new, and no count is at its end.
pub record IsNew (c : Conf) (cl : Client) (s : Fuser) (a : Answers) : Type 0 where
  pub new_fd : (x : ℕ) → a.opened ≡ descriptor x → (0 < x) × (s.is_open x ≡ false)
  pub new_inode : (b : ℕ) → a.fresh ≡ some b → (s.heap b ≡ none) × ((b ≢ c.root_id) × (0 < b))
  pub few : (b : ℕ) → cl.refs b + 1 < 2 ^ 64

-- What a lookup leaves: with an error, no new reference, and the mutex locked if memory was missing; with
-- an entry, one more reference to the inode that the number of the file leads to.
abbrev pub Counted : Conf → Client → Answers → Result Looked → Type 0
Counted c cl a (done (missed e) s') = IsSound c cl s' × (a.fresh ≢ none → s'.locked ≡ false)
Counted c cl a (done (found e) s') =
    IsSound c (gain cl e.ino) s'
    × (table_get ref_ino s'.table e.attr.ino ≡ some (new_ref e.attr.ino e.ino))
    × (s'.locked ≡ false)
    × (0 < e.ino)
Counted c cl a fault = ⊥
Counted c cl a exits = ⊥
Counted c cl a hangs = ⊥

Statted-cases : (v : Statted) → ((e : ℕ) × (v ≡ Statted.failed e)) ⊎ ((st : Stat) × (v ≡ status st))
Statted-cases (Statted.failed e) = inl (e, refl)
Statted-cases (status st) = inr (st, refl)

Opened-cases : (v : Opened) → ((e : ℕ) × (v ≡ Opened.failed e)) ⊎ ((x : ℕ) × (v ≡ descriptor x))
Opened-cases (Opened.failed e) = inl (e, refl)
Opened-cases (descriptor x) = inr (x, refl)

module _ (c : Conf) (cl : Client) (s : Fuser) (h : IsSound c cl s) where
  module _ (x : ℕ) (st : Stat) (fresh : Option ℕ) (a : Answers) (given : a.fresh ≡ fresh)
      (new : IsNew c cl s a) (free : s.locked ≡ false) (pos : 0 < x)
      (closed : s.is_open x ≡ false) where
    abbrev with_fd : Fuser
    with_fd = record s { is_open = update_open s.is_open x true }

    bump : (b : ℕ) (n : Node) → s.heap b ≡ some n → bump64 n.nlookup ≡ cl.refs b + 1
    bump b n at_b =
        let e : n.nlookup ≡ cl.refs b = (h.node b n at_b).count in omega (arith, new.few b)

    own_fd :
        (y : ℕ)
        → fd x ≡ fd y
        → (0 < y) × (s.is_open y ≡ false) × (update_open s.is_open x true y ≡ true)
    own_fd y f =
        let e : x ≡ y = fd-injective x y f in
        (rw (← e) pos, rw (← e) closed, rw (← e, (==_iff x x).1 refl) refl)

    known-Counted :
        (r : Ref) (n : Node)
        → table_get ref_ino s.table st.ino ≡ some r
        → s.heap r.at ≡ some n
        → n.ino ≡ st.ino
        → is_positive n.fd ≡ true
        → Counted c cl a (enter_inode c x st fresh with_fd)
    known-Counted r n known at_r ino positive =
        let n' : Node = record n { nlookup = bump64 n.nlookup } in
        let old = h.node r.at n at_r in
        let count : bump64 n.nlookup ≡ cl.refs r.at + 1 = bump r.at n at_r in
        let p =
          Placed-same c cl s h (update_open (update_open s.is_open x true) x false) r.at n n' at_r
            refl old.source
            (let some_left : 0 < bump64 n.nlookup = omega (arith, count) in some_left) old.known
            (λ y o _. reopened c cl s h x closed y o)
            (λ y f. inl (n, at_r, f, reopened c cl s h x closed y (old.opened y f).1)) in
        rw (enter-known c x st fresh with_fd free r n known at_r positive) (
          subst
              (λ k.
                Sound c.root_id (set_refs cl r.at k) (update_heap s.heap r.at (some n')) s.table
                  (update_open (update_open s.is_open x true) x false))
              count (place-Sound c.root_id cl s.heap s.table s.is_open h s.table _ r.at n' p),
          subst (λ k. table_get ref_ino s.table k ≡ some (new_ref k r.at)) ino old.listed,
          refl,
          old.elsewhere.1,
        )

    renewed-Counted :
        (r : Ref) (n : Node)
        → table_get ref_ino s.table st.ino ≡ some r
        → s.heap r.at ≡ some n
        → n.ino ≡ st.ino
        → is_positive n.fd ≡ false
        → Counted c cl a (enter_inode c x st fresh with_fd)
    renewed-Counted r n known at_r ino given_up =
        let n' : Node = renewed c x st fresh with_fd free n in
        let old = h.node r.at n at_r in
        let count : bump64 n.nlookup ≡ cl.refs r.at + 1 = bump r.at n at_r in
        let p =
          Placed-same c cl s h (update_open s.is_open x true) r.at n n' at_r refl (sym ino)
            (let some_left : 0 < bump64 n.nlookup = omega (arith, count) in some_left) (λ e. cc)
            (λ y o _. wider c cl s h x y o) (λ y f. inr (own_fd y f)) in
        rw (enter-renewed c x st fresh with_fd free r n known at_r given_up) (
          subst
              (λ k.
                Sound c.root_id (set_refs cl r.at k) (update_heap s.heap r.at (some n')) s.table
                  (update_open s.is_open x true))
              count (place-Sound c.root_id cl s.heap s.table s.is_open h s.table _ r.at n' p),
          subst (λ k. table_get ref_ino s.table k ≡ some (new_ref k r.at)) ino old.listed,
          refl,
          old.elsewhere.1,
        )

    new-Counted :
        (b : ℕ)
        → fresh ≡ some b
        → table_get ref_ino s.table st.ino ≡ none
        → Counted c cl a (enter_inode c x st fresh with_fd)
    new-Counted b some_b unknown =
        let n' : Node = renewed c x st fresh with_fd free (new_node st.ino) in
        let room = new.new_inode b (given ∙ some_b) in
        let count : bump64 0 ≡ cl.refs b + 1 =
          let z : cl.refs b ≡ 0 = h.no_refs b room.0 in omega arith in
        let p =
          Placed-new c cl s h (update_open s.is_open x true) b n' room.0 room.1 unknown refl
            (let some_left : 0 < bump64 0 = omega arith in some_left) (λ e. cc)
            (λ y o _. wider c cl s h x y o) (λ y f. inr (own_fd y f)) in
        rw
          (
            enter-new c x st fresh with_fd free b some_b unknown,
            upd-upd s.heap b (some (new_node st.ino)) (some n'),
          )
          (
            subst
                (λ k.
                  Sound c.root_id (set_refs cl b k) (update_heap s.heap b (some n'))
                    (table_insert ref_ino s.table (new_ref st.ino b) [])
                    (update_open s.is_open x true))
                count (place-Sound c.root_id cl s.heap s.table s.is_open h _ _ b n' p),
            p.here,
            refl,
            room.1.1,
          )

    enter-Counted : Counted c cl a (enter_inode c x st fresh with_fd)
    enter-Counted = elim (Option-cases (table_get ref_ino s.table st.ino)) [
      | inr (r, known) ↦
          let (n, at_r, ino) = h.owned st.ino r known in
          elim (Bool-cases (is_positive n.fd)) [
            | inl positive ↦ known-Counted r n known at_r ino positive
            | inr given_up ↦ renewed-Counted r n known at_r ino given_up
          ]
      | inl unknown ↦ elim (Option-cases fresh) [
        | inr (b, some_b) ↦ new-Counted b some_b unknown
        | inl no_memory ↦ rw (enter-no_memory c x st fresh with_fd free no_memory unknown) (
          weaken-Sound c cl s h _ (wider c cl s h x),
          λ there. absurd (there (given ∙ no_memory)),
        )
      ]
    ]

  -- The other ways behind a descriptor.
  look_at-Counted :
      (x : ℕ) (a : Answers)
      → IsNew c cl s a
      → s.locked ≡ false
      → 0 < x
      → s.is_open x ≡ false
      → Counted c cl a (look_at c x a (record s { is_open = update_open s.is_open x true }))
  unfolding look_at
  look_at-Counted x a new free pos closed = elim (Statted-cases a.statted) [
    | inl (e, failed) ↦
        rw (failed, Counted) (weaken-Sound c cl s h _ (reopened c cl s h x closed), λ there. free)
    | inr (st, got) ↦ elim (Bool-cases (not (st.dev == c.src_dev))) [
      | inl other ↦
          rw (got, other, Counted) (weaken-Sound c cl s h _ (wider c cl s h x), λ there. free)
      | inr same ↦ elim (Bool-cases (st.ino == c.root_id)) [
        | inl root ↦
            rw (got, same, root, Counted)
              (weaken-Sound c cl s h _ (wider c cl s h x), λ there. free)
        | inr plain ↦ rw (got, same, plain) (enter-Counted x st a.fresh a refl new free pos closed)
      ]
    ]
  ]

  -- For a folder that the kernel holds, with the mutex free and new answers of the operating system:
  -- a lookup neither faults nor hangs and leaves sound inodes. With an entry, the kernel holds one more
  -- reference, to the inode that the file's number leads to, and the mutex is free; with an error it holds
  -- none more, and the mutex is free unless there was no memory.
  pub do_lookup-Counted :
      (parent : ℕ) (a : Answers)
      → Holds c cl parent
      → IsNew c cl s a
      → s.locked ≡ false
      → Counted c cl a (do_lookup c parent a s)
  unfolding do_lookup
  do_lookup-Counted parent a held new free =
      let (d, dir) = found_fd c cl s h parent held in
      elim (Opened-cases a.opened) [
        | inl (e, failed) ↦ rw (dir, failed, ◌>>=◌, Counted) (h, λ there. free)
        | inr (x, got) ↦
            let fresh = new.new_fd x got in
            rw (dir, got, ◌>>=◌) (look_at-Counted x a new free fresh.0 fresh.1)
      ]
