-- ===== src/Mirror/Lookup/Held.antt =====
-- The inodes that the kernel holds are there.
use dpfs.Prelude.{
  ℕ, ◌+◌, ◌<◌, ◌≡◌, ◌≢◌, ◌⊎◌, inl, inr, refl, arith, true, some, ◌==◌, ==_iff, Bool-cases,
  Option-cases,
}
use dpfs.Mirror.{Fd, unset, Node, Fuser, Conf, done, load, ino_to_inodeptr, ino_to_fd, in_fuser, at}
use dpfs.Mirror.Sound.{Client, set_refs, Sound}

abbrev pub IsSound : Conf → Client → Fuser → Type 0
IsSound c cl s = Sound c.root_id cl s.heap s.table s.is_open

-- A request names the root or an inode that the kernel holds.
abbrev pub Holds : Conf → Client → ℕ → Type 0
Holds c cl ino = (ino ≡ c.root_id) ⊎ (0 < cl.refs ino)

-- One more reference to an inode.
abbrev pub gain : Client → ℕ → Client
gain cl a = set_refs cl a (cl.refs a + 1)

module _ (c : Conf) (cl : Client) (s : Fuser) (h : IsSound c cl s) where
  pub held_there :
      (ino : ℕ) → 0 < cl.refs ino → (n : Node) × (s.heap ino ≡ some n) × (n.nlookup ≡ cl.refs ino)
  held_there ino held = elim (Option-cases (s.heap ino)) [
    | inl absent ↦ absurd (let z : cl.refs ino ≡ 0 = h.no_refs ino absent in omega arith)
    | inr (n, there) ↦ (n, there, (h.node ino n there).count)
  ]

  -- A request that the kernel may make finds its inode.
  pub found_place :
      (ino : ℕ)
      → Holds c cl ino
      → ((ino ≡ c.root_id) × (ino_to_inodeptr c ino s ≡ done (some in_fuser) s))
        ⊎ ((n : Node) × (ino ≢ c.root_id)
            × (s.heap ino ≡ some n)
            × (ino_to_inodeptr c ino s ≡ done (some (at ino)) s))
  unfolding ino_to_inodeptr
  found_place ino held = elim (Bool-cases (ino == c.root_id)) [
    | inl root ↦ inl ((==_iff ino c.root_id).0 root, rw root refl)
    | inr other ↦ elim held [
      | inl root ↦ absurd (let e : (ino == c.root_id) ≡ true = (==_iff ino c.root_id).1 root in cc)
      | inr some_refs ↦
          let (n, there, count) = held_there ino some_refs in
          let known : n.fd ≢ unset = (h.node ino n there).known in
          inr (
            n,
            λ root. (let e : (ino == c.root_id) ≡ true = (==_iff ino c.root_id).1 root in cc),
            there,
            ground arith,
          )
    ]
  ]

  pub found_fd : (ino : ℕ) → Holds c cl ino → (d : Fd) × (ino_to_fd c ino s ≡ done d s)
  unfolding ino_to_fd load
  found_fd ino held = elim (found_place ino held) [
    | inl (root, e) ↦ (s.root.fd, ground (arith, e))
    | inr (n, other, there, e) ↦ (n.fd, ground (arith, e))
  ]
