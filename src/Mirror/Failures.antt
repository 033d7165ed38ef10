-- ===== src/Mirror/Failures.antt =====
-- What the mirrors do when a lookup or a create fails.
use dpfs.Prelude.{
  ℕ, ◌≡◌, ◌≢◌, ◌∙◌, ◌⊎◌, refl, inl, inr, true, false, Option, none, ◌==◌, ==_iff, Bool-cases,
}
use dpfs.InodeTable.{table_get}
use dpfs.Fuse.Reply.{OutHeader, Stat, nothing, plus}
use dpfs.Mirror.{
  Fuser, Conf, done, hangs, bind, ref_ino, ◌>>=◌, Opened, descriptor, status, Answers, missed,
  do_lookup, enter_inode, update_open, lock, look_at,
}
use dpfs.Mirror.Handlers.{create}
use dpfs.Mirror.Sound.{Client, ne_test}
use dpfs.Mirror.Lookup.{enter-no_memory}
use dpfs.Mirror.Lookup.Held.{IsSound, Holds, found_fd}
use dpfs.Mirror.Lookup.Changed.{weaken-Sound, wider}
use dpfs.Mirror.Served.{held-Leads}

locked-hangs :
    (c : Conf) (x : ℕ) (st : Stat) (fresh : Option ℕ) (s : Fuser)
    → s.locked ≡ true
    → enter_inode c x st fresh s ≡ hangs
unfolding enter_inode
locked-hangs c x st fresh s locked = rw (lock, locked, bind) refl

module _ (c : Conf) (cl : Client) (s : Fuser) (sound : IsSound c cl s) where
  open_lem :
      (parent : ℕ) (a : Answers) (x : ℕ) (st : Stat)
      → Holds c cl parent
      → a.opened ≡ descriptor x
      → a.statted ≡ status st
      → st.dev ≡ c.src_dev
      → st.ino ≢ c.root_id
      → do_lookup c parent a s
        ≡ enter_inode c x st a.fresh (record s { is_open = update_open s.is_open x true })
  unfolding do_lookup look_at
  open_lem parent a x st held opened got same plain =
      let (d, dir) = found_fd c cl s sound parent held in
      rw (dir, opened, ◌>>=◌, got, (==_iff st.dev c.src_dev).1 same, ne_test st.ino c.root_id plain)
        refl

module _ (c : Conf) (cl : Client) (s : Fuser) (sound : IsSound c cl s) where
  -- A lookup of a file whose number is new, for which calloc finds no memory, answers ENOMEM and keeps
  -- the mutex: any later lookup that finds a file of the source's device (and other than the root's
  -- number) waits for ever.
  pub no_memory-hangs :
      s.locked ≡ false
      → (parent : ℕ) (a : Answers) (x : ℕ) (st : Stat) → Holds c cl parent
      → a.opened ≡ descriptor x
      → a.statted ≡ status st
      → st.dev ≡ c.src_dev
      → st.ino ≢ c.root_id
      → table_get ref_ino s.table st.ino ≡ none
      → a.fresh ≡ none
      → (parent' : ℕ) (a' : Answers) (x' : ℕ) (st' : Stat) → Holds c cl parent'
      → a'.opened ≡ descriptor x'
      → a'.statted ≡ status st'
      → st'.dev ≡ c.src_dev
      → st'.ino ≢ c.root_id
      → (s' : Fuser) × (do_lookup c parent a s ≡ done (missed c.enomem) s')
        × (do_lookup c parent' a' s' ≡ hangs)
  no_memory-hangs free parent a x st held opened got same plain unknown empty parent' a' x' st'
        held' opened' got' same' plain' =
      let s1 : Fuser = record s { is_open = update_open s.is_open x true } in
      let s' : Fuser = record s1 { locked = true } in
      let sound' : IsSound c cl s' = weaken-Sound c cl s sound s1.is_open (wider c cl s sound x) in
      (
        s',
        open_lem c cl s sound parent a x st held opened got same plain
            ∙ enter-no_memory c x st a.fresh s1 free empty unknown,
        open_lem c cl s' sound' parent' a' x' st' held' opened' got' same' plain'
            ∙ locked-hangs c x' st' a'.fresh
                (record s' { is_open = update_open s'.is_open x' true }) refl,
      )

  -- A lookup of a file on another device, or with the number of the root, is refused with its descriptor
  -- left open, which no inode has.
  refused-leaks :
      (parent : ℕ) (a : Answers) (x : ℕ) (st : Stat)
      → Holds c cl parent
      → a.opened ≡ descriptor x
      → a.statted ≡ status st
      → (st.dev ≢ c.src_dev) ⊎ (st.ino ≡ c.root_id)
      → (e : ℕ) × (do_lookup c parent a s
          ≡ done (missed e) (record s { is_open = update_open s.is_open x true }))
  unfolding do_lookup look_at
  refused-leaks parent a x st held opened got why =
      let (d, dir) = found_fd c cl s sound parent held in
      elim (Bool-cases (st.dev == c.src_dev)) [
        | inr away ↦ (c.enotsup, rw (dir, opened, ◌>>=◌, got, away) refl)
        | inl here ↦ elim why [
          | inl apart ↦ absurd (apart ((==_iff st.dev c.src_dev).0 here))
          | inr root ↦
              (c.eio, rw (dir, opened, ◌>>=◌, got, here, (==_iff st.ino c.root_id).1 root) refl)
        ]
      ]

  -- A create whose openat fails answers with the error as it is, not with the negative of it.
  create-plus :
      s.locked ≡ false
      → (h : OutHeader) (parent e : ℕ) (a : Answers) → Holds c cl parent
      → create c h parent (Opened.failed e) a s ≡ done (record h { error = plus e }, nothing) s
  unfolding create
  create-plus free h parent e a held =
      let (p, n, (leads, there, _)) = held-Leads c h cl s sound free parent held in
      rw (leads, bind, there, bind) refl
