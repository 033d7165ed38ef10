-- ===== src/Mirror/Served.antt =====
-- Every request that the kernel may make is served: no handler reads through NULL or freed memory, and the
-- inodes stay sound with what the kernel holds.
pub mod Names
use dpfs.Prelude.{
  ℕ, ◌+◌, ◌-◌, ◌<◌, ◌≤◌, ◌≡◌, ◌≢◌, ◌∙◌, ◌⊎◌, inl, inr, refl, sym, ap, arith, Bool, true, false, not,
  ◌&&◌, Option, none, some, List, [], ◌∷◌, ◌==◌, ==_iff, if◌then◌else◌, Bool-cases, Option-cases,
  ltb,
}
use dpfs.Fuse.Reply.{
  OutHeader, FileInfo, Payload, EntryParam, nothing, attr, entry, opened, created, reply_entry,
  reply_open, HeaderError, minus,
}
use dpfs.Mirror.{
  Fuser, Conf, M, Node, Result, done, fault, exits, hangs, bind, pure, ◌>>=◌, ◌>>◌, Place, in_fuser,
  at, Opened, descriptor, Answers, Looked, missed, found, do_lookup, ino_to_inodeptr, forget_one,
  update_heap, update_open, load, store, deref, bump64,
}
use dpfs.Mirror.Handlers.{
  make_at, Answer, Kind, directory, other, symlink, lookup, answer_lookup, answer_made,
  make_something, open_file, release, batch_forget, opened_once, lower64, fail_with, finish,
  negative,
}
use dpfs.Mirror.Sound.{Client, set_refs}
use dpfs.Mirror.Lookup.Held.{IsSound, Holds, gain, found_place, held_there}
use dpfs.Mirror.Lookup.Counted.{IsNew, Counted, do_lookup-Counted}
use dpfs.Mirror.Forget.{forget_one-Forgotten, Forgotten}
use mathlib.Core.Path.{subst}
use dpfs.Mirror.Clients.{set_refs-gain, hand, hand-Sound, hand_back-Sound, touch-Sound}
use dpfs.Mirror.Requests.{receive, Served, IsNewFd, MayForget, forget_all}

-- A place that a request names, and the inode there.
abbrev pub Leads : Conf → ℕ → Fuser → Place → Node → Type 0
Leads c ino s p n =
    (ino_to_inodeptr c ino s ≡ done (some p) s)
    × (load p s ≡ done n s)
    × ((p ≡ in_fuser) ⊎ ((p ≡ at ino) × (s.heap ino ≡ some n)))

-- What follows a lookup that counts.
pub after_lookup :
    {B : Type 0} (c : Conf) (cl : Client) (a : Answers) (P : Result B → Type 0) (k : Looked → M B)
    (r : Result Looked)
    → Counted c cl a r
    → ((l : Looked) (s : Fuser) → Counted c cl a (done l s) → P (k l s))
    → P (bind r k)
after_lookup c cl a P k (done l s) h f = f l s h
after_lookup c cl a P k fault h f = absurd h
after_lookup c cl a P k exits h f = absurd h
after_lookup c cl a P k hangs h f = absurd h

-- What follows a forget.
pub after_forget {ℓ} :
    {B : Type 0} (c : Conf) (cl : Client) (ino n : ℕ) (s : Fuser) (P : Result B → Type ℓ) (k : M B)
    (r : Result (Unit {0}))
    → Forgotten c cl ino n s r
    → ((s' : Fuser) → Forgotten c cl ino n s (done tt s') → P (k s'))
    → P (bind r (λ u. k))
after_forget c cl ino n s P k (done tt s') h f = f s' h
after_forget c cl ino n s P k fault h f = absurd h
after_forget c cl ino n s P k exits h f = absurd h
after_forget c cl ino n s P k hangs h f = absurd h

-- The reference of a lookup is given back.
pub forget_gained :
    {B : Type 0} (c : Conf) (cl : Client) (a : ℕ) (s : Fuser) (P : Result B → Type 0) (k : M B)
    → IsSound c (gain cl a) s
    → s.locked ≡ false
    → ((s' : Fuser) → IsSound c cl s' → s'.locked ≡ false → P (k s'))
    → P (bind (forget_one c a 1 s) (λ u. k))
forget_gained c cl a s P k sound free f =
    let refs : (gain cl a).refs a ≡ cl.refs a + 1 = ground arith in
    let held : 0 < (gain cl a).refs a = omega (arith, refs) in
    let (n, there, _) = held_there c (gain cl a) s sound a held in
    after_forget c (gain cl a) a 1 s P k (forget_one c a 1 s)
      (forget_one-Forgotten c (gain cl a) s sound free a 1 (sound.node a n there).elsewhere.0 held
        held)
      (λ s' gone_one.
        f s' (subst (λ cl. IsSound c cl s') (set_refs-gain cl a) gone_one.0) gone_one.1)

module _ (c : Conf) (h : OutHeader) (cl : Client) where
  -- The kernel takes an entry as a reference to its inode.
  entry-Served :
      (e : EntryParam) (s : Fuser) (memory : Type 0)
      → IsSound c (gain cl e.ino) s
      → 0 < e.ino
      → s.locked ≡ false
      → Served c cl memory (done (reply_entry c.sizes c.proto_minor h e) s)
  unfolding reply_entry
  entry-Served e s memory sound pos free =
      let test : (e.ino == 0) ≡ false = ground arith in
      rw (test, Served) (rw test (sound, λ m. free))

  pub answer_made-Served :
      (l : Looked) (s : Fuser) (a : Answers)
      → Counted c cl a (done l s)
      → Served c cl (a.fresh ≢ none) (answer_made c h l s)
  unfolding answer_made
  answer_made-Served (missed e) s a counted = counted
  answer_made-Served (found e) s a counted =
      entry-Served e s (a.fresh ≢ none) counted.0 counted.3 counted.2

  pub answer_lookup-Served :
      (l : Looked) (s : Fuser) (a : Answers)
      → Counted c cl a (done l s)
      → Served c cl (a.fresh ≢ none) (answer_lookup c h l s)
  unfolding answer_lookup reply_entry
  answer_lookup-Served (missed e) s a counted = elim (Bool-cases (e == c.sizes.enoent)) [
    | inl absent ↦ elim (Bool-cases (ltb c.proto_minor 4)) [
      | inl old ↦ rw (absent, old, Served) counted
      | inr new ↦ rw (absent, new, Served) counted
    ]
    | inr wrong ↦ rw (wrong, Served) counted
  ]
  answer_lookup-Served (found e) s a counted =
      entry-Served e s (a.fresh ≢ none) counted.0 counted.3 counted.2

  module _ (s : Fuser) (sound : IsSound c cl s) (free : s.locked ≡ false) where
    pub lookup-Served :
        (parent : ℕ) (a : Answers)
        → Holds c cl parent
        → IsNew c cl s a
        → Served c cl (a.fresh ≢ none) (lookup c h parent a s)
    unfolding lookup
    lookup-Served parent a held new =
        after_lookup c cl a (Served c cl (a.fresh ≢ none)) (answer_lookup c h)
          (do_lookup c parent a s) (do_lookup-Counted c cl s sound parent a held new free)
          (λ l s' counted. answer_lookup-Served l s' a counted)

    -- The inode that a request names is there.
    pub held-Leads : (ino : ℕ) → Holds c cl ino → (p : Place) × (n : Node) × Leads c ino s p n
    unfolding load
    held-Leads ino held = elim (found_place c cl s sound ino held) [
      | inl (root, e) ↦ (in_fuser, s.root, (e, refl, inl refl))
      | inr (n, apart, there, e) ↦ (at ino, n, (e, rw (there, load) refl, inr (refl, there)))
    ]

    make_at-Served :
        (parent : ℕ) (res : Option ℕ) (a : Answers) (p : Place) (n : Node)
        → Holds c cl parent
        → IsNew c cl s a
        → load p s ≡ done n s
        → Served c cl (a.fresh ≢ none) (make_at c h parent res a p s)
    unfolding make_at
    make_at-Served parent (some e) a p n held new there = rw (there, bind) (sound, λ m. free)
    make_at-Served parent none a p n held new there =
        rw (there, bind)
          (after_lookup c cl a (Served c cl (a.fresh ≢ none)) (answer_made c h)
            (do_lookup c parent a s) (do_lookup-Counted c cl s sound parent a held new free)
            (λ l s' counted. answer_made-Served l s' a counted))

    pub make_something-Served :
        (parent : ℕ) (kind : Kind) (res : Option ℕ) (a : Answers)
        → Holds c cl parent
        → IsNew c cl s a
        → Served c cl (a.fresh ≢ none) (make_something c h parent kind res a s)
    unfolding make_something
    make_something-Served parent (symlink false) res a held new =
        let (p, n, (leads, there, _)) = held-Leads parent held in
        rw (leads, bind) (sound, λ m. free)
    make_something-Served parent (symlink true) res a held new =
        let (p, n, (leads, there, _)) = held-Leads parent held in
        rw (leads, bind) (make_at-Served parent res a p n held new there)
    make_something-Served parent directory res a held new =
        let (p, n, (leads, there, _)) = held-Leads parent held in
        rw (leads, bind) (make_at-Served parent res a p n held new there)
    make_something-Served parent other res a held new =
        let (p, n, (leads, there, _)) = held-Leads parent held in
        rw (leads, bind) (make_at-Served parent res a p n held new there)

    -- The count of opens is written.
    pub touch_place :
        (ino : ℕ) (p : Place) (n : Node) (k : ℕ)
        → (p ≡ in_fuser) ⊎ ((p ≡ at ino) × (s.heap ino ≡ some n))
        → (s' : Fuser) × (store p (record n { nopen = k }) s ≡ done tt s')
          × IsSound c cl s'
          × (s'.locked ≡ false)
          × (s'.is_open ≡ s.is_open)
    unfolding store
    touch_place ino p n k (inl e) =
        (record s { root = record n { nopen = k } }, rw e refl, sound, free, refl)
    touch_place ino p n k (inr (e, there)) = (
      record s { heap = update_heap s.heap ino (some (record n { nopen = k })) },
      rw e (ground arith),
      touch-Sound c cl s sound ino n (record n { nopen = k }) there refl refl refl refl,
      free,
      refl,
    )

module _ (c : Conf) (h : OutHeader) (cl : Client) (s : Fuser) (sound : IsSound c cl s)
    (free : s.locked ≡ false) where
  pub release-Served :
      (ino fh : ℕ)
      → Holds c cl ino
      → cl.handles fh ≡ true
      → Served c (hand cl fh false) (Unit {0}) (release c h ino fh s)
  unfolding release
  release-Served ino fh held mine =
      let (p, n, (leads, there, where_at)) = held-Leads c h cl s sound free ino held in
      let (s', stores, sound', free', same) =
        touch_place c h cl s sound free ino p n (lower64 n.nopen) where_at in
      rw (leads, bind, there, bind, stores, bind, Served)
        (hand_back-Sound c cl s' sound' fh mine, λ m. free')

  pub open_file-Served :
      (ino : ℕ) (o : Opened) (garbage : FileInfo)
      → Holds c cl ino
      → IsNewFd s o
      → Served c cl (Unit {0}) (open_file c h ino o garbage s)
  unfolding open_file reply_open
  open_file-Served ino (Opened.failed e) garbage held new =
      let (p, n, (leads, there, where_at)) = held-Leads c h cl s sound free ino held in
      rw (leads, bind, there, bind) (sound, λ m. free)
  open_file-Served ino (descriptor x) garbage held new =
      let (p, n, (leads, there, where_at)) = held-Leads c h cl s sound free ino held in
      let s1 : Fuser = record s { is_open = update_open s.is_open x true } in
      let sound1 : IsSound c (hand cl x true) s1 = hand-Sound c cl s sound x new.1 in
      let (s', stores, sound', free', same) =
        touch_place c h (hand cl x true) s1 sound1 free ino p n (bump64 n.nopen) where_at in
      rw (leads, bind, there, bind, stores, bind, Served) (sound', λ m. free')

pub batch_forget-Served :
    (c : Conf) (h : OutHeader) (all : List (ℕ × ℕ)) (cl : Client) (s : Fuser)
    → IsSound c cl s
    → s.locked ≡ false
    → MayForget c cl all
    → Served c
        (forget_all cl all)
        (Unit {0})
        (bind (batch_forget c h all s) (λ u. pure (h, nothing)))
unfolding batch_forget
batch_forget-Served c h [] cl s sound free may = (sound, λ m. free)
batch_forget-Served c h ((ino, n) ∷ all) cl s sound free (apart, held, few, rest) =
    after_forget c cl ino n s
      (λ r. Served c (forget_all cl ((ino, n) ∷ all)) (Unit {0}) (bind r (λ u. pure (h, nothing))))
      (batch_forget c h all) (forget_one c ino n s)
      (forget_one-Forgotten c cl s sound free ino n apart held few)
      λ s' done_one.
        batch_forget-Served c h all (set_refs cl ino (cl.refs ino - n)) s' done_one.0 done_one.1
          rest
