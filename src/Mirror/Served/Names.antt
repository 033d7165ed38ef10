-- ===== src/Mirror/Served/Names.antt =====
-- The requests that make and take names beside a lookup: create and unlink.
use mathlib.Core.Path.{subst}
use dpfs.Prelude.{
  ℕ, ◌+◌, ◌%◌, ◌^◌, ◌<◌, ◌≡◌, ◌≢◌, ◌⊎◌, inl, inr, refl, arith, Bool, true, false, ◌&&◌, Option,
  none, some, ◌==◌, if◌then◌else◌, Bool-cases,
}
use dpfs.Fuse.Reply.{OutHeader, reply_create}
use dpfs.Mirror.{
  gone, Fuser, Conf, M, Node, Result, done, bind, ◌>>=◌, Place, in_fuser, at, Opened, descriptor,
  Answers, Looked, missed, found, do_lookup, forget_one, update_heap, update_open, load,
  is_positive, bump64,
}
use dpfs.Mirror.Handlers.{Answer, create, answer_create, unlink, unlink_found, unlink_at, give_up}
use dpfs.Mirror.Sound.{Client, Sound}
use dpfs.Mirror.Sound.Place.{place-Sound}
use dpfs.Mirror.Lookup.Held.{IsSound, Holds, gain, found_place, held_there}
use dpfs.Mirror.Lookup.Changed.{Placed-same}
use dpfs.Mirror.Lookup.Counted.{IsNew, Counted, do_lookup-Counted}
use dpfs.Mirror.Forget.{closed, closed_other, close_positive_lem}
use dpfs.Mirror.Clients.{hand, hand-Sound, handles-Sound, set_refs_same}
use dpfs.Mirror.Requests.{Served, IsNewFd, with_open}
use dpfs.Mirror.Served.{held-Leads, touch_place, after_lookup, forget_gained}

module _ (c : Conf) (h : OutHeader) (cl : Client) where
  -- A descriptor that the kernel is not given stays open.
  unhanded-Sound : (x : ℕ) (s : Fuser) → IsSound c (hand cl x true) s → IsSound c cl s
  unhanded-Sound x s sound =
      handles-Sound c (hand cl x true) s sound cl.handles s.is_open (λ y o n. (o, ground arith))
        (λ y g. sound.others y (ground arith))

  answer_create-Served :
      (x : ℕ) (l : Looked) (s : Fuser) (a : Answers)
      → Counted c (hand cl x true) a (done l s)
      → Served c cl (a.fresh ≢ none) (answer_create c h x l s)
  unfolding answer_create reply_create
  answer_create-Served x (missed e) s a counted = (unhanded-Sound x s counted.0, counted.1)
  answer_create-Served x (found e) s a counted =
      let cl' : Client = gain (hand cl x true) e.ino in
      let has : Holds c cl' e.ino = inr (ground arith) in
      let (p, n, (leads, there, where_at)) = held-Leads c h cl' s counted.0 counted.2 e.ino has in
      let (s', stores, sound', free', same) =
        touch_place c h cl' s counted.0 counted.2 e.ino p n (bump64 n.nopen) where_at in
      rw (leads, bind, there, bind, stores, bind, Served) (sound', λ m. free')

  module _ (s : Fuser) (sound : IsSound c cl s) (free : s.locked ≡ false) where
    pub create-Served :
        (parent : ℕ) (o : Opened) (a : Answers)
        → Holds c cl parent
        → IsNewFd s o
        → IsNew c cl (with_open s o) a
        → Served c cl (a.fresh ≢ none) (create c h parent o a s)
    unfolding create
    create-Served parent (Opened.failed e) a held fresh new =
        let (p, n, (leads, there, where_at)) = held-Leads c h cl s sound free parent held in
        rw (leads, bind, there, bind) (sound, λ m. free)
    create-Served parent (descriptor x) a held fresh new =
        let (p, n, (leads, there, where_at)) = held-Leads c h cl s sound free parent held in
        let s1 : Fuser = record s { is_open = update_open s.is_open x true } in
        let cl1 : Client = hand cl x true in
        let sound1 : IsSound c cl1 s1 = hand-Sound c cl s sound x fresh.1 in
        let new1 : IsNew c cl1 s1 a = record {
          new_fd = new.new_fd;
          new_inode = new.new_inode;
          few = new.few;
        } in
        rw (leads, bind, there, bind)
          (after_lookup c cl1 a (Served c cl (a.fresh ≢ none)) (answer_create c h x)
            (do_lookup c parent a s1) (do_lookup-Counted c cl1 s1 sound1 parent a held new1 free)
            (λ l s' counted. answer_create-Served x l s' a counted))

either :
    (b : Bool) (m n : M Answer) (s : Fuser) (P : Result Answer → Type 0)
    → P (m s)
    → P (n s)
    → P ((if b then m else n) s)
either true m n s P p q = p
either false m n s P p q = q

-- The descriptor of an inode is given up, if it is not in use.
give_up_lem :
    (c : Conf) (h : OutHeader) (cl : Client) (s : Fuser) (a : ℕ) (n : Node)
    → IsSound c cl s
    → s.locked ≡ false
    → s.heap a ≡ some n
    → (s' : Fuser) × (give_up c h (at a) s ≡ done tt s') × IsSound c cl s' × (s'.locked ≡ false)
unfolding give_up
give_up_lem c h cl s a n sound free there = elim (Bool-cases (is_positive n.fd && (n.nopen == 0))) [
  | inr used ↦ (s, rw (there, bind, used) refl, sound, free)
  | inl unused ↦
      let n' : Node = record n { fd = gone; generation = (n.generation + 1) % 2 ^ 32 } in
      let old = sound.node a n there in
      let p =
        Placed-same c cl s sound (closed n.fd s.is_open) a n n' there refl old.source old.held
          (λ e. cc) (λ x o others. closed_other n.fd s.is_open x (others n there) o) (λ x e. cc) in
      (
        record s {
          heap = update_heap s.heap a (some n');
          is_open = closed n.fd s.is_open;
          locked = false;
        },
        rw
            (
              there,
              bind,
              unused,
              free,
              bind,
              close_positive_lem n.fd (record s { locked = true }),
              bind,
              there,
            )
            refl,
        subst
            (λ cl.
              Sound c.root_id cl (update_heap s.heap a (some n')) s.table (closed n.fd s.is_open))
            (set_refs_same cl a n.nlookup old.count)
            (place-Sound c.root_id cl s.heap s.table s.is_open sound s.table (closed n.fd s.is_open)
              a n' p),
        refl,
      )
]

module _ (c : Conf) (h : OutHeader) (cl : Client) where
  -- A folder that the kernel holds is there after other requests too.
  Stays : ℕ → Place → Type 0
  Stays parent dir = (dir ≡ in_fuser) ⊎ ((dir ≡ at parent) × (0 < cl.refs parent))

  unlink_at-Served :
      (parent : ℕ) (dir : Place) (res : Option ℕ) (s : Fuser) (memory : Type 0)
      → Stays parent dir
      → IsSound c cl s
      → s.locked ≡ false
      → Served c cl memory (unlink_at c h dir res s)
  unfolding unlink_at load Stays
  unlink_at-Served parent dir none s memory (inl e) sound free = rw (e, bind) (sound, λ m. free)
  unlink_at-Served parent dir (some err) s memory (inl e) sound free =
      rw (e, bind) (sound, λ m. free)
  unlink_at-Served parent dir none s memory (inr (e, held)) sound free =
      let (n, there, _) = held_there c cl s sound parent held in
      rw (e, load, there, bind) (sound, λ m. free)
  unlink_at-Served parent dir (some err) s memory (inr (e, held)) sound free =
      let (n, there, _) = held_there c cl s sound parent held in
      rw (e, load, there, bind) (sound, λ m. free)

  -- The reference of the lookup is given back, and the name is taken away.
  forget_then :
      (parent a : ℕ) (dir : Place) (res : Option ℕ) (s : Fuser) (memory : Type 0)
      → Stays parent dir
      → IsSound c (gain cl a) s
      → s.locked ≡ false
      → Served c cl memory (bind (forget_one c a 1 s) (λ u. unlink_at c h dir res))
  forget_then parent a dir res s memory stays sound free =
      forget_gained c cl a s (Served c cl memory) (unlink_at c h dir res) sound free
        (λ s' sound' free'. unlink_at-Served parent dir res s' memory stays sound' free')

  unlink_found-Served :
      (parent : ℕ) (dir : Place) (res : Option ℕ) (l : Looked) (s : Fuser) (a : Answers)
      → Stays parent dir
      → Counted c cl a (done l s)
      → Served c cl (a.fresh ≢ none) (unlink_found c h dir res l s)
  unfolding unlink_found
  unlink_found-Served parent dir res (missed e) s a stays counted = counted
  unlink_found-Served parent dir res (found e) s a stays counted =
      elim (Bool-cases (e.attr.nlink == 1)) [
        | inr more ↦
            rw more (forget_then parent e.ino dir res s (a.fresh ≢ none) stays counted.0 counted.2)
        | inl last ↦
            let refs : (gain cl e.ino).refs e.ino ≡ cl.refs e.ino + 1 = ground arith in
            let held : 0 < (gain cl e.ino).refs e.ino = omega (arith, refs) in
            let (n, there, _) = held_there c (gain cl e.ino) s counted.0 e.ino held in
            elim (found_place c (gain cl e.ino) s counted.0 e.ino (inr held)) [
              | inl (root, _) ↦ absurd ((counted.0.node e.ino n there).elsewhere.0 root)
              | inr (m, apart, at_e, leads) ↦
                  let (s', gives, sound', free') =
                    give_up_lem c h (gain cl e.ino) s e.ino n counted.0 counted.2 there in
                  rw (last, leads, bind, gives, bind)
                    (forget_then parent e.ino dir res s' (a.fresh ≢ none) stays sound' free')
            ]
      ]

  pub unlink-Served :
      (s : Fuser)
      → IsSound c cl s
      → s.locked ≡ false
      → (parent : ℕ) (a : Answers) (res : Option ℕ) → Holds c cl parent
      → IsNew c cl s a
      → Served c cl (a.fresh ≢ none) (unlink c h parent a res s)
  unfolding unlink Stays
  unlink-Served s sound free parent a res held new =
      let (p, n, (leads, there, where_at)) = held-Leads c h cl s sound free parent held in
      let stays : Stays parent p = elim where_at [
        | inl e ↦ inl e
        | inr (e, at_parent) ↦
            let node = sound.node parent n at_parent in
            let k = node.held in inr (e, omega (arith, node.count))
      ] in
      rw (leads, bind)
        (either c.cached (unlink_at c h p res) (do_lookup c parent a >>= unlink_found c h p res) s
          (Served c cl (a.fresh ≢ none))
          (unlink_at-Served parent p res s (a.fresh ≢ none) stays sound free)
          (after_lookup c cl a (Served c cl (a.fresh ≢ none)) (unlink_found c h p res)
            (do_lookup c parent a s) (do_lookup-Counted c cl s sound parent a held new free)
            (λ l s' counted. unlink_found-Served parent p res l s' a stays counted)))
