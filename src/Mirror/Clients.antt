-- ===== src/Mirror/Clients.antt =====
-- What the kernel is given and gives back, beside sound inodes.
use mathlib.Core.Path.{subst, fun_ext}
use dpfs.Prelude.{
  ℕ, ◌-◌, ◌≡◌, ◌∙◌, inl, sym, ap, arith, Bool, true, false, some, ◌==◌, if◌then◌else◌,
}
use dpfs.Mirror.{fd, Node, Fuser, Conf, update_heap, update_open}
use dpfs.Mirror.Sound.{Client, set_refs, Sound}
use dpfs.Mirror.Sound.Place.{place-Sound}
use dpfs.Mirror.Lookup.Held.{IsSound, gain}
use dpfs.Mirror.Lookup.Changed.{Placed-same}

-- A descriptor that the kernel is handed, or hands back.
abbrev pub hand : Client → ℕ → Bool → Client
hand cl x b = record cl { handles = λ y. if x == y then b else cl.handles y }

pub set_refs_same : (cl : Client) (a n : ℕ) → n ≡ cl.refs a → set_refs cl a n ≡ cl
set_refs_same cl a n e =
    let same : (λ b. if a == b then n else cl.refs b) ≡ cl.refs = fun_ext λ b. ground arith in
    ap (λ (r : ℕ → ℕ). record cl { refs = r }) same

pub set_refs-gain : (cl : Client) (a : ℕ) → set_refs (gain cl a) a ((gain cl a).refs a - 1) ≡ cl
set_refs-gain cl a =
    let same : (λ b. if a == b then (gain cl a).refs a - 1 else (gain cl a).refs b) ≡ cl.refs =
      fun_ext λ b. ground arith in
    ap (λ (r : ℕ → ℕ). record cl { refs = r }) same

module _ (c : Conf) (cl : Client) (s : Fuser) (h : IsSound c cl s) where
  -- Other descriptors are open, and other ones belong to the kernel; those of the inodes stay open and
  -- their own.
  pub handles-Sound :
      (handles' is_open' : ℕ → Bool)
      → ((x : ℕ)
          → s.is_open x ≡ true
          → cl.handles x ≡ false
          → (is_open' x ≡ true) × (handles' x ≡ false))
      → ((x : ℕ) → handles' x ≡ true → is_open' x ≡ true)
      → Sound c.root_id (record cl { handles = handles' }) s.heap s.table is_open'
  handles-Sound handles' is_open' keeps others = record {
    in_place = h.in_place;
    owned = h.owned;
    node = λ a n at_a.
        let old = h.node a n at_a in
        record {
          elsewhere = old.elsewhere;
          listed = old.listed;
          source = old.source;
          count = old.count;
          held = old.held;
          known = old.known;
          opened = λ x f. let o = old.opened x f in let k = keeps x o.1 o.2 in (o.0, k.0, k.1);
        };
    alone = h.alone;
    no_refs = h.no_refs;
    others = others;
  }

  -- A new descriptor for the kernel.
  pub hand-Sound :
      (x : ℕ)
      → s.is_open x ≡ false
      → Sound c.root_id (hand cl x true) s.heap s.table (update_open s.is_open x true)
  hand-Sound x closed =
      handles-Sound _ _ (λ y o n. ground arith) (λ y o. let old = h.others y in ground (arith, old))

  -- The kernel's descriptor is closed.
  pub hand_back-Sound :
      (x : ℕ)
      → cl.handles x ≡ true
      → Sound c.root_id (hand cl x false) s.heap s.table (update_open s.is_open x false)
  hand_back-Sound x held =
      handles-Sound _ _ (λ y o n. ground arith) (λ y o. let old = h.others y in ground (arith, old))

  -- A write to an inode that leaves its number, its count and its descriptor alone.
  pub touch-Sound :
      (a : ℕ) (n n' : Node)
      → s.heap a ≡ some n
      → n'.ino ≡ n.ino
      → n'.src_ino ≡ n.src_ino
      → n'.nlookup ≡ n.nlookup
      → n'.fd ≡ n.fd
      → Sound c.root_id cl (update_heap s.heap a (some n')) s.table s.is_open
  touch-Sound a n n' at_a ino source count same_fd =
      let old = h.node a n at_a in
      let p =
        Placed-same c cl s h s.is_open a n n' at_a ino (source ∙ old.source)
          (let k = old.held in omega arith) (λ e. old.known (sym same_fd ∙ e)) (λ x o _. o)
          (λ x f. let g : n.fd ≡ fd x = sym same_fd ∙ f in inl (n, at_a, g, (old.opened x g).1)) in
      subst (λ cl. Sound c.root_id cl (update_heap s.heap a (some n')) s.table s.is_open)
        (set_refs_same cl a n'.nlookup (count ∙ old.count))
        (place-Sound c.root_id cl s.heap s.table s.is_open h s.table s.is_open a n' p)
