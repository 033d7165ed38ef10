-- ===== src/Mirror/Sound/Place.antt =====
-- An inode that is put at an address, in place of the one there or beside all others.
use mathlib.Core.Option.{some-injective}
use mathlib.Core.Path.{subst}
use dpfs.Prelude.{
  ℕ, ◌<◌, ◌≡◌, ◌≢◌, ◌⊎◌, ◌∙◌, inl, inr, refl, sym, ap, Bool, true, false, Option, none, some, ◌==◌,
  ==_iff, Bool-cases,
}
use dpfs.InodeTable.{Table, table_get}
use dpfs.InodeTable.Laws.{IsTable}
use dpfs.Mirror.{unset, fd, Node, Ref, ref_ino, update_heap}
use dpfs.Mirror.Sound.{Client, set_refs, ne_test, heap_cases, IsNode, Sound}

module _ (root_id : ℕ) where
  module _ (cl : Client) (heap : ℕ → Option Node) (table : Table Ref) (is_open : ℕ → Bool)
      (s : Sound root_id cl heap table is_open) where
    -- A descriptor that an inode may be given: the one that the address has, or one that was not open;
    -- and no other one is closed.
    abbrev pub Fresh : (ℕ → Bool) → ℕ → Node → Type 0
    Fresh is_open' a n' =
        (x : ℕ)
        → n'.fd ≡ fd x
        → ((n : Node) × (heap a ≡ some n) × (n.fd ≡ fd x) × (is_open' x ≡ true))
          ⊎ ((0 < x) × (is_open x ≡ false) × (is_open' x ≡ true))

    -- A new node at an address, and the table in which its number leads there.
    pub record Placed (table' : Table Ref) (is_open' : ℕ → Bool) (a : ℕ) (n' : Node) : Type 0 where
      pub in_place : IsTable ref_ino table'
      pub here : table_get ref_ino table' n'.ino ≡ some (record { ino = n'.ino; at = a })
      pub elsewhere : (k : ℕ) → k ≢ n'.ino → table_get ref_ino table' k ≡ table_get ref_ino table k
      pub mine : (r : Ref) → table_get ref_ino table n'.ino ≡ some r → r.at ≡ a
      pub own : (n : Node) → heap a ≡ some n → n.ino ≡ n'.ino
      pub not_root : (a ≢ root_id) × (0 < a)
      pub source : n'.src_ino ≡ n'.ino
      pub held : 0 < n'.nlookup
      pub known : n'.fd ≢ unset
      pub opens :
          (x : ℕ)
          → is_open x ≡ true
          → ((n : Node) → heap a ≡ some n → n.fd ≢ fd x)
          → is_open' x ≡ true
      pub fresh : Fresh is_open' a n'

    module _ (table' : Table Ref) (is_open' : ℕ → Bool) (a : ℕ) (n' : Node)
        (p : Placed table' is_open' a n') where
      -- Its descriptor is its own.
      placed_fd : (x : ℕ) → n'.fd ≡ fd x → (0 < x) × (is_open' x ≡ true) × (cl.handles x ≡ false)
      placed_fd x e = elim (p.fresh x e) [
        | inl (n, at_a, f, opened) ↦
            let old = (s.node a n at_a).opened x f in (old.0, opened, old.2)
        | inr (pos, closed, opened) ↦ (
          pos,
          opened,
          elim (Bool-cases (cl.handles x)) [ inl h ↦ cc (s.others x h) | inr h ↦ h ],
        )
      ]

      no_other_fd :
          (b : ℕ) (m : Node) (x : ℕ) → a ≢ b → heap b ≡ some m → m.fd ≡ fd x → n'.fd ≢ fd x
      no_other_fd b m x ne at_b f e = elim (p.fresh x e) [
        | inl (n, at_a, g, _) ↦ ne (s.alone a b n m x at_a at_b g f)
        | inr (pos, closed, opened) ↦ cc ((s.node b m at_b).opened x f).1
      ]

      other_ino : (b : ℕ) (m : Node) → a ≢ b → heap b ≡ some m → m.ino ≢ n'.ino
      other_ino b m ne at_b e = ne (
          sym (
            p.mine (record { ino = m.ino; at = b })
              (ap (table_get ref_ino table) (sym e) ∙ (s.node b m at_b).listed)))

      placed-IsNode : IsNode root_id (set_refs cl a n'.nlookup) table' is_open' a n'
      placed-IsNode = record {
        elsewhere = p.not_root;
        listed = p.here;
        source = p.source;
        count = rw ((==_iff a a).1 refl) refl;
        held = p.held;
        known = p.known;
        opened = placed_fd;
      }

      kept-IsNode :
          (b : ℕ) (m : Node)
          → a ≢ b
          → heap b ≡ some m
          → IsNode root_id (set_refs cl a n'.nlookup) table' is_open' b m
      kept-IsNode b m ne at_b =
          let old = s.node b m at_b in
          record {
            elsewhere = old.elsewhere;
            listed = p.elsewhere m.ino (other_ino b m ne at_b) ∙ old.listed;
            source = old.source;
            count = rw (ne_test a b ne) old.count;
            held = old.held;
            known = old.known;
            opened = λ x f.
                let o = old.opened x f in
                (o.0, p.opens x o.1 (λ n at_a g. ne (s.alone a b n m x at_a at_b g f)), o.2);
          }

      place-owned :
          (k : ℕ) (r : Ref)
          → table_get ref_ino table' k ≡ some r
          → (n : Node) × (update_heap heap a (some n') r.at ≡ some n) × (n.ino ≡ k)
      place-owned k r h = elim (Bool-cases (k == n'.ino)) [
        | inl e ↦
            let same : k ≡ n'.ino = (==_iff k n'.ino).0 e in
            let r_here : r ≡ record { ino = n'.ino; at = a } =
              some-injective r _ (sym h ∙ ap (table_get ref_ino table') same ∙ p.here) in
            let at_a : a ≡ r.at = sym (ap (λ (q : Ref). q.at) r_here) in
            (n', rw ((==_iff a r.at).1 at_a) refl, sym same)
        | inr e ↦
            let ne : k ≢ n'.ino = λ same. cc ((==_iff k n'.ino).1 same) in
            let (n, at_r, ino) = s.owned k r (sym (p.elsewhere k ne) ∙ h) in
            let apart : a ≢ r.at = λ same. ne (sym ino ∙ p.own n (ap heap same ∙ at_r)) in
            (n, rw (ne_test a r.at apart) at_r, ino)
      ]

      place-node :
          (b : ℕ) (m : Node)
          → update_heap heap a (some n') b ≡ some m
          → IsNode root_id (set_refs cl a n'.nlookup) table' is_open' b m
      place-node b m h = elim (heap_cases heap a b (some n') m h) [
        | inl (e, v) ↦
            let q : n' ≡ m = some-injective n' m v in
            subst (λ b. IsNode root_id (set_refs cl a n'.nlookup) table' is_open' b m) e
              (subst (λ m. IsNode root_id (set_refs cl a n'.nlookup) table' is_open' a m) q
                placed-IsNode)
        | inr (ne, at_b) ↦ kept-IsNode b m ne at_b
      ]

      place-alone :
          (b d : ℕ) (m l : Node) (x : ℕ)
          → update_heap heap a (some n') b ≡ some m
          → update_heap heap a (some n') d ≡ some l
          → m.fd ≡ fd x
          → l.fd ≡ fd x
          → b ≡ d
      place-alone b d m l x hb hd f g = elim (heap_cases heap a b (some n') m hb) [
        | inl (e, v) ↦ elim (heap_cases heap a d (some n') l hd) [
          | inl (e', v') ↦ sym e ∙ e'
          | inr (ne, at_d) ↦
              absurd
                (no_other_fd d l x ne at_d g (ap (λ (n : Node). n.fd) (some-injective n' m v) ∙ f))
        ]
        | inr (ne, at_b) ↦ elim (heap_cases heap a d (some n') l hd) [
          | inl (e', v') ↦
              absurd
                (no_other_fd b m x ne at_b f (ap (λ (n : Node). n.fd) (some-injective n' l v') ∙ g))
          | inr (ne', at_d) ↦ s.alone b d m l x at_b at_d f g
        ]
      ]

      place-no_refs :
          (b : ℕ) → update_heap heap a (some n') b ≡ none → (set_refs cl a n'.nlookup).refs b ≡ 0
      place-no_refs b h = elim (Bool-cases (a == b)) [
        | inl e ↦ let v : some n' ≡ none = rw e at h in cc
        | inr e ↦ let v : heap b ≡ none = rw e at h in rw e (s.no_refs b v)
      ]

      -- The node and its table are sound beside all others.
      pub place-Sound :
          Sound root_id (set_refs cl a n'.nlookup) (update_heap heap a (some n')) table' is_open'
      place-Sound = record {
        in_place = p.in_place;
        owned = place-owned;
        node = place-node;
        alone = place-alone;
        no_refs = place-no_refs;
        others =
            λ x h. p.opens x (s.others x h) (λ n at_a g. cc (((s.node a n at_a).opened x g).2));
      }
