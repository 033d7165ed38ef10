-- ===== src/Mirror/Lookup/Changed.antt =====
-- A change of one inode keeps the rest as it is.
use mathlib.Core.Option.{some-injective}
use mathlib.Core.Path.{fun_ext}
use dpfs.Prelude.{
  ℕ, ◌<◌, ◌≡◌, ◌≢◌, ◌∙◌, inl, inr, refl, sym, ap, arith, Bool, true, false, Option, none, some, [],
  ◌==◌, ==_iff, Bool-cases,
}
use dpfs.InodeTable.{table_get, table_insert}
use dpfs.InodeTable.Laws.{table_get-insert}
use dpfs.InodeTable.Invariant.{insert-IsTable}
use dpfs.Mirror.{unset, fd, Node, Ref, ref_ino, Fuser, Conf, update_heap, update_open, new_ref}
use dpfs.Mirror.Sound.{Client, ne_test, Sound}
use dpfs.Mirror.Sound.Place.{Placed, Fresh}
use dpfs.Mirror.Lookup.Held.{IsSound}

pub upd-upd :
    (heap : ℕ → Option Node) (a : ℕ) (v w : Option Node)
    → update_heap (update_heap heap a v) a w ≡ update_heap heap a w
upd-upd heap a v w = fun_ext λ b. ground arith

pub fd-injective : (x y : ℕ) → fd x ≡ fd y → x ≡ y
fd-injective x y e = cc

module _ (c : Conf) (cl : Client) (s : Fuser) (h : IsSound c cl s) where
  -- More open descriptors do no harm.
  pub weaken-Sound :
      (is_open' : ℕ → Bool)
      → ((x : ℕ) → s.is_open x ≡ true → is_open' x ≡ true)
      → Sound c.root_id cl s.heap s.table is_open'
  weaken-Sound is_open' opens = record {
    in_place = h.in_place;
    owned = h.owned;
    node = λ a n at_a.
        let old = h.node a n at_a in
        record {
          elsewhere = old.elsewhere;
          listed = old.listed;
          source = old.source;
          count = old.count;
          held = old.held;
          known = old.known;
          opened = λ x f. let o = old.opened x f in (o.0, opens x o.1, o.2);
        };
    alone = h.alone;
    no_refs = h.no_refs;
    others = λ x g. opens x (h.others x g);
  }

  -- A descriptor that is opened and closed again.
  pub reopened :
      (x : ℕ)
      → s.is_open x ≡ false
      → (y : ℕ) → s.is_open y ≡ true
      → update_open (update_open s.is_open x true) x false y ≡ true
  reopened x closed y o = elim (Bool-cases (x == y)) [
    | inl e ↦
        let q : x ≡ y = (==_iff x y).0 e in let p : s.is_open y ≡ false = rw (← q) closed in cc
    | inr e ↦ rw e o
  ]

  pub wider : (x y : ℕ) → s.is_open y ≡ true → update_open s.is_open x true y ≡ true
  wider x y o = elim (Bool-cases (x == y)) [ inl e ↦ rw e refl | inr e ↦ rw e o ]

  -- A node in place of the one at its address.
  pub Placed-same :
      (is_open' : ℕ → Bool) (a : ℕ) (n n' : Node)
      → s.heap a ≡ some n
      → n'.ino ≡ n.ino
      → n'.src_ino ≡ n.ino
      → 0 < n'.nlookup
      → n'.fd ≢ unset
      → ((x : ℕ)
          → s.is_open x ≡ true
          → ((m : Node) → s.heap a ≡ some m → m.fd ≢ fd x)
          → is_open' x ≡ true)
      → Fresh c.root_id cl s.heap s.table s.is_open h is_open' a n'
      → Placed c.root_id cl s.heap s.table s.is_open h s.table is_open' a n'
  Placed-same is_open' a n n' at_a same source held known opens fresh =
      let old = h.node a n at_a in
      let here : table_get ref_ino s.table n'.ino ≡ some (new_ref n'.ino a) = rw same old.listed in
      record {
        in_place = h.in_place;
        here = here;
        elsewhere = λ k ne. refl;
        mine = λ r g. ap (λ (q : Ref). q.at) (some-injective r _ (sym g ∙ here));
        own = λ m g. ap (λ (q : Node). q.ino) (some-injective m n (sym g ∙ at_a)) ∙ sym same;
        not_root = old.elsewhere;
        source = source ∙ sym same;
        held = held;
        known = known;
        opens = opens;
        fresh = fresh;
      }

  -- A node at a new address, under a number that the table does not have.
  pub Placed-new :
      (is_open' : ℕ → Bool) (a : ℕ) (n' : Node)
      → s.heap a ≡ none
      → (a ≢ c.root_id) × (0 < a)
      → table_get ref_ino s.table n'.ino ≡ none
      → n'.src_ino ≡ n'.ino
      → 0 < n'.nlookup
      → n'.fd ≢ unset
      → ((x : ℕ)
          → s.is_open x ≡ true
          → ((m : Node) → s.heap a ≡ some m → m.fd ≢ fd x)
          → is_open' x ≡ true)
      → Fresh c.root_id cl s.heap s.table s.is_open h is_open' a n'
      → Placed c.root_id cl s.heap s.table s.is_open h
          (table_insert ref_ino s.table (new_ref n'.ino a) [])
          is_open'
          a
          n'
  Placed-new is_open' a n' absent not_root unknown source held known opens fresh = record {
    in_place = insert-IsTable ref_ino s.table (new_ref n'.ino a) unknown h.in_place;
    here =
        table_get-insert ref_ino s.table (new_ref n'.ino a) n'.ino h.in_place.positive
        ∙ rw ((==_iff n'.ino n'.ino).1 refl) refl;
    elsewhere = λ k ne.
        table_get-insert ref_ino s.table (new_ref n'.ino a) k h.in_place.positive
        ∙ rw (ne_test n'.ino k (λ e. ne (sym e))) refl;
    mine = λ r g. cc;
    own = λ m g. cc;
    not_root = not_root;
    source = source;
    held = held;
    known = known;
    opens = opens;
    fresh = fresh;
  }
