-- ===== src/Mirror/Sound/Gone.antt =====
-- An inode that is taken away.
use mathlib.Core.Option.{some-injective}
use dpfs.Prelude.{
  ℕ, ◌≡◌, ◌≢◌, ◌∙◌, inl, inr, refl, sym, ap, Bool, true, Option, none, some, ◌==◌, ==_iff,
  if◌then◌else◌, Bool-cases,
}
use dpfs.InodeTable.{Table, table_get, table_remove}
use dpfs.InodeTable.Laws.{table_get-remove}
use dpfs.InodeTable.Invariant.{remove-IsTable}
use dpfs.Mirror.{fd, Node, Ref, ref_ino, update_heap}
use dpfs.Mirror.Sound.{Client, set_refs, ne_test, heap_cases, IsNode, Sound}

module _ (root_id : ℕ) where
  module _ (cl : Client) (heap : ℕ → Option Node) (table : Table Ref) (is_open : ℕ → Bool)
      (s : Sound root_id cl heap table is_open) where
    -- The end of an inode: it is gone, and its descriptor, if it has one, may be closed.
    module _ (is_open' : ℕ → Bool) (a : ℕ) (n : Node) (at_a : heap a ≡ some n)
        (opens : (x : ℕ) → n.fd ≢ fd x → is_open x ≡ true → is_open' x ≡ true) where
      gone_get :
          (k : ℕ)
          → table_get ref_ino (table_remove ref_ino table n.ino).1 k
            ≡ (if n.ino == k then none else table_get ref_ino table k)
      gone_get k = (table_get-remove ref_ino table n.ino k s.in_place).1

      gone-IsNode :
          (b : ℕ) (m : Node)
          → a ≢ b
          → heap b ≡ some m
          → IsNode root_id (set_refs cl a 0) (table_remove ref_ino table n.ino).1 is_open' b m
      gone-IsNode b m ne at_b =
          let old = s.node b m at_b in
          let apart : n.ino ≢ m.ino = λ same. ne (
            ap (λ (r : Ref). r.at)
              (some-injective _ _
                (sym (s.node a n at_a).listed ∙ ap (table_get ref_ino table) same ∙ old.listed))) in
          record {
            elsewhere = old.elsewhere;
            listed = gone_get m.ino ∙ rw (ne_test n.ino m.ino apart) old.listed;
            source = old.source;
            count = rw (ne_test a b ne) old.count;
            held = old.held;
            known = old.known;
            opened = λ x f.
                let o = old.opened x f in
                (o.0, opens x (λ g. ne (s.alone a b n m x at_a at_b g f)) o.1, o.2);
          }

      gone-heap :
          (b : ℕ) (m : Node) → update_heap heap a none b ≡ some m → (a ≢ b) × (heap b ≡ some m)
      gone-heap b m h = elim (heap_cases heap a b none m h) [ inl (e, v) ↦ cc | inr rest ↦ rest ]

      gone-owned :
          (k : ℕ) (r : Ref)
          → table_get ref_ino (table_remove ref_ino table n.ino).1 k ≡ some r
          → (m : Node) × (update_heap heap a none r.at ≡ some m) × (m.ino ≡ k)
      gone-owned k r h = elim (Bool-cases (n.ino == k)) [
        | inl e ↦
            let never : ◌≡◌ {A = Option Ref} none (some r) = rw e at (sym (gone_get k) ∙ h) in cc
        | inr e ↦
            let (m, at_r, ino) = s.owned k r (rw e at (sym (gone_get k) ∙ h)) in
            let apart : a ≢ r.at = λ same.
              let q : n ≡ m = some-injective n m (sym at_a ∙ ap heap same ∙ at_r) in
              cc ((==_iff n.ino k).1 (ap (λ (x : Node). x.ino) q ∙ ino)) in
            (m, rw (ne_test a r.at apart) at_r, ino)
      ]

      gone-no_refs : (b : ℕ) → update_heap heap a none b ≡ none → (set_refs cl a 0).refs b ≡ 0
      gone-no_refs b h = elim (Bool-cases (a == b)) [
        | inl e ↦ rw e refl
        | inr e ↦ let v : heap b ≡ none = rw e at h in rw e (s.no_refs b v)
      ]

      -- The other inodes are sound without it.
      pub gone-Sound :
          Sound root_id
            (set_refs cl a 0)
            (update_heap heap a none)
            (table_remove ref_ino table n.ino).1
            is_open'
      gone-Sound = record {
        in_place = remove-IsTable ref_ino table n.ino s.in_place;
        owned = gone-owned;
        node = λ b m h. let o = gone-heap b m h in gone-IsNode b m o.0 o.1;
        alone =
            λ b d m l x hb hd f g. s.alone b d m l x (gone-heap b m hb).1 (gone-heap d l hd).1 f g;
        no_refs = gone-no_refs;
        others = λ x h. opens x (λ g. cc (((s.node a n at_a).opened x g).2)) (s.others x h);
      }
