-- ===== src/InodeTable/Update.antt =====
-- Writes through a pointer that a lookup of the table gives.
use native.Mathlib.Nat.{mod-lt}
use mathlib.Core.Option
use mathlib.Core.Option.{some-injective}
use dpfs.Prelude.{
  ℕ, ◌%◌, ◌<◌, ◌≡◌, ◌≢◌, ◌∙◌, refl, sym, ap, inl, inr, some, List, [], ◌∷◌, arith, ◌==◌, ==_iff,
  if◌then◌else◌, Bool-cases,
}
use dpfs.InodeTable.{Table, size, bucket, chain_find, table_get, chain_update, table_update}
use dpfs.InodeTable.Laws.{find-set_bucket_same, find-set_bucket_hit, same_bucket}

module _ {ℓ} {A : Type ℓ} (key : A → ℕ) where
  -- A lookup gives an entry of the key that it is asked for.
  find-key : (chain : List A) (k : ℕ) (x : A) → chain_find key chain k ≡ some x → key x ≡ k
  unfolding chain_find
  find-key [] k x e = cc
  find-key (y ∷ chain) k x e = elim (Bool-cases (key y == k)) [
    | inl hit ↦ ap key (sym (some-injective y x (rw hit at e))) ∙ (==_iff (key y) k).0 hit
    | inr miss ↦ find-key chain k x (rw miss at e)
  ]

  pub table_get-key : (t : Table A) (k : ℕ) (x : A) → table_get key t k ≡ some x → key x ≡ k
  unfolding table_get
  table_get-key t k x e = find-key (bucket t (k % size t)) k x e

  find-update :
      (chain : List A) (k : ℕ) (f : A → A)
      → ((x : A) → key (f x) ≡ key x)
      → chain_find key (chain_update key chain k f) k ≡ Option.map f (chain_find key chain k)
  unfolding chain_find chain_update
  find-update [] k f same = refl
  find-update (x ∷ chain) k f same = ground (arith, find-update chain k f same, same x)

  find-update_ne :
      (chain : List A) (k j : ℕ) (f : A → A)
      → ((x : A) → key (f x) ≡ key x)
      → k ≢ j
      → chain_find key (chain_update key chain k f) j ≡ chain_find key chain j
  unfolding chain_find chain_update
  find-update_ne [] k j f same ne = refl
  find-update_ne (x ∷ chain) k j f same ne =
      ground (arith, find-update_ne chain k j f same ne, same x)

  -- In a table of at least one chain, a write through the pointer that a lookup of `k` gives,
  -- which leaves the keys alone, is seen by a lookup of `k` and by no other.
  pub table_get-update :
      (t : Table A) (k j : ℕ) (f : A → A)
      → 0 < size t
      → ((x : A) → key (f x) ≡ key x)
      → table_get key (table_update key t k f) j
        ≡ (if k == j then Option.map f (table_get key t k) else table_get key t j)
  unfolding table_update
  table_get-update t k j f p same = elim (Bool-cases (k == j)) [
    | inl e ↦
        rw (e, ← (==_iff k j).0 e)
          (find-set_bucket_hit key t k _ p
            ∙ find-update (bucket t (k % size t)) k f same
            ∙ ap (Option.map f) (same_bucket key t (k % size t) k (ground arith)))
    | inr e ↦ rw e (
        find-set_bucket_same key t (k % size t) j _ (mod-lt k p)
          (find-update_ne (bucket t (k % size t)) k j f same (ground arith)))
  ]
