-- ===== src/InodeTable/Invariant.antt =====
-- Well-formedness of the table: every entry stands in the chain that its key hashes to, and no two
-- entries of a table share a key.
use native.Mathlib.Nat.{mod-lt}
use dpfs.Prelude.{
  ℕ, ◌%◌, ◌<◌, ◌≡◌, ◌∙◌, ◌⊎◌, refl, inl, inr, Option, none, some, List, [], ◌∷◌, arith, ◌==◌,
  ==_iff, Bool-cases, Option-cases, get_or-set, get_or-replicate, length-set, length-replicate,
}
use dpfs.InodeTable.{
  Table, size, bucket, set_bucket, table_init, chain_find, chain_unlink, chain_update, table_update,
  table_get, table_insert, table_getsert, table_remove,
}
use dpfs.InodeTable.Laws.{IsPlaced, IsTable, link-nil, same_bucket}

module _ {ℓ} {A : Type ℓ} (key : A → ℕ) where
  -- A table with at least one chain and no entry is well formed.
  pub init-IsTable : (n : ℕ) → 0 < n → IsTable key (table_init n)
  unfolding table_init
  init-IsTable n p = record {
    positive = rw (length-replicate {A = List A} n []) p;
    placed = λ h. rw (get_or-replicate {A = List A} n h []) tt;
  }

  set_bucket-IsTable :
      (t : Table A) (h : ℕ) (chain : List A)
      → h < size t
      → IsTable key t
      → IsPlaced key (size t) h chain
      → IsTable key (set_bucket t h chain)
  set_bucket-IsTable t h chain lt v p = record {
    positive = rw (length-set t.array h chain) v.positive;
    placed = λ j.
        rw (length-set t.array h chain, get_or-set t.array h j chain [] lt)
          (elim (Bool-cases (h == j)) [
            | inl e ↦ rw (e, ← (==_iff h j).0 e) p
            | inr e ↦ rw e (v.placed j)
          ]);
  }

  unlink-find_none :
      (chain : List A) (k j : ℕ)
      → chain_find key chain j ≡ none
      → chain_find key (chain_unlink key chain k).1 j ≡ none
  unfolding chain_unlink chain_find
  unlink-find_none [] k j e = refl
  unlink-find_none (x ∷ chain) k j e = ground (arith, unlink-find_none chain k j)

  unlink-IsPlaced :
      (n h : ℕ) (chain : List A) (k : ℕ)
      → IsPlaced key n h chain
      → IsPlaced key n h (chain_unlink key chain k).1
  unfolding chain_unlink
  unlink-IsPlaced n h [] k p = tt
  unlink-IsPlaced n h (x ∷ chain) k (e, fresh, rest) = elim (Bool-cases (key x == k)) [
    | inl hit ↦ rw hit rest
    | inr miss ↦
        rw miss (e, unlink-find_none chain k (key x) fresh, unlink-IsPlaced n h chain k rest)
  ]

  -- Inserting a fresh entry, whose key is not in the table yet, keeps the table well formed.
  pub insert-IsTable :
      (t : Table A) (i : A)
      → table_get key t (key i) ≡ none
      → IsTable key t
      → IsTable key (table_insert key t i [])
  unfolding table_insert
  insert-IsTable t i new v = rw link-nil (
      set_bucket-IsTable t (key i % size t) _ (mod-lt (key i) v.positive) v (
        refl,
        same_bucket key t (key i % size t) (key i) (ground arith) ∙ new,
        v.placed (key i % size t),
      ))

  -- Removing a key keeps the table well formed.
  pub remove-IsTable : (t : Table A) (k : ℕ) → IsTable key t → IsTable key (table_remove key t k).1
  unfolding table_remove
  remove-IsTable t k v =
      set_bucket-IsTable t (k % size t) _ (mod-lt k v.positive) v
        (unlink-IsPlaced (size t) (k % size t) (bucket t (k % size t)) k (v.placed (k % size t)))

  getsert_cases :
      (t : Table A) (k : ℕ) (fresh : Option A)
      → (table_getsert key t k fresh ≡ (table_get key t k, t))
        ⊎ ((i : A) × (fresh ≡ some i)
            × (table_get key t k ≡ none)
            × (table_getsert key t k fresh ≡ (some i, table_insert key t i [])))
  unfolding table_getsert
  getsert_cases t k none = inl (ground arith)
  getsert_cases t k (some i) = elim (Option-cases (table_get key t k)) [
    | inl e ↦ inr (i, refl, e, ground arith)
    | inr (j, e) ↦ inl (ground arith)
  ]

  -- Looking up or inserting a key, with an entry of that key or a failed allocation at hand, keeps
  -- the table well formed.
  pub getsert-IsTable :
      (t : Table A) (k : ℕ) (fresh : Option A)
      → ((i : A) → fresh ≡ some i → key i ≡ k)
      → IsTable key t
      → IsTable key (table_getsert key t k fresh).1
  getsert-IsTable t k fresh keyed v = elim (getsert_cases t k fresh) [
    | inl e ↦ rw e v
    | inr (i, f, new, e) ↦ rw e (insert-IsTable t i (rw (keyed i f) new) v)
  ]

  update-find :
      (chain : List A) (k j : ℕ) (f : A → A)
      → ((x : A) → key (f x) ≡ key x)
      → chain_find key chain j ≡ none
      → chain_find key (chain_update key chain k f) j ≡ none
  unfolding chain_update chain_find
  update-find [] k j f same e = refl
  update-find (x ∷ chain) k j f same e = ground (arith, update-find chain k j f same, same x)

  update-IsPlaced :
      (n h : ℕ) (chain : List A) (k : ℕ) (f : A → A)
      → ((x : A) → key (f x) ≡ key x)
      → IsPlaced key n h chain
      → IsPlaced key n h (chain_update key chain k f)
  unfolding chain_update
  update-IsPlaced n h [] k f same p = tt
  update-IsPlaced n h (x ∷ chain) k f same (e, fresh, rest) = elim (Bool-cases (key x == k)) [
    | inl hit ↦ rw (hit, same x) (e, fresh, rest)
    | inr miss ↦
        rw miss
          (e, update-find chain k (key x) f same fresh, update-IsPlaced n h chain k f same rest)
  ]

  -- A write that leaves the key alone keeps the table well formed.
  pub update-IsTable :
      (t : Table A) (k : ℕ) (f : A → A)
      → ((x : A) → key (f x) ≡ key x)
      → IsTable key t
      → IsTable key (table_update key t k f)
  unfolding table_update
  update-IsTable t k f same v = set_bucket-IsTable t (k % size t) _ (mod-lt k v.positive) v (
      update-IsPlaced (size t) (k % size t) (bucket t (k % size t)) k f same
        (v.placed (k % size t)))
