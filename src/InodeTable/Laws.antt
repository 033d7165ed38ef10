-- ===== src/InodeTable/Laws.antt =====
-- The table as a finite map: what a lookup gives after each operation.
use native.Mathlib.Nat.{mod-lt}
use dpfs.Prelude.{
  ℕ, ◌%◌, ◌<◌, ◌≡◌, ◌≢◌, ◌∙◌, refl, inl, inr, true, none, some, List, [], ◌∷◌, arith, ◌==◌, ==_iff,
  if◌then◌else◌, Bool-cases, length, get_or-set, get_or-replicate, length-set, replicate,
}
use dpfs.InodeTable.{
  Table, size, bucket, set_bucket, table_init, link, chain_find, chain_unlink, table_get,
  table_insert, table_getsert, table_remove,
}

module _ {ℓ} {A : Type ℓ} (key : A → ℕ) where
  -- A chain whose entries all hash to `h` and have different keys.
  abbrev pub IsPlaced : ℕ → ℕ → List A → Type ℓ
  IsPlaced n h [] = Unit {ℓ}
  IsPlaced n h (x ∷ chain) =
      (key x % n ≡ h) × (chain_find key chain (key x) ≡ none) × IsPlaced n h chain

  pub record IsTable (t : Table A) : Type ℓ where
    pub positive : 0 < size t
    pub placed : (h : ℕ) → IsPlaced (size t) h (bucket t h)

  -- The length of the array is fixed, and with it where a key hashes to.
  find-set_bucket :
      (t : Table A) (h k : ℕ) (chain : List A)
      → h < size t
      → table_get key (set_bucket t h chain) k
        ≡ (if h == (k % size t) then chain_find key chain k else table_get key t k)
  unfolding table_get
  find-set_bucket t h k chain lt =
      rw (length-set t.array h chain, get_or-set t.array h (k % size t) chain [] lt)
        (elim (Bool-cases (h == (k % size t))) [ inl e ↦ rw e refl | inr e ↦ rw e refl ])

  pub table_get-init : (n k : ℕ) → table_get key (table_init n) k ≡ none
  unfolding table_get table_init
  table_get-init n k =
      rw (get_or-replicate {A = List A} n (k % length (replicate {A = List A} n [])) [])

  pub link-nil : (chain : List A) → link chain [] ≡ chain
  unfolding link
  link-nil [] = refl
  link-nil (x ∷ chain) = refl

  find_self : (x : A) (chain : List A) → chain_find key (x ∷ chain) (key x) ≡ some x
  unfolding chain_find
  find_self x chain = ground arith

  pub same_bucket :
      (t : Table A) (h k : ℕ)
      → (h == (k % size t)) ≡ true
      → chain_find key (bucket t h) k ≡ table_get key t k
  unfolding table_get
  same_bucket t h k e = rw ((==_iff h (k % size t)).0 e)

  -- A chain that answers as the old one did at a key leaves the table's answer at that key.
  pub find-set_bucket_same :
      (t : Table A) (h k : ℕ) (chain : List A)
      → h < size t
      → chain_find key chain k ≡ chain_find key (bucket t h) k
      → table_get key (set_bucket t h chain) k ≡ table_get key t k
  find-set_bucket_same t h k chain lt same =
      rw (find-set_bucket t h k chain lt) (elim (Bool-cases (h == (k % size t))) [
        | inl e ↦ rw e (same ∙ same_bucket t h k e)
        | inr e ↦ rw e
      ])

  pub find-set_bucket_hit :
      (t : Table A) (k : ℕ) (chain : List A)
      → 0 < size t
      → table_get key (set_bucket t (k % size t) chain) k ≡ chain_find key chain k
  find-set_bucket_hit t k chain p = rw (
    find-set_bucket t (k % size t) k chain (mod-lt k p),
    (==_iff (k % size t) (k % size t)).1 refl,
  )

  -- The chain that gains an entry in front, seen through the lookup.
  find-push :
      (i : A) (chain : List A) (k : ℕ)
      → chain_find key (i ∷ chain) k ≡ (if key i == k then some i else chain_find key chain k)
  unfolding chain_find
  find-push i chain k = refl

  -- A table of at least one chain, into which an entry with no successor of its own is inserted,
  -- maps its key to it, and every other key as before.
  pub table_get-insert :
      (t : Table A) (i : A) (k : ℕ)
      → 0 < size t
      → table_get key (table_insert key t i []) k
        ≡ (if key i == k then some i else table_get key t k)
  unfolding table_insert
  table_get-insert t i k p = elim (Bool-cases (key i == k)) [
    | inl e ↦
        rw (e, link-nil, (==_iff (key i) k).0 e, find-set_bucket_hit t k _ p)
          (find-push i (bucket t (k % size t)) k ∙ rw e)
    | inr e ↦
        rw (e, link-nil)
          (find-set_bucket_same t (key i % size t) k _ (mod-lt (key i) p)
            (find-push i (bucket t (key i % size t)) k ∙ rw e))
  ]

  chain_unlink-found :
      (chain : List A) (k : ℕ) → (chain_unlink key chain k).0 ≡ chain_find key chain k
  unfolding chain_unlink chain_find
  chain_unlink-found [] k = refl
  chain_unlink-found (x ∷ chain) k = ground (arith, chain_unlink-found chain k)

  chain_unlink-find_ne :
      (chain : List A) (k j : ℕ)
      → k ≢ j
      → chain_find key (chain_unlink key chain k).1 j ≡ chain_find key chain j
  unfolding chain_unlink chain_find
  chain_unlink-find_ne [] k j ne = refl
  chain_unlink-find_ne (x ∷ chain) k j ne = ground (arith, chain_unlink-find_ne chain k j ne)

  chain_unlink-find_self :
      (n h : ℕ) (chain : List A) (k : ℕ)
      → IsPlaced n h chain
      → chain_find key (chain_unlink key chain k).1 k ≡ none
  unfolding chain_unlink chain_find
  chain_unlink-find_self n h [] k p = refl
  chain_unlink-find_self n h (x ∷ chain) k p =
      ground (arith, chain_unlink-find_self n h chain k p.2)

  -- In a well-formed table, removal hands over what a lookup of the key would give, and the key
  -- is gone after it and every other key maps as before.
  pub table_get-remove :
      (t : Table A) (k j : ℕ)
      → IsTable t
      → ((table_remove key t k).0 ≡ table_get key t k)
        × (table_get key (table_remove key t k).1 j ≡ (if k == j then none else table_get key t j))
  unfolding table_remove
  table_get-remove t k j v = (
    chain_unlink-found (bucket t (k % size t)) k ∙ same_bucket t (k % size t) k (ground arith),
    elim (Bool-cases (k == j)) [
      | inl e ↦
          rw (e, (==_iff k j).0 e, find-set_bucket_hit t j _ v.positive)
            (chain_unlink-find_self (size t) (j % size t) (bucket t (j % size t)) j
              (v.placed (j % size t)))
      | inr e ↦ rw e (
          find-set_bucket_same t (k % size t) j _ (mod-lt k v.positive)
            (chain_unlink-find_ne (bucket t (k % size t)) k j (ground arith)))
    ],
  )

  -- In a table with at least one chain, and when the allocation succeeds, `getsert` gives an
  -- entry, the one that a lookup of the key gives afterwards; a key that was there leaves every
  -- lookup as it was, and one that was not maps to the new entry, every other key as before.
  pub table_get-getsert :
      (t : Table A) (i : A) (k : ℕ)
      → 0 < size t
      → let (got, t') = table_getsert key t (key i) (some i) in
        (got ≡ table_get key t' (key i))
        × (got ≢ none)
        × (table_get key t' k ≡ elim (table_get key t (key i)) [
          | none ↦ if key i == k then some i else table_get key t k
          | some _ ↦ table_get key t k
        ])
  unfolding table_getsert
  table_get-getsert t i k p =
      ground (arith, table_get-insert t i k p, table_get-insert t i (key i) p)
