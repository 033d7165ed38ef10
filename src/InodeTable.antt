-- ===== src/InodeTable.antt =====
-- The chained hash table that every file system implementation keeps its inodes in
-- (dpfs_nfs/inode.c, dpfs_aio/fuser.c, dpfs_uring/fuser.c), over any type of entry with a numeric
-- key. A chain is the list of the entries that its `next` pointers link, in order.
pub mod Laws
pub mod Invariant
pub mod Update
pub mod Refinement
pub mod Tests
use dpfs.Prelude.{
  ℕ, ◌%◌, Bool, true, false, Option, none, some, List, [], ◌∷◌, ◌==◌, if◌then◌else◌, length, get_or,
  set, replicate,
}

-- `size` is the length of the array of chains.
pub record Table {ℓ} (A : Type ℓ) : Type ℓ where
  pub array : List (List A)

abbrev pub size {ℓ} : {A : Type ℓ} → Table A → ℕ
size t = length t.array

abbrev pub bucket {ℓ} : {A : Type ℓ} → Table A → ℕ → List A
bucket t h = get_or t.array h []

abbrev pub set_bucket {ℓ} : {A : Type ℓ} → Table A → ℕ → List A → Table A
set_bucket t h chain = record { array = set t.array h chain }

unfoldable pub table_init {ℓ} : {A : Type ℓ} → ℕ → Table A
table_init n = record { array = replicate n [] }

-- `if (t->array[hash] != NULL) i->next = t->array[hash];`: the chain that follows the new entry,
-- where `next` is the chain that its own `next` pointer leads to.
unfoldable pub link {ℓ} : {A : Type ℓ} → List A → List A → List A
link [] next = next
link (x ∷ chain) next = x ∷ chain

module _ {ℓ} {A : Type ℓ} (key : A → ℕ) where
  unfoldable pub hash : Table A → ℕ → ℕ
  hash t k = k % size t

  -- The loop over a chain: the first entry with the key.
  unfoldable pub chain_find : List A → ℕ → Option A
  chain_find [] k = none
  chain_find (x ∷ chain) k = if key x == k then some x else chain_find chain k

  -- The loop with `prev`: the first entry with the key, and the chain with that entry unlinked.
  unfoldable pub chain_unlink : List A → ℕ → Option A × List A
  chain_unlink [] k = (none, [])
  chain_unlink (x ∷ chain) k =
      let (found, rest) = chain_unlink chain k in
      if key x == k then (some x, chain) else (found, x ∷ rest)

  unfoldable pub table_get : Table A → ℕ → Option A
  unfolding hash chain_find
  table_get t k = chain_find (bucket t (hash t k)) k

  unfoldable pub table_insert : Table A → A → List A → Table A
  unfolding hash link
  table_insert t i next = let h = hash t (key i) in set_bucket t h (i ∷ link (bucket t h) next)

  -- `fresh` is the entry that the allocation returns, `none` when it fails.
  unfoldable pub table_getsert : Table A → ℕ → Option A → Option A × Table A
  unfolding table_get table_insert
  table_getsert t k fresh = elim (table_get t k) [
    | some i ↦ (some i, t)
    | none ↦ elim fresh [ none ↦ (none, t) | some i ↦ (some i, table_insert t i []) ]
  ]

  unfoldable pub table_remove : Table A → ℕ → Option A × Table A
  unfolding hash chain_unlink
  table_remove t k =
      let h = hash t k in
      let (found, chain) = chain_unlink (bucket t h) k in (found, set_bucket t h chain)

  -- A write through a pointer to the entry that a lookup of the key gives.
  unfoldable pub chain_update : List A → ℕ → (A → A) → List A
  chain_update [] k f = []
  chain_update (x ∷ chain) k f = if key x == k then f x ∷ chain else x ∷ chain_update chain k f

  unfoldable pub table_update : Table A → ℕ → (A → A) → Table A
  unfolding hash chain_update
  table_update t k f = let h = hash t k in set_bucket t h (chain_update (bucket t h) k f)
