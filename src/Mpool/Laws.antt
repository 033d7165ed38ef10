-- ===== src/Mpool/Laws.antt =====
-- The pool as a queue of free chunks.
use dpfs.Prelude.{
  ℕ, zero, suc, ◌<◌, ◌≡◌, refl, ap, ◌⊎◌, inl, inr, Option, none, some, List, [], ◌∷◌, ◌++◌, arith,
  length,
}
use dpfs.Mpool.{RingOps, mpool_alloc, mpool_free, mpool_destroy}

pub list_cases : {A : Type 0} (xs : List A) → (xs ≡ []) ⊎ ((x : A) × (r : List A) × (xs ≡ x ∷ r))
list_cases [] = inl refl
list_cases (x ∷ xs) = inr (x, xs, refl)

module _ (ops : RingOps) where
  open ops use {Ring, contents, capacity}

  -- An allocation fails on the empty pool only, which it leaves alone, and otherwise takes the chunk
  -- that has been free the longest.
  pub alloc_cases :
      (p : Ring)
      → ((contents p ≡ []) × (mpool_alloc ops p ≡ (none, p)))
        ⊎ ((e : ℕ) × (es : List ℕ) × (p' : Ring) × (contents p ≡ e ∷ es)
            × (mpool_alloc ops p ≡ (some e, p'))
            × (contents p' ≡ es)
            × (capacity p' ≡ capacity p))
  unfolding mpool_alloc
  alloc_cases p = elim (list_cases (contents p)) [
    | inl h ↦ inl (h, ops.dequeue_empty p h)
    | inr (e, es, h) ↦
        let f = ops.dequeue_front p e es h in
        inr (
          e,
          es,
          (ops.dequeue p).1,
          h,
          ap (λ (o : Option ℕ). (o, (ops.dequeue p).1)) f.0,
          f.1,
          ops.capacity-dequeue p,
        )
  ]

  -- An allocation from a pool that is not empty.
  pub alloc-front :
      (p : Ring) (c : ℕ) (cs : List ℕ)
      → contents p ≡ c ∷ cs
      → mpool_alloc ops p ≡ (some c, (mpool_alloc ops p).1)
  unfolding mpool_alloc
  alloc-front p c cs h =
      ap (λ (o : Option ℕ). (o, (ops.dequeue p).1)) (ops.dequeue_front p c cs h).0

  pub free-contents :
      (p : Ring) (e : ℕ)
      → length (contents p) < capacity p
      → contents (mpool_free ops p e) ≡ contents p ++ e ∷ []
  unfolding mpool_free
  free-contents p e h = ops.contents-enqueue p e h

  pub free-capacity : (p : Ring) (e : ℕ) → capacity (mpool_free ops p e) ≡ capacity p
  unfolding mpool_free
  free-capacity p e = ops.capacity-enqueue p e

  -- With fuel for one round more than there are free chunks, the loop ends, and it frees each of
  -- them once, oldest first.
  destroy-contents :
      (fuel : ℕ) (p : Ring)
      → length (contents p) < fuel
      → mpool_destroy ops fuel p ≡ some (contents p)
  unfolding mpool_destroy mpool_alloc
  destroy-contents zero p h = absurd (omega arith)
  destroy-contents (suc fuel) p h = elim (alloc_cases p) [
    | inl (e, d) ↦ ground arith
    | inr (x, xs, p', e, d, e', c) ↦
        ground (arith, destroy-contents fuel p' (omega (arith, ap length e, ap length e')))
  ]
