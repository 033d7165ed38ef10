-- ===== src/Mpool.antt =====
-- The memory pool of lib/mpool.c: a fixed set of chunks behind a single-producer single-consumer
-- ring of Concurrency Kit. A chunk is its address. The ring is not part of this repository, so it is
-- a parameter, with what its documentation states as laws.
pub mod Laws
pub mod Filling
pub mod Tests
use Prim.Native.Nat.{bit_and}
use dpfs.Prelude.{
  ℕ, zero, suc, ◌+◌, ◌-◌, ◌^◌, ◌<◌, ◌≤◌, ◌≡◌, Bool, true, false, ◌||◌, Option, none, some, List, [],
  ◌∷◌, ◌++◌, ltb, ◌==◌, if◌then◌else◌, length,
}

-- `contents` is what is enqueued, oldest first. The places of a ring are a power of two, and one of
-- them stays free; an
-- enqueue that finds no place changes nothing, and so does a dequeue that finds no entry.
pub record RingOps : Type 1 where
  pub Ring : Type 0
  pub init : ℕ → Ring
  pub enqueue : Ring → ℕ → Ring
  pub dequeue : Ring → Option ℕ × Ring
  pub contents : Ring → List ℕ
  pub capacity : Ring → ℕ
  pub contents-init : (k : ℕ) → contents (init (2 ^ k)) ≡ []
  pub capacity-init : (k : ℕ) → capacity (init (2 ^ k)) ≡ 2 ^ k - 1
  pub contents-enqueue :
      (r : Ring) (e : ℕ)
      → length (contents r) < capacity r
      → contents (enqueue r e) ≡ contents r ++ e ∷ []
  pub enqueue_full : (r : Ring) (e : ℕ) → capacity r ≤ length (contents r) → enqueue r e ≡ r
  pub capacity-enqueue : (r : Ring) (e : ℕ) → capacity (enqueue r e) ≡ capacity r
  pub dequeue_empty : (r : Ring) → contents r ≡ [] → dequeue r ≡ (none, r)
  pub dequeue_front :
      (r : Ring) (e : ℕ) (es : List ℕ)
      → contents r ≡ e ∷ es
      → ((dequeue r).0 ≡ some e) × (contents (dequeue r).1 ≡ es)
  pub capacity-dequeue : (r : Ring) → capacity (dequeue r).1 ≡ capacity r

module _ (ops : RingOps) where
  open ops use {Ring, init, enqueue, dequeue}

  unfoldable pub mpool_alloc : Ring → Option ℕ × Ring
  mpool_alloc p = dequeue p

  unfoldable pub mpool_free : Ring → ℕ → Ring
  mpool_free p e = enqueue p e

  -- `ready` is 0. `enomem` has the chunks that `free` is given before -ENOMEM is returned.
  pub data Init : Type 0 where
    ready : Ring → Init
    einval : Init
    enomem : List (Option ℕ) → Init

  -- `for (int j = 0; j < i; j++) free(mpool_alloc(*p));`
  unfoldable pub unwind_loop : ℕ → Ring → List (Option ℕ)
  unfolding mpool_alloc
  unwind_loop zero p = []
  unwind_loop (suc rounds) p = let (e, p') = mpool_alloc p in e ∷ unwind_loop rounds p'

  -- The chunks that malloc returns from the i-th on, `none` for NULL.
  unfoldable pub fill_loop : (i : ℕ) → Ring → List (Option ℕ) → Init
  unfolding unwind_loop mpool_free
  fill_loop i p [] = ready p
  fill_loop i p (none ∷ mallocs) = enomem (unwind_loop i p)
  fill_loop i p (some e ∷ mallocs) = fill_loop (i + 1) (mpool_free p e) mallocs

  -- `struct_alloc` and `buffer_alloc` say whether the two allocations for the pool itself succeed;
  -- there is one entry of `mallocs` for each chunk asked for.
  unfoldable pub mpool_init : (struct_alloc buffer_alloc : Bool) → List (Option ℕ) → Init
  unfolding fill_loop
  mpool_init struct_alloc buffer_alloc mallocs =
      let chunks = length mallocs in
      if ltb chunks 4 || (bit_and chunks (chunks - 1) == 1)
      then einval
      else if struct_alloc
      then if buffer_alloc then fill_loop 0 (init chunks) mallocs else enomem []
      else enomem []

  -- The chunks that are freed. The loop ends when the ring is empty: `fuel` bounds its rounds.
  unfoldable pub mpool_destroy : ℕ → Ring → Option (List ℕ)
  mpool_destroy zero p = none
  mpool_destroy (suc fuel) p =
      let (found, p') = dequeue p in
      let rest = mpool_destroy fuel p' in
      elim found [ none ↦ some [] | some e ↦ elim rest [ none ↦ none | some es ↦ some (e ∷ es) ] ]
