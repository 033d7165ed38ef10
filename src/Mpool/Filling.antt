-- ===== src/Mpool/Filling.antt =====
-- What `mpool_init` leaves in the pool.
use Prim.Native.Nat.{bit_and, bit_and-bitwise}
use native.Mathlib.Nat.{pow-suc}
use dpfs.Prelude.{
  ℕ, zero, suc, ◌+◌, ◌-◌, ◌<◌, ◌≤◌, ◌≡◌, ◌≢◌, ◌↔◌, ◌^◌, length-map, refl, ap, sym, ◌∙◌, inl, inr,
  Option, none, some, List, [], ◌∷◌, ◌++◌, map, arith, length, take, Bool, true, false, ltb, ltb→lt,
  if◌then◌else◌, length-append, le→ltb, lt→ltb, Bool-cases, ◌==◌,
}
use mathlib.Core.List.{append_assoc, append-nil}
use dpfs.Mpool.{RingOps, Init, ready, einval, enomem, mpool_free, fill_loop, mpool_init}
use dpfs.Mpool.Laws.{free-contents, free-capacity}

take-append_full : (xs ys : List ℕ) (n : ℕ) → length xs ≡ n → take n (xs ++ ys) ≡ xs
take-append_full [] ys zero h = refl
take-append_full [] ys (suc n) h = absurd (omega arith)
take-append_full (x ∷ xs) ys zero h = absurd (omega arith)
take-append_full (x ∷ xs) ys (suc n) h = ap (◌∷◌ x) (take-append_full xs ys n (omega arith))

take_all : (xs : List ℕ) (n : ℕ) → length xs ≤ n → take n xs ≡ xs
take_all [] zero h = refl
take_all [] (suc n) h = refl
take_all (x ∷ xs) zero h = absurd (omega arith)
take_all (x ∷ xs) (suc n) h = ap (◌∷◌ x) (take_all xs n (omega arith))

two_pos : (n : ℕ) → 1 ≤ 2 ^ n
two_pos zero = omega arith
two_pos (suc n) = rw pow-suc (omega (arith, two_pos n))

four_le : (k : ℕ) → 2 ≤ k → 4 ≤ 2 ^ k
four_le zero h = absurd (omega arith)
four_le (suc zero) h = absurd (omega arith)
four_le (suc (suc n)) h = rw (pow-suc, pow-suc) (omega (arith, two_pos n))

module _ (ops : RingOps) where
  open ops use {Ring, init, contents, capacity}

  abbrev Filled : Ring → List ℕ → Init ops → Type 0
  Filled p es r =
      (p' : Ring) × (r ≡ ready p') × (contents p' ≡ take (capacity p) (contents p ++ es))

  fill-ready :
      (i : ℕ) (p : Ring) (es : List ℕ)
      → length (contents p) ≤ capacity p
      → Filled p es (fill_loop ops i p (map some es))
  unfolding fill_loop mpool_free
  fill-ready i p [] h = (p, refl, sym (rw append-nil (take_all (contents p) (capacity p) h)))
  fill-ready i p (e ∷ es) h = elim (Bool-cases (ltb (length (contents p)) (capacity p))) [
    | inl room ↦
        let grown = free-contents ops p e (ltb→lt _ _ room) in
        let (p', r, c) = fill-ready (i + 1) (mpool_free ops p e) es (
          rw (grown, free-capacity ops p e, length-append)
            (omega (arith, ltb→lt (length (contents p)) (capacity p) room))) in
        (p', r, c ∙ rw (grown, free-capacity ops p e, append_assoc))
    | inr full ↦
        let le : capacity p ≤ length (contents p) = ground arith in
        let same : mpool_free ops p e ≡ p = ops.enqueue_full p e le in
        let (p', r, c) = fill-ready (i + 1) (mpool_free ops p e) es (rw same h) in
        (
          p',
          r,
          c
              ∙ rw (
                same,
                take-append_full (contents p) es (capacity p) (omega arith),
                take-append_full (contents p) (e ∷ es) (capacity p) (omega arith),
              ),
        )
  ]

  bit_and-pred : (n : ℕ) → (bit_and n (n - 1) == 1) ≡ false
  bit_and-pred zero = refl
  bit_and-pred (suc n) = rw sub_one (ground (arith, bit_and-bitwise (suc n) n))
    where
      sub_one : suc n - 1 ≡ n
      sub_one = omega arith

  -- When every allocation succeeds, a pool of 2^k chunks, k at least 2, is filled with all of
  -- them but the last one asked for: the ring keeps one place free, and what is dropped is lost.
  pub init-contents :
      (k : ℕ) (es : List ℕ)
      → 2 ≤ k
      → length es ≡ 2 ^ k
      → (p : Ring) × (mpool_init ops true true (map some es) ≡ ready p)
        × (contents p ≡ take (2 ^ k - 1) es)
  unfolding mpool_init
  init-contents k es h n =
      let four : 4 ≤ 2 ^ k = four_le k h in
      let all : length (map some es) ≡ 2 ^ k = length-map es some ∙ n in
      let room : length (contents (init (2 ^ k))) ≤ capacity (init (2 ^ k)) =
        rw (ops.contents-init k) (omega arith) in
      let (p, r, c) = fill-ready 0 (init (2 ^ k)) es room in
      (
        p,
        rw (all, le→ltb (2 ^ k) 4 four, bit_and-pred (2 ^ k)) r,
        c ∙ rw (ops.contents-init k, ops.capacity-init k),
      )

  fill-ne-einval :
      (i : ℕ) (p : Ring) (mallocs : List (Option ℕ)) → fill_loop ops i p mallocs ≢ einval
  unfolding fill_loop
  fill-ne-einval i p [] = λ e. cc
  fill-ne-einval i p (none ∷ mallocs) = λ e. cc
  fill-ne-einval i p (some e ∷ mallocs) = fill-ne-einval (i + 1) (mpool_free ops p e) mallocs

  -- -EINVAL is returned for fewer than four chunks and for nothing else: the test for a power of
  -- two refuses no number.
  init-einval :
      (struct_alloc buffer_alloc : Bool) (mallocs : List (Option ℕ))
      → (mpool_init ops struct_alloc buffer_alloc mallocs ≡ einval) ↔ (length mallocs < 4)
  unfolding mpool_init
  init-einval struct_alloc buffer_alloc mallocs = (
    λ e. elim (Bool-cases (ltb (length mallocs) 4)) [
      | inl few ↦ ltb→lt (length mallocs) 4 few
      | inr enough ↦
          absurd
            (accepted struct_alloc buffer_alloc (rw (enough, bit_and-pred (length mallocs)) at e))
    ],
    λ few. rw (lt→ltb (length mallocs) 4 few),
  )
    where
      accepted :
          (struct_alloc buffer_alloc : Bool)
          → (if struct_alloc
              then if buffer_alloc
                then fill_loop ops 0 (init (length mallocs)) mallocs
                else enomem []
              else enomem [])
            ≢ einval
      accepted true true = fill-ne-einval 0 (init (length mallocs)) mallocs
      accepted true false = λ e. cc
      accepted false buffer_alloc = λ e. cc
