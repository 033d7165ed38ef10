-- ===== src/Nfs/Writes.antt =====
-- The WRITE operations that `vwrite` of dpfs_nfs/dpfs_nfs.c puts into its compound.
use dpfs.Prelude.{
  ℕ, zero, suc, ◌+◌, ◌%◌, ◌^◌, ◌<◌, ◌≤◌, ◌≡◌, refl, ap, ◌∙◌, inl, inr, ◌&&◌, Option, none, some,
  List, [], ◌∷◌, ◌++◌, arith, ltb, lt→ltb, Bool-cases, length, get_elem?, take, replicate,
}
use dpfs.Nfs.State.{ArgOp, write_op, uninit}
use dpfs.Nfs.Requests.{write_ops, pad_ops}
use dpfs.Nfs.Connect.Args.{nfs4_max_ops}
use dpfs.Nfs.Iovec.Copy.{room}

abbrev pub is_uninit : ArgOp → ℕ
is_uninit uninit = 1
is_uninit _ = 0

-- How many elements of the array nothing was written to.
abbrev pub uninits : List ArgOp → ℕ
uninits [] = 0
uninits (op ∷ ops) = is_uninit op + uninits ops

uninits-append : (xs ys : List ArgOp) → uninits (xs ++ ys) ≡ uninits xs + uninits ys
uninits-append [] ys = omega arith
uninits-append (x ∷ xs) ys = omega (arith, uninits-append xs ys)

uninits-replicate : (n : ℕ) → uninits (replicate n uninit) ≡ n
uninits-replicate zero = refl
uninits-replicate (suc n) = omega (arith, uninits-replicate n)

-- The operation for one vector, that starts `before` bytes into the write.
abbrev pub op_for : (stateid in_offset before : ℕ) → Option ℕ → Option ArgOp
op_for stateid in_offset before none = none
op_for stateid in_offset before (some v) = some (write_op stateid ((in_offset + before) % 2 ^ 64) v)

module _ (stateid in_offset max : ℕ) where
  -- A vector that fits gives an operation.
  write_ops_fit :
      (j offset v : ℕ) (iov : List ℕ)
      → offset + v < max
      → 2 + j < 50
      → write_ops stateid in_offset max j offset (v ∷ iov)
        ≡ write_op stateid ((in_offset + offset) % 2 ^ 64) v
          ∷ write_ops stateid in_offset max (j + 1) (offset + v) iov
  unfolding write_ops
  write_ops_fit j offset v iov lt few = rw (lt→ltb (offset + v) max lt, lt→ltb (2 + j) 50 few)

  ops_at :
      (k j offset : ℕ) (iov : List ℕ)
      → offset + room iov < max
      → 2 + j + length iov ≤ 50
      → get_elem? (write_ops stateid in_offset max j offset iov) k
        ≡ op_for stateid in_offset (offset + room (take k iov)) (get_elem? iov k)
  unfolding write_ops
  ops_at k j offset [] lt few = refl
  ops_at zero j offset (v ∷ iov) lt few =
      let e : offset + 0 ≡ offset = omega arith in
      rw (write_ops_fit j offset v iov (omega arith) (omega arith), e)
  ops_at (suc k) j offset (v ∷ iov) lt few =
      let e : offset + (v + room (take k iov)) ≡ offset + v + room (take k iov) = omega arith in
      rw (write_ops_fit j offset v iov (omega arith) (omega arith), e)
        (ops_at k (j + 1) (offset + v) iov (omega arith) (omega arith))

  -- When the vectors together are shorter than the largest write and there are at most 48, the k-th
  -- operation is the write of the k-th vector, at the sum of the lengths before it.
  write_ops-get_elem? :
      (k : ℕ) (iov : List ℕ)
      → room iov < max
      → length iov ≤ 48
      → get_elem? (write_ops stateid in_offset max 0 0 iov) k
        ≡ op_for stateid in_offset (room (take k iov)) (get_elem? iov k)
  write_ops-get_elem? k iov lt few =
      ops_at k 0 0 iov (omega arith) (omega arith)
      ∙ ap (λ b. op_for stateid in_offset b (get_elem? iov k)) (omega arith)

  ops_short :
      (j offset : ℕ) (iov : List ℕ)
      → offset < max
      → max ≤ offset + room iov
      → length (write_ops stateid in_offset max j offset iov) < length iov
  unfolding write_ops
  ops_short j offset [] pos over = absurd (omega arith)
  ops_short j offset (v ∷ iov) pos over =
      elim (Bool-cases (ltb (offset + v) max && ltb (2 + j) nfs4_max_ops)) [
        | inl fit ↦
            let lt : offset + v < max = ground arith in
            rw fit (omega (arith, ops_short (j + 1) (offset + v) iov lt (omega arith)))
        | inr off ↦ rw off (omega arith)
      ]

  ops-uninits :
      (j offset : ℕ) (iov : List ℕ) → uninits (write_ops stateid in_offset max j offset iov) ≡ 0
  unfolding write_ops
  ops-uninits j offset [] = refl
  ops-uninits j offset (v ∷ iov) = ground (arith, ops-uninits (j + 1) (offset + v) iov)

  -- When the vectors together reach the largest write, which is not 0, the compound that is sent
  -- has an operation that nothing was written to.
  pub write_ops_over :
      (iov : List ℕ)
      → 0 < max
      → max ≤ room iov
      → 0 < uninits (pad_ops (length iov) (write_ops stateid in_offset max 0 0 iov))
  write_ops_over iov pos over =
      let short = ops_short 0 0 iov pos (omega arith) in
      rw (uninits-append, uninits-replicate, ops-uninits) (omega arith)
