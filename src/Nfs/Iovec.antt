-- ===== src/Nfs/Iovec.antt =====
-- `iovec_write_buf` of dpfs_nfs/dpfs_nfs.c: a buffer spread over I/O vectors.
pub mod Copy
use dpfs.Prelude.{
  ℕ, zero, suc, ◌+◌, ◌-◌, ◌<◌, ◌≤◌, ◌≡◌, refl, Option, none, some, List, [], ◌∷◌, ◌++◌, arith, ltb,
  ◌==◌, Bool, true, false, if◌then◌else◌, length, take, drop, Bool-cases, inl, inr, ap,
}

-- An iovec is its length. What is left of the buffer stands for `buf + written`. Each memcpy is
-- recorded as the vector that it goes to the start of, and its bytes. `none`: out of fuel.
unfoldable pub write_loop : (fuel i : ℕ) (iov : List ℕ) (buf : List ℕ) → Option (List (ℕ × List ℕ))
write_loop zero i iov buf = none
write_loop (suc fuel) i [] buf = some []
write_loop (suc fuel) i (v ∷ iov) [] = some []
write_loop (suc fuel) i (v ∷ iov) (b ∷ buf) =
    let size = length (b ∷ buf) in
    let to_cpy = if ltb size v then size else v in
    let left = drop to_cpy (b ∷ buf) in
    let rest : Option (List (ℕ × List ℕ)) = elim (to_cpy == v) [
      | true ↦ write_loop fuel (i + 1) iov left
      | false ↦ write_loop fuel i (v ∷ iov) left
    ] in
    elim rest [ none ↦ none | some ws ↦ some ((i, take to_cpy (b ∷ buf)) ∷ ws) ]

abbrev pub copied : List (ℕ × List ℕ) → List ℕ
copied [] = []
copied ((i, bytes) ∷ ws) = bytes ++ copied ws

-- A round for each vector, and one to see the end.
unfoldable pub iovec_write_buf : List ℕ → List ℕ → Option (List (ℕ × List ℕ))
unfolding write_loop
iovec_write_buf iov buf = write_loop (suc (length iov)) 0 iov buf
