-- ===== src/Fuse/Iov.antt =====
-- The writer of a directory's entries into the vectors of a request (`struct iov`, iov_init and
-- iov_write_buf of dpfs_fuse/dpfs_fuse.cpp). A vector is its bytes. `finished` are the vectors before
-- `iov_idx`, and `rest` are the others.
pub mod Fits
pub mod Repeats
use dpfs.Prelude.{
  ℕ, zero, suc, ◌+◌, ◌-◌, ◌%◌, ◌^◌, Bool, true, false, List, [], ◌∷◌, ◌++◌, ltb, ◌==◌,
  if◌then◌else◌, length, take, drop,
}

pub record Iov : Type 0 where
  pub finished : List (List ℕ)
  pub rest : List (List ℕ)
  pub buf_idx : ℕ
  pub total_size : ℕ
  pub bytes_unused : ℕ

-- The loop that adds the lengths, in 64 bits.
unfoldable pub add_lens : ℕ → List (List ℕ) → ℕ
add_lens total [] = total
add_lens total (v ∷ vecs) = add_lens ((total + length v) % 2 ^ 64) vecs

unfoldable pub iov_init : List (List ℕ) → Iov
unfolding add_lens
iov_init vecs = record {
  finished = [];
  rest = vecs;
  buf_idx = 0;
  total_size = add_lens 0 vecs;
  bytes_unused = add_lens 0 vecs;
}

-- `v->iov_len - iov->buf_idx`, in 64 bits.
abbrev pub sub64 : ℕ → ℕ → ℕ
sub64 a b = (a + 2 ^ 64 - b) % 2 ^ 64

abbrev pub min : ℕ → ℕ → ℕ
min a b = if ltb a b then a else b

-- `memcpy` of the first `n` bytes of `buf` to the place `at`.
unfoldable pub copy_at : List ℕ → ℕ → ℕ → List ℕ → List ℕ
copy_at v at n buf = take at v ++ take n buf ++ drop (at + n) v

-- What follows a copy of `to_cpy` bytes: the next vector, or the same one further on.
unfoldable pub advance : Iov → List ℕ → List (List ℕ) → ℕ → Iov
advance iov v vecs to_cpy =
    if iov.buf_idx + to_cpy == length v
    then record iov { finished = iov.finished ++ v ∷ []; rest = vecs; buf_idx = 0 }
    else record iov { rest = v ∷ vecs; buf_idx = iov.buf_idx + to_cpy }

-- `outside` is a read past the array of vectors.
pub data Wrote : Type 0 where
  wrote : Iov → Wrote
  outside no_fuel : Wrote

-- `while (rem != 0)`, with fuel; each round copies from the start of `buf`.
unfoldable pub copy_loop : ℕ → ℕ → List ℕ → Iov → Wrote
unfolding copy_at advance
copy_loop zero rem buf iov = if rem == 0 then wrote iov else no_fuel
copy_loop (suc fuel) rem buf iov = elim (rem == 0) [
  | true ↦ wrote iov
  | false ↦ elim iov.rest [
    | [] ↦ outside
    | v ∷ vecs ↦
        let to_cpy = min rem (sub64 (length v) iov.buf_idx) in
        copy_loop fuel (rem - to_cpy) buf
          (advance iov (copy_at v iov.buf_idx to_cpy buf) vecs to_cpy)
  ]
]

-- What the call returns, with the writer after it.
pub data Written : Type 0 where
  returned : ℕ → Iov → Written
  failed : Written

-- Fuel for one round for each vector that is left, and one more.
unfoldable pub iov_write_buf : Iov → List ℕ → Written
unfolding copy_loop
iov_write_buf iov buf =
    let size = length buf in
    if ltb iov.bytes_unused size
    then returned 0 iov
    else elim (copy_loop (suc (length iov.rest)) size buf iov) [
      | wrote iov' ↦ returned size (record iov' { bytes_unused = iov'.bytes_unused - size })
      | outside ↦ failed
      | no_fuel ↦ failed
    ]
