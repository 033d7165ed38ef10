-- ===== src/Nfs/Iovec/Copy.antt =====
-- `iovec_write_buf` puts the buffer into the vectors in order, as far as they reach.
use mathlib.Core.List.{append-nil}
use dpfs.Prelude.{
  ℕ, zero, suc, ◌+◌, ◌<◌, ◌≤◌, ◌≡◌, refl, ap, sym, ◌∙◌, inl, inr, some, List, [], ◌∷◌, ◌++◌, arith,
  ltb, Bool-cases, ltb→lt, length, take, drop, take_all, take_add, drop_all,
}
use dpfs.Nfs.Iovec.{write_loop, copied, iovec_write_buf}

-- The bytes that the vectors hold together.
abbrev pub room : List ℕ → ℕ
room [] = 0
room (v ∷ iov) = v + room iov

-- Vector by vector: each gets as much of what is left of the buffer as it holds, until nothing is left.
abbrev pub spread : (i : ℕ) → List ℕ → List ℕ → List (ℕ × List ℕ)
spread i [] buf = []
spread i (v ∷ iov) [] = []
spread i (v ∷ iov) (b ∷ buf) = (i, take v (b ∷ buf)) ∷ spread (i + 1) iov (drop v (b ∷ buf))

spread_end : (i : ℕ) (iov : List ℕ) → spread i iov [] ≡ []
spread_end i [] = refl
spread_end i (v ∷ iov) = refl

write_loop_end : (fuel i : ℕ) (iov : List ℕ) → 0 < fuel → write_loop fuel i iov [] ≡ some []
unfolding write_loop
write_loop_end zero i iov h = absurd (omega arith)
write_loop_end (suc fuel) i [] h = refl
write_loop_end (suc fuel) i (v ∷ iov) h = refl

-- A vector that is longer than what is left takes all of it.
write_loop_last :
    (fuel i v : ℕ) (iov : List ℕ) (b : ℕ) (buf : List ℕ)
    → 0 < fuel
    → length (b ∷ buf) < v
    → write_loop (suc fuel) i (v ∷ iov) (b ∷ buf) ≡ some ((i, b ∷ buf) ∷ [])
unfolding write_loop
write_loop_last fuel i v iov b buf h lt =
    let e = drop_all (length (b ∷ buf)) (b ∷ buf) (omega arith) in
    let e' = take_all (length (b ∷ buf)) (b ∷ buf) (omega arith) in
    ground (arith, write_loop_end fuel i (v ∷ iov) h)

-- Another one is filled.
write_loop_next :
    (fuel i v : ℕ) (iov : List ℕ) (b : ℕ) (buf : List ℕ) (ws : List (ℕ × List ℕ))
    → v ≤ length (b ∷ buf)
    → write_loop fuel (i + 1) iov (drop v (b ∷ buf)) ≡ some ws
    → write_loop (suc fuel) i (v ∷ iov) (b ∷ buf) ≡ some ((i, take v (b ∷ buf)) ∷ ws)
unfolding write_loop
write_loop_next fuel i v iov b buf ws le e = ground arith

write_loop-copies :
    (fuel i : ℕ) (iov buf : List ℕ)
    → length iov < fuel
    → (ws : List (ℕ × List ℕ)) × (write_loop fuel i iov buf ≡ some ws)
      × (ws ≡ spread i iov buf)
      × (copied ws ≡ take (room iov) buf)
unfolding write_loop
write_loop-copies zero i iov buf h = absurd (omega arith)
write_loop-copies (suc fuel) i [] buf h = ([], refl, refl, refl)
write_loop-copies (suc fuel) i (v ∷ iov) [] h =
    ([], refl, refl, sym (take_all (v + room iov) [] (omega arith)))
write_loop-copies (suc fuel) i (v ∷ iov) (b ∷ buf) h =
    elim (Bool-cases (ltb (length (b ∷ buf)) v)) [
      | inl lt ↦
          let small = ltb→lt (length (b ∷ buf)) v lt in
          (
            (i, b ∷ buf) ∷ [],
            write_loop_last fuel i v iov b buf (omega arith) small,
            rw (take_all v (b ∷ buf) (omega arith), drop_all v (b ∷ buf) (omega arith), spread_end)
                refl,
            append-nil (b ∷ buf) ∙ sym (take_all (v + room iov) (b ∷ buf) (omega arith)),
          )
      | inr ge ↦
          let (ws, e, p, c) = write_loop-copies fuel (i + 1) iov (drop v (b ∷ buf)) (omega arith) in
          (
            (i, take v (b ∷ buf)) ∷ ws,
            write_loop_next fuel i v iov b buf ws (ground arith) e,
            ap (λ r. (i, take v (b ∷ buf)) ∷ r) p,
            ap (λ r. take v (b ∷ buf) ++ r) c ∙ sym (take_add v (room iov) (b ∷ buf)),
          )
    ]

-- The loop ends within its fuel. To the start of each vector, from the first on, it copies as many of the
-- remaining bytes as the vector holds, until none is left; all that it copies, in order, is the buffer up
-- to the bytes that the vectors hold together.
pub iovec_write_buf-copies :
    (iov buf : List ℕ)
    → (ws : List (ℕ × List ℕ)) × (iovec_write_buf iov buf ≡ some ws)
      × (ws ≡ spread 0 iov buf)
      × (copied ws ≡ take (room iov) buf)
unfolding iovec_write_buf
iovec_write_buf-copies iov buf = write_loop-copies (suc (length iov)) 0 iov buf (omega arith)
