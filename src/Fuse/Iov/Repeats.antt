-- ===== src/Fuse/Iov/Repeats.antt =====
-- What the writer puts into a second vector.
use dpfs.Prelude.{
  ℕ, suc, ◌+◌, ◌-◌, ◌^◌, ◌<◌, ◌≤◌, ◌≡◌, ◌∙◌, ap, arith, List, [], ◌∷◌, ◌++◌, length, le→ltb,
}
use dpfs.Fuse.Iov.{sub64, min, copy_at, advance, wrote, copy_loop, returned, iov_write_buf}
use dpfs.Fuse.Iov.Fits.{length-copy_at, copy_loop-done, at, loop-step, advance-full, advance-open}

-- A buffer that fits into the room, is longer than the current vector, which is written from its
-- start, and is shorter than it and the next one together (less than 2 ^ 64 bytes): the next vector
-- gets the first bytes of the buffer once more, where the ones that are left belong.
pub iov_write_buf-repeats :
    (v w buf : List ℕ) (finished vecs : List (List ℕ)) (total unused : ℕ)
    → length v < length buf
    → length buf < length v + length w
    → length v + length w < 2 ^ 64
    → length buf ≤ unused
    → iov_write_buf (at finished (v ∷ w ∷ vecs) 0 total unused) buf
      ≡ returned (length buf) (
          at
            (finished ++ copy_at v 0 (length v) buf ∷ [])
            (copy_at w 0 (length buf - length v) buf ∷ vecs)
            (length buf - length v)
            total
            (unused - length buf))
unfolding iov_write_buf
iov_write_buf-repeats v w buf finished vecs total unused longer shorter small fits =
    let size = length buf in
    let lv = length v in
    let v' = copy_at v 0 lv buf in
    let w' = copy_at w 0 (size - lv) buf in
    let fuel = suc (length vecs) in
    let one : min size (sub64 lv 0) ≡ lv =
      let d : sub64 lv 0 ≡ lv = omega arith in rw d (ground arith) in
    let two : min (size - lv) (sub64 (length w) 0) ≡ size - lv =
      let d : sub64 (length w) 0 ≡ length w = omega arith in rw d (ground arith) in
    let same : length v' ≡ lv = length-copy_at v 0 lv buf (omega arith) (omega arith) in
    let same' : length w' ≡ length w =
      length-copy_at w 0 (size - lv) buf (omega arith) (omega arith) in
    let nothing : size - lv - (size - lv) ≡ 0 = omega arith in
    let plus : 0 + (size - lv) ≡ size - lv = omega arith in
    let run : copy_loop (suc (suc fuel)) size buf (at finished (v ∷ w ∷ vecs) 0 total unused)
        ≡ wrote (at (finished ++ v' ∷ []) (w' ∷ vecs) (size - lv) total unused) =
      loop-step (suc fuel) size buf v finished (w ∷ vecs) 0 total unused (ground arith)
      ∙ ap
          (λ n.
            copy_loop (suc fuel) (size - n) buf (
              advance (at finished (v ∷ w ∷ vecs) 0 total unused) (copy_at v 0 n buf) (w ∷ vecs) n))
          one
      ∙ ap (copy_loop (suc fuel) (size - lv) buf)
          (advance-full v' finished (v ∷ w ∷ vecs) (w ∷ vecs) 0 total unused lv (ground arith))
      ∙ loop-step fuel (size - lv) buf w (finished ++ v' ∷ []) vecs 0 total unused (ground arith)
      ∙ ap
          (λ n. copy_loop fuel (size - lv - n) buf (
            advance (at (finished ++ v' ∷ []) (w ∷ vecs) 0 total unused) (copy_at w 0 n buf) vecs
              n))
          two
      ∙ ap (copy_loop fuel (size - lv - (size - lv)) buf) (
          advance-open w' (finished ++ v' ∷ []) (w ∷ vecs) vecs 0 total unused (size - lv)
            (ground arith))
      ∙ ap
          (λ k.
            copy_loop fuel k buf
              (at (finished ++ v' ∷ []) (w' ∷ vecs) (0 + (size - lv)) total unused))
          nothing
      ∙ copy_loop-done fuel buf
          (at (finished ++ v' ∷ []) (w' ∷ vecs) (0 + (size - lv)) total unused)
      ∙ ap (λ b. wrote (at (finished ++ v' ∷ []) (w' ∷ vecs) b total unused)) plus in
    rw (le→ltb unused size fits, run)
