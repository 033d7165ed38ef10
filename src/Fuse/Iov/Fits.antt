-- ===== src/Fuse/Iov/Fits.antt =====
-- The writer never leaves the vectors, and keeps count of the room that is left.
use dpfs.Prelude.{
  ℕ, zero, suc, ◌+◌, ◌-◌, ◌%◌, ◌^◌, ◌<◌, ◌≤◌, ◌≡◌, ◌≢◌, ◌∙◌, refl, sym, ap, inl, inr, arith, true,
  false, List, [], ◌∷◌, ◌++◌, ◌==◌, ==_iff, length, length-append, length-take, length-drop, tally,
  Bool-cases, lt→ltb, le→ltb,
}
use dpfs.Fuse.Iov.{
  Iov, add_lens, iov_init, sub64, min, copy_at, advance, wrote, copy_loop, returned, iov_write_buf,
}

-- The place in the current vector is in it.
abbrev pub InHead : List (List ℕ) → ℕ → Type 0
InHead [] b = b ≡ 0
InHead (v ∷ vecs) b = b ≤ length v

-- The count is what is left of the vectors.
pub record IsWriter (iov : Iov) : Type 0 where
  pub place : InHead iov.rest iov.buf_idx
  pub room : iov.bytes_unused + iov.buf_idx ≡ tally length iov.rest
  pub small : tally length iov.rest < 2 ^ 64

pub length-copy_at :
    (v : List ℕ) (at n : ℕ) (buf : List ℕ)
    → at + n ≤ length v
    → n ≤ length buf
    → length (copy_at v at n buf) ≡ length v
unfolding copy_at
length-copy_at v at n buf h k =
    rw
      (
        length-append,
        length-append,
        length-take at v (omega arith),
        length-take n buf k,
        length-drop,
      )
      (omega arith)

pub copy_loop-done : (fuel : ℕ) (buf : List ℕ) (iov : Iov) → copy_loop fuel 0 buf iov ≡ wrote iov
unfolding copy_loop
copy_loop-done zero buf iov = refl
copy_loop-done (suc fuel) buf iov = refl

-- How many bytes a round copies.
round-size :
    (rem len b : ℕ)
    → b ≤ len
    → len < 2 ^ 64
    → (min rem (sub64 len b) ≤ rem)
      × (b + min rem (sub64 len b) ≤ len)
      × (b + min rem (sub64 len b) ≢ len → min rem (sub64 len b) ≡ rem)
round-size rem len b h small =
    let d : sub64 len b ≡ len - b = omega arith in
    rw d (ground arith, ground arith, λ ne. ground arith)

-- The writer after some bytes: in its place, with so much less room.
pub record Moved (bytes : ℕ) (iov iov' : Iov) : Type 0 where
  pub place : InHead iov'.rest iov'.buf_idx
  pub left : tally length iov'.rest + bytes + iov.buf_idx ≡ tally length iov.rest + iov'.buf_idx
  pub shorter : tally length iov'.rest ≤ tally length iov.rest
  pub unused : iov'.bytes_unused ≡ iov.bytes_unused

InHead-zero : (vecs : List (List ℕ)) → InHead vecs 0
InHead-zero [] = refl
InHead-zero (v ∷ vecs) = omega arith

abbrev pub at : List (List ℕ) → List (List ℕ) → ℕ → ℕ → ℕ → Iov
at finished rest b total unused = record {
  finished = finished;
  rest = rest;
  buf_idx = b;
  total_size = total;
  bytes_unused = unused;
}

pub loop-step :
    (fuel rem : ℕ) (buf v : List ℕ) (finished vecs : List (List ℕ)) (b total unused : ℕ)
    → (rem == 0) ≡ false
    → let n = min rem (sub64 (length v) b) in
      copy_loop (suc fuel) rem buf (at finished (v ∷ vecs) b total unused)
      ≡ copy_loop fuel
          (rem - n)
          buf
          (advance (at finished (v ∷ vecs) b total unused) (copy_at v b n buf) vecs n)
unfolding copy_loop
loop-step fuel rem buf v finished vecs b total unused more = rw (more, copy_loop)

pub advance-full :
    (v : List ℕ) (finished rest vecs : List (List ℕ)) (b total unused n : ℕ)
    → (b + n == length v) ≡ true
    → advance (at finished rest b total unused) v vecs n
      ≡ at (finished ++ v ∷ []) vecs 0 total unused
unfolding advance
advance-full v finished rest vecs b total unused n full = rw full

pub advance-open :
    (v : List ℕ) (finished rest vecs : List (List ℕ)) (b total unused n : ℕ)
    → (b + n == length v) ≡ false
    → advance (at finished rest b total unused) v vecs n
      ≡ at finished (v ∷ vecs) (b + n) total unused
unfolding advance
advance-open v finished rest vecs b total unused n more = rw more

no_full : (m n : ℕ) → (m == n) ≡ false → m ≡ n → ⊥
no_full m n h e = ground arith

loop-Moved :
    (fuel rem : ℕ) (buf : List ℕ) (finished rest : List (List ℕ)) (b total unused : ℕ)
    → rem ≤ length buf
    → InHead rest b
    → tally length rest < 2 ^ 64
    → rem + b ≤ tally length rest
    → length rest < fuel
    → (iov' : Iov) × (copy_loop fuel rem buf (at finished rest b total unused) ≡ wrote iov')
      × Moved rem (at finished rest b total unused) iov'
unfolding copy_loop advance
loop-Moved zero rem buf finished rest b total unused k place small fits enough =
    absurd (omega arith)
loop-Moved (suc fuel) rem buf finished [] b total unused k place small fits enough =
    let none_left : rem ≡ 0 = omega arith in
    (
      at finished [] b total unused,
      rw none_left,
      record { place = place; left = omega arith; shorter = omega arith; unused = refl },
    )
loop-Moved (suc fuel) rem buf finished (v ∷ vecs) b total unused k place small fits enough =
    let n = min rem (sub64 (length v) b) in
    let (le, inside, last) = round-size rem (length v) b place (omega arith) in
    let v' = copy_at v b n buf in
    let same : length v' ≡ length v = length-copy_at v b n buf inside (omega arith) in
    elim (Bool-cases (rem == 0)) [
      | inl done ↦
          let nothing : rem ≡ 0 = (==_iff rem 0).0 done in
          (
            at finished (v ∷ vecs) b total unused,
            rw (done, copy_loop),
            record { place = place; left = omega arith; shorter = omega arith; unused = refl },
          )
      | inr more ↦
          let step = loop-step fuel rem buf v finished vecs b total unused more in
          elim (Bool-cases (b + n == length v')) [
            | inl full ↦
                let reached : b + n ≡ length v = (==_iff (b + n) (length v')).0 full ∙ same in
                let (iov', ran, moved) =
                  loop-Moved fuel (rem - n) buf (finished ++ v' ∷ []) vecs 0 total unused
                    (omega arith) (InHead-zero vecs) (omega arith) (omega arith) (omega arith) in
                (
                  iov',
                  step
                      ∙ ap (copy_loop fuel (rem - n) buf)
                          (advance-full v' finished (v ∷ vecs) vecs b total unused n full)
                      ∙ ran,
                  record {
                    place = moved.place;
                    left = let l = moved.left in omega arith;
                    shorter = let l = moved.shorter in omega arith;
                    unused = moved.unused;
                  },
                )
            | inr short ↦
                let apart : b + n ≢ length v =
                  λ e. no_full (b + n) (length v') short (e ∙ sym same) in
                let all : n ≡ rem = last apart in
                let nothing : rem - n ≡ 0 = omega arith in
                (
                  at finished (v' ∷ vecs) (b + n) total unused,
                  step
                      ∙ ap (copy_loop fuel (rem - n) buf)
                          (advance-open v' finished (v ∷ vecs) vecs b total unused n short)
                      ∙ rw nothing
                          (copy_loop-done fuel buf (at finished (v' ∷ vecs) (b + n) total unused)),
                  record {
                    place = omega arith;
                    left = omega arith;
                    shorter = omega arith;
                    unused = refl;
                  },
                )
          ]
    ]

lens-tally :
    (total : ℕ) (vecs : List (List ℕ))
    → total + tally length vecs < 2 ^ 64
    → add_lens total vecs ≡ total + tally length vecs
unfolding add_lens
lens-tally total [] h = omega arith
lens-tally total (v ∷ vecs) h =
    let e : (total + length v) % 2 ^ 64 ≡ total + length v = omega arith in
    rw e (let rest = lens-tally (total + length v) vecs (omega arith) in omega arith)

-- A writer whose count is right, whose place is in its current vector and which has less than 2 ^ 64
-- bytes of room takes a buffer that fits and stays one, with so much less room, and refuses a larger
-- one without a change: it never runs past the last vector.
pub iov_write_buf-IsWriter :
    (iov : Iov) (buf : List ℕ)
    → IsWriter iov
    → (length buf ≤ iov.bytes_unused
        → (iov' : Iov) × (iov_write_buf iov buf ≡ returned (length buf) iov')
          × IsWriter iov'
          × (iov'.bytes_unused + length buf ≡ iov.bytes_unused))
      × (iov.bytes_unused < length buf → iov_write_buf iov buf ≡ returned 0 iov)
unfolding iov_write_buf
iov_write_buf-IsWriter iov buf h = (
  λ fits.
      let room = h.room in
      let small = h.small in
      let (iov', ran, moved) =
        loop-Moved (suc (length iov.rest)) (length buf) buf iov.finished iov.rest iov.buf_idx
          iov.total_size iov.bytes_unused (omega arith) h.place small (omega arith) (omega arith) in
      let left = moved.left in
      let unused = moved.unused in
      let shorter = moved.shorter in
      (
        record iov' { bytes_unused = iov'.bytes_unused - length buf },
        rw (le→ltb iov.bytes_unused (length buf) fits, ran),
        record { place = moved.place; room = omega arith; small = omega arith },
        omega arith,
      ),
  λ full. rw (lt→ltb iov.bytes_unused (length buf) full),
)

pub init-IsWriter :
    (vecs : List (List ℕ))
    → tally length vecs < 2 ^ 64
    → IsWriter (iov_init vecs) × ((iov_init vecs).bytes_unused ≡ tally length vecs)
unfolding iov_init
init-IsWriter vecs h =
    let e : add_lens 0 vecs ≡ 0 + tally length vecs = lens-tally 0 vecs (omega arith) in
    (record { place = InHead-zero vecs; room = omega arith; small = h }, omega arith)
