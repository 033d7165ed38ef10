-- ===== src/Mirror/Rings/Books.antt =====
-- Where the chunks of a thread are.
use mathlib.Core.Option.{some-injective, some-ne-none}
use mathlib.Core.Path.{subst}
use dpfs.Prelude.{
  ap, sym, ◌∙◌, ℕ, zero, suc, ◌+◌, ◌≤◌, ◌≡◌, inl, inr, refl, arith, true, Option, none, some, List,
  [], ◌∷◌, ◌++◌, map, ltb, lt→ltb, length, length-append, count, count-append, Option-cases,
}
use dpfs.Mpool.{RingOps, mpool_free}
use dpfs.Mpool.Laws.{alloc_cases, free-contents, free-capacity}
use dpfs.Fuse.Reply.{OutHeader}
use dpfs.Mirror.Rings.{
  Job, CbData, CqeRes, Completed, Io, Submitted, answered, would_block, null, queue_entry,
  submit_job, take_at, reap, call_back,
}

abbrev pub chunk_of : CbData → ℕ
chunk_of d = d.chunk

count-chunks :
    (c : ℕ) (xs ys : List CbData)
    → count c (map chunk_of (xs ++ ys)) ≡ count c (map chunk_of xs) + count c (map chunk_of ys)
count-chunks c [] ys = omega arith
count-chunks c (x ∷ xs) ys = ground (arith, count-chunks c xs ys)

module _ (ring : RingOps) where
  open ring use {Ring, contents, capacity}

  -- Each of the chunks is in the pool, queued or in flight, as often as it is one of them, and the
  -- pool has a place for each.
  pub record Books (chunks : List ℕ) (s : Io ring) : Type 0 where
    pub all :
        (c : ℕ)
        → count c (contents s.pool)
            + count c (map chunk_of s.queued)
            + count c (map chunk_of s.in_flight)
          ≡ count c chunks
    pub total : length (contents s.pool) + length s.queued + length s.in_flight ≡ length chunks
    pub places : length chunks ≤ capacity s.pool

  -- What a request leaves: every chunk where it belongs; NULL is used exactly when the pool is empty.
  abbrev pub Kept : List ℕ → Io ring → Submitted ring → Type 0
  Kept chunks s (answered out s') = Books chunks s'
  Kept chunks s (would_block s') = Books chunks s' × (s'.queued ≡ [])
  Kept chunks s null = contents s.pool ≡ []

  module _ (chunks : List ℕ) where
    -- An entry with the chunk that the pool gave.
    queue_entry-Kept :
        (d : CbData) (rest : List ℕ) (pool : Ring) (submits : Option ℕ) (s : Io ring)
        → Books chunks s
        → contents s.pool ≡ d.chunk ∷ rest
        → contents pool ≡ rest
        → capacity pool ≡ capacity s.pool
        → Kept chunks s (queue_entry ring d submits (record s { pool = pool }))
    unfolding queue_entry
    queue_entry-Kept d rest pool none s h full left size =
        let total = h.total in
        let enough = h.places in
        let one : length (contents s.pool) ≡ suc (length (contents pool)) = rw (full, left) refl in
        let longer : length (s.in_flight ++ s.queued ++ d ∷ [])
            ≡ length s.in_flight + length s.queued + 1 =
          rw (length-append, length-append) (omega arith) in
        (
          record {
            all = λ c.
                let all : count c (d.chunk ∷ rest)
                      + count c (map chunk_of s.queued)
                      + count c (map chunk_of s.in_flight)
                    ≡ count c chunks =
                  rw full at (h.all c) in
                let first = count-append c (d.chunk ∷ []) rest in
                let pooled : count c (contents pool) ≡ count c rest = ap (count c) left in
                let moved = count-chunks c s.in_flight s.queued in
                let queued = count-chunks c (s.in_flight ++ s.queued) (d ∷ []) in
                omega (arith, all, first, pooled, moved, queued);
            total = omega (arith, total, one, longer);
            places = omega (arith, enough, size);
          },
          refl,
        )
    queue_entry-Kept d rest pool (some e) s h full left size =
        let total = h.total in
        let enough = h.places in
        let one : length (contents s.pool) ≡ suc (length (contents pool)) = rw (full, left) refl in
        let longer : length (s.queued ++ d ∷ []) ≡ length s.queued + 1 = rw length-append refl in
        record {
          all = λ c.
              let all : count c (d.chunk ∷ rest)
                    + count c (map chunk_of s.queued)
                    + count c (map chunk_of s.in_flight)
                  ≡ count c chunks =
                rw full at (h.all c) in
              let first = count-append c (d.chunk ∷ []) rest in
              let pooled : count c (contents pool) ≡ count c rest = ap (count c) left in
              let queued = count-chunks c s.queued (d ∷ []) in
              omega (arith, all, first, pooled, queued);
          total = omega (arith, total, one, longer);
          places = omega (arith, enough, size);
        }

    module _ (entries enomem : ℕ) (job : Job) (context : ℕ) (out : OutHeader)
        (submits : Option ℕ) where
      -- With no more chunks than the ring has entries, the chunk of the pool goes into an entry.
      pub submit_job-queues :
          (s : Io ring) (chunk : ℕ) (rest : List ℕ)
          → Books chunks s
          → length chunks ≤ entries
          → contents s.pool ≡ chunk ∷ rest
          → (pool : Ring) × (contents pool ≡ rest)
            × (capacity pool ≡ capacity s.pool)
            × (submit_job ring entries enomem job context out submits s
                ≡ queue_entry ring
                    (record { chunk = chunk; job = job; context = context; out = out })
                    submits
                    (record s { pool = pool }))
      unfolding submit_job
      submit_job-queues s chunk rest h few full = elim (alloc_cases ring s.pool) [
        | inl (empty, none_left) ↦ cc
        | inr (chunk', rest', pool, full', got, left, size) ↦
            let total = h.total in
            let one : length (contents s.pool) ≡ suc (length rest) = rw full refl in
            let has_sqe : ltb (length s.queued) entries ≡ true =
              lt→ltb (length s.queued) entries (omega (arith, total, few, one)) in
            let same : chunk' ≡ chunk = cc in
            let same_rest : rest' ≡ rest = cc in
            (pool, left ∙ same_rest, size, rw (submit_job, got, has_sqe, same, got) refl)
      ]

      pub submit_job-Kept :
          (s : Io ring)
          → Books chunks s
          → length chunks ≤ entries
          → Kept chunks s (submit_job ring entries enomem job context out submits s)
      unfolding submit_job
      submit_job-Kept s h few = elim (alloc_cases ring s.pool) [
        | inl (empty, none_left) ↦ rw (submit_job, none_left) empty
        | inr (chunk, rest, p, full, got, l, z) ↦
            let (pool, left, size, e) = submit_job-queues s chunk rest h few full in
            rw e (
              queue_entry-Kept (record { chunk = chunk; job = job; context = context; out = out })
                rest pool submits s h full left size)
      ]

  -- What is taken out is what is no longer there.
  abbrev pub Taken : List CbData → CbData × List CbData → Type 0
  Taken all (d, rest) =
      ((c : ℕ) → count c (map chunk_of all) ≡ count c (map chunk_of (d ∷ rest)))
      × (length all ≡ suc (length rest))

  take_at-Taken :
      (i : ℕ) (all rest : List CbData) (d : CbData)
      → take_at ring i all ≡ some (d, rest)
      → Taken all (d, rest)
  take_at-Taken i [] rest d e = absurd (some-ne-none (d, rest) (sym e))
  take_at-Taken zero (x ∷ all) rest d e =
      subst (Taken (x ∷ all)) (some-injective (x, all) (d, rest) e) (λ c. refl, refl)
  take_at-Taken (suc i) (x ∷ all) rest d e = elim (Option-cases (take_at ring i all)) [
    | inl none_there ↦
        let stuck : take_at ring (suc i) (x ∷ all) ≡ none = rw none_there refl in
        absurd (some-ne-none (d, rest) (sym e ∙ stuck))
    | inr ((y, others), found) ↦
        let taken : take_at ring (suc i) (x ∷ all) ≡ some (y, x ∷ others) = rw found refl in
        let ih = take_at-Taken i all others y found in
        subst (Taken (x ∷ all)) (some-injective (y, x ∷ others) (d, rest) (sym taken ∙ e))
          (λ c. let same = ih.0 c in ground (arith, same), ap suc ih.1)
  ]

  pub reap-Books :
      (chunks : List ℕ) (write_out i : ℕ) (res : CqeRes) (s s' : Io ring) (done_one : Completed)
      → Books chunks s
      → reap ring write_out i res s ≡ some (done_one, s')
      → Books chunks s'
  unfolding reap
  reap-Books chunks write_out i res s s' done_one h e =
      elim (Option-cases (take_at ring i s.in_flight)) [
        | inl none_there ↦
            let stuck : reap ring write_out i res s ≡ none = rw (reap, none_there) refl in
            absurd (some-ne-none (done_one, s') (sym e ∙ stuck))
        | inr ((d, rest), found) ↦
            let pool = mpool_free ring s.pool d.chunk in
            let after : Io ring = record s { pool = pool; in_flight = rest } in
            let back = call_back write_out d res in
            let reaped : reap ring write_out i res s ≡ some (back, after) = rw (reap, found) refl in
            let q : (back, after) ≡ (done_one, s') =
              some-injective (back, after) (done_one, s') (sym reaped ∙ e) in
            let total = h.total in
            let enough = h.places in
            let taken = take_at-Taken i s.in_flight rest d found in
            let fewer = taken.1 in
            let one : contents pool ≡ contents s.pool ++ d.chunk ∷ [] =
              free-contents ring s.pool d.chunk (omega (arith, total, enough, fewer)) in
            let more : length (contents pool) ≡ length (contents s.pool) + 1 =
              rw (one, length-append) refl in
            let size : capacity pool ≡ capacity s.pool = free-capacity ring s.pool d.chunk in
            subst (λ t. Books chunks t) (ap (λ (q : Completed × Io ring). q.1) q)
              (record {
                all = λ c.
                    let all = h.all c in
                    let same = taken.0 c in
                    rw (one, count-append c (contents s.pool) (d.chunk ∷ []))
                      (ground (arith, all, same));
                total = omega (arith, total, fewer, more);
                places = omega (arith, enough, size);
              })
      ]
