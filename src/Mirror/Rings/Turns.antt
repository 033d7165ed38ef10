-- ===== src/Mirror/Rings/Turns.antt =====
-- The requests of a thread and what comes back from its ring, in any order.
use dpfs.Prelude.{
  ap, ℕ, suc, ◌+◌, ◌≤◌, ◌≡◌, ◌↔◌, inl, inr, refl, arith, Option, some, List, [], ◌∷◌, length,
}
use mathlib.Core.Path.{subst}
use dpfs.Mpool.{RingOps}
use dpfs.Mpool.Laws.{alloc_cases}
use dpfs.Fuse.Reply.{OutHeader}
use dpfs.Mirror.Rings.{
  Job, CqeRes, Completed, Io, answered, would_block, null, submit_job, queue_entry, reap,
}
use dpfs.Mirror.Rings.Books.{Books, Kept, submit_job-queues, submit_job-Kept, reap-Books}

module _ (ring : RingOps) (chunks : List ℕ) (entries enomem write_out : ℕ) where
  open ring use {Ring, contents, capacity}

  -- A request that gets past the allocation, or an entry that comes back.
  pub data IoRun : Io ring → Type 0 where
    begin :
        (p : Ring)
        → contents p ≡ chunks
        → length chunks ≤ capacity p
        → IoRun (record { pool = p; queued = []; in_flight = [] })
    refuses :
        {s s' : Io ring} (job : Job) (context : ℕ) (out out' : OutHeader) (submits : Option ℕ)
        → IoRun s
        → submit_job ring entries enomem job context out submits s ≡ answered out' s'
        → IoRun s'
    blocks :
        {s s' : Io ring} (job : Job) (context : ℕ) (out : OutHeader) (submits : Option ℕ)
        → IoRun s
        → submit_job ring entries enomem job context out submits s ≡ would_block s'
        → IoRun s'
    returns :
        {s s' : Io ring} (i : ℕ) (res : CqeRes) (c : Completed)
        → IoRun s
        → reap ring write_out i res s ≡ some (c, s')
        → IoRun s'

  -- In every state that a thread gets into, from a pool of `chunks` with a place for each and with no
  -- more of them than the ring has entries: each chunk is in the pool, in an entry that is queued or
  -- in one that is in flight, in all as often as it is among `chunks`; and the pool has a place for
  -- each.
  pub IoRun-Books : {s : Io ring} → length chunks ≤ entries → IoRun s → Books ring chunks s
  IoRun-Books few (begin p all places) = record {
    all = λ c. rw all (omega arith);
    total = rw all (omega arith);
    places = places;
  }
  IoRun-Books few (refuses {s} {s'} job context out out' submits run e) =
      let kept =
        submit_job-Kept ring chunks entries enomem job context out submits s (IoRun-Books few run)
          few in
      let kept' : Kept ring chunks s (answered out' s') = subst (Kept ring chunks s) e kept in kept'
  IoRun-Books few (blocks {s} {s'} job context out submits run e) =
      let kept =
        submit_job-Kept ring chunks entries enomem job context out submits s (IoRun-Books few run)
          few in
      let kept' : Kept ring chunks s (would_block s') = subst (Kept ring chunks s) e kept in kept'.0
  IoRun-Books few (returns {s} {s'} i res c run e) =
      reap-Books ring chunks write_out i res s s' c (IoRun-Books few run) e

  -- In every state that a thread gets into, from a pool of `chunks` with a place for each and with no
  -- more of them than the ring has entries: a request writes through NULL exactly when as many chunks
  -- as there are, are queued or in flight; and when there is a chunk in the pool, it takes the first
  -- one and fills an entry with it, which is submitted or stays queued with the error: none is
  -- refused for want of an entry in the ring.
  pub submit_job-null :
      {s : Io ring} (job : Job) (context : ℕ) (out : OutHeader) (submits : Option ℕ)
      → length chunks ≤ entries
      → IoRun s
      → ((submit_job ring entries enomem job context out submits s ≡ null)
          ↔ (length s.queued + length s.in_flight ≡ length chunks))
        × ((chunk : ℕ) (rest : List ℕ)
            → contents s.pool ≡ chunk ∷ rest
            → (pool : Ring) × (contents pool ≡ rest)
              × (capacity pool ≡ capacity s.pool)
              × (submit_job ring entries enomem job context out submits s
                  ≡ queue_entry ring
                      (record { chunk = chunk; job = job; context = context; out = out })
                      submits
                      (record s { pool = pool })))
  unfolding submit_job
  submit_job-null {s} job context out submits few run =
      let h = IoRun-Books few run in
      let total = h.total in
      (
        (
          λ e.
              let kept =
                submit_job-Kept ring chunks entries enomem job context out submits s h few in
              let kept' : Kept ring chunks s null = subst (Kept ring chunks s) e kept in
              let none_there : length (contents s.pool) ≡ 0 = ap length kept' in
              omega (arith, total, none_there),
          λ away. elim (alloc_cases ring s.pool) [
            | inl (empty, none_left) ↦ rw (submit_job, none_left) refl
            | inr (chunk, rest, pool, full, got, left, size) ↦
                let one : length (contents s.pool) ≡ suc (length rest) = rw full refl in
                absurd (omega (arith, total, away, one))
          ],
        ),
        λ chunk rest full.
            submit_job-queues ring chunks entries enomem job context out submits s chunk rest h few
              full,
      )
