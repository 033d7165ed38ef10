-- ===== src/Mirror/Rings/RingTests.antt =====
-- A pool of two chunks on a ring of four entries: two reads that are submitted, of which the second
-- comes back first.
use dpfs.Prelude.{ℕ, ◌≡◌, ◌↔◌, refl, arith, none, some, List, [], ◌∷◌}
use dpfs.Mpool.{mpool_alloc, mpool_free}
use dpfs.Mpool.Tests.{queue}
use dpfs.Fuse.Reply.{OutHeader, clear, minus}
use dpfs.Mirror.Rings.{
  Job, read, write, CbData, Io, bytes, longer, answered, would_block, null, submit_job, queue_entry,
  reap, call_back,
}
use dpfs.Mirror.Rings.Books.{Books}
use dpfs.Mirror.Rings.Turns.{IoRun, begin, refuses, blocks, returns, IoRun-Books, submit_job-null}

abbrev header : OutHeader
header = record { error = clear; len = 16 }

abbrev data_of : ℕ → Job → ℕ → CbData
data_of chunk job context = record { chunk = chunk; job = job; context = context; out = header }

abbrev io : List ℕ → List CbData → List CbData → Io queue
io free queued in_flight = record {
  pool = record { items = free; places = 3 };
  queued = queued;
  in_flight = in_flight;
}

-- The first submit fails, and the second one takes the entry of the first as well.
first :
    submit_job queue 4 12 read 1 header (some 5) (io (10 ∷ 11 ∷ []) [] [])
    ≡ answered (record header { error = minus 5 }) (io (11 ∷ []) (data_of 10 read 1 ∷ []) [])
unfolding submit_job mpool_alloc queue_entry
first = refl

second :
    submit_job queue 4 12 write 2 header none (io (11 ∷ []) (data_of 10 read 1 ∷ []) [])
    ≡ would_block (io [] [] (data_of 10 read 1 ∷ data_of 11 write 2 ∷ []))
unfolding submit_job mpool_alloc queue_entry
second = refl

third :
    reap queue 8 1 (bytes 5) (io [] [] (data_of 10 read 1 ∷ data_of 11 write 2 ∷ []))
    ≡ some (
      record { context = 2; out = longer header 8; written = some 5 },
      io (11 ∷ []) [] (data_of 10 read 1 ∷ []),
    )
unfolding reap mpool_free call_back
third = refl

submitted :
    IoRun queue (10 ∷ 11 ∷ []) 4 12 8 (io [] [] (data_of 10 read 1 ∷ data_of 11 write 2 ∷ []))
submitted =
    blocks write 2 header none
      (refuses read 1 header (record header { error = minus 5 }) (some 5)
        (begin (record { items = 10 ∷ 11 ∷ []; places = 3 }) refl (omega arith)) first)
      second

IoRun-Books_example : Books queue (10 ∷ 11 ∷ []) (io (11 ∷ []) [] (data_of 10 read 1 ∷ []))
IoRun-Books_example = IoRun-Books queue (10 ∷ 11 ∷ []) 4 12 8 (omega arith) (
    returns 1 (bytes 5) (record { context = 2; out = longer header 8; written = some 5 }) submitted
      third)

-- How many chunks are away.
abbrev both : ℕ
both = 2

submit_job-null_example :
    ((submit_job queue 4 12 read 3 header none
          (io [] [] (data_of 10 read 1 ∷ data_of 11 write 2 ∷ []))
        ≡ null)
      ↔ (both ≡ 2))
    × ((chunk : ℕ) (rest : List ℕ)
        → [] ≡ chunk ∷ rest
        → (pool : queue.Ring) × (queue.contents pool ≡ rest)
          × (queue.capacity pool ≡ 3)
          × (submit_job queue 4 12 read 3 header none
                (io [] [] (data_of 10 read 1 ∷ data_of 11 write 2 ∷ []))
              ≡ queue_entry queue
                  (data_of chunk read 3)
                  none
                  (record (io [] [] (data_of 10 read 1 ∷ data_of 11 write 2 ∷ [])) {
                    pool = pool;
                  })))
submit_job-null_example =
    submit_job-null queue (10 ∷ 11 ∷ []) 4 12 8 read 3 header none (omega arith) submitted
