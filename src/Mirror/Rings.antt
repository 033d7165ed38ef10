-- ===== src/Mirror/Rings.antt =====
-- The asynchronous requests of dpfs_uring (do_fsync, fuser_mirror_read, fuser_mirror_write and their callbacks in
-- mirror_impl.c, and a completion in the loops of fuser.c), for one thread with its ring and its pool.
-- liburing is no part of the repository: how many entries a ring has, whether it submits, and what
-- comes back are arguments; an entry is free as long as fewer than that are queued, and a submit takes
-- all that are queued.
pub mod Books
pub mod Turns
pub mod RingTests
use dpfs.Prelude.{
  ℕ, zero, suc, ◌+◌, ◌%◌, ◌^◌, Bool, true, false, Option, none, some, List, [], ◌∷◌, ◌++◌, ltb,
  length,
}
use dpfs.Mpool.{RingOps, mpool_alloc, mpool_free}
use dpfs.Fuse.Reply.{HeaderError, OutHeader, minus}

-- Which callback a request has.
pub data Job : Type 0 where
  fsync read write : Job

-- struct fuser_cb_data at its chunk: the request is its completion context.
pub record CbData : Type 0 where
  pub chunk : ℕ
  pub job : Job
  pub context : ℕ
  pub out : OutHeader

-- The result of an entry: bytes, or -errno.
pub data CqeRes : Type 0 where
  bytes : ℕ → CqeRes
  errno : ℕ → CqeRes

-- dpfs_hal_async_complete, with the header and the size in fuse_write_out, if it is set.
pub record Completed : Type 0 where
  pub context : ℕ
  pub out : OutHeader
  pub written : Option ℕ

abbrev pub longer : OutHeader → ℕ → OutHeader
longer h n = record h { len = (h.len + n) % 2 ^ 32 }

module _ (write_out : ℕ) where
  -- fuser_mirror_generic_cb, fuser_mirror_read_cb and fuser_mirror_write_cb; `write_out` is the size of
  -- struct fuse_write_out.
  unfoldable pub call_back : CbData → CqeRes → Completed
  call_back d (errno e) = record {
    context = d.context;
    out = record d.out { error = minus e };
    written = none;
  }
  call_back d (bytes n) = elim d.job [
    | fsync ↦ record { context = d.context; out = d.out; written = none }
    | read ↦ record { context = d.context; out = longer d.out n; written = none }
    | write ↦ record {
      context = d.context;
      out = longer d.out write_out;
      written = some (n % 2 ^ 32);
    }
  ]

module _ (ring : RingOps) where
  open ring use {Ring}

  -- `queued` are the entries that are filled but not submitted, and `in_flight` those that are.
  pub record Io : Type 0 where
    pub pool : Ring
    pub queued : List CbData
    pub in_flight : List CbData

  -- `null` is a write through NULL.
  pub data Submitted : Type 0 where
    answered : OutHeader → Io → Submitted
    would_block : Io → Submitted
    null : Submitted

  -- An entry that is submitted (`none`) or not.
  unfoldable pub queue_entry : CbData → (submits : Option ℕ) → Io → Submitted
  queue_entry d none s =
      would_block (record s { in_flight = s.in_flight ++ s.queued ++ d ∷ []; queued = [] })
  queue_entry d (some e) s =
      answered (record d.out { error = minus e }) (record s { queued = s.queued ++ d ∷ [] })

  -- What fsync, read and write have in common, on a ring with so many entries.
  unfoldable pub submit_job :
      (entries enomem : ℕ) → Job → ℕ → OutHeader → (submits : Option ℕ) → Io → Submitted
  unfolding queue_entry
  submit_job entries enomem job context out submits s =
      let (got, pool) = mpool_alloc ring s.pool in
      elim got [
        | none ↦ null
        | some chunk ↦ elim (ltb (length s.queued) entries) [
          | false ↦ answered (record out { error = minus enomem }) (record s { pool = pool })
          | true ↦
              queue_entry (record { chunk = chunk; job = job; context = context; out = out })
                submits (record s { pool = pool })
        ]
      ]

  abbrev pub take_at : ℕ → List CbData → Option (CbData × List CbData)
  take_at i [] = none
  take_at zero (d ∷ all) = some (d, all)
  take_at (suc i) (d ∷ all) = elim (take_at i all) [
    | none ↦ none
    | some (x, rest) ↦ some (x, d ∷ rest)
  ]

  -- The entry at `i` of those in flight comes back: its callback is called, and its chunk given back.
  unfoldable pub reap : (write_out : ℕ) → ℕ → CqeRes → Io → Option (Completed × Io)
  reap write_out i res s = elim (take_at i s.in_flight) [
    | none ↦ none
    | some (d, rest) ↦ some (
      call_back write_out d res,
      record s { pool = mpool_free ring s.pool d.chunk; in_flight = rest },
    )
  ]
