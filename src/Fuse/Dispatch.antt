-- ===== src/Fuse/Dispatch.antt =====
-- How a request gets from the virtio queue to an operation of the file system (fuse_handle_req and the
-- handlers fuse_ll_* of dpfs_fuse/dpfs_fuse.cpp), up to the call of that operation. What
-- fuse_ll_init does behind its test of the vectors is in Fuse.Init.
pub mod Guarded
use dpfs.Prelude.{
  ℕ, ◌+◌, ◌%◌, ◌^◌, Bool, true, false, not, ◌&&◌, ◌||◌, Option, none, some, List, [], ◌∷◌, ltb,
  ◌==◌, if◌then◌else◌, length,
}

-- The requests that fuse_ll_map gives a handler.
pub data FuseOp : Type 0 where
  init destroy getattr lookup setattr opendir releasedir readdir readdirplus open_file release :
      FuseOp
  fsync fsyncdir create rmdir forget batch_forget rename rename2 read write mknod mkdir : FuseOp
  symlink statfs unlink readlink flush setlkw setlk fallocate : FuseOp

-- The field of `struct fuse_ll_operations` that a handler calls: it shares some. FUSE_SETATTR has two
-- fields, of which one is enough, and `setlk` stands for `flock`.
abbrev pub field_of : FuseOp → FuseOp
field_of readdirplus = readdir
field_of rename2 = rename
field_of setlkw = setlk
field_of op = op

-- The ways the handlers go about a request.
pub data Shape : Type 0 where
  plain reads writes lists locks forgets ends links starts : Shape

abbrev pub shape_of : FuseOp → Shape
shape_of init = starts
shape_of destroy = ends
shape_of readdir = lists
shape_of readdirplus = lists
shape_of forget = forgets
shape_of batch_forget = forgets
shape_of read = reads
shape_of write = writes
shape_of readlink = links
shape_of setlk = locks
shape_of setlkw = locks
shape_of op = plain

-- The number of input vectors of a plain handler, and of output vectors.
abbrev pub in_iovcnt : FuseOp → ℕ
in_iovcnt statfs = 1
in_iovcnt op = 2

abbrev pub out_iovcnt : FuseOp → ℕ
out_iovcnt releasedir = 1
out_iovcnt release = 1
out_iovcnt fsync = 1
out_iovcnt fsyncdir = 1
out_iovcnt rmdir = 1
out_iovcnt rename = 1
out_iovcnt rename2 = 1
out_iovcnt unlink = 1
out_iovcnt flush = 1
out_iovcnt fallocate = 1
out_iovcnt op = 2

-- A request: its opcode, the lengths of its vectors, the size that a READ or WRITE states, and whether
-- a lock is asked for with FUSE_LK_FLOCK.
pub record FuseReq : Type 0 where
  pub opcode : ℕ
  pub in_iov : List ℕ
  pub out_iov : List ℕ
  pub size : ℕ
  pub lk_flock : Bool

pub record FuseSession : Type 0 where
  pub init_done : Bool
  pub got_destroy : Bool

pub data FuseError : Type 0 where
  no_error ebusy enosys : FuseError

-- `einval` is a return of -EINVAL and `silent` one of 0 with no header, `answered` is a header with
-- the error and a return of 0, `calls` is the call of the operation, `starting` the body of
-- fuse_ll_init (Fuse.Init), and `faulted` a read past the vectors.
pub data Dispatched : Type 0 where
  einval silent faulted starting : Dispatched
  answered : FuseError → FuseSession → Dispatched
  calls : FuseOp → FuseSession → Dispatched

-- The loop over the vectors of the data, in 64 bits.
unfoldable pub add_sizes : ℕ → List ℕ → ℕ
add_sizes total [] = total
add_sizes total (n ∷ sizes) = add_sizes ((total + n) % 2 ^ 64) sizes

abbrev pub tail : List ℕ → List ℕ
tail [] = []
tail (n ∷ sizes) = sizes

-- The tests of `init_done` and of the operation, which all but five handlers have.
unfoldable pub when_ready : Bool → FuseSession → FuseOp → Dispatched → Dispatched
when_ready given s op go =
    if not s.init_done then answered ebusy s else if given then go else answered enosys s

module _ (gives : FuseOp → Bool) where
  unfoldable pub handle_shape : Shape → FuseOp → FuseSession → FuseReq → Dispatched
  unfolding when_ready add_sizes
  handle_shape plain op s r =
      if (length r.in_iov == in_iovcnt op) && (length r.out_iov == out_iovcnt op)
      then when_ready (gives (field_of op)) s op (calls op s)
      else einval
  handle_shape reads op s r =
      if (length r.in_iov == 2) && not (ltb (length r.out_iov) 2)
      then when_ready (gives (field_of op)) s op
          (if add_sizes 0 (tail r.out_iov) == r.size then calls op s else einval)
      else einval
  handle_shape writes op s r =
      if not (ltb (length r.in_iov) 2) && (length r.out_iov == 2)
      then when_ready (gives (field_of op)) s op
          (if add_sizes 0 (tail (tail r.in_iov)) == r.size then calls op s else einval)
      else einval
  handle_shape lists op s r =
      if ltb 1 (length r.in_iov) || ltb 1 (length r.out_iov)
      then if ltb (length r.in_iov) 2 || ltb (length r.out_iov) 1
        then faulted
        else when_ready (gives (field_of op)) s op (calls op s)
      else einval
  handle_shape locks op s r =
      if (length r.in_iov == 2) && (length r.out_iov == 1)
      then when_ready (r.lk_flock && gives (field_of op)) s op (calls op s)
      else einval
  handle_shape forgets op s r =
      if (length r.in_iov == 1) && (length r.out_iov == 0)
      then if gives (field_of op) then calls op s else silent
      else einval
  handle_shape ends op s r =
      let s' : FuseSession = record s { got_destroy = true } in
      if (length r.in_iov == 1) && (length r.out_iov == 1)
      then if gives (field_of op) then calls op s' else answered no_error s'
      else einval
  handle_shape links op s r = if ltb (length r.out_iov) 1 then faulted else answered enosys s
  handle_shape starts op s r =
      if (length r.in_iov == 2) && (length r.out_iov == 2) then starting else einval

  -- `opcode_of` numbers the handlers, as the header of FUSE does, and `max_opcode` is the largest
  -- number. A number with no handler goes to fuse_unknown.
  unfoldable pub handle_req :
      (opcode_of : ℕ → Option FuseOp) (max_opcode : ℕ) → FuseSession → FuseReq → Dispatched
  unfolding handle_shape
  handle_req opcode_of max_opcode s r =
      if ltb (length r.in_iov) 1
      then einval
      else if ltb r.opcode 1 || ltb max_opcode r.opcode
      then einval
      else elim (opcode_of r.opcode) [
        | none ↦ if ltb (length r.out_iov) 1 then faulted else answered enosys s
        | some op ↦ handle_shape (shape_of op) op s r
      ]
