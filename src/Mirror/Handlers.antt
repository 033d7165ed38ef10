-- ===== src/Mirror/Handlers.antt =====
-- The handlers that change the inodes (fuser_mirror_lookup, _create, _mknod, _mkdir, _symlink, _open, _release,
-- _forget, _batch_forget and _unlink of mirror_impl.c). What a call of the operating system returns is
-- an argument: a descriptor or an error, or for a call that only succeeds or fails `none` or the error.
use dpfs.Prelude.{
  ℕ, ◌+◌, ◌-◌, ◌%◌, ◌^◌, Bool, false, ◌&&◌, Option, none, some, List, [], ◌∷◌, ◌==◌, if◌then◌else◌,
}
use dpfs.Fuse.Reply.{
  HeaderError, minus, plus, OutHeader, Stat, EntryParam, FileInfo, Payload, nothing, reply_entry,
  reply_open, reply_create,
}
use dpfs.Mirror.{
  gone, Node, Conf, M, pure, ◌>>=◌, ◌>>◌, Place, load, store, lock, unlock, open_fd, close,
  close_positive, is_positive, Looked, missed, found, Opened, descriptor, Answers, deref,
  ino_to_inodeptr, do_lookup, forget_one, bump64,
}

abbrev pub Answer : Type 0
Answer = OutHeader × Payload

-- What is made: S_ISDIR, S_ISLNK with or without a target, or anything else.
pub data Kind : Type 0 where
  directory other : Kind
  symlink : (has_link : Bool) → Kind

-- `nopen--`, in 64 bits.
abbrev pub lower64 : ℕ → ℕ
lower64 n = (n + 2 ^ 64 - 1) % 2 ^ 64

abbrev pub zero_stat : Stat
zero_stat = record {
  dev = 0;
  ino = 0;
  mode = 0;
  nlink = 0;
  uid = 0;
  gid = 0;
  rdev = 0;
  size = 0;
  blksize = 0;
  blocks = 0;
  atime = 0;
  mtime = 0;
  ctime = 0;
}

abbrev pub plain_file : ℕ → FileInfo
plain_file x = record {
  fh = x;
  direct_io = false;
  keep_cache = false;
  cache_readdir = false;
  nonseekable = false;
}

module _ (c : Conf) (h : OutHeader) where
  abbrev pub fail_with : HeaderError → M Answer
  fail_with e = pure (record h { error = e }, nothing)

  -- `close`, `fsync` and the like: 0, or the error.
  abbrev pub finish : Option ℕ → M Answer
  finish none = pure (h, nothing)
  finish (some e) = fail_with (minus e)

  -- The entry that says that a file is not there; its attributes are taken to be zero.
  abbrev pub negative : EntryParam
  negative = record {
    ino = 0;
    generation = 0;
    attr = zero_stat;
    attr_timeout = c.timeout;
    entry_timeout = c.timeout;
  }

  unfoldable pub answer_lookup : Looked → M Answer
  answer_lookup (missed e) =
      if e == c.sizes.enoent
      then pure (reply_entry c.sizes c.proto_minor h negative)
      else fail_with (minus e)
  answer_lookup (found e) = pure (reply_entry c.sizes c.proto_minor h e)

  unfoldable pub lookup : ℕ → Answers → M Answer
  unfolding answer_lookup
  lookup parent a = do_lookup c parent a >>= answer_lookup

  abbrev pub opened_once : Node → Node
  opened_once i = record i { nopen = bump64 i.nopen }

  unfoldable pub answer_create : ℕ → Looked → M Answer
  unfolding load store
  answer_create x (missed e) = fail_with (plus e)
  answer_create x (found e) = ino_to_inodeptr c e.ino >>= λ (i : Option Place).
      deref c i λ (p : Place). do
        n ← load p
        store p (opened_once n)
        pure (reply_create c.sizes c.proto_minor h e (plain_file x))

  -- `opened` is what openat with O_CREAT gives.
  unfoldable pub create : ℕ → (opened : Opened) → Answers → M Answer
  unfolding load open_fd answer_create
  create parent opened a = ino_to_inodeptr c parent >>= λ (i : Option Place). elim i [
    | none ↦ fail_with (minus c.einval)
    | some p ↦ load p >>= λ (dir : Node). elim opened [
      | Opened.failed e ↦ fail_with (plus e)
      | descriptor x ↦ do open_fd x; l ← do_lookup c parent a; answer_create x l
    ]
  ]

  unfoldable pub answer_made : Looked → M Answer
  answer_made (missed e) = fail_with (minus e)
  answer_made (found e) = pure (reply_entry c.sizes c.proto_minor h e)

  unfoldable pub make_at : ℕ → (res : Option ℕ) → Answers → Place → M Answer
  unfolding load
  make_at parent res a p = load p >>= λ (dir : Node). elim res [
    | some e ↦ fail_with (minus e)
    | none ↦ do_lookup c parent a >>= answer_made
  ]

  -- make_something with the handlers that call it; `res` is what mkdirat, symlinkat or mknodat gives.
  unfoldable pub make_something : ℕ → Kind → (res : Option ℕ) → Answers → M Answer
  unfolding make_at
  make_something parent (symlink false) res a =
      ino_to_inodeptr c parent >>= λ (i : Option Place). fail_with (minus c.einval)
  make_something parent kind res a =
      ino_to_inodeptr c parent >>= λ (i : Option Place). deref c i (make_at parent res a)

  -- `garbage` is what the fields hold that are not set.
  unfoldable pub open_file : ℕ → (opened : Opened) → (garbage : FileInfo) → M Answer
  unfolding load open_fd store
  open_file ino opened garbage = ino_to_inodeptr c ino >>= λ (i : Option Place). elim i [
    | none ↦ fail_with (minus c.einval)
    | some p ↦ load p >>= λ (n : Node). elim opened [
      | Opened.failed e ↦ fail_with (minus e)
      | descriptor x ↦ do
        open_fd x
        store p (opened_once n)
        pure (reply_open c.sizes c.proto_minor h (record garbage { fh = x; keep_cache = c.cached }))
    ]
  ]

  unfoldable pub release : ℕ → (fh : ℕ) → M Answer
  unfolding load store close
  release ino fh = ino_to_inodeptr c ino >>= λ (i : Option Place). elim i [
    | none ↦ fail_with (minus c.einval)
    | some p ↦ do
      n ← load p
      store p (record n { nopen = lower64 n.nopen })
      close fh
      pure (h, nothing)
  ]

  -- A FORGET has no header.
  unfoldable pub batch_forget : List (ℕ × ℕ) → M (Unit {0})
  batch_forget [] = pure tt
  batch_forget ((ino, n) ∷ rest) = forget_one c ino n >> batch_forget rest

  -- The descriptor of an inode that has no other name and is not open is given up.
  unfoldable pub give_up : Place → M (Unit {0})
  unfolding load lock store unlock
  give_up p = load p >>= λ (n : Node).
      if is_positive n.fd && (n.nopen == 0)
      then (do
        lock
        close_positive n.fd
        store p (record n { fd = gone; generation = (n.generation + 1) % 2 ^ 32 })
        unlock)
      else pure tt

  unfoldable pub unlink_at : Place → (res : Option ℕ) → M Answer
  unfolding load
  unlink_at p res = load p >>= λ (dir : Node). finish res

  unfoldable pub unlink_found : Place → (res : Option ℕ) → Looked → M Answer
  unfolding give_up unlink_at
  unlink_found dir res (missed e) = fail_with (minus e)
  unlink_found dir res (found e) =
      if e.attr.nlink == 1
      then (ino_to_inodeptr c e.ino >>= λ (i : Option Place). elim i [
        | none ↦ fail_with (minus c.einval)
        | some p ↦ do give_up p; forget_one c e.ino 1; unlink_at dir res
      ])
      else (do forget_one c e.ino 1; unlink_at dir res)

  -- `res` is what unlinkat gives.
  unfoldable pub unlink : ℕ → Answers → (res : Option ℕ) → M Answer
  unfolding unlink_at unlink_found
  unlink parent a res = ino_to_inodeptr c parent >>= λ (i : Option Place). elim i [
    | none ↦ fail_with (minus c.einval)
    | some dir ↦
        if c.cached then unlink_at dir res else (do_lookup c parent a >>= unlink_found dir res)
  ]
