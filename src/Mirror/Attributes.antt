-- ===== src/Mirror/Attributes.antt =====
-- The handlers that pass a change on to the operating system (fuser_mirror_getattr, _setattr, _rename and
-- _rmdir of mirror_impl.c).
pub mod Kept
pub mod Setattr
use dpfs.Prelude.{ℕ, Bool, true, false, ◌||◌, Option, none, some, List, [], ◌∷◌, if◌then◌else◌}
use dpfs.Fuse.Reply.{OutHeader, Stat, minus, nothing, reply_attr}
use dpfs.Mirror.{
  Fd, Fuser, Conf, M, Node, pure, ◌>>=◌, Place, load, deref, ino_to_inodeptr, Statted, status,
}
use dpfs.Mirror.Handlers.{Answer, fail_with, finish}

-- The bits of `valid`: FUSE_SET_ATTR_MODE, _UID, _GID, _SIZE, _ATIME, _MTIME, _ATIME_NOW, _MTIME_NOW.
pub record Valid : Type 0 where
  pub mode : Bool
  pub uid : Bool
  pub gid : Bool
  pub size : Bool
  pub atime : Bool
  pub mtime : Bool
  pub atime_now : Bool
  pub mtime_now : Bool

-- What a call is about: the descriptor of an open file, or that of the inode, by its name in /proc.
pub data Target : Type 0 where
  open_file : ℕ → Target
  inode : Fd → Target

-- A time of utimensat.
pub data Time : Type 0 where
  omit now : Time
  moment : ℕ → Time

-- What the operating system is asked for; `none` leaves an owner as it is.
pub data Call : Type 0 where
  chmod : Target → ℕ → Call
  chown : Fd → Option ℕ → Option ℕ → Call
  truncate : Target → ℕ → Call
  utimens : Target → Time → Time → Call

abbrev pub target : Option ℕ → Fd → Target
target none ifd = inode ifd
target (some fh) ifd = open_file fh

abbrev pub time_of : (now_too given : Bool) → ℕ → Time
time_of true given t = now
time_of false true t = moment t
time_of false false t = omit

abbrev pub owner_of : Bool → ℕ → Option ℕ
owner_of b n = if b then some n else none

-- The calls that were made, and the error of the last.
abbrev pub Made : Type 0
Made = List Call × Option ℕ

module _ (os : Call → Option ℕ) where
  -- A call under its test, and what follows if it does not fail.
  unfoldable pub attempt : Bool → Call → Made → Made
  attempt false call rest = rest
  attempt true call rest = elim (os call) [
    | some e ↦ (call ∷ [], some e)
    | none ↦ (call ∷ rest.0, rest.1)
  ]

  -- The four changes of setattr; `fi` is the handle of an open file, if there is one.
  unfoldable pub change : Valid → Stat → (fi : Option ℕ) → Fd → Made
  unfolding attempt
  change v s fi ifd = attempt v.mode (chmod (target fi ifd) s.mode) (
      attempt (v.uid || v.gid) (chown ifd (owner_of v.uid s.uid) (owner_of v.gid s.gid)) (
        attempt v.size (truncate (target fi ifd) s.size) (
          attempt (v.atime || v.mtime)
            (utimens (target fi ifd) (time_of v.atime_now v.atime s.atime)
              (time_of v.mtime_now v.mtime s.mtime))
            ([], none))))

module _ (c : Conf) (h : OutHeader) where
  -- What fstatat gives is the answer.
  unfoldable pub answer_stat : Statted → Answer
  answer_stat (Statted.failed e) = (record h { error = minus e }, nothing)
  answer_stat (status st) = reply_attr c.sizes c.proto_minor h st c.timeout

  unfoldable pub getattr : ℕ → Statted → M Answer
  unfolding load answer_stat
  getattr ino got = ino_to_inodeptr c ino >>= λ (i : Option Place).
      deref c i λ (p : Place). do n ← load p; pure (answer_stat got)

  unfoldable pub answer_change : Made → Statted → Answer
  unfolding answer_stat
  answer_change (calls, some e) got = (record h { error = minus e }, nothing)
  answer_change (calls, none) got = answer_stat got

  -- With the calls that were made.
  unfoldable pub setattr :
      ℕ → Valid → Stat → (fi : Option ℕ) → (Call → Option ℕ) → Statted → M (List Call × Answer)
  unfolding load change answer_change
  setattr ino v st fi os got = ino_to_inodeptr c ino >>= λ (i : Option Place).
      deref c i λ (p : Place). do
        n ← load p
        let made = change os v st fi n.fd
        pure (made.0, answer_change made got)

  -- `res` is what renameat gives.
  unfoldable pub rename : ℕ → (newdir : ℕ) → (res : Option ℕ) → M Answer
  unfolding load
  rename parent newdir res = ino_to_inodeptr c parent >>= λ (i : Option Place).
      ino_to_inodeptr c newdir >>= λ (j : Option Place). elim i [
        | none ↦ fail_with c h (minus c.einval)
        | some p ↦ elim j [
          | none ↦ fail_with c h (minus c.einval)
          | some q ↦ do n ← load p; m ← load q; finish c h res
        ]
      ]

  -- `res` is what unlinkat with AT_REMOVEDIR gives.
  unfoldable pub rmdir : ℕ → (res : Option ℕ) → M Answer
  unfolding load
  rmdir parent res = ino_to_inodeptr c parent >>= λ (i : Option Place). elim i [
    | none ↦ fail_with c h (minus c.einval)
    | some p ↦ do n ← load p; finish c h res
  ]
