-- ===== src/Mirror/Attributes/Setattr.antt =====
-- setattr makes the changes that are asked for, up to the first that fails.
use dpfs.Prelude.{
  ℕ, ◌+◌, ◌%◌, ◌^◌, ltb, if◌then◌else◌, ◌≡◌, ◌⊎◌, Bool, true, false, ◌||◌, Option, none, some, List,
  [], ◌∷◌, ◌++◌,
}
use dpfs.Fuse.Reply.{nothing, minus, attr, convert_stat, OutHeader, Stat}
use dpfs.Mirror.{Conf, Fd, Statted, status}
use dpfs.Mirror.Handlers.{Answer}
use dpfs.Mirror.Attributes.{
  Valid, Call, chmod, chown, truncate, utimens, target, time_of, owner_of, Made,
}

abbrev chosen : List (Bool × Call) → List Call
chosen [] = []
chosen ((true, call) ∷ rest) = call ∷ chosen rest
chosen ((false, call) ∷ rest) = chosen rest

-- The changes that `valid` asks for, in their order.
abbrev pub wanted : Valid → Stat → (fi : Option ℕ) → Fd → List Call
wanted v s fi ifd = chosen (
    (v.mode, chmod (target fi ifd) s.mode)
    ∷ (v.uid || v.gid, chown ifd (owner_of v.uid s.uid) (owner_of v.gid s.gid))
    ∷ (v.size, truncate (target fi ifd) s.size)
    ∷ (
      v.atime || v.mtime,
      utimens (target fi ifd) (time_of v.atime_now v.atime s.atime)
          (time_of v.mtime_now v.mtime s.mtime),
    )
    ∷ [])

-- No call fails.
abbrev pub AllDone : (Call → Option ℕ) → List Call → Type 0
AllDone os [] = Unit
AllDone os (call ∷ rest) = (os call ≡ none) × AllDone os rest

-- Either all calls are made and succeed, or those up to the first that fails.
abbrev pub UpToFailure : (Call → Option ℕ) → List Call → Made → Type 0
UpToFailure os all made =
    ((made ≡ (all, none)) × AllDone os all)
    ⊎ ((before : List Call) × (call : Call) × (after : List Call) × (e : ℕ) × (all
          ≡ before ++ call ∷ after)
        × (made ≡ (before ++ call ∷ [], some e))
        × AllDone os before
        × (os call ≡ some e))

-- What the kernel is told of the file: its attributes as convert_stat has them, in an answer that is longer
-- by the size of struct fuse_attr_out, or by the smaller one of before version 7.9.
abbrev pub Told : Conf → OutHeader → Statted → Answer → Type 0
Told c h (Statted.failed e) a = a ≡ (record { error = minus e; len = h.len }, nothing)
Told c h (status st) a =
    ((a.0).error ≡ h.error)
    × ((a.0).len
        ≡ (h.len + (if ltb c.proto_minor 9 then c.sizes.compat_attr_out else c.sizes.attr_out))
          % 2 ^ 32)
    × (a.1 ≡ attr c.timeout (convert_stat st))

-- Either all that was wanted is done and the answer is what fstatat says, or the calls end with the first
-- that fails and its error is the answer.
abbrev pub Ended :
    Conf → OutHeader → (Call → Option ℕ) → Statted → (all calls : List Call) → Answer → Type 0
Ended c h os got all calls a =
    ((calls ≡ all) × AllDone os all × Told c h got a)
    ⊎ ((before : List Call) × (call : Call) × (after : List Call) × (e : ℕ) × (all
          ≡ before ++ call ∷ after)
        × (calls ≡ before ++ call ∷ [])
        × AllDone os before
        × (os call ≡ some e)
        × (a ≡ (record { error = minus e; len = h.len }, nothing)))
