-- ===== src/Mirror/Listing.antt =====
-- A directory is read (fuser_mirror_readdir of mirror_impl.c). What readdir returns after the seek is an
-- argument: its entries, each with what a lookup of it gets, and then the end or an error.
pub mod Listed
pub mod Read
use dpfs.Prelude.{
  ℕ, ◌+◌, ◌-◌, ◌*◌, ◌%◌, ◌^◌, Bool, true, false, ◌&&◌, Option, none, some, List, [], ◌∷◌, ◌==◌,
  if◌then◌else◌,
}
use dpfs.Fuse.Iov.{Iov, Written, returned, failed}
use dpfs.Fuse.Direntry.{Layout, add_direntry, add_direntry_plus}
use dpfs.Fuse.Reply.{OutHeader, EntryParam, Payload, nothing, listed, minus}
use dpfs.Mirror.{
  Fuser, Conf, M, Result, fault, hangs, Node, pure, ◌>>=◌, ◌>>◌, Place, load, deref,
  ino_to_inodeptr, do_lookup, forget_one, Looked, missed, found, Answers,
}
use dpfs.Mirror.Handlers.{Answer, zero_stat}

-- struct dirent, whose name is its bytes.
pub record Dirent : Type 0 where
  pub ino : ℕ
  pub off : ℕ
  pub type : ℕ
  pub name : List ℕ

-- `.` is 46.
unfoldable pub is_dot_or_dotdot : List ℕ → Bool
is_dot_or_dotdot (x ∷ []) = x == 46
is_dot_or_dotdot (x ∷ y ∷ []) = (x == 46) && (y == 46)
is_dot_or_dotdot _ = false

-- `read_iov` and `rem`, and the `offset` of the directory.
pub record Reader : Type 0 where
  pub iov : Iov
  pub rem : ℕ
  pub offset : ℕ

-- Where the loop ends: with `err`, and the inodes that the entries in the buffer name.
pub record Listing : Type 0 where
  pub reader : Reader
  pub err : Option ℕ
  pub entries : List ℕ

abbrev pub stop : Option ℕ → Reader → M Listing
stop err r = pure (record { reader = r; err = err; entries = [] })

-- `a - b`, in 32 bits.
abbrev pub sub32 : ℕ → ℕ → ℕ
sub32 a b = (a + 2 ^ 32 - b % 2 ^ 32) % 2 ^ 32

abbrev pub put_in : Reader → ℕ → Iov → Reader
put_in r written iov = record { iov = iov; rem = sub32 r.rem written; offset = r.offset }

abbrev pub with_entry : ℕ → Listing → Listing
with_entry a l = record l { entries = a ∷ l.entries }

module _ (c : Conf) (lay : Layout) where
  -- After the write: without room for it, the reference of the lookup is given back.
  unfoldable pub add_plus : Reader → EntryParam → Written → (Reader → M Listing) → M Listing
  add_plus r e failed rest = λ s. fault
  add_plus r e (returned n iov) rest = elim (n == 0) [
    | true ↦ forget_one c e.ino 1 >> stop none r
    | false ↦ rest (put_in r n iov) >>= λ (l : Listing). pure (with_entry e.ino l)
  ]

  -- The mutex of the directory itself is held, and the lookup takes that of the inode it finds: for an
  -- entry that leads to the directory it waits for ever.
  unfoldable pub list_plus :
      (parent : ℕ) → Reader → Dirent → (Reader → M Listing) → Looked → M Listing
  unfolding add_plus
  list_plus parent r d rest (missed e) = stop (some e) r
  list_plus parent r d rest (found e) = elim (e.ino == parent) [
    | true ↦ λ s. hangs
    | false ↦ add_plus r e (add_direntry_plus lay r.iov d.name e d.off) rest
  ]

  unfoldable pub add_plain : Reader → Written → (Reader → M Listing) → M Listing
  add_plain r failed rest = λ s. fault
  add_plain r (returned n iov) rest = elim (n == 0) [
    | true ↦ stop none r
    | false ↦ rest (put_in r n iov)
  ]

  module _ (parent : ℕ) where
    -- An entry that is not passed over.
    unfoldable pub list_entry :
        (plus : Bool) → Reader → Dirent → Answers → (Reader → M Listing) → M Listing
    unfolding list_plus add_plain
    list_entry true r d a rest = do_lookup c parent a >>= list_plus parent r d rest
    list_entry false r d a rest =
        let st = record zero_stat { ino = d.ino; mode = d.type * 2 ^ 12 } in
        add_plain r (add_direntry lay r.iov d.name st d.off) rest

    -- The loop.
    unfoldable pub read_entries :
        (plus : Bool) → List (Dirent × Answers) → (last : Option ℕ) → Reader → M Listing
    unfolding is_dot_or_dotdot list_entry
    read_entries plus [] last r = stop last r
    read_entries plus ((d, a) ∷ more) last r =
        let r' : Reader = record r { offset = d.off } in
        elim (is_dot_or_dotdot d.name) [
          | true ↦ read_entries plus more last r'
          | false ↦ list_entry plus r' d a (read_entries plus more last)
        ]

  -- What follows the loop; an error is told only if nothing is in the buffer.
  unfoldable pub answer_listing : OutHeader → (size : ℕ) → Listing → Answer
  answer_listing h size l =
      let told = record h { len = (h.len + sub32 size l.reader.rem) % 2 ^ 32 } in
      elim l.err [
        | none ↦ (told, listed l.reader.iov l.entries)
        | some e ↦
            if l.reader.rem == size
            then (record h { error = minus e }, nothing)
            else (told, listed l.reader.iov l.entries)
      ]

  unfoldable pub readdir :
      OutHeader
      → (ino : ℕ) (plus : Bool) (size off : ℕ) → Iov
      → List (Dirent × Answers)
      → (last : Option ℕ) → M Answer
  unfolding load read_entries answer_listing
  readdir h ino plus size off iov all last = ino_to_inodeptr c ino >>= λ (i : Option Place).
      deref c i λ (p : Place). do
        n ← load p
        l ← read_entries ino plus all last (record { iov = iov; rem = size; offset = off })
        n' ← load p
        pure (answer_listing h size l)
