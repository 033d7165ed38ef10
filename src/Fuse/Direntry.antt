-- ===== src/Fuse/Direntry.antt =====
-- The entries of a directory (fuse_add_direntry and fuse_add_direntry_plus of dpfs_fuse/dpfs_fuse.cpp).
pub mod Added
use dpfs.Prelude.{ℕ, ◌+◌, ◌-◌, ◌/◌, ◌%◌, ◌^◌, List, ◌++◌, ltb, if◌then◌else◌, length, replicate}
use dpfs.Fuse.Iov.{Iov, Written, returned, iov_write_buf}
use dpfs.Fuse.Reply.{Stat, EntryParam, EntryOut, fill_entry}

-- What linux/fuse.h says: FUSE_NAME_OFFSET, FUSE_NAME_OFFSET_DIRENTPLUS, FUSE_DIRENT_ALIGN, and the bytes
-- of a struct fuse_dirent (`ino`, `off`, `namelen`, `type`) and of a struct fuse_entry_out.
pub record Layout : Type 0 where
  pub name_offset : ℕ
  pub name_offset_plus : ℕ
  pub align : ℕ → ℕ
  pub dirent : ℕ → ℕ → ℕ → ℕ → List ℕ
  pub entry_out : EntryOut → List ℕ

-- `(mode & S_IFMT) >> 12`.
abbrev pub type_of : ℕ → ℕ
type_of mode = mode % 2 ^ 16 / 2 ^ 12

module _ (lay : Layout) where
  -- What is in front of the name, the name, and zeros.
  abbrev pub padded_to : ℕ → List ℕ → List ℕ → ℕ → List ℕ
  padded_to size front name entlen = front ++ name ++ replicate (size - entlen) 0

  unfoldable pub add_direntry : Iov → (name : List ℕ) → Stat → (off : ℕ) → Written
  unfolding iov_write_buf
  add_direntry iov name st off =
      let entlen = lay.name_offset + length name in
      let size = lay.align entlen in
      let front = lay.dirent st.ino off (length name) (type_of st.mode) in
      if ltb iov.bytes_unused size
      then returned 0 iov
      else iov_write_buf iov (padded_to size front name entlen)

  unfoldable pub add_direntry_plus : Iov → (name : List ℕ) → EntryParam → (off : ℕ) → Written
  unfolding iov_write_buf fill_entry
  add_direntry_plus iov name e off =
      let entlen = lay.name_offset_plus + length name in
      let size = lay.align entlen in
      let front =
        lay.entry_out (fill_entry e)
        ++ lay.dirent e.attr.ino off (length name) (type_of e.attr.mode) in
      if ltb iov.bytes_unused size
      then returned 0 iov
      else iov_write_buf iov (padded_to size front name entlen)
