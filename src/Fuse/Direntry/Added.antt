-- ===== src/Fuse/Direntry/Added.antt =====
-- An entry of a directory is in the vectors as a whole or not at all.
use dpfs.Prelude.{
  ℕ, ◌+◌, ◌<◌, ◌≤◌, ◌≡◌, ◌⊎◌, inl, inr, refl, arith, List, ◌++◌, ltb, length, length-append,
  length-replicate, Bool-cases, if◌then◌else◌,
}
use dpfs.Fuse.Iov.{Iov, Written, returned, iov_write_buf}
use dpfs.Fuse.Iov.Fits.{IsWriter, iov_write_buf-IsWriter}
use dpfs.Fuse.Reply.{Stat, EntryParam, EntryOut, fill_entry}
use dpfs.Fuse.Direntry.{Layout, add_direntry, add_direntry_plus, padded_to, type_of}

-- What linux/fuse.h keeps: the offsets are the sizes in front of the name, and alignment adds.
pub record IsLayout (lay : Layout) : Type 0 where
  pub dirent_size : (ino off n t : ℕ) → length (lay.dirent ino off n t) ≡ lay.name_offset
  pub entry_size :
      (e : EntryOut) → length (lay.entry_out e) + lay.name_offset ≡ lay.name_offset_plus
  pub more : (n : ℕ) → n ≤ lay.align n
  pub some_front : 0 < lay.name_offset

-- Either there is no room for so many bytes, and nothing changes, or so many are written.
abbrev pub Added : Iov → ℕ → Written → Type 0
Added iov size w =
    ((iov.bytes_unused < size) × (w ≡ returned 0 iov))
    ⊎ ((iov' : Iov) × (w ≡ returned size iov')
        × IsWriter iov'
        × (iov'.bytes_unused + size ≡ iov.bytes_unused))

length-padded :
    (lay : Layout) (size : ℕ) (front name : List ℕ)
    → length front + length name ≤ size
    → length (padded_to lay size front name (length front + length name)) ≡ size
length-padded lay size front name fits =
    rw (length-append, length-append, length-replicate) (omega arith)

-- The test for room before the write.
write-Added :
    (iov : Iov) (buf : List ℕ) (size : ℕ)
    → IsWriter iov
    → length buf ≡ size
    → Added iov size
        (if◌then◌else◌ (ltb iov.bytes_unused size) (returned 0 iov) (iov_write_buf iov buf))
write-Added iov buf size h e = elim (Bool-cases (ltb iov.bytes_unused size)) [
  | inl full ↦ inl (ground arith, rw full refl)
  | inr fits ↦
      let (iov', ran, writer, left) = (iov_write_buf-IsWriter iov buf h).0 (ground arith) in
      inr (iov', rw (fits, ← e) ran, writer, omega (arith, left, e))
]

module _ (lay : Layout) (laws : IsLayout lay) (iov : Iov) (h : IsWriter iov) where
  pub add_direntry-Added :
      (name : List ℕ) (st : Stat) (off : ℕ)
      → Added iov (lay.align (lay.name_offset + length name)) (add_direntry lay iov name st off)
  unfolding add_direntry
  add_direntry-Added name st off =
      let front = lay.dirent st.ino off (length name) (type_of st.mode) in
      let size : length front ≡ lay.name_offset = laws.dirent_size _ _ _ _ in
      write-Added iov _ _ h (
        rw (← size)
          (length-padded lay _ front name (rw size (laws.more (lay.name_offset + length name)))))

  -- For a writer that is sound, and a layout as linux/fuse.h has it: an entry of a READDIRPLUS
  -- takes as many bytes as its
  -- name and what is in front of it, aligned, and leaves a sound writer with so much less room; when
  -- there is less room, it changes nothing and the result is 0.
  pub add_direntry_plus-Added :
      (name : List ℕ) (e : EntryParam) (off : ℕ)
      → Added iov
          (lay.align (lay.name_offset_plus + length name))
          (add_direntry_plus lay iov name e off)
  unfolding add_direntry_plus
  add_direntry_plus-Added name e off =
      let front : List ℕ =
        lay.entry_out (fill_entry e)
        ++ lay.dirent e.attr.ino off (length name) (type_of e.attr.mode) in
      let size : length front ≡ lay.name_offset_plus =
        rw (length-append, laws.dirent_size) (laws.entry_size _) in
      write-Added iov _ _ h (
        rw (← size) (
          length-padded lay _ front name
            (rw size (laws.more (lay.name_offset_plus + length name)))))
