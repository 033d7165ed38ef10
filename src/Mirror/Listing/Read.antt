-- ===== src/Mirror/Listing/Read.antt =====
-- A READDIR or READDIRPLUS is served.
use mathlib.Core.Path.{subst}
use dpfs.Prelude.{
  ℕ, ◌^◌, ◌<◌, ◌≡◌, ◌⊎◌, inl, inr, refl, arith, Bool, true, false, Option, some, List, [], ◌∷◌,
  ◌==◌, ==_iff, Bool-cases, Option-cases,
}
use dpfs.Fuse.Iov.{Iov}
use dpfs.Fuse.Iov.Fits.{IsWriter}
use dpfs.Fuse.Direntry.{Layout}
use dpfs.Fuse.Direntry.Added.{IsLayout}
use dpfs.Fuse.Reply.{OutHeader}
use dpfs.Mirror.{Fuser, Conf, done, bind, pure, ◌>>=◌, Place, in_fuser, at, Node, load, Answers}
use dpfs.Mirror.Sound.{Client}
use dpfs.Mirror.Lookup.Held.{IsSound, Holds, gain, held_there}
use dpfs.Mirror.Requests.{gain_all, MayList, AllFresh, Served}
use dpfs.Mirror.Served.{held-Leads}
use dpfs.Mirror.Listing.{Dirent, Listing, answer_listing, readdir}
use dpfs.Mirror.Listing.Listed.{Room, Listed, after_listing, read_entries-Listed}

gain_all-held : (all : List ℕ) (cl : Client) (a : ℕ) → 0 < cl.refs a → 0 < (gain_all cl all).refs a
gain_all-held [] cl a held = held
gain_all-held (b ∷ all) cl a held = gain_all-held all (gain cl b) a (ground arith)

module _ (c : Conf) (lay : Layout) (laws : IsLayout lay) (h : OutHeader) (cl : Client) where
  -- The kernel takes a reference for each entry in the buffer; an error is told with an empty buffer.
  answer_listing-Served :
      (size total : ℕ) (l : Listing) (s : Fuser) (memory : Type 0)
      → size < 2 ^ 32
      → total < 2 ^ 32
      → Listed c cl size total 0 memory (done l s)
      → Served c cl memory (done (answer_listing c lay h size l) s)
  unfolding answer_listing
  answer_listing-Served size total l s memory small few (sound, free, (w, room, entries, further)) =
      elim (Option-cases l.err) [
        | inl fine ↦ rw (answer_listing, fine, Served) (sound, free)
        | inr (e, err) ↦ elim (Bool-cases (l.reader.rem == size)) [
          | inr told ↦ rw (answer_listing, err, told, Served) (sound, free)
          | inl none_told ↦
              let same : l.reader.rem ≡ size = (==_iff l.reader.rem size).0 none_told in
              let rem_is = room.rem_is in
              let left = room.left in
              elim entries [
                | inr more ↦ absurd (omega (arith, same, rem_is, left, more))
                | inl empty ↦
                    rw (answer_listing, err, none_told, Served)
                      (subst (λ all. IsSound c (gain_all cl all) s) empty sound, free)
              ]
        ]
      ]

  module _ (s : Fuser) (sound : IsSound c cl s) (free : s.locked ≡ false) where
    -- The directory is there when the loop has ended.
    still_there :
        (ino : ℕ) (p : Place) (n : Node) (all : List ℕ) (s' : Fuser)
        → (p ≡ in_fuser) ⊎ ((p ≡ at ino) × (s.heap ino ≡ some n))
        → IsSound c (gain_all cl all) s'
        → (n' : Node) × (load p s' ≡ done n' s')
    unfolding load
    still_there ino p n all s' (inl e) sound' = (s'.root, rw e refl)
    still_there ino p n all s' (inr (e, there)) sound' =
        let count = (sound.node ino n there).count in
        let some_refs = (sound.node ino n there).held in
        let held = gain_all-held all cl ino (omega (arith, count, some_refs)) in
        let (n', there', _) = held_there c (gain_all cl all) s' sound' ino held in
        (n', rw (e, load, there') refl)

    -- A READDIR or READDIRPLUS of a directory that the kernel holds, where each lookup of an entry
    -- is given new descriptors and addresses and leads to an inode other than the directory itself,
    -- into a buffer of less than 2 ^ 32 bytes laid out as in linux/fuse.h, comes to an end and
    -- leaves sound inodes; but for the inode that forget_one reads and may unlock after it has
    -- freed it, when a READDIRPLUS has no room for a new entry, nothing is accessed through NULL or
    -- after it was freed; the kernel then holds one reference more for each entry of a READDIRPLUS
    -- that the answer has, none when the answer is an error, and none for an entry that found no
    -- room; if there was memory for every lookup, the mutex is free.
    pub readdir-Served :
        (ino : ℕ) (plus : Bool) (size off : ℕ) (iov : Iov) (all : List (Dirent × Answers))
        (last : Option ℕ)
        → Holds c cl ino
        → IsWriter iov
        → iov.bytes_unused < 2 ^ 32
        → size < 2 ^ 32
        → (plus ≡ true → MayList c ino cl s all)
        → Served c cl (AllFresh all) (readdir c lay h ino plus size off iov all last s)
    unfolding readdir
    readdir-Served ino plus size off iov all last held writer few small may =
        let (p, n, (leads, there, where_at)) = held-Leads c h cl s sound free ino held in
        let room : Room size iov.bytes_unused 0 (record { iov = iov; rem = size; offset = off }) =
          record { writer = writer; left = omega arith; rem_is = omega arith } in
        rw (leads, bind, there, bind)
          (after_listing c cl size iov.bytes_unused 0 (AllFresh all) (Served c cl (AllFresh all))
            (λ (l : Listing). load p >>= λ (n' : Node). pure (answer_listing c lay h size l)) _
            (read_entries-Listed c lay laws size iov.bytes_unused ino plus all last cl s
              (AllFresh all) 0 _ sound free held may (λ m. m) room)
            (λ l s' done_all.
              let (n', there') = still_there ino p n l.entries s' where_at done_all.0 in
              rw (there', bind)
                (answer_listing-Served size iov.bytes_unused l s' (AllFresh all) small few
                  done_all)))
