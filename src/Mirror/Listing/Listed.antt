-- ===== src/Mirror/Listing/Listed.antt =====
-- What is read of a directory keeps the inodes sound, with one reference for each entry in the buffer.
use mathlib.Core.Path.{subst}
use dpfs.Prelude.{
  ℕ, ◌+◌, ◌*◌, ◌^◌, ◌<◌, ◌≤◌, ◌≡◌, ◌≢◌, ◌⊎◌, inl, inr, refl, arith, Bool, true, false, Option, none,
  some, List, [], ◌∷◌, ◌==◌, Bool-cases, length, ◌∙◌, ap,
}
use dpfs.Fuse.Iov.{Iov, Written}
use dpfs.Fuse.Iov.Fits.{IsWriter}
use dpfs.Fuse.Direntry.{Layout}
use dpfs.Fuse.Direntry.Added.{IsLayout, Added, add_direntry-Added, add_direntry_plus-Added}
use dpfs.Fuse.Reply.{EntryParam, fill_entry}
use dpfs.Mirror.{
  Fuser, Conf, M, Result, done, fault, exits, hangs, bind, pure, ◌>>=◌, Looked, missed, found,
  Answers, do_lookup,
}
use dpfs.Mirror.Handlers.{zero_stat}
use dpfs.Mirror.Sound.{Client}
use dpfs.Mirror.Lookup.Held.{IsSound, Holds, gain}
use dpfs.Mirror.Lookup.Counted.{IsNew, Counted, do_lookup-Counted}
use dpfs.Mirror.Listing.{
  Dirent, Reader, Listing, stop, sub32, put_in, with_entry, is_dot_or_dotdot, add_plus, list_plus,
  add_plain, list_entry, read_entries,
}
use dpfs.Mirror.Requests.{gain_all, MayList, AllFresh}
use dpfs.Mirror.Served.{forget_gained}

-- After `w` bytes of the buffer: the writer is sound, and `rem` is what is left of the size.
pub record Room (size total w : ℕ) (r : Reader) : Type 0 where
  pub writer : IsWriter r.iov
  pub left : r.iov.bytes_unused + w ≡ total
  pub rem_is : r.rem ≡ sub32 size w

-- What the loop leaves when it begins after `w` bytes.
abbrev pub Listed : Conf → Client → ℕ → ℕ → ℕ → Type 0 → Result Listing → Type 0
Listed c cl size total w memory (done l s') =
    IsSound c (gain_all cl l.entries) s'
    × (memory → s'.locked ≡ false)
    × ((w' : ℕ) × Room size total w' l.reader × ((l.entries ≡ []) ⊎ (w < w')) × (w ≤ w'))
Listed c cl size total w memory fault = ⊥
Listed c cl size total w memory exits = ⊥
Listed c cl size total w memory hangs = ⊥

pub after_listing :
    {B : Type 0} (c : Conf) (cl : Client) (size total w : ℕ) (memory : Type 0)
    (P : Result B → Type 0) (k : Listing → M B) (r : Result Listing)
    → Listed c cl size total w memory r
    → ((l : Listing) (s' : Fuser) → Listed c cl size total w memory (done l s') → P (k l s'))
    → P (bind r k)
after_listing c cl size total w memory P k (done l s') h f = f l s' h
after_listing c cl size total w memory P k fault h f = absurd h
after_listing c cl size total w memory P k exits h f = absurd h
after_listing c cl size total w memory P k hangs h f = absurd h

-- A lookup that counts comes to an end.
looked :
    (c : Conf) (cl : Client) (a : Answers) (r : Result Looked)
    → Counted c cl a r
    → (l : Looked) × (s' : Fuser) × (r ≡ done l s') × Counted c cl a (done l s')
looked c cl a (done l s') h = (l, s', refl, h)
looked c cl a fault h = absurd h
looked c cl a exits h = absurd h
looked c cl a hangs h = absurd h

sub32-add : (size w n : ℕ) → sub32 (sub32 size w) n ≡ sub32 size (w + n)
sub32-add size w n = omega arith

Room-put :
    (size total w n : ℕ) (r : Reader) (iov : Iov)
    → Room size total w r
    → IsWriter iov
    → iov.bytes_unused + n ≡ r.iov.bytes_unused
    → Room size total (w + n) (put_in r n iov)
Room-put size total w n r iov room writer left =
    let e = room.left in
    let q = room.rem_is in
    record { writer = writer; left = omega (arith, left, e); rem_is = rw q (sub32-add size w n) }

-- There is room for something in front of each name.
some_front :
    (lay : Layout) → IsLayout lay → EntryParam → (n : ℕ) → 0 < lay.align (lay.name_offset_plus + n)
some_front lay laws e n =
    let p = laws.some_front in
    let q = laws.entry_size (fill_entry e) in
    let r = laws.more (lay.name_offset_plus + n) in omega (arith, p, q, r)

module _ (c : Conf) (lay : Layout) (laws : IsLayout lay) (size total : ℕ) where
  stop_lem :
      (cl : Client) (s : Fuser) (w : ℕ) (memory : Type 0) (err : Option ℕ) (r : Reader)
      → IsSound c cl s
      → (memory → s.locked ≡ false)
      → Room size total w r
      → Listed c cl size total w memory (stop err r s)
  stop_lem cl s w memory err r sound free room = (sound, free, (w, room, inl refl, omega arith))

  earlier :
      (cl : Client) (w w' : ℕ) (memory : Type 0) (x : Result Listing)
      → w ≤ w'
      → Listed c cl size total w' memory x
      → Listed c cl size total w memory x
  earlier cl w w' memory (done l s) le (sound, free, (v, room, inl empty, further)) =
      (sound, free, (v, room, inl empty, omega arith))
  earlier cl w w' memory (done l s) le (sound, free, (v, room, inr more, further)) =
      (sound, free, (v, room, inr (omega arith), omega arith))
  earlier cl w w' memory fault le h = h
  earlier cl w w' memory exits le h = h
  earlier cl w w' memory hangs le h = h

  add_plus-Listed :
      (cl : Client) (s : Fuser) (w n : ℕ) (memory : Type 0) (r : Reader) (e : EntryParam)
      (wr : Written) (rest : Reader → M Listing)
      → IsSound c (gain cl e.ino) s
      → s.locked ≡ false
      → Room size total w r
      → 0 < n
      → Added r.iov n wr
      → ((r' : Reader)
          → Room size total (w + n) r'
          → Listed c (gain cl e.ino) size total (w + n) memory (rest r' s))
      → Listed c cl size total w memory (add_plus c lay r e wr rest s)
  unfolding add_plus
  add_plus-Listed cl s w n memory r e wr rest sound free room pos (inl (full, none_written)) go =
      rw (none_written, add_plus)
        (forget_gained c cl e.ino s (Listed c cl size total w memory) (stop none r) sound free
          (λ s' sound' free'. stop_lem cl s' w memory none r sound' (λ m. free') room))
  add_plus-Listed cl s w n memory r e wr rest sound free room pos
        (inr (iov', written, writer, left)) go =
      let some_written : (n == 0) ≡ false = ground arith in
      rw (written, add_plus, some_written)
        (after_listing c (gain cl e.ino) size total (w + n) memory (Listed c cl size total w memory)
          (λ (l : Listing). pure (with_entry e.ino l)) (rest (put_in r n iov') s)
          (go (put_in r n iov') (Room-put size total w n r iov' room writer left))
          (λ l s' (sound', free', (w', room', some_entry, further)).
            (sound', free', (w', room', inr (omega arith), omega arith))))

  add_plain-Listed :
      (cl : Client) (s : Fuser) (w n : ℕ) (memory : Type 0) (r : Reader) (wr : Written)
      (rest : Reader → M Listing)
      → IsSound c cl s
      → s.locked ≡ false
      → Room size total w r
      → 0 < n
      → Added r.iov n wr
      → ((r' : Reader)
          → Room size total (w + n) r'
          → Listed c cl size total (w + n) memory (rest r' s))
      → Listed c cl size total w memory (add_plain c lay r wr rest s)
  unfolding add_plain
  add_plain-Listed cl s w n memory r wr rest sound free room pos (inl (full, none_written)) go =
      rw (none_written, add_plain) (stop_lem cl s w memory none r sound (λ m. free) room)
  add_plain-Listed cl s w n memory r wr rest sound free room pos (inr (iov', written, writer, left))
        go =
      let some_written : (n == 0) ≡ false = ground arith in
      rw (written, add_plain, some_written)
        (earlier cl w (w + n) memory (rest (put_in r n iov') s) (omega arith)
          (go (put_in r n iov') (Room-put size total w n r iov' room writer left)))

  module _ (parent : ℕ) where
    list_plus-Listed :
        (cl : Client) (s : Fuser) (w : ℕ) (memory : Type 0) (a : Answers) (r : Reader) (d : Dirent)
        (rest : Reader → M Listing) (l : Looked)
        → (memory → a.fresh ≢ none)
        → Counted c cl a (done l s)
        → ((e : EntryParam) → l ≡ found e → e.ino ≢ parent)
        → Room size total w r
        → ((e : EntryParam)
            → l ≡ found e
            → (v : ℕ) → (r' : Reader) → Room size total v r'
            → Listed c (gain cl e.ino) size total v memory (rest r' s))
        → Listed c cl size total w memory (list_plus c lay parent r d rest l s)
    unfolding list_plus
    list_plus-Listed cl s w memory a r d rest (missed e) enough counted other room go =
        stop_lem cl s w memory (some e) r counted.0 (λ m. counted.1 (enough m)) room
    list_plus-Listed cl s w memory a r d rest (found e) enough counted other room go =
        let elsewhere : (e.ino == parent) ≡ false = let ne = other e refl in ground (arith, ne) in
        rw (list_plus, elsewhere)
          (add_plus-Listed cl s w (lay.align (lay.name_offset_plus + length d.name)) memory r e _
            rest counted.0 counted.2 room (some_front lay laws e (length d.name))
            (add_direntry_plus-Added lay laws r.iov room.writer d.name e d.off)
            (λ r' room'. go e refl _ r' room'))

    -- What the loop reads on with: nothing has changed, or a lookup has found an entry.
    abbrev GoesOn :
        Client → Fuser → Answers → (plus : Bool) → Type 0 → (Reader → M Listing) → Type 0
    GoesOn cl s a plus memory rest =
        (plus ≡ true
          → (e : EntryParam) (s' : Fuser) (v : ℕ) (r : Reader)
          → do_lookup c parent a s ≡ done (found e) s'
          → IsSound c (gain cl e.ino) s'
          → s'.locked ≡ false
          → Room size total v r
          → Listed c (gain cl e.ino) size total v memory (rest r s'))
        × (plus ≡ false
            → (v : ℕ) (r : Reader) → Room size total v r
            → Listed c cl size total v memory (rest r s))

    keeps_held : (cl : Client) (a : ℕ) → Holds c cl parent → Holds c (gain cl a) parent
    keeps_held cl a (inl root) = inl root
    keeps_held cl a (inr some_refs) = inr (ground arith)

    list_entry-Listed :
        (plus : Bool) (cl : Client) (s : Fuser) (w : ℕ) (memory : Type 0) (a : Answers) (r : Reader)
        (d : Dirent) (rest : Reader → M Listing)
        → IsSound c cl s
        → s.locked ≡ false
        → Holds c cl parent
        → (plus ≡ true → IsNew c cl s a)
        → (plus ≡ true
            → (e : EntryParam) (s' : Fuser) → do_lookup c parent a s ≡ done (found e) s'
            → e.ino ≢ parent)
        → (memory → a.fresh ≢ none)
        → Room size total w r
        → GoesOn cl s a plus memory rest
        → Listed c cl size total w memory (list_entry c lay parent plus r d a rest s)
    unfolding list_entry
    list_entry-Listed true cl s w memory a r d rest sound free held new other enough room go =
        let (l, s', e, counted) =
          looked c cl a (do_lookup c parent a s)
            (do_lookup-Counted c cl s sound parent a held (new refl) free) in
        rw (list_entry, ◌>>=◌, e, bind)
          (list_plus-Listed cl s' w memory a r d rest l enough counted
            (λ p same. other refl p s' (e ∙ ap (λ l. done l s') same)) room
            (λ p same v r' room'.
              let counted' : Counted c cl a (done (found p) s') =
                subst (λ l. Counted c cl a (done l s')) same counted in
              go.0 refl p s' v r' (e ∙ ap (λ l. done l s') same) counted'.0 counted'.2 room'))
    list_entry-Listed false cl s w memory a r d rest sound free held new other enough room go =
        let pos = laws.some_front in
        let more = laws.more (lay.name_offset + length d.name) in
        add_plain-Listed cl s w _ memory r _ rest sound free room (omega (arith, pos, more))
          (add_direntry-Added lay laws r.iov room.writer d.name
            (record zero_stat { ino = d.ino; mode = d.type * 2 ^ 12 }) d.off)
          (λ r' room'. go.1 refl _ r' room')

    -- The loop reads on, whatever it has read.
    pub read_entries-Listed :
        (plus : Bool) (all : List (Dirent × Answers)) (last : Option ℕ) (cl : Client) (s : Fuser)
        (memory : Type 0) (w : ℕ) (r : Reader)
        → IsSound c cl s
        → s.locked ≡ false
        → Holds c cl parent
        → (plus ≡ true → MayList c parent cl s all)
        → (memory → AllFresh all)
        → Room size total w r
        → Listed c cl size total w memory (read_entries c lay parent plus all last r s)
    unfolding read_entries
    read_entries-Listed plus [] last cl s memory w r sound free held may enough room =
        stop_lem cl s w memory last r sound (λ m. free) room
    read_entries-Listed plus ((d, a) ∷ more) last cl s memory w r sound free held may enough room =
        let r1 : Reader = record r { offset = d.off } in
        let room1 : Room size total w r1 = record {
          writer = room.writer;
          left = room.left;
          rem_is = room.rem_is;
        } in
        elim (Bool-cases (is_dot_or_dotdot d.name)) [
          | inl dot ↦
              rw (read_entries, dot)
                (read_entries-Listed plus more last cl s memory w r1 sound free held
                  (λ p. (may p).0 dot) (λ m. (enough m).1) room1)
          | inr name ↦
              rw (read_entries, name)
                (list_entry-Listed plus cl s w memory a r1 d
                  (read_entries c lay parent plus more last) sound free held
                  (λ p. ((may p).1 name).0) (λ p e s' did. (((may p).1 name).1 e s' did).0)
                  (λ m. (enough m).0) room1
                  (
                    λ p e s' v r' did sound' free' room'.
                        read_entries-Listed plus more last (gain cl e.ino) s' memory v r' sound'
                          free' (keeps_held cl e.ino held) (λ p. (((may p).1 name).1 e s' did).1)
                          (λ m. (enough m).1) room',
                    λ p v r' room'.
                        read_entries-Listed plus more last cl s memory v r' sound free held
                          (λ q. cc) (λ m. (enough m).1) room',
                  ))
        ]
