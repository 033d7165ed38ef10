-- ===== src/Nfs/Flight/Invariant.antt =====
-- What holds in every state that a polling thread of dpfs_nfs gets to.
use dpfs.Prelude.{
  count, ℕ, suc, ◌+◌, ◌≤◌, ◌≡◌, refl, ap, sym, ◌∙◌, List, [], ◌∷◌, ◌++◌, map, arith, length,
}
use mathlib.Core.List.{append_assoc, append-nil}
use dpfs.InodeTable.Laws.{IsTable}
use dpfs.Mpool.{RingOps}
use dpfs.Nfs.Inode.{fileid_of}
use dpfs.Nfs.State.{Headers, Vnfs, Request}
use dpfs.Nfs.Flight.{Run, start, accepted, refused, answered}
use dpfs.Nfs.Flight.Held.{
  Assets, Books, Settled, front-IsHeld, chunk_of, slot_of, ctx_of, completed_ctx,
}
use dpfs.Nfs.Flight.Handled.{handle-Keeps}
use dpfs.Nfs.Flight.Triples.{After}
use dpfs.Nfs.Flight.Answered.{callback-Settled, Returns}

-- The state that `dpfs_nfs_main` hands to the thread: the pool holds `chunks`, and nothing is on its
-- way.
pub record IsInitial (ring : RingOps) (chunks : List ℕ) (s : Vnfs ring) : Type 0 where
  pub inodes : IsTable fileid_of s.inodes
  pub filled : ring.contents s.pool ≡ chunks
  pub room : length chunks ≤ ring.capacity s.pool
  pub none_pending : s.pending ≡ []
  pub none_completed : s.completed ≡ []

map-append : {A : Type 0} (f : A → ℕ) (xs ys : List A) → map f (xs ++ ys) ≡ map f xs ++ map f ys
map-append f [] ys = refl
map-append f (x ∷ xs) ys = ap (λ r. f x ∷ r) (map-append f xs ys)

count-middle : (x y : ℕ) (xs ys : List ℕ) → count x (xs ++ y ∷ ys) ≡ count x (y ∷ xs ++ ys)
count-middle x y [] ys = refl
count-middle x y (z ∷ xs) ys = ground (arith, count-middle x y xs ys)

length-middle : (y : ℕ) (xs ys : List ℕ) → length (xs ++ y ∷ ys) ≡ length (y ∷ xs ++ ys)
length-middle y [] ys = refl
length-middle y (x ∷ xs) ys = ap suc (length-middle y xs ys)

-- What the pending requests hold, with one of them taken out to the front.
count-taken :
    (x : ℕ) (f : Request → ℕ) (before after pending : List Request) (r : Request)
    → pending ≡ before ++ r ∷ after
    → count x (f r ∷ map f (before ++ after)) ≡ count x (map f pending)
count-taken x f before after pending r e =
    rw (e, map-append f before after, map-append f before (r ∷ after))
      (sym (count-middle x (f r) (map f before) (map f after)))

length-taken :
    (f : Request → ℕ) (before after pending : List Request) (r : Request)
    → pending ≡ before ++ r ∷ after
    → length (f r ∷ map f (before ++ after)) ≡ length (map f pending)
length-taken f before after pending r e =
    rw (e, map-append f before after, map-append f before (r ∷ after))
      (sym (length-middle (f r) (map f before) (map f after)))

module _ (ring : RingOps) (lib : Headers) (all : Assets) where
  -- The request that is answered leaves the queue, and its callback holds what was its.
  taken :
      (acc : List ℕ) (before after : List Request) (r : Request) (s : Vnfs ring)
      → s.pending ≡ before ++ r ∷ after
      → Settled ring all acc s
      → Books ring all acc
          (chunk_of r ∷ [])
          (slot_of r ∷ [])
          (ctx_of r ∷ [])
          (record s { pending = before ++ after })
  taken acc before after r s e b = record {
    inodes = b.inodes;
    chunks = λ c.
        ap (λ n. count c (ring.contents s.pool) + n)
          (count-taken c chunk_of before after s.pending r e)
        ∙ b.chunks c;
    lengths =
        ap (λ n. length (ring.contents s.pool) + n)
          (length-taken chunk_of before after s.pending r e)
        ∙ b.lengths;
    room = b.room;
    slots = rw (map-append slot_of before after) (
        rw (append_assoc) (
          front-IsHeld s.session.slots (slot_of r) (map slot_of before)
            (map slot_of after ++ all.lost)
            (rw (e, map-append slot_of before (r ∷ after), append_assoc) at b.slots)));
    contexts = λ x.
        ap (λ n. count x (map completed_ctx s.completed) + n)
          (count-taken x ctx_of before after s.pending r e)
        ∙ b.contexts x;
  }

  -- Steps from settled books lead to settled books, with the same assets, and with the contexts of the
  -- requests that were accepted on the way.
  pub Run-Settled :
      (s0 : Vnfs ring) (acc0 acc : List ℕ) (s : Vnfs ring)
      → Settled ring all acc0 s0
      → Run ring lib s0 acc s
      → Settled ring all (acc ++ acc0) s
  Run-Settled s0 acc0 acc s b start = b
  Run-Settled s0 acc0 acc s b (accepted {acc = acc'} {s = t} c w q run e) =
      rw (e, After) at
        ((handle-Keeps ring all (acc' ++ acc0) lib c w q).run t (Run-Settled s0 acc0 acc' t b run))
  Run-Settled s0 acc0 acc s b (refused {acc = acc'} {s = t} c w q hdr out run e) =
      rw (e, After) at
        ((handle-Keeps ring all (acc' ++ acc0) lib c w q).run t (Run-Settled s0 acc0 acc' t b run))
  Run-Settled s0 acc0 acc s b (answered {acc = acc'} {s = t} w before after r reply run p e) =
      rw (e, Returns) at
        (callback-Settled ring all (acc' ++ acc0) lib w r.cb_data.kind r.cb_data reply _
          (taken (acc' ++ acc0) before after r t p (Run-Settled s0 acc0 acc' t b run)))

module _ (ring : RingOps) (lib : Headers) (chunks : List ℕ) where
  abbrev pub complete_assets : Assets
  complete_assets = record { chunks = chunks; lost = [] }

  pub initial-Settled :
      (s : Vnfs ring) → IsInitial ring chunks s → Settled ring complete_assets [] s
  initial-Settled s i = record {
    inodes = i.inodes;
    chunks = λ c. rw (i.none_pending, i.filled) (omega arith);
    lengths = rw (i.none_pending, i.filled) (omega arith);
    room = i.room;
    slots = rw i.none_pending tt;
    contexts = λ x. rw (i.none_pending, i.none_completed) (omega arith);
  }

  -- In every state that is reached from an initial one, the inode table is well formed; each chunk is
  -- in the pool or with a pending request, as often as it was in the pool at first; the slots of
  -- the pending requests are in use and all different; and the requests that were accepted are the
  -- pending and the completed ones, each as often as it was accepted.
  pub Run-Books :
      (s0 : Vnfs ring) (acc : List ℕ) (s : Vnfs ring)
      → IsInitial ring chunks s0
      → Run ring lib s0 acc s
      → Settled ring complete_assets acc s
  Run-Books s0 acc s i run =
      rw append-nil at (Run-Settled ring lib complete_assets s0 [] acc s (initial-Settled s0 i) run)

  -- In a state that is reached from an initial one and in which no request is pending, the pool
  -- holds each chunk as often as at first, and each request was completed as often as it was
  -- accepted.
  pub Run-quiet :
      (s0 : Vnfs ring) (acc : List ℕ) (s : Vnfs ring)
      → IsInitial ring chunks s0
      → Run ring lib s0 acc s
      → s.pending ≡ []
      → ((c : ℕ) → count c (ring.contents s.pool) ≡ count c chunks)
        × ((x : ℕ) → count x (map completed_ctx s.completed) ≡ count x acc)
  Run-quiet s0 acc s i run e =
      let b = Run-Books s0 acc s i run in
      (
        λ c. let h = (rw e at (b.chunks c)) in omega arith,
        λ x. let h = (rw e at (b.contexts x)) in omega arith,
      )
