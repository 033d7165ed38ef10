-- ===== src/Nfs/Flight/Held.antt =====
-- Who holds the chunks, the slots and the completion contexts of a polling thread of dpfs_nfs.
use dpfs.Prelude.{
  count, ℕ, ◌+◌, ◌<◌, ◌≤◌, ◌≡◌, ◌≢◌, sym, ◌∙◌, true, false, List, [], ◌∷◌, ◌++◌, map, arith,
  if◌then◌else◌, ◌==◌, length, length-set,
}
use dpfs.InodeTable.Laws.{IsTable}
use dpfs.Mpool.{RingOps}
use dpfs.Nfs.Inode.{fileid_of}
use dpfs.Nfs.Session.{Slot, set_in_use}
use dpfs.Nfs.Session.Slots.{in_use_at, in_use-set_in_use}
use dpfs.Nfs.State.{Request, Completion, Vnfs}

abbrev pub Without : ℕ → List ℕ → Type 0
Without i [] = Unit
Without i (j ∷ js) = (i ≢ j) × Without i js

-- Each of the slots is one of the session's and in use, and no two of them are the same.
abbrev pub IsHeld : List Slot → List ℕ → Type 0
IsHeld slots [] = Unit
IsHeld slots (i ∷ is) =
    (i < length slots) × (in_use_at slots i ≡ true) × Without i is × IsHeld slots is

abbrev pub chunk_of : Request → ℕ
chunk_of r = r.cb_data.chunk

abbrev pub slot_of : Request → ℕ
slot_of r = r.cb_data.slotid

abbrev pub ctx_of : Request → ℕ
ctx_of r = r.cb_data.ctx

abbrev pub completed_ctx : Completion → ℕ
completed_ctx c = c.ctx

-- The chunks that the pool begins with, and slots that are in use with no request to release them.
pub record Assets : Type 0 where
  pub chunks : List ℕ
  pub lost : List ℕ

-- The books of a thread. `all.chunks` are the chunks that the pool began with and `acc` the contexts of the
-- requests that were accepted. The code that runs holds `cs`, `is` and `xs`; the rest is with the
-- pool, with the pending requests, or completed.
pub record Books (ring : RingOps) (all : Assets) (acc cs is xs : List ℕ) (s : Vnfs ring)
    : Type 0 where
  pub inodes : IsTable fileid_of s.inodes
  pub chunks :
      (c : ℕ)
      → count c (ring.contents s.pool) + count c (cs ++ map chunk_of s.pending) ≡ count c all.chunks
  pub lengths :
      length (ring.contents s.pool) + length (cs ++ map chunk_of s.pending) ≡ length all.chunks
  pub room : length all.chunks ≤ ring.capacity s.pool
  pub slots : IsHeld s.session.slots (is ++ map slot_of s.pending ++ all.lost)
  pub contexts :
      (x : ℕ)
      → count x (map completed_ctx s.completed) + count x (xs ++ map ctx_of s.pending) ≡ count x acc

-- The books when no handler and no callback runs.
abbrev pub Settled : (ring : RingOps) (all : Assets) (acc : List ℕ) → Vnfs ring → Type 0
Settled ring all acc s = Books ring all acc [] [] [] s

-- A slot that is claimed, `i`, was free, so it is none of the held ones, which stay in use.
claimed-Without :
    (slots : List Slot) (i : ℕ) (is : List ℕ)
    → in_use_at slots i ≡ false
    → IsHeld slots is
    → Without i is
claimed-Without slots i [] free held = tt
claimed-Without slots i (j ∷ is) free (lt, used, new, held) =
    (λ e. absurd (true-ne-false (sym used ∙ rw (← e) free)), claimed-Without slots i is free held)
  where
    true-ne-false : true ≡ false → ⊥
    true-ne-false h = cc

kept-IsHeld :
    (slots slots' : List Slot) (is : List ℕ)
    → length slots' ≡ length slots
    → ((j : ℕ) → in_use_at slots j ≡ true → in_use_at slots' j ≡ true)
    → IsHeld slots is
    → IsHeld slots' is
kept-IsHeld slots slots' [] same keeps held = tt
kept-IsHeld slots slots' (i ∷ is) same keeps (lt, used, new, held) =
    (omega arith, keeps i used, new, kept-IsHeld slots slots' is same keeps held)

pub claimed-IsHeld :
    (slots slots' : List Slot) (i : ℕ) (is : List ℕ)
    → i < length slots
    → in_use_at slots i ≡ false
    → length slots' ≡ length slots
    → ((j : ℕ) → in_use_at slots' j ≡ (if i == j then true else in_use_at slots j))
    → IsHeld slots is
    → IsHeld slots' (i ∷ is)
claimed-IsHeld slots slots' i is lt free same claimed held = (
  omega arith,
  rw (claimed i) (ground arith),
  claimed-Without slots i is free held,
  kept-IsHeld slots slots' is same (λ j used. rw (claimed j) (ground arith)) held,
)

-- The flag of `i` is cleared; the others that are held stay so.
pub released-IsHeld :
    (slots : List Slot) (i : ℕ) (is : List ℕ)
    → i < length slots
    → Without i is
    → IsHeld slots is
    → IsHeld (set_in_use slots i false) is
released-IsHeld slots i [] lt new held = tt
released-IsHeld slots i (j ∷ is) lt (ne, new) (lt', used, new', held) = (
  rw (length-set slots i (record { seqid = _; in_use = false })) lt',
  rw (in_use-set_in_use slots i j false lt) (ground arith),
  new',
  released-IsHeld slots i is lt new held,
)

-- The order of the held slots does not matter: one of them moves to the front.
Without-middle :
    (i j : ℕ) (xs ys : List ℕ) → Without i (xs ++ j ∷ ys) → (i ≢ j) × Without i (xs ++ ys)
Without-middle i j [] ys w = w
Without-middle i j (x ∷ xs) ys (ne, w) =
    let (ne', w') = Without-middle i j xs ys w in (ne', (ne, w'))

pub front-IsHeld :
    (slots : List Slot) (i : ℕ) (xs ys : List ℕ)
    → IsHeld slots (xs ++ i ∷ ys)
    → IsHeld slots (i ∷ xs ++ ys)
front-IsHeld slots i [] ys held = held
front-IsHeld slots i (x ∷ xs) ys (lt, used, new, held) =
    let (lt', used', new', held') = front-IsHeld slots i xs ys held in
    let (ne, without) = Without-middle x i xs ys new in
    (lt', used', (λ e. ne (sym e), new'), (lt, used, without, held'))

with-middle : (i j : ℕ) (xs ys : List ℕ) → i ≢ j → Without i (xs ++ ys) → Without i (xs ++ j ∷ ys)
with-middle i j [] ys ne w = (ne, w)
with-middle i j (x ∷ xs) ys ne (ne', w) = (ne', with-middle i j xs ys ne w)

pub back-IsHeld :
    (slots : List Slot) (i : ℕ) (xs ys : List ℕ)
    → IsHeld slots (i ∷ xs ++ ys)
    → IsHeld slots (xs ++ i ∷ ys)
back-IsHeld slots i [] ys held = held
back-IsHeld slots i (x ∷ xs) ys (lt, used, (ne, new), (lt', used', new', held)) = (
  lt',
  used',
  with-middle x i xs ys (λ e. ne (sym e)) new',
  back-IsHeld slots i xs ys (lt, used, new, held),
)
