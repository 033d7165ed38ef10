-- ===== src/Nfs/Session.antt =====
-- The slots of an NFS 4.1 session (dpfs_nfs/dpfs_nfs.h, and vnfs4_op_sequence and
-- vnfs4_handle_sequence of dpfs_nfs/dpfs_nfs.c). `nslots` is the length of the slot array.
pub mod Slots
use dpfs.Prelude.{
  ℕ, zero, suc, ◌+◌, ◌-◌, ◌%◌, ◌^◌, Bool, true, false, Option, none, some, List, [], ◌∷◌,
  if◌then◌else◌, ltb, length, get_or, set,
}

pub record Slot : Type 0 where
  pub seqid : ℕ
  pub in_use : Bool

pub record Session : Type 0 where
  pub sessionid : ℕ
  pub ca_maxrequestsize : ℕ
  pub slots : List Slot

-- `calloc(nslots, sizeof(struct vnfs_slot))`.
abbrev pub fresh_slot : Slot
fresh_slot = record { seqid = 0; in_use = false }

pub record SequenceArgs : Type 0 where
  pub cachethis : Bool
  pub sessionid : ℕ
  pub slotid : ℕ
  pub highest_slotid : ℕ
  pub sequenceid : ℕ

-- The slot `i`; a read past the array gives whatever stands there.
abbrev pub slot_at : Slot → List Slot → ℕ → Slot
slot_at past slots i = get_or slots i past

-- The first loop: the lowest index from `i` on of a slot that is not in use.
unfoldable pub find_free : ℕ → List Slot → Option ℕ
find_free i [] = none
find_free i (s ∷ slots) = let rest = find_free (i + 1) slots in if s.in_use then rest else some i

-- The second loop, from `i = nslots` down to 0. It does not stop at a slot in use, and its first
-- round reads one slot past the array, which is `past`.
unfoldable pub highest_loop : (past : Slot) (slots : List Slot) (rounds : ℕ) (highest : ℕ) → ℕ
highest_loop past slots zero highest = highest
highest_loop past slots (suc i) highest =
    highest_loop past slots i (if (slot_at past slots i).in_use then i else highest)

abbrev pub set_in_use : List Slot → ℕ → Bool → List Slot
set_in_use slots i b =
    set slots i (record { seqid = (get_or slots i fresh_slot).seqid; in_use = b })

-- `++slot->seqid`, in 32 bits.
abbrev pub bump_seqid : List Slot → ℕ → List Slot
bump_seqid slots i = set slots i (record {
  seqid = ((get_or slots i fresh_slot).seqid + 1) % 2 ^ 32;
  in_use = (get_or slots i fresh_slot).in_use;
})

-- Slot `i` is claimed, and the arguments are filled in. `stale` is what sa_highest_slotid holds
-- before.
unfoldable pub claim : (past : Slot) (stale : ℕ) → Session → Bool → ℕ → SequenceArgs × Session
unfolding highest_loop
claim past stale session cachethis i =
    let slots = set_in_use session.slots i true in
    let slots' = bump_seqid slots i in
    (
      record {
        cachethis = cachethis;
        sessionid = session.sessionid;
        slotid = i;
        highest_slotid = highest_loop past slots (suc (length slots)) stale;
        sequenceid = (get_or slots' i fresh_slot).seqid;
      },
      record session { slots = slots' },
    )

-- One pass of `while (true)`: `none` when all slots are in use, where the poller sleeps and scans
-- again.
unfoldable pub op_sequence :
    (past : Slot) (stale : ℕ) → Session → Bool → Option (SequenceArgs × Session)
op_sequence past stale session cachethis = elim (find_free 0 session.slots) [
  | none ↦ none
  | some i ↦ some (claim past stale session cachethis i)
]

-- `conn->session.slots[slotid].in_use = false;`
unfoldable pub release_slot : Session → ℕ → Session
release_slot session slotid = record session { slots = set_in_use session.slots slotid false }

-- The slot is the one that the server's reply names, which is not tested: `none` is a write past the
-- array.
unfoldable pub handle_sequence : Session → ℕ → Option Session
unfolding release_slot
handle_sequence session sr_slotid =
    if ltb sr_slotid (length session.slots) then some (release_slot session sr_slotid) else none
