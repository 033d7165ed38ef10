-- ===== src/Nfs/Tests/SessionTests.antt =====
-- A session of three slots, and small transfers.
use dpfs.Prelude.{ℕ, ◌<◌, ◌≡◌, refl, true, false, some, List, [], ◌∷◌, arith, take}
use dpfs.Nfs.Session.{Session, fresh_slot, claim, op_sequence, find_free}
use dpfs.Nfs.Session.Slots.{Claimed, op_sequence-Claimed}
use dpfs.Nfs.Requests.{write_ops, pad_ops}
use dpfs.Nfs.Writes.{uninits, write_ops_over}
use dpfs.Nfs.Iovec.{copied, iovec_write_buf}
use dpfs.Nfs.Iovec.Copy.{spread, room, iovec_write_buf-copies}

-- The first slot is in use.
abbrev a_session : Session
a_session = record {
  sessionid = 5;
  ca_maxrequestsize = 65536;
  slots = record { seqid = 3; in_use = true } ∷ fresh_slot ∷ fresh_slot ∷ [];
}

claims_second :
    op_sequence fresh_slot 0 a_session false ≡ some (claim fresh_slot 0 a_session false 1)
unfolding op_sequence find_free
claims_second = refl

op_sequence-Claimed_example :
    Claimed a_session
      (claim fresh_slot 0 a_session false 1).0
      (claim fresh_slot 0 a_session false 1).1
op_sequence-Claimed_example =
    op_sequence-Claimed fresh_slot 0 a_session (claim fresh_slot 0 a_session false 1).1 false
      (claim fresh_slot 0 a_session false 1).0 claims_second

write_ops_over_example : 0 < uninits (pad_ops 2 (write_ops 1 100 30 0 0 (10 ∷ 20 ∷ [])))
write_ops_over_example = write_ops_over 1 100 30 (10 ∷ 20 ∷ []) (omega arith) (omega arith)

iovec_write_buf-copies_example :
    (ws : List (ℕ × List ℕ)) × (iovec_write_buf (2 ∷ 2 ∷ []) (7 ∷ 8 ∷ 9 ∷ []) ≡ some ws)
    × (ws ≡ spread 0 (2 ∷ 2 ∷ []) (7 ∷ 8 ∷ 9 ∷ []))
    × (copied ws ≡ take (room (2 ∷ 2 ∷ [])) (7 ∷ 8 ∷ 9 ∷ []))
iovec_write_buf-copies_example = iovec_write_buf-copies (2 ∷ 2 ∷ []) (7 ∷ 8 ∷ 9 ∷ [])
