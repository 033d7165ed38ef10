-- ===== src/Nfs/Tests/OpensTests.antt =====
-- A file that is open, and one that is open twice.
use dpfs.Prelude.{ℕ, ◌≡◌, refl, false, some, [], ◌∷◌, arith}
use dpfs.InodeTable.{table_init, table_insert, table_get, hash}
use dpfs.InodeTable.Laws.{IsTable, table_get-init}
use dpfs.InodeTable.Invariant.{init-IsTable, insert-IsTable}
use dpfs.Mpool.Tests.{queue}
use dpfs.Nfs.Inode.{Inode, InodeTable, zeroed_inode, fileid_of, inode_table_get}
use dpfs.Nfs.Opens.{opened_again, vopen-reopens}
use dpfs.Nfs.Requests.{vopen}
use dpfs.Nfs.Session.{SequenceArgs, Session, fresh_slot, claim, op_sequence, find_free}
use dpfs.Nfs.Handle.{fh_bytes}
use dpfs.Nfs.State.{sequence, putfh, open_nocreate, getfh, Request, Vnfs, add_len, next, opens}
use dpfs.Nfs.Tests.FlightTests.{accepting, lib, query}

-- The inode 4, open `n` times.
abbrev a_file : ℕ → Inode
a_file n = record (zeroed_inode 4) { nopen = n }

abbrev table : ℕ → InodeTable
table n = table_insert fileid_of (table_init 2) (a_file n) []

table-IsTable : (n : ℕ) → IsTable fileid_of (table n)
table-IsTable n =
    insert-IsTable fileid_of (table_init 2) (a_file n) (table_get-init fileid_of 2 4)
      (init-IsTable fileid_of 2 (omega arith))

abbrev state : ℕ → Vnfs queue
state n = record {
  session = record { sessionid = 5; ca_maxrequestsize = 65536; slots = fresh_slot ∷ [] };
  inodes = table n;
  pool = record { items = 10 ∷ 11 ∷ []; places = 3 };
  open_owner_counter = 6;
  clientid = 9;
  pending = [];
  completed = [];
}

finds_file : (n : ℕ) → inode_table_get (table n) 4 ≡ some (a_file n)
unfolding inode_table_get table_get table_insert table_init hash
finds_file n = refl

abbrev claimed : SequenceArgs × Session
claimed = claim fresh_slot 0 (state 1).session false 0

claims_first : op_sequence fresh_slot 0 (state 1).session false ≡ some claimed
unfolding op_sequence find_free
claims_first = refl

vopen-reopens_example :
    (s' : Vnfs queue) × (r : Request) × (vopen queue lib accepting (query 4) (state 1) ≡ next tt s')
    × (s'.pending ≡ r ∷ [])
    × (r.args
        ≡ sequence claimed.0 ∷ putfh (fh_bytes (a_file 1).fh) ∷ open_nocreate 9 6 ∷ getfh ∷ [])
    × (r.cb_data.kind ≡ opens 4 6)
    × (r.cb_data.hdr ≡ add_len (query 4).out 16)
    × (inode_table_get s'.inodes 4 ≡ some (opened_again (a_file 1)))
vopen-reopens_example =
    vopen-reopens queue lib accepting (query 4) (state 1) (a_file 1) 10 (11 ∷ []) claimed.0
      claimed.1 (table-IsTable 1) (finds_file 1) (omega arith) refl claims_first refl
