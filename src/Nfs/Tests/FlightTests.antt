-- ===== src/Nfs/Tests/FlightTests.antt =====
-- A thread that looks the attributes of one file up, and is asked for one that is not there.
use dpfs.Prelude.{
  count, ℕ, ◌==◌, false, if◌then◌else◌, ◌≡◌, refl, true, false, none, some, List, [], ◌∷◌, map,
  arith, take,
}
use dpfs.InodeTable.{table_init, table_insert, table_get, hash}
use dpfs.InodeTable.Laws.{table_get-init}
use dpfs.InodeTable.Invariant.{init-IsTable, insert-IsTable}
use dpfs.Mpool.{mpool_free, mpool_alloc}
use dpfs.Mpool.Tests.{queue}
use dpfs.Nfs.Inode.{zeroed_inode, fileid_of, inode_table_get}
use dpfs.Nfs.Session.{
  Session, SequenceArgs, fresh_slot, claim, op_sequence, find_free, release_slot,
}
use dpfs.Nfs.Session.Slots.{in_use_at}
use dpfs.Nfs.State.{
  Headers, Query, World, Vnfs, next, stop, Request, getattrs, alloc_cb, claim_slot, find_inode,
  submit, sequence, putfh, getattr_op, standard_attributes, fail_with, add_len, enoent, nothing,
  filled,
}
use dpfs.Nfs.Requests.{getattr}
use dpfs.Nfs.Callbacks.{returned, rpc_error, nfs_ok, vread_cb, complete}
use dpfs.Nfs.Iovec.{copied}
use dpfs.Nfs.Iovec.Copy.{spread, room}
use dpfs.Nfs.Answers.{failed, errno_of, failed_lem, callback-failed, vread_cb-fills}
use dpfs.Nfs.Flight.{Run, start, accepted, answered, refused, getattr_call, handle, callback}
use dpfs.Nfs.Flight.Held.{Settled, Without, slot_of, completed_ctx}
use dpfs.Nfs.Flight.Invariant.{IsInitial, complete_assets, initial-Settled, Run-Books, Run-quiet}
use dpfs.Nfs.Flight.Leak.{lose, given_up, gives_up, given_up-Settled, unknown-loses_slot, Run-lost}
use dpfs.Nfs.Tests.WireTests.{file_types}

abbrev pub lib : Headers
lib = record {
  types = file_types;
  nfs4err_mlink = 31;
  nfs4err_grace = 10013;
  nfs4err_nofilehandle = 10020;
  nfs4_fhsize = 128;
  attr_out = 104;
  compat_attr_out = 96;
  entry_out = 128;
  compat_entry_out = 120;
  statfs_out = 80;
  compat_statfs = 48;
  open_out = 16;
  write_out = 8;
}

abbrev pub s0 : Vnfs queue
s0 = record {
  session = record {
    sessionid = 5;
    ca_maxrequestsize = 65536;
    slots = fresh_slot ∷ fresh_slot ∷ [];
  };
  inodes = table_insert fileid_of (table_init 2) (zeroed_inode 1) [];
  pool = record { items = 10 ∷ 11 ∷ 12 ∷ []; places = 3 };
  open_owner_counter = 0;
  clientid = 9;
  pending = [];
  completed = [];
}

abbrev chunks : List ℕ
chunks = 10 ∷ 11 ∷ 12 ∷ []

s0-IsInitial : IsInitial queue chunks s0
s0-IsInitial = record {
  inodes =
      insert-IsTable fileid_of (table_init 2) (zeroed_inode 1) (table_get-init fileid_of 2 1)
        (init-IsTable fileid_of 2 (omega arith));
  filled = refl;
  room = omega arith;
  none_pending = refl;
  none_completed = refl;
}

abbrev pub accepting : World
accepting = record { past = fresh_slot; stale = 0; accepts = true; alloc = true }

-- A GETATTR for a node, with the context 7.
abbrev pub query : ℕ → Query
query nodeid = record {
  nodeid = nodeid;
  ctx = 7;
  proto_minor = 31;
  out = record { error = none; len = 16 };
}

-- The slot claimed for a request in `s0`, and the session after it.
abbrev claimed : SequenceArgs × Session
claimed = claim fresh_slot 0 s0.session false 0

claims_first : op_sequence fresh_slot 0 s0.session false ≡ some claimed
unfolding op_sequence find_free
claims_first = refl

abbrev request : Request
request = record {
  args = sequence claimed.0 ∷ putfh [] ∷ getattr_op standard_attributes ∷ [];
  cb_data = record {
    chunk = 10;
    ctx = 7;
    slotid = claimed.0.slotid;
    proto_minor = 31;
    hdr = (query 1).out;
    kind = getattrs;
  };
}

-- The state when a GETATTR for node 1 is on its way.
abbrev s1 : Vnfs queue
s1 = record s0 {
  session = claimed.1;
  pool = record { items = 11 ∷ 12 ∷ []; places = 3 };
  pending = request ∷ [];
}

asked : handle queue lib getattr_call accepting (query 1) s0 ≡ next tt s1
unfolding handle getattr alloc_cb claim_slot find_inode submit op_sequence find_free mpool_alloc
    inode_table_get table_get table_insert hash table_init
asked = refl

-- The state after the call has failed.
abbrev s2 : Vnfs queue
s2 =
    complete queue request.cb_data (fail_with (query 1).out (errno_of lib none)) nothing
      (record s1 { pending = []; session = release_slot s1.session 0 })

failed_call :
    callback queue lib accepting getattrs request.cb_data
      (failed getattrs none)
      (record s1 { pending = [] })
    ≡ returned s2
unfolding claim
failed_call =
    failed_lem queue lib accepting getattrs request.cb_data none (record s1 { pending = [] })

a-Run : Run queue lib s0 (7 ∷ []) s2
unfolding complete
a-Run =
    answered accepting [] [] request rpc_error
      (accepted getattr_call accepting (query 1) start asked) refl failed_call

Run-Books_example : Settled queue (complete_assets queue lib chunks) (7 ∷ []) s2
Run-Books_example = Run-Books queue lib chunks s0 (7 ∷ []) s2 s0-IsInitial a-Run

Run-quiet_example :
    ((c : ℕ) → count c (queue.contents s2.pool) ≡ count c chunks)
    × ((x : ℕ) → count x (map completed_ctx s2.completed) ≡ count x (7 ∷ []))
unfolding complete
Run-quiet_example = Run-quiet queue lib chunks s0 (7 ∷ []) s2 s0-IsInitial a-Run refl

abbrev busy : Vnfs queue
busy = record s1 { pool = record { items = 11 ∷ 12 ∷ []; places = 3 } }

callback-failed_example :
    (s' : Vnfs queue) × (callback queue lib accepting getattrs request.cb_data
        (failed getattrs (some 10013))
        busy
      ≡ returned s')
    × (s'.pool.items ≡ 11 ∷ 12 ∷ request.cb_data.chunk ∷ [])
    × ((j : ℕ)
        → in_use_at s'.session.slots j
          ≡ (if request.cb_data.slotid == j then false else in_use_at busy.session.slots j))
    × (s'.completed
        ≡ record {
          ctx = request.cb_data.ctx;
          hdr = record { error = some (errno_of lib (some 10013)); len = request.cb_data.hdr.len };
          out = nothing;
        }
          ∷ busy.completed)
    × (s'.inodes ≡ busy.inodes)
    × (s'.pending ≡ busy.pending)
unfolding claim
callback-failed_example =
    callback-failed queue lib accepting getattrs request.cb_data (some 10013) busy (omega arith)
      (omega arith)

vread_cb-fills_example :
    (ws : List (ℕ × List ℕ)) × (ws ≡ spread 0 (2 ∷ 4 ∷ []) (1 ∷ 2 ∷ 3 ∷ []))
    × (copied ws ≡ take (room (2 ∷ 4 ∷ [])) (1 ∷ 2 ∷ 3 ∷ []))
    × (vread_cb queue lib (2 ∷ 4 ∷ []) request.cb_data (nfs_ok (1 ∷ 2 ∷ 3 ∷ [])) s1
        ≡ returned (
            complete queue request.cb_data
              (add_len (query 1).out 3)
              (filled ws)
              (record s1 { session = release_slot s1.session 0 })))
unfolding claim
vread_cb-fills_example =
    vread_cb-fills queue lib (2 ∷ 4 ∷ []) request.cb_data (1 ∷ 2 ∷ 3 ∷ []) s1 (omega arith)

missing : inode_table_get s0.inodes 5 ≡ none
unfolding inode_table_get table_get table_insert table_init hash
missing = refl

s0-Settled : Settled queue (complete_assets queue lib chunks) [] s0
s0-Settled = initial-Settled queue lib chunks s0 s0-IsInitial

unknown-loses_slot_example :
    (s' : Vnfs queue) × (handle queue lib getattr_call accepting (query 5) s0
      ≡ stop (fail_with (query 5).out enoent) nothing s')
    × (s'.pending ≡ s0.pending)
    × Settled queue (lose claimed.0.slotid (complete_assets queue lib chunks)) [] s'
unknown-loses_slot_example =
    unknown-loses_slot queue lib (complete_assets queue lib chunks) [] getattr_call accepting
      (query 5) s0 10 (11 ∷ 12 ∷ []) claimed.0 claimed.1 refl s0-Settled missing refl claims_first

abbrev s3 : Vnfs queue
s3 = given_up queue s0 claimed.1 10

s3-Settled : Settled queue (lose claimed.0.slotid (complete_assets queue lib chunks)) [] s3
s3-Settled =
    given_up-Settled queue (complete_assets queue lib chunks) [] accepting (query 5) s0 10
      (11 ∷ 12 ∷ []) claimed.0 claimed.1 s0-Settled refl claims_first

-- The next request for that node gets the second slot.
abbrev claimed_next : SequenceArgs × Session
claimed_next = claim fresh_slot 0 s3.session false 1

claims_second : op_sequence fresh_slot 0 s3.session false ≡ some claimed_next
unfolding op_sequence find_free claim
claims_second = refl

chunks_left : queue.contents s3.pool ≡ 11 ∷ 12 ∷ 10 ∷ []
unfolding mpool_free mpool_alloc
chunks_left = refl

abbrev s4 : Vnfs queue
s4 = given_up queue s3 claimed_next.1 11

another-Run : Run queue lib s3 [] s4
another-Run =
    refused getattr_call accepting (query 5) (fail_with (query 5).out enoent) nothing start (
      gives_up queue lib getattr_call accepting (query 5) s3 11 (12 ∷ 10 ∷ []) claimed_next.0
        claimed_next.1 refl missing chunks_left claims_second)

Run-lost_example :
    (in_use_at s4.session.slots claimed.0.slotid ≡ true)
    × Without claimed.0.slotid (map slot_of s4.pending)
Run-lost_example =
    Run-lost queue lib (complete_assets queue lib chunks) claimed.0.slotid [] [] s3 s4 s3-Settled
      another-Run
