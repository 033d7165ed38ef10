-- ===== src/Nfs/Tests/ConnectTests.antt =====
-- The handshakes of two connections, at a concrete server.
use dpfs.Prelude.{ℕ, ◌≡◌, ◌≢◌, ◌<◌, refl, true, none, some, List, [], ◌∷◌, ◌++◌, arith}
use dpfs.Mpool.Tests.{queue}
use dpfs.Nfs.Session.{fresh_slot}
use dpfs.Nfs.State.{Vnfs, crash}
use dpfs.Nfs.Requests.{statfs}
use dpfs.Nfs.Connect.Export.{export_names, slash}
use dpfs.Nfs.Connect.Export.Paths.{AreNames, export_names-join, export_names-double}
use dpfs.Nfs.Connect.Trunking.{ExchangeOk, check_clientid_trunking_allowed, trunking_iff}
use dpfs.Nfs.Connect.Results.{ResOp, nfs4_find_op, find_op_from}
use dpfs.Nfs.Connect.Booting.{Boot, BootWorld, went, exchanging, send, established}
use dpfs.Nfs.Connect.{init_connections, exchangeid, rpc_failed}
use dpfs.Nfs.Connect.Run.{Protocol, main_state, boot_callback, Boots, begun}
use dpfs.Nfs.Connect.Run.Steps.{IsBooting, state_at}
use dpfs.Nfs.Connect.Run.Invariant.{Boots-IsBooting}
use dpfs.Nfs.Connect.Run.Turns.{Server, IsOneServer, good_world, serve_all, first_request}
use dpfs.Nfs.Connect.Run.Finish.{good_server-up}
use dpfs.Nfs.Connect.Run.Failure.{failure-stuck}
use dpfs.Nfs.Connect.Run.Booted.{booted-statfs}
use dpfs.Nfs.Tests.FlightTests.{s0, accepting, query}

-- "/a/bc", and its two names.
abbrev path : List ℕ
path = slash ∷ 97 ∷ slash ∷ 98 ∷ 99 ∷ []

abbrev path_names : List (List ℕ)
path_names = (97 ∷ []) ∷ (98 ∷ 99 ∷ []) ∷ []

plain_names : AreNames path_names
plain_names = (
  (omega arith, ((λ e. omega arith), tt)),
  ((omega arith, ((λ e. omega arith), ((λ e. omega arith), tt))), tt),
)

export_names-join_example :
    (export_names path ≡ some path_names) × (export_names (path ++ slash ∷ []) ≡ some path_names)
export_names-join_example = export_names-join path_names plain_names

-- "/a/bc//a/bc"
export_names-double_example : export_names (path ++ slash ∷ path) ≡ none
export_names-double_example =
    export_names-double path_names path_names plain_names plain_names (omega arith)

abbrev exchange : ExchangeOk
exchange = record {
  eir_clientid = 77;
  eir_sequenceid = 1;
  so_major_id = 1 ∷ 2 ∷ [];
  so_minor_id = 0;
  eir_server_scope = 3 ∷ [];
}

-- The same server by another of its addresses.
trunking-iff_example :
    check_clientid_trunking_allowed exchange (record exchange { so_minor_id = 5 }) ≡ true
trunking-iff_example =
    (trunking_iff exchange (record exchange { so_minor_id = 5 })).0.1 (refl, refl, refl)

-- SEQUENCE, PUTROOTFH and GETFH with their numbers.
abbrev results : List ResOp
results =
    record { resop = 53; object = [] }
    ∷ record { resop = 24; object = [] }
    ∷ record { resop = 10; object = 8 ∷ 9 ∷ [] }
    ∷ []

finds_getfh : nfs4_find_op results 10 ≡ some 2
unfolding nfs4_find_op find_op_from
finds_getfh = refl

abbrev lib : Protocol
lib = record { fhsize = 128; op_getfh = 10; complete_already = 10054 }

-- Each connection reaches another of its addresses.
abbrev server : Server
server = record {
  exchange = λ k. record exchange { so_minor_id = k };
  session = λ k. record { csr_sessionid = 5; ca_maxrequests = 2; ca_maxrequestsize = 65536 };
  resarray = results;
}

abbrev world : BootWorld
world = good_world fresh_slot 0

abbrev begins : Boot
begins = init_connections world (main_state 2 path)

Boots-IsBooting_example : IsBooting begins
Boots-IsBooting_example =
    Boots-IsBooting lib 2 path begins (omega arith) (omega arith) (begun world)

same_server : IsOneServer server
same_server k =
    (trunking_iff (record exchange { so_minor_id = 0 }) (record exchange { so_minor_id = k })).0.1
      (refl, refl, refl)

good_server-up_example :
    (b : Boot) × (serve_all lib world server 6 begins ≡ went b)
    × (b.sent ≡ [])
    × (b.conn_cntr ≡ 2)
    × Boots lib (main_state 2 path) b
    × ((j : ℕ) → j < 2 → state_at b j ≡ established)
good_server-up_example =
    good_server-up lib fresh_slot 0 1 2 path server path_names same_server 1 (omega arith)
      (export_names-join path_names plain_names).0 refl finds_getfh

sends_first : begins.sent ≡ [] ++ first_request 0 ∷ []
unfolding init_connections exchangeid send main_state
sends_first = refl

failure-stuck_example :
    (boot_callback lib world exchanging rpc_failed (record begins { sent = [] })
      ≡ went (record begins { sent = [] }))
    × (0 ≡ begins.conn_cntr)
    × (begins.conn_cntr < begins.nthreads)
    × (state_at begins 0 ≢ established)
failure-stuck_example =
    failure-stuck lib 2 path world begins [] [] (first_request 0) rpc_failed (omega arith)
      (omega arith) (begun world) sends_first tt

-- Both connections up.
all_up :
    (b : Boot) × (serve_all lib world server 6 begins ≡ went b)
    × (b.sent ≡ [])
    × (b.conn_cntr ≡ 2)
    × Boots lib (main_state 2 path) b
    × ((j : ℕ) → j < 2 → state_at b j ≡ established)
all_up =
    good_server-up lib fresh_slot 0 1 2 path server path_names same_server 1 (omega arith)
      (export_names-join path_names plain_names).0 refl finds_getfh

-- A thread of the first session, with the table that the handshakes left.
abbrev thread : Vnfs queue
thread = record s0 { inodes = all_up.0.inodes }

booted-statfs_example : statfs queue accepting (query 1) thread ≢ crash
booted-statfs_example =
    booted-statfs queue lib 2 path all_up.0 accepting (query 1) thread (omega arith) (omega arith)
      all_up.4 (let c = all_up.3 in omega arith) refl
