-- ===== src/Nfs/Connect.antt =====
-- The connections of dpfs_nfs to the server (dpfs_nfs/vnfs_connect.c): a handshake per polling thread,
-- one after the other, each a chain of requests whose callbacks send the next one. What the functions
-- return is left out, since no caller reads it but to call vnfs_destroy_connection. Memory for the
-- strings and slots is taken to be there, as the code does.
pub mod Args
pub mod Export
pub mod Trunking
pub mod Results
pub mod Booting
pub mod Run
use dpfs.Prelude.{
  ℕ, zero, suc, ◌+◌, Bool, true, false, ◌&&◌, ◌||◌, Option, none, some, List, [], ◌∷◌, ◌++◌, map,
  ltb, ◌==◌, if◌then◌else◌, length, get_or, set, replicate,
}
use dpfs.Nfs.Handle.{clone_fh}
use dpfs.Nfs.Inode.{InodeTable, inode_new, inode_table_insert}
use dpfs.Nfs.Session.{Slot, fresh_slot, Session, op_sequence, handle_sequence}
use dpfs.Nfs.State.{
  Headers, ArgOp, sequence, lookup_op, getfh, exchange_id, create_session, putrootfh,
  reclaim_complete,
}
use dpfs.Nfs.Requests.{fuse_root_id, incr32}
use dpfs.Nfs.Connect.Args.{nfs4_op_createsession, nfs4_op_exchangeid, default_verifier, client_name}
use dpfs.Nfs.Connect.Export.{export_names}
use dpfs.Nfs.Connect.Trunking.{ExchangeOk, check_clientid_trunking_allowed}
use dpfs.Nfs.Connect.Results.{ResOp, nfs4_find_op}
use dpfs.Nfs.Connect.Booting.{
  established, should_close, zeroed_conn, exchanging, creating, looking, reclaiming, Boot,
  BootWorld, Outcome, went, sleeps, fault, current, set_conn, set_session, destroy_connection, send,
}

-- `CREATE_SESSION4resok`, with two of the attributes of the fore channel.
pub record CreateOk : Type 0 where
  pub csr_sessionid : ℕ
  pub ca_maxrequests : ℕ
  pub ca_maxrequestsize : ℕ

unfoldable pub exchangeid : BootWorld → Boot → Boot
unfolding send
exchangeid w b =
    send w exchanging (exchange_id (nfs4_op_exchangeid default_verifier client_name) ∷ []) b

unfoldable pub init_connections : BootWorld → Boot → Boot
unfolding exchangeid
init_connections w b =
    let conn = zeroed_conn b.conn_cntr in
    if w.context
    then if w.mounted && w.started
      then exchangeid w (set_conn b (record conn { nfs = true; rpc = true }))
      else set_conn b (record conn { state = should_close; nfs = true })
    else set_conn b (record conn { state = should_close })

unfoldable pub conn_up : BootWorld → Boot → Boot
unfolding init_connections
conn_up w b =
    let up = set_conn b (record (current b) { state = established }) in
    let b' = record up { conn_cntr = incr32 b.conn_cntr } in
    if ltb b'.conn_cntr b'.nthreads then init_connections w b' else b'

-- The status of the call, or the status of the compound and what the callback reads of it.
pub data Reply (A : Type 0) : Type 0 where
  rpc_failed : Reply A
  replied : (status : ℕ) → A → Reply A

abbrev pub nfs4_ok : ℕ
nfs4_ok = 0

-- What every callback begins with. `ok` are the statuses that it goes on with.
unfoldable pub on_reply :
    {A : Type 0} → (ℕ → Bool) → Reply A → (A → Boot → Outcome) → Boot → Outcome
unfolding destroy_connection
on_reply ok rpc_failed handle b = went (destroy_connection should_close b)
on_reply ok (replied status a) handle b =
    if ok status then handle a b else went (destroy_connection should_close b)

abbrev pub is_ok : ℕ → Bool
is_ok status = status == nfs4_ok

unfoldable pub reclaim_complete_cb : (complete_already : ℕ) → BootWorld → Reply ℕ → Boot → Outcome
unfolding on_reply conn_up
reclaim_complete_cb complete_already w r =
    on_reply (λ status. is_ok status || (status == complete_already)) r
      λ sr_slotid b. elim (handle_sequence (current b).session sr_slotid) [
        | none ↦ fault
        | some session ↦ went (conn_up w (set_session b session))
      ]

unfoldable pub send_reclaim_complete : BootWorld → Boot → Outcome
unfolding send
send_reclaim_complete w b = elim (op_sequence w.past w.stale (current b).session false) [
  | none ↦ sleeps
  | some (args, session) ↦
      went (send w reclaiming (sequence args ∷ reclaim_complete false ∷ []) (set_session b session))
]

-- What the answer to the lookup holds: the slot and the results.
pub record RootResult : Type 0 where
  pub sr_slotid : ℕ
  pub resarray : List ResOp

-- The root's inode gets the handle, unless that is too long, which the code does not look at.
unfoldable pub enter_root : ℕ → BootWorld → List ℕ → Boot → Outcome
enter_root fhsize w object b = elim (inode_new w.alloc fuse_root_id) [
  | none ↦ fault
  | some rooti ↦ elim (clone_fh fhsize rooti.fh object) [
    | none ↦ went (record b { inodes = inode_table_insert b.inodes rooti [] })
    | some fh ↦
        went (record b { inodes = inode_table_insert b.inodes (record rooti { fh = fh }) [] })
  ]
]

abbrev pub and_then : Outcome → (Boot → Outcome) → Outcome
and_then (went b) f = f b
and_then sleeps f = sleeps
and_then fault f = fault

-- What the answer to the lookup is searched for.
unfoldable pub root_found : (fhsize op_getfh : ℕ) → BootWorld → RootResult → Boot → Outcome
unfolding enter_root send_reclaim_complete
root_found fhsize op_getfh w res b = elim (nfs4_find_op res.resarray op_getfh) [
  | none ↦ fault
  | some i ↦
      and_then
        (enter_root fhsize w (get_or res.resarray i (record { resop = 0; object = [] })).object b)
        (send_reclaim_complete w)
]

unfoldable pub lookup_true_rootfh_cb :
    (fhsize op_getfh : ℕ) → BootWorld → Reply RootResult → Boot → Outcome
unfolding on_reply root_found
lookup_true_rootfh_cb fhsize op_getfh w r = on_reply is_ok r λ res b.
    elim (handle_sequence (current b).session res.sr_slotid) [
      | none ↦ fault
      | some session ↦ root_found fhsize op_getfh w res (set_session b session)
    ]

unfoldable pub lookup_true_rootfh : BootWorld → Boot → Outcome
unfolding send
lookup_true_rootfh w b = elim (op_sequence w.past w.stale (current b).session false) [
  | none ↦ sleeps
  | some (args, session) ↦ elim (export_names b.export_path) [
    | none ↦ fault
    | some names ↦ went (
        send w looking (sequence args ∷ putrootfh ∷ map lookup_op names ++ getfh ∷ [])
          (set_session b session))
  ]
]

unfoldable pub create_session_cb : BootWorld → Reply CreateOk → Boot → Outcome
unfolding on_reply lookup_true_rootfh conn_up
create_session_cb w r = on_reply is_ok r λ res b.
    let session : Session = record {
      sessionid = res.csr_sessionid;
      ca_maxrequestsize = res.ca_maxrequestsize;
      slots = replicate res.ca_maxrequests fresh_slot;
    } in
    let b' = set_session b session in
    elim (b.conn_cntr == 0) [ true ↦ lookup_true_rootfh w b' | false ↦ went (conn_up w b') ]

unfoldable pub send_create_session : BootWorld → ℕ → ℕ → Boot → Boot
unfolding send
send_create_session w clientid seqid b =
    send w creating (create_session (nfs4_op_createsession clientid seqid) ∷ []) b

-- The zeroed struct of before the first exchange.
abbrev pub zeroed_exchange : ExchangeOk
zeroed_exchange = record {
  eir_clientid = 0;
  eir_sequenceid = 0;
  so_major_id = [];
  so_minor_id = 0;
  eir_server_scope = [];
}

abbrev pub first_exchange : Boot → ExchangeOk
first_exchange b = elim b.first_exchangeid [ none ↦ zeroed_exchange | some ok ↦ ok ]

unfoldable pub exchangeid_cb : BootWorld → Reply ExchangeOk → Boot → Outcome
unfolding on_reply send_create_session check_clientid_trunking_allowed destroy_connection
exchangeid_cb w r = on_reply is_ok r λ ok b.
    if b.conn_cntr == 0
    then went (
        send_create_session w ok.eir_clientid ok.eir_sequenceid
          (record b { first_exchangeid = some ok }))
    else if check_clientid_trunking_allowed (first_exchange b) ok
    then went (send_create_session w ok.eir_clientid ok.eir_sequenceid b)
    else went (destroy_connection should_close b)
