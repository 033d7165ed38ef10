-- ===== src/Nfs/Connect/Run/First.antt =====
-- The four answers of the first handshake.
use dpfs.Prelude.{
  ℕ, suc, ◌≡◌, inl, inr, Bool, true, false, Option, some, List, [], ◌∷◌, ◌++◌, get_or, Option-cases,
  map, replicate, ltb, lt→ltb, length, arith,
}
use dpfs.Nfs.Session.{
  Slot, Session, op_sequence, find_free, claim, handle_sequence, release_slot, fresh_slot,
}
use dpfs.Nfs.Inode.{inode_new}
use dpfs.Nfs.Handle.{no_fh, clone_fh}
use dpfs.Nfs.State.{sequence, putrootfh, lookup_op, getfh}
use dpfs.Nfs.Requests.{fuse_root_id}
use dpfs.Nfs.Connect.Export.{export_names}
use dpfs.Nfs.Connect.Trunking.{ExchangeOk}
use dpfs.Nfs.Connect.Results.{nfs4_find_op}
use dpfs.Nfs.Connect.Booting.{unready, looking, Sent, Boot, went, zeroed_conn, send}
use dpfs.Nfs.Connect.{
  CreateOk, init_connections, exchangeid, conn_up, exchangeid_cb, create_session_cb,
  lookup_true_rootfh_cb, reclaim_complete_cb, on_reply, enter_root, root_found,
  send_reclaim_complete, lookup_true_rootfh, send_create_session,
}
use dpfs.Nfs.Connect.Run.{Protocol, boot_callback, main_state}
use dpfs.Nfs.Inode.{InodeTable, inode_table_size, inode_table_insert, zeroed_inode}
use dpfs.InodeTable.{table_init}
use dpfs.Nfs.Connect.Run.Turns.{Server, good_world, serve_all}

-- The first handshake, on a connection with this session.
module _ (n : ℕ) (path : List ℕ) where
  abbrev pub during : Session → List Sent → Option ExchangeOk → InodeTable → Boot
  during session sent first inodes = record {
    nthreads = suc n;
    conn_cntr = 0;
    conns =
        record { vnfs_conn_id = 0; state = unready; nfs = true; rpc = true; session = session }
        ∷ replicate n (zeroed_conn 0);
    export_path = path;
    first_exchangeid = first;
    inodes = inodes;
    sent = sent;
  }

-- The session of the server, whose first slot has been used so often.
abbrev pub with_slot : CreateOk → ℕ → ℕ → Bool → Session
with_slot ok m seqid used = record {
  sessionid = ok.csr_sessionid;
  ca_maxrequestsize = ok.ca_maxrequestsize;
  slots = record { seqid = seqid; in_use = used } ∷ replicate m fresh_slot;
}

-- With memory for an inode the root is entered, with or without its handle.
enter_root-went :
    (fhsize : ℕ) (past : Slot) (stale : ℕ) (object : List ℕ) (b : Boot)
    → (inodes : InodeTable) × (enter_root fhsize (good_world past stale) object b
        ≡ went (record b { inodes = inodes }))
unfolding enter_root inode_new
enter_root-went fhsize past stale object b =
    elim (Option-cases (clone_fh fhsize (no_fh []) object)) [
      | inl long ↦
          (inode_table_insert b.inodes (zeroed_inode fuse_root_id) [], rw (long, enter_root))
      | inr (fh, copied) ↦ (
        inode_table_insert b.inodes (record (zeroed_inode fuse_root_id) { fh = fh }) [],
        rw (copied, enter_root),
      )
    ]

module _ (lib : Protocol) (past : Slot) (stale n m : ℕ) (path : List ℕ) (server : Server) where
  -- The state with the request for the root on its way.
  unfoldable pub looks : List (List ℕ) → Boot
  looks names =
      during n path (with_slot (server.session 0) m 1 true)
        (record {
          conn = 0;
          stage = looking;
          ops =
              sequence (claim past stale (with_slot (server.session 0) m 0 false) false 0).0
                ∷ putrootfh
                ∷ map lookup_op names
              ++ getfh ∷ [];
        }
          ∷ [])
        (some (server.exchange 0)) (table_init inode_table_size)

  pub exchange-served :
      (names : List (List ℕ))
      → export_names path ≡ some names
      → (server.session 0).ca_maxrequests ≡ suc m
      → serve_all lib
          (good_world past stale)
          server
          2
          (init_connections (good_world past stale) (main_state (suc n) path))
        ≡ went (looks names)
  unfolding looks boot_callback exchangeid_cb send_create_session send on_reply init_connections
      main_state exchangeid create_session_cb lookup_true_rootfh op_sequence find_free claim
      table_init export_names
  exchange-served names e slots = rw (slots, e)

  pub root-served :
      (i : ℕ) (names : List (List ℕ))
      → nfs4_find_op server.resarray lib.op_getfh ≡ some i
      → (inodes : InodeTable) × (serve_all lib (good_world past stale) server 2 (looks names)
          ≡ went (
              conn_up (good_world past stale) (
                during n path
                  (with_slot (server.session 0) m 2 false)
                  []
                  (some (server.exchange 0))
                  inodes)))
  unfolding looks boot_callback send on_reply lookup_true_rootfh_cb root_found op_sequence find_free
      claim send_reclaim_complete reclaim_complete_cb handle_sequence release_slot table_init
  root-served i names e =
      let (inodes, entered) =
        enter_root-went lib.fhsize past stale
          (get_or server.resarray i (record { resop = 0; object = [] })).object
          (during n path (with_slot (server.session 0) m 1 false) [] (some (server.exchange 0))
            (table_init inode_table_size)) in
      let has_slot : ltb 0 (length (fresh_slot ∷ replicate m fresh_slot)) ≡ true =
        lt→ltb 0 _ (omega arith) in
      (inodes, rw (has_slot, root_found, e, entered, has_slot))
