-- ===== src/Nfs/Connect/Run/Callbacks.antt =====
-- Each callback of the handshakes keeps their invariant.
use dpfs.Prelude.{
  ℕ, ◌≡◌, ◌∙◌, inl, inr, refl, arith, Bool, true, false, none, some, List, [], ◌==◌, ==_iff,
  Bool-cases, Option-cases,
}
use dpfs.InodeTable.Laws.{table_get-insert}
use dpfs.InodeTable.Invariant.{insert-IsTable}
use dpfs.Nfs.Inode.{Inode, fileid_of, inode_new, inode_table_get, inode_table_insert}
use dpfs.Nfs.Session.{op_sequence, handle_sequence}
use dpfs.Nfs.Requests.{fuse_root_id}
use dpfs.Nfs.Handle.{no_fh, clone_fh}
use dpfs.Nfs.Connect.Export.{export_names}
use dpfs.Nfs.Connect.Trunking.{ExchangeOk, check_clientid_trunking_allowed}
use dpfs.Nfs.Connect.Results.{nfs4_find_op}
use dpfs.Nfs.Connect.Booting.{
  Stage, exchanging, creating, looking, reclaiming, Boot, BootWorld, Outcome, went, sleeps, fault,
  current, set_session, destroy_connection,
}
use dpfs.Nfs.Connect.{
  Reply, rpc_failed, replied, CreateOk, RootResult, exchangeid_cb, create_session_cb,
  lookup_true_rootfh_cb, reclaim_complete_cb, on_reply, enter_root, root_found, and_then,
  send_reclaim_complete, lookup_true_rootfh, send_create_session, first_exchange,
}
use dpfs.Nfs.Connect.Run.{Protocol, ReplyTo, boot_callback}
use dpfs.Nfs.Connect.Run.Steps.{
  Idle, IsBooting, NoRoot, HasRoot, Ready, Ends, Idle-IsBooting, send-IsBooting, session-Idle,
  conn_up-IsBooting,
}

pub on_reply-Ends :
    {A : Type 0} (ok : ℕ → Bool) (r : Reply A) (handle : A → Boot → Outcome) (b : Boot)
    → Idle b
    → ((a : A) → Ends IsBooting (handle a b))
    → Ends IsBooting (on_reply ok r handle b)
unfolding on_reply destroy_connection
on_reply-Ends ok rpc_failed handle b h k = Idle-IsBooting b h
on_reply-Ends ok (replied status a) handle b h k = elim (Bool-cases (ok status)) [
  | inl on ↦ rw on (k a)
  | inr off ↦ rw off (Idle-IsBooting b h)
]

pub reclaim_complete_cb-Ends :
    (already : ℕ) (w : BootWorld) (r : Reply ℕ) (b : Boot)
    → Idle b
    → HasRoot b
    → Ends IsBooting (reclaim_complete_cb already w r b)
unfolding reclaim_complete_cb
reclaim_complete_cb-Ends already w r b h root = on_reply-Ends _ r _ b h λ slot.
    elim (Option-cases (handle_sequence (current b).session slot)) [
      | inl wild ↦ rw (wild, Ends) tt
      | inr (session, e) ↦
          rw (e, Ends) (conn_up-IsBooting w (set_session b session) (session-Idle b session h) root)
    ]

pub send_reclaim-Ends :
    (w : BootWorld) (b : Boot) → Idle b → HasRoot b → Ends IsBooting (send_reclaim_complete w b)
unfolding send_reclaim_complete
send_reclaim-Ends w b h root =
    elim (Option-cases (op_sequence w.past w.stale (current b).session false)) [
      | inl e ↦ rw (e, Ends) tt
      | inr (a, e) ↦
          rw (e, Ends)
            (send-IsBooting w reclaiming _ (set_session b a.1) (session-Idle b a.1 h) root)
    ]

-- Entering the root, which is not in the table yet.
pub entered :
    (b : Boot) (i : Inode)
    → i.fileid ≡ fuse_root_id
    → Idle b
    → NoRoot b
    → Idle (record b { inodes = inode_table_insert b.inodes i [] })
      × HasRoot (record b { inodes = inode_table_insert b.inodes i [] })
unfolding inode_table_insert inode_table_get
entered b i key h free =
    let hit : (i.fileid == fuse_root_id) ≡ true = (==_iff i.fileid fuse_root_id).1 key in
    let absent : inode_table_get b.inodes i.fileid ≡ none = rw key free in
    let found : inode_table_get (inode_table_insert b.inodes i []) fuse_root_id ≡ some i =
      table_get-insert fileid_of b.inodes i fuse_root_id h.based.table.positive ∙ rw hit in
    (
      record {
        based = record {
          small = h.based.small;
          many = h.based.many;
          bound = h.based.bound;
          up = h.based.up;
          down = h.based.down;
          table = insert-IsTable fileid_of b.inodes i absent h.based.table;
          rooted = λ pos. (i, found);
        };
        current_is = h.current_is;
        quiet = h.quiet;
      },
      (i, found),
    )

pub and_then-Ends :
    (P : Boot → Type 0) (o : Outcome) (f : Boot → Outcome)
    → Ends P o
    → ((b : Boot) → P b → Ends IsBooting (f b))
    → Ends IsBooting (and_then o f)
and_then-Ends P (went b) f h k = k b h
and_then-Ends P sleeps f h k = tt
and_then-Ends P fault f h k = tt

abbrev pub Rooted : Boot → Type 0
Rooted b = Idle b × HasRoot b

pub enter_root-Ends :
    (fhsize : ℕ) (w : BootWorld) (object : List ℕ) (b : Boot)
    → Idle b
    → NoRoot b
    → Ends Rooted (enter_root fhsize w object b)
unfolding enter_root inode_new
enter_root-Ends fhsize w object b h free = elim (Bool-cases w.alloc) [
  | inl ok ↦
      rw (ok, Ends)
        (elim (Option-cases (clone_fh fhsize (no_fh []) object)) [
          | inl long ↦ rw (long, Ends) (entered b _ refl h free)
          | inr (fh, copied) ↦ rw (copied, Ends) (entered b _ refl h free)
        ])
  | inr full ↦ rw (full, Ends) tt
]

root_found-Ends :
    (fhsize op_getfh : ℕ) (w : BootWorld) (res : RootResult) (b : Boot)
    → Idle b
    → NoRoot b
    → Ends IsBooting (root_found fhsize op_getfh w res b)
unfolding root_found
root_found-Ends fhsize op_getfh w res b h free =
    elim (Option-cases (nfs4_find_op res.resarray op_getfh)) [
      | inl e ↦ rw (e, Ends) tt
      | inr (i, e) ↦
          rw (e, Ends)
            (and_then-Ends Rooted (enter_root fhsize w _ b) (send_reclaim_complete w)
              (enter_root-Ends fhsize w _ b h free) (λ b' k. send_reclaim-Ends w b' k.0 k.1))
    ]

pub lookup_true_rootfh_cb-Ends :
    (fhsize op_getfh : ℕ) (w : BootWorld) (r : Reply RootResult) (b : Boot)
    → Idle b
    → NoRoot b
    → Ends IsBooting (lookup_true_rootfh_cb fhsize op_getfh w r b)
unfolding lookup_true_rootfh_cb
lookup_true_rootfh_cb-Ends fhsize op_getfh w r b h free = on_reply-Ends _ r _ b h λ res.
    elim (Option-cases (handle_sequence (current b).session res.sr_slotid)) [
      | inl wild ↦ rw (wild, Ends) tt
      | inr (session, e) ↦
          rw (e, Ends)
            (root_found-Ends fhsize op_getfh w res (set_session b session)
              (session-Idle b session h) free)
    ]

pub lookup_true_rootfh-Ends :
    (w : BootWorld) (b : Boot) → Idle b → NoRoot b → Ends IsBooting (lookup_true_rootfh w b)
unfolding lookup_true_rootfh
lookup_true_rootfh-Ends w b h free =
    elim (Option-cases (op_sequence w.past w.stale (current b).session false)) [
      | inl e ↦ rw (e, Ends) tt
      | inr (a, e) ↦ elim (Option-cases (export_names b.export_path)) [
        | inl f ↦ rw (e, f, Ends) tt
        | inr (names, f) ↦
            rw (e, f, Ends)
              (send-IsBooting w looking _ (set_session b a.1) (session-Idle b a.1 h) free)
      ]
    ]

pub create_session_cb-Ends :
    (w : BootWorld) (r : Reply CreateOk) (b : Boot)
    → Idle b
    → (b.conn_cntr ≡ 0 → NoRoot b)
    → Ends IsBooting (create_session_cb w r b)
unfolding create_session_cb
create_session_cb-Ends w r b h free = on_reply-Ends _ r _ b h λ res.
    elim (Bool-cases (b.conn_cntr == 0)) [
      | inl first ↦
          rw (first, Ends)
            (lookup_true_rootfh-Ends w (set_session b _) (session-Idle b _ h)
              (free ((==_iff b.conn_cntr 0).0 first)))
      | inr later ↦
          rw (later, Ends)
            (conn_up-IsBooting w (set_session b _) (session-Idle b _ h)
              (h.based.rooted (ground arith)))
    ]

pub first-Idle :
    (b : Boot) (ok : ExchangeOk) → Idle b → Idle (record b { first_exchangeid = some ok })
first-Idle b ok h = record {
  based = record {
    small = h.based.small;
    many = h.based.many;
    bound = h.based.bound;
    up = h.based.up;
    down = h.based.down;
    table = h.based.table;
    rooted = h.based.rooted;
  };
  current_is = h.current_is;
  quiet = h.quiet;
}

pub exchangeid_cb-Ends :
    (w : BootWorld) (r : Reply ExchangeOk) (b : Boot)
    → Idle b
    → (b.conn_cntr ≡ 0 → NoRoot b)
    → Ends IsBooting (exchangeid_cb w r b)
unfolding exchangeid_cb send_create_session destroy_connection
exchangeid_cb-Ends w r b h free = on_reply-Ends _ r _ b h λ ok.
    elim (Bool-cases (b.conn_cntr == 0)) [
      | inl first ↦
          rw (first, Ends)
            (send-IsBooting w creating _ (record b { first_exchangeid = some ok })
              (first-Idle b ok h) free)
      | inr later ↦ elim (Bool-cases (check_clientid_trunking_allowed (first_exchange b) ok)) [
        | inl allowed ↦ rw (later, allowed, Ends) (send-IsBooting w creating _ b h free)
        | inr refused ↦ rw (later, refused, Ends) (Idle-IsBooting b h)
      ]
    ]

pub callback-Ends :
    (lib : Protocol) (w : BootWorld) (stage : Stage) (r : ReplyTo stage) (b : Boot)
    → Idle b
    → Ready stage b
    → Ends IsBooting (boot_callback lib w stage r b)
unfolding boot_callback
callback-Ends lib w exchanging r b h ready = exchangeid_cb-Ends w r b h ready
callback-Ends lib w creating r b h ready = create_session_cb-Ends w r b h ready
callback-Ends lib w looking r b h ready =
    lookup_true_rootfh_cb-Ends lib.fhsize lib.op_getfh w r b h ready
callback-Ends lib w reclaiming r b h ready =
    reclaim_complete_cb-Ends lib.complete_already w r b h ready
