-- ===== src/Nfs/Connect/Booting.antt =====
-- What the handshakes of dpfs_nfs/vnfs_connect.c work on, and how a request is sent.
use dpfs.Prelude.{ℕ, Bool, false, Option, List, [], ◌∷◌, if◌then◌else◌, get_or, set}
use dpfs.Nfs.Inode.{InodeTable}
use dpfs.Nfs.Session.{Slot, Session}
use dpfs.Nfs.State.{ArgOp}
use dpfs.Nfs.Connect.Trunking.{ExchangeOk}

pub data ConnState : Type 0 where
  unready established closed should_close : ConnState

-- `nfs` and `rpc` say whether the pointer is set.
pub record Conn : Type 0 where
  pub vnfs_conn_id : ℕ
  pub state : ConnState
  pub nfs : Bool
  pub rpc : Bool
  pub session : Session

-- What memset leaves, with the number of the connection.
abbrev pub zeroed_conn : ℕ → Conn
zeroed_conn id = record {
  vnfs_conn_id = id;
  state = unready;
  nfs = false;
  rpc = false;
  session = record { sessionid = 0; ca_maxrequestsize = 0; slots = [] };
}

-- The callback that a request of the handshake was sent with.
pub data Stage : Type 0 where
  exchanging creating looking reclaiming : Stage

-- `conn` is the connection that the request went out on.
pub record Sent : Type 0 where
  pub conn : ℕ
  pub stage : Stage
  pub ops : List ArgOp

-- What the handshake works on, of `struct virtionfs`. `first_exchangeid` is `none` while it is zeroed.
pub record Boot : Type 0 where
  pub nthreads : ℕ
  pub conn_cntr : ℕ
  pub conns : List Conn
  pub export_path : List ℕ
  pub first_exchangeid : Option ExchangeOk
  pub inodes : InodeTable
  pub sent : List Sent

-- What libnfs and the allocator answer during one step, and the slot and field that op_sequence reads
-- besides (see Session).
pub record BootWorld : Type 0 where
  pub context : Bool
  pub mounted : Bool
  pub started : Bool
  pub accepts : Bool
  pub alloc : Bool
  pub past : Slot
  pub stale : ℕ

-- `sleeps` is a callback that waits for a slot, and `fault` a failed assertion or a NULL pointer.
pub data Outcome : Type 0 where
  went : Boot → Outcome
  sleeps fault : Outcome

-- `&vnfs->conns[vnfs->conn_cntr]`, read and written.
abbrev pub current : Boot → Conn
current b = get_or b.conns b.conn_cntr (zeroed_conn 0)

abbrev pub set_conn : Boot → Conn → Boot
set_conn b conn = record b { conns = set b.conns b.conn_cntr conn }

abbrev pub set_session : Boot → Session → Boot
set_session b session = set_conn b (record (current b) { session = session })

-- `vnfs_destroy_connection`: its body is a comment.
unfoldable pub destroy_connection : ConnState → Boot → Boot
destroy_connection state b = b

-- `rpc_nfs4_compound_async` on the current connection, and what every caller does when it fails.
unfoldable pub send : BootWorld → Stage → List ArgOp → Boot → Boot
unfolding destroy_connection
send w stage ops b =
    if w.accepts
    then record b { sent = record { conn = b.conn_cntr; stage = stage; ops = ops } ∷ b.sent }
    else destroy_connection should_close b
