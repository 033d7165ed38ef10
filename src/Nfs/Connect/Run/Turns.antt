-- ===== src/Nfs/Connect/Run/Turns.antt =====
-- A server that answers every request without an error, and the handshakes after the first one.
use dpfs.Prelude.{
  ℕ, zero, suc, ◌+◌, ◌*◌, ◌^◌, ◌<◌, ◌≡◌, ◌∙◌, refl, ap, arith, true, false, some, List, [], ◌∷◌,
  ltb, lt→ltb, le→ltb, ◌==◌, replicate,
}
use dpfs.Nfs.Session.{Slot, Session, fresh_slot}
use dpfs.Nfs.State.{exchange_id, create_session}
use dpfs.Nfs.Connect.Args.{nfs4_op_createsession, nfs4_op_exchangeid, default_verifier, client_name}
use dpfs.Nfs.Requests.{incr32}
use dpfs.Nfs.Connect.Trunking.{ExchangeOk, check_clientid_trunking_allowed}
use dpfs.Nfs.Connect.Results.{ResOp}
use dpfs.Nfs.Connect.Booting.{
  Stage, exchanging, creating, looking, reclaiming, Sent, Boot, BootWorld, Outcome, went, sleeps,
  fault, set_session, send,
}
use dpfs.Nfs.Connect.{
  replied, nfs4_ok, CreateOk, init_connections, exchangeid, conn_up, exchangeid_cb,
  create_session_cb, on_reply, and_then, send_create_session, first_exchange,
}
use dpfs.Nfs.Connect.Run.{Protocol, ReplyTo, boot_callback}
use dpfs.Nfs.Connect.Run.Steps.{incr-small}

-- What the server answers to the requests of each stage, always without an error: each connection has
-- its own EXCHANGE_ID and CREATE_SESSION. It names the slot that a request was sent on, which is 0 in
-- a handshake.
pub record Server : Type 0 where
  pub exchange : ℕ → ExchangeOk
  pub session : ℕ → CreateOk
  pub resarray : List ResOp

-- On every connection it says that it is the server of the first one.
abbrev pub IsOneServer : Server → Type 0
IsOneServer server =
    (k : ℕ) → check_clientid_trunking_allowed (server.exchange 0) (server.exchange k) ≡ true

abbrev pub answer : Server → (conn : ℕ) (stage : Stage) → ReplyTo stage
answer server k exchanging = replied nfs4_ok (server.exchange k)
answer server k creating = replied nfs4_ok (server.session k)
answer server k looking = replied nfs4_ok (record { sr_slotid = 0; resarray = server.resarray })
answer server k reclaiming = replied nfs4_ok 0

-- libnfs and the allocator do what they are asked for.
abbrev pub good_world : Slot → ℕ → BootWorld
good_world past stale = record {
  context = true;
  mounted = true;
  started = true;
  accepts = true;
  alloc = true;
  past = past;
  stale = stale;
}

-- The answer to the request that is on its way.
abbrev pub serve : Protocol → BootWorld → Server → Boot → Outcome
serve lib w server b = elim b.sent [
  | [] ↦ went b
  | r ∷ rest ↦ boot_callback lib w r.stage (answer server r.conn r.stage) (record b { sent = rest })
]

-- So many answers, one after the other.
abbrev pub serve_all : Protocol → BootWorld → Server → ℕ → Boot → Outcome
serve_all lib w server zero b = went b
serve_all lib w server (suc n) b = and_then (serve lib w server b) (serve_all lib w server n)

-- What the first request of a handshake is.
abbrev pub first_request : ℕ → Sent
first_request k = record {
  conn = k;
  stage = exchanging;
  ops = exchange_id (nfs4_op_exchangeid default_verifier client_name) ∷ [];
}

-- A handshake after the first is about to begin, on the connection `k`.
pub record Turn (server : Server) (k n : ℕ) (b : Boot) : Type 0 where
  pub threads : b.nthreads ≡ n
  pub counter : b.conn_cntr ≡ k
  pub first : b.first_exchangeid ≡ some (server.exchange 0)
  pub request : b.sent ≡ first_request b.conn_cntr ∷ []

pub record Done (n : ℕ) (b : Boot) : Type 0 where
  pub threads : b.nthreads ≡ n
  pub counter : b.conn_cntr ≡ n
  pub quiet : b.sent ≡ []

-- What follows when connection `k` comes up.
unfoldable pub AfterUp : Server → ℕ → ℕ → Boot → Type 0
AfterUp server k n b = (suc k < n → Turn server (suc k) n b) × (suc k ≡ n → Done n b)

and_then_assoc :
    (o : Outcome) (f g h : Boot → Outcome)
    → ((b : Boot) → f b ≡ and_then (g b) h)
    → and_then o f ≡ and_then (and_then o g) h
and_then_assoc (went b) f g h e = e b
and_then_assoc sleeps f g h e = refl
and_then_assoc fault f g h e = refl

module _ (lib : Protocol) (past : Slot) (stale : ℕ) (server : Server) where
  pub serve_all-add :
      (m n : ℕ) (b : Boot)
      → serve_all lib (good_world past stale) server (m + n) b
        ≡ and_then
            (serve_all lib (good_world past stale) server m b)
            (serve_all lib (good_world past stale) server n)
  serve_all-add zero n b = let e : 0 + n ≡ n = omega arith in rw e
  serve_all-add (suc m) n b =
      let e : suc m + n ≡ suc (m + n) = omega arith in
      rw e (
        and_then_assoc (serve lib (good_world past stale) server b)
          (serve_all lib (good_world past stale) server (m + n))
          (serve_all lib (good_world past stale) server m)
          (serve_all lib (good_world past stale) server n) (serve_all-add m n))

  pub up-AfterUp :
      (k n : ℕ) (b : Boot)
      → b.nthreads ≡ n
      → b.conn_cntr ≡ k
      → b.first_exchangeid ≡ some (server.exchange 0)
      → b.sent ≡ []
      → k < n
      → n < 2 ^ 16
      → AfterUp server k n (conn_up (good_world past stale) b)
  unfolding AfterUp conn_up init_connections exchangeid send
  up-AfterUp k n b e f g q lt small =
      let next : incr32 b.conn_cntr ≡ suc k = rw f (incr-small k n lt small) in
      (
        λ more.
            let t : ltb (incr32 b.conn_cntr) b.nthreads ≡ true =
              rw (next, e) (lt→ltb (suc k) n more) in
            rw t (record {
              threads = e;
              counter = next;
              first = g;
              request = ap (λ r. first_request (incr32 b.conn_cntr) ∷ r) q;
            }),
        λ last.
            let t : ltb (incr32 b.conn_cntr) b.nthreads ≡ false =
              rw (next, e) (le→ltb (suc k) n (omega arith)) in
            rw t (record { threads = e; counter = next ∙ last; quiet = q }),
      )

  -- The state that the first answer of a later handshake leaves.
  creates : Boot → Boot
  creates b = record b {
    sent =
        record {
          conn = b.conn_cntr;
          stage = creating;
          ops =
              create_session (
                nfs4_op_createsession (server.exchange b.conn_cntr).eir_clientid
                  (server.exchange b.conn_cntr).eir_sequenceid)
              ∷ [];
        }
        ∷ [];
  }

  -- The session that the second one leaves.
  made : ℕ → Session
  made k = record {
    sessionid = (server.session k).csr_sessionid;
    ca_maxrequestsize = (server.session k).ca_maxrequestsize;
    slots = replicate (server.session k).ca_maxrequests fresh_slot;
  }

  serve-exchange :
      IsOneServer server
      → (k n : ℕ) (b : Boot) → 0 < k
      → Turn server k n b
      → serve lib (good_world past stale) server b ≡ went (creates b)
  unfolding boot_callback exchangeid_cb send_create_session send on_reply creates
  serve-exchange one_server k n b pos h =
      let later : (b.conn_cntr == 0) ≡ false = let c = h.counter in ground arith in
      let allowed : check_clientid_trunking_allowed (first_exchange b) (server.exchange b.conn_cntr)
          ≡ true =
        rw h.first (one_server b.conn_cntr) in
      rw (h.request, later, allowed)

  serve-create :
      (b : Boot)
      → 0 < b.conn_cntr
      → serve lib (good_world past stale) server (creates b)
        ≡ went (
            conn_up
              (good_world past stale)
              (set_session (record b { sent = [] }) (made b.conn_cntr)))
  unfolding boot_callback create_session_cb on_reply creates made
  serve-create b pos = let later : (b.conn_cntr == 0) ≡ false = ground arith in rw later

  turn :
      IsOneServer server
      → (k n : ℕ) (b : Boot) → 0 < k
      → k < n
      → n < 2 ^ 16
      → Turn server k n b
      → (b' : Boot) × (serve_all lib (good_world past stale) server 2 b ≡ went b')
        × AfterUp server k n b'
  turn one_server k n b pos lt small h = (
    conn_up (good_world past stale) (set_session (record b { sent = [] }) (made b.conn_cntr)),
    rw (serve-exchange one_server k n b pos h, serve-create b (let c = h.counter in omega arith)),
    up-AfterUp k n (set_session (record b { sent = [] }) (made b.conn_cntr)) h.threads h.counter
        h.first refl lt small,
  )

  pub later_turns :
      IsOneServer server
      → (r k n : ℕ) (b : Boot) → 0 < k
      → k + suc r ≡ n
      → n < 2 ^ 16
      → Turn server k n b
      → (b' : Boot) × (serve_all lib (good_world past stale) server (2 + 2 * r) b ≡ went b')
        × Done n b'
  unfolding AfterUp
  later_turns one_server zero k n b pos e small h =
      let (b', ran, up) = turn one_server k n b pos (omega arith) small h in
      (b', ran, up.1 (omega arith))
  later_turns one_server (suc r) k n b pos e small h =
      let (b', ran, up) = turn one_server k n b pos (omega arith) small h in
      let (b'', ran', done) =
        later_turns one_server r (suc k) n b' (omega arith) (omega arith) small
          (up.0 (omega arith)) in
      let count : 2 + 2 * suc r ≡ 2 + (2 + 2 * r) = omega arith in
      (b'', rw count (serve_all-add 2 (2 + 2 * r) b ∙ rw ran ran'), done)
