-- ===== src/Nfs/Connect/Run/Steps.antt =====
-- The invariant of the handshakes, and what sending a request and bringing a connection up do to it.
use dpfs.Prelude.{
  ℕ, suc, ◌^◌, ◌<◌, ◌≤◌, ◌≡◌, ◌≢◌, ◌∙◌, ◌⊎◌, inl, inr, refl, sym, ap, arith, Bool, true, false,
  none, some, List, [], ◌∷◌, ltb, ltb→lt, ◌&&◌, ◌==◌, if◌then◌else◌, length, get_or, length-set,
  get_or-set, Bool-cases,
}
use dpfs.InodeTable.Laws.{IsTable}
use dpfs.Nfs.Inode.{Inode, fileid_of, inode_table_get}
use dpfs.Nfs.Session.{Session}
use dpfs.Nfs.State.{ArgOp}
use dpfs.Nfs.Requests.{fuse_root_id, incr32}
use dpfs.Nfs.Connect.Booting.{
  ConnState, unready, established, should_close, Conn, Stage, exchanging, creating, looking,
  reclaiming, Sent, Boot, BootWorld, Outcome, went, sleeps, fault, zeroed_conn, current, set_conn,
  set_session, send, destroy_connection,
}
use dpfs.Nfs.Connect.{init_connections, exchangeid, conn_up}

abbrev pub state_at : Boot → ℕ → ConnState
state_at b i = (get_or b.conns i (zeroed_conn 0)).state

abbrev pub HasRoot : Boot → Type 0
HasRoot b = (i : Inode) × (inode_table_get b.inodes fuse_root_id ≡ some i)

-- The connections before `conn_cntr` are up and the others are not, and the root is known from the
-- first of them on.
pub record Based (b : Boot) : Type 0 where
  pub small : b.nthreads < 2 ^ 16
  pub many : length b.conns ≡ b.nthreads
  pub bound : b.conn_cntr ≤ b.nthreads
  pub up : (i : ℕ) → i < b.conn_cntr → state_at b i ≡ established
  pub down : (i : ℕ) → b.conn_cntr ≤ i → state_at b i ≢ established
  pub table : IsTable fileid_of b.inodes
  pub rooted : 0 < b.conn_cntr → HasRoot b

-- One handshake is under way and none of its requests is.
pub record Idle (b : Boot) : Type 0 where
  pub based : Based b
  pub current_is : b.conn_cntr < b.nthreads
  pub quiet : b.sent ≡ []

abbrev pub NoRoot : Boot → Type 0
NoRoot b = inode_table_get b.inodes fuse_root_id ≡ none

-- The root is entered once, by the first handshake.
abbrev pub Ready : Stage → Boot → Type 0
Ready looking b = NoRoot b
Ready reclaiming b = HasRoot b
Ready _ b = b.conn_cntr ≡ 0 → NoRoot b

-- At most one request is under way, on the connection that is being set up.
pub record IsBooting (b : Boot) : Type 0 where
  pub based : Based b
  pub flying :
      (b.sent ≡ [])
      ⊎ ((stage : Stage) × (ops : List ArgOp) × (b.sent
            ≡ record { conn = b.conn_cntr; stage = stage; ops = ops } ∷ [])
          × (b.conn_cntr < b.nthreads)
          × Ready stage b)

abbrev pub Ends : (Boot → Type 0) → Outcome → Type 0
Ends P (went b) = P b
Ends P sleeps = Unit
Ends P fault = Unit

pub Idle-IsBooting : (b : Boot) → Idle b → IsBooting b
Idle-IsBooting b h = record { based = h.based; flying = inl h.quiet }

pub if_state :
    (t : Bool) (c d : Conn) → (if t then c else d).state ≡ (if t then c.state else d.state)
if_state true c d = refl
if_state false c d = refl

pub not_equal : (m i : ℕ) → i < m → (m == i) ≡ false
not_equal m i h = ground arith

pub not_equal_above : (m i : ℕ) → suc m ≤ i → (m == i) ≡ false
not_equal_above m i h = ground arith

pub below :
    (t : Bool) {x y : ConnState}
    → y ≢ established
    → x ≢ established
    → (if t then x else y) ≢ established
below true h k = k
below false h k = h

pub upto :
    (t : Bool) {y : ConnState}
    → (t ≡ false → y ≡ established)
    → (if t then established else y) ≡ established
upto true h = refl
upto false h = h refl

pub Ready-sent :
    (stage : Stage) (b : Boot) (sent : List Sent)
    → Ready stage b
    → Ready stage (record b { sent = sent })
Ready-sent exchanging b sent h = h
Ready-sent creating b sent h = h
Ready-sent looking b sent h = h
Ready-sent reclaiming b sent h = h

pub same_Based : (b : Boot) (sent : List Sent) → Based b → Based (record b { sent = sent })
same_Based b sent h = record {
  small = h.small;
  many = h.many;
  bound = h.bound;
  up = h.up;
  down = h.down;
  table = h.table;
  rooted = h.rooted;
}

pub state_at-set_conn :
    (b : Boot) (c : Conn) (j : ℕ)
    → Idle b
    → state_at (set_conn b c) j ≡ (if b.conn_cntr == j then c.state else state_at b j)
state_at-set_conn b c j h =
    let lt = h.current_is in
    let m = h.based.many in
    ap (λ d. d.state) (get_or-set b.conns b.conn_cntr j c (zeroed_conn 0) (omega arith))
    ∙ if_state (b.conn_cntr == j) c (get_or b.conns j (zeroed_conn 0))

-- Writing the current connection, which is not up yet.
pub set_conn-Idle : (b : Boot) (c : Conn) → c.state ≢ established → Idle b → Idle (set_conn b c)
set_conn-Idle b c not_up h = record {
  based = record {
    small = h.based.small;
    many = rw length-set h.based.many;
    bound = h.based.bound;
    up = λ i lt. rw (state_at-set_conn b c i h, not_equal b.conn_cntr i lt) (h.based.up i lt);
    down = λ i le e.
        below (b.conn_cntr == i) (h.based.down i le) not_up (sym (state_at-set_conn b c i h) ∙ e);
    table = h.based.table;
    rooted = h.based.rooted;
  };
  current_is = h.current_is;
  quiet = h.quiet;
}

pub unready-ne : unready ≢ established
unready-ne e = cc

pub should_close-ne : should_close ≢ established
should_close-ne e = cc

pub current_down : (b : Boot) → Idle b → (current b).state ≢ established
current_down b h = h.based.down b.conn_cntr (omega arith)

pub session-Idle : (b : Boot) (session : Session) → Idle b → Idle (set_session b session)
session-Idle b session h =
    set_conn-Idle b (record (current b) { session = session }) (current_down b h) h

pub send-IsBooting :
    (w : BootWorld) (stage : Stage) (ops : List ArgOp) (b : Boot)
    → Idle b
    → Ready stage b
    → IsBooting (send w stage ops b)
unfolding send destroy_connection
send-IsBooting w stage ops b h ready = elim (Bool-cases w.accepts) [
  | inl on ↦ rw on (record {
    based = same_Based b (record { conn = b.conn_cntr; stage = stage; ops = ops } ∷ b.sent) h.based;
    flying = inr (
      stage,
      ops,
      ap (λ r. record { conn = b.conn_cntr; stage = stage; ops = ops } ∷ r) h.quiet,
      h.current_is,
      Ready-sent stage b _ ready,
    );
  })
  | inr off ↦ rw off (Idle-IsBooting b h)
]

pub init-IsBooting :
    (w : BootWorld) (b : Boot)
    → Idle b
    → (b.conn_cntr ≡ 0 → NoRoot b)
    → IsBooting (init_connections w b)
unfolding init_connections exchangeid
init-IsBooting w b h ready = elim (Bool-cases w.context) [
  | inl made ↦ elim (Bool-cases (w.mounted && w.started)) [
    | inl on ↦
        rw (made, on)
          (send-IsBooting w exchanging _ (set_conn b _) (set_conn-Idle b _ unready-ne h) ready)
    | inr off ↦ rw (made, off) (Idle-IsBooting (set_conn b _) (set_conn-Idle b _ should_close-ne h))
  ]
  | inr off ↦ rw off (Idle-IsBooting (set_conn b _) (set_conn-Idle b _ should_close-ne h))
]

-- The current connection is up, and the next one is the current one.
abbrev pub raised : Boot → Boot
raised b = record (set_conn b (record (current b) { state = established })) {
  conn_cntr = incr32 b.conn_cntr;
}

pub incr-small : (n m : ℕ) → n < m → m < 2 ^ 16 → incr32 n ≡ suc n
incr-small n m h k = ground arith

pub raised-Based : (b : Boot) → Idle b → HasRoot b → Based (raised b)
raised-Based b h root =
    let e : incr32 b.conn_cntr ≡ suc b.conn_cntr =
      incr-small b.conn_cntr b.nthreads h.current_is h.based.small in
    let c : Conn = record (current b) { state = established } in
    record {
      small = h.based.small;
      many = rw length-set h.based.many;
      bound = rw e (let lt = h.current_is in omega arith);
      up = λ i lt.
          rw (state_at-set_conn b c i h)
            (upto (b.conn_cntr == i) (λ miss. h.based.up i (ground arith)));
      down = λ i le.
          rw (state_at-set_conn b c i h, not_equal_above b.conn_cntr i (rw e at le))
            (h.based.down i (let le' : suc b.conn_cntr ≤ i = rw e at le in omega arith));
      table = h.based.table;
      rooted = λ pos. root;
    }

pub conn_up-IsBooting : (w : BootWorld) (b : Boot) → Idle b → HasRoot b → IsBooting (conn_up w b)
unfolding conn_up
conn_up-IsBooting w b h root =
    let e : incr32 b.conn_cntr ≡ suc b.conn_cntr =
      incr-small b.conn_cntr b.nthreads h.current_is h.based.small in
    elim (Bool-cases (ltb (incr32 b.conn_cntr) b.nthreads)) [
      | inl more ↦ rw more (
          init-IsBooting w (raised b)
            (record {
              based = raised-Based b h root;
              current_is = ltb→lt (incr32 b.conn_cntr) b.nthreads more;
              quiet = h.quiet;
            })
            (λ z. absurd (let z' : suc b.conn_cntr ≡ 0 = sym e ∙ z in omega arith)))
      | inr last ↦ rw last (record { based = raised-Based b h root; flying = inl h.quiet })
    ]
