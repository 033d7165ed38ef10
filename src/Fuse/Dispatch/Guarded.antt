-- ===== src/Fuse/Dispatch/Guarded.antt =====
-- What stands between a request and the file system.
use dpfs.Prelude.{
  ℕ, ◌<◌, ◌≤◌, ◌≡◌, ◌⊎◌, ◌∙◌, sym, inl, inr, refl, arith, Bool, true, false, not, ◌&&◌, ◌||◌,
  Option, none, some, ltb, ltb→lt, ◌==◌, if◌then◌else◌, length, Bool-cases, Option-cases,
}
use dpfs.Fuse.Dispatch.{
  FuseOp, init, field_of, Shape, plain, reads, writes, lists, locks, forgets, ends, links, starts,
  shape_of, in_iovcnt, out_iovcnt, FuseReq, FuseSession, Dispatched, einval, silent, faulted,
  starting, answered, calls, enosys, no_error, add_sizes, tail, when_ready, handle_shape,
  handle_req,
}

-- The requests that are served before the session is ready: FORGET, BATCH_FORGET, DESTROY and INIT.
abbrev pub IsEarly : Shape → Type 0
IsEarly starts = Unit
IsEarly forgets = Unit
IsEarly ends = Unit
IsEarly _ = ⊥

-- What has been tested when an operation is called for a request of the shape.
pub record IsTested (gives : FuseOp → Bool) (s : FuseSession) (shape : Shape) (op called : FuseOp)
    : Type 0 where
  pub same : (called ≡ op) ⊎ ((shape ≡ starts) × (called ≡ init))
  pub given : (gives (field_of op) ≡ true) ⊎ (shape ≡ starts)
  pub timely : (s.init_done ≡ true) ⊎ IsEarly shape

-- The operation is tested, or none is called; the body of fuse_ll_init, which calls the operation init, has
-- its vectors; and a read past the vectors is due to missing ones.
abbrev pub Guarded :
    (FuseOp → Bool) → FuseSession → FuseReq → (FuseOp → Type 0) → Dispatched → Type 0
Guarded gives s r P einval = Unit
Guarded gives s r P silent = Unit
Guarded gives s r P faulted = (length r.in_iov < 2) ⊎ (length r.out_iov < 1)
Guarded gives s r P starting = P init × (length r.in_iov ≡ 2) × (length r.out_iov ≡ 2)
Guarded gives s r P (answered e s') = Unit
Guarded gives s r P (calls op s') = P op

-- What is known of an operation that is called for a request.
pub record IsNumbered (gives : FuseOp → Bool) (opcode_of : ℕ → Option FuseOp) (max_opcode : ℕ)
    (s : FuseSession) (r : FuseReq) (called : FuseOp) : Type 0 where
  pub number : opcode_of r.opcode ≡ some called
  pub least : 1 ≤ r.opcode
  pub most : r.opcode ≤ max_opcode
  pub given : (gives (field_of called) ≡ true) ⊎ (called ≡ init)
  pub timely : (s.init_done ≡ true) ⊎ IsEarly (shape_of called)

ready-Guarded :
    (gives : FuseOp → Bool) (given : Bool) (s : FuseSession) (r : FuseReq) (op : FuseOp)
    (P : FuseOp → Type 0) (go : Dispatched)
    → (s.init_done ≡ true → given ≡ true → Guarded gives s r P go)
    → Guarded gives s r P (when_ready given s op go)
unfolding when_ready
ready-Guarded gives given s r op P go h = elim (Bool-cases s.init_done) [
  | inl ready ↦ elim (Bool-cases given) [
    | inl has ↦ rw (ready, has, Guarded) (h ready has)
    | inr has_not ↦ rw (ready, has_not, Guarded) tt
  ]
  | inr early ↦ rw (early, Guarded) tt
]

both : (a b : Bool) → (a && b) ≡ true → b ≡ true
both true b h = h
both false b h = cc

if-Guarded :
    (gives : FuseOp → Bool) (s : FuseSession) (r : FuseReq) (P : FuseOp → Type 0) (test : Bool)
    (go : Dispatched)
    → (test ≡ true → Guarded gives s r P go)
    → Guarded gives s r P (if test then go else einval)
if-Guarded gives s r P true go h = h refl
if-Guarded gives s r P false go h = tt

missing : (m n : ℕ) → (ltb m 2 || ltb n 1) ≡ true → (m < 2) ⊎ (n < 1)
missing m n h = elim (Bool-cases (ltb m 2)) [
  | inl few ↦ inl (ltb→lt m 2 few)
  | inr enough ↦ inr (ltb→lt n 1 (let e : (ltb m 2 || ltb n 1) ≡ ltb n 1 = rw enough refl in cc))
]

shape-Guarded :
    (gives : FuseOp → Bool) (shape : Shape) (op : FuseOp) (s : FuseSession) (r : FuseReq)
    → Guarded gives s r (IsTested gives s shape op) (handle_shape gives shape op s r)
unfolding handle_shape
shape-Guarded gives plain op s r =
    if-Guarded gives s r (IsTested gives s plain op)
      ((length r.in_iov == in_iovcnt op) && (length r.out_iov == out_iovcnt op))
      (when_ready (gives (field_of op)) s op (calls op s))
      λ enough.
        ready-Guarded gives (gives (field_of op)) s r op (IsTested gives s plain op) (calls op s)
          λ ready given. record { same = inl refl; given = inl given; timely = inl ready }
shape-Guarded gives reads op s r =
    if-Guarded gives s r (IsTested gives s reads op)
      ((length r.in_iov == 2) && not (ltb (length r.out_iov) 2))
      (when_ready (gives (field_of op)) s op
        (if add_sizes 0 (tail r.out_iov) == r.size then calls op s else einval))
      λ enough.
        ready-Guarded gives (gives (field_of op)) s r op (IsTested gives s reads op)
          (if add_sizes 0 (tail r.out_iov) == r.size then calls op s else einval)
          λ ready given.
            if-Guarded gives s r (IsTested gives s reads op)
              (add_sizes 0 (tail r.out_iov) == r.size) (calls op s)
              λ whole. record { same = inl refl; given = inl given; timely = inl ready }
shape-Guarded gives writes op s r =
    if-Guarded gives s r (IsTested gives s writes op)
      (not (ltb (length r.in_iov) 2) && (length r.out_iov == 2))
      (when_ready (gives (field_of op)) s op
        (if add_sizes 0 (tail (tail r.in_iov)) == r.size then calls op s else einval))
      λ enough.
        ready-Guarded gives (gives (field_of op)) s r op (IsTested gives s writes op)
          (if add_sizes 0 (tail (tail r.in_iov)) == r.size then calls op s else einval)
          λ ready given.
            if-Guarded gives s r (IsTested gives s writes op)
              (add_sizes 0 (tail (tail r.in_iov)) == r.size) (calls op s)
              λ whole. record { same = inl refl; given = inl given; timely = inl ready }
shape-Guarded gives locks op s r =
    if-Guarded gives s r (IsTested gives s locks op)
      ((length r.in_iov == 2) && (length r.out_iov == 1))
      (when_ready (r.lk_flock && gives (field_of op)) s op (calls op s))
      λ enough.
        ready-Guarded gives (r.lk_flock && gives (field_of op)) s r op (IsTested gives s locks op)
          (calls op s)
          λ ready given. record {
            same = inl refl;
            given = inl (both r.lk_flock (gives (field_of op)) given);
            timely = inl ready;
          }
shape-Guarded gives lists op s r =
    if-Guarded gives s r (IsTested gives s lists op)
      (ltb 1 (length r.in_iov) || ltb 1 (length r.out_iov))
      (if ltb (length r.in_iov) 2 || ltb (length r.out_iov) 1
        then faulted
        else when_ready (gives (field_of op)) s op (calls op s))
      λ enough. elim (Bool-cases (ltb (length r.in_iov) 2 || ltb (length r.out_iov) 1)) [
        | inl short ↦ rw (short, Guarded) (missing (length r.in_iov) (length r.out_iov) short)
        | inr there ↦ rw there (
            ready-Guarded gives (gives (field_of op)) s r op (IsTested gives s lists op)
              (calls op s)
              λ ready given. record { same = inl refl; given = inl given; timely = inl ready })
      ]
shape-Guarded gives forgets op s r =
    if-Guarded gives s r (IsTested gives s forgets op)
      ((length r.in_iov == 1) && (length r.out_iov == 0))
      (if gives (field_of op) then calls op s else silent)
      λ enough. elim (Bool-cases (gives (field_of op))) [
        | inl given ↦
            rw (given, Guarded) (record { same = inl refl; given = inl given; timely = inr tt })
        | inr missing ↦ rw (missing, Guarded) tt
      ]
shape-Guarded gives ends op s r =
    if-Guarded gives s r (IsTested gives s ends op)
      ((length r.in_iov == 1) && (length r.out_iov == 1))
      (if gives (field_of op)
        then calls op (record s { got_destroy = true })
        else answered no_error (record s { got_destroy = true }))
      λ enough. elim (Bool-cases (gives (field_of op))) [
        | inl given ↦
            rw (given, Guarded) (record { same = inl refl; given = inl given; timely = inr tt })
        | inr missing ↦ rw (missing, Guarded) tt
      ]
shape-Guarded gives links op s r = elim (Bool-cases (ltb (length r.out_iov) 1)) [
  | inl short ↦ rw (short, Guarded) (inr (ltb→lt (length r.out_iov) 1 short))
  | inr there ↦ rw (there, Guarded) tt
]
shape-Guarded gives starts op s r =
    if-Guarded gives s r (IsTested gives s starts op)
      ((length r.in_iov == 2) && (length r.out_iov == 2)) starting
      λ enough. (
        record { same = inr (refl, refl); given = inr refl; timely = inr tt },
        ground arith,
        ground arith,
      )

not_ltb : (m l n : ℕ) → (ltb m l || ltb n m) ≡ false → (l ≤ m) × (m ≤ n)
not_ltb m l n h = (ground arith, ground arith)

Guarded-map :
    (gives : FuseOp → Bool) (s : FuseSession) (r : FuseReq) (P Q : FuseOp → Type 0)
    (out : Dispatched)
    → ((op : FuseOp) → P op → Q op)
    → Guarded gives s r P out
    → Guarded gives s r Q out
Guarded-map gives s r P Q einval f g = tt
Guarded-map gives s r P Q silent f g = tt
Guarded-map gives s r P Q faulted f g = g
Guarded-map gives s r P Q starting f (p, i, o) = (f init p, i, o)
Guarded-map gives s r P Q (answered e s') f g = tt
Guarded-map gives s r P Q (calls op s') f g = f op g

starts_init : (op : FuseOp) → shape_of op ≡ starts → op ≡ init
starts_init init e = refl
starts_init op e = cc

from_op :
    (gives : FuseOp → Bool) (opcode_of : ℕ → Option FuseOp) (max_opcode : ℕ) (s : FuseSession)
    (r : FuseReq) (op : FuseOp)
    → opcode_of r.opcode ≡ some op
    → 1 ≤ r.opcode
    → r.opcode ≤ max_opcode
    → (called : FuseOp) → IsTested gives s (shape_of op) op called
    → IsNumbered gives opcode_of max_opcode s r called
from_op gives opcode_of max_opcode s r op number least most called tested =
    let same : called ≡ op = elim tested.same [
      | inl e ↦ e
      | inr (starting_one, e) ↦ e ∙ sym (starts_init op starting_one)
    ] in
    let given : (gives (field_of called) ≡ true) ⊎ (called ≡ init) = elim tested.given [
      | inl e ↦ inl (rw same e)
      | inr starting_one ↦ inr (same ∙ starts_init op starting_one)
    ] in
    let timely : (s.init_done ≡ true) ⊎ IsEarly (shape_of called) = rw same tested.timely in
    let number' : opcode_of r.opcode ≡ some called = rw same number in
    record { number = number'; least = least; most = most; given = given; timely = timely }

opcode_of-Guarded :
    (gives : FuseOp → Bool) (opcode_of : ℕ → Option FuseOp) (max_opcode : ℕ) (s : FuseSession)
    (r : FuseReq)
    → 1 ≤ r.opcode
    → r.opcode ≤ max_opcode
    → Guarded gives s r
        (IsNumbered gives opcode_of max_opcode s r)
        (elim (opcode_of r.opcode) as (λ x. Dispatched) [
          | none ↦ if ltb (length r.out_iov) 1 then faulted else answered enosys s
          | some op ↦ handle_shape gives (shape_of op) op s r
        ])
opcode_of-Guarded gives opcode_of max_opcode s r least most =
    elim (Option-cases (opcode_of r.opcode)) [
      | inl absent ↦ rw absent (elim (Bool-cases (ltb (length r.out_iov) 1)) [
        | inl short ↦ rw (short, Guarded) (inr (ltb→lt (length r.out_iov) 1 short))
        | inr there ↦ rw (there, Guarded) tt
      ])
      | inr (op, number) ↦ rw number (
          Guarded-map gives s r (IsTested gives s (shape_of op) op)
            (IsNumbered gives opcode_of max_opcode s r) (handle_shape gives (shape_of op) op s r)
            (from_op gives opcode_of max_opcode s r op number least most)
            (shape-Guarded gives (shape_of op) op s r))
    ]

-- For every request, whatever the operations are that the file system gives, the numbering of the
-- handlers and the state of the session: an operation is called only as the one with the request's
-- number, which is between 1 and the largest number, when the file system gives it and the session
-- is ready or the request is a FORGET, a BATCH_FORGET or a DESTROY. The body of fuse_ll_init, which
-- calls the operation init on a session that is not ready, is entered only for the number of
-- FUSE_INIT, with two input and two output vectors. And the vectors are read past their end only if
-- there are fewer than two input vectors or no output vector.
pub handle_req-Guarded :
    (gives : FuseOp → Bool) (opcode_of : ℕ → Option FuseOp) (max_opcode : ℕ) (s : FuseSession)
    (r : FuseReq)
    → Guarded gives s r
        (IsNumbered gives opcode_of max_opcode s r)
        (handle_req gives opcode_of max_opcode s r)
unfolding handle_req
handle_req-Guarded gives opcode_of max_opcode s r = elim (Bool-cases (ltb (length r.in_iov) 1)) [
  | inl none_in ↦ rw (none_in, Guarded) tt
  | inr some_in ↦ rw some_in (elim (Bool-cases (ltb r.opcode 1 || ltb max_opcode r.opcode)) [
    | inl wrong ↦ rw (wrong, Guarded) tt
    | inr right ↦ rw right (
        opcode_of-Guarded gives opcode_of max_opcode s r (not_ltb r.opcode 1 max_opcode right).0
          (not_ltb r.opcode 1 max_opcode right).1)
  ])
]
