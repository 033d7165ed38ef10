-- ===== src/Nfs/Connect/Run/Finish.antt =====
-- A server that answers brings every connection up.
use mathlib.Core.Path.{subst}
use dpfs.Prelude.{
  ap, ℕ, zero, suc, ◌+◌, ◌*◌, ◌^◌, ◌<◌, ◌≡◌, ◌∙◌, ◌⊎◌, inl, inr, refl, arith, false, some, List, [],
  ◌∷◌,
}
use dpfs.Nfs.Session.{Slot}
use dpfs.Nfs.Connect.Export.{export_names}
use dpfs.Nfs.Connect.Results.{nfs4_find_op}
use dpfs.Nfs.Connect.Booting.{established, Boot, BootWorld, Outcome, went, sleeps, fault}
use dpfs.Nfs.Connect.{init_connections, conn_up, and_then}
use dpfs.Nfs.Connect.Run.{Protocol, main_state, Boots, begun, told}
use dpfs.Nfs.Connect.Run.Steps.{state_at}
use dpfs.Nfs.Connect.Run.Invariant.{Boots-IsBooting}
use dpfs.Nfs.Connect.Run.Turns.{
  answer, IsOneServer, Server, good_world, serve, serve_all, serve_all-add, AfterUp, up-AfterUp,
  Done, later_turns,
}
use dpfs.Nfs.Connect.Run.First.{exchange-served, root-served, during, with_slot}

List-cases : {A : Type 0} (xs : List A) → (xs ≡ []) ⊎ ((x : A) × (rest : List A) × (xs ≡ x ∷ rest))
List-cases [] = inl refl
List-cases (x ∷ rest) = inr (x, rest, refl)

went-same : (b b' : Boot) → went b ≡ went b' → b ≡ b'
went-same b b' e = cc

-- Where a chain of two steps gets to, the first one has got somewhere.
and_then-went :
    (o : Outcome) (f : Boot → Outcome) (b' : Boot)
    → and_then o f ≡ went b'
    → (b : Boot) × (o ≡ went b) × (f b ≡ went b')
and_then-went (went b) f b' e = (b, refl, e)
and_then-went sleeps f b' e = cc
and_then-went fault f b' e = cc

serve-Boots :
    (lib : Protocol) (w : BootWorld) (server : Server) (b0 b b' : Boot)
    → Boots lib b0 b
    → serve lib w server b ≡ went b'
    → Boots lib b0 b'
serve-Boots lib w server b0 b b' run e = elim (List-cases b.sent) [
  | inl quiet ↦
      let same : b ≡ record b { sent = [] } = ap (λ r. record b { sent = r }) quiet in
      subst (Boots lib b0) (same ∙ went-same (record b { sent = [] }) b' (rw quiet at e)) run
  | inr (r, rest, one) ↦ told w [] rest r (answer server r.conn r.stage) run one (rw one at e)
]

serve_all-Boots :
    (lib : Protocol) (w : BootWorld) (server : Server) (n : ℕ) (b0 b b' : Boot)
    → Boots lib b0 b
    → serve_all lib w server n b ≡ went b'
    → Boots lib b0 b'
serve_all-Boots lib w server zero b0 b b' run e = subst (Boots lib b0) (went-same b b' e) run
serve_all-Boots lib w server (suc n) b0 b b' run e =
    let (b1, first, rest) = and_then-went (serve lib w server b) (serve_all lib w server n) b' e in
    serve_all-Boots lib w server n b0 b1 b' (serve-Boots lib w server b0 b b1 run first) rest

module _ (lib : Protocol) (past : Slot) (stale m i : ℕ) (path : List ℕ) (server : Server)
    (names : List (List ℕ)) where
  -- What the first connection's four answers leave.
  first_served :
      (n : ℕ)
      → suc n < 2 ^ 16
      → export_names path ≡ some names
      → (server.session 0).ca_maxrequests ≡ suc m
      → nfs4_find_op server.resarray lib.op_getfh ≡ some i
      → (b : Boot) × (serve_all lib
            (good_world past stale)
            server
            4
            (init_connections (good_world past stale) (main_state (suc n) path))
          ≡ went b)
        × AfterUp server 0 (suc n) b
  first_served n small e slots found =
      let (inodes, rest) = root-served lib past stale n m path server i names found in
      let start : Boot = init_connections (good_world past stale) (main_state (suc n) path) in
      (
        conn_up (good_world past stale) (
            during n path (with_slot (server.session 0) m 2 false) [] (some (server.exchange 0))
              inodes),
        serve_all-add lib past stale server 2 2 start
            ∙ rw (exchange-served lib past stale n m path server names e slots) rest,
        up-AfterUp lib past stale server 0 (suc n)
            (during n path (with_slot (server.session 0) m 2 false) [] (some (server.exchange 0))
              inodes)
            refl refl refl refl (omega arith) small,
      )

  served :
      IsOneServer server
      → (n : ℕ) → suc n < 2 ^ 16
      → export_names path ≡ some names
      → (server.session 0).ca_maxrequests ≡ suc m
      → nfs4_find_op server.resarray lib.op_getfh ≡ some i
      → (b : Boot) × (serve_all lib
            (good_world past stale)
            server
            (4 + 2 * n)
            (init_connections (good_world past stale) (main_state (suc n) path))
          ≡ went b)
        × Done (suc n) b
  unfolding AfterUp
  served one_server zero small e slots found =
      let (b, ran, up) = first_served zero small e slots found in (b, ran, up.1 refl)
  served one_server (suc n) small e slots found =
      let (b, ran, up) = first_served (suc n) small e slots found in
      let start : Boot = init_connections (good_world past stale) (main_state (suc (suc n)) path) in
      let (b', ran', done) =
        later_turns lib past stale server one_server n 1 (suc (suc n)) b (omega arith) (omega arith)
          small (up.0 (omega arith)) in
      let count : 4 + 2 * suc n ≡ 4 + (2 + 2 * n) = omega arith in
      (b', rw count (serve_all-add lib past stale server 4 (2 + 2 * n) start ∙ rw ran ran'), done)

  -- Where libnfs and the allocator do what they are asked for, the server answers without an error
  -- and with at least one slot and a handle, its answer to EXCHANGE_ID on each connection passes
  -- the trunking test against the first one, it names the slot that a request came on, and the path
  -- of the export has a name for each slash, `4 + 2 * n` answers bring all of the `n + 1`
  -- connections up (fewer than 2 ^ 16), and no request is left.
  pub good_server-up :
      IsOneServer server
      → (n : ℕ) → suc n < 2 ^ 16
      → export_names path ≡ some names
      → (server.session 0).ca_maxrequests ≡ suc m
      → nfs4_find_op server.resarray lib.op_getfh ≡ some i
      → (b : Boot) × (serve_all lib
            (good_world past stale)
            server
            (4 + 2 * n)
            (init_connections (good_world past stale) (main_state (suc n) path))
          ≡ went b)
        × (b.sent ≡ [])
        × (b.conn_cntr ≡ suc n)
        × Boots lib (main_state (suc n) path) b
        × ((j : ℕ) → j < suc n → state_at b j ≡ established)
  good_server-up one_server n small e slots found =
      let (b, ran, done) = served one_server n small e slots found in
      let start : Boot = main_state (suc n) path in
      let run : Boots lib start b =
        serve_all-Boots lib (good_world past stale) server (4 + 2 * n) start
          (init_connections (good_world past stale) start) b (begun (good_world past stale)) ran in
      let inv = Boots-IsBooting lib (suc n) path b (omega arith) small run in
      (
        b,
        ran,
        done.quiet,
        done.counter,
        run,
        λ j h. inv.based.up j (let c = done.counter in omega arith),
      )
