-- ===== src/Nfs/Connect/Run/Failure.antt =====
-- What a failed request of a handshake leads to.
use dpfs.Prelude.{
  ℕ, ◌^◌, ◌<◌, ◌≡◌, ◌≢◌, ◌∙◌, inl, inr, refl, sym, arith, ap, Bool, false, ◌||◌, List, [], ◌∷◌,
  ◌++◌, ◌==◌,
}
use dpfs.Nfs.Connect.Booting.{
  Stage, exchanging, creating, looking, reclaiming, established, Sent, Boot, BootWorld, went,
  destroy_connection,
}
use dpfs.Nfs.Connect.{
  rpc_failed, replied, exchangeid_cb, create_session_cb, lookup_true_rootfh_cb, reclaim_complete_cb,
  on_reply,
}
use dpfs.Nfs.Connect.Run.{Protocol, ReplyTo, boot_callback, main_state, Boots}
use dpfs.Nfs.Connect.Run.Steps.{state_at}
use dpfs.Nfs.Connect.Run.Invariant.{Boots-IsBooting, alone, empty_middle}

-- The call failed, or the server answered with an error; that the client has reclaimed already is none.
abbrev pub IsFailure : Protocol → (stage : Stage) → ReplyTo stage → Type 0
IsFailure lib exchanging rpc_failed = Unit
IsFailure lib exchanging (replied status a) = status ≢ 0
IsFailure lib creating rpc_failed = Unit
IsFailure lib creating (replied status a) = status ≢ 0
IsFailure lib looking rpc_failed = Unit
IsFailure lib looking (replied status a) = status ≢ 0
IsFailure lib reclaiming rpc_failed = Unit
IsFailure lib reclaiming (replied status a) = (status ≢ 0) × (status ≢ lib.complete_already)

not_ok : (status : ℕ) → status ≢ 0 → (status == 0) ≡ false
not_ok status h = ground arith

neither : (a b : Bool) → a ≡ false → b ≡ false → (a || b) ≡ false
neither a b h k = rw (h, k)

callback_failed :
    (lib : Protocol) (w : BootWorld) (stage : Stage) (reply : ReplyTo stage) (b : Boot)
    → IsFailure lib stage reply
    → boot_callback lib w stage reply b ≡ went b
unfolding boot_callback exchangeid_cb create_session_cb lookup_true_rootfh_cb reclaim_complete_cb
    on_reply destroy_connection
callback_failed lib w exchanging rpc_failed b h = refl
callback_failed lib w exchanging (replied status a) b h = rw (not_ok status h)
callback_failed lib w creating rpc_failed b h = refl
callback_failed lib w creating (replied status a) b h = rw (not_ok status h)
callback_failed lib w looking rpc_failed b h = refl
callback_failed lib w looking (replied status a) b h = rw (not_ok status h)
callback_failed lib w reclaiming rpc_failed b h = refl
callback_failed lib w reclaiming (replied status a) b h =
    let other : (status == lib.complete_already) ≡ false = let n = h.1 in ground arith in
    rw (not_ok status h.0, other)

-- When a request of a handshake fails, with at least one polling thread and fewer than 2 ^ 16, all that
-- the callback does is drop the request: the connection it was sent on is not established, fewer
-- connections are up than there are threads, no request is on its way any more, and the state of
-- the connections is what it was, although the callback asks for the connection to be closed.
pub failure-stuck :
    (lib : Protocol) (nthreads : ℕ) (export_path : List ℕ) (w : BootWorld) (b : Boot)
    (before after : List Sent) (r : Sent) (reply : ReplyTo r.stage)
    → 0 < nthreads
    → nthreads < 2 ^ 16
    → Boots lib (main_state nthreads export_path) b
    → b.sent ≡ before ++ r ∷ after
    → IsFailure lib r.stage reply
    → (boot_callback lib w r.stage reply (record b { sent = before ++ after })
        ≡ went (record b { sent = [] }))
      × (r.conn ≡ b.conn_cntr)
      × (b.conn_cntr < b.nthreads)
      × (state_at b r.conn ≢ established)
failure-stuck lib nthreads path w b before after r reply pos small run e fails =
    let inv = Boots-IsBooting lib nthreads path b pos small run in
    elim inv.flying [
      | inl quiet ↦ absurd (empty_middle before after r (sym e ∙ quiet))
      | inr (stage, ops, one, lt, ready) ↦
          let (gone, is) = alone before after r _ (sym e ∙ one) in
          let at : r.conn ≡ b.conn_cntr = ap (λ x. x.conn) is in
          (
            callback_failed lib w r.stage reply (record b { sent = before ++ after }) fails
                ∙ ap (λ s. went (record b { sent = s })) gone,
            at,
            lt,
            rw at (inv.based.down b.conn_cntr (omega arith)),
          )
    ]
