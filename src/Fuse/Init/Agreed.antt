-- ===== src/Fuse/Init/Agreed.antt =====
-- What a session and the kernel have agreed on after the handshake.
use dpfs.Prelude.{
  ℕ, zero, suc, ◌<◌, ◌≤◌, ◌≡◌, ◌≢◌, inl, inr, refl, arith, true, false, not, ◌&&◌, ◌||◌, ◌==◌,
  Bool-cases, ◌^◌,
}
use dpfs.Fuse.Init.{
  Caps, InitIn, InitSession, InitOut, InitResult, connected, too_old, second, unsupported,
  op_failed, accepted, within, big_writes,
}

pub within-implies :
    (n : ℕ) (want capable : Caps) (c : ℕ)
    → within n want capable ≡ true
    → c < n
    → want c ≡ true
    → capable c ≡ true
unfolding within
within-implies zero want capable c h k w = absurd (let no : ⊥ = omega arith in no)
within-implies (suc n) want capable c h k w = elim (Bool-cases (within n want capable)) [
  | inr fails ↦
      let absurd : (within n want capable && (not (want n) || capable n)) ≡ false = rw fails refl in
      cc
  | inl lower ↦ elim (Bool-cases (n == c)) [
    | inr other ↦ let below : c < n = ground arith in within-implies n want capable c lower below w
    | inl here ↦
        let e : n ≡ c = ground arith in
        let top : (within n want capable && (not (want n) || capable n)) ≡ true = h in
        rw (lower, e, w) at top
  ]
]

-- What the answer of a served handshake promises.
pub record IsAgreed (q : InitIn) (out : InitOut) (se : InitSession) : Type 0 where
  pub offered : (c : ℕ) → c < 32 → c ≢ big_writes → out.flags c ≡ true → q.flags c ≡ true
  pub big : out.flags big_writes ≡ true
  pub background : out.max_background < 2 ^ 16
  pub threshold : out.congestion_threshold ≤ out.max_background

-- A handshake that fails at the operation or at its capabilities closes the session.
abbrev pub Agreed : InitIn → InitResult → Type 0
Agreed q (connected se) = Unit
Agreed q (too_old se) = Unit
Agreed q (second se) = Unit
Agreed q (unsupported se) = se.got_destroy ≡ true
Agreed q (op_failed res se) = se.got_destroy ≡ true
Agreed q (accepted out se) = IsAgreed q out se
