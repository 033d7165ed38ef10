-- ===== src/Nfs/Connect/Trunking.antt =====
-- Whether two connections may share a client id or a session (nfs4_check_session_trunking_allowed and
-- nfs4_check_clientid_trunking_allowed of dpfs_nfs/nfs_v4.c).
use dpfs.Prelude.{
  ℕ, zero, suc, ◌≡◌, ◌↔◌, refl, arith, Bool, true, false, ◌&&◌, List, [], ◌∷◌, ◌==◌, ==_iff, length,
}

-- `EXCHANGE_ID4resok`: the client id, the sequence id, the owner's two ids and the scope.
pub record ExchangeOk : Type 0 where
  pub eir_clientid : ℕ
  pub eir_sequenceid : ℕ
  pub so_major_id : List ℕ
  pub so_minor_id : ℕ
  pub eir_server_scope : List ℕ

-- `memcmp(l, r, n) == 0`, over buffers of at least `n` bytes.
unfoldable pub memcmp_eq : ℕ → List ℕ → List ℕ → Bool
memcmp_eq zero l r = true
memcmp_eq (suc n) [] r = false
memcmp_eq (suc n) (x ∷ l) [] = false
memcmp_eq (suc n) (x ∷ l) (y ∷ r) = let rest = memcmp_eq n l r in (x == y) && rest

-- Two buffers with their lengths.
abbrev pub same_buffer : List ℕ → List ℕ → Bool
same_buffer l r = (length l == length r) && memcmp_eq (length l) l r

unfoldable pub check_session_trunking_allowed : ExchangeOk → ExchangeOk → Bool
unfolding memcmp_eq
check_session_trunking_allowed l r =
    ((l.eir_clientid == r.eir_clientid)
      && (same_buffer l.so_major_id r.so_major_id
          && ((l.so_minor_id == r.so_minor_id)
              && same_buffer l.eir_server_scope r.eir_server_scope)))

unfoldable pub check_clientid_trunking_allowed : ExchangeOk → ExchangeOk → Bool
unfolding memcmp_eq
check_clientid_trunking_allowed l r =
    ((l.eir_clientid == r.eir_clientid)
      && (same_buffer l.so_major_id r.so_major_id
          && same_buffer l.eir_server_scope r.eir_server_scope))

memcmp_eq_self : (l : List ℕ) → memcmp_eq (length l) l l ≡ true
unfolding memcmp_eq
memcmp_eq_self [] = refl
memcmp_eq_self (x ∷ l) = rw ((==_iff x x).1 refl, memcmp_eq_self l)

memcmp_eq-same : (l r : List ℕ) → length l ≡ length r → memcmp_eq (length l) l r ≡ true → l ≡ r
unfolding memcmp_eq
memcmp_eq-same [] [] n e = refl
memcmp_eq-same [] (y ∷ r) n e = absurd (omega arith)
memcmp_eq-same (x ∷ l) [] n e = absurd (omega arith)
memcmp_eq-same (x ∷ l) (y ∷ r) n e =
    let rest : l ≡ r = memcmp_eq-same l r (omega arith) (ground arith) in
    let first : x ≡ y = ground arith in cc

same_buffer_iff : (l r : List ℕ) → (same_buffer l r ≡ true) ↔ (l ≡ r)
same_buffer_iff l r = (
  λ e. memcmp_eq-same l r (ground arith) (ground arith),
  λ e. rw (← e, (==_iff (length l) (length l)).1 refl, memcmp_eq_self l),
)

all_three :
    {P Q R : Type 0} {a b c : Bool}
    → ((a ≡ true) ↔ P)
    → ((b ≡ true) ↔ Q)
    → ((c ≡ true) ↔ R)
    → ((a && (b && c)) ≡ true) ↔ (P × Q × R)
all_three {a = true} {b = true} {c = true} p q r = (λ e. (p.0 refl, q.0 refl, r.0 refl), λ e. refl)
all_three {a = true} {b = true} {c = false} p q r = (λ e. cc, λ e. r.1 e.2)
all_three {a = true} {b = false} p q r = (λ e. cc, λ e. q.1 e.1)
all_three {a = false} p q r = (λ e. cc, λ e. p.1 e.0)

with_minor :
    (a b c : Bool) (m n : ℕ)
    → (a && (b && ((m == n) && c))) ≡ true
    → ((a && (b && c)) ≡ true) × (m ≡ n)
with_minor true true true m n e = (refl, ground arith)
with_minor true true false m n e = ground arith
with_minor true false c m n e = cc
with_minor false b c m n e = cc

and_minor :
    (a b c : Bool) (m n : ℕ) → (a && (b && c)) ≡ true → m ≡ n → (a && (b && ((m == n) && c))) ≡ true
and_minor true true true m n e h = ground arith
and_minor true true false m n e h = cc
and_minor true false c m n e h = cc
and_minor false b c m n e h = cc

-- A connection may share the client id exactly when the two answers name the same client id, the same
-- major id of the owner and the same scope, and the session exactly when also the minor ids agree.
pub trunking_iff :
    (l r : ExchangeOk)
    → ((check_clientid_trunking_allowed l r ≡ true) ↔ (
        (l.eir_clientid ≡ r.eir_clientid)
        × (l.so_major_id ≡ r.so_major_id)
        × (l.eir_server_scope ≡ r.eir_server_scope)))
      × ((check_session_trunking_allowed l r ≡ true)
          ↔ ((check_clientid_trunking_allowed l r ≡ true) × (l.so_minor_id ≡ r.so_minor_id)))
unfolding check_clientid_trunking_allowed check_session_trunking_allowed
trunking_iff l r =
    let client : (check_clientid_trunking_allowed l r ≡ true) ↔ (
        (l.eir_clientid ≡ r.eir_clientid)
        × (l.so_major_id ≡ r.so_major_id)
        × (l.eir_server_scope ≡ r.eir_server_scope)) =
      all_three (==_iff l.eir_clientid r.eir_clientid) (same_buffer_iff l.so_major_id r.so_major_id)
        (same_buffer_iff l.eir_server_scope r.eir_server_scope) in
    (
      client,
      (
        λ e.
            with_minor (l.eir_clientid == r.eir_clientid) (same_buffer l.so_major_id r.so_major_id)
              (same_buffer l.eir_server_scope r.eir_server_scope) l.so_minor_id r.so_minor_id e,
        λ e.
            and_minor (l.eir_clientid == r.eir_clientid) (same_buffer l.so_major_id r.so_major_id)
              (same_buffer l.eir_server_scope r.eir_server_scope) l.so_minor_id r.so_minor_id e.0
              e.1,
      ),
    )
