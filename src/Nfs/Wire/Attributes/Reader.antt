-- ===== src/Nfs/Wire/Attributes/Reader.antt =====
-- The pointer and the count that the parsers of dpfs_nfs/nfs_v4.c move, and the fixed-size fields.
use native.Mathlib.Nat.{mod-lt}
use dpfs.Prelude.{
  ℕ, ◌-◌, ◌≡◌, ◌≤◌, ◌<◌, ◌^◌, ◌/◌, ◌%◌, le→ltb, ◌++◌, ap, ◌∙◌, List, [], ◌∷◌, ltb, if◌then◌else◌,
  drop, arith,
}
use dpfs.Nfs.Wire.Bytes.{
  be32, pntoh64, htonl, htonl-be32, pntoh64-hton64, nfs_ntoh64, load64, nfs_ntoh64-pntoh64,
}

-- `short` is `return -1` ("Not enough data in fattr4"). `fault` is a read outside the buffer, and
-- `negative` a string length that is negative as an int, after which the C code is not modelled.
pub data Parse {ℓ} (A : Type ℓ) : Type ℓ where
  ok : A → Parse A
  short fault negative : Parse A

pub record Cursor : Type 0 where
  pub buf : List ℕ
  pub len : ℕ

abbrev pub cursor : List ℕ → ℕ → Cursor
cursor buf len = record { buf = buf; len = len }

abbrev pub P : Type 0 → Type 0
P A = Cursor → Parse (A × Cursor)

abbrev pub pure : {A : Type 0} → A → P A
pure a c = ok (a, c)

infixl 5 ◌>>=◌ ◌>>◌
abbrev pub ◌>>=◌ : {A B : Type 0} → P A → (A → P B) → P B
◌>>=◌ m f c = elim (m c) [
  | ok (a, c') ↦ f a c'
  | short ↦ short
  | fault ↦ fault
  | negative ↦ negative
]

abbrev pub ◌>>◌ : {B : Type 0} → P (Unit {0}) → P B → P B
m >> k = m >>= λ _. k

-- What a parser returns, without the cursor.
abbrev pub result : {A : Type 0} → Parse (A × Cursor) → Parse A
result (ok (a, c)) = ok a
result short = short
result fault = fault
result negative = negative

-- `CHECK_GETATTR_BUF_SPACE(len, size)`.
unfoldable pub check : ℕ → P (Unit {0})
check size c = if ltb c.len size then short else ok (tt, c)

-- `buf += n`.
unfoldable pub skip : ℕ → P (Unit {0})
skip n c = ok (tt, record c { buf = drop n c.buf })

-- `len -= n`.
unfoldable pub spend : ℕ → P (Unit {0})
spend n c = ok (tt, record c { len = c.len - n })

-- `ntohl(*(uint32_t *) buf)`.
read32_from : List ℕ → Cursor → Parse (ℕ × Cursor)
read32_from (a ∷ b ∷ c ∷ d ∷ _) k = ok (be32 a b c d, k)
read32_from _ k = fault

unfoldable pub read32 : P ℕ
unfolding read32_from
read32 c = read32_from c.buf c

read64_from : List ℕ → Cursor → Parse (ℕ × Cursor)
read64_from (a ∷ b ∷ c ∷ d ∷ e ∷ f ∷ g ∷ h ∷ _) k = ok (pntoh64 a b c d e f g h, k)
read64_from _ k = fault

-- `nfs_pntoh64((uint32_t *) buf)`.
unfoldable pub read64 : P ℕ
unfolding read64_from
read64 c = read64_from c.buf c

-- The check, the read and the two steps that each field of four bytes is parsed by.
unfoldable pub field32 : P ℕ
unfolding check skip spend read32
field32 = do check 4; v ← read32; skip 4; spend 4; pure v

-- The same for eight bytes.
unfoldable pub field64 : P ℕ
unfolding check skip spend read64
field64 = do check 8; v ← read64; skip 8; spend 8; pure v

-- The eight bytes that an uninitialised `res` holds do not matter.
abbrev uninit : List ℕ
uninit = 0 ∷ 0 ∷ 0 ∷ 0 ∷ 0 ∷ 0 ∷ 0 ∷ 0 ∷ []

read64_ntoh_from : List ℕ → Cursor → Parse (ℕ × Cursor)
read64_ntoh_from (a ∷ b ∷ c ∷ d ∷ e ∷ f ∷ g ∷ h ∷ _) k =
    ok (nfs_ntoh64 (load64 (a ∷ b ∷ c ∷ d ∷ e ∷ f ∷ g ∷ h ∷ [])) uninit, k)
read64_ntoh_from _ k = fault

-- `memcpy(&u64, buf, 8)` and `nfs_ntoh64(u64)`.
unfoldable pub read64_ntoh : P ℕ
unfolding read64_ntoh_from nfs_ntoh64 load64
read64_ntoh c = read64_ntoh_from c.buf c

unfoldable pub field64_ntoh : P ℕ
unfolding check skip spend read64_ntoh
field64_ntoh = do check 8; v ← read64_ntoh; skip 8; spend 8; pure v

-- Eight bytes in network order.
abbrev pub hton64 : ℕ → List ℕ
hton64 v = htonl (v / 2 ^ 32) ++ htonl v

-- A field of four bytes is read back, and the cursor steps past it.
pub field32-htonl :
    (v : ℕ) (rest : List ℕ) (len : ℕ)
    → v < 2 ^ 32
    → 4 ≤ len
    → field32 (cursor (htonl v ++ rest) len) ≡ ok (v, cursor rest (len - 4))
unfolding field32 htonl
field32-htonl v rest len b h =
    rw (le→ltb len 4 h, field32, ◌>>◌, ◌>>=◌)
      (ap (λ (w : ℕ). ok (w, cursor rest (len - 4))) (htonl-be32 v b))

pub field64-hton64 :
    (v : ℕ) (rest : List ℕ) (len : ℕ)
    → v < 2 ^ 64
    → 8 ≤ len
    → field64 (cursor (hton64 v ++ rest) len) ≡ ok (v, cursor rest (len - 8))
unfolding field64 htonl
field64-hton64 v rest len b h =
    rw (le→ltb len 8 h, field64, ◌>>◌, ◌>>=◌)
      (ap (λ (w : ℕ). ok (w, cursor rest (len - 8))) (pntoh64-hton64 v b))

pub field64_ntoh-hton64 :
    (v : ℕ) (rest : List ℕ) (len : ℕ)
    → v < 2 ^ 64
    → 8 ≤ len
    → field64_ntoh (cursor (hton64 v ++ rest) len) ≡ ok (v, cursor rest (len - 8))
unfolding check skip spend read64_ntoh_from field64_ntoh htonl
field64_ntoh-hton64 v rest len b h =
    rw (le→ltb len 8 h, field64_ntoh, ◌>>◌, ◌>>=◌)
      (ap (λ (w : ℕ). ok (w, cursor rest (len - 8))) (read_back ∙ pntoh64-hton64 v b))
  where
    read_back :
        nfs_ntoh64
          (load64 (
            (v / 2 ^ 32 / 2 ^ 24 % 256)
            ∷ (v / 2 ^ 32 / 2 ^ 16 % 256)
            ∷ (v / 2 ^ 32 / 2 ^ 8 % 256)
            ∷ (v / 2 ^ 32 % 256)
            ∷ (v / 2 ^ 24 % 256)
            ∷ (v / 2 ^ 16 % 256)
            ∷ (v / 2 ^ 8 % 256)
            ∷ (v % 256)
            ∷ []))
          uninit
        ≡ pntoh64
            (v / 2 ^ 32 / 2 ^ 24 % 256)
            (v / 2 ^ 32 / 2 ^ 16 % 256)
            (v / 2 ^ 32 / 2 ^ 8 % 256)
            (v / 2 ^ 32 % 256)
            (v / 2 ^ 24 % 256)
            (v / 2 ^ 16 % 256)
            (v / 2 ^ 8 % 256)
            (v % 256)
    read_back = nfs_ntoh64-pntoh64 _ _ _ _ _ _ _ _ 0 0 0 0 0 0 0 0 (
      mod-lt _ (omega arith),
      mod-lt _ (omega arith),
      mod-lt _ (omega arith),
      mod-lt _ (omega arith),
      mod-lt _ (omega arith),
      mod-lt _ (omega arith),
      mod-lt _ (omega arith),
      mod-lt _ (omega arith),
    )

-- A read leaves the count alone.
read32_from-len :
    (buf : List ℕ) (k k' : Cursor) (v : ℕ) → read32_from buf k ≡ ok (v, k') → k'.len ≡ k.len
unfolding read32_from
read32_from-len (a ∷ b ∷ c ∷ d ∷ _) k k' v p = ground arith
read32_from-len _ k k' v p = cc

pub read32-len : (k k' : Cursor) (v : ℕ) → read32 k ≡ ok (v, k') → k'.len ≡ k.len
unfolding read32
read32-len k k' v p = read32_from-len k.buf k k' v p

read64_from-len :
    (buf : List ℕ) (k k' : Cursor) (v : ℕ) → read64_from buf k ≡ ok (v, k') → k'.len ≡ k.len
unfolding read64_from
read64_from-len (a ∷ b ∷ c ∷ d ∷ e ∷ f ∷ g ∷ h ∷ _) k k' v p = ground arith
read64_from-len _ k k' v p = cc

pub read64-len : (k k' : Cursor) (v : ℕ) → read64 k ≡ ok (v, k') → k'.len ≡ k.len
unfolding read64
read64-len k k' v p = read64_from-len k.buf k k' v p

read64_ntoh_from-len :
    (buf : List ℕ) (k k' : Cursor) (v : ℕ) → read64_ntoh_from buf k ≡ ok (v, k') → k'.len ≡ k.len
unfolding read64_ntoh_from
read64_ntoh_from-len (a ∷ b ∷ c ∷ d ∷ e ∷ f ∷ g ∷ h ∷ _) k k' v p = ground arith
read64_ntoh_from-len _ k k' v p = cc

pub read64_ntoh-len : (k k' : Cursor) (v : ℕ) → read64_ntoh k ≡ ok (v, k') → k'.len ≡ k.len
unfolding read64_ntoh
read64_ntoh-len k k' v p = read64_ntoh_from-len k.buf k k' v p

pub result-ok :
    {A : Type 0} (r : Parse (A × Cursor)) (a : A) → result r ≡ ok a → (c : Cursor) × (r ≡ ok (a, c))
result-ok (ok (b, c)) a e = (c, ground arith)
result-ok short a e = cc
result-ok fault a e = cc
result-ok negative a e = cc
