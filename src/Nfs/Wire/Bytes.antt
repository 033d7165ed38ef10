-- ===== src/Nfs/Wire/Bytes.antt =====
-- Integers in network byte order (dpfs_nfs/nfs_v4.c).
use dpfs.Prelude.{
  ℕ, zero, suc, ◌+◌, ◌-◌, ◌*◌, ◌/◌, ◌%◌, ◌^◌, ◌<◌, ◌≡◌, List, [], ◌∷◌, ◌++◌, arith, set,
}

-- `ntohl(*(uint32_t *) buf)` at four bytes.
abbrev pub be32 : (a b c d : ℕ) → ℕ
be32 a b c d = a * 2 ^ 24 + b * 2 ^ 16 + c * 2 ^ 8 + d

-- `htonl`, as the four bytes that it leaves in memory.
unfoldable pub htonl : ℕ → List ℕ
htonl v = (v / 2 ^ 24 % 256) ∷ (v / 2 ^ 16 % 256) ∷ (v / 2 ^ 8 % 256) ∷ (v % 256) ∷ []

-- The loop of `nfs_hton64` and `nfs_ntoh64`: byte 7 - i takes the lowest byte, `rounds` times.
unfoldable pub swap_loop : (rounds i val : ℕ) → List ℕ → List ℕ
swap_loop zero i val ptr = ptr
swap_loop (suc n) i val ptr = swap_loop n (i + 1) (val / 256) (set ptr (7 - i) (val % 256))

-- The bytes of `res` in memory, from the lowest address; `res` is not initialised.
unfoldable pub nfs_hton64 : ℕ → List ℕ → List ℕ
unfolding swap_loop
nfs_hton64 val res = swap_loop 8 0 val res

-- A 64-bit load of a little-endian host.
unfoldable pub load64 : List ℕ → ℕ
load64 [] = 0
load64 (b ∷ bytes) = b + 256 * load64 bytes

unfoldable pub nfs_ntoh64 : ℕ → List ℕ → ℕ
unfolding swap_loop load64
nfs_ntoh64 val res = load64 (swap_loop 8 0 val res)

-- `val <<= 32; val |= ...`: the low half is clear, so the union is a sum.
abbrev pub pntoh64 : (a b c d e f g h : ℕ) → ℕ
pntoh64 a b c d e f g h = be32 a b c d * 2 ^ 32 % 2 ^ 64 + be32 e f g h

abbrev pub IsByte : ℕ → Type 0
IsByte b = b < 256

-- Bytes in network order, read by `ntohl`, give back the word that `htonl` was given.
pub htonl-be32 :
    (v : ℕ)
    → v < 2 ^ 32
    → be32 (v / 2 ^ 24 % 256) (v / 2 ^ 16 % 256) (v / 2 ^ 8 % 256) (v % 256) ≡ v
htonl-be32 v h = omega arith

-- A byte of the high half, by division in steps of 256 and in one.
d1 : (v : ℕ) → v / 256 % 256 ≡ v / 2 ^ 8 % 256
d1 v = omega arith

d2 : (v : ℕ) → v / 256 / 256 % 256 ≡ v / 2 ^ 16 % 256
d2 v = omega arith

d3 : (v : ℕ) → v / 256 / 256 / 256 % 256 ≡ v / 2 ^ 24 % 256
d3 v = omega arith

d4 : (v : ℕ) → v / 256 / 256 / 256 / 256 % 256 ≡ v / 2 ^ 32 % 256
d4 v = omega arith

d5 : (v : ℕ) → v / 256 / 256 / 256 / 256 / 256 % 256 ≡ v / 2 ^ 32 / 2 ^ 8 % 256
d5 v = omega arith

d6 : (v : ℕ) → v / 256 / 256 / 256 / 256 / 256 / 256 % 256 ≡ v / 2 ^ 32 / 2 ^ 16 % 256
d6 v = omega arith

d7 : (v : ℕ) → v / 256 / 256 / 256 / 256 / 256 / 256 / 256 % 256 ≡ v / 2 ^ 32 / 2 ^ 24 % 256
d7 v = omega arith

-- `nfs_hton64` leaves the high word and then the low word in network order in memory, whatever
-- the variable held before.
pub nfs_hton64-bytes :
    (v p0 p1 p2 p3 p4 p5 p6 p7 : ℕ)
    → nfs_hton64 v (p0 ∷ p1 ∷ p2 ∷ p3 ∷ p4 ∷ p5 ∷ p6 ∷ p7 ∷ []) ≡ htonl (v / 2 ^ 32) ++ htonl v
unfolding nfs_hton64 htonl
nfs_hton64-bytes v p0 p1 p2 p3 p4 p5 p6 p7 = cc (d7 v, d6 v, d5 v, d4 v, d3 v, d2 v, d1 v)

-- A load of what `nfs_hton64` stores, by `nfs_pntoh64`, gives the value back.
pub pntoh64-hton64 :
    (v : ℕ)
    → v < 2 ^ 64
    → pntoh64
        (v / 2 ^ 32 / 2 ^ 24 % 256)
        (v / 2 ^ 32 / 2 ^ 16 % 256)
        (v / 2 ^ 32 / 2 ^ 8 % 256)
        (v / 2 ^ 32 % 256)
        (v / 2 ^ 24 % 256)
        (v / 2 ^ 16 % 256)
        (v / 2 ^ 8 % 256)
        (v % 256)
      ≡ v
pntoh64-hton64 v h = omega arith

-- `nfs_ntoh64` of a little-endian load of eight bytes, whatever its variable held before, is
-- `nfs_pntoh64` of the same bytes.
pub nfs_ntoh64-pntoh64 :
    (a b c d e f g h : ℕ) (p0 p1 p2 p3 p4 p5 p6 p7 : ℕ)
    → IsByte a × IsByte b × IsByte c × IsByte d × IsByte e × IsByte f × IsByte g × IsByte h
    → nfs_ntoh64
        (load64 (a ∷ b ∷ c ∷ d ∷ e ∷ f ∷ g ∷ h ∷ []))
        (p0 ∷ p1 ∷ p2 ∷ p3 ∷ p4 ∷ p5 ∷ p6 ∷ p7 ∷ [])
      ≡ pntoh64 a b c d e f g h
unfolding nfs_ntoh64
nfs_ntoh64-pntoh64 a b c d e f g h p0 p1 p2 p3 p4 p5 p6 p7 v = omega arith
