-- ===== src/Nfs/Wire/Attributes/Length.antt =====
-- What an accepted attribute list is at least long.
use dpfs.Prelude.{ℕ, ◌+◌, ◌≤◌, ◌≡◌, refl, false, inl, inr, List, ltb, arith, Bool-cases}
use dpfs.Nfs.Wire.Attributes.Reader.{
  Parse, ok, short, fault, negative, Cursor, cursor, P, pure, ◌>>=◌, ◌>>◌, check, skip, spend,
  read32, read64, read64_ntoh, field32, field64, field64_ntoh, read32-len, result-ok, read64-len,
  read64_ntoh-len,
}
use dpfs.Nfs.Wire.Attributes.{
  FileTypes, FuseAttr, Kstatfs, ugid_field, nfs_get_ugid, check_slen, pad_of, parse_attributes,
  nfs_parse_attributes, parse_statfs, nfs_parse_statfs,
}

-- Whenever `m` succeeds it takes at least `n` off the count.
abbrev Spends : {A : Type 0} → ℕ → P A → Type 0
Spends {A} n m = (c c' : Cursor) (a : A) → m c ≡ ok (a, c') → c'.len + n ≤ c.len

module _ {A B : Type 0} where
  Spends-bind :
      (n k : ℕ) (m : P A) (f : A → P B)
      → Spends n m
      → ((a : A) → Spends k (f a))
      → Spends (n + k) (m >>= f)
  Spends-bind n k m f first then' c c'' b e = go (m c) refl e
    where
      go :
          (r : Parse (A × Cursor))
          → m c ≡ r
          → (elim r as (λ _. Parse (B × Cursor)) [
            | ok (a, c') ↦ f a c'
            | short ↦ short
            | fault ↦ fault
            | negative ↦ negative
          ])
            ≡ ok (b, c'')
          → c''.len + (n + k) ≤ c.len
      go (ok (a, c')) e e' = omega (arith, first c c' a e, then' a c' c'' b e')
      go short e e' = cc
      go fault e e' = cc
      go negative e e' = cc

short-ne-ok : {A : Type 0} (a : A) → short ≡ ok a → ⊥
short-ne-ok a h = cc

-- A field: the check makes sure that the count does not stop at 0 when it falls.
field-Spends :
    (n : ℕ) (r : P ℕ)
    → ((c c' : Cursor) (a : ℕ) → r c ≡ ok (a, c') → c'.len ≡ c.len)
    → Spends n (check n >> (r >>= λ v. skip n >> (spend n >> pure v)))
unfolding check skip spend
field-Spends n r keeps c c'' b e = elim (Bool-cases (ltb c.len n)) [
  | inl few ↦ absurd (short-ne-ok (b, c'') (rw (few, ◌>>◌, ◌>>=◌) at e))
  | inr room ↦ go (r c) refl room (rw (room, ◌>>◌, ◌>>=◌) at e)
]
  where
    go :
        (s : Parse (ℕ × Cursor))
        → r c ≡ s
        → ltb c.len n ≡ false
        → (elim s as (λ _. Parse (ℕ × Cursor)) [
          | ok (a, c') ↦ (skip n >> (spend n >> pure a)) c'
          | short ↦ short
          | fault ↦ fault
          | negative ↦ negative
        ])
          ≡ ok (b, c'')
        → c''.len + n ≤ c.len
    go (ok (a, c')) h room e' = ground (arith, keeps c c' a h)
    go short h room e' = cc
    go fault h room e' = cc
    go negative h room e' = cc

field32-Spends : Spends 4 field32
unfolding field32
field32-Spends = field-Spends 4 read32 read32-len

field64-Spends : Spends 8 field64
unfolding field64
field64-Spends = field-Spends 8 read64 read64-len

field64_ntoh-Spends : Spends 8 field64_ntoh
unfolding field64_ntoh
field64_ntoh-Spends = field-Spends 8 read64_ntoh read64_ntoh-len

rest-Spends :
    {A : Type 0} (m : P A)
    → ((c c' : Cursor) (a : A) → m c ≡ ok (a, c') → c'.len ≤ c.len)
    → Spends 0 m
rest-Spends m h c c' a e = omega (arith, h c c' a e)

check-Spends : (n : ℕ) → Spends 0 (check n)
unfolding check
check-Spends n = rest-Spends (check n) (λ c c' a e. ground arith)

skip-Spends : (n : ℕ) → Spends 0 (skip n)
unfolding skip
skip-Spends n = rest-Spends (skip n) (λ c c' a e. ground arith)

spend-Spends : (n : ℕ) → Spends 0 (spend n)
unfolding spend
spend-Spends n = rest-Spends (spend n) (λ c c' a e. ground arith)

check_slen-Spends : (n : ℕ) → Spends 0 (check_slen n)
unfolding check_slen check
check_slen-Spends n = rest-Spends (check_slen n) (λ c c' a e. ground arith)

nfs_get_ugid-Spends : (n : ℕ) → Spends 0 (nfs_get_ugid n)
unfolding nfs_get_ugid
nfs_get_ugid-Spends n = rest-Spends (nfs_get_ugid n) (λ c c' a e. ground arith)

pure-Spends : {A : Type 0} (a : A) → Spends 0 (pure a)
pure-Spends a c c' b e = ground arith

ugid_field-Spends : Spends 4 ugid_field
unfolding ugid_field
ugid_field-Spends = Spends-bind 4 0 _ _ field32-Spends λ slen.
    Spends-bind 0 0 _ _ (check_slen-Spends slen) λ _.
      Spends-bind 0 0 _ _ (nfs_get_ugid-Spends slen) λ ugid.
        Spends-bind 0 0 _ _ (skip-Spends slen) λ _.
          Spends-bind 0 0 _ _ (check-Spends (pad_of slen)) λ _.
            Spends-bind 0 0 _ _ (skip-Spends (pad_of slen))
              λ _. Spends-bind 0 0 _ _ (spend-Spends (pad_of slen)) λ _. pure-Spends ugid

parse_attributes-Spends : (types : FileTypes) → Spends 80 (parse_attributes types)
unfolding parse_attributes
parse_attributes-Spends types = Spends-bind 4 76 _ _ field32-Spends λ _.
    Spends-bind 8 68 _ _ field64-Spends λ _. Spends-bind 8 60 _ _ field64-Spends λ _.
      Spends-bind 4 56 _ _ field32-Spends λ _. Spends-bind 4 52 _ _ field32-Spends λ _.
        Spends-bind 4 48 _ _ ugid_field-Spends λ _. Spends-bind 4 44 _ _ ugid_field-Spends λ _.
          Spends-bind 8 36 _ _ field64-Spends λ _. Spends-bind 8 28 _ _ field64-Spends λ _.
            Spends-bind 4 24 _ _ field32-Spends λ _. Spends-bind 8 16 _ _ field64-Spends λ _.
              Spends-bind 4 12 _ _ field32-Spends λ _.
                Spends-bind 8 4 _ _ field64-Spends
                  λ _. Spends-bind 4 0 _ _ field32-Spends λ _. pure-Spends _

parse_statfs-Spends : Spends 44 parse_statfs
unfolding parse_statfs
parse_statfs-Spends = Spends-bind 8 36 _ _ field64_ntoh-Spends λ _.
    Spends-bind 8 28 _ _ field64_ntoh-Spends λ _. Spends-bind 4 24 _ _ field32-Spends λ _.
      Spends-bind 8 16 _ _ field64_ntoh-Spends λ _.
        Spends-bind 8 8 _ _ field64_ntoh-Spends
          λ _. Spends-bind 8 0 _ _ field64_ntoh-Spends λ _. pure-Spends _

-- Whatever the bytes are, an attribute list that is accepted has a stated length of at least 80.
parse_attributes-length :
    (types : FileTypes) (buf : List ℕ) (len : ℕ) (attr : FuseAttr)
    → nfs_parse_attributes types buf len ≡ ok attr
    → 80 ≤ len
unfolding nfs_parse_attributes
parse_attributes-length types buf len attr e =
    let (c, e') = result-ok (parse_attributes types (cursor buf len)) attr e in
    omega (arith, parse_attributes-Spends types (cursor buf len) c attr e')

-- Whatever the bytes are, a file system status that is accepted has a stated length of at least 44.
parse_statfs-length :
    (buf : List ℕ) (len : ℕ) (stat : Kstatfs) → nfs_parse_statfs buf len ≡ ok stat → 44 ≤ len
unfolding nfs_parse_statfs
parse_statfs-length buf len stat e =
    let (c, e') = result-ok (parse_statfs (cursor buf len)) stat e in
    omega (arith, parse_statfs-Spends (cursor buf len) c stat e')
