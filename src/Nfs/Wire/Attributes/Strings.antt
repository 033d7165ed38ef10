-- ===== src/Nfs/Wire/Attributes/Strings.antt =====
-- Owner and group as decimal strings, and what `nfs_get_ugid` makes of them.
use native.Mathlib.Nat.{pow-suc, mod-eq_of_lt}
use dpfs.Prelude.{
  ℕ, zero, suc, ◌+◌, ◌-◌, ◌*◌, ◌^◌, ◌<◌, ◌≤◌, ◌≡◌, ◌∙◌, refl, ap, true, List, [], ◌∷◌, ◌++◌, arith,
  length, drop, replicate, le→ltb, lt→ltb,
}
use dpfs.Nfs.Wire.Bytes.{htonl}
use dpfs.Nfs.Wire.Attributes.Reader.{ok, cursor, ◌>>=◌, ◌>>◌, check, skip, spend, field32-htonl}
use dpfs.Nfs.Wire.Attributes.{ugid_loop, nfs_get_ugid, is_digit, pad_of, ugid_field}

-- The value of a string of decimal digits, by the place of each digit.
abbrev pub decimal : List ℕ → ℕ
decimal [] = 0
decimal (d ∷ ds) = (d - b'0') * 10 ^ length ds + decimal ds

abbrev pub AreDigits : List ℕ → Type 0
AreDigits [] = Unit {0}
AreDigits (d ∷ ds) = (is_digit d ≡ true) × AreDigits ds

-- A numeric owner or group that fits the 32 bits of `uid`.
pub record IsNumeric (ds : List ℕ) : Type 0 where
  pub digits : AreDigits ds
  pub fits : decimal ds < 2 ^ 32
  pub short : length ds < 2 ^ 31

drop-append : (xs ys : List ℕ) → drop (length xs) (xs ++ ys) ≡ ys
drop-append [] ys = refl
drop-append (x ∷ xs) ys = drop-append xs ys

drop-replicate : (n : ℕ) (ys : List ℕ) → drop n (replicate n 0 ++ ys) ≡ ys
drop-replicate zero ys = refl
drop-replicate (suc n) ys = drop-replicate n ys

pow_pos : (n : ℕ) → 1 ≤ 10 ^ n
pow_pos zero = omega arith
pow_pos (suc n) = rw pow-suc (omega (arith, pow_pos n))

-- One round of the loop: the digit moves from the string to the number.
push_digit :
    (d : ℕ) (ds : List ℕ) (acc : ℕ)
    → (acc * 10 + (d - b'0')) * 10 ^ length ds + decimal ds
      ≡ acc * 10 ^ suc (length ds) + decimal (d ∷ ds)
push_digit d ds acc = rw pow-suc (omega arith)

le_scaled : (x p : ℕ) → 1 ≤ p → x ≤ x * p
le_scaled x p h = grind arith

push_fits :
    (d : ℕ) (ds : List ℕ) (acc : ℕ)
    → acc * 10 ^ suc (length ds) + decimal (d ∷ ds) < 2 ^ 32
    → acc * 10 + (d - b'0') < 2 ^ 32
push_fits d ds acc h = omega (
  arith,
  push_digit d ds acc,
  le_scaled (acc * 10 + (d - b'0')) (10 ^ length ds) (pow_pos (length ds)),
)

ugid_loop-decimal :
    (ds rest : List ℕ) (acc : ℕ)
    → AreDigits ds
    → acc * 10 ^ length ds + decimal ds < 2 ^ 32
    → ugid_loop (length ds) acc (ds ++ rest) ≡ ok (acc * 10 ^ length ds + decimal ds)
unfolding ugid_loop
ugid_loop-decimal [] rest acc d h = ap ok (omega arith)
ugid_loop-decimal (d ∷ ds) rest acc (h, hs) fits =
    rw (h, mod-eq_of_lt (push_fits d ds acc fits))
      (ugid_loop-decimal ds rest (acc * 10 + (d - b'0')) hs (omega (arith, push_digit d ds acc))
        ∙ ap ok (push_digit d ds acc))

nfs_get_ugid-decimal :
    (ds rest : List ℕ) (len : ℕ)
    → IsNumeric ds
    → nfs_get_ugid (length ds) (cursor (ds ++ rest) len) ≡ ok (decimal ds, cursor (ds ++ rest) len)
unfolding nfs_get_ugid
nfs_get_ugid-decimal ds rest len v =
    rw (ugid_loop-decimal ds rest 0 v.digits (omega (arith, v.fits)), nfs_get_ugid)
      (ap (λ (n : ℕ). ok (n, cursor (ds ++ rest) len)) (omega arith))

abbrev pub encode_string : List ℕ → List ℕ → List ℕ
encode_string ds rest = htonl (length ds) ++ (ds ++ (replicate (pad_of (length ds)) 0 ++ rest))

pub ugid_field-decimal :
    (ds rest : List ℕ) (len : ℕ)
    → IsNumeric ds
    → 4 ≤ len
    → length ds ≤ len - 4
    → pad_of (length ds) ≤ len - 4
    → ugid_field (cursor (encode_string ds rest) len)
      ≡ ok (decimal ds, cursor rest (len - 4 - pad_of (length ds)))
unfolding ugid_field skip spend check
ugid_field-decimal ds rest len v four room pad =
    rw
      (
        field32-htonl (length ds) (ds ++ (replicate (pad_of (length ds)) 0 ++ rest)) len
            (omega arith) four,
        ◌>>=◌,
        ◌>>◌,
      )
      (rw (lt→ltb (length ds) (2 ^ 31) v.short, le→ltb (len - 4) (length ds) room, ◌>>=◌, ◌>>◌)
        (rw (nfs_get_ugid-decimal ds after (len - 4) v, ◌>>=◌, ◌>>◌)
          (rw (
            le→ltb (len - 4) (pad_of (length ds)) pad,
            drop-append ds after,
            drop-replicate (pad_of (length ds)) rest,
            ◌>>=◌,
            ◌>>◌,
          ))))
  where
    after : List ℕ
    after = replicate (pad_of (length ds)) 0 ++ rest
