-- ===== src/Hal/Config/PowerOfTwo.antt =====
-- The test of the queue depth: `qd & (qd - 1)` is 0 at the powers of 2 and nowhere else.
use mathlib.Core.Path.{subst}
use dpfs.Prelude.{
  ℕ, zero, suc, ◌+◌, ◌-◌, ◌*◌, ◌/◌, ◌%◌, ◌^◌, ◌<◌, ◌≡◌, ◌∙◌, ◌↔◌, inl, inr, ap, arith, false, ◌==◌,
  ==_iff, Bool-cases,
}
use dpfs.Hal.Config.{land}

abbrev pub IsPow2 : ℕ → Type 0
IsPow2 n = (k : ℕ) × (n ≡ 2 ^ k)

pow-suc : (w : ℕ) → 2 ^ suc w ≡ 2 * 2 ^ w
pow-suc w = ground arith

pow-pos : (w : ℕ) → 0 < 2 ^ w
pow-pos zero = omega arith
pow-pos (suc w) = let e = pow-suc w in let h = pow-pos w in omega arith

land_self : (bits n : ℕ) → n < 2 ^ bits → land bits n n ≡ n
unfolding land
land_self zero n h = omega arith
land_self (suc bits) n h =
    let e = pow-suc bits in
    let half = land_self bits (n / 2) (omega arith) in
    elim (Bool-cases (n % 2 == 1)) [
      | inl odd ↦ rw (odd, half) (let o : n % 2 ≡ 1 = (==_iff (n % 2) 1).0 odd in omega arith)
      | inr even ↦ rw (even, half) (let o : n % 2 ≡ 0 = ground arith in omega arith)
    ]

-- A number and the one before it, the first odd or even.
land-odd : (bits m : ℕ) → m < 2 ^ bits → land (suc bits) (1 + 2 * m) (2 * m) ≡ 2 * m
unfolding land
land-odd bits m h =
    let a : (1 + 2 * m) / 2 ≡ m = omega arith in
    let b : (2 * m) / 2 ≡ m = omega arith in
    let c : (2 * m % 2 == 1) ≡ false = ground arith in
    let d : (1 + 2 * m) % 2 ≡ 1 = omega arith in rw (a, b, c, d, land_self bits m h)

land-even : (bits m : ℕ) → 0 < m → land (suc bits) (2 * m) (2 * m - 1) ≡ 2 * land bits m (m - 1)
unfolding land
land-even bits m h =
    let a : (2 * m) / 2 ≡ m = omega arith in
    let b : (2 * m - 1) / 2 ≡ m - 1 = omega arith in
    let c : (2 * m % 2 == 1) ≡ false = ground arith in rw (a, b, c)

double-IsPow2 : (m : ℕ) → 0 < m → IsPow2 (2 * m) → IsPow2 m
double-IsPow2 m h (zero, e) = absurd (omega arith)
double-IsPow2 m h (suc k, e) = let s = pow-suc k in (k, omega arith)

odd-IsPow2 : (m : ℕ) → IsPow2 (1 + 2 * m) → m ≡ 0
odd-IsPow2 m (zero, e) = omega arith
odd-IsPow2 m (suc k, e) = let s = pow-suc k in absurd (omega arith)

-- That the two have no bit in common exactly when the first is a power of 2.
abbrev Tells : ℕ → ℕ → Type 0
Tells bits n = (land bits n (n - 1) ≡ 0) ↔ IsPow2 n

odd-Tells : (bits m : ℕ) → m < 2 ^ bits → Tells (suc bits) (1 + 2 * m)
odd-Tells bits m h =
    let before : 1 + 2 * m - 1 ≡ 2 * m = omega arith in
    let all : land (suc bits) (1 + 2 * m) (1 + 2 * m - 1) ≡ 2 * m =
      ap (land (suc bits) (1 + 2 * m)) before ∙ land-odd bits m h in
    (
      λ e. let one : 1 + 2 * m ≡ 1 = omega arith in (0, one),
      λ p. let none : m ≡ 0 = odd-IsPow2 m p in omega arith,
    )

even-Tells : (bits m : ℕ) → 0 < m → Tells bits m → Tells (suc bits) (2 * m)
even-Tells bits m h tells =
    let all = land-even bits m h in
    (
      λ e.
          let (k, p) = tells.0 (omega arith) in
          let s = pow-suc k in let whole : 2 * m ≡ 2 ^ suc k = omega arith in (suc k, whole),
      λ p. let none = tells.1 (double-IsPow2 m h p) in omega arith,
    )

-- A number that fits into the bits and the one before it have no bit in common exactly when the number
-- is a power of 2.
pub land-pred : (bits n : ℕ) → 0 < n → n < 2 ^ bits → (land bits n (n - 1) ≡ 0) ↔ IsPow2 n
land-pred zero n pos h = absurd (omega arith)
land-pred (suc bits) n pos h =
    let e = pow-suc bits in
    let m = n / 2 in
    elim (Bool-cases (n % 2 == 1)) [
      | inl odd ↦
          let o : n % 2 ≡ 1 = (==_iff (n % 2) 1).0 odd in
          let split : 1 + 2 * m ≡ n = omega arith in
          subst (Tells (suc bits)) split (odd-Tells bits m (omega arith))
      | inr even ↦
          let o : n % 2 ≡ 0 = ground arith in
          let split : 2 * m ≡ n = omega arith in
          subst (Tells (suc bits)) split
            (even-Tells bits m (omega arith) (land-pred bits m (omega arith) (omega arith)))
    ]
