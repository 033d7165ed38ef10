-- ===== src/Hal/Windows.antt =====
-- The windows of the polling threads partition the devices.
use native.Mathlib.Nat.{mod-lt, div-add-mod, mul-le-mul_left, div-lt_iff_lt-mul, le-div_iff_mul-le}
use dpfs.Prelude.{
  ℕ, suc, ◌+◌, ◌-◌, ◌*◌, ◌/◌, ◌%◌, ◌^◌, ◌<◌, ◌≤◌, ◌≡◌, ◌↔◌, inl, inr, Bool, true, false, List, [],
  ◌∷◌, arith, ltb, ltb→lt, if◌then◌else◌, length, Bool-cases, ==_iff,
}
use dpfs.Hal.{Window, window_of, window, count_suspended, all_devices_suspended}

abbrev pub In : ℕ → Window → Type 0
In i w = (w.first ≤ i) × (i < w.past)

window-zero : (n r : ℕ) → (window_of n r 0).first ≡ 0
unfolding window_of
window-zero n r = let e : n * 0 ≡ 0 = omega arith in ground arith

window-past : (n r t : ℕ) → (window_of n r t).past ≡ n * t + n + r
unfolding window_of
window-past n r t = ground arith

window-first : (n r t : ℕ) → 0 < t → (window_of n r t).first ≡ n * t + r
unfolding window_of
window-first n r t h = ground arith

-- The windows of two threads do not overlap.
apart : (n r t u i : ℕ) → t < u → In i (window_of n r t) → In i (window_of n r u) → ⊥
apart n r t u i lt (a, b) (c, d) =
    let next : n * suc t ≤ n * u = mul-le-mul_left n (omega arith) in
    let step : n * suc t ≡ n * t + n = omega arith in
    let b' : i < n * t + n + r = rw window-past at b in
    let c' : n * u + r ≤ i = rw (window-first n r u (omega arith)) at c in omega arith

-- No device is in the windows of two threads.
pub window-disjoint :
    (ndevices nthreads t u i : ℕ)
    → In i (window ndevices nthreads t)
    → In i (window ndevices nthreads u)
    → t ≡ u
unfolding window
window-disjoint ndevices nthreads t u i a b = elim (Bool-cases (ltb t u)) [
  | inl e ↦ absurd (apart (ndevices / nthreads) (ndevices % nthreads) t u i (ltb→lt t u e) a b)
  | inr e ↦ elim (Bool-cases (ltb u t)) [
    | inl f ↦ absurd (apart (ndevices / nthreads) (ndevices % nthreads) u t i (ltb→lt u t f) b a)
    | inr f ↦ ground arith
  ]
]

-- A device past the window of thread 0 is in the window of the thread that its distance gives.
later_window :
    (n r nthreads i : ℕ)
    → n + r ≤ i
    → i < nthreads * n + r
    → (t : ℕ) × (t < nthreads) × In i (window_of n r t)
later_window n r nthreads i late h =
    let t = (i - r) / n in
    let pos : 0 < n = positive n r nthreads i late h in
    let up : t < nthreads = (div-lt_iff_lt-mul pos).1 (omega arith) in
    let low : 1 ≤ t = (le-div_iff_mul-le pos).1 (omega arith) in
    let split : n * t + (i - r) % n ≡ i - r = div-add-mod (i - r) n in
    let short : (i - r) % n < n = mod-lt (i - r) pos in
    (t, up, (rw (window-first n r t (omega arith)) (omega arith), rw window-past (omega arith)))
  where
    positive : (n r nthreads i : ℕ) → n + r ≤ i → i < nthreads * n + r → 0 < n
    positive n r nthreads i late h = elim (Bool-cases (ltb 0 n)) [
      | inl e ↦ ltb→lt 0 n e
      | inr e ↦
          let none : n ≤ 0 = ground arith in
          let less : nthreads * n ≤ nthreads * 0 = mul-le-mul_left nthreads none in omega arith
    ]

-- Every device is in the window of one of the threads, when there are any.
pub window-covers :
    (ndevices nthreads i : ℕ)
    → 0 < nthreads
    → i < ndevices
    → (t : ℕ) × (t < nthreads) × In i (window ndevices nthreads t)
unfolding window
window-covers ndevices nthreads i some_thread h =
    let n = ndevices / nthreads in
    let r = ndevices % nthreads in
    let whole : nthreads * n + r ≡ ndevices = div-add-mod ndevices nthreads in
    elim (Bool-cases (ltb i (n + r))) [
      | inl e ↦
          let lt = ltb→lt i (n + r) e in
          (0, some_thread, (rw window-zero (omega arith), rw window-past (omega arith)))
      | inr e ↦ later_window n r nthreads i (ground arith) (omega arith)
    ]

-- How many devices are suspended.
abbrev pub suspended : List Bool → ℕ
suspended [] = 0
suspended (s ∷ devices) = let rest = suspended devices in if s then suc rest else rest

suspended-le : (devices : List Bool) → suspended devices ≤ length devices
suspended-le [] = omega arith
suspended-le (s ∷ devices) = ground (arith, suspended-le devices)

count_suspended-add :
    (n : ℕ) (devices : List Bool)
    → n + length devices < 2 ^ 16
    → count_suspended n devices ≡ n + suspended devices
unfolding count_suspended
count_suspended-add n [] h = omega arith
count_suspended-add n (true ∷ devices) h =
    let e : (n + 1) % 2 ^ 16 ≡ n + 1 = omega arith in
    rw (e, count_suspended-add (n + 1) devices (omega arith)) (omega arith)
count_suspended-add n (false ∷ devices) h = count_suspended-add n devices (omega arith)

-- With fewer than 2^16 devices, the threads are told that all are suspended exactly when the number of
-- suspended devices is the number of devices.
pub all_devices_suspended_iff :
    (devices : List Bool)
    → length devices < 2 ^ 16
    → (all_devices_suspended devices ≡ true) ↔ (suspended devices ≡ length devices)
unfolding all_devices_suspended
all_devices_suspended_iff devices h =
    let e = count_suspended-add 0 devices (omega arith) in
    (
      λ b. let f = (==_iff (count_suspended 0 devices) (length devices)).0 b in omega arith,
      λ b. (==_iff (count_suspended 0 devices) (length devices)).1 (omega arith),
    )
