-- ===== src/Hal/Poll.antt =====
-- One poll of a device (dpfs_hal_poll_device of dpfs_hal/src/snap.c), and a thread's polls of it one
-- after the other. What it asks of SNAP is the list of its calls, in order.
use dpfs.Prelude.{
  ℕ, ◌+◌, ◌*◌, ◌%◌, ◌^◌, ◌<◌, ◌≤◌, ◌≡◌, ◌∙◌, inl, inr, refl, sym, ap, arith, Bool, true, false, not,
  ◌&&◌, ◌||◌, List, [], ◌∷◌, ◌++◌, ltb, ◌==◌, ==_iff, if◌then◌else◌, Bool-cases, length, tally,
  tally-append,
}

pub data SnapCall : Type 0 where
  usleep progress_all_io progress suspend : SnapCall

-- What `struct dpfs_hal_device` holds besides its names and pointers.
pub record PolledDevice : Type 0 where
  pub poll_counter : ℕ
  pub suspending : Bool

abbrev incr16 : ℕ → ℕ
incr16 n = (n + 1) % 2 ^ 16

-- The I/O, the management I/O and the counter.
unfoldable pub poll_queues : (polling_interval_usec : ℕ) → ℕ → List SnapCall × ℕ
poll_queues polling_interval_usec poll_counter =
    if ltb 0 polling_interval_usec
    then (usleep ∷ progress_all_io ∷ progress ∷ [], poll_counter)
    else if poll_counter == 10000
    then (progress_all_io ∷ progress ∷ [], 0)
    else (progress_all_io ∷ [], incr16 poll_counter)

unfoldable pub poll_device :
    (polling_interval_usec : ℕ) (keep_running : Bool) → PolledDevice → List SnapCall × PolledDevice
unfolding poll_queues
poll_device polling_interval_usec keep_running dev =
    let (calls, poll_counter) = poll_queues polling_interval_usec dev.poll_counter in
    if not keep_running && not dev.suspending
    then (calls ++ suspend ∷ [], record { poll_counter = poll_counter; suspending = true })
    else (calls, record dev { poll_counter = poll_counter })

-- The polls of a device, with what each of them reads in `keep_running`.
unfoldable pub polls :
    (polling_interval_usec : ℕ) → List Bool → PolledDevice → List SnapCall × PolledDevice
unfolding poll_device
polls usec [] dev = ([], dev)
polls usec (keep_running ∷ reads) dev =
    let (calls, dev') = poll_device usec keep_running dev in
    let (rest, dev'') = polls usec reads dev' in (calls ++ rest, dev'')

abbrev pub is_progress : SnapCall → ℕ
is_progress progress = 1
is_progress _ = 0

abbrev pub is_suspend : SnapCall → ℕ
is_suspend suspend = 1
is_suspend _ = 0

queues-progress :
    (c : ℕ)
    → c ≤ 10000
    → (10001 * tally is_progress (poll_queues 0 c).0 + (poll_queues 0 c).1 ≡ c + 1)
      × ((poll_queues 0 c).1 ≤ 10000)
unfolding poll_queues
queues-progress c h = elim (Bool-cases (c == 10000)) [
  | inl full ↦ rw full (let e = (==_iff c 10000).0 full in (omega arith, omega arith))
  | inr more ↦ rw more (let ne : c < 10000 = ground arith in (omega arith, omega arith))
]

queues-suspend : (usec c : ℕ) → tally is_suspend (poll_queues usec c).0 ≡ 0
unfolding poll_queues
queues-suspend usec c = ground arith

-- One poll without an interval.
poll-progress :
    (keep_running : Bool) (dev : PolledDevice)
    → dev.poll_counter ≤ 10000
    → (10001 * tally is_progress (poll_device 0 keep_running dev).0
          + (poll_device 0 keep_running dev).1.poll_counter
        ≡ dev.poll_counter + 1)
      × ((poll_device 0 keep_running dev).1.poll_counter ≤ 10000)
unfolding poll_device
poll-progress keep_running dev h =
    let (e, le) = queues-progress dev.poll_counter h in
    elim (Bool-cases (not keep_running && not dev.suspending)) [
      | inl stops ↦ rw stops (
        rw (tally-append is_progress (poll_queues 0 dev.poll_counter).0 (suspend ∷ []))
            (omega arith),
        le,
      )
      | inr goes ↦ rw goes (e, le)
    ]

-- Whether a device is to be suspended, as a number.
abbrev flag : Bool → ℕ
flag true = 1
flag false = 0

flag-same : (b : Bool) → 0 + flag b ≡ flag (b || false)
flag-same true = refl
flag-same false = refl

or_assoc : (a b c : Bool) → ((a || b) || c) ≡ (a || (b || c))
or_assoc true b c = refl
or_assoc false b c = refl

flag_if : (b : Bool) → flag b ≡ (if b then 1 else 0)
flag_if true = refl
flag_if false = refl

poll-suspend :
    (usec : ℕ) (keep_running : Bool) (c : ℕ) (suspending : Bool)
    → ((poll_device usec keep_running
          (record { poll_counter = c; suspending = suspending })).1.suspending
        ≡ (suspending || not keep_running))
      × (tally is_suspend
              (poll_device usec keep_running
                (record { poll_counter = c; suspending = suspending })).0
            + flag suspending
          ≡ flag (suspending || not keep_running))
unfolding poll_device
poll-suspend usec true c true = let e = queues-suspend usec c in (refl, omega arith)
poll-suspend usec true c false = let e = queues-suspend usec c in (refl, omega arith)
poll-suspend usec false c true = let e = queues-suspend usec c in (refl, omega arith)
poll-suspend usec false c false =
    let e = queues-suspend usec c in
    (refl, rw (tally-append is_suspend (poll_queues usec c).0 (suspend ∷ [])) (omega arith))

-- Whether one of the reads found that the program is to stop.
abbrev pub stopped : List Bool → Bool
stopped [] = false
stopped (keep_running ∷ reads) = not keep_running || stopped reads

-- Without a polling interval and from a counter of at most 10000, `n` polls look after the management
-- I/O once in 10001 of them, as the counter has it, whatever they read in `keep_running`.
polls-progress :
    (reads : List Bool) (dev : PolledDevice)
    → dev.poll_counter ≤ 10000
    → (10001 * tally is_progress (polls 0 reads dev).0 + (polls 0 reads dev).1.poll_counter
        ≡ dev.poll_counter + length reads)
      × ((polls 0 reads dev).1.poll_counter ≤ 10000)
unfolding polls
polls-progress [] dev h = (omega arith, h)
polls-progress (keep_running ∷ reads) dev h =
    let (one, le) = poll-progress keep_running dev h in
    let (all, le') = polls-progress reads (poll_device 0 keep_running dev).1 le in
    (rw tally-append (omega arith), le')

suspends-flag :
    (usec : ℕ) (reads : List Bool) (dev : PolledDevice)
    → tally is_suspend (polls usec reads dev).0 + flag dev.suspending
      ≡ flag (dev.suspending || stopped reads)
unfolding polls
suspends-flag usec [] dev = flag-same dev.suspending
suspends-flag usec (keep_running ∷ reads) dev =
    let (latched, one) = poll-suspend usec keep_running dev.poll_counter dev.suspending in
    let rest = suspends-flag usec reads (poll_device usec keep_running dev).1 in
    let before = ap flag latched in
    let after : flag ((poll_device usec keep_running dev).1.suspending || stopped reads)
        ≡ flag (dev.suspending || (not keep_running || stopped reads)) =
      ap (λ b. flag (b || stopped reads)) latched
      ∙ ap flag (or_assoc dev.suspending (not keep_running) (stopped reads)) in
    rw (tally-append is_suspend (poll_device usec keep_running dev).0) (omega arith)

-- A device that is not suspended yet is told to suspend once, if one of the polls finds that the
-- program is to stop, and never otherwise.
pub polls-suspend :
    (usec : ℕ) (reads : List Bool) (dev : PolledDevice)
    → dev.suspending ≡ false
    → tally is_suspend (polls usec reads dev).0 ≡ (if stopped reads then 1 else 0)
polls-suspend usec reads dev h =
    let whole : tally is_suspend (polls usec reads dev).0 + 0 ≡ flag (stopped reads) =
      ap (λ b. tally is_suspend (polls usec reads dev).0 + flag b) (sym h)
      ∙ suspends-flag usec reads dev
      ∙ ap (λ b. flag (b || stopped reads)) h in
    let same = flag_if (stopped reads) in omega arith
