-- ===== src/Hal.antt =====
-- The polling threads of dpfs_hal/src/snap.c: which devices each of them polls, and when they stop.
-- The sizes are 64 bits wide and the counts of devices and threads 16, so nothing wraps but the
-- counter of `all_devices_suspended`.
pub mod Config
pub mod Devices
pub mod Poll
pub mod Windows
pub mod Tests
use dpfs.Prelude.{
  ℕ, ◌+◌, ◌*◌, ◌/◌, ◌%◌, ◌^◌, Bool, true, false, not, ◌&&◌, List, [], ◌∷◌, ◌==◌, if◌then◌else◌,
  length,
}

-- The devices from `first` on and before `past`.
pub record Window : Type 0 where
  pub first : ℕ
  pub past : ℕ

-- `ndevices` is what each thread gets, and thread 0 takes the remainder besides.
unfoldable pub window_of : (ndevices remainder thread_id : ℕ) → Window
window_of ndevices remainder thread_id =
    let devices_start = ndevices * thread_id in
    let devices_end = devices_start + ndevices in
    if (thread_id == 0) && not (remainder == 0)
    then record { first = devices_start; past = devices_end + remainder }
    else if not (remainder == 0)
    then record { first = devices_start + remainder; past = devices_end + remainder }
    else record { first = devices_start; past = devices_end }

unfoldable pub window : (ndevices nthreads thread_id : ℕ) → Window
window ndevices nthreads thread_id = window_of (ndevices / nthreads) (ndevices % nthreads) thread_id

-- The loop over the devices, of which `true` is suspended, with a counter of 16 bits.
unfoldable pub count_suspended : ℕ → List Bool → ℕ
count_suspended n [] = n
count_suspended n (suspended ∷ devices) =
    count_suspended (if suspended then (n + 1) % 2 ^ 16 else n) devices

unfoldable pub all_devices_suspended : List Bool → Bool
unfolding count_suspended
all_devices_suspended devices = count_suspended 0 devices == length devices
