-- ===== src/Hal/Tests.antt =====
-- The polling threads, the configuration and the devices of the hardware abstraction layer, at concrete
-- values. With seven devices and three threads the windows are 0 to 2, 3 to 4 and 5 to 6.
use dpfs.Prelude.{
  ℕ, ◌^◌, ◌<◌, ◌≡◌, refl, Bool, true, false, not, ◌==◌, some, List, [], ◌∷◌, pos, tally, arith,
}
use dpfs.Hal.Poll.{PolledDevice, polls, is_suspend, polls-suspend}
use dpfs.Hal.Config.{
  SnapConf, Settings, accepted, read_conf, check_pf_ids, check_ids, check_queue_depth, land,
  check_nthreads, check_polling_interval, check_mocks, check_mock_ids, found_in,
}
use dpfs.Hal.Config.Accepted.{IsSound, read_conf-IsSound, accepted-polled}
use dpfs.Hal.Devices.{
  HalOps, start_devices, init_devs, init_dev, destroy_devs, destroy_dev, hal_destroy,
}
use dpfs.Hal.Devices.Unwind.{makes, frees, whole_life, start_devices-balanced}
use dpfs.Hal.{window}
use dpfs.Hal.Windows.{In}

abbrev second : ℕ
second = 1

-- Three polls from a counter of 9999, of which the last finds that the program is to stop.
abbrev three_reads : List Bool
three_reads = true ∷ true ∷ false ∷ []

abbrev polled : PolledDevice
polled = record { poll_counter = 9999; suspending = false }

polls-suspend_example : tally is_suspend (polls 50 three_reads polled).0 ≡ 1
polls-suspend_example = polls-suspend 50 three_reads polled refl

-- Three physical functions, and a mock one besides.
abbrev conf : SnapConf
conf = record {
  emu_manager = some [];
  pf_ids =
      some
        (record { has_values = true; elements = some (pos 0) ∷ some (pos 1) ∷ some (pos 2) ∷ [] });
  queue_depth = some (pos 64);
  nthreads = some (pos 2);
  polling_interval_usec = some (pos 0);
  tag = some [];
  mock_pf_ids = some (record { has_values = true; elements = some (pos 3) ∷ [] });
}

abbrev settings : Settings
settings = record {
  polling_interval_usec = 0;
  nthreads = 2;
  pf_ids = 0 ∷ 1 ∷ 2 ∷ [];
  mock_pf_ids = 3 ∷ [];
  queue_depth = 64;
  emu_manager = [];
  tag = [];
}

accepts_conf : read_conf false conf ≡ accepted settings
unfolding read_conf check_pf_ids check_ids check_queue_depth land check_nthreads
    check_polling_interval check_mocks check_mock_ids found_in
accepts_conf = refl

small_depth : (n : ℕ) → some (pos 64) ≡ some (pos n) → n < 2 ^ 64
small_depth n e = let same : 64 ≡ n = cc in omega arith

int_depth : (n : ℕ) → some (pos 64) ≡ some (pos n) → n < 2 ^ 31
int_depth n e = let same : 64 ≡ n = cc in omega arith

read_conf-IsSound_example : IsSound conf settings
read_conf-IsSound_example =
    read_conf-IsSound false conf settings int_depth (omega arith, (omega arith, (omega arith, tt)))
      (omega arith, tt) accepts_conf

accepted-polled_example :
    (t : ℕ) × (t < 2) × In 1 (window 3 2 t) × ((u : ℕ) → In 1 (window 3 2 u) → u ≡ t)
accepted-polled_example =
    accepted-polled false conf settings 1 small_depth accepts_conf (omega arith)

abbrev both_ops : HalOps
both_ops = record { register_device = true; unregister_device = true }

-- The third of four devices fails.
abbrev all_but_third : ℕ → Bool
all_but_third d = not (d == 2)

start_devices-balanced_example :
    tally (makes 1) (
      whole_life both_ops
        (start_devices both_ops all_but_third (5 ∷ 6 ∷ []) (7 ∷ 8 ∷ []) true true))
    ≡ tally (frees 1) (
        whole_life both_ops
          (start_devices both_ops all_but_third (5 ∷ 6 ∷ []) (7 ∷ 8 ∷ []) true true))
start_devices-balanced_example =
    start_devices-balanced both_ops all_but_third (5 ∷ 6 ∷ []) (7 ∷ 8 ∷ []) true true 1

-- It has a controller of its own to give up.
makes_one :
    tally (makes 1) (
      whole_life both_ops
        (start_devices both_ops all_but_third (5 ∷ 6 ∷ []) (7 ∷ 8 ∷ []) true true))
    ≡ second
unfolding start_devices init_devs init_dev destroy_devs destroy_dev hal_destroy
makes_one = refl
