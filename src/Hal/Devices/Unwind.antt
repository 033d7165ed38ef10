-- ===== src/Hal/Devices/Unwind.antt =====
-- Whatever is brought up is taken down once.
use dpfs.Prelude.{
  ℕ, ◌+◌, ◌%◌, ◌^◌, ◌≡◌, refl, arith, inl, inr, Bool, true, false, ◌&&◌, Option, none, some, List,
  [], ◌∷◌, ◌++◌, ltb, ◌==◌, length, tally, tally-append, Bool-cases,
}
use dpfs.Hal.Devices.{
  HalOps, HalEvent, created, destroyed, HalDevice, init_dev, destroy_dev, destroy_devs, init_devs,
  Hal, start_devices, hal_destroy,
}

abbrev one_if : Bool → ℕ
one_if true = 1
one_if false = 0

-- How often an event makes a controller for the device, and how often it gives one up.
abbrev pub makes : ℕ → HalEvent → ℕ
makes d (created i) = one_if (i == d)
makes d _ = 0

abbrev pub frees : ℕ → HalEvent → ℕ
frees d (destroyed i) = one_if (i == d)
frees d _ = 0

abbrev has_id : ℕ → HalDevice → ℕ
has_id d dev = one_if (dev.device_id == d)

makes-init :
    (ops : HalOps) (ok : ℕ → Bool) (k d : ℕ) (pf_ids : List ℕ)
    → (tally (makes d) (init_devs ops ok k pf_ids).events
        ≡ tally (has_id d) (init_devs ops ok k pf_ids).devices)
      × (tally (frees d) (init_devs ops ok k pf_ids).events ≡ 0)
unfolding init_devs init_dev
makes-init ops ok k d [] = (refl, refl)
makes-init ops ok k d (pf ∷ pf_ids) =
    let (m, f) = makes-init ops ok ((k + 1) % 2 ^ 16) d pf_ids in
    elim (Bool-cases (ok k)) [
      | inl up ↦ elim (Bool-cases ops.register_device) [
        | inl reg ↦ rw (up, reg, init_devs) (omega arith, omega arith)
        | inr quiet ↦ rw (up, quiet, init_devs) (omega arith, omega arith)
      ]
      | inr down ↦ rw (down, init_devs) (refl, refl)
    ]

frees-destroy :
    (ops : HalOps) (d : ℕ) (devices : List HalDevice)
    → (tally (frees d) (destroy_devs ops devices) ≡ tally (has_id d) devices)
      × (tally (makes d) (destroy_devs ops devices) ≡ 0)
unfolding destroy_devs destroy_dev
frees-destroy ops d [] = (refl, refl)
frees-destroy ops d (dev ∷ devices) =
    let (f, m) = frees-destroy ops d devices in
    elim (Bool-cases ops.unregister_device) [
      | inl un ↦ rw un (omega arith, omega arith)
      | inr quiet ↦ rw quiet (omega arith, omega arith)
    ]

-- The events of a HAL that is brought up and, when that worked, taken down again.
abbrev pub whole_life : HalOps → List HalEvent × Option Hal → List HalEvent
whole_life ops (events, none) = events
whole_life ops (events, some hal) = events ++ hal_destroy ops hal

-- The number of times that the events make a controller for a device, and that they give it up.
abbrev Balanced : ℕ → List HalEvent → Type 0
Balanced d events = tally (makes d) events ≡ tally (frees d) events

-- Whichever of the devices or the mock thread fails, the controller of each device is given up as
-- often as it was made: by the unwinding when dpfs_hal_new fails, and by dpfs_hal_destroy when it does
-- not.
pub start_devices-balanced :
    (ops : HalOps) (ok : ℕ → Bool) (pf_ids mock_pf_ids : List ℕ)
    (start_mock_thread thread_ok : Bool) (d : ℕ)
    → tally
        (makes d)
        (whole_life ops (start_devices ops ok pf_ids mock_pf_ids start_mock_thread thread_ok))
      ≡ tally
          (frees d)
          (whole_life ops (start_devices ops ok pf_ids mock_pf_ids start_mock_thread thread_ok))
unfolding start_devices hal_destroy
start_devices-balanced ops ok pf_ids mock_pf_ids start_mock_thread thread_ok d =
    let first = init_devs ops ok 0 pf_ids in
    let mocks = init_devs ops ok first.next_id mock_pf_ids in
    let (a, b) = makes-init ops ok 0 d pf_ids in
    let (a', b') = makes-init ops ok first.next_id d mock_pf_ids in
    let (f, m) = frees-destroy ops d first.devices in
    let (f', m') = frees-destroy ops d mocks.devices in
    elim (Bool-cases first.all_up) [
      | inr failed ↦ rw (failed) (simp tally-append (omega arith))
      | inl up ↦ elim (Bool-cases mocks.all_up) [
        | inr failed ↦ rw (up, failed) (simp tally-append (omega arith))
        | inl up' ↦ elim (Bool-cases (start_mock_thread && ltb 0 (length mock_pf_ids))) [
          | inr alone ↦ rw (up, up', alone) (simp tally-append (omega arith))
          | inl starts ↦ elim (Bool-cases thread_ok) [
            | inl runs ↦ rw (up, up', starts, runs) (simp tally-append (omega arith))
            | inr fails ↦ rw (up, up', starts, fails) (simp tally-append (omega arith))
          ]
        ]
      ]
    ]
