-- ===== src/Hal/Devices.antt =====
-- How dpfs_hal_new of dpfs_hal/src/snap.c brings the devices up, and how it and dpfs_hal_destroy take
-- them down. What they ask of SNAP and of the file system is a list of events, in order. There are at
-- most 65535 devices of each kind, so that the loops' indices of 16 bits reach the end.
pub mod Unwind
use dpfs.Prelude.{
  ℕ, zero, suc, ◌+◌, ◌%◌, ◌^◌, Bool, true, false, not, ◌&&◌, Option, none, some, List, [], ◌∷◌,
  ◌++◌, ltb, if◌then◌else◌, length,
}

-- The two optional operations of `struct dpfs_hal_ops`: whether they are given.
pub record HalOps : Type 0 where
  pub register_device : Bool
  pub unregister_device : Bool

pub data HalEvent : Type 0 where
  created : (device_id : ℕ) → HalEvent
  registered : (device_id : ℕ) → HalEvent
  unregistered : (device_id : ℕ) → HalEvent
  destroyed : (device_id : ℕ) → HalEvent
  pci_cleared mock_thread_started mock_thread_joined : HalEvent

pub record HalDevice : Type 0 where
  pub device_id : ℕ
  pub pf_id : ℕ

-- `ok` is whether there is memory for the tag and virtio_fs_ctrl_init gives a controller, by device id.
unfoldable pub init_dev :
    HalOps → (ok : ℕ → Bool) → (device_id pf_id : ℕ) → Option (HalDevice × List HalEvent)
init_dev ops ok device_id pf_id =
    if ok device_id
    then some (
      record { device_id = device_id; pf_id = pf_id % 2 ^ 16 },
      created device_id ∷ (if ops.register_device then registered device_id ∷ [] else []),
    )
    else none

unfoldable pub destroy_dev : HalOps → HalDevice → List HalEvent
destroy_dev ops dev =
    (if ops.unregister_device then unregistered dev.device_id ∷ [] else [])
    ++ destroyed dev.device_id ∷ []

-- A loop of destroy_dev over the devices.
unfoldable pub destroy_devs : HalOps → List HalDevice → List HalEvent
unfolding destroy_dev
destroy_devs ops [] = []
destroy_devs ops (dev ∷ devices) =
    let rest = destroy_devs ops devices in destroy_dev ops dev ++ rest

-- What a loop of init_dev leaves: the devices that are up, the next device id, and whether all are.
pub record Inited : Type 0 where
  pub devices : List HalDevice
  pub events : List HalEvent
  pub next_id : ℕ
  pub all_up : Bool

unfoldable pub init_devs : HalOps → (ok : ℕ → Bool) → (device_id : ℕ) → (pf_ids : List ℕ) → Inited
unfolding init_dev
init_devs ops ok device_id [] = record {
  devices = [];
  events = [];
  next_id = device_id;
  all_up = true;
}
init_devs ops ok device_id (pf_id ∷ pf_ids) =
    let rest = init_devs ops ok ((device_id + 1) % 2 ^ 16) pf_ids in
    elim (init_dev ops ok device_id pf_id) [
      | none ↦ record { devices = []; events = []; next_id = device_id; all_up = false }
      | some (dev, events) ↦ record {
        devices = dev ∷ rest.devices;
        events = events ++ rest.events;
        next_id = rest.next_id;
        all_up = rest.all_up;
      }
    ]

-- `struct dpfs_hal` as far as the devices go.
pub record Hal : Type 0 where
  pub devices : List HalDevice
  pub mock_devices : List HalDevice
  pub mock_thread_running : Bool

-- The devices, the mock devices and the mock thread, with the unwinding of each failure: the events,
-- and the result.
unfoldable pub start_devices :
    HalOps
    → (ok : ℕ → Bool) → (pf_ids mock_pf_ids : List ℕ) → (start_mock_thread thread_ok : Bool)
    → List HalEvent × Option Hal
unfolding init_devs destroy_devs
start_devices ops ok pf_ids mock_pf_ids start_mock_thread thread_ok =
    let first = init_devs ops ok 0 pf_ids in
    let mocks = init_devs ops ok first.next_id mock_pf_ids in
    let undo =
      destroy_devs ops mocks.devices ++ destroy_devs ops first.devices ++ pci_cleared ∷ [] in
    if not first.all_up
    then (first.events ++ destroy_devs ops first.devices ++ pci_cleared ∷ [], none)
    else if not mocks.all_up
    then (first.events ++ mocks.events ++ undo, none)
    else if start_mock_thread && ltb 0 (length mock_pf_ids)
    then if thread_ok
      then (
        first.events ++ mocks.events ++ mock_thread_started ∷ [],
        some (record {
          devices = first.devices;
          mock_devices = mocks.devices;
          mock_thread_running = true;
        }),
      )
      else (first.events ++ mocks.events ++ undo, none)
    else (
      first.events ++ mocks.events,
      some (record {
        devices = first.devices;
        mock_devices = mocks.devices;
        mock_thread_running = false;
      }),
    )

unfoldable pub hal_destroy : HalOps → Hal → List HalEvent
unfolding destroy_devs
hal_destroy ops hal =
    (if hal.mock_thread_running then mock_thread_joined ∷ [] else [])
    ++ destroy_devs ops hal.devices
    ++ destroy_devs ops hal.mock_devices
    ++ pci_cleared ∷ []
