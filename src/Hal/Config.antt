-- ===== src/Hal/Config.antt =====
-- How dpfs_hal_new of dpfs_hal/src/snap.c reads the table [snap_hal] of a configuration. What the TOML
-- library finds in the file is the argument: `none` for a value that is missing or of another type.
pub mod PowerOfTwo
pub mod Accepted
use dpfs.Prelude.{
  ℕ, zero, suc, ◌+◌, ◌-◌, ◌*◌, ◌/◌, ◌%◌, ◌^◌, ℤ, pos, negsuc, Bool, true, false, not, ◌&&◌, ◌||◌,
  Option, none, some, List, [], ◌∷◌, ltb, leb, ◌==◌, if◌then◌else◌, length, map,
}

-- `has_values` is that `toml_array_kind` gives 'v', and the elements are those of `toml_int_at`.
pub record TomlArray : Type 0 where
  pub has_values : Bool
  pub elements : List (Option ℤ)

-- Strings are lists of characters, and characters are numbers.
pub record SnapConf : Type 0 where
  pub emu_manager : Option (List ℕ)
  pub pf_ids : Option TomlArray
  pub queue_depth : Option ℤ
  pub nthreads : Option ℤ
  pub polling_interval_usec : Option ℤ
  pub tag : Option (List ℕ)
  pub mock_pf_ids : Option TomlArray

-- What goes into `struct dpfs_hal`, and what the devices are initialized with, where the ids and the
-- queue depth are the 32 bits of an `int`.
pub record Settings : Type 0 where
  pub polling_interval_usec : ℕ
  pub nthreads : ℕ
  pub pf_ids : List ℕ
  pub mock_pf_ids : List ℕ
  pub queue_depth : ℕ
  pub emu_manager : List ℕ
  pub tag : List ℕ

-- `rejected` is NULL, and `fault` is a call of the TOML library with NULL for an array.
pub data Checked (A : Type 0) : Type 0 where
  accepted : A → Checked A
  rejected fault : Checked A

abbrev pub then_check : {A B : Type 0} → Checked A → (A → Checked B) → Checked B
then_check (accepted a) f = f a
then_check rejected f = rejected
then_check fault f = fault

infixl 5 ◌>>=◌
abbrev pub ◌>>=◌ : {A B : Type 0} → Checked A → (A → Checked B) → Checked B
m >>= f = then_check m f

abbrev pub from_datum : {A : Type 0} → Option A → Checked A
from_datum none = rejected
from_datum (some a) = accepted a

-- The two loops over the ids: each is an integer of at least 0.
unfoldable pub check_ids : List (Option ℤ) → Checked (List ℕ)
check_ids [] = accepted []
check_ids (none ∷ ids) = rejected
check_ids (some (negsuc n) ∷ ids) = rejected
check_ids (some (pos n) ∷ ids) = then_check (check_ids ids) (λ rest. accepted (n ∷ rest))

-- The search for a mock id among the others.
unfoldable pub found_in : ℕ → List ℕ → Bool
found_in n [] = false
found_in n (m ∷ ids) = let rest = found_in n ids in if n == m then true else rest

unfoldable pub check_mock_ids : List ℕ → List (Option ℤ) → Checked (List ℕ)
unfolding found_in
check_mock_ids pf_ids [] = accepted []
check_mock_ids pf_ids (none ∷ ids) = rejected
check_mock_ids pf_ids (some (negsuc n) ∷ ids) = rejected
check_mock_ids pf_ids (some (pos n) ∷ ids) =
    let rest = check_mock_ids pf_ids ids in
    if found_in n pf_ids then rejected else then_check rest (λ mocks. accepted (n ∷ mocks))

-- `a & b`, on so many bits.
unfoldable pub land : ℕ → ℕ → ℕ → ℕ
land zero a b = 0
land (suc bits) a b =
    let rest = 2 * land bits (a / 2) (b / 2) in
    if (a % 2 == 1) && (b % 2 == 1) then 1 + rest else rest

-- `qd.u.i < 1 || (qd.u.i & (qd.u.i - 1))` is false.
unfoldable pub check_queue_depth : ℤ → Checked ℕ
check_queue_depth (negsuc n) = rejected
check_queue_depth (pos n) =
    if ltb n 1 then rejected else if land 64 n (n - 1) == 0 then accepted n else rejected

-- `nthreads` against the number of devices.
unfoldable pub check_nthreads : ℕ → ℤ → Checked ℕ
check_nthreads ndevices (negsuc n) = rejected
check_nthreads ndevices (pos n) =
    if ltb n 1 then rejected else if ltb ndevices n then rejected else accepted n

unfoldable pub check_polling_interval : ℤ → Checked ℕ
check_polling_interval (negsuc n) = rejected
check_polling_interval (pos n) = accepted n

unfoldable pub check_pf_ids : Option TomlArray → Checked (List ℕ)
unfolding check_ids
check_pf_ids none = rejected
check_pf_ids (some array) =
    if (ltb (length array.elements) 1 || ltb (2 ^ 16 - 1) (length array.elements))
      || not array.has_values
    then rejected
    else check_ids array.elements

-- The optional array; `null_is_empty` is whether `toml_array_nelem` takes NULL for an empty one.
unfoldable pub check_mocks : (null_is_empty : Bool) → List ℕ → Option TomlArray → Checked (List ℕ)
unfolding check_mock_ids
check_mocks null_is_empty pf_ids none = if null_is_empty then accepted [] else fault
check_mocks null_is_empty pf_ids (some array) =
    if array.has_values then check_mock_ids pf_ids array.elements else rejected

-- The conversion to the `int` of dpfs_hal_init_dev, as its 32 bits.
abbrev pub narrow : ℕ → ℕ
narrow n = n % 2 ^ 32

-- The settings are narrowed to the fields' 32 and 16 bits, and the ids and the depth to an `int`.
unfoldable pub read_conf : (null_is_empty : Bool) → SnapConf → Checked Settings
unfolding check_pf_ids check_queue_depth check_nthreads check_polling_interval check_mocks
read_conf null_is_empty conf = do
  emu_manager ← from_datum conf.emu_manager
  pf_ids ← check_pf_ids conf.pf_ids
  qd ← from_datum conf.queue_depth
  queue_depth ← check_queue_depth qd
  n ← from_datum conf.nthreads
  nthreads ← check_nthreads (length pf_ids) n
  usec ← from_datum conf.polling_interval_usec
  polling_interval ← check_polling_interval usec
  tag ← from_datum conf.tag
  mock_pf_ids ← check_mocks null_is_empty pf_ids conf.mock_pf_ids
  accepted (record {
    polling_interval_usec = polling_interval % 2 ^ 32;
    nthreads = nthreads % 2 ^ 16;
    pf_ids = map narrow pf_ids;
    mock_pf_ids = map narrow mock_pf_ids;
    queue_depth = narrow queue_depth;
    emu_manager = emu_manager;
    tag = tag;
  })
