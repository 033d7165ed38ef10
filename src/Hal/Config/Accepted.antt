-- ===== src/Hal/Config/Accepted.antt =====
-- What an accepted configuration is good for: the devices, the threads and the depth of the queues.
use mathlib.Core.Path.{subst}
use dpfs.Prelude.{
  ℕ, ◌-◌, ◌^◌, ◌<◌, ◌≤◌, ◌≡◌, ◌∙◌, inl, inr, refl, sym, ap, arith, ℤ, pos, negsuc, Bool, true,
  false, not, ◌||◌, Option, none, some, List, [], ◌∷◌, map, ltb, ◌==◌, ==_iff, length, length-map,
  Bool-cases,
}
use dpfs.Hal.{window}
use dpfs.Hal.Windows.{In, window-covers, window-disjoint}
use dpfs.Hal.Config.{
  TomlArray, SnapConf, Settings, Checked, accepted, rejected, fault, ◌>>=◌, from_datum, check_ids,
  found_in, check_mock_ids, land, check_queue_depth, check_nthreads, check_polling_interval,
  check_pf_ids, check_mocks, narrow, read_conf,
}
use dpfs.Hal.Config.PowerOfTwo.{IsPow2, land-pred}

abbrev Holds : {A : Type 0} → (A → Type 0) → Checked A → Type 0
Holds P (accepted a) = P a
Holds P rejected = Unit
Holds P fault = Unit

bind-Holds :
    {A B : Type 0} (P : A → Type 0) (Q : B → Type 0) (m : Checked A) (f : A → Checked B)
    → Holds P m
    → ((a : A) → P a → Holds Q (f a))
    → Holds Q (m >>= f)
bind-Holds P Q (accepted a) f h k = k a h
bind-Holds P Q rejected f h k = tt
bind-Holds P Q fault f h k = tt

any-Holds : {A : Type 0} (m : Checked A) → Holds (λ a. Unit {0}) m
any-Holds (accepted a) = tt
any-Holds rejected = tt
any-Holds fault = tt

datum-Holds : {A : Type 0} (o : Option A) → Holds (λ a. o ≡ some a) (from_datum o)
datum-Holds none = tt
datum-Holds (some a) = refl

abbrev pub int_of : ℕ → Option ℤ
int_of n = some (pos n)

ids-Holds : (ids : List (Option ℤ)) → Holds (λ ns. ids ≡ map int_of ns) (check_ids ids)
unfolding check_ids
ids-Holds [] = refl
ids-Holds (none ∷ ids) = tt
ids-Holds (some (negsuc n) ∷ ids) = tt
ids-Holds (some (pos n) ∷ ids) =
    bind-Holds (λ ns. ids ≡ map int_of ns) (λ ns. some (pos n) ∷ ids ≡ map int_of ns)
      (check_ids ids) (λ rest. accepted (n ∷ rest)) (ids-Holds ids)
      (λ rest e. ap (λ r. some (pos n) ∷ r) e)

false-ne-true : false ≡ true → ⊥
false-ne-true e = cc

-- No id of the second list is in the first one.
abbrev pub Apart : List ℕ → List ℕ → Type 0
Apart pf_ids mocks = (n : ℕ) → found_in n mocks ≡ true → found_in n pf_ids ≡ false

Apart-cons :
    (pf_ids mocks : List ℕ) (m : ℕ)
    → found_in m pf_ids ≡ false
    → Apart pf_ids mocks
    → Apart pf_ids (m ∷ mocks)
unfolding found_in
Apart-cons pf_ids mocks m new h n e = elim (Bool-cases (n == m)) [
  | inl same ↦ subst (λ k. found_in k pf_ids ≡ false) (sym ((==_iff n m).0 same)) new
  | inr other ↦ h n (rw other at e)
]

-- The ids of the mock devices as the configuration holds them.
abbrev pub GivenMocks : List ℕ → List (Option ℤ) → List ℕ → Type 0
GivenMocks pf_ids ids mocks = Apart pf_ids mocks × (ids ≡ map int_of mocks)

mocks-Holds :
    (pf_ids : List ℕ) (ids : List (Option ℤ))
    → Holds (GivenMocks pf_ids ids) (check_mock_ids pf_ids ids)
unfolding check_mock_ids found_in
mocks-Holds pf_ids [] = (λ n e. absurd (false-ne-true e), refl)
mocks-Holds pf_ids (none ∷ ids) = tt
mocks-Holds pf_ids (some (negsuc n) ∷ ids) = tt
mocks-Holds pf_ids (some (pos n) ∷ ids) = elim (Bool-cases (found_in n pf_ids)) [
  | inl taken ↦ rw (taken, Holds) tt
  | inr new ↦
      rw (new, Holds)
        (bind-Holds (GivenMocks pf_ids ids) (GivenMocks pf_ids (some (pos n) ∷ ids))
          (check_mock_ids pf_ids ids) (λ mocks. accepted (n ∷ mocks)) (mocks-Holds pf_ids ids)
          (λ mocks h. (Apart-cons pf_ids mocks n new h.0, ap (λ r. some (pos n) ∷ r) h.1)))
]

abbrev pub elements_of : Option TomlArray → List (Option ℤ)
elements_of none = []
elements_of (some array) = array.elements

optional-Holds :
    (null_is_empty : Bool) (pf_ids : List ℕ) (array : Option TomlArray)
    → Holds (GivenMocks pf_ids (elements_of array)) (check_mocks null_is_empty pf_ids array)
unfolding check_mocks found_in
optional-Holds true pf_ids none = (λ n e. absurd (false-ne-true e), refl)
optional-Holds false pf_ids none = tt
optional-Holds b pf_ids (some array) = elim (Bool-cases array.has_values) [
  | inl has ↦ rw (has, Holds) (mocks-Holds pf_ids array.elements)
  | inr has_not ↦ rw (has_not, Holds) tt
]

weaken :
    {A : Type 0} (P Q : A → Type 0) (m : Checked A) → Holds P m → ((a : A) → P a → Q a) → Holds Q m
weaken P Q (accepted a) h k = k a h
weaken P Q rejected h k = tt
weaken P Q fault h k = tt

-- The ids of the devices, against what the configuration holds.
pub record Devices (conf : Option TomlArray) (ids : List ℕ) : Type 0 where
  pub array : TomlArray
  pub given : conf ≡ some array
  pub same : array.elements ≡ map int_of ids
  pub some_device : 0 < length ids
  pub few : length ids < 2 ^ 16

pf_ids-Holds : (conf : Option TomlArray) → Holds (Devices conf) (check_pf_ids conf)
unfolding check_pf_ids
pf_ids-Holds none = tt
pf_ids-Holds (some array) =
    elim (Bool-cases (
      (ltb (length array.elements) 1 || ltb (2 ^ 16 - 1) (length array.elements))
      || not array.has_values)) [
        | inl bad ↦ rw (bad, Holds) tt
        | inr good ↦
            let some_id : 0 < length array.elements = ground arith in
            let few : length array.elements < 2 ^ 16 = ground arith in
            rw (good, Holds)
              (weaken (λ ids. array.elements ≡ map int_of ids) (Devices (some array))
                (check_ids array.elements) (ids-Holds array.elements)
                (λ ids same.
                  let l : length array.elements ≡ length ids =
                    ap length same ∙ length-map ids int_of in
                  record {
                    array = array;
                    given = refl;
                    same = same;
                    some_device = omega arith;
                    few = omega arith;
                  }))
      ]

depth-Holds :
    (qd : ℤ)
    → ((n : ℕ) → qd ≡ pos n → n < 2 ^ 64)
    → Holds (λ d. IsPow2 d × (qd ≡ pos d)) (check_queue_depth qd)
unfolding check_queue_depth
depth-Holds (negsuc n) h = tt
depth-Holds (pos n) h = elim (Bool-cases (ltb n 1)) [
  | inl low ↦ rw (low, Holds) tt
  | inr positive ↦ elim (Bool-cases (land 64 n (n - 1) == 0)) [
    | inl zero_and ↦
        rw (positive, zero_and, Holds)
          (
            (land-pred 64 n (ground arith) (h n refl)).0
                ((==_iff (land 64 n (n - 1)) 0).0 zero_and),
            refl,
          )
    | inr other ↦ rw (positive, other, Holds) tt
  ]
]

threads-Holds :
    (ndevices : ℕ) (n : ℤ) → Holds (λ t. (0 < t) × (t ≤ ndevices)) (check_nthreads ndevices n)
unfolding check_nthreads
threads-Holds ndevices (negsuc n) = tt
threads-Holds ndevices (pos n) = elim (Bool-cases (ltb n 1)) [
  | inl low ↦ rw (low, Holds) tt
  | inr positive ↦ elim (Bool-cases (ltb ndevices n)) [
    | inl many ↦ rw (positive, many, Holds) tt
    | inr fits ↦ rw (positive, fits, Holds) (ground arith, ground arith)
  ]
]

-- The settings against what was accepted: `ids`, `mocks` and `depth` before they become an `int`.
record IsRead (conf : SnapConf) (s : Settings) : Type 0 where
  ids : List ℕ
  mocks : List ℕ
  depth : ℕ
  devices : Devices conf.pf_ids ids
  pf_ids : s.pf_ids ≡ map narrow ids
  apart : GivenMocks ids (elements_of conf.mock_pf_ids) mocks
  mock_pf_ids : s.mock_pf_ids ≡ map narrow mocks
  pow : IsPow2 depth
  given : conf.queue_depth ≡ some (pos depth)
  queue_depth : s.queue_depth ≡ narrow depth
  some_thread : 0 < s.nthreads
  fewer_threads : s.nthreads ≤ length ids

IsRead-Holds :
    (null_is_empty : Bool) (conf : SnapConf)
    → ((n : ℕ) → conf.queue_depth ≡ some (pos n) → n < 2 ^ 64)
    → Holds (IsRead conf) (read_conf null_is_empty conf)
unfolding read_conf
IsRead-Holds null_is_empty conf small =
    bind-Holds _ _ (from_datum conf.emu_manager) _ (any-Holds _) λ emu_manager u.
      bind-Holds (Devices conf.pf_ids) _ (check_pf_ids conf.pf_ids) _ (pf_ids-Holds conf.pf_ids)
        λ ids devices.
          bind-Holds (λ qd. conf.queue_depth ≡ some qd) _ (from_datum conf.queue_depth) _
            (datum-Holds conf.queue_depth)
            λ qd given.
              bind-Holds (λ d. IsPow2 d × (qd ≡ pos d)) _ (check_queue_depth qd) _
                (depth-Holds qd (λ n e. small n (given ∙ ap some e)))
                λ depth pow. bind-Holds _ _ (from_datum conf.nthreads) _ (any-Holds _) λ n v.
                  bind-Holds (λ t. (0 < t) × (t ≤ length ids)) _ (check_nthreads (length ids) n) _
                    (threads-Holds (length ids) n)
                    λ t threads.
                      bind-Holds _ _ (from_datum conf.polling_interval_usec) _ (any-Holds _)
                        λ usec x.
                          bind-Holds _ _ (check_polling_interval usec) _ (any-Holds _) λ interval y.
                            bind-Holds _ _ (from_datum conf.tag) _ (any-Holds _) λ tag z.
                              bind-Holds (GivenMocks ids (elements_of conf.mock_pf_ids))
                                (IsRead conf) (check_mocks null_is_empty ids conf.mock_pf_ids) _
                                (optional-Holds null_is_empty ids conf.mock_pf_ids)
                                λ mocks apart. record {
                                  ids = ids;
                                  mocks = mocks;
                                  depth = depth;
                                  devices = devices;
                                  pf_ids = refl;
                                  apart = apart;
                                  mock_pf_ids = refl;
                                  pow = pow.0;
                                  given = given ∙ ap some pow.1;
                                  queue_depth = refl;
                                  some_thread = omega arith;
                                  fewer_threads = omega arith;
                                }

-- Each element that is an integer of at least 0 is below 2 ^ 31.
abbrev pub FitInt : List (Option ℤ) → Type 0
FitInt [] = Unit
FitInt (none ∷ ids) = FitInt ids
FitInt (some (negsuc n) ∷ ids) = FitInt ids
FitInt (some (pos n) ∷ ids) = (n < 2 ^ 31) × FitInt ids

narrow-fit : (ns : List ℕ) → FitInt (map int_of ns) → map narrow ns ≡ ns
narrow-fit [] h = refl
narrow-fit (n ∷ ns) (lt, h) =
    let same : narrow n ≡ n = omega arith in rw (same, narrow-fit ns h) refl

-- What the program relies on.
pub record IsSound (conf : SnapConf) (s : Settings) : Type 0 where
  pub devices : Devices conf.pf_ids s.pf_ids
  pub some_thread : 0 < s.nthreads
  pub fewer_threads : s.nthreads ≤ length s.pf_ids
  pub depth : IsPow2 s.queue_depth
  pub depth_given : conf.queue_depth ≡ some (pos s.queue_depth)
  pub apart : Apart s.pf_ids s.mock_pf_ids
  pub mocks_given : elements_of conf.mock_pf_ids ≡ map int_of s.mock_pf_ids

-- When a configuration, of which the queue depth and all ids are below 2 ^ 31, is accepted: the ids
-- that the devices are initialized with are those of the file, in order, between 1 and 65535 of
-- them, and so are those of the mock devices; there is at least one thread and no more than there
-- are devices; the queue depth is the one of the file and a power of 2; and no mock device has the
-- id of a device.
pub read_conf-IsSound :
    (null_is_empty : Bool) (conf : SnapConf) (s : Settings)
    → ((n : ℕ) → conf.queue_depth ≡ some (pos n) → n < 2 ^ 31)
    → FitInt (elements_of conf.pf_ids)
    → FitInt (elements_of conf.mock_pf_ids)
    → read_conf null_is_empty conf ≡ accepted s
    → IsSound conf s
read_conf-IsSound null_is_empty conf s small fit mock_fit e =
    let read : IsRead conf s =
      subst (Holds (IsRead conf)) e (
        IsRead-Holds null_is_empty conf (λ n given. let lt = small n given in omega (arith, lt))) in
    let array_given : elements_of conf.pf_ids ≡ map int_of read.ids =
      ap elements_of read.devices.given ∙ read.devices.same in
    let ids : s.pf_ids ≡ read.ids =
      read.pf_ids ∙ narrow-fit read.ids (subst FitInt array_given fit) in
    let mocks : s.mock_pf_ids ≡ read.mocks =
      read.mock_pf_ids ∙ narrow-fit read.mocks (subst FitInt read.apart.1 mock_fit) in
    let lt = small read.depth read.given in
    let depth : s.queue_depth ≡ read.depth =
      let kept : narrow read.depth ≡ read.depth = omega (arith, lt) in read.queue_depth ∙ kept in
    record {
      devices = rw ids read.devices;
      some_thread = read.some_thread;
      fewer_threads = rw ids read.fewer_threads;
      depth = rw depth read.pow;
      depth_given = rw depth read.given;
      apart = rw (ids, mocks) read.apart.0;
      mocks_given = rw mocks read.apart.1;
    }

-- Each device of an accepted configuration, of which the queue depth fits into 64 bits, is polled by
-- one of the threads and by no other.
pub accepted-polled :
    (null_is_empty : Bool) (conf : SnapConf) (s : Settings) (i : ℕ)
    → ((n : ℕ) → conf.queue_depth ≡ some (pos n) → n < 2 ^ 64)
    → read_conf null_is_empty conf ≡ accepted s
    → i < length s.pf_ids
    → (t : ℕ) × (t < s.nthreads)
      × In i (window (length s.pf_ids) s.nthreads t)
      × ((u : ℕ) → In i (window (length s.pf_ids) s.nthreads u) → u ≡ t)
accepted-polled null_is_empty conf s i small e h =
    let read : IsRead conf s =
      subst (Holds (IsRead conf)) e (IsRead-Holds null_is_empty conf small) in
    let (t, lt, inside) = window-covers (length s.pf_ids) s.nthreads i read.some_thread h in
    (t, lt, inside, λ u also. window-disjoint (length s.pf_ids) s.nthreads u t i also inside)
