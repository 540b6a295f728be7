-- ===== src/Registry.antt =====
-- source/device_registry.c: the table of the peers that discovery has seen.
-- The list is `devices[0 .. count)`, so `count` is its length. NULL arguments are not modelled.
pub mod Oldest
pub mod Upsert
pub mod Map
pub mod Compact
pub mod Prune
mod Tests
use localsend3ds.Prelude.{
  ◌≡◌, ℕ, zero, suc, ◌+◌, ◌-◌, Bool, true, false, not, ◌&&◌, ◌||◌, Option, none, some, List, [],
  ◌∷◌, ◌++◌, Bytes, ltb, leb, ◌==◌, if◌then◌else◌, length, set, get_elem?, take, str_eq, is_empty,
}
use localsend3ds.Device.{Device, type_code, protocol_code}

pub data RegistryResult : Type 0 where
  unchanged added updated replaced : RegistryResult

abbrev pub Registry : Type 0
Registry = List Device

abbrev pub max_devices : ℕ
max_devices = 16

abbrev pub bool_eq : Bool → Bool → Bool
bool_eq true b = b
bool_eq false b = not b

unfoldable pub same_device_data : Device → Device → Bool
same_device_data left right =
    str_eq left.alias right.alias
    && str_eq left.version right.version
    && str_eq left.device_model right.device_model
    && type_code left.device_type == type_code right.device_type
    && str_eq left.fingerprint right.fingerprint
    && str_eq left.ip_address right.ip_address
    && left.port == right.port
    && protocol_code left.protocol == protocol_code right.protocol
    && bool_eq left.download right.download
    && bool_eq left.announce right.announce

-- `ls_registry_init`
unfoldable pub init : Registry
init = []

abbrev pub stamp : Device → ℕ → Device
stamp device now_ms = record device { last_seen_ms = now_ms }

abbrev pub keep : Device → Option (RegistryResult × Registry) → Option (RegistryResult × Registry)
keep d none = none
keep d (some (r, rest)) = some (r, d ∷ rest)

-- The first loop of `ls_registry_upsert`; `none` is a loop that runs to its end.
unfoldable pub update_known : Device → ℕ → Registry → Option (RegistryResult × Registry)
update_known device now_ms [] = none
update_known device now_ms (d ∷ ds) =
    if str_eq d.fingerprint device.fingerprint
    then some (if same_device_data d device then unchanged else updated, stamp device now_ms ∷ ds)
    else keep d (update_known device now_ms ds)

-- The second loop: `devices[oldest].last_seen_ms` is `seen`, and the list is `devices[i .. count)`.
unfoldable pub oldest_from : ℕ → ℕ → ℕ → Registry → ℕ
oldest_from oldest seen i [] = oldest
oldest_from oldest seen i (d ∷ ds) =
    let older = ltb d.last_seen_ms seen in
    oldest_from (if older then i else oldest) (if older then d.last_seen_ms else seen) (i + 1) ds

unfoldable pub oldest_index : Registry → ℕ
oldest_index [] = 0
oldest_index (d ∷ ds) = oldest_from 0 d.last_seen_ms 1 ds

-- `ls_registry_upsert`
unfoldable pub upsert : Registry → Device → ℕ → RegistryResult × Registry
upsert registry device now_ms =
    if is_empty device.fingerprint
    then (unchanged, registry)
    else elim (update_known device now_ms registry) [
      | some found ↦ found
      | none ↦
          if ltb (length registry) max_devices
          then (added, registry ++ stamp device now_ms ∷ [])
          else (replaced, set registry (oldest_index registry) (stamp device now_ms))
    ]

-- `expired`, on `uint64_t` values: the subtraction is made only where it does not wrap.
abbrev pub expired : ℕ → ℕ → Device → Bool
expired now_ms timeout_ms d = leb d.last_seen_ms now_ms && leb timeout_ms (now_ms - d.last_seen_ms)

-- The loop of `ls_registry_prune` over `read_index` and `write_index`, in place. `rounds` counts down
-- from `old_count - read_index`, so the entry read is always there.
unfoldable pub compact : ℕ → ℕ → ℕ → ℕ → ℕ → Registry → ℕ × Registry
compact now_ms timeout_ms zero read_index write_index devices = (write_index, devices)
compact now_ms timeout_ms (suc rounds) read_index write_index devices =
    elim (get_elem? devices read_index) [
      | none ↦ (write_index, devices)
      | some d ↦
          let drop = expired now_ms timeout_ms d in
          compact now_ms timeout_ms rounds (read_index + 1)
            (if drop then write_index else write_index + 1)
            (if drop || write_index == read_index then devices else set devices write_index d)
    ]

-- `ls_registry_prune`: how many entries were dropped, and the table, which ends at `write_index`.
unfoldable pub prune : Registry → ℕ → ℕ → ℕ × Registry
prune registry now_ms timeout_ms =
    let (write_index, devices) = compact now_ms timeout_ms (length registry) 0 0 registry in
    (length registry - write_index, take write_index devices)

-- `ls_registry_get`
unfoldable pub get : Registry → ℕ → Option Device
get registry index = if leb (length registry) index then none else get_elem? registry index

-- The peer that the table holds under a fingerprint.
unfoldable pub lookup : Bytes → Registry → Option Device
lookup f [] = none
lookup f (d ∷ ds) = if str_eq d.fingerprint f then some d else lookup f ds

-- No entry of the table has the fingerprint `f`.
abbrev pub Fresh : Bytes → Registry → Type 0
Fresh f [] = Unit
Fresh f (d ∷ ds) = (str_eq d.fingerprint f ≡ false) × Fresh f ds
