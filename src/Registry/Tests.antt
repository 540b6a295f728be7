-- ===== src/Registry/Tests.antt =====
-- The table at concrete peers.
use localsend3ds.Prelude.{
  zero, suc, ◌-◌, ℕ, ◌+◌, ◌≡◌, ◌≢◌, ◌<◌, ◌↔◌, refl, true, false, some, [], ◌∷◌, Bytes, arith, codes,
  str_eq,
}
use localsend3ds.Device.{Device, desktop, https}
use localsend3ds.Registry.{
  Registry, unchanged, replaced, stamp, upsert, update_known, same_device_data, prune, compact,
  lookup,
}
use localsend3ds.Registry.Upsert.{IsValid}
use localsend3ds.Registry.Map.{upsert-IsValid, lookup-upsert, upsert-Evicts, Evicts}
use localsend3ds.Registry.Prune.{Prunes, prune-Prunes, lookup-prune}

abbrev peer : ℕ → ℕ → Device
peer f seen = record {
  alias = codes "peer";
  version = codes "2.2";
  device_model = [];
  device_type = desktop;
  fingerprint = f ∷ [];
  ip_address = codes "10.0.0.2";
  port = 53317;
  protocol = https;
  download = false;
  announce = true;
  last_seen_ms = seen;
}

abbrev two : Registry
two = peer 65 100 ∷ peer 66 200 ∷ []

two-IsValid : IsValid two
unfolding str_eq
two-IsValid = record {
  bounded = omega arith;
  named = (refl, (refl, tt));
  distinct = ((refl, tt), (tt, tt));
}

abbrev peers : ℕ → ℕ → Registry
peers zero f = []
peers (suc n) f = peer f (1000 - f) ∷ peers n (f + 1)

upsert_updates : upsert two (peer 66 0) 300 ≡ (unchanged, peer 65 100 ∷ peer 66 300 ∷ [])
unfolding upsert update_known same_device_data str_eq
upsert_updates = refl

upsert-IsValid_example : IsValid (upsert two (peer 67 0) 300).1
upsert-IsValid_example = upsert-IsValid two (peer 67 0) 300 two-IsValid

lookup-upsert_example :
    (lookup (67 ∷ []) (upsert two (peer 67 0) 300).1 ≡ some (stamp (peer 67 0) 300))
    × ((upsert two (peer 67 0) 300).0 ≢ replaced
        → (f : Bytes) → str_eq (67 ∷ []) f ≡ false
        → lookup f (upsert two (peer 67 0) 300).1 ≡ lookup f two)
lookup-upsert_example = lookup-upsert two (peer 67 0) 300 refl

upsert-Evicts_example :
    (v : Device) × Evicts (peers 16 1) (peer 99 0) 5000 (upsert (peers 16 1) (peer 99 0) 5000).1 v
unfolding upsert update_known str_eq
upsert-Evicts_example = upsert-Evicts (peers 16 1) (peer 99 0) 5000 refl

prune_compacts : prune two 1150 1000 ≡ (1, peer 66 200 ∷ [])
unfolding prune compact
prune_compacts = refl

prune-Prunes_example : Prunes 1150 1000 two (prune two 1150 1000)
prune-Prunes_example = prune-Prunes two 1150 1000 two-IsValid

lookup-prune_example :
    (lookup (66 ∷ []) (prune two 1150 1000).1 ≡ some (peer 66 200))
    ↔ ((lookup (66 ∷ []) two ≡ some (peer 66 200)) × (1150 < 200 + 1000))
lookup-prune_example = lookup-prune two 1150 1000 (66 ∷ []) (peer 66 200) two-IsValid
