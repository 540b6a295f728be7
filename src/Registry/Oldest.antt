-- ===== src/Registry/Oldest.antt =====
-- The second loop of `ls_registry_upsert`: which entry is evicted from a full table.
use localsend3ds.Prelude.{
  ℕ, suc, ◌+◌, ◌≤◌, ◌<◌, ◌≡◌, refl, true, false, ◌⊎◌, inl, inr, some, [], ◌∷◌, All, arith, ltb,
  Bool-cases, length, get_elem?,
}
use localsend3ds.Device.{Device}
use localsend3ds.Registry.{Registry, oldest_from, oldest_index}

-- Entry `i` of the table is `d`, and no entry was seen before it.
pub record IsOldest (r : Registry) (i : ℕ) (d : Device) : Type 0 where
  pub entry : get_elem? r i ≡ some d
  pub oldest : All (λ e. d.last_seen_ms ≤ e.last_seen_ms) r

All-weaken :
    (m n : ℕ) (r : Registry)
    → m ≤ n
    → All (λ (e : Device). n ≤ e.last_seen_ms) r
    → All (λ (e : Device). m ≤ e.last_seen_ms) r
All-weaken m n [] h a = tt
All-weaken m n (d ∷ ds) h a = (omega arith, All-weaken m n ds h a.1)

-- What the loop answers over the entries that remain: the best so far, or one of them.
record Answer (best seen i : ℕ) (ds : Registry) (k : ℕ) : Type 0 where
  low : ℕ
  below : low ≤ seen
  least : All (λ (e : Device). low ≤ e.last_seen_ms) ds
  found :
      ((k ≡ best) × (low ≡ seen))
      ⊎ ((j : ℕ) × (d : Device) × (k ≡ i + j) × (get_elem? ds j ≡ some d) × (low ≡ d.last_seen_ms))

oldest_from-Answer :
    (best seen i : ℕ) (ds : Registry) → Answer best seen i ds (oldest_from best seen i ds)
unfolding oldest_from
oldest_from-Answer best seen i [] = record {
  low = seen;
  below = omega arith;
  least = tt;
  found = inl (refl, refl);
}
oldest_from-Answer best seen i (d ∷ ds) = elim (Bool-cases (ltb d.last_seen_ms seen)) [
  | inl older ↦ rw older (step_older (oldest_from-Answer i d.last_seen_ms (i + 1) ds) older)
  | inr newer ↦ rw newer (step_newer (oldest_from-Answer best seen (i + 1) ds) newer)
]
  where
    step_older :
        {k : ℕ}
        → Answer i d.last_seen_ms (i + 1) ds k
        → ltb d.last_seen_ms seen ≡ true
        → Answer best seen i (d ∷ ds) k
    step_older a h = record {
      low = a.low;
      below = ground (arith, a.below);
      least = (a.below, a.least);
      found = elim a.found [
        | inl (e, l) ↦ inr (0, d, omega (arith, e), refl, l)
        | inr (j, x, e, g, l) ↦ inr (suc j, x, omega (arith, e), g, l)
      ];
    }

    step_newer :
        {k : ℕ}
        → Answer best seen (i + 1) ds k
        → ltb d.last_seen_ms seen ≡ false
        → Answer best seen i (d ∷ ds) k
    step_newer a h = record {
      low = a.low;
      below = a.below;
      least = (ground (arith, a.below), a.least);
      found = elim a.found [
        | inl (e, l) ↦ inl (e, l)
        | inr (j, x, e, g, l) ↦ inr (suc j, x, omega (arith, e), g, l)
      ];
    }

-- In a table that is not empty the loop finds an entry that was seen least recently.
pub oldest_index-IsOldest :
    (r : Registry) → 0 < length r → (d : Device) × IsOldest r (oldest_index r) d
unfolding oldest_index
oldest_index-IsOldest [] h = elim h [ ]
oldest_index-IsOldest (d ∷ ds) h =
    conclude (oldest_from 0 d.last_seen_ms 1 ds) (oldest_from-Answer 0 d.last_seen_ms 1 ds)
  where
    conclude : (k : ℕ) → Answer 0 d.last_seen_ms 1 ds k → (e : Device) × IsOldest (d ∷ ds) k e
    conclude k a = elim a.found [
      | inl (e, l) ↦ (
        d,
        record {
          entry = rw e refl;
          oldest = (omega arith, All-weaken _ a.low ds (omega (arith, l)) a.least);
        },
      )
      | inr (j, x, e, g, l) ↦ (
        x,
        record {
          entry = let e' : k ≡ suc j = omega (arith, e) in rw e' g;
          oldest = (omega (arith, a.below, l), All-weaken _ a.low ds (omega (arith, l)) a.least);
        },
      )
    ]
