-- ===== src/Registry/Map.antt =====
-- `ls_registry_upsert` as an operation on a bounded map from fingerprints to peers.
use localsend3ds.Prelude.{
  ℕ, ◌≤◌, ◌<◌, ◌≡◌, ◌≢◌, refl, true, false, inl, inr, none, some, [], ◌∷◌, ◌++◌, All, Bytes, arith,
  ltb, Bool-cases, Option-cases, length, set, get_elem?, length-set, length-append, str_eq,
  str_eq_refl, is_empty, All-append,
}
use localsend3ds.Device.{Device}
use localsend3ds.Registry.{
  RegistryResult, unchanged, added, replaced, Registry, max_devices, stamp, update_known, upsert,
  lookup, Fresh,
}
use localsend3ds.Registry.Oldest.{IsOldest, oldest_index-IsOldest}
use localsend3ds.Registry.Upsert.{
  IsValid, Distinct, IsNamed, Rewrites, update_known-none, update_known-Rewrites, Fresh→lookup,
  lookup-append, lookup-append_other, lookup-set, lookup-set_other, lt_of_get_elem?,
  Distinct-append, Distinct-set, Named-set,
}

-- The four ways through `ls_registry_upsert`.
pub data Outcome (r : Registry) (d : Device) (t : ℕ) : RegistryResult → Registry → Type 0 where
  nameless : is_empty d.fingerprint ≡ true → Outcome r d t unchanged r
  known :
      {res : RegistryResult} {s : Registry}
      → IsNamed d
      → Rewrites d t r s
      → res ≢ replaced
      → (Distinct r → Distinct s)
      → Outcome r d t res s
  appended :
      IsNamed d
      → Fresh d.fingerprint r
      → length r < max_devices
      → Outcome r d t added (r ++ stamp d t ∷ [])
  evicted :
      {v : Device} {i : ℕ}
      → IsNamed d
      → Fresh d.fingerprint r
      → max_devices ≤ length r
      → IsOldest r i v
      → Outcome r d t replaced (set r i (stamp d t))

upsert-Outcome :
    (r : Registry) (d : Device) (t : ℕ) → Outcome r d t (upsert r d t).0 (upsert r d t).1
unfolding upsert
upsert-Outcome r d t = elim (Bool-cases (is_empty d.fingerprint)) [
  | inl e ↦ rw e (nameless e)
  | inr e ↦ rw e (elim (Option-cases (update_known d t r)) [
    | inl n ↦ rw n (elim (Bool-cases (ltb (length r) max_devices)) [
      | inl room ↦ rw room (appended e (update_known-none d t r n) (ground arith))
      | inr full ↦
          let (v, o) = oldest_index-IsOldest r (ground arith) in
          rw full (evicted e (update_known-none d t r n) (ground arith) o)
    ])
    | inr ((res, s), k) ↦
        let (w, n, dist) = update_known-Rewrites d t r k in rw k (known e w n dist)
  ])
]

IsValid-after :
    {r s : Registry} {d : Device} {t : ℕ} {res : RegistryResult}
    → Outcome r d t res s
    → IsValid r
    → IsValid s
IsValid-after (nameless _) v = v
IsValid-after (known _ w _ dist) v = record {
  bounded = omega (arith, w.same_length, v.bounded);
  named = w.named v.named;
  distinct = dist v.distinct;
}
IsValid-after {r} {d = d} {t = t} (appended e f l) v = record {
  bounded = omega (arith, length-append {0} r (stamp d t ∷ []));
  named = All-append IsNamed r (stamp d t ∷ []) v.named (e, tt);
  distinct = Distinct-append r (stamp d t) v.distinct f;
}
IsValid-after {r} {d = d} {t = t} (evicted {i = i} e f l o) v = record {
  bounded = omega (arith, length-set {0} r i (stamp d t), v.bounded);
  named = Named-set r i (stamp d t) v.named e;
  distinct = Distinct-set r i (stamp d t) v.distinct f;
}

-- `ls_registry_upsert` keeps the table valid: at most 16 entries, each under a non-empty
-- fingerprint that no other entry has.
pub upsert-IsValid : (r : Registry) (d : Device) (t : ℕ) → IsValid r → IsValid (upsert r d t).1
upsert-IsValid r d t v = IsValid-after (upsert-Outcome r d t) v

found_after :
    {r s : Registry} {d : Device} {t : ℕ} {res : RegistryResult}
    → Outcome r d t res s
    → IsNamed d
    → lookup d.fingerprint s ≡ some (stamp d t)
found_after (nameless e) n = cc
found_after (known _ w _ _) n = w.found
found_after {r} {d = d} {t = t} (appended _ f _) n =
    lookup-append d.fingerprint r (stamp d t) f (str_eq_refl d.fingerprint)
found_after {r} {d = d} {t = t} (evicted {i = i} _ f _ o) n =
    lookup-set d.fingerprint r i (stamp d t) (lt_of_get_elem? r i o.entry) f
      (str_eq_refl d.fingerprint)

others_after :
    {r s : Registry} {d : Device} {t : ℕ} {res : RegistryResult}
    → Outcome r d t res s
    → res ≢ replaced
    → (f : Bytes) → str_eq d.fingerprint f ≡ false
    → lookup f s ≡ lookup f r
others_after (nameless e) n f h = refl
others_after (known _ w _ _) n f h = w.others f h
others_after {r} {d = d} {t = t} (appended _ _ _) n f h = lookup-append_other f r (stamp d t) h
others_after (evicted _ _ _ _) n f h = absurd (n refl)

-- Registering a peer with a non-empty fingerprint makes the table answer it, with the time of the
-- call; and unless the result is `replaced`, every other fingerprint is answered as before.
pub lookup-upsert :
    (r : Registry) (d : Device) (t : ℕ)
    → is_empty d.fingerprint ≡ false
    → (lookup d.fingerprint (upsert r d t).1 ≡ some (stamp d t))
      × ((upsert r d t).0 ≢ replaced
          → (f : Bytes) → str_eq d.fingerprint f ≡ false
          → lookup f (upsert r d t).1 ≡ lookup f r)
lookup-upsert r d t n = (found_after (upsert-Outcome r d t) n, others_after (upsert-Outcome r d t))

-- The peer `v`, an entry of `r` seen least recently, made room: `s` is `r` with `d` in its place.
pub record Evicts (r : Registry) (d : Device) (t : ℕ) (s : Registry) (v : Device) : Type 0 where
  pub full : max_devices ≤ length r
  pub position : ℕ
  pub entry : get_elem? r position ≡ some v
  pub written : s ≡ set r position (stamp d t)
  pub unknown : lookup d.fingerprint r ≡ none
  pub oldest : All (λ (e : Device). v.last_seen_ms ≤ e.last_seen_ms) r
  pub others :
      (f : Bytes)
      → str_eq d.fingerprint f ≡ false
      → str_eq v.fingerprint f ≡ false
      → lookup f s ≡ lookup f r

Evicts-after :
    {r s : Registry} {d : Device} {t : ℕ} {res : RegistryResult}
    → Outcome r d t res s
    → res ≡ replaced
    → (v : Device) × Evicts r d t s v
Evicts-after (nameless e) h = cc
Evicts-after (known _ _ n _) h = absurd (n h)
Evicts-after (appended _ _ _) h = cc
Evicts-after {r} {d = d} {t = t} (evicted {v = v} {i = i} _ f l o) h = (
  v,
  record {
    full = l;
    position = i;
    entry = o.entry;
    written = refl;
    unknown = Fresh→lookup d.fingerprint r f;
    oldest = o.oldest;
    others = λ g hd hv. lookup-set_other g r i (stamp d t) o.entry hv hd;
  },
)

-- A peer is replaced only in a full table that does not know the new one. The victim is an entry of
-- the table, seen no later than any other entry; the table afterwards is the same list with the new
-- peer, stamped with the time, in the victim's place; and third fingerprints are answered as before.
pub upsert-Evicts :
    (r : Registry) (d : Device) (t : ℕ)
    → (upsert r d t).0 ≡ replaced
    → (v : Device) × Evicts r d t (upsert r d t).1 v
upsert-Evicts r d t h = Evicts-after (upsert-Outcome r d t) h
