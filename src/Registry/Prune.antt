-- ===== src/Registry/Prune.antt =====
-- `ls_registry_prune` removes exactly the peers that have timed out.
use localsend3ds.Prelude.{
  ℕ, ◌+◌, ◌≤◌, ◌<◌, ◌≡◌, refl, ap, true, inl, inr, none, some, [], All, Bytes, arith, ◌↔◌,
  Bool-cases, length, str_eq, eq_of_str_eq,
}
use localsend3ds.Device.{Device}
use localsend3ds.Registry.{Registry, prune, lookup, Fresh}
use localsend3ds.Registry.Upsert.{IsValid, Distinct, IsNamed, Fresh→lookup}
use localsend3ds.Registry.Compact.{Keeps, kept, dropped, compact-Compacts}

Fresh-kept :
    {now timeout : ℕ} {r s : Registry} (f : Bytes) → Keeps now timeout r s → Fresh f r → Fresh f s
Fresh-kept f Keeps.done h = tt
Fresh-kept f (kept _ k) h = (h.0, Fresh-kept f k h.1)
Fresh-kept f (dropped _ k) h = Fresh-kept f k h.1

length-kept : {now timeout : ℕ} {r s : Registry} → Keeps now timeout r s → length s ≤ length r
length-kept Keeps.done = omega arith
length-kept (kept _ k) = omega (arith, length-kept k)
length-kept (dropped _ k) = omega (arith, length-kept k)

named-kept :
    {now timeout : ℕ} {r s : Registry} → Keeps now timeout r s → All IsNamed r → All IsNamed s
named-kept Keeps.done n = tt
named-kept (kept _ k) n = (n.0, named-kept k n.1)
named-kept (dropped _ k) n = named-kept k n.1

Distinct-kept : {now timeout : ℕ} {r s : Registry} → Keeps now timeout r s → Distinct r → Distinct s
Distinct-kept Keeps.done d = tt
Distinct-kept (kept {d = x} _ k) d = (Fresh-kept x.fingerprint k d.0, Distinct-kept k d.1)
Distinct-kept (dropped _ k) d = Distinct-kept k d.1

-- What a call leaves: the recent peers in order, their number, and a valid table.
pub record Prunes (now timeout : ℕ) (r : Registry) (result : ℕ × Registry) : Type 0 where
  pub keeps : Keeps now timeout r result.1
  pub count : result.0 + length result.1 ≡ length r
  pub valid : IsValid result.1

-- Of a valid table, the two indices of the loop leave in the array, in order, exactly the peers whose
-- last sighting plus the timeout lies after now; the table stays valid; and the result is the number
-- of peers taken away.
pub prune-Prunes :
    (r : Registry) (now timeout : ℕ) → IsValid r → Prunes now timeout r (prune r now timeout)
unfolding prune
prune-Prunes r now timeout v =
    let c = compact-Compacts now timeout [] [] r r 0 0 refl refl refl in
    rw (c.table, c.written)
      (record {
        keeps = c.keeps;
        count = omega (arith, length-kept c.keeps);
        valid = record {
          bounded = omega (arith, length-kept c.keeps, v.bounded);
          named = named-kept c.keeps v.named;
          distinct = Distinct-kept c.keeps v.distinct;
        };
      })

Fresh-of_eq :
    (f : Bytes) (d : Device) (r : Registry)
    → str_eq d.fingerprint f ≡ true
    → Fresh d.fingerprint r
    → Fresh f r
Fresh-of_eq f d r e h = rw (← eq_of_str_eq d.fingerprint f e) h

same_time : {x d : Device} → some x ≡ some d → x.last_seen_ms ≡ d.last_seen_ms
same_time {x} {d} p = let same : x ≡ d = cc p in ap (λ (y : Device). y.last_seen_ms) same

-- The peer of a distinct table is the one that the table after pruning holds, if it is recent.
found_kept :
    {now timeout : ℕ} {r s : Registry} (f : Bytes) (d : Device)
    → Keeps now timeout r s
    → Distinct r
    → (lookup f s ≡ some d) ↔ ((lookup f r ≡ some d) × (now < d.last_seen_ms + timeout))
unfolding lookup
found_kept f d Keeps.done v = (λ h. cc h, λ h. cc (h.0))
found_kept f d (kept {d = x} {r = r} h k) v = elim (Bool-cases (str_eq x.fingerprint f)) [
  | inl e ↦ rw e (λ p. (p, omega (arith, h, same_time p)), λ p. p.0)
  | inr e ↦ rw e (found_kept f d k v.1)
]
found_kept f d (dropped {d = x} {r = r} {s = s} h k) v =
    elim (Bool-cases (str_eq x.fingerprint f)) [
      | inl e ↦
          let gone : lookup f s ≡ none =
            Fresh→lookup f s (Fresh-kept f k (Fresh-of_eq f x r e v.0)) in
          rw (e, gone) (λ p. cc p, λ p. absurd (omega (arith, h, p.1, same_time (p.0))))
      | inr e ↦ rw e (found_kept f d k v.1)
    ]

-- After pruning a valid table a fingerprint is answered by a peer exactly if it was before and that
-- peer's last sighting plus the timeout lies after now.
pub lookup-prune :
    (r : Registry) (now timeout : ℕ) (f : Bytes) (d : Device)
    → IsValid r
    → (lookup f (prune r now timeout).1 ≡ some d)
      ↔ ((lookup f r ≡ some d) × (now < d.last_seen_ms + timeout))
lookup-prune r now timeout f d v = found_kept f d (prune-Prunes r now timeout v).keeps v.distinct
