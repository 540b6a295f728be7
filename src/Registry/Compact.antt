-- ===== src/Registry/Compact.antt =====
-- The in-place loop of `ls_registry_prune`: what its two indices leave in the array.
-- Before a round the array is `kept ++ junk ++ todo`: `write_index` is the length of `kept`, and
-- `read_index` is where `todo` begins.
use localsend3ds.Prelude.{
  ℕ, ◌+◌, ◌≤◌, ◌<◌, ◌≡◌, refl, ap, ◌∙◌, true, false, inl, inr, some, [], ◌∷◌, ◌++◌, arith, ◌==◌,
  if◌then◌else◌, Bool-cases, length, set, get_elem?, take, length-append, append_assoc, append-nil,
}
use localsend3ds.Device.{Device}
use localsend3ds.Registry.{Registry, compact, expired}

-- The second table is the first without the peers seen `timeout` or longer before `now`, in order.
pub data Keeps (now timeout : ℕ) : Registry → Registry → Type 0 where
  done : Keeps now timeout [] []
  kept :
      {d : Device} {r s : Registry}
      → now < d.last_seen_ms + timeout
      → Keeps now timeout r s
      → Keeps now timeout (d ∷ r) (d ∷ s)
  dropped :
      {d : Device} {r s : Registry}
      → d.last_seen_ms + timeout ≤ now
      → Keeps now timeout r s
      → Keeps now timeout (d ∷ r) s

pub record Compacts (now timeout : ℕ) (before todo : Registry) (result : ℕ × Registry)
    : Type 0 where
  pub after : Registry
  pub keeps : Keeps now timeout todo after
  pub written : result.0 ≡ length (before ++ after)
  pub table : take result.0 result.1 ≡ before ++ after

take-append : (xs ys : Registry) → take (length xs) (xs ++ ys) ≡ xs
take-append [] ys = refl
take-append (x ∷ xs) ys = ap (λ zs. x ∷ zs) (take-append xs ys)

get_elem?-append :
    (xs : Registry) (d : Device) (zs : Registry) → get_elem? (xs ++ d ∷ zs) (length xs) ≡ some d
get_elem?-append [] d zs = refl
get_elem?-append (x ∷ xs) d zs = get_elem?-append xs d zs

set-append :
    (xs : Registry) (x : Device) (ys : Registry) (d : Device)
    → set (xs ++ x ∷ ys) (length xs) d ≡ xs ++ d ∷ ys
set-append [] x ys d = refl
set-append (z ∷ xs) x ys d = ap (λ zs. z ∷ zs) (set-append xs x ys d)

-- The array after a round that writes `d`: it takes the place of the first passed-over entry.
moved :
    (before junk ds devices : Registry) (d : Device) (read write : ℕ)
    → devices ≡ (before ++ junk) ++ d ∷ ds
    → write ≡ length before
    → read ≡ length (before ++ junk)
    → (left : Registry) × ((if write == read then devices else set devices write d)
        ≡ ((before ++ d ∷ []) ++ left) ++ ds)
      × (length left ≡ length junk)
moved before [] ds devices d read write e w r =
    ([], rw (same) (simp append_assoc (rw (append-nil before) at e)), refl)
  where
    same : (write == read) ≡ true
    same = ground (arith, length-append before [])
moved before (j ∷ js) ds devices d read write e w r = (
  js ++ d ∷ [],
  rw (other, w, e') (set-append before j (js ++ d ∷ ds) d ∙ simp append_assoc refl),
  omega (arith, length-append js (d ∷ [])),
)
  where
    other : (write == read) ≡ false
    other = ground (arith, length-append before (j ∷ js))

    e' : devices ≡ before ++ j ∷ (js ++ d ∷ ds)
    e' = e ∙ simp append_assoc refl

-- A round, in front of what the rounds after it do.
skip :
    {now timeout : ℕ} {before todo : Registry} {d : Device} {result : ℕ × Registry}
    → expired now timeout d ≡ true
    → Compacts now timeout before todo result
    → Compacts now timeout before (d ∷ todo) result
skip x c = record {
  after = c.after;
  keeps = dropped (ground arith) c.keeps;
  written = c.written;
  table = c.table;
}

write_entry :
    {now timeout : ℕ} {before todo : Registry} {d : Device} {result : ℕ × Registry}
    → expired now timeout d ≡ false
    → Compacts now timeout (before ++ d ∷ []) todo result
    → Compacts now timeout before (d ∷ todo) result
write_entry {before = before} {d = d} x c = record {
  after = d ∷ c.after;
  keeps = kept (ground arith) c.keeps;
  written = c.written ∙ ap length (append_assoc before (d ∷ []) c.after);
  table = c.table ∙ append_assoc before (d ∷ []) c.after;
}

pub compact-Compacts :
    (now timeout : ℕ) (before junk todo devices : Registry) (read write : ℕ)
    → devices ≡ (before ++ junk) ++ todo
    → write ≡ length before
    → read ≡ length (before ++ junk)
    → Compacts now timeout before todo (compact now timeout (length todo) read write devices)
unfolding compact
compact-Compacts now timeout before junk [] devices read write e w r = record {
  after = [];
  keeps = Keeps.done;
  written = rw (append-nil before) w;
  table = rw (w, e, append-nil before) (simp append_assoc (take-append before (junk ++ [])));
}
compact-Compacts now timeout before junk (d ∷ ds) devices read write e w r =
    rw (found, compact)
      (elim (Bool-cases (expired now timeout d)) [
        | inl x ↦ rw x (
            skip x (
              compact-Compacts now timeout before (junk ++ d ∷ []) ds devices (read + 1) write
                (e ∙ simp append_assoc refl) w (omega (arith, r, longer junk))))
        | inr x ↦
            let (left, here, same) = moved before junk ds devices d read write e w r in
            rw x (
              write_entry x (
                compact-Compacts now timeout (before ++ d ∷ []) left ds
                  (if write == read then devices else set devices write d) (read + 1) (write + 1)
                  here (omega (arith, w, length-append before (d ∷ [])))
                  (omega (
                    arith,
                    r,
                    same,
                    length-append before junk,
                    length-append before (d ∷ []),
                    length-append (before ++ d ∷ []) left,
                  ))))
      ])
  where
    found : get_elem? devices read ≡ some d
    found = rw (e, r) (get_elem?-append (before ++ junk) d ds)

    longer : (xs : Registry) → length (before ++ (xs ++ d ∷ [])) ≡ length (before ++ xs) + 1
    longer xs = omega (
      arith,
      length-append before xs,
      length-append xs (d ∷ []),
      length-append before (xs ++ d ∷ []),
    )
