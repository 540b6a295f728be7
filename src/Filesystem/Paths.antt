-- ===== src/Filesystem/Paths.antt =====
-- What `ls_filesystem_select_paths` and `ls_filesystem_ensure_directory` promise.
use localsend3ds.Prelude.{
  ℕ, zero, suc, ◌+◌, ◌≤◌, ◌<◌, ◌≡◌, refl, Bool, true, false, not, ◌&&◌, ◌||◌, inl, inr, some, [],
  ◌∷◌, ◌++◌, Bytes, leb, ◌==◌, Bool-cases, length, is_empty, arith,
}
use localsend3ds.Platform.{Platform, Reliable}
use localsend3ds.Filesystem.{
  candidate, part_of, select_loop, select_paths, max_collisions, ensure_one_directory, ensure_loop,
  ensure_all, ensure_directory, last_byte, path_capacity, trim_slashes,
}

-- The paths chosen for a name: the first candidate for which neither file is there.
pub record IsFree (exists : Bytes → Bool) (directory name : Bytes) (capacity from : ℕ)
    (final part : Bytes) : Type 0 where
  pub number : ℕ
  pub in_range : (from ≤ number) × (number < max_collisions)
  pub is_candidate : final ≡ candidate directory name number
  pub is_part : part ≡ part_of final
  pub final_free : exists final ≡ false
  pub part_free : exists part ≡ false
  pub fits : length part < capacity
  pub first :
      (k : ℕ)
      → from ≤ k
      → k < number
      → (exists (candidate directory name k) || exists (part_of (candidate directory name k)))
        ≡ true

abbrev Taken : (Bytes → Bool) → Bytes → Bytes → ℕ → Type 0
Taken exists directory name k =
    (exists (candidate directory name k) || exists (part_of (candidate directory name k))) ≡ true

first_from :
    (exists : Bytes → Bool) (directory name : Bytes) (from number k : ℕ)
    → Taken exists directory name from
    → ((j : ℕ) → suc from ≤ j → j < number → Taken exists directory name j)
    → from ≤ k
    → k < number
    → Taken exists directory name k
first_from exists directory name from number k t rest l h = elim (Bool-cases (from == k)) [
  | inl e ↦ let e' : from ≡ k = ground arith in rw (← e') t
  | inr n ↦ rest k (ground arith) h
]

select_loop-IsFree :
    (exists : Bytes → Bool) (directory name : Bytes) (capacity left from : ℕ) {final part : Bytes}
    → left + from ≡ max_collisions
    → select_loop exists directory name capacity left from ≡ some (final, part)
    → IsFree exists directory name capacity from final part
unfolding select_loop
select_loop-IsFree exists directory name capacity zero from b h = cc
select_loop-IsFree exists directory name capacity (suc left) from {final} {part} b h =
    elim (Bool-cases (leb capacity (length here))) [
      | inl long ↦ absurd (cc (rw long at h))
      | inr _ ↦ elim (Bool-cases (leb capacity (length (part_of here)))) [
        | inl long ↦ absurd (ground arith)
        | inr fits ↦ elim (Bool-cases (not (exists here) && not (exists (part_of here)))) [
          | inl free ↦
              let ef : here ≡ final = ground arith in
              let ep : part_of here ≡ part = ground arith in
              rw (← ef, ← ep)
                (record {
                  number = from;
                  in_range = omega (arith, b);
                  is_candidate = refl;
                  is_part = refl;
                  final_free = ground arith;
                  part_free = ground arith;
                  fits = ground arith;
                  first = λ k l m. absurd (omega arith);
                })
          | inr taken ↦
              let rest =
                select_loop-IsFree exists directory name capacity left (suc from) {final = final}
                  {part = part} (omega (arith, b)) (ground arith) in
              record {
                number = rest.number;
                in_range = omega (arith, rest.in_range);
                is_candidate = rest.is_candidate;
                is_part = rest.is_part;
                final_free = rest.final_free;
                part_free = rest.part_free;
                fits = rest.fits;
                first = λ k.
                    first_from exists directory name from rest.number k (ground arith) rest.first;
              }
        ]
      ]
    ]
  where
    here : Bytes
    here = candidate directory name from

-- The paths that `ls_filesystem_select_paths` answers are those of the first of 10000 candidates
-- for which neither the file nor its part file exists, and they fit their buffers.
pub select_paths-IsFree :
    (exists : Bytes → Bool) (directory name : Bytes) (capacity : ℕ) {final part : Bytes}
    → select_paths exists directory name capacity ≡ some (final, part)
    → IsFree exists directory name capacity 0 final part
unfolding select_paths
select_paths-IsFree exists directory name capacity h =
    elim (Bool-cases (is_empty directory || is_empty name)) [
      | inl e ↦ absurd (cc (rw e at h))
      | inr e ↦
          select_loop-IsFree exists directory name capacity max_collisions 0 (omega arith)
            (rw e at h)
    ]

module _ (p : Platform) (r : Reliable p) (q c : Bytes) where
  open p use {World}
  open r use {content}

  one-kept :
      (w : World) (path : Bytes)
      → content w q ≡ some c
      → content (ensure_one_directory p w path).1 q ≡ some c
  unfolding ensure_one_directory
  one-kept w path k = r.mkdir_frame w q path c k

  loop-kept :
      (w : World) (before rest : Bytes)
      → content w q ≡ some c
      → content (ensure_loop p w before rest).1 q ≡ some c
  unfolding ensure_loop
  loop-kept w before [] k = k
  loop-kept w before (x ∷ xs) k = elim (Bool-cases (not (x == b'/') || last_byte before == b':')) [
    | inl skip ↦ rw skip (loop-kept w (before ++ x ∷ []) xs k)
    | inr make ↦ rw make (elim (Bool-cases (ensure_one_directory p w before).0) [
      | inl done ↦ rw done (
          loop-kept (ensure_one_directory p w before).1 (before ++ x ∷ []) xs (one-kept w before k))
      | inr stop ↦ rw stop (one-kept w before k)
    ])
  ]

  all-kept :
      (w : World) (path : Bytes) → content w q ≡ some c → content (ensure_all p w path).1 q ≡ some c
  unfolding ensure_all
  all-kept w [] k = k
  all-kept w (x ∷ xs) k = elim (Bool-cases (ensure_loop p w (x ∷ []) xs).0) [
    | inl done ↦
        rw done (one-kept (ensure_loop p w (x ∷ []) xs).1 (x ∷ xs) (loop-kept w (x ∷ []) xs k))
    | inr stop ↦ rw stop (loop-kept w (x ∷ []) xs k)
  ]

  -- Making the download directory leaves every file as it is.
  pub ensure_directory-kept :
      (w : World) (path : Bytes)
      → content w q ≡ some c
      → content (ensure_directory p w path).1 q ≡ some c
  unfolding ensure_directory
  ensure_directory-kept w path k =
      elim (Bool-cases (is_empty path || leb path_capacity (length path))) [
        | inl e ↦ rw e k
        | inr e ↦ rw e (all-kept w (trim_slashes (length path) path) k)
      ]
