-- ===== src/Registry/Upsert.antt =====
-- `ls_registry_upsert` keeps a table of distinct, named peers, and is an insertion into a map.
use localsend3ds.Prelude.{
  ℕ, zero, suc, ◌≤◌, ◌<◌, ◌≡◌, ◌≢◌, refl, true, false, inl, inr, Option, none, some, [], ◌∷◌, ◌++◌,
  All, Bytes, arith, if◌then◌else◌, Bool-cases, length, set, get_elem?, sym, ap, ◌∙◌, str_eq,
  str_eq_refl, eq_of_str_eq, is_empty,
}
use mathlib.Core.Path.{subst}
use localsend3ds.Device.{Device}
use localsend3ds.Registry.{
  RegistryResult, unchanged, updated, replaced, Registry, max_devices, stamp, update_known, keep,
  same_device_data, lookup, Fresh,
}

abbrev pub Distinct : Registry → Type 0
Distinct [] = Unit
Distinct (d ∷ ds) = Fresh d.fingerprint ds × Distinct ds

-- The array is not overrun, and each peer stands in it once, under a fingerprint.
pub record IsValid (r : Registry) : Type 0 where
  pub bounded : length r ≤ max_devices
  pub named : All (λ (d : Device). is_empty d.fingerprint ≡ false) r
  pub distinct : Distinct r

pub Fresh-append :
    (f : Bytes) (r : Registry) (d : Device)
    → Fresh f r
    → str_eq d.fingerprint f ≡ false
    → Fresh f (r ++ d ∷ [])
Fresh-append f [] d h e = (e, tt)
Fresh-append f (x ∷ xs) d h e = (h.0, Fresh-append f xs d h.1 e)

pub str_eq_sym : (a b : Bytes) → str_eq a b ≡ false → str_eq b a ≡ false
str_eq_sym a b h = elim (Bool-cases (str_eq b a)) [
  | inl e ↦ let p : b ≡ a = eq_of_str_eq b a e in absurd (clash (rw p at h))
  | inr e ↦ e
]
  where
    clash : str_eq a a ≡ false → ⊥
    clash q = cc (q, str_eq_refl a)

pub Distinct-append :
    (r : Registry) (d : Device) → Distinct r → Fresh d.fingerprint r → Distinct (r ++ d ∷ [])
Distinct-append [] d h f = (tt, tt)
Distinct-append (x ∷ xs) d h f = (
  Fresh-append x.fingerprint xs d h.0 (str_eq_sym x.fingerprint d.fingerprint f.0),
  Distinct-append xs d h.1 f.1,
)

pub Fresh-set :
    (f : Bytes) (r : Registry) (i : ℕ) (d : Device)
    → Fresh f r
    → str_eq d.fingerprint f ≡ false
    → Fresh f (set r i d)
Fresh-set f [] i d h e = tt
Fresh-set f (x ∷ xs) zero d h e = (e, h.1)
Fresh-set f (x ∷ xs) (suc i) d h e = (h.0, Fresh-set f xs i d h.1 e)

pub Distinct-set :
    (r : Registry) (i : ℕ) (d : Device) → Distinct r → Fresh d.fingerprint r → Distinct (set r i d)
Distinct-set [] i d h f = tt
Distinct-set (x ∷ xs) zero d h f = (f.1, h.1)
Distinct-set (x ∷ xs) (suc i) d h f = (
  Fresh-set x.fingerprint xs i d h.0 (str_eq_sym x.fingerprint d.fingerprint f.0),
  Distinct-set xs i d h.1 f.1,
)

abbrev pub IsNamed : Device → Type 0
IsNamed d = is_empty d.fingerprint ≡ false

pub Named-set :
    (r : Registry) (i : ℕ) (d : Device) → All IsNamed r → IsNamed d → All IsNamed (set r i d)
Named-set [] i d h e = tt
Named-set (x ∷ xs) zero d h e = (e, h.1)
Named-set (x ∷ xs) (suc i) d h e = (h.0, Named-set xs i d h.1 e)

-- Where the first loop runs to its end, the peer is new.
pub update_known-none :
    (d : Device) (t : ℕ) (r : Registry) → update_known d t r ≡ none → Fresh d.fingerprint r
unfolding update_known
update_known-none d t [] h = tt
update_known-none d t (x ∷ xs) h = elim (Bool-cases (str_eq x.fingerprint d.fingerprint)) [
  | inl e ↦ cc (rw e at h)
  | inr e ↦ (e, update_known-none d t xs (dropped (update_known d t xs) (rw e at h)))
]
  where
    dropped : (o : Option (RegistryResult × Registry)) → keep x o ≡ none → o ≡ none
    dropped none k = refl
    dropped (some _) k = cc

-- What the first loop leaves: the entry of `d` is written, and the others stay.
pub record Rewrites (d : Device) (t : ℕ) (r s : Registry) : Type 0 where
  pub same_length : length s ≡ length r
  pub named : All IsNamed r → All IsNamed s
  pub fresh : (f : Bytes) → Fresh f r → Fresh f s
  pub found : lookup d.fingerprint s ≡ some (stamp d t)
  pub others : (f : Bytes) → str_eq d.fingerprint f ≡ false → lookup f s ≡ lookup f r

Rewrites-here :
    (d : Device) (t : ℕ) (x : Device) (xs : Registry)
    → str_eq x.fingerprint d.fingerprint ≡ true
    → Rewrites d t (x ∷ xs) (stamp d t ∷ xs)
unfolding lookup
Rewrites-here d t x xs e =
    let same : x.fingerprint ≡ d.fingerprint = eq_of_str_eq x.fingerprint d.fingerprint e in
    record {
      same_length = refl;
      named = λ h. (ap is_empty (sym same) ∙ h.0, h.1);
      fresh = λ f h. (ap (λ k. str_eq k f) (sym same) ∙ h.0, h.1);
      found = rw (str_eq_refl d.fingerprint);
      others = λ f h. rw (h, ap (λ k. str_eq k f) same ∙ h);
    }

Rewrites-later :
    (d : Device) (t : ℕ) (x : Device) {xs ys : Registry}
    → str_eq x.fingerprint d.fingerprint ≡ false
    → Rewrites d t xs ys
    → Rewrites d t (x ∷ xs) (x ∷ ys)
unfolding lookup
Rewrites-later d t x e w = record {
  same_length = ap suc w.same_length;
  named = λ h. (h.0, w.named h.1);
  fresh = λ f h. (h.0, w.fresh f h.1);
  found = rw e w.found;
  others = λ f h. rw (w.others f h);
}

pub update_known-Rewrites :
    (d : Device) (t : ℕ) (r : Registry) {res : RegistryResult} {s : Registry}
    → update_known d t r ≡ some (res, s)
    → Rewrites d t r s × (res ≢ replaced) × (Distinct r → Distinct s)
unfolding update_known
update_known-Rewrites d t [] h = cc
update_known-Rewrites d t (x ∷ xs) {res} {s} h =
    elim (Bool-cases (str_eq x.fingerprint d.fingerprint)) [
      | inl e ↦ here e (rw e at h)
      | inr e ↦ later e (update_known d t xs) (λ res' s'. update_known-Rewrites d t xs) (rw e at h)
    ]
  where
    here :
        str_eq x.fingerprint d.fingerprint ≡ true
        → ◌≡◌ {A = Option (RegistryResult × Registry)}
            (some (if same_device_data x d then unchanged else updated, stamp d t ∷ xs))
            (some (res, s))
        → Rewrites d t (x ∷ xs) s × (res ≢ replaced) × (Distinct (x ∷ xs) → Distinct s)
    here e k =
        let p : stamp d t ∷ xs ≡ s = cc in
        let q : (if same_device_data x d then unchanged else updated) ≡ res = cc in
        let same : x.fingerprint ≡ d.fingerprint = eq_of_str_eq x.fingerprint d.fingerprint e in
        (
          subst (Rewrites d t (x ∷ xs)) p (Rewrites-here d t x xs e),
          ground arith,
          λ h. subst Distinct p (subst (λ f. Fresh f xs) same h.0, h.1),
        )

    later :
        str_eq x.fingerprint d.fingerprint ≡ false
        → (o : Option (RegistryResult × Registry))
        → ((res' : RegistryResult) (s' : Registry)
            → o ≡ some (res', s')
            → Rewrites d t xs s' × (res' ≢ replaced) × (Distinct xs → Distinct s'))
        → keep x o ≡ some (res, s)
        → Rewrites d t (x ∷ xs) s × (res ≢ replaced) × (Distinct (x ∷ xs) → Distinct s)
    later e none ih k = cc
    later e (some (res', s')) ih k =
        let p : x ∷ s' ≡ s = cc in
        let q : res' ≡ res = cc in
        let (w, n, dist) = ih res' s' refl in
        (
          subst (Rewrites d t (x ∷ xs)) p (Rewrites-later d t x e w),
          λ z. n (q ∙ z),
          λ h. subst Distinct p (w.fresh x.fingerprint h.0, dist h.1),
        )

pub Fresh→lookup : (f : Bytes) (r : Registry) → Fresh f r → lookup f r ≡ none
unfolding lookup
Fresh→lookup f [] h = refl
Fresh→lookup f (d ∷ ds) h = rw h.0 (Fresh→lookup f ds h.1)

pub lookup-append :
    (f : Bytes) (r : Registry) (d : Device)
    → Fresh f r
    → str_eq d.fingerprint f ≡ true
    → lookup f (r ++ d ∷ []) ≡ some d
unfolding lookup
lookup-append f [] d h e = rw e
lookup-append f (x ∷ xs) d h e = rw h.0 (lookup-append f xs d h.1 e)

pub lookup-append_other :
    (f : Bytes) (r : Registry) (d : Device)
    → str_eq d.fingerprint f ≡ false
    → lookup f (r ++ d ∷ []) ≡ lookup f r
unfolding lookup
lookup-append_other f [] d e = rw e
lookup-append_other f (x ∷ xs) d e = rw (lookup-append_other f xs d e)

pub lookup-set :
    (f : Bytes) (r : Registry) (i : ℕ) (d : Device)
    → i < length r
    → Fresh f r
    → str_eq d.fingerprint f ≡ true
    → lookup f (set r i d) ≡ some d
unfolding lookup
lookup-set f [] i d l h e = elim l [ ]
lookup-set f (x ∷ xs) zero d l h e = rw e
lookup-set f (x ∷ xs) (suc i) d l h e = rw h.0 (lookup-set f xs i d (omega arith) h.1 e)

pub lookup-set_other :
    (f : Bytes) (r : Registry) (i : ℕ) (d : Device) {v : Device}
    → get_elem? r i ≡ some v
    → str_eq v.fingerprint f ≡ false
    → str_eq d.fingerprint f ≡ false
    → lookup f (set r i d) ≡ lookup f r
unfolding lookup
lookup-set_other f [] i d g hv hd = cc
lookup-set_other f (x ∷ xs) zero d {v} g hv hd = let e : x ≡ v = cc in rw (hd, e, hv)
lookup-set_other f (x ∷ xs) (suc i) d g hv hd = rw (lookup-set_other f xs i d g hv hd)

pub lt_of_get_elem? : (r : Registry) (i : ℕ) {v : Device} → get_elem? r i ≡ some v → i < length r
lt_of_get_elem? [] i g = cc
lt_of_get_elem? (x ∷ xs) zero g = omega arith
lt_of_get_elem? (x ∷ xs) (suc i) g = omega (arith, lt_of_get_elem? xs i g)
