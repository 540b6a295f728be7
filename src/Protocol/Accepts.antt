-- ===== src/Protocol/Accepts.antt =====
-- What holds of a value that a parser accepts.
use localsend3ds.Prelude.{
  ℕ, zero, suc, ◌<◌, ◌≡◌, ◌⊎◌, refl, Bool, true, false, Option, none, some, List, [], Bytes,
  if◌then◌else◌, Option-cases, inl, inr, length, arith,
}
use localsend3ds.Json.Cursor.{take_char}
use localsend3ds.Json.Scan.{Scanned, parsed, too_long, invalid, parse_string}
use localsend3ds.Json.Skip.{Separator, last, more, wrong, separator}
use localsend3ds.Json.Bounds.{FitsIn, parse_string-FitsIn}
use localsend3ds.Protocol.{
  ParseError, Parsed, ok, fail, ◌>>=◌, or_fail, json_parse_result, parse_key, key_capacity,
  invalid_json,
}
use localsend3ds.Protocol.Object.{
  member, set_once, members_loop, nonempty_object, parse_object, stored, passed, text_value,
}

abbrev pub Accepts : {A : Type 0} → (A → Type 0) → Parsed A → Type 0
Accepts P (ok a) = P a
Accepts P (fail e) = Unit

pub Parsed-cases :
    {A : Type 0} (p : Parsed A) → ((e : ParseError) × (p ≡ fail e)) ⊎ ((a : A) × (p ≡ ok a))
Parsed-cases (fail e) = inl (e, refl)
Parsed-cases (ok a) = inr (a, refl)

pub then-Accepts :
    {A B : Type 0} (P : A → Type 0) (Q : B → Type 0) (p : Parsed A) (f : A → Parsed B)
    → Accepts P p
    → ((a : A) → P a → Accepts Q (f a))
    → Accepts Q (p >>= f)
then-Accepts P Q (ok a) f h k = k a h
then-Accepts P Q (fail e) f h k = tt

pub any-Accepts : {A : Type 0} (p : Parsed A) → Accepts (λ a. Unit) p
any-Accepts (ok a) = tt
any-Accepts (fail e) = tt

pub if-Accepts :
    {A : Type 0} (P : A → Type 0) (b : Bool) (x y : Parsed A)
    → (b ≡ true → Accepts P x)
    → (b ≡ false → Accepts P y)
    → Accepts P (if b then x else y)
if-Accepts P true x y h k = h refl
if-Accepts P false x y h k = k refl

pub stored-Accepts :
    {A S : Type 0} (P : A → Type 0) (Q : S → Type 0) (put : A → S) (p : Parsed (A × Bytes))
    → Accepts (λ t. P t.0) p
    → ((a : A) → P a → Q (put a))
    → Accepts (λ t. Q t.0) (stored put p)
stored-Accepts P Q put (ok (a, rest)) h k = k a h
stored-Accepts P Q put (fail e) h k = tt

pub passed-Accepts :
    {S : Type 0} (Q : S → Type 0) (out : S) (p : Parsed Bytes)
    → Q out
    → Accepts (λ t. Q t.0) (passed out p)
passed-Accepts Q out (ok rest) h = h
passed-Accepts Q out (fail e) h = tt

pub text_value-Accepts :
    (capacity : ℕ) (s : Bytes)
    → 0 < capacity
    → Accepts (λ t. length t.0 < capacity) (text_value capacity s)
unfolding text_value
text_value-Accepts capacity s pos =
    by_result (parse_string (some capacity) s) (parse_string-FitsIn capacity s pos)
  where
    by_result :
        (r : Scanned)
        → FitsIn capacity r
        → Accepts (λ t. length t.0 < capacity) (json_parse_result r)
    by_result (parsed text rest) h = h
    by_result (too_long rest) h = tt
    by_result invalid h = tt

-- A field is set once it was set or was set before.
pub set_once-member :
    (x field : ℕ) (fields : List ℕ) {set : List ℕ}
    → set_once field fields ≡ some set
    → member x set ≡ true
    → (x ≡ field) ⊎ (member x fields ≡ true)
unfolding set_once
set_once-member x field fields {set} h k = ground arith

module _ {S : Type 0} (field_of : Bytes → ℕ) (value : ℕ → S → Bytes → Parsed (S × Bytes))
    (I : List ℕ → S → Type 0)
    (step : (field : ℕ) (fields set : List ℕ) (out : S) (s : Bytes)
      → set_once field fields ≡ some set
      → I fields out
      → Accepts (λ t. I set t.0) (value field out s)) where
  abbrev pub Kept : S × List ℕ × Bytes → Type 0
  Kept (out, fields, s) = I fields out

  -- What every field keeps holds behind the loop.
  loop-Accepts :
      (fuel : ℕ) (fields : List ℕ) (out : S) (s : Bytes)
      → I fields out
      → Accepts Kept (members_loop field_of value fuel fields out s)
  unfolding members_loop
  loop-Accepts zero fields out s h = tt
  loop-Accepts (suc fuel) fields out s h = elim (Parsed-cases (parse_key key_capacity s)) [
    | inl (e, k) ↦ rw (k, members_loop) tt
    | inr (t, k) ↦ elim (Option-cases (set_once (field_of t.0) fields)) [
      | inl n ↦ rw (k, members_loop, n) tt
      | inr (set, n) ↦
          let kept = step (field_of t.0) fields set out t.1 n h in
          elim (Parsed-cases (value (field_of t.0) out t.1)) [
            | inl (e, v) ↦ rw (k, members_loop, n, v) tt
            | inr (u, v) ↦
                rw (k, members_loop, n, v)
                  (by_separator set u.0 (separator b'}' u.1) (rw v at kept)
                    (λ rest. loop-Accepts fuel set u.0 rest (rw v at kept)))
          ]
    ]
  ]
    where
      by_separator :
          (set : List ℕ) (next : S) (v : Separator)
          → I set next
          → ((rest : Bytes) → Accepts Kept (members_loop field_of value fuel set next rest))
          → Accepts Kept (elim v [
            | last rest ↦ ok (next, set, rest)
            | more rest ↦ members_loop field_of value fuel set next rest
            | wrong ↦ fail invalid_json
          ])
      by_separator set next (last rest) i ih = i
      by_separator set next (more rest) i ih = ih rest
      by_separator set next wrong i ih = tt

  nonempty_object-Accepts :
      (out : S) (s : Bytes) (o : Option Bytes)
      → I [] out
      → Accepts Kept (nonempty_object field_of value out s o)
  unfolding nonempty_object
  nonempty_object-Accepts out s (some rest) h = tt
  nonempty_object-Accepts out s none h = loop-Accepts (suc (length s)) [] out s h

  pub parse_object-Accepts :
      (out : S) (s : Bytes) → I [] out → Accepts Kept (parse_object field_of value out s)
  unfolding parse_object
  parse_object-Accepts out s h =
      then-Accepts (λ r. Unit) Kept (or_fail invalid_json (take_char b'{' s)) _
        (any-Accepts (or_fail invalid_json (take_char b'{' s)))
        (λ r u. nonempty_object-Accepts out r (take_char b'}' r) h)
