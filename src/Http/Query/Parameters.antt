-- ===== src/Http/Query/Parameters.antt =====
-- `query_value` finds a parameter among others.
use localsend3ds.Prelude.{
  ℕ, zero, suc, ◌+◌, ◌≤◌, ◌<◌, ◌≡◌, refl, sym, ap, ◌∙◌, true, false, Option, none, some, List, [],
  ◌∷◌, ◌++◌, Bytes, ◌==◌, length, length-append, str_eq, str_eq_refl, is_empty, All, All-append,
  Bool-cases, inl, inr, arith,
}
use localsend3ds.Http.Text.{split_at}
use localsend3ds.Http.Query.{
  percent_decode, QueryResult, query_invalid, query_ok, answer, parameter, next_parameter,
  query_loop, query_behind, query_value, parameter_split, parameter_named, is_safe, encoded_byte,
  decode_loop,
}
use localsend3ds.Http.Query.RoundTrip.{IsPrintable, encode_all, decode-encode_all}

-- A text without a byte.
abbrev pub Lacks : ℕ → Bytes → Type 0
Lacks c = All (λ x. (x == c) ≡ false)

pub split_at-some :
    (c : ℕ) (xs ys : Bytes) → Lacks c xs → split_at c (xs ++ (c ∷ ys)) ≡ some (xs, ys)
unfolding split_at
split_at-some c [] ys h = ground arith
split_at-some c (x ∷ xs) ys h = rw (h.0, split_at-some c xs ys h.1) refl

pub split_at-none : (c : ℕ) (xs : Bytes) → Lacks c xs → split_at c xs ≡ none
unfolding split_at
split_at-none c [] h = refl
split_at-none c (x ∷ xs) h = rw (h.0, split_at-none c xs h.1) refl

-- Bytes that are not escaped lack the three separators.
pub encoded_byte-Lacks :
    (c d : ℕ) → IsPrintable c → is_safe d ≡ false → (d == b'%') ≡ false → Lacks d (encoded_byte c)
unfolding encoded_byte is_safe
encoded_byte-Lacks c d p h n = ground arith

pub encode_all-Lacks :
    (d : ℕ) (s : Bytes)
    → All IsPrintable s
    → is_safe d ≡ false
    → (d == b'%') ≡ false
    → Lacks d (encode_all s)
encode_all-Lacks d [] p h n = tt
encode_all-Lacks d (c ∷ cs) p h n =
    All-append _ (encoded_byte c) (encode_all cs) (encoded_byte-Lacks c d p.0 h n)
      (encode_all-Lacks d cs p.1 h n)

-- A parameter, by its name and its value.
pub record Param : Type 0 where
  pub name : Bytes
  pub value : Bytes

-- The name is of bytes that stand for themselves and fits its buffer; the value is printable.
pub record IsParam (q : Param) : Type 0 where
  pub safe : All (λ c. is_safe c ≡ true) q.name
  pub name_fits : length q.name < 32
  pub printable : All IsPrintable q.value

abbrev pub param_text : Param → Bytes
param_text q = q.name ++ (b'=' ∷ encode_all q.value)

abbrev pub query_text : List Param → Bytes
query_text [] = []
query_text (q ∷ []) = param_text q
query_text (q ∷ r ∷ qs) = param_text q ++ (b'&' ∷ query_text (r ∷ qs))

safe-Lacks : (d : ℕ) (s : Bytes) → is_safe d ≡ false → All (λ c. is_safe c ≡ true) s → Lacks d s
safe-Lacks d [] h p = tt
safe-Lacks d (c ∷ cs) h p = (
  elim (Bool-cases (c == d)) [
    | inl e ↦ (let same : c ≡ d = ground arith in cc (rw same at p.0, h))
    | inr e ↦ e
  ],
  safe-Lacks d cs h p.1,
)

safe_encoded : (s : Bytes) → All (λ c. is_safe c ≡ true) s → encode_all s ≡ s
unfolding encoded_byte
safe_encoded [] p = refl
safe_encoded (c ∷ cs) p = rw (p.0, safe_encoded cs p.1) refl

safe-IsPrintable : (s : Bytes) → All (λ c. is_safe c ≡ true) s → All IsPrintable s
unfolding is_safe
safe-IsPrintable [] p = tt
safe-IsPrintable (c ∷ cs) p = (ground arith, safe-IsPrintable cs p.1)

name_decoded : (q : Param) → IsParam q → percent_decode 32 q.name ≡ some q.name
unfolding percent_decode
name_decoded q w =
    ap (decode_loop 32 0 0) (sym (safe_encoded q.name w.safe))
    ∙ decode-encode_all 32 0 q.name (safe-IsPrintable q.name w.safe) (omega (arith, w.name_fits))

value_decoded :
    (q : Param) (capacity : ℕ)
    → IsParam q
    → length q.value < capacity
    → percent_decode capacity (encode_all q.value) ≡ some q.value
unfolding percent_decode
value_decoded q capacity w l = decode-encode_all capacity 0 q.value w.printable (omega arith)

param_split :
    (q : Param) → IsParam q → split_at b'=' (param_text q) ≡ some (q.name, encode_all q.value)
unfolding is_safe
param_split q w =
    split_at-some b'=' q.name (encode_all q.value) (safe-Lacks b'=' q.name refl w.safe)

named_other :
    (wanted : Bytes) (capacity : ℕ) (found : Option Bytes) (name value : Bytes)
    → str_eq name wanted ≡ false
    → parameter_named wanted capacity found value (some name) ≡ some found
unfolding parameter_named
named_other wanted capacity found name value n = rw n refl

named_wanted :
    (capacity : ℕ) (name value : Bytes) {v : Bytes}
    → percent_decode capacity value ≡ some v
    → is_empty v ≡ false
    → parameter_named name capacity none value (some name) ≡ some (some v)
unfolding parameter_named
named_wanted capacity name value d n = rw (str_eq_refl name, d, n) refl

-- A parameter of another name changes nothing.
parameter_other :
    (wanted : Bytes) (capacity : ℕ) (found : Option Bytes) (q : Param)
    → IsParam q
    → str_eq q.name wanted ≡ false
    → parameter wanted capacity found (param_text q) ≡ some found
unfolding parameter parameter_split
parameter_other wanted capacity found q w n =
    ap (parameter_split wanted capacity found) (param_split q w)
    ∙ ap (parameter_named wanted capacity found (encode_all q.value)) (name_decoded q w)
    ∙ named_other wanted capacity found q.name (encode_all q.value) n

parameter_wanted :
    (capacity : ℕ) (q : Param)
    → IsParam q
    → length q.value < capacity
    → is_empty q.value ≡ false
    → parameter q.name capacity none (param_text q) ≡ some (some q.value)
unfolding parameter parameter_split
parameter_wanted capacity q w l n =
    ap (parameter_split q.name capacity none) (param_split q w)
    ∙ ap (parameter_named q.name capacity none (encode_all q.value)) (name_decoded q w)
    ∙ named_wanted capacity q.name (encode_all q.value) (value_decoded q capacity w l) n

param-Lacks : (q : Param) → IsParam q → Lacks b'&' (param_text q)
unfolding is_safe
param-Lacks q w =
    All-append _ q.name (b'=' ∷ encode_all q.value) (safe-Lacks b'&' q.name refl w.safe)
      (refl, encode_all-Lacks b'&' q.value w.printable refl refl)

-- The search goes on with what a parameter leaves.
abbrev go_on : ℕ → Bytes → ℕ → Bytes → Option (Option Bytes) → QueryResult
go_on fuel wanted capacity rest none = query_invalid
go_on fuel wanted capacity rest (some next) = query_loop fuel wanted capacity next rest

go_on_lem :
    (fuel : ℕ) (wanted : Bytes) (capacity : ℕ) (found : Option Bytes) (s : Bytes)
    → is_empty s ≡ false
    → query_loop (suc fuel) wanted capacity found s
      ≡ go_on fuel wanted capacity
          (next_parameter s).1
          (parameter wanted capacity found (next_parameter s).0)
unfolding query_loop
go_on_lem fuel wanted capacity found [] h = cc h
go_on_lem fuel wanted capacity found (c ∷ cs) h = refl

not_empty : (xs : Bytes) (c : ℕ) (ys : Bytes) → is_empty (xs ++ (c ∷ ys)) ≡ false
not_empty [] c ys = refl
not_empty (x ∷ xs) c ys = refl

last_next : (q : Param) → IsParam q → next_parameter (param_text q) ≡ (param_text q, [])
unfolding next_parameter
last_next q w = rw (split_at-none b'&' (param_text q) (param-Lacks q w)) refl

more_next :
    (q : Param) (rest : Bytes)
    → IsParam q
    → next_parameter (param_text q ++ (b'&' ∷ rest)) ≡ (param_text q, rest)
unfolding next_parameter
more_next q rest w = rw (split_at-some b'&' (param_text q) rest (param-Lacks q w)) refl

-- One round, for a first parameter with others behind it or not.
step_lem :
    (fuel : ℕ) (wanted : Bytes) (capacity : ℕ) (found : Option Bytes) (q : Param) (qs : List Param)
    → IsParam q
    → query_loop (suc fuel) wanted capacity found (query_text (q ∷ qs))
      ≡ go_on fuel wanted capacity (query_text qs) (parameter wanted capacity found (param_text q))
step_lem fuel wanted capacity found q [] w =
    go_on_lem fuel wanted capacity found (param_text q) (not_empty q.name b'=' (encode_all q.value))
    ∙ ap (λ t. go_on fuel wanted capacity t.1 (parameter wanted capacity found t.0)) (last_next q w)
step_lem fuel wanted capacity found q (r ∷ qs) w =
    go_on_lem fuel wanted capacity found (param_text q ++ (b'&' ∷ query_text (r ∷ qs)))
      (not_empty (param_text q) b'&' (query_text (r ∷ qs)))
    ∙ ap (λ t. go_on fuel wanted capacity t.1 (parameter wanted capacity found t.0))
        (more_next q (query_text (r ∷ qs)) w)

-- None of the parameters has the name.
abbrev pub NoneNamed : Bytes → List Param → Type 0
NoneNamed wanted = All (λ q. str_eq q.name wanted ≡ false)

others_lem :
    (fuel : ℕ) (wanted : Bytes) (capacity : ℕ) (found : Option Bytes) (qs : List Param)
    → All IsParam qs
    → NoneNamed wanted qs
    → length qs < fuel
    → query_loop fuel wanted capacity found (query_text qs) ≡ answer found
unfolding query_loop
others_lem zero wanted capacity found qs w n l = absurd (omega arith)
others_lem (suc fuel) wanted capacity found [] w n l = refl
others_lem (suc fuel) wanted capacity found (q ∷ qs) w n l =
    step_lem fuel wanted capacity found q qs w.0
    ∙ ap (go_on fuel wanted capacity (query_text qs))
        (parameter_other wanted capacity found q w.0 n.0)
    ∙ others_lem fuel wanted capacity found qs w.1 n.1 (omega arith)

found_lem :
    (fuel capacity : ℕ) (qs : List Param) (q : Param) (rs : List Param)
    → All IsParam qs
    → IsParam q
    → All IsParam rs
    → NoneNamed q.name qs
    → NoneNamed q.name rs
    → length q.value < capacity
    → is_empty q.value ≡ false
    → length qs + suc (length rs) < fuel
    → query_loop fuel q.name capacity none (query_text (qs ++ (q ∷ rs))) ≡ query_ok q.value
found_lem zero capacity qs q rs a w b n m l v f = absurd (omega arith)
found_lem (suc fuel) capacity [] q rs a w b n m l v f =
    step_lem fuel q.name capacity none q rs w
    ∙ ap (go_on fuel q.name capacity (query_text rs)) (parameter_wanted capacity q w l v)
    ∙ others_lem fuel q.name capacity (some q.value) rs b m (omega arith)
found_lem (suc fuel) capacity (p ∷ qs) q rs a w b n m l v f =
    step_lem fuel q.name capacity none p (qs ++ (q ∷ rs)) a.0
    ∙ ap (go_on fuel q.name capacity (query_text (qs ++ (q ∷ rs))))
        (parameter_other q.name capacity none p a.0 n.0)
    ∙ found_lem fuel capacity qs q rs a.1 w b n.1 m l v (omega arith)

-- Each parameter takes a byte at least.
length-query_text : (qs : List Param) → length qs ≤ length (query_text qs)
length-query_text [] = omega arith
length-query_text (q ∷ []) = omega (arith, length-append q.name (b'=' ∷ encode_all q.value))
length-query_text (q ∷ r ∷ qs) =
    omega
      (arith, length-append (param_text q) (b'&' ∷ query_text (r ∷ qs)), length-query_text (r ∷ qs))

-- The target is a path with no question mark, a question mark, and parameters with `&` between them,
-- each written as its name, `=` and its percent-encoded value. If the names are of bytes that stand
-- for themselves and are shorter than 32 bytes, the values are printable, and one name occurs once,
-- with a value that is not empty and fits the buffer, then that name is answered with its value.
pub query_value-query_text :
    (path : Bytes) (capacity : ℕ) (qs : List Param) (q : Param) (rs : List Param)
    → Lacks b'?' path
    → All IsParam qs
    → IsParam q
    → All IsParam rs
    → NoneNamed q.name qs
    → NoneNamed q.name rs
    → length q.value < capacity
    → is_empty q.value ≡ false
    → query_value (path ++ (b'?' ∷ query_text (qs ++ (q ∷ rs)))) q.name capacity ≡ query_ok q.value
unfolding query_value query_behind
query_value-query_text path capacity qs q rs h a w b n m l v =
    ap (query_behind q.name capacity) (split_at-some b'?' path (query_text (qs ++ (q ∷ rs))) h)
    ∙ (found_lem (suc (length (query_text (qs ++ (q ∷ rs))))) capacity qs q rs a w b n m l v
        (omega (arith, length-query_text (qs ++ (q ∷ rs)), length-append qs (q ∷ rs))))
