-- ===== src/Protocol/Object.antt =====
-- What `ls_protocol_parse_device`, `parse_file_object` and `ls_protocol_parse_prepare_upload` share:
-- the loop over the members of an object, and the values of their fields.
use localsend3ds.Prelude.{
  ℕ, zero, suc, ◌+◌, ◌-◌, ◌*◌, ◌/◌, Bool, true, false, ◌&&◌, ◌||◌, not, Option, none, some, List,
  [], ◌∷◌, Bytes, ltb, ◌==◌, within, if◌then◌else◌, codes, is_empty, length,
}
use localsend3ds.Json.Cursor.{is_digit, skip_whitespace, take_char, match_literal}
use localsend3ds.Json.Scan.{parse_string}
use localsend3ds.Json.Skip.{last, more, wrong, separator}
use localsend3ds.Protocol.{
  invalid_json, missing_field, duplicate_field, invalid_value, Parsed, ok, fail, ◌>>=◌, or_fail,
  json_parse_result, parse_key, key_capacity,
}

abbrev pub member : ℕ → List ℕ → Bool
member x [] = false
member x (y ∷ ys) = x == y || member x ys

-- `fields` is the list of the bits that are set; `field` 0 is a key that is not known.
-- `field != 0 && !set_once(&fields, field)` is `none`.
unfoldable pub set_once : ℕ → List ℕ → Option (List ℕ)
set_once field fields =
    if field == 0 then some fields else if member field fields then none else some (field ∷ fields)

module _ {S : Type 0} (field_of : Bytes → ℕ) (value : ℕ → S → Bytes → Parsed (S × Bytes)) where
  -- The loop, behind `{`, up to the closing brace; it gives the text behind that.
  unfoldable pub members_loop : ℕ → List ℕ → S → Bytes → Parsed (S × List ℕ × Bytes)
  members_loop zero fields out s = fail invalid_json
  members_loop (suc fuel) fields out s = elim (parse_key key_capacity s) [
    | fail e ↦ fail e
    | ok (key, r) ↦ elim (set_once (field_of key) fields) [
      | none ↦ fail duplicate_field
      | some set ↦ elim (value (field_of key) out r) [
        | fail e ↦ fail e
        | ok (next, v) ↦ elim (separator b'}' v) [
          | last rest ↦ ok (next, set, rest)
          | more rest ↦ members_loop fuel set next rest
          | wrong ↦ fail invalid_json
        ]
      ]
    ]
  ]

  -- By the text behind a closing brace that stands next.
  unfoldable pub nonempty_object : S → Bytes → Option Bytes → Parsed (S × List ℕ × Bytes)
  nonempty_object out s (some rest) = fail missing_field
  nonempty_object out s none = members_loop (suc (length s)) [] out s

  -- An object that is not empty.
  unfoldable pub parse_object : S → Bytes → Parsed (S × List ℕ × Bytes)
  unfolding nonempty_object
  parse_object out s =
      or_fail invalid_json (take_char b'{' s) >>= λ r. nonempty_object out r (take_char b'}' r)

-- A string of a buffer's capacity.
unfoldable pub text_value : ℕ → Bytes → Parsed (Bytes × Bytes)
text_value capacity s = json_parse_result (parse_string (some capacity) s)

-- The value that was read is put in its place.
abbrev pub stored : {A S : Type 0} → (A → S) → Parsed (A × Bytes) → Parsed (S × Bytes)
stored put (ok (a, rest)) = ok (put a, rest)
stored put (fail e) = fail e

-- A value that is passed over.
abbrev pub passed : {S : Type 0} → S → Parsed Bytes → Parsed (S × Bytes)
passed out (ok rest) = ok (out, rest)
passed out (fail e) = fail e

-- `cursor.data[cursor.position] == 'n'` behind white space.
abbrev pub next_is_n : Bytes → Bool
next_is_n [] = false
next_is_n (c ∷ cs) = c == b'n'

-- `null`, and the text behind it.
abbrev pub null_value : Bytes → Parsed Bytes
null_value s = or_fail invalid_value (match_literal (codes "null") s)

abbrev bool_or : Option Bytes → Option Bytes → Parsed (Bool × Bytes)
bool_or (some rest) o = ok (true, rest)
bool_or none (some rest) = ok (false, rest)
bool_or none none = fail invalid_value

unfoldable pub parse_bool : Bytes → Parsed (Bool × Bytes)
parse_bool s = bool_or (match_literal (codes "true") s) (match_literal (codes "false") s)

-- The loop of `parse_port`.
unfoldable pub port_loop : ℕ → Bytes → Option (ℕ × Bytes)
port_loop n [] = some (n, [])
port_loop n (c ∷ cs) =
    let further = port_loop (n * 10 + (c - b'0')) cs in
    if not (is_digit c)
    then some (n, c ∷ cs)
    else if ltb 65535 (n * 10 + (c - b'0'))
    then none
    else further

abbrev not_zero : ℕ × Bytes → Parsed (ℕ × Bytes)
not_zero (n, rest) = if n == 0 then fail invalid_value else ok (n, rest)

-- Without a digit the value is 0 too.
unfoldable pub parse_port : Bytes → Parsed (ℕ × Bytes)
unfolding port_loop
parse_port s = or_fail invalid_value (port_loop 0 (skip_whitespace s)) >>= not_zero

-- A loop over digits that stops where the value would pass `max`; the number of digits is counted.
unfoldable pub digits_loop : ℕ → ℕ → ℕ → Bytes → Option (ℕ × ℕ × Bytes)
digits_loop max n count [] = some (n, count, [])
digits_loop max n count (c ∷ cs) =
    let further = digits_loop max (n * 10 + (c - b'0')) (suc count) cs in
    if not (is_digit c)
    then some (n, count, c ∷ cs)
    else if ltb ((max - (c - b'0')) / 10) n
    then none
    else further

abbrev pub starts_with_digit : Bytes → Bool
starts_with_digit [] = false
starts_with_digit (c ∷ cs) = is_digit c

abbrev pub uint64_max : ℕ
uint64_max = 18446744073709551615

abbrev pub some_digit : ℕ × ℕ × Bytes → Parsed (ℕ × Bytes)
some_digit (n, count, rest) = if count == 0 then fail invalid_value else ok (n, rest)

unfoldable pub u64_digits : Bytes → Parsed (ℕ × Bytes)
u64_digits [] = fail invalid_value
u64_digits (c ∷ cs) =
    if c == b'0'
    then if starts_with_digit cs then fail invalid_value else ok (0, cs)
    else or_fail invalid_value (digits_loop uint64_max 0 0 (c ∷ cs)) >>= some_digit

unfoldable pub parse_u64_integer : Bytes → Parsed (ℕ × Bytes)
unfolding u64_digits digits_loop
parse_u64_integer s = u64_digits (skip_whitespace s)

abbrev pub is_c1 : Bytes → Bool
is_c1 [] = false
is_c1 (d ∷ ds) = within 0x80 0x9f d

-- The loop of `valid_network_display_text`.
unfoldable pub display_loop : Bytes → Bool
display_loop [] = true
display_loop (c ∷ cs) =
    let further = display_loop cs in
    if ltb c 0x20 || c == 0x7f || c == 0xc2 && is_c1 cs then false else further

unfoldable pub valid_network_display_text : Bytes → Bool → Bool
valid_network_display_text value allow_empty =
    (allow_empty || not (is_empty value)) && display_loop value
