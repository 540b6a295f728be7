-- ===== src/Http/Query.antt =====
-- The query of a request's target: `percent_decode` and `query_value` of source/http_server.c, and
-- `query_encode` of source/outgoing_transfer.c.
pub mod RoundTrip
pub mod Parameters
mod Tests
use localsend3ds.Prelude.{
  ℕ, zero, suc, ◌+◌, ◌-◌, ◌*◌, ◌/◌, ◌%◌, Bool, true, false, ◌&&◌, ◌||◌, Option, none, some, [], ◌∷◌,
  ◌++◌, Bytes, ltb, leb, ◌==◌, within, if◌then◌else◌, length, str_eq, is_empty,
}
use localsend3ds.Json.Cursor.{hex_value, push_digit}
use localsend3ds.Http.Text.{split_at}

-- A byte that `percent_decode` reads: its value, and the number of bytes read behind the first.
abbrev quad : Option ℕ → Option (ℕ × ℕ)
quad none = none
quad (some v) = some (v, 2)

escaped_byte : Bytes → Option (ℕ × ℕ)
escaped_byte (a ∷ b ∷ _) = quad (push_digit (hex_value a) (hex_value b))
escaped_byte _ = none

unfoldable pub decoded_byte : ℕ → Bytes → Option (ℕ × ℕ)
unfolding escaped_byte
decoded_byte c rest =
    if c == b'%' then escaped_byte rest else if c == b'+' then some (b' ', 0) else some (c, 0)

-- A byte that is written to the output, if it may be and there is room for it and the NUL.
abbrev pub store : ℕ → ℕ → ℕ → Option Bytes → Option Bytes
store capacity written value none = none
store capacity written value (some more) =
    if ltb value 0x20 || leb capacity (written + 1) then none else some (value ∷ more)

-- The loop of `percent_decode`; `skip` counts the bytes that a round has already read.
unfoldable pub decode_loop : ℕ → ℕ → ℕ → Bytes → Option Bytes
decode_loop capacity written skip [] = some []
decode_loop capacity written (suc skip) (c ∷ cs) = decode_loop capacity written skip cs
decode_loop capacity written zero (c ∷ cs) = elim (decoded_byte c cs) [
  | none ↦ none
  | some (value, skip) ↦ store capacity written value (decode_loop capacity (written + 1) skip cs)
]

unfoldable pub percent_decode : ℕ → Bytes → Option Bytes
unfolding decode_loop
percent_decode capacity s = decode_loop capacity 0 0 s

-- `QueryResult`, with the output of `QUERY_OK`.
pub data QueryResult : Type 0 where
  query_missing query_invalid : QueryResult
  query_ok : Bytes → QueryResult

-- What was found so far, and the answer that it gives at the end.
abbrev pub answer : Option Bytes → QueryResult
answer none = query_missing
answer (some v) = query_ok v

-- A value for the name that is wanted: the first one, decoded, and not empty.
abbrev first_value : Option Bytes → Option Bytes → Option Bytes
first_value (some v) o = none
first_value none none = none
first_value none (some v) = if is_empty v then none else some v

-- One parameter: what is found behind it, where the outer `none` is `QUERY_INVALID`.
abbrev wrap : Option Bytes → Option (Option Bytes)
wrap none = none
wrap (some v) = some (some v)

unfoldable pub parameter_named :
    Bytes → ℕ → Option Bytes → Bytes → Option Bytes → Option (Option Bytes)
parameter_named wanted capacity found value none = none
parameter_named wanted capacity found value (some name) =
    if str_eq name wanted
    then wrap (first_value found (percent_decode capacity value))
    else some found

unfoldable pub parameter_split :
    Bytes → ℕ → Option Bytes → Option (Bytes × Bytes) → Option (Option Bytes)
unfolding parameter_named
parameter_split wanted capacity found none = none
parameter_split wanted capacity found (some (name, value)) =
    parameter_named wanted capacity found value (percent_decode 32 name)

unfoldable pub parameter : Bytes → ℕ → Option Bytes → Bytes → Option (Option Bytes)
unfolding parameter_split
parameter wanted capacity found text = parameter_split wanted capacity found (split_at b'=' text)

-- The text up to `&` or the end, and what follows.
abbrev cut : Bytes → Option (Bytes × Bytes) → Bytes × Bytes
cut s none = (s, [])
cut s (some t) = t

unfoldable pub next_parameter : Bytes → Bytes × Bytes
next_parameter s = cut s (split_at b'&' s)

-- The loop of `query_value`, on fuel.
unfoldable pub query_loop : ℕ → Bytes → ℕ → Option Bytes → Bytes → QueryResult
query_loop zero wanted capacity found s = query_invalid
query_loop (suc fuel) wanted capacity found [] = answer found
query_loop (suc fuel) wanted capacity found (c ∷ cs) =
    let (text, rest) = next_parameter (c ∷ cs) in
    elim (parameter wanted capacity found text) [
      | none ↦ query_invalid
      | some next ↦ query_loop fuel wanted capacity next rest
    ]

-- `query_value`: a round for each byte, as each takes one at least.
unfoldable pub query_behind : Bytes → ℕ → Option (Bytes × Bytes) → QueryResult
query_behind wanted capacity none = query_missing
query_behind wanted capacity (some (path, query)) =
    query_loop (suc (length query)) wanted capacity none query

unfoldable pub query_value : Bytes → Bytes → ℕ → QueryResult
unfolding query_behind
query_value target wanted capacity = query_behind wanted capacity (split_at b'?' target)

-- `isalnum` of the C locale, and the four other bytes that stand for themselves.
unfoldable pub is_safe : ℕ → Bool
is_safe c =
    within b'0' b'9' c
    || within b'a' b'z' c
    || within b'A' b'Z' c
    || c == b'-'
    || c == b'_'
    || c == b'.'
    || c == b'~'

abbrev pub hex_digit : ℕ → ℕ
hex_digit d = if ltb d 10 then b'0' + d else b'A' + (d - 10)

unfoldable pub encoded_byte : ℕ → Bytes
unfolding is_safe
encoded_byte c = if is_safe c then c ∷ [] else b'%' ∷ hex_digit (c / 16) ∷ hex_digit (c % 16) ∷ []

-- The loop of `query_encode`, over the number of bytes written.
abbrev pub put_bytes : ℕ → ℕ → Bytes → Option Bytes → Option Bytes
put_bytes capacity used bytes none = none
put_bytes capacity used bytes (some more) =
    if leb capacity (used + length bytes) then none else some (bytes ++ more)

unfoldable pub encode_loop : ℕ → ℕ → Bytes → Option Bytes
encode_loop capacity used [] = some []
encode_loop capacity used (c ∷ cs) =
    put_bytes capacity used (encoded_byte c)
      (encode_loop capacity (used + length (encoded_byte c)) cs)

unfoldable pub query_encode : Bytes → ℕ → Option Bytes
unfolding encode_loop
query_encode input capacity = if capacity == 0 then none else encode_loop capacity 0 input
