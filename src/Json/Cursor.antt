-- ===== src/Json/Cursor.antt =====
-- `JsonCursor` and the functions on single bytes. A cursor is the text from `position` to `length`,
-- so a read before `length` is a match on the list; `depth` is an argument of the functions that
-- use it. `isspace`, `isdigit` and the like are those of the C locale.
use localsend3ds.Prelude.{
  ℕ, ◌+◌, ◌-◌, ◌*◌, Bool, ◌||◌, Option, none, some, [], ◌∷◌, Bytes, within, ◌==◌, if◌then◌else◌,
}

abbrev pub is_space : ℕ → Bool
is_space c = c == b' ' || within 9 13 c

abbrev pub is_digit : ℕ → Bool
is_digit = within b'0' b'9'

unfoldable pub skip_whitespace : Bytes → Bytes
skip_whitespace [] = []
skip_whitespace (c ∷ cs) = let rest = skip_whitespace cs in if is_space c then rest else c ∷ cs

-- The text behind `expected`, if that stands next.
abbrev pub expect : ℕ → Bytes → Option Bytes
expect expected [] = none
expect expected (c ∷ cs) = if c == expected then some cs else none

-- `take`
unfoldable pub take_char : ℕ → Bytes → Option Bytes
take_char expected s = expect expected (skip_whitespace s)

-- `none` is the result -1.
unfoldable pub hex_value : ℕ → Option ℕ
hex_value c =
    if within b'0' b'9' c
    then some (c - b'0')
    else if within b'a' b'f' c
    then some (c - b'a' + 10)
    else if within b'A' b'F' c
    then some (c - b'A' + 10)
    else none

-- `(result << 4) | digit`, where a digit is missing or not hexadecimal `none`.
abbrev pub push_digit : Option ℕ → Option ℕ → Option ℕ
push_digit none d = none
push_digit (some r) none = none
push_digit (some r) (some d) = some (r * 16 + d)

unfoldable pub parse_hex_quad : Bytes → Option ℕ
unfolding hex_value
parse_hex_quad (a ∷ b ∷ c ∷ d ∷ _) =
    push_digit (push_digit (push_digit (hex_value a) (hex_value b)) (hex_value c)) (hex_value d)
parse_hex_quad _ = none

-- The text behind a literal that stands next.
unfoldable pub strip_prefix : Bytes → Bytes → Option Bytes
strip_prefix [] s = some s
strip_prefix (l ∷ ls) [] = none
strip_prefix (l ∷ ls) (c ∷ cs) = let more = strip_prefix ls cs in if c == l then more else none

unfoldable pub match_literal : Bytes → Bytes → Option Bytes
unfolding skip_whitespace strip_prefix
match_literal literal s = strip_prefix literal (skip_whitespace s)
