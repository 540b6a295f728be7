-- ===== src/Json/Skip.antt =====
-- `skip_value` of source/localsend_protocol.c and what it calls: the text behind a value whose
-- content is not wanted. `none` is the result false. The fuel is a round for each byte and one more:
-- each round takes a byte at least.
use localsend3ds.Prelude.{
  ℕ, zero, suc, ◌+◌, ◌||◌, Option, none, some, [], ◌∷◌, Bytes, leb, ◌==◌, if◌then◌else◌, codes,
  length, within,
}
use localsend3ds.Json.Cursor.{is_digit, skip_whitespace, take_char, match_literal}
use localsend3ds.Json.Scan.{Scanned, parsed, too_long, invalid, parse_string}

-- What stands behind a member or an element: the closing bracket, a comma, or an error.
pub data Separator : Type 0 where
  last more : Bytes → Separator
  wrong : Separator

abbrev pub separate : ℕ → Bytes → Separator
separate closing [] = wrong
separate closing (c ∷ cs) = if c == closing then last cs else if c == b',' then more cs else wrong

unfoldable pub separator : ℕ → Bytes → Separator
separator closing s = separate closing (skip_whitespace s)

unfoldable pub skip_digits : Bytes → Bytes
skip_digits [] = []
skip_digits (c ∷ cs) = let rest = skip_digits cs in if is_digit c then rest else c ∷ cs

-- At least one digit, and all that follow.
abbrev pub some_digits : Bytes → Option Bytes
some_digits [] = none
some_digits (c ∷ cs) = if is_digit c then some (skip_digits cs) else none

integer_part : Bytes → Option Bytes
integer_part [] = none
integer_part (c ∷ cs) =
    if c == b'0' then some cs else if within b'1' b'9' c then some (skip_digits cs) else none

fraction_part : Bytes → Option Bytes
fraction_part [] = some []
fraction_part (c ∷ cs) = if c == b'.' then some_digits cs else some (c ∷ cs)

after_sign : Bytes → Bytes
after_sign [] = []
after_sign (c ∷ cs) = if c == b'+' || c == b'-' then cs else c ∷ cs

exponent_part : Bytes → Option Bytes
exponent_part [] = some []
exponent_part (c ∷ cs) =
    if c == b'e' || c == b'E' then some_digits (after_sign cs) else some (c ∷ cs)

after_minus : Bytes → Bytes
after_minus [] = []
after_minus (c ∷ cs) = if c == b'-' then cs else c ∷ cs

infixl 5 ◌>>=◌
abbrev pub ◌>>=◌ {ℓ κ} : {A : Type ℓ} {B : Type κ} → Option A → (A → Option B) → Option B
none >>= f = none
some a >>= f = f a

unfoldable pub skip_number : Bytes → Option Bytes
unfolding integer_part fraction_part exponent_part after_minus after_sign skip_digits
skip_number s = do
  a ← integer_part (after_minus (skip_whitespace s))
  b ← fraction_part a
  exponent_part b

abbrev pub behind : Scanned → Option Bytes
behind (parsed _ rest) = some rest
behind (too_long rest) = some rest
behind invalid = none

-- The byte on which `skip_value` switches.
pub data Kind : Type 0 where
  ended string object array yes_literal no_literal null_literal number : Kind

unfoldable pub kind : Bytes → Kind
kind [] = ended
kind (c ∷ _) =
    if c == b'"'
    then string
    else if c == b'{'
    then object
    else if c == b'['
    then array
    else if c == b't'
    then yes_literal
    else if c == b'f'
    then no_literal
    else if c == b'n'
    then null_literal
    else number

abbrev pub max_depth : ℕ
max_depth = 8

-- A bracket at the front of a container of a depth that is allowed: the text behind it.
abbrev pub enter : ℕ → ℕ → Bytes → Option Bytes
enter opening depth s = if leb max_depth depth then none else take_char opening s

-- The text behind a closing bracket that stands next, for an empty container.
abbrev pub at_once : ℕ → Bytes → Option Bytes
at_once closing s = take_char closing s

unfoldable pub member_name : Bytes → Option Bytes
member_name s = behind (parse_string none s) >>= take_char b':'

unfoldable mutual
  pub skip_value : ℕ → ℕ → Bytes → Option Bytes
  skip_value zero depth s = none
  skip_value (suc fuel) depth s = elim (kind (skip_whitespace s)) [
    | ended ↦ none
    | string ↦ behind (parse_string none s)
    | object ↦ elim (enter b'{' depth s) [
      | none ↦ none
      | some r ↦ elim (at_once b'}' r) [
        | some rest ↦ some rest
        | none ↦ skip_members fuel (depth + 1) r
      ]
    ]
    | array ↦ elim (enter b'[' depth s) [
      | none ↦ none
      | some r ↦ elim (at_once b']' r) [
        | some rest ↦ some rest
        | none ↦ skip_elements fuel (depth + 1) r
      ]
    ]
    | yes_literal ↦ match_literal (codes "true") s
    | no_literal ↦ match_literal (codes "false") s
    | null_literal ↦ match_literal (codes "null") s
    | number ↦ skip_number s
  ]

  -- The loop of `skip_object`.
  pub skip_members : ℕ → ℕ → Bytes → Option Bytes
  skip_members zero depth s = none
  skip_members (suc fuel) depth s = elim (member_name s) [
    | none ↦ none
    | some r ↦ elim (skip_value fuel depth r) [
      | none ↦ none
      | some v ↦ elim (separator b'}' v) [
        | last rest ↦ some rest
        | more rest ↦ skip_members fuel depth rest
        | wrong ↦ none
      ]
    ]
  ]

  -- The loop of `skip_array`.
  pub skip_elements : ℕ → ℕ → Bytes → Option Bytes
  skip_elements zero depth s = none
  skip_elements (suc fuel) depth s = elim (skip_value fuel depth s) [
    | none ↦ none
    | some v ↦ elim (separator b']' v) [
      | last rest ↦ some rest
      | more rest ↦ skip_elements fuel depth rest
      | wrong ↦ none
    ]
  ]

-- `skip_value` with a round for each byte and one more.
unfoldable pub skip : Bytes → Option Bytes
unfolding skip_value skip_members skip_elements kind member_name
skip s = skip_value (suc (length s)) 0 s
