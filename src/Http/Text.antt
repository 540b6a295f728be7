-- ===== src/Http/Text.antt =====
-- The text functions that source/http_server.c and source/http_response.c both define. A text
-- between two pointers is a list of bytes.
use localsend3ds.Prelude.{
  ℕ, zero, suc, ◌+◌, Bool, true, false, ◌&&◌, ◌||◌, not, Option, none, some, [], ◌∷◌, Bytes, ◌==◌,
  within, if◌then◌else◌, is_empty,
}
use localsend3ds.Json.Cursor.{is_space, skip_whitespace, strip_prefix}
use localsend3ds.Protocol.Object.{digits_loop, uint64_max}

abbrev pub is_blank : ℕ → Bool
is_blank c = c == b' ' || c == 9

unfoldable pub skip_blanks : Bytes → Bytes
skip_blanks [] = []
skip_blanks (c ∷ cs) = let rest = skip_blanks cs in if is_blank c then rest else c ∷ cs

abbrev all_read : Option (ℕ × ℕ × Bytes) → Option ℕ
all_read none = none
all_read (some (n, count, rest)) =
    if not (count == 0) && is_empty (skip_blanks rest) then some n else none

-- `parse_u64`; `none` is the result false.
unfoldable pub parse_u64 : Bytes → Option ℕ
parse_u64 s = all_read (digits_loop uint64_max 0 0 (skip_blanks s))

-- The text without the blanks at its end.
unfoldable pub trim_end : Bytes → Bytes
trim_end [] = []
trim_end (c ∷ cs) = let rest = trim_end cs in if is_blank c && is_empty rest then [] else c ∷ rest

-- `tolower` of the C locale
abbrev pub lower : ℕ → ℕ
lower c = if within b'A' b'Z' c then c + 32 else c

-- Equal lengths, and `strncasecmp(…) == 0`.
unfoldable pub same_word : Bytes → Bytes → Bool
same_word [] [] = true
same_word (x ∷ xs) (y ∷ ys) = lower x == lower y && same_word xs ys
same_word _ _ = false

-- `value_equals`
unfoldable pub value_equals : Bytes → Bytes → Bool
unfolding same_word trim_end skip_blanks
value_equals value expected = same_word (trim_end (skip_blanks value)) expected

abbrev pub before : ℕ → Option (Bytes × Bytes) → Option (Bytes × Bytes)
before c none = none
before c (some (head, tail)) = some (c ∷ head, tail)

-- `memchr`: the text before the first such byte, and the text behind it.
unfoldable pub split_at : ℕ → Bytes → Option (Bytes × Bytes)
split_at wanted [] = none
split_at wanted (c ∷ cs) =
    let rest = before c (split_at wanted cs) in if c == wanted then some ([], cs) else rest

abbrev pub crlf : Bytes
crlf = 13 ∷ 10 ∷ []

-- `strstr` on a text that a NUL ends: the text before the first place where `wanted` stands, and the
-- text behind it. `wanted` holds no NUL.
unfoldable pub find_text : Bytes → Bytes → Option (Bytes × Bytes)
find_text wanted [] = none
find_text wanted (c ∷ cs) = elim (strip_prefix wanted (c ∷ cs)) [
  | some rest ↦ some ([], rest)
  | none ↦ if c == 0 then none else before c (find_text wanted cs)
]

-- The place here, or one further on.
unfoldable pub here_or : ℕ → Option Bytes → Option (Bytes × Bytes) → Option (Bytes × Bytes)
here_or c (some rest) later = some ([], rest)
here_or c none later = before c later

-- `find_bytes`, which does not stop at a NUL; `wanted` is not empty.
unfoldable pub find_bytes : Bytes → Bytes → Option (Bytes × Bytes)
unfolding here_or
find_bytes wanted [] = none
find_bytes wanted (c ∷ cs) = here_or c (strip_prefix wanted (c ∷ cs)) (find_bytes wanted cs)

-- `%<width>s` of `sscanf`: white space is passed over, then a word of at most `width` bytes is read.
unfoldable pub take_word : ℕ → Bytes → Bytes × Bytes
take_word zero s = ([], s)
take_word (suc width) [] = ([], [])
take_word (suc width) (c ∷ cs) =
    let (word, rest) = take_word width cs in if is_space c then ([], c ∷ cs) else (c ∷ word, rest)

unfoldable pub scan_word : ℕ → Bytes → Bytes × Bytes
unfolding take_word skip_whitespace
scan_word width s = take_word width (skip_whitespace s)
