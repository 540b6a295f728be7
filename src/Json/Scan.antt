-- ===== src/Json/Scan.antt =====
-- `parse_string` of source/localsend_protocol.c.
use localsend3ds.Prelude.{
  ℕ, zero, suc, ◌+◌, ◌-◌, ◌*◌, Bool, true, false, ◌&&◌, ◌||◌, Option, none, some, [], ◌∷◌, ◌++◌,
  Bytes, ltb, leb, within, ◌==◌, if◌then◌else◌, length, take, drop,
}
use localsend3ds.Utf8.{encode, sequence}
use localsend3ds.Json.Cursor.{skip_whitespace, parse_hex_quad}

-- `output`, `output_length` and `fits`: the bytes appended so far.
pub record Output : Type 0 where
  pub text : Bytes
  pub fits : Bool

-- `append_byte`. The capacity is `none` for the NULL output, which takes any number of bytes; they
-- are kept here though nothing reads them. One that does not fit leaves the length as it was, so
-- those behind it do not fit either, and `append_codepoint` may stop there.
unfoldable pub append_byte : Option ℕ → Output → ℕ → Output
append_byte none o byte = record o { text = o.text ++ byte ∷ [] }
append_byte (some capacity) o byte =
    if leb capacity (length o.text + 1)
    then record o { fits = false }
    else record o { text = o.text ++ byte ∷ [] }

unfoldable pub append_bytes : Option ℕ → Output → Bytes → Output
append_bytes capacity o [] = o
append_bytes capacity o (b ∷ bs) = append_bytes capacity (append_byte capacity o b) bs

-- What one round of the loop of `parse_string` meets: the closing quote, an error, or bytes to
-- append, with the number of bytes that it reads behind the first.
pub data Piece : Type 0 where
  close bad : Piece
  put : Bytes → ℕ → Piece

abbrev surrogate_base : ℕ → ℕ → ℕ
surrogate_base high low = 0x10000 + (high - 0xd800) * 1024 + (low - 0xdc00)

low_half : ℕ → Option ℕ → Piece
low_half high none = bad
low_half high (some low) =
    if within 0xdc00 0xdfff low then put (encode (surrogate_base high low)) 11 else bad

-- The text behind the first quad of a pair: a backslash, a `u` and the second quad.
high_half : ℕ → Bytes → Piece
high_half high (a ∷ b ∷ rest) =
    if a == b'\\' && b == b'u' then low_half high (parse_hex_quad rest) else bad
high_half high _ = bad

unicode : Option ℕ → Bytes → Piece
unicode none after = bad
unicode (some cp) after =
    if within 0xd800 0xdbff cp
    then high_half cp after
    else if within 0xdc00 0xdfff cp
    then bad
    else if cp == 0
    then bad
    else put (encode cp) 5

-- The byte behind a backslash.
escape : Bytes → Piece
escape [] = bad
escape (e ∷ rest) =
    if e == b'"' || e == b'\\' || e == b'/'
    then put (e ∷ []) 1
    else if e == b'b'
    then put (8 ∷ []) 1
    else if e == b'f'
    then put (12 ∷ []) 1
    else if e == b'n'
    then put (10 ∷ []) 1
    else if e == b'r'
    then put (13 ∷ []) 1
    else if e == b't'
    then put (9 ∷ []) 1
    else if e == b'u'
    then unicode (parse_hex_quad rest) (drop 4 rest)
    else bad

raw : ℕ → Bytes → Option (ℕ × ℕ) → Piece
raw value rest none = bad
raw value rest (some (count, cp)) = put (take count (value ∷ rest)) (count - 1)

unfoldable pub piece : ℕ → Bytes → Piece
unfolding escape unicode high_half low_half parse_hex_quad raw
piece value rest =
    if value == b'"'
    then close
    else if ltb value 0x20
    then bad
    else if value == b'\\'
    then escape rest
    else if ltb value 0x80
    then put (value ∷ []) 0
    else raw value rest (sequence value rest)

-- `JSON_OK` with the text and what stands behind the string, `JSON_TOO_LONG` and `JSON_INVALID`.
pub data Scanned : Type 0 where
  parsed : Bytes → Bytes → Scanned
  too_long : Bytes → Scanned
  invalid : Scanned

abbrev pub closed : Output → Bytes → Scanned
closed o rest = if o.fits then parsed o.text rest else too_long rest

-- The loop; `skip` counts the bytes that a round has already read.
unfoldable pub string_loop : Option ℕ → ℕ → Output → Bytes → Scanned
string_loop capacity skip o [] = invalid
string_loop capacity (suc skip) o (c ∷ cs) = string_loop capacity skip o cs
string_loop capacity zero o (c ∷ cs) = elim (piece c cs) [
  | close ↦ closed o cs
  | bad ↦ invalid
  | put bytes skip ↦ string_loop capacity skip (append_bytes capacity o bytes) cs
]

abbrev pub blank : Output
blank = record { text = []; fits = true }

abbrev pub open_quote : Option ℕ → Bytes → Scanned
open_quote capacity [] = invalid
open_quote capacity (c ∷ cs) = if c == b'"' then string_loop capacity 0 blank cs else invalid

unfoldable pub parse_string : Option ℕ → Bytes → Scanned
unfolding skip_whitespace
parse_string capacity s = open_quote capacity (skip_whitespace s)
