-- ===== src/Json/Write.antt =====
-- `JsonWriter` of source/localsend_protocol.c. `data[0 .. length)` is `text`.
use localsend3ds.Prelude.{
  ℕ, ◌+◌, ◌-◌, ◌/◌, ◌%◌, Bool, false, ◌||◌, not, Option, none, some, [], ◌∷◌, ◌++◌, Bytes, leb, ltb,
  ◌==◌, if◌then◌else◌, length,
}

pub record Writer : Type 0 where
  pub capacity : ℕ
  pub text : Bytes
  pub ok : Bool

-- `{output, capacity, 0, output != NULL && capacity > 0}`
unfoldable pub start : ℕ → Writer
start capacity = record { capacity = capacity; text = []; ok = ltb 0 capacity }

unfoldable pub writer_bytes : Bytes → Writer → Writer
writer_bytes value w =
    if not w.ok || leb w.capacity (length w.text + length value)
    then record w { ok = false }
    else record w { text = w.text ++ value }

-- An upper-case hexadecimal digit of `snprintf("%04X")`.
abbrev pub upper_hex : ℕ → ℕ
upper_hex d = if ltb d 10 then b'0' + d else b'A' + (d - 10)

-- What `writer_string` writes for one byte.
unfoldable pub escaped : ℕ → Bytes
escaped c =
    if c == b'"'
    then b'\\' ∷ b'"' ∷ []
    else if c == b'\\'
    then b'\\' ∷ b'\\' ∷ []
    else if c == 8
    then b'\\' ∷ b'b' ∷ []
    else if c == 12
    then b'\\' ∷ b'f' ∷ []
    else if c == 10
    then b'\\' ∷ b'n' ∷ []
    else if c == 13
    then b'\\' ∷ b'r' ∷ []
    else if c == 9
    then b'\\' ∷ b't' ∷ []
    else if ltb c 0x20
    then b'\\' ∷ b'u' ∷ b'0' ∷ b'0' ∷ upper_hex (c / 16) ∷ upper_hex (c % 16) ∷ []
    else c ∷ []

-- The loop of `writer_string`; it stops once the writer has failed.
unfoldable pub writer_chars : Bytes → Writer → Writer
writer_chars [] w = w
writer_chars (c ∷ cs) w =
    let rest = writer_chars cs (writer_bytes (escaped c) w) in if w.ok then rest else w

unfoldable pub writer_string : Bytes → Writer → Writer
unfolding writer_bytes escaped writer_chars
writer_string value w = writer_bytes (b'"' ∷ []) (writer_chars value (writer_bytes (b'"' ∷ []) w))

unfoldable pub writer_field : Bytes → Bytes → Bool → Writer → Writer
unfolding writer_string
writer_field name value comma w = writer_string value (
    writer_bytes (b':' ∷ []) (writer_string name (if comma then writer_bytes (b',' ∷ []) w else w)))

-- `writer_finish`, with the text that it leaves.
unfoldable pub writer_finish : Writer → Option Bytes
writer_finish w = if w.ok then some w.text else none
