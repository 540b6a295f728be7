-- ===== src/Utf8.antt =====
-- The UTF-8 routines: `append_codepoint` and `valid_utf8_length` of source/localsend_protocol.c,
-- and `utf8_sequence_length` of source/settings.c and source/filesystem.c.
-- `x >> 6` is `x / 64`, `x & 0x3f` is `x % 64`, and `|` of numbers without a common bit is `+`.
pub mod Decode
pub mod Text
mod Tests
use localsend3ds.Prelude.{
  ℕ, zero, suc, ◌+◌, ◌*◌, ◌/◌, ◌%◌, Bool, true, false, ◌&&◌, ◌||◌, Option, none, some, [], ◌∷◌,
  Bytes, ltb, leb, within, ◌==◌, if◌then◌else◌,
}

-- The bytes that `append_codepoint` appends.
unfoldable pub encode : ℕ → Bytes
encode cp =
    if leb cp 0x7f
    then cp ∷ []
    else if leb cp 0x7ff
    then (0xc0 + cp / 64) ∷ (0x80 + cp % 64) ∷ []
    else if leb cp 0xffff
    then (0xe0 + cp / 4096) ∷ (0x80 + cp / 64 % 64) ∷ (0x80 + cp % 64) ∷ []
    else (0xf0 + cp / 262144)
      ∷ (0x80 + cp / 4096 % 64)
      ∷ (0x80 + cp / 64 % 64)
      ∷ (0x80 + cp % 64)
      ∷ []

-- The first byte: how many bytes follow it, and its bits of the code point.
unfoldable pub lead : ℕ → Option (ℕ × ℕ)
lead first =
    if ltb first 0x80
    then some (0, first)
    else if within 0xc2 0xdf first
    then some (1, first % 32)
    else if within 0xe0 0xef first
    then some (2, first % 16)
    else if within 0xf0 0xf4 first
    then some (3, first % 8)
    else none

-- The loop over the continuation bytes. The test `available < count` that stands before it in the
-- source is the end of the list, with the same result.
unfoldable pub continue : ℕ → ℕ → Bytes → Option ℕ
continue zero cp rest = some cp
continue (suc n) cp [] = none
continue (suc n) cp (next ∷ rest) =
    let more = continue n (cp * 64 + next % 64) rest in if next / 64 == 2 then more else none

-- The tests behind the loop: overlong forms, surrogates, and what lies past the last code point.
unfoldable pub refused : ℕ → ℕ → Bool
refused more cp =
    more == 2 && ltb cp 0x800
    || more == 3 && ltb cp 0x10000
    || within 0xd800 0xdfff cp
    || ltb 0x10ffff cp

unfoldable pub finish : ℕ → Option ℕ → Option (ℕ × ℕ)
finish more none = none
finish more (some cp) = if refused more cp then none else some (suc more, cp)

unfoldable pub follow : Bytes → Option (ℕ × ℕ) → Option (ℕ × ℕ)
follow rest none = none
follow rest (some (zero, bits)) = some (1, bits)
follow rest (some (suc n, bits)) = finish (suc n) (continue (suc n) bits rest)

-- `valid_utf8_length` on a text that is not empty: the length of the sequence at its head and the
-- code point that it spells. `none` is the result 0.
unfoldable pub sequence : ℕ → Bytes → Option (ℕ × ℕ)
unfolding lead continue refused finish follow
sequence first rest = follow rest (lead first)
