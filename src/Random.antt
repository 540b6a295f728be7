-- ===== src/Random.antt =====
-- source/secure_random.c: identifiers from random bytes.
use localsend3ds.Prelude.{
  ℕ, suc, ◌+◌, ◌-◌, ◌/◌, ◌%◌, Bool, ◌||◌, Option, none, some, [], ◌∷◌, ◌++◌, Bytes, ltb, ◌==◌,
  if◌then◌else◌,
}
use localsend3ds.Platform.{Platform}

abbrev lower_hex : ℕ → ℕ
lower_hex d = if ltb d 10 then b'0' + d else b'a' + (d - 10)

-- `bytes[6]` and `bytes[8]` carry the version and the variant; the others are as drawn.
abbrev mark : ℕ → ℕ → ℕ
mark input byte =
    if input == 6 then byte % 16 + 0x40 else if input == 8 then byte % 64 + 0x80 else byte

-- A dash stands before the digits of these bytes, where `out` is 8, 13, 18 and 23.
abbrev dash_before : ℕ → Bool
dash_before input = input == 4 || input == 6 || input == 8 || input == 10

-- The loop of `ls_secure_random_uuid`.
unfoldable pub format_uuid : ℕ → Bytes → Bytes
format_uuid input [] = []
format_uuid input (byte ∷ rest) =
    (if dash_before input then b'-' ∷ [] else [])
    ++ (lower_hex (mark input byte / 16)
        ∷ lower_hex (mark input byte % 16)
        ∷ format_uuid (suc input) rest)

module _ (p : Platform) where
  uuid_of : Option Bytes → Option Bytes
  uuid_of none = none
  uuid_of (some bytes) = some (format_uuid 0 bytes)

  -- `ls_secure_random_uuid`; `none` is the result false.
  unfoldable pub uuid : p.World → Option Bytes × p.World
  unfolding uuid_of
  uuid w = let (bytes, w') = p.random_bytes w 16 in (uuid_of bytes, w')
