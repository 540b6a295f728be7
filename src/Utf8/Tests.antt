-- ===== src/Utf8/Tests.antt =====
-- The euro sign.
use localsend3ds.Prelude.{◌≡◌, refl, inl, [], ◌∷◌, codes, Bytes, take, arith}
use localsend3ds.Utf8.{encode, sequence}
use localsend3ds.Utf8.Decode.{IsScalar, Decodes, sequence-encode, encode-sequence}

abbrev tail : Bytes
tail = 0x82 ∷ 0xac ∷ 0x41 ∷ []

sequence-encode_example : Decodes 0x20ac (encode 0x20ac) (codes "A")
sequence-encode_example = sequence-encode 0x20ac (codes "A") (inl (omega arith))

encode-sequence_example : IsScalar 0x20ac × (take 3 (0xe2 ∷ tail) ≡ encode 0x20ac)
unfolding sequence
encode-sequence_example = encode-sequence 0xe2 tail (omega arith) (omega arith) refl
