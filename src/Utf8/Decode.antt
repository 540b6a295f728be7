-- ===== src/Utf8/Decode.antt =====
-- Decoding takes exactly what encoding makes.
use localsend3ds.Prelude.{
  ℕ, ◌<◌, ◌≡◌, inl, inr, ◌⊎◌, some, [], ◌∷◌, ◌++◌, All, Bytes, arith, leb, length, Bool-cases, take,
}
use localsend3ds.Utf8.{encode, sequence}

-- A Unicode scalar value.
abbrev pub IsScalar : ℕ → Type 0
IsScalar cp = (cp < 0xd800) ⊎ ((0xdfff < cp) × (cp < 0x110000))

-- What decoding says of an encoded code point with any text behind it.
abbrev pub Decodes : ℕ → Bytes → Bytes → Type 0
Decodes cp [] rest = ⊥
Decodes cp (first ∷ more) rest = sequence first (more ++ rest) ≡ some (length (first ∷ more), cp)

-- `append_codepoint` writes what `valid_utf8_length` accepts: the head of the encoded text is one
-- whole sequence, and it spells the code point.
pub sequence-encode : (cp : ℕ) (rest : Bytes) → IsScalar cp → Decodes cp (encode cp) rest
unfolding encode sequence
sequence-encode cp rest h = elim (Bool-cases (leb cp 0x7f)) [
  | inl a ↦ rw a (ground arith)
  | inr a ↦ rw a (elim (Bool-cases (leb cp 0x7ff)) [
    | inl b ↦ rw b (ground arith)
    | inr b ↦ rw b (elim (Bool-cases (leb cp 0xffff)) [
      | inl c ↦ rw c (ground arith)
      | inr c ↦ rw c (ground arith)
    ])
  ])
]

abbrev pub IsByte : ℕ → Type 0
IsByte c = c < 256

-- What is accepted is the encoding of a scalar value: overlong forms, surrogates, truncated
-- sequences and stray bytes are refused.
pub encode-sequence :
    (first : ℕ) (rest : Bytes) {n cp : ℕ}
    → IsByte first
    → All IsByte rest
    → sequence first rest ≡ some (n, cp)
    → IsScalar cp × (take n (first ∷ rest) ≡ encode cp)
unfolding encode sequence
encode-sequence first [] {n} {cp} f b h = ground arith
encode-sequence first (x ∷ []) {n} {cp} f b h = ground arith
encode-sequence first (x ∷ y ∷ []) {n} {cp} f b h = ground arith
encode-sequence first (x ∷ y ∷ z ∷ rest) {n} {cp} f b h = ground arith
