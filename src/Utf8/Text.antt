-- ===== src/Utf8/Text.antt =====
-- Texts as lists of code points.
use localsend3ds.Prelude.{ℕ, ◌≢◌, [], ◌∷◌, ◌++◌, List, Bytes, All}
use localsend3ds.Utf8.{encode}
use localsend3ds.Utf8.Decode.{IsScalar}

-- The bytes of a text.
abbrev pub utf8 : List ℕ → Bytes
utf8 [] = []
utf8 (cp ∷ cps) = encode cp ++ utf8 cps

-- A text that a C string can hold: scalar values, and no NUL.
abbrev pub IsText : List ℕ → Type 0
IsText = All (λ cp. IsScalar cp × (cp ≢ 0))
