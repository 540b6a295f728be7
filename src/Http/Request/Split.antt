-- ===== src/Http/Request/Split.antt =====
-- Where `find_header_end` of source/http_server.c finds the end of a header that has lines.
use localsend3ds.Prelude.{
  ℕ, ◌≡◌, refl, ap, ◌∙◌, false, some, [], ◌∷◌, ◌++◌, Bytes, All, arith, codes, ◌==◌,
}
use localsend3ds.Json.Cursor.{strip_prefix}
use localsend3ds.Http.Text.{crlf, before, find_bytes, here_or}
use localsend3ds.Http.Request.{split_header}
use localsend3ds.Http.Request.Read.{IsPlain}

-- The first blank line of the text is its end.
pub record EndsBlank (s : Bytes) : Type 0 where
  pub header : Bytes
  pub found : find_bytes (crlf ++ crlf) s ≡ some (header, [])
  pub whole : header ++ (crlf ++ crlf) ≡ s

plain-skip :
    (c : ℕ) (s : Bytes)
    → IsPlain c
    → find_bytes (crlf ++ crlf) (c ∷ s) ≡ before c (find_bytes (crlf ++ crlf) s)
unfolding find_bytes here_or strip_prefix
plain-skip c s h = let other : (c == 13) ≡ false = ground (arith, h) in rw other refl

break-skip :
    (c : ℕ) (s : Bytes)
    → IsPlain c
    → find_bytes (crlf ++ crlf) (13 ∷ 10 ∷ c ∷ s)
      ≡ before 13 (before 10 (find_bytes (crlf ++ crlf) (c ∷ s)))
unfolding find_bytes here_or strip_prefix
break-skip c s h = let other : (c == 13) ≡ false = ground (arith, h) in rw other refl

byte-EndsBlank : (c : ℕ) (s : Bytes) → IsPlain c → EndsBlank s → EndsBlank (c ∷ s)
byte-EndsBlank c s h e = record {
  header = c ∷ e.header;
  found = plain-skip c s h ∙ ap (before c) e.found;
  whole = ap (λ t. c ∷ t) e.whole;
}

plain-EndsBlank : (line s : Bytes) → All IsPlain line → EndsBlank s → EndsBlank (line ++ s)
plain-EndsBlank [] s h e = e
plain-EndsBlank (c ∷ cs) s h e = byte-EndsBlank c (cs ++ s) h.0 (plain-EndsBlank cs s h.1 e)

-- A line in front of more text that does not begin with a break.
pub line-EndsBlank :
    (line : Bytes) (c : ℕ) (s : Bytes)
    → All IsPlain line
    → IsPlain c
    → EndsBlank (c ∷ s)
    → EndsBlank (line ++ (13 ∷ 10 ∷ c ∷ s))
line-EndsBlank line c s h p e = plain-EndsBlank line (13 ∷ 10 ∷ c ∷ s) h (record {
  header = 13 ∷ 10 ∷ e.header;
  found = break-skip c s p ∙ ap (λ t. before 13 (before 10 t)) e.found;
  whole = ap (λ t. 13 ∷ 10 ∷ t) e.whole;
})

-- The last line, with the blank line behind it.
pub last-EndsBlank : (line : Bytes) → All IsPlain line → EndsBlank (line ++ codes "\r\n\r\n")
unfolding find_bytes here_or strip_prefix
last-EndsBlank line h =
    plain-EndsBlank line (codes "\r\n\r\n") h (record { header = []; found = refl; whole = refl })

-- Such a text is a header as a whole, with no body yet.
pub split_header-EndsBlank : (s : Bytes) → EndsBlank s → split_header s ≡ some (s, [])
unfolding split_header
split_header-EndsBlank s e = rw e.found (ap (λ t. some (t, [])) e.whole)
