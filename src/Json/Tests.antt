-- ===== src/Json/Tests.antt =====
-- A quote, a line feed and a euro sign, read back from their JSON text.
use localsend3ds.Prelude.{
  ℕ, ◌≡◌, List, [], ◌∷◌, ◌++◌, codes, length, some, ltb, if◌then◌else◌, arith,
}
use localsend3ds.Utf8.Text.{utf8, IsText}
use localsend3ds.Json.Scan.{parse_string, parsed, too_long}
use localsend3ds.Json.RoundTrip.{quoted, parse_string-quoted}

abbrev text : List ℕ
text = 0x22 ∷ 10 ∷ 0x20ac ∷ []

text-IsText : IsText text
text-IsText = ground arith

parse_string-quoted_example :
    parse_string (some 6) (quoted (utf8 text) ++ codes ",")
    ≡ (if ltb (length (utf8 text)) 6 then parsed (utf8 text) (codes ",") else too_long (codes ","))
parse_string-quoted_example = parse_string-quoted 6 text (codes ",") text-IsText (omega arith)
