-- ===== src/Http/Request/Read.antt =====
-- What the parser of a request head makes of lines that have the form of a request.
use localsend3ds.Prelude.{
  ℕ, zero, suc, ◌≤◌, ◌<◌, ◌≡◌, refl, sym, ap, ◌∙◌, false, ◌&&◌, none, some, [], ◌∷◌, ◌++◌, Bytes,
  ◌==◌, leb, length, length-append, str_eq, is_empty, codes, All, All-append, arith, append_assoc,
}
use localsend3ds.Json.Cursor.{skip_whitespace, strip_prefix, is_space}
use localsend3ds.Http.Text.{
  crlf, before, parse_u64, skip_blanks, is_blank, find_text, scan_word, take_word,
}
use localsend3ds.Http.Query.Parameters.{Lacks, split_at-some}
use localsend3ds.Http.Request.{
  Request, header_field, headers_loop, request_line, parse_request_headers, first_line,
  headers_after, unambiguous,
}
use localsend3ds.Protocol.Object.{uint64_max}
use localsend3ds.Protocol.Write.{decimal}
use localsend3ds.Protocol.Decimal.{IsDigit, digits_loop-decimal, decimal-IsDigit}

-- Bytes that end no line, and bytes of a word.
abbrev pub IsPlain : ℕ → Type 0
IsPlain c = 0x20 ≤ c

abbrev pub IsVisible : ℕ → Type 0
IsVisible c = 0x20 < c

pub visible→plain : (s : Bytes) → All IsVisible s → All IsPlain s
visible→plain [] h = tt
visible→plain (c ∷ cs) h = (omega (arith, h.0), visible→plain cs h.1)

find_text-skip :
    (c : ℕ) (s : Bytes)
    → strip_prefix crlf (c ∷ s) ≡ none
    → (c == 0) ≡ false
    → find_text crlf (c ∷ s) ≡ before c (find_text crlf s)
unfolding find_text
find_text-skip c s e n = rw (e, find_text, n) refl

no_break : (c : ℕ) (s : Bytes) → IsPlain c → strip_prefix crlf (c ∷ s) ≡ none
unfolding strip_prefix
no_break c s h = let other : (c == 13) ≡ false = ground (arith, h) in rw other refl

-- The line before a line break.
pub find_text-line :
    (line rest : Bytes)
    → All IsPlain line
    → find_text crlf (line ++ (13 ∷ 10 ∷ rest)) ≡ some (line, rest)
unfolding find_text strip_prefix
find_text-line [] rest h = refl
find_text-line (c ∷ cs) rest h =
    find_text-skip c (cs ++ (13 ∷ 10 ∷ rest)) (no_break c (cs ++ (13 ∷ 10 ∷ rest)) h.0)
      (ground (arith, h.0))
    ∙ ap (before c) (find_text-line cs rest h.1)

visible-not_space : (c : ℕ) → IsVisible c → is_space c ≡ false
visible-not_space c h = ground arith

take_word-word :
    (width : ℕ) (w rest : Bytes)
    → All IsVisible w
    → length w ≤ width
    → take_word width (w ++ (32 ∷ rest)) ≡ (w, 32 ∷ rest)
unfolding take_word
take_word-word zero [] rest h l = refl
take_word-word (suc width) [] rest h l = refl
take_word-word zero (c ∷ cs) rest h l = absurd (omega arith)
take_word-word (suc width) (c ∷ cs) rest h l =
    rw (visible-not_space c h.0, take_word-word width cs rest h.1 (omega arith)) refl

scan_word-word :
    (width : ℕ) (w rest : Bytes)
    → All IsVisible w
    → is_empty w ≡ false
    → length w ≤ width
    → scan_word width (32 ∷ (w ++ (32 ∷ rest))) ≡ (w, 32 ∷ rest)
unfolding scan_word skip_whitespace
scan_word-word width [] rest h n l = cc n
scan_word-word width (c ∷ cs) rest h n l =
    rw (visible-not_space c h.0, scan_word) (take_word-word width (c ∷ cs) rest h l)

-- A header line that the parser accepts, in front of more lines.
pub headers_loop-field :
    (fuel : ℕ) (q r : Request) (c : ℕ) (cs value rest : Bytes)
    → All IsPlain (c ∷ cs)
    → Lacks b':' (c ∷ cs)
    → All IsPlain value
    → header_field q (c ∷ cs) value ≡ some r
    → headers_loop (suc fuel) q (c ∷ (cs ++ (b':' ∷ (value ++ (13 ∷ 10 ∷ rest)))))
      ≡ headers_loop fuel r rest
unfolding headers_loop
headers_loop-field fuel q r c cs value rest h n v e =
    rw (long, headers_loop, found, split_at-some b':' (c ∷ cs) value n, e) refl
  where
    text : Bytes
    text = c ∷ (cs ++ (b':' ∷ (value ++ (13 ∷ 10 ∷ rest))))

    long : leb (length text) 2 ≡ false
    long = ground (
      arith,
      length-append cs (b':' ∷ (value ++ (13 ∷ 10 ∷ rest))),
      length-append value (13 ∷ 10 ∷ rest),
    )

    found : find_text crlf text ≡ some ((c ∷ cs) ++ (b':' ∷ value), rest)
    found =
        ap (find_text crlf) (sym (append_assoc (c ∷ cs) (b':' ∷ value) (13 ∷ 10 ∷ rest)))
        ∙ find_text-line ((c ∷ cs) ++ (b':' ∷ value)) rest
            (All-append _ (c ∷ cs) (b':' ∷ value) h ((omega arith), v))

-- What the first line of an upload is read as.
abbrev pub posted : Bytes → Request
posted target = record {
  method = codes "POST";
  target = target;
  content_length = 0;
  has_content_length = false;
  chunked = false;
}

words_lem :
    (line target r1 r2 : Bytes)
    → scan_word 7 line ≡ (codes "POST", r1)
    → scan_word 767 r1 ≡ (target, r2)
    → scan_word 15 r2 ≡ (codes "HTTP/1.1", [])
    → is_empty target ≡ false
    → request_line line ≡ some (posted target)
unfolding request_line skip_whitespace str_eq
words_lem line target r1 r2 a b c t = rw (a, b, c, t) refl

-- The field of `sscanf` for the target has 767 bytes.
pub request_line-posted :
    (target : Bytes)
    → All IsVisible target
    → is_empty target ≡ false
    → length target ≤ 767
    → request_line (codes "POST " ++ (target ++ codes " HTTP/1.1")) ≡ some (posted target)
unfolding scan_word take_word skip_whitespace
request_line-posted target h n l =
    words_lem (codes "POST " ++ (target ++ codes " HTTP/1.1")) target
      (32 ∷ (target ++ codes " HTTP/1.1")) (codes " HTTP/1.1") refl
      (scan_word-word 767 target (codes "HTTP/1.1") h n l) refl n

pub parse_request_headers-lines :
    (line rest : Bytes) (q r : Request)
    → All IsPlain line
    → is_empty line ≡ false
    → length line < 1024
    → request_line line ≡ some q
    → headers_loop (suc (length rest)) q rest ≡ some r
    → (r.has_content_length && r.chunked) ≡ false
    → parse_request_headers (line ++ (13 ∷ 10 ∷ rest)) ≡ some r
unfolding parse_request_headers first_line headers_after unambiguous
parse_request_headers-lines line rest q r p n l e h u =
    rw (find_text-line line rest p, n, short, e, h, u) refl
  where
    short : leb 1024 (length line) ≡ false
    short = ground arith

digits-kept : (s : Bytes) → All IsDigit s → skip_blanks s ≡ s
unfolding skip_blanks
digits-kept [] h = refl
digits-kept (c ∷ cs) h = let solid : is_blank c ≡ false = ground (arith, h.0) in rw solid refl

-- The value of a Content-Length line.
pub parse_u64-decimal : (n : ℕ) → n ≤ uint64_max → parse_u64 (32 ∷ decimal n) ≡ some n
unfolding parse_u64 skip_blanks
parse_u64-decimal n l =
    let (count, read) = digits_loop-decimal n l in
    rw (digits-kept (decimal n) (decimal-IsDigit n), read, counted count) refl
  where
    counted : (k : ℕ) → (suc k == 0) ≡ false
    counted k = ground arith
