-- ===== src/Http/Response/Head.antt =====
-- The state of include/http_response.h, and `parse_headers` of source/http_response.c.
use localsend3ds.Prelude.{
  ℕ, zero, suc, ◌+◌, ◌*◌, ◌-◌, Bool, true, false, ◌&&◌, ◌||◌, not, Option, none, some, [], ◌∷◌,
  Bytes, ltb, leb, ◌==◌, within, if◌then◌else◌, length, codes, str_eq, is_empty,
}
use localsend3ds.Json.Cursor.{is_digit, skip_whitespace}
use localsend3ds.Http.Text.{
  parse_u64, same_word, value_equals, split_at, crlf, find_text, scan_word,
}

-- `LsHttpResponseFraming`
pub data Framing : Type 0 where
  close_delimited by_content_length chunked : Framing

abbrev pub is_close : Framing → Bool
is_close close_delimited = true
is_close _ = false

abbrev pub is_length : Framing → Bool
is_length by_content_length = true
is_length _ = false

abbrev pub is_chunked : Framing → Bool
is_chunked chunked = true
is_chunked _ = false

-- `LsHttpResponse`
pub record HttpResponse : Type 0 where
  pub raw : Bytes
  pub header_length : ℕ
  pub body : Bytes
  pub content_length : ℕ
  pub status_code : ℕ
  pub framing : Framing
  pub headers_parsed : Bool
  pub complete : Bool
  pub error : Bytes

-- `ls_http_response_init`
abbrev pub init : HttpResponse
init = record {
  raw = [];
  header_length = 0;
  body = [];
  content_length = 0;
  status_code = 0;
  framing = close_delimited;
  headers_parsed = false;
  complete = false;
  error = [];
}

abbrev pub body_capacity : ℕ
body_capacity = 4096

-- `set_error`: all messages fit the buffer.
abbrev pub set_error : Bytes → HttpResponse → HttpResponse
set_error message r = record r { error = message }

abbrev digit_value : ℕ → ℕ
digit_value c = c - b'0'

-- The digits of `%d`: the number so far, and whether there was a digit.
unfoldable pub int_loop : ℕ → Bool → Bytes → Option (ℕ × Bytes)
int_loop value seen [] = if seen then some (value, []) else none
int_loop value seen (c ∷ cs) =
    let further = int_loop (value * 10 + digit_value c) true cs in
    if is_digit c then further else if seen then some (value, c ∷ cs) else none

-- `%d` of `sscanf`, for what is not negative; what is negative is no status. Of a number that `int`
-- does not hold C leaves the result open, and it is refused here like all above 599.
unfoldable pub scan_int : Bytes → Option (ℕ × Bytes)
unfolding int_loop
scan_int s = elim (skip_whitespace s) [
  | [] ↦ none
  | c ∷ cs ↦ if c == b'+' then int_loop 0 false cs else int_loop 0 false (c ∷ cs)
]

abbrev pub no_break : Bytes → Bool
no_break [] = true
no_break (c ∷ cs) = not (c == 13) && not (c == 10) && no_break cs

-- `%63[^\r\n]%c` of `sscanf`, of which the second must not match.
abbrev pub is_reason : Bytes → Bool
is_reason s = not (is_empty s) && leb (length s) 63 && no_break s

abbrev pub is_version : Bytes → Bool
is_version s = str_eq s (codes "HTTP/1.1") || str_eq s (codes "HTTP/1.0")

abbrev status_of : Bytes → Option (ℕ × Bytes) → Option ℕ
status_of version none = none
status_of version (some (status, rest)) =
    if is_reason (skip_whitespace rest) && is_version version && within 100 599 status
    then some status
    else none

-- The status of a status line.
unfoldable pub status_line : Bytes → Option ℕ
unfolding scan_word
status_line line =
    if is_empty line || leb 128 (length line)
    then none
    else let (version, rest) = scan_word 15 line in status_of version (scan_int rest)

-- The response while its header lines are read, with `have_length` and `have_encoding`; or an error.
pub data Reading : Type 0 where
  malformed : Bytes → HttpResponse → Reading
  reading : Bool → Bool → HttpResponse → Reading

unfoldable pub length_field : Bool → Bool → HttpResponse → Option ℕ → Reading
length_field have_length have_encoding r none = malformed (codes "Invalid Content-Length") r
length_field have_length have_encoding r (some n) =
    if have_length
    then malformed (codes "Invalid Content-Length") r
    else reading true have_encoding (record r { content_length = n })

-- One header line, split at its colon.
unfoldable pub header_field : Bool → Bool → HttpResponse → Option (Bytes × Bytes) → Reading
unfolding length_field
header_field have_length have_encoding r none = malformed (codes "Malformed HTTP header") r
header_field have_length have_encoding r (some (name, value)) =
    if same_word name (codes "Content-Length")
    then length_field have_length have_encoding r (parse_u64 value)
    else if same_word name (codes "Transfer-Encoding")
    then (if have_encoding || not (value_equals value (codes "chunked"))
        then malformed (codes "Unsupported Transfer-Encoding") r
        else reading have_length true r)
    else reading have_length have_encoding r

-- The loop over the header lines, on fuel: each takes a byte at least.
unfoldable pub headers_loop : ℕ → Reading → Bytes → Reading
headers_loop fuel (malformed m r) s = malformed m r
headers_loop zero (reading have_length have_encoding r) s =
    malformed (codes "Malformed HTTP headers") r
headers_loop (suc fuel) (reading have_length have_encoding r) s = elim (leb (length s) 2) [
  | true ↦ reading have_length have_encoding r
  | false ↦ elim (find_text crlf s) [
    | none ↦ malformed (codes "Malformed HTTP headers") r
    | some (line, rest) ↦ elim (is_empty line) [
      | true ↦ reading have_length have_encoding r
      | false ↦
          headers_loop fuel (header_field have_length have_encoding r (split_at b':' line)) rest
    ]
  ]
]

abbrev pub framing_of : Bool → Bool → Framing
framing_of true have_encoding = by_content_length
framing_of false true = chunked
framing_of false false = close_delimited

-- What follows the loop.
unfoldable pub framed : Reading → Bool × HttpResponse
framed (malformed m r) = (false, set_error m r)
framed (reading have_length have_encoding r) =
    let u = record r { framing = framing_of have_length have_encoding } in
    if have_length && have_encoding
    then (false, set_error (codes "Ambiguous HTTP response framing") r)
    else if ltb body_capacity r.content_length
    then (false, set_error (codes "HTTP response body too large") u)
    else (true, record u { headers_parsed = true })

unfoldable pub with_status : HttpResponse → Bytes → Option ℕ → Bool × HttpResponse
unfolding framed
with_status r rest none = (false, set_error (codes "Malformed HTTP status line") r)
with_status r rest (some status) = framed (
    headers_loop (suc (length rest)) (reading false false (record r { status_code = status })) rest)

unfoldable pub with_line : HttpResponse → Option (Bytes × Bytes) → Bool × HttpResponse
unfolding with_status
with_line r none = (false, set_error (codes "Malformed HTTP status line") r)
with_line r (some (line, rest)) = with_status r rest (status_line line)

-- `parse_headers`, on the header with its blank line.
unfoldable pub parse_headers : Bytes → HttpResponse → Bool × HttpResponse
unfolding with_line
parse_headers header r = with_line r (find_text crlf header)
