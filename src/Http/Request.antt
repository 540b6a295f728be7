-- ===== src/Http/Request.antt =====
-- The head of a request: `find_header_end`, `parse_request_headers` and `route_path` of
-- source/http_server.c.
pub mod Read
pub mod Split
use localsend3ds.Prelude.{
  ℕ, zero, suc, Bool, true, false, ◌&&◌, ◌||◌, not, Option, none, some, ◌++◌, Bytes, leb,
  if◌then◌else◌, length, codes, str_eq, is_empty,
}
use localsend3ds.Json.Cursor.{skip_whitespace}
use localsend3ds.Http.Text.{
  parse_u64, same_word, value_equals, split_at, crlf, find_text, find_bytes, scan_word,
}

-- `ParsedRequest`, but for `header_length`.
pub record Request : Type 0 where
  pub method : Bytes
  pub target : Bytes
  pub content_length : ℕ
  pub has_content_length : Bool
  pub chunked : Bool

-- The header with the blank line that ends it, and the body; `find_header_end`.
abbrev closed : Option (Bytes × Bytes) → Option (Bytes × Bytes)
closed none = none
closed (some (head, body)) = some (head ++ (crlf ++ crlf), body)

unfoldable pub split_header : Bytes → Option (Bytes × Bytes)
split_header rx = closed (find_bytes (crlf ++ crlf) rx)

-- The value of a header field that the server reads.
with_length : Request → Option ℕ → Option Request
with_length q none = none
with_length q (some n) =
    if q.has_content_length
    then none
    else some (record q { content_length = n; has_content_length = true })

-- `has_transfer_encoding` and `chunked` are set together.
unfoldable pub header_field : Request → Bytes → Bytes → Option Request
unfolding with_length
header_field q name value =
    if same_word name (codes "Content-Length")
    then with_length q (parse_u64 value)
    else if same_word name (codes "Transfer-Encoding")
    then (if q.chunked || not (value_equals value (codes "chunked"))
        then none
        else some (record q { chunked = true }))
    else some q

header_line : Request → Option (Bytes × Bytes) → Option Request
header_line q none = none
header_line q (some (name, value)) = header_field q name value

-- The loop over the header lines, while more than the last line break is left.
unfoldable pub headers_loop : ℕ → Request → Bytes → Option Request
unfolding header_line
headers_loop zero q s = none
headers_loop (suc fuel) q s = elim (leb (length s) 2) [
  | true ↦ some q
  | false ↦ elim (find_text crlf s) [
    | none ↦ none
    | some (line, rest) ↦ elim (is_empty line) [
      | true ↦ none
      | false ↦ elim (header_line q (split_at b':' line)) [
        | none ↦ none
        | some next ↦ headers_loop fuel next rest
      ]
    ]
  ]
]

-- `sscanf(first_line, "%7s %767s %15s %c", …) == 3`, and the version.
unfoldable pub request_line : Bytes → Option Request
request_line line =
    let (method, r1) = scan_word 7 line in
    let (target, r2) = scan_word 767 r1 in
    let (version, r3) = scan_word 15 r2 in
    if is_empty method || is_empty target || is_empty version || not (is_empty (skip_whitespace r3))
    then none
    else if not (str_eq version (codes "HTTP/1.1"))
    then none
    else some (record {
      method = method;
      target = target;
      content_length = 0;
      has_content_length = false;
      chunked = false;
    })

-- Both framings at once are refused.
unambiguous : Option Request → Option Request
unambiguous none = none
unambiguous (some q) = if q.has_content_length && q.chunked then none else some q

headers_after : Bytes → Option Request → Option Request
headers_after rest none = none
headers_after rest (some q) = unambiguous (headers_loop (suc (length rest)) q rest)

first_line : Option (Bytes × Bytes) → Option Request
first_line none = none
first_line (some (line, rest)) =
    if is_empty line || leb 1024 (length line) then none else headers_after rest (request_line line)

-- `parse_request_headers`, on the header with its blank line; `none` is the result false.
unfoldable pub parse_request_headers : Bytes → Option Request
unfolding first_line headers_after unambiguous headers_loop
parse_request_headers header = first_line (find_text crlf header)

abbrev path_part : Bytes → Option (Bytes × Bytes) → Bytes
path_part target none = target
path_part target (some (path, query)) = path

abbrev pub route_capacity : ℕ
route_capacity = 256

-- `route_path`; `none` is NULL.
unfoldable pub route_path : Bytes → Option Bytes
route_path target =
    let path = path_part target (split_at b'?' target) in
    if is_empty path || leb route_capacity (length path) then none else some path
