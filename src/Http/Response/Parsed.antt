-- ===== src/Http/Response/Parsed.antt =====
-- What `parse_headers` lets through.
use localsend3ds.Prelude.{
  ℕ, suc, ◌≤◌, ◌≡◌, arith, Bool, true, false, Option, none, some, Bytes, length,
}
use localsend3ds.Http.Text.{crlf, find_text}
use localsend3ds.Http.Response.Head.{
  HttpResponse, Reading, malformed, reading, framed, with_status, with_line, headers_loop,
  status_line, parse_headers, body_capacity,
}

abbrev pub IsParsed : Bool × HttpResponse → Type 0
IsParsed q = q.0 ≡ true → (q.1.headers_parsed ≡ true) × (q.1.content_length ≤ body_capacity)

framed-IsParsed : (x : Reading) → IsParsed (framed x)
unfolding framed
framed-IsParsed (malformed m r) = λ h. cc h
framed-IsParsed (reading a b r) = λ h. ground arith

with_status-IsParsed :
    (r : HttpResponse) (rest : Bytes) (o : Option ℕ) → IsParsed (with_status r rest o)
unfolding with_status
with_status-IsParsed r rest none = λ h. cc h
with_status-IsParsed r rest (some status) = framed-IsParsed (
    headers_loop (suc (length rest)) (reading false false (record r { status_code = status })) rest)

with_line-IsParsed : (r : HttpResponse) (o : Option (Bytes × Bytes)) → IsParsed (with_line r o)
unfolding with_line
with_line-IsParsed r none = λ h. cc h
with_line-IsParsed r (some (line, rest)) = with_status-IsParsed r rest (status_line line)

pub parse_headers-IsParsed : (header : Bytes) (r : HttpResponse) → IsParsed (parse_headers header r)
unfolding parse_headers
parse_headers-IsParsed header r = with_line-IsParsed r (find_text crlf header)
