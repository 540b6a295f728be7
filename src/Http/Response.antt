-- ===== src/Http/Response.antt =====
-- source/http_response.c: the parser of a response that comes in pieces. The bytes that the buffer of
-- the body holds before the response is complete are left out, as `body_length` does not count them.
pub mod Head
pub mod Chunked
pub mod Raw
pub mod Parsed
pub mod Refused
pub mod Bounds
pub mod Pieces
mod Tests
use localsend3ds.Prelude.{
  ℕ, ◌+◌, ◌-◌, Bool, true, false, ◌&&◌, ◌||◌, not, Option, none, some, [], ◌++◌, Bytes, ltb, ◌==◌,
  within, if◌then◌else◌, length, drop, codes,
}
use localsend3ds.Http.Text.{crlf, find_bytes}
use localsend3ds.Http.Server.{max_header_size}
use localsend3ds.Http.Response.Head.{
  HttpResponse, Framing, is_chunked, is_length, is_close, set_error, parse_headers, body_capacity,
}
use localsend3ds.Http.Response.Chunked.{Result, need_more, complete, error, decode_chunked}

-- `sizeof(response->raw) - 1`
abbrev pub raw_limit : ℕ
raw_limit = 6399

abbrev pub completed : HttpResponse → Bytes → Result × HttpResponse
completed r body = (complete, record r { body = body; complete = true })

abbrev pub refused : HttpResponse → Bytes → Result × HttpResponse
refused r message = (error, set_error message r)

-- What `evaluate` does once the header is parsed.
unfoldable pub evaluate_body : HttpResponse → Result × HttpResponse
evaluate_body r =
    let body = drop r.header_length r.raw in
    if is_length r.framing
    then (if ltb (length body) r.content_length
        then (need_more, r)
        else if not (length body == r.content_length)
        then refused r (codes "HTTP response exceeds Content-Length")
        else completed r body)
    else if is_chunked r.framing
    then decode_chunked r body
    else (need_more, r)

-- Statuses without a body.
abbrev pub bodiless : ℕ → Bool
bodiless status = status == 204 || status == 304 || within 100 199 status

unfoldable pub evaluate_parsed : Bool × HttpResponse → Result × HttpResponse
unfolding evaluate_body
evaluate_parsed (false, r) = (error, r)
evaluate_parsed (true, r) =
    if bodiless r.status_code && is_close r.framing then completed r [] else evaluate_body r

-- The header, if its end has come.
unfoldable pub evaluate_header : HttpResponse → Option (Bytes × Bytes) → Result × HttpResponse
unfolding evaluate_parsed
evaluate_header r none =
    if ltb max_header_size (length r.raw)
    then refused r (codes "HTTP response headers too large")
    else (need_more, r)
evaluate_header r (some (head, body)) =
    let header = head ++ (crlf ++ crlf) in
    evaluate_parsed (parse_headers header (record r { header_length = length header }))

-- `evaluate`
unfoldable pub evaluate : HttpResponse → Result × HttpResponse
unfolding evaluate_header
evaluate r =
    if r.headers_parsed
    then evaluate_body r
    else evaluate_header r (find_bytes (crlf ++ crlf) r.raw)

-- `ls_http_response_feed`
unfoldable pub feed : HttpResponse → Bytes → Result × HttpResponse
unfolding evaluate
feed r bytes =
    if r.complete
    then (error, r)
    else if ltb (raw_limit - length r.raw) (length bytes)
    then refused r (codes "HTTP response exceeds configured limit")
    else evaluate (record r { raw = r.raw ++ bytes })

-- The end of the connection, for a response that is not complete.
unfoldable pub finish_pending : HttpResponse → Result × HttpResponse
finish_pending r =
    let body = drop r.header_length r.raw in
    if not r.headers_parsed || not (is_close r.framing)
    then refused r (codes "HTTP connection closed before complete response")
    else if ltb body_capacity (length body)
    then refused r (codes "HTTP response body too large")
    else completed r body

unfoldable pub finish_result : Result × HttpResponse → Result × HttpResponse
unfolding finish_pending
finish_result (need_more, r) = finish_pending r
finish_result (complete, r) = (complete, r)
finish_result (error, r) = (error, r)

-- `ls_http_response_finish`
unfoldable pub finish : HttpResponse → Result × HttpResponse
unfolding evaluate finish_result
finish r = finish_result (evaluate r)
