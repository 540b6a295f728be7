-- ===== src/Http/Response/Bounds.antt =====
-- The buffers of a response.
pub mod Chunks
pub mod Calls
use localsend3ds.Prelude.{
  ℕ, zero, suc, ◌+◌, ◌-◌, ◌≤◌, ◌≡◌, refl, sym, ap, ◌∙◌, arith, Bool, true, false, ◌&&◌, not,
  Bool-cases, inl, inr, Option, none, some, List, [], ◌∷◌, ◌++◌, Bytes, ltb, ◌==◌, if◌then◌else◌,
  length, length-append, length-take, drop, take, codes, is_empty, ◌||◌,
}
use localsend3ds.Json.Cursor.{strip_prefix}
use localsend3ds.Http.Text.{crlf, find_bytes}
use localsend3ds.Http.Server.{max_header_size}
use localsend3ds.Http.Response.{
  feed, finish, finish_result, finish_pending, evaluate, evaluate_header, evaluate_parsed,
  evaluate_body, bodiless, raw_limit, completed, refused,
}
use localsend3ds.Http.Response.Head.{
  HttpResponse, is_close, is_length, is_chunked, init, parse_headers, set_error, body_capacity,
}
use localsend3ds.Http.Response.Chunked.{
  Result, need_more, complete, error, decode_chunked, Round, wants_more, wrong, last, chunk, round,
  round_cases, chunks_loop, Digits, overflow, digits, ended_chunk, ending, trailer, sized_chunk,
  with_digits, with_size_line, digits_loop, starts_extension,
}
use localsend3ds.Http.Response.Parsed.{IsParsed, parse_headers-IsParsed}
use localsend3ds.Http.Response.Raw.{with_raw, pair_raw, parse_headers_raw}
use localsend3ds.Http.Response.Refused.{parse_headers-Refuses}

-- What came and the body fit, and so does the length that a header which was read declares.
abbrev pub InBounds : HttpResponse → Type 0
InBounds r =
    (length r.raw ≤ raw_limit)
    × (length r.body ≤ body_capacity)
    × (r.headers_parsed ≡ true → r.content_length ≤ body_capacity)

abbrev pub Keeps : Result × HttpResponse → Type 0
Keeps q = InBounds q.1

pub if-Keeps :
    (b : Bool) (x y : Result × HttpResponse)
    → (b ≡ true → Keeps x)
    → (b ≡ false → Keeps y)
    → Keeps (if b then x else y)
if-Keeps true x y f g = f refl
if-Keeps false x y f g = g refl
