-- ===== src/Http/Response/Pieces.antt =====
-- A response in two pieces.
pub mod Found
use localsend3ds.Prelude.{
  ℕ, zero, suc, ◌+◌, ◌-◌, ◌≤◌, ◌≡◌, refl, sym, ap, ◌∙◌, arith, Bool, true, false, ◌&&◌, not,
  Bool-cases, Option-cases, inl, inr, Option, none, some, [], ◌∷◌, ◌++◌, Bytes, ltb, ◌==◌,
  if◌then◌else◌, length, length-append, drop, codes,
}
use localsend3ds.Http.Text.{crlf, find_bytes}
use localsend3ds.Http.Server.{max_header_size}
use localsend3ds.Http.Response.{
  feed, evaluate, evaluate_header, evaluate_parsed, evaluate_body, bodiless, raw_limit, completed,
  refused,
}
use localsend3ds.Http.Response.Head.{
  HttpResponse, Reading, malformed, reading, framed, with_status, with_line, is_close, is_length,
  is_chunked, init, parse_headers, set_error, body_capacity,
}
use localsend3ds.Http.Response.Chunked.{
  Result, need_more, complete, error, decode_chunked, round, round_cases, chunks_loop,
}
use localsend3ds.Http.Response.Parsed.{IsParsed, parse_headers-IsParsed}
use localsend3ds.Http.Response.Raw.{with_raw, pair_raw, parse_headers_raw}
use localsend3ds.Http.Response.Pieces.Found.{find_bytes-append}

-- A result that waits for more leaves the response as it was.
abbrev Waits : HttpResponse → Result × HttpResponse → Type 0
Waits r q = q.0 ≡ need_more → q.1 ≡ r

if-Waits :
    (r : HttpResponse) (b : Bool) (x y : Result × HttpResponse)
    → Waits r x
    → Waits r y
    → Waits r (if b then x else y)
if-Waits r true x y f g = f
if-Waits r false x y f g = g

chunks_loop-Waits :
    (fuel : ℕ) (r : HttpResponse) (output s : Bytes) → Waits r (chunks_loop fuel r output s)
unfolding chunks_loop
chunks_loop-Waits zero r output s = λ h. refl
chunks_loop-Waits (suc fuel) r output [] = λ h. refl
chunks_loop-Waits (suc fuel) r output (c ∷ cs) =
    round_cases (Waits r) (round (length output) (c ∷ cs)) (λ m. (error, set_error m r))
      (λ d s. chunks_loop fuel r (output ++ d) s) (λ h. refl) (λ m h. cc h) (λ h. cc h)
      (λ d s e. chunks_loop-Waits fuel r (output ++ d) s)

evaluate_body-Waits : (r : HttpResponse) → Waits r (evaluate_body r)
unfolding evaluate_body decode_chunked
evaluate_body-Waits r =
    let body = drop r.header_length r.raw in
    let more : Result × HttpResponse = (need_more, r) in
    let long = refused r (codes "HTTP response exceeds Content-Length") in
    let rest = if not (length body == r.content_length) then long else completed r body in
    let other = if is_chunked r.framing then decode_chunked r body else more in
    if-Waits r (is_length r.framing) (if ltb (length body) r.content_length then more else rest)
      other
      (if-Waits r (ltb (length body) r.content_length) more rest (λ h. refl)
        (if-Waits r (not (length body == r.content_length)) long (completed r body) (λ h. cc h)
          (λ h. cc h)))
      (if-Waits r (is_chunked r.framing) (decode_chunked r body) more
        (chunks_loop-Waits (length body) r [] body) (λ h. refl))

-- Bytes that fit go to the buffer.
feed_lem :
    (r : HttpResponse) (s : Bytes)
    → r.complete ≡ false
    → length r.raw + length s ≤ raw_limit
    → feed r s ≡ evaluate (record r { raw = r.raw ++ s })
unfolding feed
feed_lem r s e l =
    let fits : ltb (raw_limit - length r.raw) (length s) ≡ false = ground arith in rw (e, fits) refl

evaluate_lem : (r : HttpResponse) → r.headers_parsed ≡ true → evaluate r ≡ evaluate_body r
unfolding evaluate
evaluate_lem r e = rw e refl

-- Behind a header that is read, more bytes only make the body longer.
parsed_more :
    (a b : Bytes) (q : Bool × HttpResponse)
    → IsParsed q
    → length a + length b ≤ raw_limit
    → (evaluate_parsed (pair_raw a false [] q)).0 ≡ need_more
    → feed (evaluate_parsed (pair_raw a false [] q)).1 b
      ≡ evaluate_parsed (pair_raw (a ++ b) false [] q)
unfolding evaluate_parsed
parsed_more a b (false, r) p l h = cc h
parsed_more a b (true, r) p l h = elim (Bool-cases (bodiless r.status_code && is_close r.framing)) [
  | inl e ↦ absurd (cc (rw e at h))
  | inr e ↦
      let waits = evaluate_body-Waits (with_raw a false [] r) (rw e at h) in
      rw e (
        ap (λ x. feed x b) waits
        ∙ (feed_lem (with_raw a false [] r) b refl l
            ∙ evaluate_lem (with_raw (a ++ b) false [] r) (p refl).0))
]

-- The start of a response, by its first piece and where the end of the header was found in it.
header_more :
    (a b : Bytes) (o : Option (Bytes × Bytes))
    → find_bytes (crlf ++ crlf) a ≡ o
    → length a + length b ≤ raw_limit
    → (evaluate_header (record init { raw = a }) o).0 ≡ need_more
    → feed (evaluate_header (record init { raw = a }) o).1 b
      ≡ evaluate_header (record init { raw = a ++ b }) (find_bytes (crlf ++ crlf) (a ++ b))
unfolding evaluate_header evaluate
header_more a b none f l h = elim (Bool-cases (ltb max_header_size (length a))) [
  | inl e ↦ absurd (cc (rw e at h))
  | inr e ↦ rw e (feed_lem (record init { raw = a }) b refl l)
]
header_more a b (some (head, tail)) f l h =
    let header = head ++ (crlf ++ crlf) in
    let q = parse_headers header (record init { header_length = length header }) in
    let first =
      parse_headers_raw a false [] header (record init { header_length = length header }) in
    let whole =
      parse_headers_raw (a ++ b) false [] header (record init { header_length = length header }) in
    rw (find_bytes-append (crlf ++ crlf) a b f) (
      ap (λ x. feed (evaluate_parsed x).1 b) first
      ∙ (parsed_more a b q (parse_headers-IsParsed header _) l
            (ap (λ x. (evaluate_parsed x).0) (sym first) ∙ h)
          ∙ ap evaluate_parsed (sym whole)))

-- A response that comes in two pieces, cut anywhere, that fit the buffer together, is read as if it
-- came in one, where the first piece left it waiting for more.
pub feed-append :
    (a b : Bytes)
    → length a + length b ≤ raw_limit
    → (feed init a).0 ≡ need_more
    → feed (feed init a).1 b ≡ feed init (a ++ b)
unfolding evaluate_header evaluate
feed-append a b l h =
    let first = feed_lem init a refl (omega arith) in
    ap (λ x. feed x.1 b) first
    ∙ (header_more a b (find_bytes (crlf ++ crlf) a) refl l (ap (λ x. x.0) (sym first) ∙ h)
        ∙ sym (feed_lem init (a ++ b) refl (omega (arith, length-append a b))))
