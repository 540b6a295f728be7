-- ===== src/Http/Response/Bounds/Calls.antt =====
-- No call overruns a buffer.
use localsend3ds.Prelude.{
  ◌-◌, ◌≤◌, ◌≡◌, refl, ap, ◌∙◌, arith, Bool, true, false, ◌&&◌, not, Option, none, some, List, [],
  ◌∷◌, ◌++◌, Bytes, ltb, ◌==◌, if◌then◌else◌, length, length-append, drop, codes, ◌||◌,
}
use localsend3ds.Http.Text.{crlf, find_bytes}
use localsend3ds.Http.Server.{max_header_size}
use localsend3ds.Http.Response.{
  feed, finish, finish_result, finish_pending, evaluate, evaluate_header, evaluate_parsed,
  evaluate_body, bodiless, raw_limit, completed, refused,
}
use localsend3ds.Http.Response.Head.{
  HttpResponse, is_close, is_length, is_chunked, init, parse_headers, body_capacity,
}
use localsend3ds.Http.Response.Chunked.{Result, need_more, complete, error, decode_chunked}
use localsend3ds.Http.Response.Parsed.{IsParsed, parse_headers-IsParsed}
use localsend3ds.Http.Response.Raw.{parse_headers_raw}
use localsend3ds.Http.Response.Refused.{parse_headers-Refuses}
use localsend3ds.Http.Response.Bounds.{InBounds, Keeps, if-Keeps}
use localsend3ds.Http.Response.Bounds.Chunks.{chunks_loop-Keeps}

evaluate_body-Keeps :
    (r : HttpResponse) → InBounds r → r.content_length ≤ body_capacity → Keeps (evaluate_body r)
unfolding evaluate_body decode_chunked
evaluate_body-Keeps r b l =
    let body = drop r.header_length r.raw in
    let more : Result × HttpResponse = (need_more, r) in
    let long = refused r (codes "HTTP response exceeds Content-Length") in
    let rest = if not (length body == r.content_length) then long else completed r body in
    let other = if is_chunked r.framing then decode_chunked r body else more in
    if-Keeps (is_length r.framing) (if ltb (length body) r.content_length then more else rest) other
      (λ h.
        if-Keeps (ltb (length body) r.content_length) more rest (λ k. b)
          (λ k.
            if-Keeps (not (length body == r.content_length)) long (completed r body) (λ m. b)
              (λ m. (b.0, (ground arith), b.2))))
      (λ h.
        if-Keeps (is_chunked r.framing) (decode_chunked r body) more
          (λ k. chunks_loop-Keeps (length body) r [] body b (omega arith)) (λ k. b))

-- The header, read into a response whose buffers are those of `r`.
evaluate_parsed-Keeps :
    (q : Bool × HttpResponse)
    → length q.1.raw ≤ raw_limit
    → length q.1.body ≤ body_capacity
    → IsParsed q
    → (q.0 ≡ false → q.1.headers_parsed ≡ false)
    → Keeps (evaluate_parsed q)
unfolding evaluate_parsed
evaluate_parsed-Keeps (false, r) a b p f = (a, b, (λ h. cc (f refl, h)))
evaluate_parsed-Keeps (true, r) a b p f =
    let inside : InBounds r = (a, b, (λ h. (p refl).1)) in
    if-Keeps (bodiless r.status_code && is_close r.framing) (completed r []) (evaluate_body r)
      (λ h. (a, (omega arith), (λ k. (p refl).1))) (λ h. evaluate_body-Keeps r inside (p refl).1)

-- parse_headers leaves the buffers alone.
same_buffers :
    (header : Bytes) (r : HttpResponse)
    → ((parse_headers header r).1.raw ≡ r.raw) × ((parse_headers header r).1.body ≡ r.body)
same_buffers header r =
    let e = parse_headers_raw r.raw r.complete r.body header r in
    (ap (λ q. q.1.raw) e, ap (λ q. q.1.body) e)

evaluate_header-Keeps :
    (r : HttpResponse) (o : Option (Bytes × Bytes))
    → InBounds r
    → r.headers_parsed ≡ false
    → Keeps (evaluate_header r o)
unfolding evaluate_header
evaluate_header-Keeps r none b f =
    if-Keeps (ltb max_header_size (length r.raw))
      (refused r (codes "HTTP response headers too large")) (need_more, r) (λ h. b) (λ h. b)
evaluate_header-Keeps r (some (head, body)) b f =
    let header = head ++ (crlf ++ crlf) in
    let u = record r { header_length = length header } in
    let (raw, kept) = same_buffers header u in
    evaluate_parsed-Keeps (parse_headers header u) (omega (arith, b.0, ap length raw))
      (omega (arith, b.1, ap length kept)) (parse_headers-IsParsed header u)
      (λ h. parse_headers-Refuses header u h ∙ f)

evaluate-Keeps : (r : HttpResponse) → InBounds r → Keeps (evaluate r)
unfolding evaluate
evaluate-Keeps r b =
    if-Keeps r.headers_parsed (evaluate_body r)
      (evaluate_header r (find_bytes (crlf ++ crlf) r.raw)) (λ h. evaluate_body-Keeps r b (b.2 h))
      (λ h. evaluate_header-Keeps r (find_bytes (crlf ++ crlf) r.raw) b h)

feed-Keeps : (r : HttpResponse) (s : Bytes) → InBounds r → Keeps (feed r s)
unfolding feed
feed-Keeps r s b =
    let u = record r { raw = r.raw ++ s } in
    let large = refused r (codes "HTTP response exceeds configured limit") in
    let more = if ltb (raw_limit - length r.raw) (length s) then large else evaluate u in
    if-Keeps r.complete (error, r) more (λ h. b)
      (λ h.
        if-Keeps (ltb (raw_limit - length r.raw) (length s)) large (evaluate u) (λ k. b)
          (λ k. evaluate-Keeps u (ground (arith, length-append r.raw s), b.1, b.2)))

pending-Keeps : (r : HttpResponse) → InBounds r → Keeps (finish_pending r)
unfolding finish_pending
pending-Keeps r b =
    let body = drop r.header_length r.raw in
    let large = refused r (codes "HTTP response body too large") in
    let closed = refused r (codes "HTTP connection closed before complete response") in
    let rest = if ltb body_capacity (length body) then large else completed r body in
    if-Keeps (not r.headers_parsed || not (is_close r.framing)) closed rest (λ h. b)
      (λ h.
        if-Keeps (ltb body_capacity (length body)) large (completed r body) (λ k. b)
          (λ k. (b.0, (ground arith), b.2)))

finish_result-Keeps : (q : Result × HttpResponse) → Keeps q → Keeps (finish_result q)
unfolding finish_result
finish_result-Keeps (need_more, r) b = pending-Keeps r b
finish_result-Keeps (complete, r) b = b
finish_result-Keeps (error, r) b = b

-- The pieces of a response, one behind the other.
abbrev pub feeds : List Bytes → HttpResponse → HttpResponse
feeds [] r = r
feeds (s ∷ ss) r = feeds ss (feed r s).1

feeds-InBounds : (ss : List Bytes) (r : HttpResponse) → InBounds r → InBounds (feeds ss r)
feeds-InBounds [] r b = b
feeds-InBounds (s ∷ ss) r b = feeds-InBounds ss (feed r s).1 (feed-Keeps r s b)

-- Whatever pieces come from a peer, the bytes kept of them fit the buffer, and so does the body, also
-- when the connection ends; a length that a header declares is no larger than the body may be.
pub finish-InBounds :
    (ss : List Bytes) → InBounds (feeds ss init) × InBounds (finish (feeds ss init)).1
unfolding finish
finish-InBounds ss =
    let b = feeds-InBounds ss init ((omega arith), (omega arith), (λ h. cc h)) in
    (b, finish_result-Keeps (evaluate (feeds ss init)) (evaluate-Keeps (feeds ss init) b))
