-- ===== src/Http/Upload/Head.antt =====
-- The head of an upload request of source/outgoing_transfer.c, and what `parse_request_headers` of
-- source/http_server.c makes of its lines.
use localsend3ds.Prelude.{
  ℕ, suc, ◌≤◌, ◌≡◌, refl, ◌∙◌, true, false, some, [], ◌∷◌, ◌++◌, Bytes, All, All-append, length,
  length-append, codes, is_empty, arith, append_assoc,
}
use localsend3ds.Protocol.Object.{uint64_max}
use localsend3ds.Protocol.Write.{decimal}
use localsend3ds.Protocol.Decimal.{IsDigit, decimal-IsDigit}
use localsend3ds.Http.Text.{same_word}
use localsend3ds.Http.Request.Split.{
  EndsBlank, line-EndsBlank, last-EndsBlank, split_header-EndsBlank,
}
use localsend3ds.Http.Request.{
  split_header, Request, header_field, headers_loop, parse_request_headers,
}
use localsend3ds.Http.Request.Read.{
  IsPlain, IsVisible, visible→plain, headers_loop-field, posted, request_line-posted,
  parse_request_headers-lines, parse_u64-decimal,
}

digits→plain : (s : Bytes) → All IsDigit s → All IsPlain s
digits→plain [] h = tt
digits→plain (c ∷ cs) h = (omega (arith, h.0), digits→plain cs h.1)

-- What the server reads in the head.
abbrev pub announced : Bytes → ℕ → Request
announced target size = record (posted target) { content_length = size; has_content_length = true }

abbrev host : Bytes → ℕ → Bytes
host ip port = 32 ∷ (ip ++ (b':' ∷ decimal port))

abbrev headers : Bytes → ℕ → ℕ → Bytes
headers ip port size =
    codes "Host:"
    ++ (host ip port
        ++ (codes "\r\nContent-Type: application/octet-stream\r\nContent-Length: "
            ++ (decimal size ++ codes "\r\nConnection: close\r\n\r\n")))

host-IsPlain : (ip : Bytes) (port : ℕ) → All IsPlain ip → All IsPlain (host ip port)
host-IsPlain ip port h = (
  omega arith,
  All-append _ ip (b':' ∷ decimal port) h
      ((omega arith), digits→plain (decimal port) (decimal-IsDigit port)),
)

headers_lem :
    (fuel : ℕ) (target ip : Bytes) (port size : ℕ)
    → All IsPlain ip
    → size ≤ uint64_max
    → headers_loop (suc (suc (suc (suc (suc fuel))))) (posted target) (headers ip port size)
      ≡ some (announced target size)
unfolding header_field same_word headers_loop
headers_lem fuel target ip port size h l =
    headers_loop-field (suc (suc (suc (suc fuel)))) (posted target) (posted target) b'H'
      (codes "ost") (host ip port)
      (codes "Content-Type: application/octet-stream\r\nContent-Length: "
        ++ (decimal size ++ codes "\r\nConnection: close\r\n\r\n"))
      (ground arith) (ground arith) (host-IsPlain ip port h) refl
    ∙ headers_loop-field (suc (suc (suc fuel))) (posted target) (posted target) b'C'
        (codes "ontent-Type") (codes " application/octet-stream")
        (codes "Content-Length: " ++ (decimal size ++ codes "\r\nConnection: close\r\n\r\n"))
        (ground arith) (ground arith) (ground arith) refl
    ∙ headers_loop-field (suc (suc fuel)) (posted target) (announced target size) b'C'
        (codes "ontent-Length") (32 ∷ decimal size) (codes "Connection: close\r\n\r\n")
        (ground arith) (ground arith)
        ((omega arith), digits→plain (decimal size) (decimal-IsDigit size))
        (rw (parse_u64-decimal size l) refl)
    ∙ headers_loop-field (suc fuel) (announced target size) (announced target size) b'C'
        (codes "onnection") (codes " close") (codes "\r\n") (ground arith) (ground arith)
        (ground arith) refl
    ∙ refl

-- The text of an upload request, by its target.
abbrev pub upload_head : Bytes → Bytes → ℕ → ℕ → Bytes
upload_head target ip port size =
    codes "POST "
    ++ (target
        ++ (codes " HTTP/1.1\r\nHost: "
            ++ (ip
                ++ (codes ":"
                    ++ (decimal port
                        ++ (codes "\r\nContent-Type: application/octet-stream\r\nContent-Length: "
                            ++ (decimal size ++ codes "\r\nConnection: close\r\n\r\n")))))))

upload_head_lem :
    (target ip : Bytes) (port size : ℕ)
    → (codes "POST " ++ (target ++ codes " HTTP/1.1")) ++ (13 ∷ 10 ∷ headers ip port size)
      ≡ upload_head target ip port size
upload_head_lem target ip port size = simp append_assoc refl

first_line-IsPlain :
    (target : Bytes)
    → All IsVisible target
    → All IsPlain (codes "POST " ++ (target ++ codes " HTTP/1.1"))
first_line-IsPlain target v =
    All-append _ (codes "POST ") (target ++ codes " HTTP/1.1") (ground arith)
      (All-append _ target (codes " HTTP/1.1") (visible→plain target v) (ground arith))

rest-EndsBlank :
    (size : ℕ)
    → EndsBlank
        (codes "Content-Length: " ++ (decimal size ++ codes "\r\nConnection: close\r\n\r\n"))
rest-EndsBlank size =
    line-EndsBlank (codes "Content-Length: " ++ decimal size) b'C' _
      (All-append _ (codes "Content-Length: ") (decimal size) (ground arith)
        (digits→plain (decimal size) (decimal-IsDigit size)))
      (omega arith) (last-EndsBlank (codes "Connection: close") (ground arith))

-- An upload request with a target that `sscanf` has room for is parsed to what was written.
pub parse_request_headers-upload :
    (target ip : Bytes) (port size : ℕ)
    → All IsVisible target
    → is_empty target ≡ false
    → length target ≤ 767
    → All IsPlain ip
    → size ≤ uint64_max
    → parse_request_headers (upload_head target ip port size) ≡ some (announced target size)
parse_request_headers-upload target ip port size v n l h k =
    rw (← upload_head_lem target ip port size) (
      parse_request_headers-lines (codes "POST " ++ (target ++ codes " HTTP/1.1"))
        (headers ip port size) (posted target) (announced target size) (first_line-IsPlain target v)
        refl (omega (arith, l, length-append target (codes " HTTP/1.1")))
        (request_line-posted target v n l) (headers_lem _ target ip port size h k) refl)

-- The blank line at the end of an upload request is its first.
pub split_header-upload :
    (target ip : Bytes) (port size : ℕ)
    → All IsVisible target
    → All IsPlain ip
    → split_header (upload_head target ip port size) ≡ some (upload_head target ip port size, [])
split_header-upload target ip port size v h = rw (← upload_head_lem target ip port size) (
    split_header-EndsBlank _ (
      line-EndsBlank (codes "POST " ++ (target ++ codes " HTTP/1.1")) b'H' _
        (first_line-IsPlain target v) (omega arith)
        (line-EndsBlank (codes "Host:" ++ host ip port) b'C' _
          (All-append _ (codes "Host:") (host ip port) (ground arith) (host-IsPlain ip port h))
          (omega arith)
          (line-EndsBlank (codes "Content-Type: application/octet-stream") b'C' _ (ground arith)
            (omega arith) (rest-EndsBlank size)))))
