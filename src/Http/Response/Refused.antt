-- ===== src/Http/Response/Refused.antt =====
-- A header that is refused does not count as read.
use localsend3ds.Prelude.{
  ℕ, zero, suc, ◌≡◌, refl, ◌∙◌, arith, Bool, true, false, ◌||◌, not, Option, none, some, Bytes, leb,
  if◌then◌else◌, length, codes, is_empty,
}
use localsend3ds.Http.Text.{crlf, find_text, parse_u64, same_word, value_equals, split_at}
use localsend3ds.Http.Response.Head.{
  HttpResponse, Reading, malformed, reading, length_field, header_field, headers_loop, framed,
  with_status, with_line, status_line, parse_headers,
}

-- A step of the header loop does not mark the header as read.
abbrev flag : Reading → Bool
flag (malformed m r) = r.headers_parsed
flag (reading h e r) = r.headers_parsed

flag-length_field :
    (h e : Bool) (r : HttpResponse) (o : Option ℕ) → flag (length_field h e r o) ≡ r.headers_parsed
unfolding length_field
flag-length_field h e r none = refl
flag-length_field true e r (some n) = refl
flag-length_field false e r (some n) = refl

if_flag :
    {x : Bool} (b : Bool) (y z : Reading) → flag y ≡ x → flag z ≡ x → flag (if b then y else z) ≡ x
if_flag true y z e f = e
if_flag false y z e f = f

flag-header_field :
    (h e : Bool) (r : HttpResponse) (o : Option (Bytes × Bytes))
    → flag (header_field h e r o) ≡ r.headers_parsed
unfolding header_field
flag-header_field h e r none = refl
flag-header_field h e r (some (name, value)) =
    let refuse = e || not (value_equals value (codes "chunked")) in
    let bad = malformed (codes "Unsupported Transfer-Encoding") r in
    let encoding = if refuse then bad else reading h true r in
    let other = if same_word name (codes "Transfer-Encoding") then encoding else reading h e r in
    if_flag (same_word name (codes "Content-Length")) (length_field h e r (parse_u64 value)) other
      (flag-length_field h e r (parse_u64 value))
      (if_flag (same_word name (codes "Transfer-Encoding")) encoding (reading h e r)
        (if_flag refuse bad (reading h true r) refl refl) refl)

bool_flag :
    {x : Bool} (b : Bool) (y z : Reading)
    → flag y ≡ x
    → flag z ≡ x
    → flag (elim b [ true ↦ y | false ↦ z ]) ≡ x
bool_flag true y z e f = e
bool_flag false y z e f = f

found_flag :
    {x : Bool} (o : Option (Bytes × Bytes)) (y : Reading) (f : Bytes × Bytes → Reading)
    → flag y ≡ x
    → ((t : Bytes × Bytes) → flag (f t) ≡ x)
    → flag (elim o [ none ↦ y | some t ↦ f t ]) ≡ x
found_flag none y f e g = e
found_flag (some t) y f e g = g t

flag-headers_loop : (fuel : ℕ) (x : Reading) (s : Bytes) → flag (headers_loop fuel x s) ≡ flag x
unfolding headers_loop
flag-headers_loop zero (malformed m r) s = refl
flag-headers_loop (suc fuel) (malformed m r) s = refl
flag-headers_loop zero (reading h e r) s = refl
flag-headers_loop (suc fuel) (reading h e r) s =
    let next =
      λ (t : Bytes × Bytes). headers_loop fuel (header_field h e r (split_at b':' t.0)) t.1 in
    let lines = λ (t : Bytes × Bytes). elim (is_empty t.0) as (λ x. Reading) [
      | true ↦ reading h e r
      | false ↦ next t
    ] in
    let all = elim (find_text crlf s) as (λ x. Reading) [
      | none ↦ malformed (codes "Malformed HTTP headers") r
      | some t ↦ lines t
    ] in
    bool_flag (leb (length s) 2) (reading h e r) all refl (
      found_flag (find_text crlf s) (malformed (codes "Malformed HTTP headers") r) lines refl (λ t.
        bool_flag (is_empty t.0) (reading h e r) (next t) refl (
          flag-headers_loop fuel (header_field h e r (split_at b':' t.0)) t.1
          ∙ flag-header_field h e r (split_at b':' t.0))))

-- Of a header that is refused.
abbrev pub Refuses : Bool → Bool × HttpResponse → Type 0
Refuses x q = q.0 ≡ false → q.1.headers_parsed ≡ x

framed-Refuses : {b : Bool} (x : Reading) → flag x ≡ b → Refuses b (framed x)
unfolding framed
framed-Refuses (malformed m r) e = λ h. e
framed-Refuses (reading a b r) e = λ h. ground arith

with_status-Refuses :
    (r : HttpResponse) (rest : Bytes) (o : Option ℕ)
    → Refuses r.headers_parsed (with_status r rest o)
unfolding with_status
with_status-Refuses r rest none = λ h. refl
with_status-Refuses r rest (some status) =
    let start = reading false false (record r { status_code = status }) in
    framed-Refuses (headers_loop (suc (length rest)) start rest)
      (flag-headers_loop (suc (length rest)) start rest)

with_line-Refuses :
    (r : HttpResponse) (o : Option (Bytes × Bytes)) → Refuses r.headers_parsed (with_line r o)
unfolding with_line
with_line-Refuses r none = λ h. refl
with_line-Refuses r (some (line, rest)) = with_status-Refuses r rest (status_line line)

pub parse_headers-Refuses :
    (header : Bytes) (r : HttpResponse) → Refuses r.headers_parsed (parse_headers header r)
unfolding parse_headers
parse_headers-Refuses header r = with_line-Refuses r (find_text crlf header)
