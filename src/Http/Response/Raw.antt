-- ===== src/Http/Response/Raw.antt =====
-- The header is parsed from its own text: what else the buffer holds goes through unchanged.
use localsend3ds.Prelude.{
  ℕ, zero, suc, ◌≡◌, refl, ◌∙◌, Bool, true, false, ◌&&◌, ◌||◌, not, Option, none, some, Bytes, ltb,
  leb, if◌then◌else◌, length, codes, is_empty,
}
use localsend3ds.Http.Text.{parse_u64, same_word, value_equals, split_at, crlf, find_text}
use localsend3ds.Http.Response.Head.{
  HttpResponse, Reading, malformed, reading, set_error, length_field, header_field, headers_loop,
  framing_of, framed, with_status, with_line, status_line, parse_headers, body_capacity,
}

abbrev pub with_raw : Bytes → Bool → Bytes → HttpResponse → HttpResponse
with_raw x k w r = record r { raw = x; complete = k; body = w }

abbrev read_raw : Bytes → Bool → Bytes → Reading → Reading
read_raw x k w (malformed m r) = malformed m (with_raw x k w r)
read_raw x k w (reading h e r) = reading h e (with_raw x k w r)

abbrev pub pair_raw : Bytes → Bool → Bytes → Bool × HttpResponse → Bool × HttpResponse
pair_raw x k w (b, r) = (b, with_raw x k w r)

ap_if :
    {A B : Type 0} (f : A → B) (b : Bool) (x y : A)
    → (if b then f x else f y) ≡ f (if b then x else y)
ap_if f true x y = refl
ap_if f false x y = refl

if_both :
    {A : Type 0} (b : Bool) {x y z w : A}
    → x ≡ y
    → z ≡ w
    → (if b then x else z) ≡ (if b then y else w)
if_both true e f = e
if_both false e f = f

module _ (x : Bytes) (k : Bool) (w : Bytes) where
  length_field_raw :
      (h e : Bool) (r : HttpResponse) (o : Option ℕ)
      → length_field h e (with_raw x k w r) o ≡ read_raw x k w (length_field h e r o)
  unfolding length_field
  length_field_raw h e r none = refl
  length_field_raw true e r (some n) = refl
  length_field_raw false e r (some n) = refl

  header_field_raw :
      (h e : Bool) (r : HttpResponse) (o : Option (Bytes × Bytes))
      → header_field h e (with_raw x k w r) o ≡ read_raw x k w (header_field h e r o)
  unfolding header_field
  header_field_raw h e r none = refl
  header_field_raw h e r (some (name, value)) =
      let bad = malformed (codes "Unsupported Transfer-Encoding") r in
      let kept = reading h e r in
      let good = reading h true r in
      let refuse = e || not (value_equals value (codes "chunked")) in
      let is_encoding = same_word name (codes "Transfer-Encoding") in
      let other = if is_encoding then (if refuse then bad else good) else kept in
      if_both (same_word name (codes "Content-Length")) (length_field_raw h e r (parse_u64 value)) (
        if_both is_encoding (ap_if (read_raw x k w) refuse bad good) refl
        ∙ ap_if (read_raw x k w) is_encoding (if refuse then bad else good) kept)
      ∙ ap_if (read_raw x k w) (same_word name (codes "Content-Length"))
          (length_field h e r (parse_u64 value)) other

  bool_raw :
      (b : Bool) (s t u v : Reading)
      → s ≡ read_raw x k w t
      → u ≡ read_raw x k w v
      → elim b [ true ↦ s | false ↦ u ] ≡ read_raw x k w (elim b [ true ↦ t | false ↦ v ])
  bool_raw true s t u v e f = e
  bool_raw false s t u v e f = f

  found_raw :
      (o : Option (Bytes × Bytes)) (s t : Reading) (f g : Bytes × Bytes → Reading)
      → s ≡ read_raw x k w t
      → ((y : Bytes × Bytes) → f y ≡ read_raw x k w (g y))
      → elim o [ none ↦ s | some y ↦ f y ] ≡ read_raw x k w (elim o [ none ↦ t | some y ↦ g y ])
  found_raw none s t f g e h = e
  found_raw (some y) s t f g e h = h y

  malformed_raw :
      (fuel : ℕ) (m : Bytes) (r : HttpResponse) (s : Bytes)
      → headers_loop fuel (malformed m (with_raw x k w r)) s
        ≡ read_raw x k w (headers_loop fuel (malformed m r) s)
  unfolding headers_loop
  malformed_raw zero m r s = refl
  malformed_raw (suc fuel) m r s = refl

  headers_loop_raw :
      (fuel : ℕ) (y z : Reading) (s : Bytes)
      → y ≡ read_raw x k w z
      → headers_loop fuel y s ≡ read_raw x k w (headers_loop fuel z s)
  unfolding headers_loop
  headers_loop_raw fuel y (malformed m r) s q = rw q (malformed_raw fuel m r s)
  headers_loop_raw zero y (reading h e r) s q = rw q refl
  headers_loop_raw (suc fuel) y (reading h e r) s q = rw q (
      bool_raw (leb (length s) 2) (reading h e (with_raw x k w r)) (reading h e r) _ _ refl (
        found_raw (find_text crlf s) _ _
          (λ t. elim (is_empty t.0) [
            | true ↦ reading h e (with_raw x k w r)
            | false ↦
                headers_loop fuel (header_field h e (with_raw x k w r) (split_at b':' t.0)) t.1
          ])
          (λ t. elim (is_empty t.0) [
            | true ↦ reading h e r
            | false ↦ headers_loop fuel (header_field h e r (split_at b':' t.0)) t.1
          ])
          refl
          (λ t. bool_raw (is_empty t.0) (reading h e (with_raw x k w r)) (reading h e r) _ _ refl (
            headers_loop_raw fuel (header_field h e (with_raw x k w r) (split_at b':' t.0))
              (header_field h e r (split_at b':' t.0)) t.1
              (header_field_raw h e r (split_at b':' t.0))))))

  framed_raw : (y z : Reading) → y ≡ read_raw x k w z → framed y ≡ pair_raw x k w (framed z)
  unfolding framed
  framed_raw y (malformed m r) q = rw q refl
  framed_raw y (reading h e r) q =
      let u = record r { framing = framing_of h e } in
      let both : Bool × HttpResponse =
        (false, set_error (codes "Ambiguous HTTP response framing") r) in
      let large : Bool × HttpResponse =
        (false, set_error (codes "HTTP response body too large") u) in
      let good : Bool × HttpResponse = (true, record u { headers_parsed = true }) in
      rw q (
        if_both (h && e) refl
          (ap_if (pair_raw x k w) (ltb body_capacity r.content_length) large good)
        ∙ ap_if (pair_raw x k w) (h && e) both
            (if ltb body_capacity r.content_length then large else good))

  with_status_raw :
      (r : HttpResponse) (rest : Bytes) (o : Option ℕ)
      → with_status (with_raw x k w r) rest o ≡ pair_raw x k w (with_status r rest o)
  unfolding with_status
  with_status_raw r rest none = refl
  with_status_raw r rest (some status) =
      let start = reading false false (record r { status_code = status }) in
      framed_raw (headers_loop (suc (length rest)) (read_raw x k w start) rest)
        (headers_loop (suc (length rest)) start rest)
        (headers_loop_raw (suc (length rest)) (read_raw x k w start) start rest refl)

  with_line_raw :
      (r : HttpResponse) (o : Option (Bytes × Bytes))
      → with_line (with_raw x k w r) o ≡ pair_raw x k w (with_line r o)
  unfolding with_line
  with_line_raw r none = refl
  with_line_raw r (some (line, rest)) = with_status_raw r rest (status_line line)

  pub parse_headers_raw :
      (header : Bytes) (r : HttpResponse)
      → parse_headers header (with_raw x k w r) ≡ pair_raw x k w (parse_headers header r)
  unfolding parse_headers
  parse_headers_raw header r = with_line_raw r (find_text crlf header)
