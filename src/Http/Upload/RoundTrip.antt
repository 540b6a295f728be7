-- ===== src/Http/Upload/RoundTrip.antt =====
-- The server reads in an upload request what the sender put there.
use localsend3ds.Prelude.{
  ℕ, ◌*◌, ◌<◌, ◌≡◌, refl, ap, ◌∙◌, arith, true, false, ◌≤◌, All-append, Option, none, some, [], ◌∷◌,
  ◌++◌, Bytes, All, leb, length, codes, is_empty, str_eq, Bool-cases, inl, inr,
}
use localsend3ds.Protocol.{session_id_capacity, file_id_capacity, file_token_capacity}
use localsend3ds.Http.Query.{query_encode, query_ok, query_value, is_safe, encoded_byte}
use localsend3ds.Http.Query.RoundTrip.{IsPrintable, encode_all, query_encode_lem}
use localsend3ds.Http.Query.Parameters.{Param, IsParam, query_value-query_text}
use localsend3ds.Http.Request.{Request, split_header, parse_request_headers, route_path}
use localsend3ds.Http.Request.Read.{IsPlain, IsVisible}
use localsend3ds.Http.Text.{split_at}
use localsend3ds.Protocol.Object.{uint64_max}
use localsend3ds.Http.Upload.Head.{
  announced, upload_head, parse_request_headers-upload, split_header-upload,
}
use localsend3ds.Http.Upload.{
  upload_target, upload_text, build_upload_request, fitting, request_capacity,
}

-- A text that can stand in a query for a buffer of a size.
pub record Value (capacity : ℕ) (s : Bytes) : Type 0 where
  pub printable : All IsPrintable s
  pub not_empty : is_empty s ≡ false
  pub fits : length s < capacity

-- What the server reads in a target.
abbrev pub IsRead : Bytes → Bytes → Bytes → Bytes → Type 0
IsRead session file token target =
    (query_value target (codes "sessionId") session_id_capacity ≡ query_ok session)
    × (query_value target (codes "fileId") file_id_capacity ≡ query_ok file)
    × (query_value target (codes "token") file_token_capacity ≡ query_ok token)

module _ {session file token : Bytes} (s : Value session_id_capacity session)
    (f : Value file_id_capacity file) (t : Value file_token_capacity token) where
  target-IsRead :
      IsRead session file token
        (upload_target (encode_all session) (encode_all file) (encode_all token))
  unfolding upload_target str_eq is_safe
  target-IsRead =
      let path = codes "/api/localsend/v2/upload" in
      let a : Param = record { name = codes "sessionId"; value = session } in
      let b : Param = record { name = codes "fileId"; value = file } in
      let c : Param = record { name = codes "token"; value = token } in
      let u : IsParam a = record {
        safe = (ground arith);
        name_fits = omega arith;
        printable = s.printable;
      } in
      let v : IsParam b = record {
        safe = (ground arith);
        name_fits = omega arith;
        printable = f.printable;
      } in
      let w : IsParam c = record {
        safe = (ground arith);
        name_fits = omega arith;
        printable = t.printable;
      } in
      (
        query_value-query_text path session_id_capacity [] a (b ∷ c ∷ []) (ground arith) tt u
            (v, (w, tt)) tt (refl, (refl, tt)) s.fits s.not_empty,
        query_value-query_text path file_id_capacity (a ∷ []) b (c ∷ []) (ground arith) (u, tt) v
            (w, tt) (refl, tt) (refl, tt) f.fits f.not_empty,
        query_value-query_text path file_token_capacity (a ∷ b ∷ []) c [] (ground arith)
            (u, (v, tt)) w tt (refl, (refl, tt)) tt t.fits t.not_empty,
      )

fitting_lem : (x : Bytes) {text : Bytes} → fitting x ≡ some text → text ≡ x
fitting_lem x h = elim (Bool-cases (leb request_capacity (length x))) [
  | inl e ↦ absurd (cc (rw e at h))
  | inr e ↦ cc (rw e at h)
]

-- The header that the server reads in a text: what it is framed by, where it is routed, and the
-- identifiers that it names.
pub record ReadsAs (session file token : Bytes) (size : ℕ) (text : Bytes) : Type 0 where
  pub head : Request
  pub framed : split_header text ≡ some (text, [])
  pub accepted : parse_request_headers text ≡ some head
  pub is_post : head.method ≡ codes "POST"
  pub has_size : (head.has_content_length ≡ true) × (head.content_length ≡ size)
  pub on_route : route_path head.target ≡ some (codes "/api/localsend/v2/upload")
  pub read : IsRead session file token head.target

text_lem :
    (ip : Bytes) (port size : ℕ) (a b c : Option Bytes) {text : Bytes}
    → upload_text ip port size a b c ≡ some text
    → (x : Bytes) × (y : Bytes) × (z : Bytes) × (a ≡ some x)
      × (b ≡ some y)
      × (c ≡ some z)
      × (text ≡ upload_head (upload_target x y z) ip port size)
unfolding upload_text
text_lem ip port size (some x) (some y) (some z) h =
    (x, y, z, refl, refl, refl, fitting_lem (upload_head (upload_target x y z) ip port size) h)
text_lem ip port size none b c h = cc h
text_lem ip port size (some x) none c h = cc h
text_lem ip port size (some x) (some y) none h = cc h

encoded_byte-IsVisible : (c : ℕ) → IsPrintable c → All IsVisible (encoded_byte c)
unfolding encoded_byte is_safe
encoded_byte-IsVisible c p = ground arith

encode_all-IsVisible : (s : Bytes) → All IsPrintable s → All IsVisible (encode_all s)
encode_all-IsVisible [] p = tt
encode_all-IsVisible (c ∷ cs) p =
    All-append _ (encoded_byte c) (encode_all cs) (encoded_byte-IsVisible c p.0)
      (encode_all-IsVisible cs p.1)

target-IsVisible :
    (x y z : Bytes)
    → All IsVisible x
    → All IsVisible y
    → All IsVisible z
    → All IsVisible (upload_target x y z)
unfolding upload_target
target-IsVisible x y z a b c =
    All-append _ (codes "/api/localsend/v2/upload?sessionId=")
      (x ++ (codes "&fileId=" ++ (y ++ (codes "&token=" ++ z)))) (ground arith)
      (All-append _ x (codes "&fileId=" ++ (y ++ (codes "&token=" ++ z))) a (
        All-append _ (codes "&fileId=") (y ++ (codes "&token=" ++ z)) (ground arith) (
          All-append _ y (codes "&token=" ++ z) b
            (All-append _ (codes "&token=") z (ground arith) c))))

target-not_nil : (x y z : Bytes) → is_empty (upload_target x y z) ≡ false
unfolding upload_target
target-not_nil x y z = refl

target-routed :
    (x y z : Bytes) → route_path (upload_target x y z) ≡ some (codes "/api/localsend/v2/upload")
unfolding upload_target route_path split_at
target-routed x y z = refl

-- If the sender builds an upload request, and its target fits the 767 bytes that `sscanf` reads, then
-- the server finds the end of the header at the end of the request, parse_request_headers accepts it
-- as a POST to the upload path with the file's size as its Content-Length, and query_value reads in
-- its target the session, file and token. The identifiers are of printable bytes, not empty and fit
-- the server's buffers; the address in the Host line has no bytes below 0x20; and the size is a 64-bit
-- number.
pub build_upload_request-IsRead :
    (session file token ip : Bytes) (port size : ℕ) {text : Bytes}
    → Value session_id_capacity session
    → Value file_id_capacity file
    → Value file_token_capacity token
    → All IsPlain ip
    → size ≤ uint64_max
    → length (upload_target (encode_all session) (encode_all file) (encode_all token)) ≤ 767
    → build_upload_request session file token ip port size ≡ some text
    → ReadsAs session file token size text
unfolding build_upload_request
build_upload_request-IsRead session file token ip port size {text} s f t p k l h =
    let (x, y, z, a, b, c, r) =
      text_lem ip port size (query_encode session (session_id_capacity * 3))
        (query_encode file (file_id_capacity * 3)) (query_encode token (file_token_capacity * 3))
        h in
    let target = upload_target (encode_all session) (encode_all file) (encode_all token) in
    let same : upload_target x y z ≡ target = cc (
      query_encode_lem session (session_id_capacity * 3) a,
      query_encode_lem file (file_id_capacity * 3) b,
      query_encode_lem token (file_token_capacity * 3) c,
    ) in
    let visible : All IsVisible target =
      target-IsVisible (encode_all session) (encode_all file) (encode_all token)
        (encode_all-IsVisible session s.printable) (encode_all-IsVisible file f.printable)
        (encode_all-IsVisible token t.printable) in
    let written : text ≡ upload_head target ip port size =
      r ∙ ap (λ u. upload_head u ip port size) same in
    rw written (record {
      head = announced target size;
      framed = split_header-upload target ip port size visible p;
      accepted =
          parse_request_headers-upload target ip port size visible
            (target-not_nil (encode_all session) (encode_all file) (encode_all token)) l p k;
      is_post = refl;
      has_size = (refl, refl);
      on_route = target-routed (encode_all session) (encode_all file) (encode_all token);
      read = target-IsRead s f t;
    })
