-- ===== src/Protocol/Response/RoundTrip.antt =====
-- The recipient's answer, as the server writes it and the sender reads it.
use localsend3ds.Prelude.{
  ℕ, suc, ◌<◌, ◌≡◌, refl, sym, ◌∙◌, Bool, true, false, none, some, List, [], ◌∷◌, ◌++◌,
  append_assoc, Bytes, ◌==◌, ltb, if◌then◌else◌, if_true, lt→ltb, codes, str_eq, str_eq_refl,
  is_empty, length, arith, Bool-cases, inl, inr,
}
use localsend3ds.Utf8.Text.{utf8, IsText}
use localsend3ds.Json.Cursor.{skip_whitespace, take_char}
use localsend3ds.Json.Scan.{parse_string, parsed, piece, string_loop, append_bytes, append_byte}
use localsend3ds.Json.Write.{writer_bytes, writer_string}
use localsend3ds.Json.RoundTrip.{quoted, parse_string-quoted}
use localsend3ds.Json.Emit.{
  Emits, writer_bytes-Emits, writer_string-Emits, then-Emits, writer_finish_lem,
}
use localsend3ds.Json.Skip.{Separator, separator}
use localsend3ds.Protocol.{
  ok, parse_key, file_id_capacity, session_id_capacity, file_token_capacity,
}
use localsend3ds.Protocol.Write.{write_prepare_upload_response}
use localsend3ds.Protocol.Response.{
  Response, blank, response_loop, response_field, response_files_loop, parse_response_files,
  parse_prepare_upload_response,
}

-- A text of scalar values that fits a buffer.
pub record Fits (capacity : ℕ) (cps : List ℕ) : Type 0 where
  pub text : IsText cps
  pub room : length (utf8 cps) < capacity

pub parse_string-Fits :
    (capacity : ℕ) (cps : List ℕ) (rest : Bytes)
    → Fits capacity cps
    → parse_string (some capacity) (quoted (utf8 cps) ++ rest) ≡ parsed (utf8 cps) rest
parse_string-Fits capacity cps rest f =
    parse_string-quoted capacity cps rest f.text (omega (arith, f.room))
    ∙ if_true _ _ (lt→ltb (length (utf8 cps)) capacity f.room)

-- The answer, as one text.
abbrev pub message : Bytes → Bytes → Bytes → Bytes
message session file token =
    codes "{\"sessionId\":"
    ++ quoted session
    ++ codes ",\"files\":{"
    ++ quoted file
    ++ codes ":"
    ++ quoted token
    ++ codes "}}"

message-Emits :
    (session file token : Bytes)
    → Emits
        (λ w. writer_bytes (codes "}}") (
          writer_string token (
            writer_bytes (codes ":") (
              writer_string file (
                writer_bytes
                  (codes ",\"files\":{")
                  (writer_string session (writer_bytes (codes "{\"sessionId\":") w)))))))
        (message session file token)
message-Emits session file token =
    then-Emits
      (then-Emits
        (then-Emits
          (then-Emits
            (then-Emits
              (then-Emits (writer_bytes-Emits (codes "{\"sessionId\":"))
                (writer_string-Emits session))
              (writer_bytes-Emits (codes ",\"files\":{")))
            (writer_string-Emits file))
          (writer_bytes-Emits (codes ":")))
        (writer_string-Emits token))
      (writer_bytes-Emits (codes "}}"))

abbrev from_token : Bytes → Bytes
from_token token = quoted token ++ codes "}}"

abbrev from_file : Bytes → Bytes → Bytes
from_file file token = quoted file ++ (b':' ∷ from_token token)

abbrev from_session : Bytes → Bytes → Bytes → Bytes
from_session session file token = quoted session ++ (codes ",\"files\":{" ++ from_file file token)

message_lem :
    (session file token : Bytes)
    → message session file token ≡ codes "{\"sessionId\":" ++ from_session session file token
message_lem session file token = simp append_assoc

key_session_id :
    (rest : Bytes) → parse_key 32 (codes "\"sessionId\":" ++ rest) ≡ ok (codes "sessionId", rest)
unfolding parse_key parse_string string_loop piece append_bytes append_byte take_char
key_session_id rest = refl

key_files : (rest : Bytes) → parse_key 32 (codes "\"files\":" ++ rest) ≡ ok (codes "files", rest)
unfolding parse_key parse_string string_loop piece append_bytes append_byte take_char
key_files rest = refl

parse_key-Fits :
    (capacity : ℕ) (cps : List ℕ) (rest : Bytes)
    → Fits capacity cps
    → parse_key capacity (quoted (utf8 cps) ++ (b':' ∷ rest)) ≡ ok (utf8 cps, rest)
unfolding parse_key take_char skip_whitespace
parse_key-Fits capacity cps rest f = rw (parse_string-Fits capacity cps (b':' ∷ rest) f)

closes : (rest : Bytes) → separator b'}' (b'}' ∷ rest) ≡ Separator.last rest
unfolding separator skip_whitespace
closes rest = refl

goes_on : (rest : Bytes) → separator b'}' (b',' ∷ b'"' ∷ rest) ≡ Separator.more (b'"' ∷ rest)
unfolding separator skip_whitespace
goes_on rest = refl

files_loop_step :
    (fuel : ℕ) (file token : List ℕ)
    → Fits file_id_capacity file
    → Fits file_token_capacity token
    → is_empty (utf8 token) ≡ false
    → response_files_loop (suc fuel) (utf8 file) false [] (from_file (utf8 file) (utf8 token))
      ≡ ok (utf8 token, codes "}")
unfolding response_files_loop
files_loop_step fuel file token ff ft n = rw (
  parse_key-Fits file_id_capacity file (from_token (utf8 token)) ff,
  str_eq_refl (utf8 file),
  parse_string-Fits file_token_capacity token (codes "}}") ft,
  n,
  closes (codes "}"),
  response_files_loop,
)

files_step :
    (file token : List ℕ)
    → Fits file_id_capacity file
    → Fits file_token_capacity token
    → is_empty (utf8 token) ≡ false
    → parse_response_files (utf8 file) (b'{' ∷ from_file (utf8 file) (utf8 token))
      ≡ ok (utf8 token, codes "}")
unfolding parse_response_files take_char skip_whitespace
files_step file token ff ft n =
    files_loop_step (length (from_file (utf8 file) (utf8 token))) file token ff ft n

files_field_step :
    (out : Response) (file token : List ℕ)
    → out.has_files ≡ false
    → Fits file_id_capacity file
    → Fits file_token_capacity token
    → is_empty (utf8 token) ≡ false
    → response_field (utf8 file) (codes "files") out (b'{' ∷ from_file (utf8 file) (utf8 token))
      ≡ ok (record out { file_token = utf8 token; has_files = true }, codes "}")
unfolding response_field str_eq
files_field_step out file token h ff ft n = rw (h, files_step file token ff ft n)

session_field_step :
    (expected : Bytes) (session : List ℕ) (rest : Bytes)
    → Fits session_id_capacity session
    → is_empty (utf8 session) ≡ false
    → response_field expected (codes "sessionId") blank (quoted (utf8 session) ++ rest)
      ≡ ok (record blank { session_id = utf8 session; has_session = true }, rest)
unfolding response_field str_eq
session_field_step expected session rest f n =
    rw (parse_string-Fits session_id_capacity session rest f, n)

-- What the sender remembers of a good answer.
abbrev pub answer : Bytes → Bytes → Response
answer session token = record {
  session_id = session;
  file_token = token;
  has_session = true;
  has_files = true;
}

loop_end :
    (fuel : ℕ) (session file token : List ℕ)
    → Fits session_id_capacity session
    → Fits file_id_capacity file
    → Fits file_token_capacity token
    → is_empty (utf8 session) ≡ false
    → is_empty (utf8 token) ≡ false
    → response_loop
        (suc (suc fuel))
        (utf8 file)
        blank
        (codes "\"sessionId\":" ++ from_session (utf8 session) (utf8 file) (utf8 token))
      ≡ ok (answer (utf8 session) (utf8 token), [])
unfolding response_loop take_char skip_whitespace
loop_end fuel session file token fs ff ft ns nt =
    let after : Bytes = b'{' ∷ from_file (utf8 file) (utf8 token) in
    rw (
      key_session_id (from_session (utf8 session) (utf8 file) (utf8 token)),
      session_field_step (utf8 file) session (codes ",\"files\":" ++ after) fs ns,
      goes_on (codes "files\":" ++ after),
      key_files after,
      files_field_step (record blank { session_id = utf8 session; has_session = true }) file token
          refl ff ft nt,
      closes [],
      response_loop,
    )

some_if : (b : Bool) {m json : Bytes} → some json ≡ (if b then some m else none) → json ≡ m
some_if b q = ground arith

written :
    (session file token : Bytes) (capacity : ℕ) {json : Bytes}
    → write_prepare_upload_response session file token capacity ≡ some json
    → json ≡ codes "{\"sessionId\":" ++ from_session session file token
unfolding write_prepare_upload_response
written session file token capacity {json} h = elim (Bool-cases (capacity == 0)) [
  | inl z ↦ absurd (cc (rw z at h))
  | inr p ↦
      let e = writer_finish_lem capacity (message-Emits session file token) (ground arith) in
      some_if (ltb (length (message session file token)) capacity) (sym (rw p at h) ∙ e)
      ∙ message_lem session file token
]

-- The answer that `ls_protocol_write_prepare_upload_response` writes for a session, file and token
-- that are UTF-8 texts without NUL, fit their buffers and are not empty is read back by
-- `ls_protocol_parse_prepare_upload_response` for that file: the same session and token.
pub parse-write_response :
    (session file token : List ℕ) (capacity : ℕ) {json : Bytes}
    → Fits session_id_capacity session
    → Fits file_id_capacity file
    → Fits file_token_capacity token
    → is_empty (utf8 session) ≡ false
    → is_empty (utf8 file) ≡ false
    → is_empty (utf8 token) ≡ false
    → write_prepare_upload_response (utf8 session) (utf8 file) (utf8 token) capacity ≡ some json
    → parse_prepare_upload_response json (utf8 file) ≡ ok (answer (utf8 session) (utf8 token))
unfolding parse_prepare_upload_response take_char skip_whitespace
parse-write_response session file token capacity {json} fs ff ft ns nf nt h = rw (
  written (utf8 session) (utf8 file) (utf8 token) capacity h,
  nf,
  loop_end _ session file token fs ff ft ns nt,
)
