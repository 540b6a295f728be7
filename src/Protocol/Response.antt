-- ===== src/Protocol/Response.antt =====
-- `ls_protocol_parse_prepare_upload_response`: the recipient's answer to a prepare request.
pub mod RoundTrip
use localsend3ds.Prelude.{
  ℕ, zero, suc, Bool, true, false, ◌&&◌, ◌||◌, not, Option, none, some, [], ◌∷◌, Bytes, ◌==◌,
  if◌then◌else◌, codes, str_eq, is_empty, length,
}
use localsend3ds.Json.Cursor.{skip_whitespace, take_char}
use localsend3ds.Json.Scan.{parse_string}
use localsend3ds.Json.Skip.{Separator, last, more, wrong, separator, skip}
use localsend3ds.Protocol.{
  ParseError, invalid_json, missing_field, duplicate_field, invalid_value, Parsed, ok, fail, ◌>>=◌,
  or_fail, json_parse_result, parse_key, key_capacity, file_id_capacity, session_id_capacity,
  file_token_capacity,
}

-- `LsPrepareUploadResponse`, and the bits of `fields`.
pub record Response : Type 0 where
  pub session_id : Bytes
  pub file_token : Bytes
  pub has_session : Bool
  pub has_files : Bool

abbrev pub blank : Response
blank = record { session_id = []; file_token = []; has_session = false; has_files = false }

-- The loop of `parse_response_files`; `found` is the token once the expected file has been met.
unfoldable pub response_files_loop : ℕ → Bytes → Bool → Bytes → Bytes → Parsed (Bytes × Bytes)
response_files_loop zero expected found token s = fail invalid_json
response_files_loop (suc fuel) expected found token s = elim (parse_key file_id_capacity s) [
  | fail e ↦ fail e
  | ok (file_id, r) ↦ elim (not (str_eq file_id expected) || found) [
    | true ↦ fail invalid_value
    | false ↦ elim (json_parse_result (parse_string (some file_token_capacity) r)) [
      | fail e ↦ fail e
      | ok (new_token, v) ↦ elim (is_empty new_token) [
        | true ↦ fail missing_field
        | false ↦ elim (separator b'}' v) [
          | last rest ↦ ok (new_token, rest)
          | more rest ↦ response_files_loop fuel expected true new_token rest
          | wrong ↦ fail invalid_json
        ]
      ]
    ]
  ]
]

files_object : Bytes → Bytes → Parsed (Bytes × Bytes)
files_object expected s = elim (take_char b'}' s) [
  | some rest ↦ fail missing_field
  | none ↦ response_files_loop (suc (length s)) expected false [] s
]

unfoldable pub parse_response_files : Bytes → Bytes → Parsed (Bytes × Bytes)
unfolding files_object response_files_loop
parse_response_files expected s = elim (take_char b'{' s) [
  | none ↦ fail invalid_json
  | some r ↦ files_object expected r
]

session_field : Response → Bytes → Parsed (Response × Bytes)
session_field out s =
    if out.has_session
    then fail duplicate_field
    else json_parse_result (parse_string (some session_id_capacity) s) >>= λ t.
        if is_empty t.0
        then fail missing_field
        else ok (record out { session_id = t.0; has_session = true }, t.1)

files_field : Bytes → Response → Bytes → Parsed (Response × Bytes)
files_field expected out s =
    if out.has_files
    then fail duplicate_field
    else parse_response_files expected s >>= λ t.
        ok (record out { file_token = t.0; has_files = true }, t.1)

-- One member: the key decides what is read.
unfoldable pub response_field : Bytes → Bytes → Response → Bytes → Parsed (Response × Bytes)
unfolding session_field files_field parse_response_files
response_field expected key out s =
    if str_eq key (codes "sessionId")
    then session_field out s
    else if str_eq key (codes "files")
    then files_field expected out s
    else or_fail invalid_json (skip s) >>= λ rest. ok (out, rest)

-- The loop. A closing brace may stand at the head of a round, behind a comma too.
unfoldable pub response_loop : ℕ → Bytes → Response → Bytes → Parsed (Response × Bytes)
response_loop zero expected out s = fail invalid_json
response_loop (suc fuel) expected out s = elim (take_char b'}' s) [
  | some rest ↦ ok (out, rest)
  | none ↦ elim (parse_key key_capacity s) [
    | fail e ↦ fail e
    | ok (key, r) ↦ elim (response_field expected key out r) [
      | fail e ↦ fail e
      | ok (next, v) ↦ elim (separator b'}' v) [
        | last rest ↦ ok (next, rest)
        | more rest ↦ response_loop fuel expected next rest
        | wrong ↦ fail invalid_json
      ]
    ]
  ]
]

-- What follows the loop.
unfoldable pub response_end : Response × Bytes → Parsed Response
response_end (out, s) =
    if not (is_empty (skip_whitespace s))
    then fail invalid_json
    else if not (out.has_session && out.has_files)
    then fail missing_field
    else ok out

-- `ls_protocol_parse_prepare_upload_response`
unfoldable pub parse_prepare_upload_response : Bytes → Bytes → Parsed Response
unfolding response_end
parse_prepare_upload_response json expected =
    if is_empty json || is_empty expected
    then fail invalid_json
    else or_fail invalid_json (take_char b'{' json) >>= λ s.
        response_loop (suc (length s)) expected blank s >>= response_end
