-- ===== src/Protocol/Tests.antt =====
-- An answer that is written and read back.
use localsend3ds.Prelude.{
  ℕ, ◌≡◌, refl, true, false, some, Bytes, List, [], ◌∷◌, codes, arith, str_eq,
}
use localsend3ds.Utf8.{encode}
use localsend3ds.Utf8.Text.{utf8}
use localsend3ds.Json.Write.{
  start, writer_bytes, writer_string, writer_chars, escaped, writer_finish,
}
use localsend3ds.Device.{Device, web, https}
use localsend3ds.Protocol.{ok}
use localsend3ds.Protocol.Accepts.{Accepts}
use localsend3ds.Protocol.Device.{parse_device}
use localsend3ds.Protocol.Object.{parse_object}
use localsend3ds.Protocol.Device.Accepted.{IsAccepted, parse_device-IsAccepted}
use localsend3ds.Protocol.Write.{write_prepare_upload_response}
use localsend3ds.Protocol.Response.{parse_prepare_upload_response}
use localsend3ds.Protocol.Response.RoundTrip.{Fits, answer, parse-write_response}

-- "s1", "f" and "t".
abbrev session : List ℕ
session = 0x73 ∷ 0x31 ∷ []

abbrev file : List ℕ
file = 0x66 ∷ []

abbrev token : List ℕ
token = 0x74 ∷ []

session-Fits : Fits 65 session
unfolding encode
session-Fits = ground arith

file-Fits : Fits 129 file
unfolding encode
file-Fits = ground arith

token-Fits : Fits 65 token
unfolding encode
token-Fits = ground arith

parse-write_response_example :
    parse_prepare_upload_response
      (codes "{\"sessionId\":\"s1\",\"files\":{\"f\":\"t\"}}")
      (utf8 file)
    ≡ ok (answer (utf8 session) (utf8 token))
unfolding write_prepare_upload_response start writer_bytes writer_string writer_chars escaped
    writer_finish encode
parse-write_response_example =
    parse-write_response session file token 512 session-Fits file-Fits token-Fits refl refl refl
      refl

-- A peer's announcement.
abbrev announced : Bytes
announced =
    codes
      "{\"alias\":\"A\",\"version\":\"2.1\",\"deviceType\":\"web\",\"fingerprint\":\"f\",\"port\":53317,\"protocol\":\"https\",\"announce\":true,\"more\":[1,{}]}"

abbrev peer : Device
peer = record {
  alias = codes "A";
  version = codes "2.1";
  device_model = [];
  device_type = web;
  fingerprint = codes "f";
  ip_address = codes "10.0.0.2";
  port = 53317;
  protocol = https;
  download = false;
  announce = true;
  last_seen_ms = 0;
}

parse_device-peer : parse_device announced (some (codes "10.0.0.2")) ≡ ok peer
unfolding parse_device parse_object localsend3ds.Json.Cursor.take_char
    localsend3ds.Json.Cursor.skip_whitespace localsend3ds.Protocol.Object.members_loop
    localsend3ds.Protocol.parse_key localsend3ds.Json.Scan.parse_string
    localsend3ds.Json.Scan.string_loop localsend3ds.Json.Scan.piece
    localsend3ds.Json.Scan.append_bytes localsend3ds.Json.Scan.append_byte
    localsend3ds.Protocol.Object.set_once localsend3ds.Protocol.Device.device_field str_eq
    localsend3ds.Protocol.Device.device_value localsend3ds.Protocol.Object.text_value
    localsend3ds.Json.Skip.separator localsend3ds.Protocol.Object.parse_port
    localsend3ds.Protocol.Object.parse_bool localsend3ds.Json.Cursor.hex_value
    localsend3ds.Json.Cursor.match_literal localsend3ds.Json.Cursor.parse_hex_quad
    localsend3ds.Json.Cursor.strip_prefix localsend3ds.Json.Skip.kind
    localsend3ds.Json.Skip.member_name localsend3ds.Json.Skip.skip
    localsend3ds.Json.Skip.skip_digits localsend3ds.Json.Skip.skip_number
    localsend3ds.Json.Skip.skip_members localsend3ds.Json.Skip.skip_elements
    localsend3ds.Json.Skip.skip_value localsend3ds.Protocol.Device.compatible_protocol_version
    localsend3ds.Protocol.Device.device_end localsend3ds.Protocol.Device.model_value
    localsend3ds.Protocol.Device.parse_version_component localsend3ds.Protocol.Device.protocol_of
    localsend3ds.Protocol.Device.type_value localsend3ds.Protocol.Device.with_source
    localsend3ds.Protocol.Object.digits_loop localsend3ds.Protocol.Object.display_loop
    localsend3ds.Protocol.Object.nonempty_object localsend3ds.Protocol.Object.port_loop
    localsend3ds.Protocol.Object.valid_network_display_text localsend3ds.Protocol.parse_device_type
parse_device-peer = refl

parse_device-IsAccepted_example :
    Accepts IsAccepted (parse_device announced (some (codes "10.0.0.2")))
parse_device-IsAccepted_example = parse_device-IsAccepted announced (some (codes "10.0.0.2"))

-- A comma before the closing brace is let through.
comma_accepted :
    parse_prepare_upload_response
      (codes "{\"sessionId\":\"s1\",\"files\":{\"f\":\"t\"},}")
      (codes "f")
    ≡ ok (answer (codes "s1") (codes "t"))
unfolding localsend3ds.Json.Cursor.take_char localsend3ds.Json.Cursor.skip_whitespace
    localsend3ds.Protocol.parse_key localsend3ds.Json.Scan.parse_string
    localsend3ds.Json.Scan.string_loop localsend3ds.Json.Scan.piece
    localsend3ds.Json.Scan.append_bytes localsend3ds.Json.Scan.append_byte str_eq
    localsend3ds.Json.Skip.separator localsend3ds.Json.Cursor.hex_value
    localsend3ds.Json.Cursor.match_literal localsend3ds.Json.Cursor.parse_hex_quad
    localsend3ds.Json.Cursor.strip_prefix localsend3ds.Json.Skip.kind
    localsend3ds.Json.Skip.member_name localsend3ds.Json.Skip.skip
    localsend3ds.Json.Skip.skip_digits localsend3ds.Json.Skip.skip_number
    localsend3ds.Json.Skip.skip_members localsend3ds.Json.Skip.skip_elements
    localsend3ds.Json.Skip.skip_value localsend3ds.Protocol.parse_device_type
    localsend3ds.Protocol.Response.parse_prepare_upload_response
    localsend3ds.Protocol.Response.response_loop localsend3ds.Protocol.Response.response_field
    localsend3ds.Protocol.Response.parse_response_files
    localsend3ds.Protocol.Response.response_files_loop localsend3ds.Protocol.Response.response_end
comma_accepted = refl
