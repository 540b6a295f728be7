-- ===== src/Protocol/Write.antt =====
-- The `ls_protocol_write_…` functions. The result is the text of the output buffer, `none` where
-- the function returns false. `snprintf` of an unsigned number is its decimal digits.
use localsend3ds.Prelude.{
  ℕ, zero, suc, ◌+◌, ◌/◌, ◌%◌, Bool, true, false, ◌||◌, not, Option, none, [], ◌∷◌, ◌++◌, Bytes,
  ◌==◌, ltb, if◌then◌else◌, codes, is_empty,
}
use localsend3ds.Device.{Device, Protocol, http, https}
use localsend3ds.Json.Write.{
  Writer, start, writer_bytes, writer_string, writer_field, writer_finish,
}
use localsend3ds.Protocol.{device_type_text}

-- `%u` and `%llu`. Twenty digits hold any 64-bit number.
unfoldable pub decimal_digits : ℕ → ℕ → Bytes → Bytes
decimal_digits zero n rest = rest
decimal_digits (suc fuel) n rest =
    let more = decimal_digits fuel (n / 10) ((b'0' + n % 10) ∷ rest) in
    if ltb n 10 then (b'0' + n) ∷ rest else more

unfoldable pub decimal : ℕ → Bytes
unfolding decimal_digits
decimal n = decimal_digits 20 n []

unfoldable pub protocol_text : Protocol → Bytes
protocol_text http = codes "http"
protocol_text https = codes "https"

unfoldable pub write_model : Bytes → Writer → Writer
write_model model w =
    if not (is_empty model) then writer_field (codes "deviceModel") model true w else w

-- alias, version, the model if there is one, type and fingerprint: the beginning that
-- `ls_protocol_write_announcement`, `ls_protocol_write_info` and the prepare request share.
unfoldable pub write_identity : Device → Writer → Writer
write_identity d w = writer_field (codes "fingerprint") d.fingerprint true (
    writer_field (codes "deviceType") (device_type_text d.device_type) true (
      write_model d.device_model (
        writer_field (codes "version") d.version true
          (writer_field (codes "alias") d.alias false w))))

-- `,"port":…` and the protocol.
unfoldable pub write_endpoint : Device → Writer → Writer
write_endpoint d w =
    writer_field (codes "protocol") (protocol_text d.protocol) true
      (writer_bytes (decimal d.port) (writer_bytes (codes ",\"port\":") w))

abbrev pub bool_text : Bool → Bytes
bool_text true = codes "true"
bool_text false = codes "false"

-- `ls_protocol_write_announcement`; the guards are on NULL arguments and the capacity.
unfoldable pub write_announcement : Device → ℕ → Option Bytes
write_announcement d capacity =
    if capacity == 0
    then none
    else writer_finish (
        writer_bytes (codes ",\"announce\":true}") (
          writer_bytes (codes ",\"download\":" ++ bool_text d.download)
            (write_endpoint d (write_identity d (writer_bytes (codes "{") (start capacity))))))

-- `ls_protocol_write_info`
unfoldable pub write_info : Device → ℕ → Option Bytes
write_info d capacity =
    if capacity == 0
    then none
    else writer_finish (
        writer_bytes (codes ",\"download\":" ++ bool_text d.download ++ codes "}")
          (write_identity d (writer_bytes (codes "{") (start capacity))))

-- `ls_protocol_write_prepare_upload_response`
unfoldable pub write_prepare_upload_response : Bytes → Bytes → Bytes → ℕ → Option Bytes
write_prepare_upload_response session_id file_id token capacity =
    if capacity == 0
    then none
    else writer_finish (
        writer_bytes (codes "}}") (
          writer_string token (
            writer_bytes (codes ":") (
              writer_string file_id (
                writer_bytes (codes ",\"files\":{") (
                  writer_string session_id
                    (writer_bytes (codes "{\"sessionId\":") (start capacity))))))))

-- The object `info` of the prepare request.
unfoldable pub write_sender : Device → Writer → Writer
write_sender sender w =
    writer_bytes (codes ",\"download\":" ++ bool_text sender.download ++ codes "}")
      (write_endpoint sender (write_identity sender (writer_bytes (codes "{\"info\":{") w)))

-- The object `files` of the prepare request, and its end.
unfoldable pub write_file : Bytes → Bytes → ℕ → Bytes → Writer → Writer
write_file file_id file_name file_size file_type w =
    writer_bytes (codes ",\"sha256\":null,\"preview\":null}}}") (
      writer_string file_type (
        writer_bytes (codes ",\"fileType\":") (
          writer_bytes (decimal file_size) (
            writer_bytes (codes ",\"size\":") (
              writer_string file_name (
                writer_bytes (codes ",\"fileName\":") (
                  writer_string file_id (
                    writer_bytes (codes ":{\"id\":")
                      (writer_string file_id (writer_bytes (codes ",\"files\":{") w))))))))))

-- `ls_protocol_write_prepare_upload_request`
unfoldable pub write_prepare_upload_request : Device → Bytes → Bytes → ℕ → Bytes → ℕ → Option Bytes
write_prepare_upload_request sender file_id file_name file_size file_type capacity =
    if capacity == 0 || is_empty file_id || is_empty file_name || is_empty file_type
    then none
    else writer_finish
        (write_file file_id file_name file_size file_type (write_sender sender (start capacity)))
