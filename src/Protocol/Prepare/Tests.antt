-- ===== src/Protocol/Prepare/Tests.antt =====
-- A request for one file, parsed.
use localsend3ds.Prelude.{◌≡◌, refl, false, none, Bytes, codes, str_eq}
use localsend3ds.Device.{desktop, http}
use localsend3ds.Transfer.{PrepareUploadRequest}
use localsend3ds.Protocol.{ok}
use localsend3ds.Protocol.Accepts.{Accepts}
use localsend3ds.Protocol.Prepare.{parse_prepare_upload}
use localsend3ds.Protocol.Prepare.Accepted.{IsRequest, parse_prepare_upload-IsRequest}

abbrev json : Bytes
json =
    codes
      "{\"info\":{\"alias\":\"A\",\"version\":\"2.0\",\"fingerprint\":\"f\",\"port\":1,\"protocol\":\"http\"},\"files\":{\"x\":{\"id\":\"x\",\"fileName\":\"a.txt\",\"size\":30,\"fileType\":\"t\",\"sha256\":null}}}"

abbrev request : PrepareUploadRequest
request = record {
  sender = record {
    alias = codes "A";
    version = codes "2.0";
    device_model = codes "";
    device_type = desktop;
    fingerprint = codes "f";
    ip_address = codes "";
    port = 1;
    protocol = http;
    download = false;
    announce = false;
    last_seen_ms = 0;
  };
  file = record {
    id = codes "x";
    file_name = codes "a.txt";
    size = 30;
    file_type = codes "t";
    has_sha256 = false;
    sha256 = codes "";
  };
}

parse_prepare_upload-request : parse_prepare_upload json none ≡ ok request
unfolding parse_prepare_upload localsend3ds.Protocol.Device.parse_device
    localsend3ds.Protocol.Object.parse_object localsend3ds.Json.Cursor.take_char
    localsend3ds.Json.Cursor.skip_whitespace localsend3ds.Protocol.Object.members_loop
    localsend3ds.Protocol.parse_key localsend3ds.Json.Scan.parse_string
    localsend3ds.Json.Scan.string_loop localsend3ds.Json.Scan.piece
    localsend3ds.Json.Scan.append_bytes localsend3ds.Json.Scan.append_byte
    localsend3ds.Protocol.Object.set_once localsend3ds.Protocol.Device.device_field str_eq
    localsend3ds.Protocol.Device.device_value localsend3ds.Protocol.Object.text_value
    localsend3ds.Json.Skip.separator localsend3ds.Protocol.Object.parse_port
    localsend3ds.Protocol.Object.parse_bool localsend3ds.Json.Cursor.hex_value
    localsend3ds.Json.Cursor.match_literal localsend3ds.Json.Cursor.parse_hex_quad
    localsend3ds.Json.Cursor.strip_prefix localsend3ds.Json.Skip.kind
    localsend3ds.Json.Skip.member_name localsend3ds.Json.Skip.skip
    localsend3ds.Json.Skip.skip_digits localsend3ds.Json.Skip.skip_number
    localsend3ds.Json.Skip.skip_members localsend3ds.Json.Skip.skip_elements
    localsend3ds.Json.Skip.skip_value localsend3ds.Protocol.Device.compatible_protocol_version
    localsend3ds.Protocol.Device.device_end localsend3ds.Protocol.Device.model_value
    localsend3ds.Protocol.Device.parse_version_component localsend3ds.Protocol.Device.protocol_of
    localsend3ds.Protocol.Device.type_value localsend3ds.Protocol.Device.with_source
    localsend3ds.Protocol.Object.digits_loop localsend3ds.Protocol.Object.display_loop
    localsend3ds.Protocol.Object.nonempty_object localsend3ds.Protocol.Object.port_loop
    localsend3ds.Protocol.Object.valid_network_display_text localsend3ds.Protocol.parse_device_type
    localsend3ds.Protocol.Prepare.file_field localsend3ds.Protocol.Prepare.file_value
    localsend3ds.Protocol.Prepare.name_of localsend3ds.Protocol.Prepare.sha256_of
    localsend3ds.Protocol.Prepare.file_end localsend3ds.Protocol.Prepare.parse_file_object
    localsend3ds.Protocol.Prepare.map_end localsend3ds.Protocol.Prepare.map_entry
    localsend3ds.Protocol.Prepare.map_opened localsend3ds.Protocol.Prepare.parse_single_file_map
    localsend3ds.Protocol.Prepare.prepare_field localsend3ds.Protocol.Prepare.prepare_value
    localsend3ds.Protocol.Prepare.info_of localsend3ds.Protocol.Prepare.prepare_end
    localsend3ds.Protocol.Prepare.valid_sha256 localsend3ds.Protocol.Object.parse_u64_integer
    localsend3ds.Protocol.Object.u64_digits
parse_prepare_upload-request = refl

parse_prepare_upload-IsRequest_example : Accepts IsRequest (parse_prepare_upload json none)
parse_prepare_upload-IsRequest_example = parse_prepare_upload-IsRequest json none
