-- ===== src/Protocol/Device.antt =====
-- `ls_protocol_parse_device`: a peer's description of itself.
pub mod Accepted
use localsend3ds.Prelude.{
  ℕ, zero, suc, ◌-◌, Bool, true, false, ◌&&◌, ◌||◌, not, Option, none, some, List, [], ◌∷◌, Bytes,
  ltb, leb, ◌==◌, if◌then◌else◌, codes, str_eq, is_empty, length,
}
use localsend3ds.Device.{Device, DeviceType, desktop, Protocol, http, https}
use localsend3ds.Json.Cursor.{is_digit, skip_whitespace}
use localsend3ds.Json.Skip.{skip}
use localsend3ds.Protocol.{
  invalid_json, missing_field, invalid_value, unsupported_version, Parsed, ok, fail, ◌>>=◌, or_fail,
  parse_device_type,
}
use localsend3ds.Protocol.Object.{
  member, members_loop, parse_object, stored, passed, text_value, next_is_n, null_value, parse_bool,
  parse_port, digits_loop, starts_with_digit, valid_network_display_text,
}

-- The capacities of the fields of `LsDevice`.
abbrev pub alias_capacity : ℕ
alias_capacity = 65

abbrev pub version_capacity : ℕ
version_capacity = 16

abbrev pub model_capacity : ℕ
model_capacity = 49

abbrev pub fingerprint_capacity : ℕ
fingerprint_capacity = 129

abbrev pub ipv4_capacity : ℕ
ipv4_capacity = 16

-- `memset`, and the type that is assumed.
abbrev pub no_device : Device
no_device = record {
  alias = [];
  version = [];
  device_model = [];
  device_type = desktop;
  fingerprint = [];
  ip_address = [];
  port = 0;
  protocol = http;
  download = false;
  announce = false;
  last_seen_ms = 0;
}

-- The bit of the key.
unfoldable pub device_field : Bytes → ℕ
device_field key =
    if str_eq key (codes "alias")
    then 1
    else if str_eq key (codes "version")
    then 2
    else if str_eq key (codes "deviceModel")
    then 4
    else if str_eq key (codes "deviceType")
    then 8
    else if str_eq key (codes "fingerprint")
    then 16
    else if str_eq key (codes "port")
    then 32
    else if str_eq key (codes "protocol")
    then 64
    else if str_eq key (codes "download")
    then 128
    else if str_eq key (codes "announce")
    then 256
    else 0

unfoldable pub model_value : Device → Bytes → Parsed (Device × Bytes)
model_value out s =
    if next_is_n (skip_whitespace s)
    then passed out (null_value s)
    else stored (λ v. record out { device_model = v }) (text_value model_capacity s)

unfoldable pub type_value : Device → Bytes → Parsed (Device × Bytes)
type_value out s =
    if next_is_n (skip_whitespace s)
    then passed out (null_value s)
    else stored (λ v. record out { device_type = parse_device_type v }) (text_value 16 s)

unfoldable pub protocol_of : Device → Bytes × Bytes → Parsed (Device × Bytes)
protocol_of out (text, rest) =
    if str_eq text (codes "http")
    then ok (record out { protocol = http }, rest)
    else if str_eq text (codes "https")
    then ok (record out { protocol = https }, rest)
    else fail invalid_value

-- The value of a field.
unfoldable pub device_value : ℕ → Device → Bytes → Parsed (Device × Bytes)
unfolding model_value type_value protocol_of
device_value field out s =
    if field == 1
    then stored (λ v. record out { alias = v }) (text_value alias_capacity s)
    else if field == 2
    then stored (λ v. record out { version = v }) (text_value version_capacity s)
    else if field == 4
    then model_value out s
    else if field == 8
    then type_value out s
    else if field == 16
    then stored (λ v. record out { fingerprint = v }) (text_value fingerprint_capacity s)
    else if field == 32
    then stored (λ v. record out { port = v }) (parse_port s)
    else if field == 64
    then text_value 8 s >>= protocol_of out
    else if field == 128
    then stored (λ v. record out { download = v }) (parse_bool s)
    else if field == 256
    then stored (λ v. record out { announce = v }) (parse_bool s)
    else passed out (or_fail invalid_value (skip s))

abbrev pub uint32_max : ℕ
uint32_max = 4294967295

-- `*current == '0' && isdigit(current[1])`
abbrev leading_zero : Bytes → Bool
leading_zero [] = false
leading_zero (c ∷ cs) = c == b'0' && starts_with_digit cs

abbrev number_of : Option (ℕ × ℕ × Bytes) → Option (ℕ × Bytes)
number_of none = none
number_of (some (n, count, rest)) = some (n, rest)

unfoldable pub parse_version_component : Bytes → Option (ℕ × Bytes)
parse_version_component s =
    if not (starts_with_digit s) || leading_zero s
    then none
    else number_of (digits_loop uint32_max 0 0 s)

abbrev ends : Option (ℕ × Bytes) → Bool
ends none = false
ends (some (minor, rest)) = is_empty rest

abbrev minor_follows : Bytes → Bool
minor_follows [] = false
minor_follows (c ∷ cs) = c == b'.' && ends (parse_version_component cs)

abbrev is_two : Option (ℕ × Bytes) → Bool
is_two none = false
is_two (some (major, rest)) = minor_follows rest && major == 2

unfoldable pub compatible_protocol_version : Bytes → Bool
unfolding parse_version_component
compatible_protocol_version version = is_two (parse_version_component version)

abbrev pub has_required : List ℕ → Bool
has_required fields =
    member 1 fields && member 2 fields && member 16 fields && member 32 fields && member 64 fields

-- `source_ip`, where it is not null.
unfoldable pub with_source : Option Bytes → Device → Parsed Device
with_source none out = ok out
with_source (some ip) out =
    if leb ipv4_capacity (length ip)
    then fail invalid_value
    else ok (record out { ip_address = ip })

-- What follows the loop.
unfoldable pub device_end : Option Bytes → Device × List ℕ × Bytes → Parsed Device
unfolding with_source
device_end source_ip (out, fields, s) =
    if not (is_empty (skip_whitespace s))
    then fail invalid_json
    else if not (has_required fields) || is_empty out.alias || is_empty out.fingerprint
    then fail missing_field
    else if not (valid_network_display_text out.alias false)
        || not (valid_network_display_text out.device_model true)
    then fail invalid_value
    else if not (compatible_protocol_version out.version)
    then fail unsupported_version
    else with_source source_ip out

-- `ls_protocol_parse_device`
unfoldable pub parse_device : Bytes → Option Bytes → Parsed Device
unfolding device_end
parse_device json source_ip =
    if is_empty json
    then fail invalid_json
    else parse_object device_field device_value no_device json >>= device_end source_ip
