-- ===== src/Protocol.antt =====
-- source/localsend_protocol.c and include/localsend_protocol.h: the messages of LocalSend v2.
pub mod Write
pub mod Decimal
pub mod Response
pub mod Object
pub mod Device
pub mod Prepare
pub mod Accepts
mod Tests
use localsend3ds.Prelude.{
  ℕ, Bool, true, false, Option, none, some, [], ◌∷◌, Bytes, ◌==◌, if◌then◌else◌, codes, str_eq,
}
use localsend3ds.Device.{DeviceType, mobile, desktop, web, headless, server}
use localsend3ds.Json.Cursor.{take_char}
use localsend3ds.Json.Scan.{Scanned, parsed, too_long, invalid, parse_string}

-- `LsParseResult` but for `LS_PARSE_OK`.
pub data ParseError : Type 0 where
  invalid_json missing_field duplicate_field value_too_long invalid_value : ParseError
  unsupported_version too_many_files : ParseError

-- `LS_PARSE_OK` with what is parsed, or the error.
pub data Parsed {ℓ} (A : Type ℓ) : Type ℓ where
  ok : A → Parsed A
  fail : ParseError → Parsed A

infixl 5 ◌>>=◌
abbrev pub ◌>>=◌ {ℓ κ} : {A : Type ℓ} {B : Type κ} → Parsed A → (A → Parsed B) → Parsed B
ok a >>= f = f a
fail e >>= f = fail e

abbrev pub or_fail {ℓ} : {A : Type ℓ} → ParseError → Option A → Parsed A
or_fail e none = fail e
or_fail e (some a) = ok a

-- `json_parse_result`
abbrev pub json_parse_result : Scanned → Parsed (Bytes × Bytes)
json_parse_result (parsed text rest) = ok (text, rest)
json_parse_result (too_long rest) = fail value_too_long
json_parse_result invalid = fail invalid_value

-- A key of an object, and the text behind its colon. An over-long key is reported as such whatever
-- stands behind it.
abbrev pub colon : Scanned → Parsed (Bytes × Bytes)
colon (parsed text rest) = or_fail invalid_json (take_char b':' rest) >>= λ r. ok (text, r)
colon (too_long rest) = fail value_too_long
colon invalid = fail invalid_json

-- `char key[32]`
unfoldable pub parse_key : ℕ → Bytes → Parsed (Bytes × Bytes)
parse_key capacity s = colon (parse_string (some capacity) s)

abbrev pub key_capacity : ℕ
key_capacity = 32

abbrev pub file_id_capacity : ℕ
file_id_capacity = 129

abbrev pub session_id_capacity : ℕ
session_id_capacity = 65

abbrev pub file_token_capacity : ℕ
file_token_capacity = 65

unfoldable pub parse_device_type : Bytes → DeviceType
parse_device_type value =
    if str_eq value (codes "mobile")
    then mobile
    else if str_eq value (codes "web")
    then web
    else if str_eq value (codes "headless")
    then headless
    else if str_eq value (codes "server")
    then server
    else desktop

unfoldable pub device_type_text : DeviceType → Bytes
device_type_text mobile = codes "mobile"
device_type_text web = codes "web"
device_type_text headless = codes "headless"
device_type_text server = codes "server"
device_type_text desktop = codes "desktop"
