-- ===== src/Protocol/Prepare.antt =====
-- `ls_protocol_parse_prepare_upload`: who wants to send which file.

pub mod Accepted
mod Tests
use localsend3ds.Prelude.{
  ℕ, ◌+◌, ◌-◌, Bool, true, ◌&&◌, ◌||◌, not, Option, none, some, List, [], ◌∷◌, Bytes, ◌==◌, within,
  if◌then◌else◌, codes, str_eq, is_empty, length, take,
}
use localsend3ds.Device.{Device}
use localsend3ds.Transfer.{Metadata, PrepareUploadRequest, no_metadata}
use localsend3ds.Json.Cursor.{skip_whitespace, take_char, is_digit}
use localsend3ds.Json.Skip.{skip}
use localsend3ds.Protocol.{
  invalid_json, missing_field, invalid_value, too_many_files, Parsed, ok, fail, ◌>>=◌, or_fail,
  parse_key, file_id_capacity,
}
use localsend3ds.Protocol.Object.{
  member, parse_object, stored, passed, text_value, next_is_n, null_value, parse_u64_integer,
  valid_network_display_text,
}
use localsend3ds.Protocol.Device.{parse_device, no_device}

abbrev pub filename_capacity : ℕ
filename_capacity = 256

abbrev pub file_type_capacity : ℕ
file_type_capacity = 129

abbrev pub sha256_capacity : ℕ
sha256_capacity = 65

-- `isxdigit`
abbrev pub is_hex : ℕ → Bool
is_hex c = is_digit c || within b'a' b'f' c || within b'A' b'F' c

abbrev pub all_hex : Bytes → Bool
all_hex [] = true
all_hex (c ∷ cs) = is_hex c && all_hex cs

unfoldable pub valid_sha256 : Bytes → Bool
valid_sha256 value = length value == 64 && all_hex value

-- `tolower`
abbrev pub lower : ℕ → ℕ
lower c = if within b'A' b'Z' c then c + 32 else c

unfoldable pub lower_all : Bytes → Bytes
lower_all [] = []
lower_all (c ∷ cs) = lower c ∷ lower_all cs

-- The bit of the key.
unfoldable pub file_field : Bytes → ℕ
file_field key =
    if str_eq key (codes "id")
    then 1
    else if str_eq key (codes "fileName")
    then 2
    else if str_eq key (codes "size")
    then 4
    else if str_eq key (codes "fileType")
    then 8
    else if str_eq key (codes "sha256")
    then 16
    else 0

unfoldable pub name_of : Metadata → Bytes × Bytes → Parsed (Metadata × Bytes)
name_of out (text, rest) =
    if valid_network_display_text text true
    then ok (record out { file_name = text }, rest)
    else fail invalid_value

unfoldable pub sha256_of : Metadata → Bytes × Bytes → Parsed (Metadata × Bytes)
sha256_of out (text, rest) =
    if valid_sha256 text
    then ok (record out { sha256 = lower_all text; has_sha256 = true }, rest)
    else fail invalid_value

-- The value of a field.
unfoldable pub file_value : ℕ → Metadata → Bytes → Parsed (Metadata × Bytes)
unfolding name_of sha256_of
file_value field out s =
    if field == 1
    then stored (λ v. record out { id = v }) (text_value file_id_capacity s)
    else if field == 2
    then text_value filename_capacity s >>= name_of out
    else if field == 4
    then stored (λ v. record out { size = v }) (parse_u64_integer s)
    else if field == 8
    then stored (λ v. record out { file_type = v }) (text_value file_type_capacity s)
    else if field == 16
    then (if next_is_n (skip_whitespace s)
        then passed out (null_value s)
        else text_value sha256_capacity s >>= sha256_of out)
    else passed out (or_fail invalid_value (skip s))

abbrev pub has_file_fields : List ℕ → Bool
has_file_fields fields = member 1 fields && member 2 fields && member 4 fields && member 8 fields

-- What follows the loop.
unfoldable pub file_end : Metadata × List ℕ × Bytes → Parsed (Metadata × Bytes)
file_end (out, fields, s) =
    if not (has_file_fields fields) || is_empty out.id || is_empty out.file_name
    then fail missing_field
    else ok (out, s)

unfoldable pub parse_file_object : Bytes → Parsed (Metadata × Bytes)
unfolding file_end
parse_file_object s = parse_object file_field file_value no_metadata s >>= file_end

-- What stands behind the one file of the map.
abbrev pub map_closed : Metadata → Bytes → Parsed (Metadata × Bytes)
map_closed file [] = fail invalid_json
map_closed file (c ∷ cs) =
    if c == b','
    then fail too_many_files
    else if not (c == b'}')
    then fail invalid_json
    else ok (file, cs)

unfoldable pub map_end : Bytes → Metadata × Bytes → Parsed (Metadata × Bytes)
map_end map_id (file, s) =
    if not (str_eq map_id file.id) then fail invalid_value else map_closed file (skip_whitespace s)

unfoldable pub map_entry : Bytes × Bytes → Parsed (Metadata × Bytes)
map_entry (map_id, s) = parse_file_object s >>= map_end map_id

-- By the text behind a closing brace that stands next.
unfoldable pub map_opened : Bytes → Option Bytes → Parsed (Metadata × Bytes)
map_opened s (some rest) = fail missing_field
map_opened s none = parse_key file_id_capacity s >>= map_entry

unfoldable pub parse_single_file_map : Bytes → Parsed (Metadata × Bytes)
unfolding map_end map_entry map_opened
parse_single_file_map s =
    or_fail invalid_json (take_char b'{' s) >>= λ r. map_opened r (take_char b'}' r)

-- The bit of the key.
unfoldable pub prepare_field : Bytes → ℕ
prepare_field key =
    if str_eq key (codes "info") then 1 else if str_eq key (codes "files") then 2 else 0

-- `json + start`, of the length that `skip_value` went over.
abbrev pub skipped : Bytes → Bytes → Bytes
skipped s rest = take (length s - length rest) s

abbrev pub at_end : {A : Type 0} → Bytes → Parsed A → Parsed (A × Bytes)
at_end rest (ok a) = ok (a, rest)
at_end rest (fail e) = fail e

unfoldable pub info_of : Option Bytes → Bytes → Bytes → Parsed (Device × Bytes)
info_of source_ip s rest = at_end rest (parse_device (skipped s rest) source_ip)

-- The value of a field.
unfoldable pub prepare_value :
    Option Bytes → ℕ → PrepareUploadRequest → Bytes → Parsed (PrepareUploadRequest × Bytes)
unfolding info_of
prepare_value source_ip field out s =
    if field == 1
    then stored (λ v. record out { sender = v })
        (or_fail invalid_json (skip (skip_whitespace s)) >>= info_of source_ip (skip_whitespace s))
    else if field == 2
    then stored (λ v. record out { file = v }) (parse_single_file_map s)
    else passed out (or_fail invalid_json (skip s))

abbrev pub no_request : PrepareUploadRequest
no_request = record { sender = no_device; file = no_metadata }

-- What follows the loop.
unfoldable pub prepare_end : PrepareUploadRequest × List ℕ × Bytes → Parsed PrepareUploadRequest
prepare_end (out, fields, s) =
    if not (is_empty (skip_whitespace s))
    then fail invalid_json
    else if not (member 1 fields && member 2 fields)
    then fail missing_field
    else ok out

-- `ls_protocol_parse_prepare_upload`
unfoldable pub parse_prepare_upload : Bytes → Option Bytes → Parsed PrepareUploadRequest
unfolding prepare_end
parse_prepare_upload json source_ip =
    if is_empty json
    then fail invalid_json
    else parse_object prepare_field (prepare_value source_ip) no_request json >>= prepare_end
