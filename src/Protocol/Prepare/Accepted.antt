-- ===== src/Protocol/Prepare/Accepted.antt =====
-- The prepare requests that `ls_protocol_parse_prepare_upload` accepts.
use localsend3ds.Prelude.{
  ℕ, suc, ◌+◌, ◌-◌, ◌*◌, ◌/◌, ◌≤◌, ◌<◌, ◌≡◌, ◌≢◌, refl, sym, ap, Bool, true, false, not, ◌||◌, ◌&&◌,
  Option, none, some, List, [], ◌∷◌, Bytes, ltb, ◌==◌, within, Bool-cases, Option-cases, inl, inr,
  length, is_empty, str_eq, arith,
}
use localsend3ds.Device.{Device}
use localsend3ds.Transfer.{Metadata, PrepareUploadRequest, no_metadata}
use localsend3ds.Json.Cursor.{is_digit, skip_whitespace, take_char}
use localsend3ds.Json.Skip.{skip}
use localsend3ds.Protocol.{
  Parsed, ok, fail, ◌>>=◌, or_fail, invalid_value, invalid_json, parse_key, file_id_capacity,
}
use localsend3ds.Protocol.Object.{
  member, set_once, text_value, next_is_n, null_value, digits_loop, parse_u64_integer, uint64_max,
  valid_network_display_text, display_loop, parse_object, u64_digits, starts_with_digit,
}
use localsend3ds.Protocol.Accepts.{
  Accepts, then-Accepts, any-Accepts, if-Accepts, stored-Accepts, passed-Accepts,
  text_value-Accepts, set_once-member, parse_object-Accepts,
}
use localsend3ds.Protocol.Device.{parse_device}
use localsend3ds.Protocol.Device.Accepted.{IsAccepted, parse_device-IsAccepted}
use localsend3ds.Protocol.Prepare.{
  filename_capacity, file_type_capacity, sha256_capacity, is_hex, all_hex, valid_sha256, lower,
  lower_all, file_field, name_of, sha256_of, file_value, file_end, parse_file_object, map_closed,
  map_end, map_entry, map_opened, parse_single_file_map, prepare_field, prepare_value, info_of,
  at_end, skipped, prepare_end, no_request, parse_prepare_upload, has_file_fields,
}

-- A lower-case hexadecimal digit.
abbrev pub is_lower_hex : ℕ → Bool
is_lower_hex c = is_digit c || within b'a' b'f' c

abbrev pub all_lower_hex : Bytes → Bool
all_lower_hex [] = true
all_lower_hex (c ∷ cs) = is_lower_hex c && all_lower_hex cs

length-lower_all : (s : Bytes) → length (lower_all s) ≡ length s
unfolding lower_all
length-lower_all [] = refl
length-lower_all (c ∷ cs) = ap suc (length-lower_all cs)

lower_hex_lem : (c : ℕ) → is_hex c ≡ true → is_lower_hex (lower c) ≡ true
lower_hex_lem c h = ground arith

all_lower_hex-lower_all : (s : Bytes) → all_hex s ≡ true → all_lower_hex (lower_all s) ≡ true
unfolding lower_all
all_lower_hex-lower_all [] h = refl
all_lower_hex-lower_all (c ∷ cs) h =
    let head : is_lower_hex (lower c) ≡ true = lower_hex_lem c (ground arith) in
    let tail : all_lower_hex (lower_all cs) ≡ true = all_lower_hex-lower_all cs (ground arith) in
    rw (head, tail) refl

-- What holds of a file's fields while they are read, and after.
pub record FileFits (m : Metadata) : Type 0 where
  pub id_fits : length m.id < file_id_capacity
  pub name_fits : length m.file_name < filename_capacity
  pub type_fits : length m.file_type < file_type_capacity
  pub size_fits : m.size ≤ uint64_max
  pub name_shown : valid_network_display_text m.file_name true ≡ true
  pub digest : m.has_sha256 ≡ true → (length m.sha256 ≡ 64) × (all_lower_hex m.sha256 ≡ true)

digits_loop-fits :
    (max n count : ℕ) (s : Bytes) {m k : ℕ} {rest : Bytes}
    → 9 ≤ max
    → n ≤ max
    → digits_loop max n count s ≡ some (m, k, rest)
    → m ≤ max
unfolding digits_loop
digits_loop-fits max n count [] h l e = ground arith
digits_loop-fits max n count (c ∷ cs) h l e = elim (Bool-cases (not (is_digit c))) [
  | inl d ↦ ground arith
  | inr d ↦ elim (Bool-cases (ltb ((max - (c - b'0')) / 10) n)) [
    | inl b ↦ absurd (cc (rw (d, b) at e))
    | inr b ↦
        digits_loop-fits max (n * 10 + (c - b'0')) (suc count) cs h (ground arith) (rw (d, b) at e)
  ]
]

u64_digits-Accepts : (s : Bytes) → Accepts (λ t. t.0 ≤ uint64_max) (u64_digits s)
unfolding u64_digits
u64_digits-Accepts [] = tt
u64_digits-Accepts (c ∷ cs) =
    if-Accepts (λ t. t.0 ≤ uint64_max) (c == b'0') _ _
      (λ z.
        if-Accepts (λ t. t.0 ≤ uint64_max) (starts_with_digit cs) _ _ (λ d. tt) (λ d. omega arith))
      (λ z. elim (Option-cases (digits_loop uint64_max 0 0 (c ∷ cs))) [
        | inl n ↦ rw n tt
        | inr ((m, k, rest), e) ↦
            let fits = digits_loop-fits uint64_max 0 0 (c ∷ cs) (omega arith) (omega arith) e in
            rw e (
              if-Accepts (λ t. t.0 ≤ uint64_max) (k == 0) (fail invalid_value) (ok (m, rest))
                (λ y. tt) (λ y. fits))
      ])

abbrev Kept : Metadata × Bytes → Type 0
Kept t = FileFits t.0

name_of-Kept :
    (out : Metadata) (t : Bytes × Bytes)
    → FileFits out
    → length t.0 < filename_capacity
    → Accepts Kept (name_of out t)
unfolding name_of
name_of-Kept out (text, rest) v l =
    if-Accepts Kept (valid_network_display_text text true) _ _ (λ b. ground arith) (λ b. tt)

sha256_of-Kept :
    (out : Metadata) (t : Bytes × Bytes) → FileFits out → Accepts Kept (sha256_of out t)
unfolding sha256_of valid_sha256
sha256_of-Kept out (text, rest) v =
    if-Accepts Kept (length text == 64 && all_hex text) _ _
      (λ b.
        let size = length-lower_all text in
        let hex : all_lower_hex (lower_all text) ≡ true =
          all_lower_hex-lower_all text (ground arith) in
        ground arith)
      (λ b. tt)

size_fits : (s : Bytes) → Accepts (λ t. t.0 ≤ uint64_max) (parse_u64_integer s)
unfolding parse_u64_integer
size_fits s = u64_digits-Accepts (skip_whitespace s)

-- The value of any field keeps what holds of the file.
file_value-Kept :
    (field : ℕ) (fields set : List ℕ) (out : Metadata) (s : Bytes)
    → set_once field fields ≡ some set
    → FileFits out
    → Accepts Kept (file_value field out s)
unfolding file_value
file_value-Kept field fields set out s e v =
    if-Accepts Kept (field == 1) _ _
      (λ b.
        stored-Accepts (λ a. length a < file_id_capacity) FileFits (λ a. record out { id = a })
          (text_value file_id_capacity s) (text_value-Accepts file_id_capacity s (omega arith))
          (λ a l. ground arith))
      (λ n1.
        if-Accepts Kept (field == 2) _ _
          (λ b.
            then-Accepts (λ t. length t.0 < filename_capacity) Kept (text_value filename_capacity s)
              (name_of out) (text_value-Accepts filename_capacity s (omega arith))
              (λ t l. name_of-Kept out t v l))
          (λ n2.
            if-Accepts Kept (field == 4) _ _
              (λ b.
                stored-Accepts (λ n. n ≤ uint64_max) FileFits (λ n. record out { size = n })
                  (parse_u64_integer s) (size_fits s) (λ n l. ground arith))
              (λ n3.
                if-Accepts Kept (field == 8) _ _
                  (λ b.
                    stored-Accepts (λ a. length a < file_type_capacity) FileFits
                      (λ a. record out { file_type = a }) (text_value file_type_capacity s)
                      (text_value-Accepts file_type_capacity s (omega arith)) (λ a l. ground arith))
                  (λ n4.
                    if-Accepts Kept (field == 16) _ _
                      (λ b.
                        if-Accepts Kept (next_is_n (skip_whitespace s)) _ _
                          (λ d. passed-Accepts FileFits out (null_value s) v)
                          (λ d.
                            then-Accepts (λ t. Unit) Kept (text_value sha256_capacity s)
                              (sha256_of out) (any-Accepts (text_value sha256_capacity s))
                              (λ t u. sha256_of-Kept out t v)))
                      (λ n5. passed-Accepts FileFits out (or_fail invalid_value (skip s)) v)))))

-- A file that can be offered to the user.
pub record IsOffer (m : Metadata) : Type 0 where
  pub file_fits : FileFits m
  pub identified : is_empty m.id ≡ false
  pub named : is_empty m.file_name ≡ false

abbrev Offered : Metadata × Bytes → Type 0
Offered t = IsOffer t.0

file_end-Offered : (t : Metadata × List ℕ × Bytes) → FileFits t.0 → Accepts Offered (file_end t)
unfolding file_end
file_end-Offered (out, fields, s) v =
    if-Accepts Offered (not (has_file_fields fields) || is_empty out.id || is_empty out.file_name) _
      _ (λ b. tt) (λ b. record { file_fits = v; identified = ground arith; named = ground arith })

no_metadata-FileFits : FileFits no_metadata
unfolding valid_network_display_text display_loop
no_metadata-FileFits = ground arith

parse_file_object-Offered : (s : Bytes) → Accepts Offered (parse_file_object s)
unfolding parse_file_object
parse_file_object-Offered s =
    then-Accepts (λ t. FileFits t.0) Offered (parse_object file_field file_value no_metadata s)
      file_end
      (parse_object-Accepts file_field file_value (λ fields m. FileFits m) file_value-Kept
        no_metadata s no_metadata-FileFits)
      file_end-Offered

map_closed-Offered : (m : Metadata) (s : Bytes) → IsOffer m → Accepts Offered (map_closed m s)
map_closed-Offered m [] h = tt
map_closed-Offered m (c ∷ cs) h =
    if-Accepts Offered (c == b',') _ _ (λ b. tt)
      (λ b. if-Accepts Offered (not (c == b'}')) _ _ (λ d. tt) (λ d. h))

map_end-Offered : (id : Bytes) (t : Metadata × Bytes) → IsOffer t.0 → Accepts Offered (map_end id t)
unfolding map_end
map_end-Offered id (m, s) h =
    if-Accepts Offered (not (str_eq id m.id)) _ _ (λ b. tt)
      (λ b. map_closed-Offered m (skip_whitespace s) h)

map_entry-Offered : (t : Bytes × Bytes) → Accepts Offered (map_entry t)
unfolding map_entry
map_entry-Offered (id, s) =
    then-Accepts Offered Offered (parse_file_object s) (map_end id) (parse_file_object-Offered s)
      (map_end-Offered id)

map_opened-Offered : (s : Bytes) (o : Option Bytes) → Accepts Offered (map_opened s o)
unfolding map_opened
map_opened-Offered s (some rest) = tt
map_opened-Offered s none =
    then-Accepts (λ t. Unit) Offered (parse_key file_id_capacity s) map_entry
      (any-Accepts (parse_key file_id_capacity s)) (λ t u. map_entry-Offered t)

parse_single_file_map-Offered : (s : Bytes) → Accepts Offered (parse_single_file_map s)
unfolding parse_single_file_map
parse_single_file_map-Offered s =
    then-Accepts (λ r. Unit) Offered (or_fail invalid_json (take_char b'{' s)) _
      (any-Accepts (or_fail invalid_json (take_char b'{' s)))
      (λ r u. map_opened-Offered r (take_char b'}' r))

-- What holds of a request once the fields are read.
record Draft (fields : List ℕ) (q : PrepareUploadRequest) : Type 0 where
  info_set : member 1 fields ≡ true → IsAccepted q.sender
  files_set : member 2 fields ≡ true → IsOffer q.file

abbrev Drafted : List ℕ → PrepareUploadRequest × Bytes → Type 0
Drafted set t = Draft set t.0

info_of-IsAccepted :
    (ip : Option Bytes) (s rest : Bytes) → Accepts (λ t. IsAccepted t.0) (info_of ip s rest)
unfolding info_of
info_of-IsAccepted ip s rest =
    kept (parse_device (skipped s rest) ip) (parse_device-IsAccepted (skipped s rest) ip)
  where
    kept :
        (p : Parsed Device) → Accepts IsAccepted p → Accepts (λ t. IsAccepted t.0) (at_end rest p)
    kept (ok d) h = h
    kept (fail e) h = tt

-- A field that was set before, if it is not the one that is set now.
set_before :
    (x field : ℕ) (fields : List ℕ) {set : List ℕ}
    → set_once field fields ≡ some set
    → field ≢ x
    → member x set ≡ true
    → member x fields ≡ true
set_before x field fields e n h = elim (set_once-member x field fields e h) [
  | inl q ↦ absurd (n (sym q))
  | inr q ↦ q
]

prepare_value-Draft :
    (ip : Option Bytes) (field : ℕ) (fields set : List ℕ) (out : PrepareUploadRequest) (s : Bytes)
    → set_once field fields ≡ some set
    → Draft fields out
    → Accepts (Drafted set) (prepare_value ip field out s)
unfolding prepare_value
prepare_value-Draft ip field fields set out s e v =
    if-Accepts (Drafted set) (field == 1) _ _
      (λ b.
        stored-Accepts IsAccepted (Draft set) (λ d. record out { sender = d })
          (or_fail invalid_json (skip (skip_whitespace s)) >>= info_of ip (skip_whitespace s))
          (then-Accepts (λ r. Unit) (λ t. IsAccepted t.0)
            (or_fail invalid_json (skip (skip_whitespace s))) (info_of ip (skip_whitespace s))
            (any-Accepts (or_fail invalid_json (skip (skip_whitespace s))))
            (λ r u. info_of-IsAccepted ip (skip_whitespace s) r))
          (λ d h. record {
            info_set = λ m. h;
            files_set = λ m. v.files_set (set_before 2 field fields e (ground arith) m);
          }))
      (λ n1.
        if-Accepts (Drafted set) (field == 2) _ _
          (λ b.
            stored-Accepts IsOffer (Draft set) (λ f. record out { file = f })
              (parse_single_file_map s) (parse_single_file_map-Offered s)
              (λ f h. record {
                info_set = λ m. v.info_set (set_before 1 field fields e (ground arith) m);
                files_set = λ m. h;
              }))
          (λ n2. passed-Accepts (Draft set) out (or_fail invalid_json (skip s)) (record {
            info_set = λ m. v.info_set (set_before 1 field fields e (ground arith) m);
            files_set = λ m. v.files_set (set_before 2 field fields e (ground arith) m);
          })))

-- A request that can be shown to the user.
pub record IsRequest (q : PrepareUploadRequest) : Type 0 where
  pub from_peer : IsAccepted q.sender
  pub of_file : IsOffer q.file

prepare_end-IsRequest :
    (t : PrepareUploadRequest × List ℕ × Bytes) → Draft t.1 t.0 → Accepts IsRequest (prepare_end t)
unfolding prepare_end
prepare_end-IsRequest (out, fields, s) v =
    if-Accepts IsRequest (not (is_empty (skip_whitespace s))) _ _ (λ b. tt)
      (λ b.
        if-Accepts IsRequest (not (member 1 fields && member 2 fields)) _ _ (λ c. tt)
          (λ c. record {
            from_peer = v.info_set (ground arith);
            of_file = v.files_set (ground arith);
          }))

-- Whatever text comes from the network, a request that `ls_protocol_parse_prepare_upload` accepts
-- names an acceptable device and one file, whose id, name and type fit their buffers and whose size
-- fits 64 bits; id and name are not empty, the name holds no control character, and a checksum, if
-- there is one, is 64 lower-case hexadecimal digits.
pub parse_prepare_upload-IsRequest :
    (json : Bytes) (source_ip : Option Bytes)
    → Accepts IsRequest (parse_prepare_upload json source_ip)
unfolding parse_prepare_upload
parse_prepare_upload-IsRequest json ip =
    if-Accepts IsRequest (is_empty json) _ _ (λ b. tt)
      (λ b.
        then-Accepts (λ t. Draft t.1 t.0) IsRequest
          (parse_object prepare_field (prepare_value ip) no_request json) prepare_end
          (parse_object-Accepts prepare_field (prepare_value ip) Draft (prepare_value-Draft ip)
            no_request json (record { info_set = λ m. cc; files_set = λ m. cc }))
          prepare_end-IsRequest)
