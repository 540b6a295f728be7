-- ===== src/Protocol/Device/Accepted.antt =====
-- The devices that `ls_protocol_parse_device` accepts.
use localsend3ds.Prelude.{
  ℕ, ◌+◌, ◌-◌, ◌*◌, ◌≤◌, ◌<◌, ◌≡◌, ◌≢◌, sym, Bool, true, false, not, ◌||◌, Option, none, some, List,
  [], ◌∷◌, Bytes, ltb, leb, ◌==◌, if◌then◌else◌, Bool-cases, Option-cases, inl, inr, length,
  is_empty, str_eq, codes, arith,
}
use localsend3ds.Device.{Device}
use localsend3ds.Json.Cursor.{is_digit, skip_whitespace}
use localsend3ds.Json.Skip.{skip}
use localsend3ds.Protocol.{ok, fail, ◌>>=◌, or_fail, invalid_value, parse_device_type}
use localsend3ds.Protocol.Object.{
  member, set_once, parse_object, stored, passed, text_value, next_is_n, null_value, port_loop,
  parse_port, parse_bool, valid_network_display_text,
}
use localsend3ds.Protocol.Accepts.{
  Accepts, then-Accepts, any-Accepts, if-Accepts, stored-Accepts, passed-Accepts,
  text_value-Accepts, set_once-member, parse_object-Accepts,
}
use localsend3ds.Protocol.Device.{
  alias_capacity, version_capacity, model_capacity, fingerprint_capacity, ipv4_capacity, no_device,
  device_field, device_value, model_value, type_value, protocol_of, device_end, parse_device,
  compatible_protocol_version, with_source, has_required,
}

-- What holds of the fields while they are read.
pub record Draft (fields : List ℕ) (d : Device) : Type 0 where
  pub alias_fits : length d.alias < alias_capacity
  pub version_fits : length d.version < version_capacity
  pub model_fits : length d.device_model < model_capacity
  pub fingerprint_fits : length d.fingerprint < fingerprint_capacity
  pub ip_fits : length d.ip_address < ipv4_capacity
  pub port_fits : d.port ≤ 65535
  pub port_set : member 32 fields ≡ true → 0 < d.port

port_loop-fits :
    (n : ℕ) (s : Bytes) {m : ℕ} {rest : Bytes}
    → n ≤ 65535
    → port_loop n s ≡ some (m, rest)
    → m ≤ 65535
unfolding port_loop
port_loop-fits n [] h e = ground arith
port_loop-fits n (c ∷ cs) {m} {rest} h e = elim (Bool-cases (not (is_digit c))) [
  | inl d ↦ ground arith
  | inr d ↦ elim (Bool-cases (ltb 65535 (n * 10 + (c - b'0')))) [
    | inl b ↦ absurd (cc (rw (d, b) at e))
    | inr b ↦ port_loop-fits (n * 10 + (c - b'0')) cs (ground arith) (rw (d, b) at e)
  ]
]

abbrev IsPort : ℕ → Type 0
IsPort n = (0 < n) × (n ≤ 65535)

parse_port-Accepts : (s : Bytes) → Accepts (λ t. IsPort t.0) (parse_port s)
unfolding parse_port
parse_port-Accepts s = elim (Option-cases (port_loop 0 (skip_whitespace s))) [
  | inl n ↦ rw n tt
  | inr ((m, rest), e) ↦
      let fits = port_loop-fits 0 (skip_whitespace s) (omega arith) e in
      rw e (
        if-Accepts (λ t. IsPort t.0) (m == 0) (fail invalid_value) (ok (m, rest)) (λ z. tt)
          (λ z. ground arith))
]

-- A field that is not the port keeps what holds of it.
other_port :
    (field : ℕ) (fields : List ℕ) {set : List ℕ} (d : Device)
    → set_once field fields ≡ some set
    → field ≢ 32
    → Draft fields d
    → member 32 set ≡ true
    → 0 < d.port
other_port field fields d e n v h = elim (set_once-member 32 field fields e h) [
  | inl q ↦ absurd (n (sym q))
  | inr q ↦ v.port_set q
]

moved :
    (field : ℕ) (fields : List ℕ) {set : List ℕ} (d : Device)
    → set_once field fields ≡ some set
    → field ≢ 32
    → Draft fields d
    → Draft set d
moved field fields {set} d e n v =
    let port : member 32 set ≡ true → 0 < d.port = other_port field fields d e n v in ground arith

abbrev Kept : List ℕ → Device × Bytes → Type 0
Kept set t = Draft set t.0

module _ (set : List ℕ) (out : Device) (s : Bytes) (v : Draft set out) where
  alias-Kept :
      Accepts (Kept set) (stored (λ a. record out { alias = a }) (text_value alias_capacity s))
  alias-Kept =
      stored-Accepts (λ a. length a < alias_capacity) (Draft set) (λ a. record out { alias = a })
        (text_value alias_capacity s) (text_value-Accepts alias_capacity s (omega arith))
        (λ a l. ground arith)

  version-Kept :
      Accepts (Kept set) (stored (λ a. record out { version = a }) (text_value version_capacity s))
  version-Kept =
      stored-Accepts (λ a. length a < version_capacity) (Draft set)
        (λ a. record out { version = a }) (text_value version_capacity s)
        (text_value-Accepts version_capacity s (omega arith)) (λ a l. ground arith)

  model-Kept : Accepts (Kept set) (model_value out s)
  unfolding model_value
  model-Kept =
      if-Accepts (Kept set) (next_is_n (skip_whitespace s)) _ _
        (λ b. passed-Accepts (Draft set) out (null_value s) v)
        (λ b.
          stored-Accepts (λ a. length a < model_capacity) (Draft set)
            (λ a. record out { device_model = a }) (text_value model_capacity s)
            (text_value-Accepts model_capacity s (omega arith)) (λ a l. ground arith))

  type-Kept : Accepts (Kept set) (type_value out s)
  unfolding type_value
  type-Kept =
      if-Accepts (Kept set) (next_is_n (skip_whitespace s)) _ _
        (λ b. passed-Accepts (Draft set) out (null_value s) v)
        (λ b.
          stored-Accepts (λ a. length a < 16) (Draft set)
            (λ a. record out { device_type = parse_device_type a }) (text_value 16 s)
            (text_value-Accepts 16 s (omega arith)) (λ a l. ground arith))

  fingerprint-Kept :
      Accepts
        (Kept set)
        (stored (λ a. record out { fingerprint = a }) (text_value fingerprint_capacity s))
  fingerprint-Kept =
      stored-Accepts (λ a. length a < fingerprint_capacity) (Draft set)
        (λ a. record out { fingerprint = a }) (text_value fingerprint_capacity s)
        (text_value-Accepts fingerprint_capacity s (omega arith)) (λ a l. ground arith)

  protocol_of-Kept : (t : Bytes × Bytes) → Accepts (Kept set) (protocol_of out t)
  unfolding protocol_of
  protocol_of-Kept (text, rest) =
      if-Accepts (Kept set) (str_eq text (codes "http")) _ _ (λ b. ground arith)
        (λ b. if-Accepts (Kept set) (str_eq text (codes "https")) _ _ (λ d. ground arith) (λ d. tt))

  protocol-Kept : Accepts (Kept set) (text_value 8 s >>= protocol_of out)
  protocol-Kept =
      then-Accepts (λ t. Unit) (Kept set) (text_value 8 s) (protocol_of out)
        (any-Accepts (text_value 8 s)) (λ t u. protocol_of-Kept t)

  flag-Kept :
      (put : Bool → Device)
      → ((b : Bool) → Draft set (put b))
      → Accepts (Kept set) (stored put (parse_bool s))
  flag-Kept put k =
      stored-Accepts (λ b. Unit) (Draft set) put (parse_bool s) (any-Accepts (parse_bool s))
        (λ b u. k b)

port-Kept :
    (fields set : List ℕ) (out : Device) (s : Bytes)
    → Draft fields out
    → Accepts (Kept set) (stored (λ a. record out { port = a }) (parse_port s))
port-Kept fields set out s v =
    stored-Accepts IsPort (Draft set) (λ a. record out { port = a }) (parse_port s)
      (parse_port-Accepts s) (λ a l. ground arith)

-- The value of any field keeps what holds of the fields.
device_value-Draft :
    (field : ℕ) (fields set : List ℕ) (out : Device) (s : Bytes)
    → set_once field fields ≡ some set
    → Draft fields out
    → Accepts (Kept set) (device_value field out s)
unfolding device_value
device_value-Draft field fields set out s e v =
    let same = λ (n : field ≢ 32). moved field fields out e n v in
    if-Accepts (Kept set) (field == 1) _ _ (λ b. alias-Kept set out s (same (ground arith)))
      (λ n1.
        if-Accepts (Kept set) (field == 2) _ _ (λ b. version-Kept set out s (same (ground arith)))
          (λ n2.
            if-Accepts (Kept set) (field == 4) _ _ (λ b. model-Kept set out s (same (ground arith)))
              (λ n3.
                if-Accepts (Kept set) (field == 8) _ _
                  (λ b. type-Kept set out s (same (ground arith)))
                  (λ n4.
                    if-Accepts (Kept set) (field == 16) _ _
                      (λ b. fingerprint-Kept set out s (same (ground arith)))
                      (λ n5.
                        if-Accepts (Kept set) (field == 32) _ _ (λ b. port-Kept fields set out s v)
                          (λ n6. others n6))))))
  where
    others :
        (field == 32) ≡ false
        → Accepts (Kept set) (
            if field == 64
            then text_value 8 s >>= protocol_of out
            else if field == 128
            then stored (λ a. record out { download = a }) (parse_bool s)
            else if field == 256
            then stored (λ a. record out { announce = a }) (parse_bool s)
            else passed out (or_fail invalid_value (skip s)))
    others n =
        let w : Draft set out = moved field fields out e (ground arith) v in
        if-Accepts (Kept set) (field == 64) _ _ (λ b. protocol-Kept set out s w)
          (λ n7.
            if-Accepts (Kept set) (field == 128) _ _
              (λ b. flag-Kept set out s w (λ a. record out { download = a }) (λ a. ground arith))
              (λ n8.
                if-Accepts (Kept set) (field == 256) _ _
                  (λ b.
                    flag-Kept set out s w (λ a. record out { announce = a }) (λ a. ground arith))
                  (λ n9. passed-Accepts (Draft set) out (or_fail invalid_value (skip s)) w)))

-- A device that the registry and the user interface can take as it is.
pub record IsAccepted (d : Device) : Type 0 where
  pub alias_fits : length d.alias < alias_capacity
  pub version_fits : length d.version < version_capacity
  pub model_fits : length d.device_model < model_capacity
  pub fingerprint_fits : length d.fingerprint < fingerprint_capacity
  pub ip_fits : length d.ip_address < ipv4_capacity
  pub is_port : (0 < d.port) × (d.port ≤ 65535)
  pub named : is_empty d.alias ≡ false
  pub identified : is_empty d.fingerprint ≡ false
  pub alias_shown : valid_network_display_text d.alias false ≡ true
  pub model_shown : valid_network_display_text d.device_model true ≡ true
  pub compatible : compatible_protocol_version d.version ≡ true

with_source-IsAccepted :
    (o : Option Bytes) (d : Device) → IsAccepted d → Accepts IsAccepted (with_source o d)
unfolding with_source
with_source-IsAccepted none d h = h
with_source-IsAccepted (some ip) d h =
    if-Accepts IsAccepted (leb ipv4_capacity (length ip)) _ _ (λ b. tt) (λ b. ground arith)

device_end-IsAccepted :
    (source_ip : Option Bytes) (t : Device × List ℕ × Bytes)
    → Draft t.1 t.0
    → Accepts IsAccepted (device_end source_ip t)
unfolding device_end
device_end-IsAccepted source_ip (out, fields, s) v =
    if-Accepts IsAccepted (not (is_empty (skip_whitespace s))) _ _ (λ b. tt)
      (λ b.
        if-Accepts IsAccepted
          (not (has_required fields) || is_empty out.alias || is_empty out.fingerprint) _ _
          (λ c. tt)
          (λ c.
            if-Accepts IsAccepted
              (not (valid_network_display_text out.alias false)
                || not (valid_network_display_text out.device_model true))
              _ _ (λ d. tt)
              (λ d.
                if-Accepts IsAccepted (not (compatible_protocol_version out.version)) _ _ (λ f. tt)
                  (λ f. with_source-IsAccepted source_ip out (ground arith)))))

no_device-Draft : Draft [] no_device
no_device-Draft = ground arith

-- Whatever text comes from the network, a device that `ls_protocol_parse_device` accepts has an
-- alias, a version, a model, a fingerprint and an address that fit their buffers, the alias and the
-- fingerprint are not empty, the port is from 1 to 65535, alias and model hold no control character,
-- and the version is compatible.
pub parse_device-IsAccepted :
    (json : Bytes) (source_ip : Option Bytes) → Accepts IsAccepted (parse_device json source_ip)
unfolding parse_device
parse_device-IsAccepted json source_ip =
    if-Accepts IsAccepted (is_empty json) _ _ (λ b. tt)
      (λ b.
        then-Accepts (λ t. Draft t.1 t.0) IsAccepted
          (parse_object device_field device_value no_device json) (device_end source_ip)
          (parse_object-Accepts device_field device_value Draft device_value-Draft no_device json
            no_device-Draft)
          (λ t h. device_end-IsAccepted source_ip t h))
