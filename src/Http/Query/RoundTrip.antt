-- ===== src/Http/Query/RoundTrip.antt =====
-- The parameters that the sender writes are those that the recipient reads.
use localsend3ds.Prelude.{
  ℕ, ◌+◌, ◌≤◌, ◌<◌, ◌≡◌, refl, ap, ◌∙◌, some, [], ◌∷◌, ◌++◌, Bytes, leb, ◌==◌, length, All,
  Bool-cases, Option-cases, inl, inr, arith,
}
use localsend3ds.Json.Cursor.{hex_value}
use localsend3ds.Http.Query.{
  decoded_byte, store, decode_loop, percent_decode, is_safe, encoded_byte, encode_loop,
  query_encode,
}

-- A byte that a value may hold.
abbrev pub IsPrintable : ℕ → Type 0
IsPrintable c = (0x20 ≤ c) × (c < 256)

-- What is written for a text, without a limit.
abbrev pub encode_all : Bytes → Bytes
encode_all [] = []
encode_all (c ∷ cs) = encoded_byte c ++ encode_all cs

-- The bytes `bs` are read as one value.
abbrev Reads : Bytes → ℕ → Bytes → Type 0
Reads [] value rest = ⊥
Reads (h ∷ t) value rest = decoded_byte h (t ++ rest) ≡ some (value, length t)

Reads-encoded_byte : (c : ℕ) (rest : Bytes) → IsPrintable c → Reads (encoded_byte c) c rest
unfolding encoded_byte decoded_byte hex_value is_safe
Reads-encoded_byte c rest p = ground arith

skip_lem :
    (capacity written : ℕ) (t rest : Bytes)
    → decode_loop capacity written (length t) (t ++ rest) ≡ decode_loop capacity written 0 rest
unfolding decode_loop
skip_lem capacity written [] rest = refl
skip_lem capacity written (c ∷ t) rest = skip_lem capacity written t rest

loop-Reads :
    (capacity written : ℕ) (bs : Bytes) (value : ℕ) (rest : Bytes)
    → Reads bs value rest
    → decode_loop capacity written 0 (bs ++ rest)
      ≡ store capacity written value (decode_loop capacity (written + 1) 0 rest)
unfolding decode_loop
loop-Reads capacity written [] value rest r = absurd r
loop-Reads capacity written (h ∷ t) value rest r =
    rw (r, decode_loop) (ap (store capacity written value) (skip_lem capacity (written + 1) t rest))

store_fits :
    (capacity written value : ℕ) (more : Bytes)
    → 0x20 ≤ value
    → written + 1 < capacity
    → store capacity written value (some more) ≡ some (value ∷ more)
store_fits capacity written value more h l = ground arith

pub decode-encode_all :
    (capacity written : ℕ) (s : Bytes)
    → All IsPrintable s
    → written + length s < capacity
    → decode_loop capacity written 0 (encode_all s) ≡ some s
unfolding decode_loop
decode-encode_all capacity written [] p l = refl
decode-encode_all capacity written (c ∷ cs) p l =
    loop-Reads capacity written (encoded_byte c) c (encode_all cs)
      (Reads-encoded_byte c (encode_all cs) p.0)
    ∙ ap (store capacity written c) (decode-encode_all capacity (written + 1) cs p.1 (omega arith))
    ∙ store_fits capacity written c cs p.0.0 (omega arith)

-- What `query_encode` writes, if it fits.
encode_loop_lem :
    (capacity used : ℕ) (s : Bytes) {out : Bytes}
    → encode_loop capacity used s ≡ some out
    → out ≡ encode_all s
unfolding encode_loop
encode_loop_lem capacity used [] h = cc
encode_loop_lem capacity used (c ∷ cs) {out} h =
    elim (Option-cases (encode_loop capacity (used + length (encoded_byte c)) cs)) [
      | inl n ↦ absurd (cc (rw n at h))
      | inr (more, e) ↦
          let same : more ≡ encode_all cs =
            encode_loop_lem capacity (used + length (encoded_byte c)) cs e in
          elim (Bool-cases (leb capacity (used + length (encoded_byte c)))) [
            | inl full ↦ absurd (cc (rw (e, full) at h))
            | inr room ↦ cc (rw (e, room) at h, same)
          ]
    ]

pub query_encode_lem :
    (s : Bytes) (room : ℕ) {out : Bytes} → query_encode s room ≡ some out → out ≡ encode_all s
unfolding query_encode
query_encode_lem s room h = elim (Bool-cases (room == 0)) [
  | inl z ↦ absurd (cc (rw z at h))
  | inr z ↦ encode_loop_lem room 0 s (rw z at h)
]

-- A text of printable bytes that is shorter than the decoder's buffer, and that `query_encode` writes
-- in the room it has, is read back by `percent_decode`.
pub percent_decode-query_encode :
    (s : Bytes) (room capacity : ℕ) {out : Bytes}
    → All IsPrintable s
    → query_encode s room ≡ some out
    → length s < capacity
    → percent_decode capacity out ≡ some s
unfolding percent_decode query_encode
percent_decode-query_encode s room capacity {out} p h l = elim (Bool-cases (room == 0)) [
  | inl z ↦ absurd (cc (rw z at h))
  | inr z ↦
      rw (encode_loop_lem room 0 s (rw z at h)) (decode-encode_all capacity 0 s p (omega arith))
]
