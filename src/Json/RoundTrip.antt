-- ===== src/Json/RoundTrip.antt =====
-- `parse_string` reads what `writer_string` writes.
use localsend3ds.Prelude.{
  ℕ, ◌+◌, ◌/◌, ◌%◌, ◌≤◌, ◌<◌, ◌≡◌, ◌≢◌, refl, ap, ◌∙◌, false, inl, inr, Option, some, List, [], ◌∷◌,
  ◌++◌, append_assoc, append-nil, Bytes, leb, ltb, if◌then◌else◌, Bool-cases, ltb→lt, length,
  length-append, arith, take,
}
use localsend3ds.Utf8.{encode}
use localsend3ds.Utf8.Decode.{IsScalar, Decodes, sequence-encode}
use localsend3ds.Utf8.Text.{utf8, IsText}
use localsend3ds.Json.Cursor.{hex_value}
use localsend3ds.Json.Scan.{
  Output, append_byte, append_bytes, put, piece, parsed, too_long, string_loop, blank, closed,
  parse_string,
}
use localsend3ds.Json.Write.{escaped}

-- The bytes `bs` are one piece of a string, which stands for `out`.
abbrev Reads : Bytes → Bytes → Bytes → Type 0
Reads [] out rest = ⊥
Reads (h ∷ t) out rest = piece h (t ++ rest) ≡ put out (length t)

skip_lem :
    (capacity : Option ℕ) (o : Output) (t rest : Bytes)
    → string_loop capacity (length t) o (t ++ rest) ≡ string_loop capacity 0 o rest
unfolding string_loop
skip_lem capacity o [] rest = refl
skip_lem capacity o (c ∷ t) rest = skip_lem capacity o t rest

loop-Reads :
    (capacity : Option ℕ) (o : Output) (bs out rest : Bytes)
    → Reads bs out rest
    → string_loop capacity 0 o (bs ++ rest)
      ≡ string_loop capacity 0 (append_bytes capacity o out) rest
unfolding string_loop
loop-Reads capacity o [] out rest r = absurd r
loop-Reads capacity o (h ∷ t) out rest r =
    rw (r, string_loop) (skip_lem capacity (append_bytes capacity o out) t rest)

-- Every ASCII byte but NUL is read back from its escape.
Reads-escaped : (c : ℕ) (rest : Bytes) → c < 0x80 → c ≢ 0 → Reads (escaped c) (c ∷ []) rest
unfolding escaped piece hex_value encode
Reads-escaped c rest h n = elim (Bool-cases (ltb c 0x20)) [
  | inl low ↦ ground arith
  | inr high ↦ ground arith
]

escaped_high : (c : ℕ) → 0x80 ≤ c → escaped c ≡ c ∷ []
unfolding escaped
escaped_high c h = ground arith

-- What `writer_string` writes between the quotes.
abbrev pub escape_all : Bytes → Bytes
escape_all [] = []
escape_all (c ∷ cs) = escaped c ++ escape_all cs

encode_ascii : (c : ℕ) → c < 0x80 → encode c ≡ c ∷ []
unfolding encode
encode_ascii c h = ground arith

-- A code point past ASCII is copied byte by byte.
escape_all-encode : (cp : ℕ) → 0x80 ≤ cp → escape_all (encode cp) ≡ encode cp
unfolding encode
escape_all-encode cp h = elim (Bool-cases (leb cp 0x7ff)) [
  | inl b ↦ rw b (ground (arith, escaped_high (0xc0 + cp / 64), escaped_high (0x80 + cp % 64)))
  | inr b ↦ rw b (elim (Bool-cases (leb cp 0xffff)) [
    | inl c ↦ rw c (
        ground (
          arith,
          escaped_high (0xe0 + cp / 4096),
          escaped_high (0x80 + cp / 64 % 64),
          escaped_high (0x80 + cp % 64),
        ))
    | inr c ↦ rw c (
        ground (
          arith,
          escaped_high (0xf0 + cp / 262144),
          escaped_high (0x80 + cp / 4096 % 64),
          escaped_high (0x80 + cp / 64 % 64),
          escaped_high (0x80 + cp % 64),
        ))
  ])
]

take-length : (bs rest : Bytes) → take (length bs) (bs ++ rest) ≡ bs
take-length [] rest = refl
take-length (b ∷ bs) rest = ap (λ k. b ∷ k) (take-length bs rest)

abbrev IsHigh : Bytes → Type 0
IsHigh [] = ⊥
IsHigh (h ∷ t) = 0x80 ≤ h

encode-IsHigh : (cp : ℕ) → 0x80 ≤ cp → IsHigh (encode cp)
unfolding encode
encode-IsHigh cp h = ground arith

-- A whole sequence that the decoder accepts is one piece.
Reads-raw : (cp : ℕ) (bs rest : Bytes) → Decodes cp bs rest → IsHigh bs → Reads bs bs rest
unfolding piece
Reads-raw cp [] rest d h = absurd d
Reads-raw cp (b ∷ bs) rest d h = ground (arith, take-length bs rest)

-- Whatever code point is appended to the text, its bytes are read back from their escapes.
loop-code_point :
    (capacity : Option ℕ) (o : Output) (cp : ℕ) (rest : Bytes)
    → IsScalar cp
    → cp ≢ 0
    → string_loop capacity 0 o (escape_all (encode cp) ++ rest)
      ≡ string_loop capacity 0 (append_bytes capacity o (encode cp)) rest
loop-code_point capacity o cp rest s n = elim (Bool-cases (ltb cp 0x80)) [
  | inl low ↦
      rw (encode_ascii cp (ltb→lt cp 0x80 low), append-nil)
        (loop-Reads capacity o (escaped cp) (cp ∷ []) rest
          (Reads-escaped cp rest (ltb→lt cp 0x80 low) n))
  | inr high ↦
      let h : 0x80 ≤ cp = ground arith in
      rw (escape_all-encode cp h) (
        loop-Reads capacity o (encode cp) (encode cp) rest
          (Reads-raw cp (encode cp) rest (sequence-encode cp rest s) (encode-IsHigh cp h)))
]

escape_all-append : (a b : Bytes) → escape_all (a ++ b) ≡ escape_all a ++ escape_all b
escape_all-append [] b = refl
escape_all-append (c ∷ cs) b = rw (escape_all-append cs b, append_assoc)

append_bytes-append :
    (capacity : Option ℕ) (o : Output) (a b : Bytes)
    → append_bytes capacity o (a ++ b) ≡ append_bytes capacity (append_bytes capacity o a) b
unfolding append_bytes
append_bytes-append capacity o [] b = refl
append_bytes-append capacity o (x ∷ xs) b =
    append_bytes-append capacity (append_byte capacity o x) xs b

loop-text :
    (capacity : Option ℕ) (o : Output) (cps : List ℕ) (rest : Bytes)
    → IsText cps
    → string_loop capacity 0 o (escape_all (utf8 cps) ++ rest)
      ≡ string_loop capacity 0 (append_bytes capacity o (utf8 cps)) rest
unfolding append_bytes
loop-text capacity o [] rest t = refl
loop-text capacity o (cp ∷ cps) rest t =
    rw
      (
        escape_all-append (encode cp) (utf8 cps),
        append_assoc (escape_all (encode cp)) (escape_all (utf8 cps)) rest,
        loop-code_point capacity o cp (escape_all (utf8 cps) ++ rest) t.0.0 t.0.1,
        append_bytes-append capacity o (encode cp) (utf8 cps),
      )
      (loop-text capacity (append_bytes capacity o (encode cp)) cps rest t.1)

-- Bytes that fit are all appended.
append_bytes_fits :
    (capacity : ℕ) (o : Output) (bs : Bytes)
    → length o.text + length bs < capacity
    → append_bytes (some capacity) o bs ≡ record o { text = o.text ++ bs }
unfolding append_bytes append_byte
append_bytes_fits capacity o [] h = rw append-nil
append_bytes_fits capacity o (b ∷ bs) h =
    let room : leb capacity (length o.text + 1) ≡ false = ground arith in
    let longer : Output = record o { text = o.text ++ b ∷ [] } in
    rw room (
      append_bytes_fits capacity longer bs (omega (arith, length-append o.text (b ∷ [])))
      ∙ ap (λ t. record { text = t; fits = o.fits }) (append_assoc o.text (b ∷ []) bs))

append_bytes_stuck :
    (capacity : ℕ) (o : Output) (bs : Bytes)
    → o.fits ≡ false
    → (append_bytes (some capacity) o bs).fits ≡ false
unfolding append_bytes append_byte
append_bytes_stuck capacity o [] h = h
append_bytes_stuck capacity o (b ∷ bs) h =
    append_bytes_stuck capacity (append_byte (some capacity) o b) bs (ground arith)

-- Bytes that do not fit are noticed.
append_bytes_overflow :
    (capacity : ℕ) (o : Output) (bs : Bytes)
    → length o.text < capacity
    → capacity ≤ length o.text + length bs
    → (append_bytes (some capacity) o bs).fits ≡ false
unfolding append_bytes append_byte
append_bytes_overflow capacity o [] l h = absurd (omega arith)
append_bytes_overflow capacity o (b ∷ bs) l h =
    elim (Bool-cases (leb capacity (length o.text + 1))) [
      | inl full ↦
          rw (full, append_bytes) (append_bytes_stuck capacity (record o { fits = false }) bs refl)
      | inr room ↦
          rw (room, append_bytes)
            (append_bytes_overflow capacity (record o { text = o.text ++ b ∷ [] }) bs
              (ground (arith, length-append o.text (b ∷ [])))
              (omega (arith, length-append o.text (b ∷ []))))
    ]

-- The text that `writer_string` puts down.
abbrev pub quoted : Bytes → Bytes
quoted s = b'"' ∷ escape_all s ++ b'"' ∷ []

loop_closes :
    (capacity : ℕ) (o : Output) (rest : Bytes)
    → string_loop (some capacity) 0 o (b'"' ∷ rest) ≡ closed o rest
unfolding string_loop piece
loop_closes capacity o rest = refl

parse_quoted :
    (capacity : ℕ) (cps : List ℕ) (rest : Bytes)
    → IsText cps
    → parse_string (some capacity) (quoted (utf8 cps) ++ rest)
      ≡ closed (append_bytes (some capacity) blank (utf8 cps)) rest
unfolding parse_string
parse_quoted capacity cps rest t = rw (append_assoc (escape_all (utf8 cps)) (b'"' ∷ []) rest) (
    loop-text (some capacity) blank cps (b'"' ∷ rest) t
    ∙ loop_closes capacity (append_bytes (some capacity) blank (utf8 cps)) rest)

-- Whatever text of scalar values is written as a JSON string, reading it into a buffer gives the
-- same bytes and stops behind the closing quote, if they and a NUL fit; otherwise it answers
-- `too_long` there.
pub parse_string-quoted :
    (capacity : ℕ) (cps : List ℕ) (rest : Bytes)
    → IsText cps
    → 0 < capacity
    → parse_string (some capacity) (quoted (utf8 cps) ++ rest)
      ≡ (if ltb (length (utf8 cps)) capacity then parsed (utf8 cps) rest else too_long rest)
parse_string-quoted capacity cps rest t pos =
    parse_quoted capacity cps rest t ∙ (elim (Bool-cases (ltb (length (utf8 cps)) capacity)) [
      | inl room ↦ rw (
        room,
        append_bytes_fits capacity blank (utf8 cps)
            (omega (arith, ltb→lt (length (utf8 cps)) capacity room)),
      )
      | inr full ↦ rw (full, append_bytes_overflow capacity blank (utf8 cps) pos (ground arith))
    ])
