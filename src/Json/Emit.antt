-- ===== src/Json/Emit.antt =====
-- What a chain of writes leaves: all of its text where that fits, and nothing otherwise.
use localsend3ds.Prelude.{
  ℕ, ◌+◌, ◌≤◌, ◌<◌, ◌≡◌, ap, ◌∙◌, Bool, true, false, inl, inr, none, some, [], ◌∷◌, ◌++◌,
  append_assoc, append-nil, Bytes, ltb, if◌then◌else◌, Bool-cases, ltb→lt, lt→ltb, if_true,
  if_false, length, length-append, arith,
}
use localsend3ds.Json.Write.{
  Writer, start, writer_bytes, escaped, writer_chars, writer_string, writer_field, writer_finish,
}
use localsend3ds.Json.RoundTrip.{escape_all, quoted}

-- `op` writes `bytes`, or fails if they and a NUL do not fit, or if a write before it failed.
pub record Emits (op : Writer → Writer) (bytes : Bytes) : Type 0 where
  pub fits :
      (w : Writer)
      → w.ok ≡ true
      → length w.text + length bytes < w.capacity
      → op w ≡ record w { text = w.text ++ bytes }
  pub fails :
      (w : Writer)
      → w.ok ≡ true
      → w.capacity ≤ length w.text + length bytes
      → length w.text < w.capacity
      → (op w).ok ≡ false
  pub stays : (w : Writer) → w.ok ≡ false → (op w).ok ≡ false

pub writer_bytes-Emits : (bytes : Bytes) → Emits (writer_bytes bytes) bytes
unfolding writer_bytes
writer_bytes-Emits bytes = record {
  fits = λ w o h. ground arith;
  fails = λ w o h l. ground arith;
  stays = λ w o. ground arith;
}

pub nothing-Emits : Emits (λ w. w) []
nothing-Emits = record {
  fits = λ w o h. rw append-nil;
  fails = λ w o h l. absurd (omega arith);
  stays = λ w o. o;
}

-- One write behind another.
pub then-Emits :
    {f g : Writer → Writer} {a b : Bytes} → Emits f a → Emits g b → Emits (λ w. g (f w)) (a ++ b)
then-Emits {f} {g} {a} {b} ea eb = record {
  fits = λ w o h.
      let room : length w.text + length a < w.capacity = omega (arith, length-append a b) in
      let longer : Writer = record w { text = w.text ++ a } in
      rw (ea.fits w o room) (
        eb.fits longer o (omega (arith, length-append a b, length-append w.text a))
        ∙ ap (λ t. record w { text = t }) (append_assoc w.text a b));
  fails = λ w o h l. elim (Bool-cases (ltb (length w.text + length a) w.capacity)) [
    | inl room ↦
        let longer : Writer = record w { text = w.text ++ a } in
        rw (ea.fits w o (ltb→lt (length w.text + length a) w.capacity room)) (
          eb.fails longer o (omega (arith, length-append a b, length-append w.text a)) (
            omega
              (arith, length-append w.text a, ltb→lt (length w.text + length a) w.capacity room)))
    | inr full ↦ eb.stays (f w) (ea.fails w o (ground arith) l)
  ];
  stays = λ w o. eb.stays (f w) (ea.stays w o);
}

abbrev ok_of : Writer → Bool
ok_of w = w.ok

writer_chars-Emits : (s : Bytes) → Emits (writer_chars s) (escape_all s)
unfolding writer_chars
writer_chars-Emits [] = nothing-Emits
writer_chars-Emits (c ∷ cs) =
    let e = then-Emits (writer_bytes-Emits (escaped c)) (writer_chars-Emits cs) in
    record {
      fits = λ w o h. if_true _ _ o ∙ e.fits w o h;
      fails = λ w o h l. ap ok_of (if_true _ _ o) ∙ e.fails w o h l;
      stays = λ w o. ap ok_of (if_false _ _ o) ∙ o;
    }

pub writer_string-Emits : (s : Bytes) → Emits (writer_string s) (quoted s)
unfolding writer_string
writer_string-Emits s =
    then-Emits (then-Emits (writer_bytes-Emits (b'"' ∷ [])) (writer_chars-Emits s))
      (writer_bytes-Emits (b'"' ∷ []))

-- A field of an object, with a comma before it or not.
abbrev pub field_text : Bytes → Bytes → Bool → Bytes
field_text name value comma =
    (if comma then b',' ∷ [] else []) ++ quoted name ++ b':' ∷ [] ++ quoted value

pub writer_field-Emits :
    (name value : Bytes) (comma : Bool)
    → Emits (writer_field name value comma) (field_text name value comma)
unfolding writer_field
writer_field-Emits name value false =
    then-Emits
      (then-Emits (then-Emits nothing-Emits (writer_string-Emits name))
        (writer_bytes-Emits (b':' ∷ [])))
      (writer_string-Emits value)
writer_field-Emits name value true =
    then-Emits
      (then-Emits (then-Emits (writer_bytes-Emits (b',' ∷ [])) (writer_string-Emits name))
        (writer_bytes-Emits (b':' ∷ [])))
      (writer_string-Emits value)

-- The whole text if it fits with its NUL, and a failure otherwise.
pub writer_finish_lem :
    {op : Writer → Writer} {bytes : Bytes} (capacity : ℕ)
    → Emits op bytes
    → 0 < capacity
    → writer_finish (op (start capacity))
      ≡ (if ltb (length bytes) capacity then some bytes else none)
unfolding writer_finish start
writer_finish_lem {op} {bytes} capacity e pos = elim (Bool-cases (ltb (length bytes) capacity)) [
  | inl room ↦ rw (
    room,
    e.fits (start capacity) (lt→ltb 0 capacity pos)
        (omega (arith, ltb→lt (length bytes) capacity room)),
    lt→ltb 0 capacity pos,
  )
  | inr full ↦ rw (full, e.fails (start capacity) (lt→ltb 0 capacity pos) (ground arith) pos)
]
