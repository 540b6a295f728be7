-- ===== src/Json/Bounds.antt =====
-- What `parse_string` gives fits its buffer.
use localsend3ds.Prelude.{
  ℕ, zero, suc, ◌<◌, some, [], ◌∷◌, Bytes, ◌==◌, Bool-cases, inl, inr, length, length-append, arith,
}
use localsend3ds.Json.Cursor.{skip_whitespace}
use localsend3ds.Json.Scan.{
  Output, append_byte, append_bytes, Piece, close, bad, put, piece, Scanned, parsed, too_long,
  invalid, closed, string_loop, blank, open_quote, parse_string,
}

-- A text that was read leaves room for its NUL.
abbrev pub FitsIn : ℕ → Scanned → Type 0
FitsIn capacity (parsed text rest) = length text < capacity
FitsIn capacity (too_long rest) = Unit
FitsIn capacity invalid = Unit

append_byte-fits :
    (capacity : ℕ) (o : Output) (b : ℕ)
    → length o.text < capacity
    → length (append_byte (some capacity) o b).text < capacity
unfolding append_byte
append_byte-fits capacity o b h = ground (arith, length-append o.text (b ∷ []))

append_bytes-fits :
    (capacity : ℕ) (o : Output) (bs : Bytes)
    → length o.text < capacity
    → length (append_bytes (some capacity) o bs).text < capacity
unfolding append_bytes
append_bytes-fits capacity o [] h = h
append_bytes-fits capacity o (b ∷ bs) h =
    append_bytes-fits capacity (append_byte (some capacity) o b) bs
      (append_byte-fits capacity o b h)

closed-FitsIn :
    (capacity : ℕ) (o : Output) (rest : Bytes)
    → length o.text < capacity
    → FitsIn capacity (closed o rest)
closed-FitsIn capacity o rest h = elim (Bool-cases o.fits) [ inl f ↦ rw f h | inr f ↦ rw f tt ]

loop-FitsIn :
    (capacity skip : ℕ) (o : Output) (s : Bytes)
    → length o.text < capacity
    → FitsIn capacity (string_loop (some capacity) skip o s)
unfolding string_loop
loop-FitsIn capacity skip o [] h = tt
loop-FitsIn capacity (suc skip) o (c ∷ cs) h = loop-FitsIn capacity skip o cs h
loop-FitsIn capacity zero o (c ∷ cs) h = by_piece (piece c cs) (λ bytes skip.
    loop-FitsIn capacity skip (append_bytes (some capacity) o bytes) cs
      (append_bytes-fits capacity o bytes h))
  where
    by_piece :
        (v : Piece)
        → ((bytes : Bytes) (skip : ℕ)
            → FitsIn capacity
                (string_loop (some capacity) skip (append_bytes (some capacity) o bytes) cs))
        → FitsIn capacity (elim v [
          | close ↦ closed o cs
          | bad ↦ invalid
          | put bytes skip ↦
              string_loop (some capacity) skip (append_bytes (some capacity) o bytes) cs
        ])
    by_piece close ih = closed-FitsIn capacity o cs h
    by_piece bad ih = tt
    by_piece (put bytes skip) ih = ih bytes skip

pub parse_string-FitsIn :
    (capacity : ℕ) (s : Bytes) → 0 < capacity → FitsIn capacity (parse_string (some capacity) s)
unfolding parse_string
parse_string-FitsIn capacity s pos = opened (skip_whitespace s)
  where
    opened : (r : Bytes) → FitsIn capacity (open_quote (some capacity) r)
    opened [] = tt
    opened (c ∷ cs) = elim (Bool-cases (c == b'"')) [
      | inl q ↦ rw q (loop-FitsIn capacity 0 blank cs pos)
      | inr q ↦ rw q tt
    ]
