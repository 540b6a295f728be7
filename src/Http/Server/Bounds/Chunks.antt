-- ===== src/Http/Server/Bounds/Chunks.antt =====
-- The bytes between the pieces of a chunked body keep a connection in bounds.
use localsend3ds.Prelude.{
  ℕ, ◌+◌, ◌≡◌, refl, Bool, true, false, Option, none, some, [], ◌∷◌, ◌++◌, Bytes, arith, length,
  leb, ltb, ◌==◌, is_empty, if◌then◌else◌, length-append, codes,
}
use localsend3ds.Http.Server.{
  Connection, ChunkState, chunk_size, chunk_data, chunk_data_cr, chunk_data_lf, chunk_trailer,
  max_header_size,
}
use localsend3ds.Http.Server.Bounds.{InBounds}
use localsend3ds.Http.Server.Stream.{
  ChunkStep, goes_on, finished, malformed, before_cr, sized, size_line, size_byte, trailer_end,
  trailer_byte, framing_byte, parse_chunk_size, chunk_line_capacity,
}

abbrev StepInBounds : {S : Type 0} → ChunkStep S → Type 0
StepInBounds (goes_on c) = InBounds c
StepInBounds finished = Unit
StepInBounds (malformed m) = Unit

module _ {S : Type 0} where
  if-StepInBounds :
      (b : Bool) (x y : ChunkStep S)
      → (b ≡ true → StepInBounds x)
      → (b ≡ false → StepInBounds y)
      → StepInBounds (if b then x else y)
  if-StepInBounds true x y f g = f refl
  if-StepInBounds false x y f g = g refl

  sized-StepInBounds : (c : Connection S) (o : Option ℕ) → InBounds c → StepInBounds (sized c o)
  unfolding sized
  sized-StepInBounds c none f = tt
  sized-StepInBounds c (some size) f = (f.0, f.1, f.2, (omega arith), (λ h. ground arith))

  size_line-StepInBounds :
      (c : Connection S) (o : Option Bytes) → InBounds c → StepInBounds (size_line c o)
  unfolding size_line
  size_line-StepInBounds c none f = tt
  size_line-StepInBounds c (some line) f = sized-StepInBounds c (parse_chunk_size line) f

  size_byte-StepInBounds :
      (c : Connection S) (value : ℕ) → InBounds c → StepInBounds (size_byte c value)
  unfolding size_byte
  size_byte-StepInBounds c value f =
      let longer = goes_on (record c { chunk_line = c.chunk_line ++ value ∷ [] }) in
      let long = malformed (codes "Chunk size line too long") in
      if-StepInBounds (value == 10) (size_line c (before_cr c.chunk_line))
        (if leb chunk_line_capacity (length c.chunk_line) then long else longer)
        (λ h. size_line-StepInBounds c (before_cr c.chunk_line) f)
        (λ h.
          if-StepInBounds (leb chunk_line_capacity (length c.chunk_line)) long longer (λ k. tt)
            (λ k. (f.0, f.1, f.2, ground (arith, length-append c.chunk_line (value ∷ [])), f.4)))

  trailer_end-StepInBounds :
      (c : Connection S) (rest : Bytes) (o : Option Bytes)
      → InBounds c
      → StepInBounds (trailer_end c rest o)
  unfolding trailer_end
  trailer_end-StepInBounds c rest none f = tt
  trailer_end-StepInBounds c rest (some []) f =
      if-StepInBounds (is_empty rest) finished (malformed (codes "Data after final chunk"))
        (λ h. tt) (λ h. tt)
  trailer_end-StepInBounds c rest (some (d ∷ ds)) f = (f.0, f.1, f.2, (omega arith), f.4)

  trailer_byte-StepInBounds :
      (c : Connection S) (value : ℕ) (rest : Bytes)
      → InBounds c
      → StepInBounds (trailer_byte c value rest)
  unfolding trailer_byte
  trailer_byte-StepInBounds c value rest f =
      let counted = record c { trailer_bytes = c.trailer_bytes + 1 } in
      let longer = goes_on (record counted { chunk_line = c.chunk_line ++ value ∷ [] }) in
      let long = malformed (codes "Chunk trailer line too long") in
      let last = if leb chunk_line_capacity (length c.chunk_line) then long else longer in
      let end = trailer_end counted rest (before_cr c.chunk_line) in
      if-StepInBounds (ltb max_header_size (c.trailer_bytes + 1))
        (malformed (codes "Chunk trailers too large")) (if value == 10 then end else last) (λ h. tt)
        (λ h.
          if-StepInBounds (value == 10) end last
            (λ k. trailer_end-StepInBounds counted rest (before_cr c.chunk_line) f)
            (λ k.
              if-StepInBounds (leb chunk_line_capacity (length c.chunk_line)) long longer (λ l. tt)
                (λ l.
                  (f.0, f.1, f.2, ground (arith, length-append c.chunk_line (value ∷ [])), f.4))))

  state-StepInBounds :
      (s : ChunkState) (a b d e g : ChunkStep S)
      → StepInBounds a
      → StepInBounds b
      → StepInBounds d
      → StepInBounds e
      → StepInBounds g
      → StepInBounds (elim s [
        | chunk_size ↦ a
        | chunk_data ↦ b
        | chunk_data_cr ↦ d
        | chunk_data_lf ↦ e
        | chunk_trailer ↦ g
      ])
  state-StepInBounds chunk_size a b d e g ha hb hd he hg = ha
  state-StepInBounds chunk_data a b d e g ha hb hd he hg = hb
  state-StepInBounds chunk_data_cr a b d e g ha hb hd he hg = hd
  state-StepInBounds chunk_data_lf a b d e g ha hb hd he hg = he
  state-StepInBounds chunk_trailer a b d e g ha hb hd he hg = hg

  framing_byte-StepInBounds :
      (c : Connection S) (value : ℕ) (rest : Bytes)
      → InBounds c
      → StepInBounds (framing_byte c value rest)
  unfolding framing_byte
  framing_byte-StepInBounds c value rest f =
      let cr =
        if value == 13
        then goes_on (record c { chunk_state = chunk_data_lf })
        else malformed (codes "Missing CR after chunk") in
      let lf =
        if value == 10
        then goes_on (record c { chunk_state = chunk_size })
        else malformed (codes "Missing LF after chunk") in
      state-StepInBounds c.chunk_state (size_byte c value) (goes_on c) cr lf
        (trailer_byte c value rest) (size_byte-StepInBounds c value f) f
        (if-StepInBounds (value == 13) (goes_on (record c { chunk_state = chunk_data_lf }))
          (malformed (codes "Missing CR after chunk")) (λ h. (f.0, f.1, f.2, f.3, λ k. cc k))
          (λ h. tt))
        (if-StepInBounds (value == 10) (goes_on (record c { chunk_state = chunk_size }))
          (malformed (codes "Missing LF after chunk")) (λ h. (f.0, f.1, f.2, f.3, λ k. cc k))
          (λ h. tt))
        (trailer_byte-StepInBounds c value rest f)

  pub framing_byte-InBounds :
      (c : Connection S) {d : Connection S} (value : ℕ) (rest : Bytes)
      → framing_byte c value rest ≡ goes_on d
      → InBounds c
      → InBounds d
  framing_byte-InBounds c value rest e f =
      let h = framing_byte-StepInBounds c value rest f in rw e at h
