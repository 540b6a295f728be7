-- ===== src/Http/Server/Stream.antt =====
-- The body of an upload: a length that is declared, or chunks.
use localsend3ds.Prelude.{
  ℕ, zero, suc, ◌+◌, ◌-◌, ◌*◌, ◌/◌, Bool, true, false, ◌||◌, not, Option, none, some, [], ◌∷◌, ◌++◌,
  Bytes, ltb, leb, ◌==◌, if◌then◌else◌, length, take, drop, codes, is_empty,
}
use localsend3ds.Json.Cursor.{hex_value}
use localsend3ds.Platform.{Platform}
use localsend3ds.Transfer
use localsend3ds.Transfer.{FinishResult, success, size_mismatch, checksum_mismatch, io_error}
use localsend3ds.Protocol.Object.{uint64_max}
use localsend3ds.Http.Network.{Network}
use localsend3ds.Http.Server.{
  Connection, Server, is_streaming, upload_length, upload_chunked, ChunkState, chunk_size,
  chunk_data, chunk_data_cr, chunk_data_lf, chunk_trailer, max_header_size, client, put, handled,
  rejected, after, empty_response, message_response,
}

-- The loop of `parse_chunk_size`, over the value and the number of digits.
unfoldable pub size_loop : ℕ → ℕ → Bytes → Option (ℕ × ℕ)
size_loop value digits [] = some (value, digits)
size_loop value digits (c ∷ cs) = if c == b';' then some (value, digits) else elim (hex_value c) [
  | none ↦ none
  | some digit ↦
      let further = size_loop (value * 16 + digit) (suc digits) cs in
      if ltb ((uint64_max - digit) / 16) value then none else further
]

abbrev size_read : Option (ℕ × ℕ) → Option ℕ
size_read none = none
size_read (some (value, digits)) = if digits == 0 then none else some value

-- `parse_chunk_size`; `none` is the result false.
unfoldable pub parse_chunk_size : Bytes → Option ℕ
unfolding size_loop
parse_chunk_size line = size_read (size_loop 0 0 line)

abbrev pub chunk_line_capacity : ℕ
chunk_line_capacity = 32

-- The line without the carriage return at its end.
abbrev pub before_cr : Bytes → Option Bytes
before_cr [] = none
before_cr (c ∷ []) = if c == 13 then some [] else none
before_cr (c ∷ d ∷ ds) = elim (before_cr (d ∷ ds)) [ none ↦ none | some rest ↦ some (c ∷ rest) ]

-- What one round of `process_chunked_data` makes of the connection: it goes on with the rest of the
-- bytes, ends the body, or ends it with an error. What a body that has ended leaves in the fields of
-- the connection is not read again.
pub data ChunkStep (S : Type 0) : Type 0 where
  goes_on : Connection S → ChunkStep S
  finished : ChunkStep S
  malformed : Bytes → ChunkStep S

unfoldable pub sized : {S : Type 0} → Connection S → Option ℕ → ChunkStep S
sized c none = malformed (codes "Invalid chunk size")
sized c (some size) = goes_on (record c {
  chunk_line = [];
  chunk_remaining = size;
  chunk_state = (if size == 0 then chunk_trailer else chunk_data);
})

unfoldable pub size_line : {S : Type 0} → Connection S → Option Bytes → ChunkStep S
size_line c none = malformed (codes "Malformed chunk size line")
size_line c (some line) = sized c (parse_chunk_size line)

-- A byte of the size line.
unfoldable pub size_byte : {S : Type 0} → Connection S → ℕ → ChunkStep S
unfolding sized size_line
size_byte c value =
    if value == 10
    then size_line c (before_cr c.chunk_line)
    else if leb chunk_line_capacity (length c.chunk_line)
    then malformed (codes "Chunk size line too long")
    else goes_on (record c { chunk_line = c.chunk_line ++ value ∷ [] })

unfoldable pub trailer_end : {S : Type 0} → Connection S → Bytes → Option Bytes → ChunkStep S
trailer_end c rest none = malformed (codes "Malformed chunk trailer")
trailer_end c rest (some []) =
    if is_empty rest then finished else malformed (codes "Data after final chunk")
trailer_end c rest (some (d ∷ ds)) = goes_on (record c { chunk_line = [] })

-- A byte of the trailer, with the bytes behind it.
unfoldable pub trailer_byte : {S : Type 0} → Connection S → ℕ → Bytes → ChunkStep S
unfolding trailer_end
trailer_byte c value rest =
    let counted = record c { trailer_bytes = c.trailer_bytes + 1 } in
    if ltb max_header_size (c.trailer_bytes + 1)
    then malformed (codes "Chunk trailers too large")
    else if value == 10
    then trailer_end counted rest (before_cr c.chunk_line)
    else if leb chunk_line_capacity (length c.chunk_line)
    then malformed (codes "Chunk trailer line too long")
    else goes_on (record counted { chunk_line = c.chunk_line ++ value ∷ [] })

-- A byte between the pieces.
unfoldable pub framing_byte : {S : Type 0} → Connection S → ℕ → Bytes → ChunkStep S
unfolding size_byte trailer_byte
framing_byte c value rest = elim c.chunk_state [
  | chunk_size ↦ size_byte c value
  | chunk_data ↦ goes_on c
  | chunk_data_cr ↦
      if value == 13
      then goes_on (record c { chunk_state = chunk_data_lf })
      else malformed (codes "Missing CR after chunk")
  | chunk_data_lf ↦
      if value == 10
      then goes_on (record c { chunk_state = chunk_size })
      else malformed (codes "Missing LF after chunk")
  | chunk_trailer ↦ trailer_byte c value rest
]

abbrev pub in_data : ChunkState → Bool
in_data chunk_data = true
in_data _ = false

-- The bytes of the current chunk are taken off its length.
abbrev pub consume : {S : Type 0} → Connection S → ℕ → Connection S
consume c amount = record c {
  chunk_remaining = c.chunk_remaining - amount;
  chunk_state = (if c.chunk_remaining - amount == 0 then chunk_data_cr else chunk_data);
}

module _ {p : Platform} {n : Network p} where
  unfoldable pub finish_result : ℕ → FinishResult → Server p n → Server p n
  finish_result i success v = handled (empty_response i 200 (codes "OK") v)
  finish_result i checksum_mismatch v =
      rejected (message_response i 422 (codes "Unprocessable Entity") (codes "Checksum mismatch") v)
  finish_result i size_mismatch v =
      rejected (empty_response i 500 (codes "Internal Server Error") v)
  finish_result i io_error v = rejected (empty_response i 500 (codes "Internal Server Error") v)

  -- `stream_finish`
  unfoldable pub stream_finish : ℕ → ℕ → Server p n → Server p n
  unfolding finish_result
  stream_finish i now v =
      let (result, a) = Transfer.finish p v.transfer now v.world in
      finish_result i result (after a v)

  -- `stream_bad_request`
  unfoldable pub stream_bad_request : ℕ → Bytes → ℕ → Server p n → Server p n
  stream_bad_request i message now v = rejected (
      empty_response i 400 (codes "Bad Request")
        (after (Transfer.fail p v.transfer message now v.world) v))

  -- The bytes of a chunk that are there, written; whether the body goes on.
  unfoldable pub write_chunk : ℕ → Bytes → ℕ → Server p n → Bool × Server p n
  unfolding stream_bad_request
  write_chunk i bytes now v =
      if ltb v.transfer.metadata.size v.transfer.received_bytes
        || ltb (v.transfer.metadata.size - v.transfer.received_bytes) (length bytes)
      then (false, stream_bad_request i (codes "Upload exceeded declared file size") now v)
      else let (ok, a) = Transfer.write p v.transfer bytes now v.world in
        let u = after a v in
        if ok
        then (true, put i (consume (client u i) (length bytes)) u)
        else (false, rejected (empty_response i 500 (codes "Internal Server Error") u))

  -- The loop of `process_chunked_data`, on fuel. A chunk of 0 bytes has no data state, so each round
  -- takes a byte at least.
  unfoldable pub chunked_loop : ℕ → ℕ → Bytes → ℕ → Server p n → Server p n
  unfolding stream_finish stream_bad_request write_chunk
  chunked_loop zero i s now v = v
  chunked_loop (suc fuel) i [] now v = v
  chunked_loop (suc fuel) i (value ∷ rest) now v = elim (is_streaming (client v i).mode) [
    | false ↦ v
    | true ↦ elim (in_data (client v i).chunk_state) [
      | true ↦
          let amount = (client v i).chunk_remaining in
          let w = write_chunk i (take amount (value ∷ rest)) now v in
          let further = chunked_loop fuel i (drop amount (value ∷ rest)) now w.1 in
          if w.0 then further else w.1
      | false ↦ elim (framing_byte (client v i) value rest) [
        | goes_on c ↦ chunked_loop fuel i rest now (put i c v)
        | finished ↦ stream_finish i now v
        | malformed message ↦ stream_bad_request i message now v
      ]
    ]
  ]

  -- `process_chunked_data`, with a round for each byte.
  unfoldable pub process_chunked_data : ℕ → Bytes → ℕ → Server p n → Server p n
  unfolding chunked_loop
  process_chunked_data i s now v = chunked_loop (length s) i s now v

  -- `process_length_data`
  unfoldable pub process_length_data : ℕ → Bytes → ℕ → Server p n → Server p n
  unfolding stream_bad_request stream_finish
  process_length_data i s now v =
      if ltb (client v i).body_remaining (length s)
      then stream_bad_request i (codes "Upload body exceeded Content-Length") now v
      else let (ok, a) = Transfer.write p v.transfer s now v.world in
        let u = after a v in
        let left = (client u i).body_remaining - length s in
        let w = put i (record (client u i) { body_remaining = left }) u in
        if not ok
        then rejected (empty_response i 500 (codes "Internal Server Error") u)
        else if left == 0
        then stream_finish i now w
        else w

  -- `process_stream_data`
  unfoldable pub process_stream_data : ℕ → Bytes → ℕ → Server p n → Server p n
  unfolding process_chunked_data process_length_data
  process_stream_data i s now v = elim (client v i).upload_encoding [
    | upload_chunked ↦ process_chunked_data i s now v
    | upload_length ↦ process_length_data i s now v
  ]
