-- ===== src/Http/Response/Chunked.antt =====
-- `decode_chunked` of source/http_response.c.
use localsend3ds.Prelude.{
  ℕ, zero, suc, ◌+◌, ◌-◌, ◌*◌, ◌/◌, ◌≡◌, refl, Bool, true, ◌||◌, not, Option, none, some, [], ◌∷◌,
  ◌++◌, Bytes, ltb, ◌==◌, if◌then◌else◌, length, take, drop, codes, is_empty,
}
use localsend3ds.Json.Cursor.{hex_value, strip_prefix}
use localsend3ds.Protocol.Object.{uint64_max}
use localsend3ds.Http.Text.{crlf, find_bytes}
use localsend3ds.Http.Response.Head.{HttpResponse, set_error, body_capacity}

-- `LsHttpResponseResult`
pub data Result : Type 0 where
  need_more complete error : Result

-- The digits of a size line: an overflow, or the number, the count and the rest of the line.
pub data Digits : Type 0 where
  overflow : Digits
  digits : ℕ → ℕ → Bytes → Digits

unfoldable pub digits_loop : ℕ → ℕ → Bytes → Digits
digits_loop value count [] = digits value count []
digits_loop value count (c ∷ cs) = elim (hex_value c) [
  | none ↦ digits value count (c ∷ cs)
  | some digit ↦
      let further = digits_loop (value * 16 + digit) (suc count) cs in
      if ltb ((uint64_max - digit) / 16) value then overflow else further
]

abbrev pub starts_extension : Bytes → Bool
starts_extension [] = true
starts_extension (c ∷ cs) = c == b';'

-- What a round of the loop gives: more bytes wanted, an error, the end, or the next chunk with the text
-- behind it.
pub data Round : Type 0 where
  wants_more : Round
  wrong : Bytes → Round
  last : Round
  chunk : Bytes → Bytes → Round

unfoldable pub trailer : Option (Bytes × Bytes) → Round
trailer none = wants_more
trailer (some (lines, rest)) =
    if is_empty rest then last else wrong (codes "Data follows HTTP chunk trailers")

-- Behind the size line of the last chunk.
unfoldable pub ending : Bytes → Option Bytes → Round
unfolding trailer
ending s (some rest) = if is_empty rest then last else wrong (codes "Data follows final HTTP chunk")
ending s none = trailer (find_bytes (crlf ++ crlf) s)

unfoldable pub ended_chunk : Bytes → Option Bytes → Round
ended_chunk data_bytes none = wrong (codes "Malformed chunk terminator")
ended_chunk data_bytes (some rest) = chunk data_bytes rest

-- Behind the size line of a chunk; `output` counts the bytes of the chunks before.
unfoldable pub sized_chunk : ℕ → ℕ → Bytes → Round
unfolding ending ended_chunk
sized_chunk output size s =
    if size == 0
    then ending s (strip_prefix crlf s)
    else if ltb (body_capacity - output) size
    then wrong (codes "Chunked response body too large")
    else if ltb (length s) (size + 2)
    then wants_more
    else ended_chunk (take size s) (strip_prefix crlf (drop size s))

unfoldable pub with_digits : ℕ → Bytes → Digits → Round
unfolding sized_chunk
with_digits output s overflow = wrong (codes "Chunk size overflow")
with_digits output s (digits value count rest) =
    if count == 0 || not (starts_extension rest)
    then wrong (codes "Malformed chunk size")
    else sized_chunk output value s

unfoldable pub with_size_line : ℕ → Option (Bytes × Bytes) → Round
unfolding with_digits
with_size_line output none = wants_more
with_size_line output (some (line, s)) = with_digits output s (digits_loop 0 0 line)

unfoldable pub round : ℕ → Bytes → Round
unfolding with_size_line
round output s = with_size_line output (find_bytes crlf s)

-- The loop over the chunks, on fuel, with the body so far: each takes a byte at least.
unfoldable pub chunks_loop : ℕ → HttpResponse → Bytes → Bytes → Result × HttpResponse
unfolding round
chunks_loop zero r output s = (need_more, r)
chunks_loop (suc fuel) r output [] = (need_more, r)
chunks_loop (suc fuel) r output (c ∷ cs) = elim (round (length output) (c ∷ cs)) [
  | wants_more ↦ (need_more, r)
  | wrong message ↦ (error, set_error message r)
  | last ↦ (complete, record r { body = output; complete = true })
  | chunk data_bytes rest ↦ chunks_loop fuel r (output ++ data_bytes) rest
]

-- `decode_chunked`, on the bytes behind the header.
unfoldable pub decode_chunked : HttpResponse → Bytes → Result × HttpResponse
unfolding chunks_loop
decode_chunked r s = chunks_loop (length s) r [] s

-- A property of what every outcome of a round gives.
pub round_cases :
    (Q : Result × HttpResponse → Type 0) (x : Round) {a b : Result × HttpResponse}
    (f : Bytes → Result × HttpResponse) (g : Bytes → Bytes → Result × HttpResponse)
    → Q a
    → ((m : Bytes) → Q (f m))
    → Q b
    → ((d s : Bytes) → x ≡ chunk d s → Q (g d s))
    → Q (elim x [ wants_more ↦ a | wrong m ↦ f m | last ↦ b | chunk d s ↦ g d s ])
round_cases Q wants_more f g qa qf qb qg = qa
round_cases Q (wrong m) f g qa qf qb qg = qf m
round_cases Q last f g qa qf qb qg = qb
round_cases Q (chunk d s) f g qa qf qb qg = qg d s refl
