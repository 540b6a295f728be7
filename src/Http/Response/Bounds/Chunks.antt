-- ===== src/Http/Response/Bounds/Chunks.antt =====
-- Chunks do not overrun the body.
use localsend3ds.Prelude.{
  ℕ, zero, suc, ◌+◌, ◌-◌, ◌≤◌, ◌≡◌, refl, arith, Bool, true, false, not, Option, none, some, [],
  ◌∷◌, ◌++◌, Bytes, ltb, ◌==◌, if◌then◌else◌, length, length-append, length-take, drop, take, codes,
  is_empty, ◌||◌,
}
use localsend3ds.Json.Cursor.{strip_prefix}
use localsend3ds.Http.Text.{crlf, find_bytes}
use localsend3ds.Http.Response.Head.{HttpResponse, set_error, body_capacity}
use localsend3ds.Http.Response.Chunked.{
  error, Round, wants_more, wrong, last, chunk, round, round_cases, chunks_loop, Digits, overflow,
  digits, ended_chunk, ending, trailer, sized_chunk, with_digits, with_size_line, digits_loop,
  starts_extension,
}
use localsend3ds.Http.Response.Bounds.{InBounds, Keeps}

-- A chunk fits what is left of the body.
abbrev RoundFits : ℕ → Round → Type 0
RoundFits output wants_more = Unit
RoundFits output (wrong m) = Unit
RoundFits output last = Unit
RoundFits output (chunk d s) = output ≤ body_capacity → output + length d ≤ body_capacity

if-RoundFits :
    (n : ℕ) (b : Bool) (x y : Round)
    → (b ≡ true → RoundFits n x)
    → (b ≡ false → RoundFits n y)
    → RoundFits n (if b then x else y)
if-RoundFits n true x y f g = f refl
if-RoundFits n false x y f g = g refl

trailer-RoundFits : (n : ℕ) (o : Option (Bytes × Bytes)) → RoundFits n (trailer o)
unfolding trailer
trailer-RoundFits n none = tt
trailer-RoundFits n (some (lines, rest)) =
    if-RoundFits n (is_empty rest) last (wrong (codes "Data follows HTTP chunk trailers")) (λ h. tt)
      (λ h. tt)

ending-RoundFits : (n : ℕ) (s : Bytes) (o : Option Bytes) → RoundFits n (ending s o)
unfolding ending
ending-RoundFits n s none = trailer-RoundFits n (find_bytes (crlf ++ crlf) s)
ending-RoundFits n s (some rest) =
    if-RoundFits n (is_empty rest) last (wrong (codes "Data follows final HTTP chunk")) (λ h. tt)
      (λ h. tt)

ended_chunk-RoundFits :
    (n : ℕ) (d : Bytes) (o : Option Bytes)
    → (n ≤ body_capacity → n + length d ≤ body_capacity)
    → RoundFits n (ended_chunk d o)
unfolding ended_chunk
ended_chunk-RoundFits n d none f = tt
ended_chunk-RoundFits n d (some rest) f = f

sized_chunk-RoundFits : (n size : ℕ) (s : Bytes) → RoundFits n (sized_chunk n size s)
unfolding sized_chunk
sized_chunk-RoundFits n size s =
    let full = ended_chunk (take size s) (strip_prefix crlf (drop size s)) in
    let there = if ltb (length s) (size + 2) then wants_more else full in
    let large = wrong (codes "Chunked response body too large") in
    if-RoundFits n (size == 0) (ending s (strip_prefix crlf s))
      (if ltb (body_capacity - n) size then large else there)
      (λ h. ending-RoundFits n s (strip_prefix crlf s))
      (λ h.
        if-RoundFits n (ltb (body_capacity - n) size) large there (λ k. tt)
          (λ k.
            if-RoundFits n (ltb (length s) (size + 2)) wants_more full (λ l. tt)
              (λ l.
                ended_chunk-RoundFits n (take size s) (strip_prefix crlf (drop size s))
                  (λ m. ground (arith, length-take size s)))))

with_digits-RoundFits : (n : ℕ) (s : Bytes) (x : Digits) → RoundFits n (with_digits n s x)
unfolding with_digits
with_digits-RoundFits n s overflow = tt
with_digits-RoundFits n s (digits value count rest) =
    if-RoundFits n (count == 0 || not (starts_extension rest))
      (wrong (codes "Malformed chunk size")) (sized_chunk n value s) (λ h. tt)
      (λ h. sized_chunk-RoundFits n value s)

line-RoundFits : (n : ℕ) (o : Option (Bytes × Bytes)) → RoundFits n (with_size_line n o)
unfolding with_size_line
line-RoundFits n none = tt
line-RoundFits n (some (line, s)) = with_digits-RoundFits n s (digits_loop 0 0 line)

round-RoundFits : (n : ℕ) (s : Bytes) → RoundFits n (round n s)
unfolding round
round-RoundFits n s = line-RoundFits n (find_bytes crlf s)

chunk_fits :
    {n : ℕ} {x : Round} {d s : Bytes}
    → x ≡ chunk d s
    → RoundFits n x
    → n ≤ body_capacity
    → n + length d ≤ body_capacity
chunk_fits e f = rw e at f

pub chunks_loop-Keeps :
    (fuel : ℕ) (r : HttpResponse) (output s : Bytes)
    → InBounds r
    → length output ≤ body_capacity
    → Keeps (chunks_loop fuel r output s)
unfolding chunks_loop
chunks_loop-Keeps zero r output s b l = b
chunks_loop-Keeps (suc fuel) r output [] b l = b
chunks_loop-Keeps (suc fuel) r output (c ∷ cs) b l =
    round_cases Keeps (round (length output) (c ∷ cs)) (λ m. (error, set_error m r))
      (λ d s. chunks_loop fuel r (output ++ d) s) b (λ m. b) (b.0, l, b.2)
      (λ d s e. chunks_loop-Keeps fuel r (output ++ d) s b (
        omega (
          arith,
          length-append output d,
          chunk_fits e (round-RoundFits (length output) (c ∷ cs)) l,
        )))
