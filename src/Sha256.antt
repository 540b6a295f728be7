-- ===== src/Sha256.antt =====
-- source/sha256.c. A 32-bit word is a number below 2 ^ 32, with the wrap-around of `+` and `<<`
-- written out; `>>` is a division.
pub mod Stream
mod Tests
use Prim.Native.Nat.{bit_and, bit_or, bit_xor}
use localsend3ds.Prelude.{
  ℕ, zero, suc, ◌+◌, ◌-◌, ◌*◌, ◌/◌, ◌%◌, ◌^◌, ◌<◌, Bool, true, false, [], ◌∷◌, ◌++◌, List, Bytes,
  ltb, leb, ◌==◌, if◌then◌else◌, length, take, drop,
}

abbrev word_mod : ℕ
word_mod = 2 ^ 32

abbrev add32 : ℕ → ℕ → ℕ
add32 a b = (a + b) % word_mod

-- `ROTR(value, bits)`
rotr : ℕ → ℕ → ℕ
rotr value bits = bit_or (value / 2 ^ bits) (value * 2 ^ (32 - bits) % word_mod)

abbrev round_constants : List ℕ
round_constants =
    0x428a2f98 ∷ 0x71374491 ∷ 0xb5c0fbcf ∷ 0xe9b5dba5 ∷ 0x3956c25b ∷ 0x59f111f1 ∷ 0x923f82a4
    ∷ 0xab1c5ed5 ∷ 0xd807aa98 ∷ 0x12835b01 ∷ 0x243185be ∷ 0x550c7dc3 ∷ 0x72be5d74 ∷ 0x80deb1fe
    ∷ 0x9bdc06a7 ∷ 0xc19bf174 ∷ 0xe49b69c1 ∷ 0xefbe4786 ∷ 0x0fc19dc6 ∷ 0x240ca1cc ∷ 0x2de92c6f
    ∷ 0x4a7484aa ∷ 0x5cb0a9dc ∷ 0x76f988da ∷ 0x983e5152 ∷ 0xa831c66d ∷ 0xb00327c8 ∷ 0xbf597fc7
    ∷ 0xc6e00bf3 ∷ 0xd5a79147 ∷ 0x06ca6351 ∷ 0x14292967 ∷ 0x27b70a85 ∷ 0x2e1b2138 ∷ 0x4d2c6dfc
    ∷ 0x53380d13 ∷ 0x650a7354 ∷ 0x766a0abb ∷ 0x81c2c92e ∷ 0x92722c85 ∷ 0xa2bfe8a1 ∷ 0xa81a664b
    ∷ 0xc24b8b70 ∷ 0xc76c51a3 ∷ 0xd192e819 ∷ 0xd6990624 ∷ 0xf40e3585 ∷ 0x106aa070 ∷ 0x19a4c116
    ∷ 0x1e376c08 ∷ 0x2748774c ∷ 0x34b0bcb5 ∷ 0x391c0cb3 ∷ 0x4ed8aa4a ∷ 0x5b9cca4f ∷ 0x682e6ff3
    ∷ 0x748f82ee ∷ 0x78a5636f ∷ 0x84c87814 ∷ 0x8cc70208 ∷ 0x90befffa ∷ 0xa4506ceb ∷ 0xbef9a3f7
    ∷ 0xc67178f2 ∷ []

-- `load_be32` on the words of a block, in order.
load_words : Bytes → List ℕ
load_words (a ∷ b ∷ c ∷ d ∷ rest) = (a * 2 ^ 24 + b * 2 ^ 16 + c * 2 ^ 8 + d) ∷ load_words rest
load_words _ = []

-- `words[i - back]`, where the list holds the words before `i`, the last one first.
earlier : List ℕ → ℕ → ℕ
earlier [] back = 0
earlier (w ∷ ws) zero = w
earlier (w ∷ ws) (suc zero) = w
earlier (w ∷ ws) (suc (suc back)) = earlier ws (suc back)

-- The second loop of `transform`, which extends the schedule.
extend : ℕ → List ℕ → List ℕ
extend zero ws = ws
extend (suc rounds) ws =
    extend rounds (add32 (add32 (add32 (earlier ws 16) s0) (earlier ws 7)) s1 ∷ ws)
  where
    s0 : ℕ
    s0 =
        bit_xor (bit_xor (rotr (earlier ws 15) 7) (rotr (earlier ws 15) 18)) (earlier ws 15 / 2 ^ 3)

    s1 : ℕ
    s1 = bit_xor (bit_xor (rotr (earlier ws 2) 17) (rotr (earlier ws 2) 19)) (earlier ws 2 / 2 ^ 10)

-- The variables `a` to `h`, or `context->state`.
pub record State : Type 0 where
  pub a : ℕ
  pub b : ℕ
  pub c : ℕ
  pub d : ℕ
  pub e : ℕ
  pub f : ℕ
  pub g : ℕ
  pub h : ℕ

-- One round of the third loop, with its constant and its word.
round : ℕ → ℕ → State → State
round constant word s = record {
  a = add32 temp1 temp2;
  b = s.a;
  c = s.b;
  d = s.c;
  e = add32 s.d temp1;
  f = s.e;
  g = s.f;
  h = s.g;
}
  where
    sum1 : ℕ
    sum1 = bit_xor (bit_xor (rotr s.e 6) (rotr s.e 11)) (rotr s.e 25)

    choose : ℕ
    choose = bit_xor (bit_and s.e s.f) (bit_and (word_mod - 1 - s.e) s.g)

    temp1 : ℕ
    temp1 = add32 (add32 (add32 (add32 s.h sum1) choose) constant) word

    sum0 : ℕ
    sum0 = bit_xor (bit_xor (rotr s.a 2) (rotr s.a 13)) (rotr s.a 22)

    majority : ℕ
    majority = bit_xor (bit_xor (bit_and s.a s.b) (bit_and s.a s.c)) (bit_and s.b s.c)

    temp2 : ℕ
    temp2 = add32 sum0 majority

rounds : List ℕ → List ℕ → State → State
rounds (k ∷ ks) (w ∷ ws) s = rounds ks ws (round k w s)
rounds _ _ s = s

reverse_onto : List ℕ → List ℕ → List ℕ
reverse_onto [] out = out
reverse_onto (x ∷ xs) out = reverse_onto xs (x ∷ out)

abbrev add_state : State → State → State
add_state s t = record {
  a = add32 s.a t.a;
  b = add32 s.b t.b;
  c = add32 s.c t.c;
  d = add32 s.d t.d;
  e = add32 s.e t.e;
  f = add32 s.f t.f;
  g = add32 s.g t.g;
  h = add32 s.h t.h;
}

unfoldable pub transform : State → Bytes → State
unfolding rotr load_words earlier extend round rounds reverse_onto
transform s block =
    add_state s
      (rounds round_constants (reverse_onto (extend 48 (reverse_onto (load_words block) [])) []) s)

-- `LsSha256`; `block` holds the first `block_length` bytes.
pub record Context : Type 0 where
  pub state : State
  pub bit_count : ℕ
  pub block : Bytes

-- `ls_sha256_init`
unfoldable pub init : Context
init = record {
  state = record {
    a = 0x6a09e667;
    b = 0xbb67ae85;
    c = 0x3c6ef372;
    d = 0xa54ff53a;
    e = 0x510e527f;
    f = 0x9b05688c;
    g = 0x1f83d9ab;
    h = 0x5be0cd19;
  };
  bit_count = 0;
  block = [];
}

-- The end of a round of `ls_sha256_update`: a block that is full is absorbed.
unfoldable pub flush : Context → Context
flush ctx =
    if length ctx.block == 64
    then record {
      state = transform ctx.state ctx.block;
      bit_count = (ctx.bit_count + 512) % 2 ^ 64;
      block = [];
    }
    else ctx

-- The loop of `ls_sha256_update`, on fuel. `take` and `drop` stop at the end of the input, as
-- `amount` does.
unfoldable pub update_loop : ℕ → Context → Bytes → Context
update_loop zero ctx input = ctx
update_loop (suc fuel) ctx [] = ctx
update_loop (suc fuel) ctx (x ∷ xs) =
    update_loop fuel
      (flush (record ctx { block = ctx.block ++ take (64 - length ctx.block) (x ∷ xs) }))
      (drop (64 - length ctx.block) (x ∷ xs))

-- `ls_sha256_update`, with a round for each byte.
unfoldable pub update : Context → Bytes → Context
unfolding update_loop
update ctx input = update_loop (length input) ctx input

zeros : ℕ → Bytes
zeros zero = []
zeros (suc n) = 0 ∷ zeros n

-- `total_bits`, the most significant byte first.
big_endian : ℕ → ℕ → Bytes
big_endian zero n = []
big_endian (suc k) n = (n / 2 ^ (8 * k) % 256) ∷ big_endian k n

-- The block with its end mark, and the state that absorbs it if no room is left for the length.
abbrev pad : State → Bytes → State × Bytes
pad s block =
    if ltb 56 (length block)
    then (transform s (block ++ zeros (64 - length block)), [])
    else (s, block)

digest_bytes : State → Bytes
unfolding big_endian
digest_bytes s =
    big_endian 4 s.a
    ++ (big_endian 4 s.b
        ++ (big_endian 4 s.c
            ++ (big_endian 4 s.d
                ++ (big_endian 4 s.e
                    ++ (big_endian 4 s.f ++ (big_endian 4 s.g ++ big_endian 4 s.h))))))

-- `ls_sha256_finish`, the digest.
unfoldable pub finish : Context → Bytes
unfolding zeros big_endian digest_bytes
finish ctx =
    let total_bits = (ctx.bit_count + length ctx.block * 8) % 2 ^ 64 in
    let (s, block) = pad ctx.state (ctx.block ++ 0x80 ∷ []) in
    digest_bytes (transform s (block ++ (zeros (56 - length block) ++ big_endian 8 total_bits)))

abbrev lower_hex : ℕ → ℕ
lower_hex d = if ltb d 10 then b'0' + d else b'a' + (d - 10)

-- `ls_sha256_hex`
unfoldable pub hex : Bytes → Bytes
hex [] = []
hex (x ∷ xs) = lower_hex (x / 16) ∷ lower_hex (x % 16) ∷ hex xs
