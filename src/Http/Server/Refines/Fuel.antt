-- ===== src/Http/Server/Refines/Fuel.antt =====
-- The rounds of `process_chunked_data`, and that they come to an end.
use localsend3ds.Prelude.{
  ℕ, zero, suc, ◌≤◌, ◌<◌, ◌≡◌, refl, arith, Bool, true, false, [], ◌∷◌, Bytes, if◌then◌else◌,
  length, take, drop, length-drop,
}
use localsend3ds.Platform.{Platform}
use localsend3ds.Http.Network.{Network, Polite}
use localsend3ds.Http.Server.{Server, Connection, is_streaming, client, put}
use localsend3ds.Http.Server.Bounds.{Sized, set-Sized}
use localsend3ds.Http.Server.Bounds.Chunks.{framing_byte-InBounds}
use localsend3ds.Http.Server.Refines.{client-InBounds}
use localsend3ds.Http.Server.Refines.Stream.{write_chunk-Runs}
use localsend3ds.Http.Server.Stream.{
  ChunkStep, goes_on, finished, malformed, framing_byte, in_data, stream_finish, stream_bad_request,
  write_chunk, chunked_loop, process_chunked_data,
}

-- To prove a property of each branch.
if_each :
    {A : Type 0} (P : A → Type 0) (b : Bool) {x y : A}
    → (b ≡ true → P x)
    → (b ≡ false → P y)
    → P (if b then x else y)
if_each P true f g = f refl
if_each P false f g = g refl

bool_each :
    {A : Type 0} (P : A → Type 0) (b : Bool) {x y : A}
    → (b ≡ true → P x)
    → (b ≡ false → P y)
    → P (elim b [ false ↦ y | true ↦ x ])
bool_each P true f g = f refl
bool_each P false f g = g refl

step_each :
    {A S : Type 0} (P : A → Type 0) (x : ChunkStep S) (f : Connection S → A) (y : A) (h : Bytes → A)
    → ((c : Connection S) → x ≡ goes_on c → P (f c))
    → (x ≡ finished → P y)
    → ((m : Bytes) → x ≡ malformed m → P (h m))
    → P (elim x [ goes_on c ↦ f c | finished ↦ y | malformed m ↦ h m ])
step_each P (goes_on c) f y h a b e = a c refl
step_each P finished f y h a b e = b refl
step_each P (malformed m) f y h a b e = e m refl

-- With a byte to come and bytes left of the chunk, the rest is shorter.
drop_shorter : (k : ℕ) (x : ℕ) (xs : Bytes) → 0 < k → length (drop k (x ∷ xs)) ≤ length xs
drop_shorter k x xs l = omega (arith, length-drop k (x ∷ xs))

module _ {p : Platform} {n : Network p} where
  -- The loop `while (position < length && connection->mode == LS_HTTP_STREAMING_UPLOAD)` as a
  -- relation with no fuel: the number of rounds, the bytes from `position` on, and the server before
  -- and after. A loop that never leaves has no number of rounds.
  pub data Rounds (i now : ℕ) : ℕ → Bytes → Server p n → Server p n → Type 0 where
    no_bytes : {v : Server p n} → Rounds i now 0 [] v v
    not_streaming :
        {s : Bytes} {v : Server p n} → is_streaming (client v i).mode ≡ false → Rounds i now 0 s v v
    piece :
        {k c : ℕ} {cs : Bytes} {v u : Server p n}
        → is_streaming (client v i).mode ≡ true
        → in_data (client v i).chunk_state ≡ true
        → (write_chunk i (take (client v i).chunk_remaining (c ∷ cs)) now v).0 ≡ true
        → Rounds i now k
            (drop (client v i).chunk_remaining (c ∷ cs))
            (write_chunk i (take (client v i).chunk_remaining (c ∷ cs)) now v).1
            u
        → Rounds i now (suc k) (c ∷ cs) v u
    refused_piece :
        {c : ℕ} {cs : Bytes} {v : Server p n}
        → is_streaming (client v i).mode ≡ true
        → in_data (client v i).chunk_state ≡ true
        → (write_chunk i (take (client v i).chunk_remaining (c ∷ cs)) now v).0 ≡ false
        → Rounds i now 1
            (c ∷ cs)
            v
            (write_chunk i (take (client v i).chunk_remaining (c ∷ cs)) now v).1
    framing :
        {k c : ℕ} {cs : Bytes} {v u : Server p n} {x : Connection n.Socket}
        → is_streaming (client v i).mode ≡ true
        → in_data (client v i).chunk_state ≡ false
        → framing_byte (client v i) c cs ≡ goes_on x
        → Rounds i now k cs (put i x v) u
        → Rounds i now (suc k) (c ∷ cs) v u
    last_chunk :
        {c : ℕ} {cs : Bytes} {v : Server p n}
        → is_streaming (client v i).mode ≡ true
        → in_data (client v i).chunk_state ≡ false
        → framing_byte (client v i) c cs ≡ finished
        → Rounds i now 1 (c ∷ cs) v (stream_finish i now v)
    bad_framing :
        {c : ℕ} {cs m : Bytes} {v : Server p n}
        → is_streaming (client v i).mode ≡ true
        → in_data (client v i).chunk_state ≡ false
        → framing_byte (client v i) c cs ≡ malformed m
        → Rounds i now 1 (c ∷ cs) v (stream_bad_request i m now v)

  -- The loop ends there, in at most one round for each byte.
  pub record Halts (i now : ℕ) (s : Bytes) (v u : Server p n) : Type 0 where
    pub count : ℕ
    pub within : count ≤ length s
    pub rounds : Rounds i now count s v u

module _ {p : Platform} {n : Network p} (o : Polite p n) where
  chunked_loop-Halts :
      (fuel i : ℕ) (s : Bytes) (now : ℕ) (v : Server p n)
      → Sized v.clients
      → length s ≤ fuel
      → Halts i now s v (chunked_loop fuel i s now v)
  unfolding chunked_loop
  chunked_loop-Halts zero i [] now v b l = record {
    count = 0;
    within = omega arith;
    rounds = no_bytes;
  }
  chunked_loop-Halts zero i (c ∷ cs) now v b l = absurd (omega arith)
  chunked_loop-Halts (suc f) i [] now v b l = record {
    count = 0;
    within = omega arith;
    rounds = no_bytes;
  }
  chunked_loop-Halts (suc f) i (c ∷ cs) now v b l =
      let amount = (client v i).chunk_remaining in
      let w = write_chunk i (take amount (c ∷ cs)) now v in
      let bounds = client-InBounds v i b in
      bool_each (Halts i now (c ∷ cs) v) (is_streaming (client v i).mode)
        (λ h.
          bool_each (Halts i now (c ∷ cs) v) (in_data (client v i).chunk_state)
            (λ d.
              let less = drop_shorter amount c cs (bounds.4 d) in
              let r : Halts i now (drop amount (c ∷ cs)) w.1
                  (chunked_loop f i (drop amount (c ∷ cs)) now w.1) =
                chunked_loop-Halts f i (drop amount (c ∷ cs)) now w.1
                  ((write_chunk-Runs i (take amount (c ∷ cs)) now v).sized o b)
                  (omega (arith, less)) in
              if_each (Halts i now (c ∷ cs) v) w.0
                (λ k. record {
                  count = suc r.count;
                  within = omega (arith, less, r.within);
                  rounds = piece h d k r.rounds;
                })
                (λ k. record { count = 1; within = omega arith; rounds = refused_piece h d k }))
            (λ d.
              step_each (Halts i now (c ∷ cs) v) (framing_byte (client v i) c cs)
                (λ x. chunked_loop f i cs now (put i x v)) (stream_finish i now v)
                (λ m. stream_bad_request i m now v)
                (λ x e.
                  let r : Halts i now cs (put i x v) (chunked_loop f i cs now (put i x v)) =
                    chunked_loop-Halts f i cs now (put i x v)
                      (set-Sized v.clients i x (framing_byte-InBounds (client v i) c cs e bounds) b)
                      (omega arith) in
                  record {
                    count = suc r.count;
                    within = omega (arith, r.within);
                    rounds = framing h d e r.rounds;
                  })
                (λ e. record { count = 1; within = omega arith; rounds = last_chunk h d e })
                (λ m e. record { count = 1; within = omega arith; rounds = bad_framing h d e })))
        (λ h. record { count = 0; within = omega arith; rounds = not_streaming h })

  -- On connections that are in bounds, and a network on which `recv` gives no more bytes than there is
  -- room for and `send` takes no more than it was given, the loop of process_chunked_data ends: the
  -- server that it answers is what a finite number of rounds of the loop, at most one for each byte,
  -- leads to, until no byte is left, the connection no longer streams, or the body is finished or
  -- refused.
  pub process_chunked_data-Halts :
      (i : ℕ) (s : Bytes) (now : ℕ) (v : Server p n)
      → Sized v.clients
      → Halts i now s v (process_chunked_data i s now v)
  unfolding process_chunked_data
  process_chunked_data-Halts i s now v b = chunked_loop-Halts (length s) i s now v b (omega arith)
