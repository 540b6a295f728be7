-- ===== src/Sha256/Stream.antt =====
-- `ls_sha256_update` copies as much as fits the block; what it computes is one byte at a time.
use localsend3ds.Prelude.{
  ℕ, zero, suc, ◌+◌, ◌-◌, ◌≤◌, ◌<◌, ◌≡◌, refl, sym, ap, ◌∙◌, [], ◌∷◌, ◌++◌, append_assoc, Bytes,
  length, length-append, length-take, length-drop, take, drop, arith,
}
use localsend3ds.Sha256.{Context, flush, update_loop, update}

-- The reference: bytes are put into the block singly, and a full block is absorbed.
unfoldable pub push : Context → ℕ → Context
push ctx x = flush (record ctx { block = ctx.block ++ x ∷ [] })

unfoldable pub absorb : Context → Bytes → Context
absorb ctx [] = ctx
absorb ctx (x ∷ xs) = absorb (push ctx x) xs

-- The block is not full between two calls.
abbrev pub HasRoom : Context → Type 0
HasRoom ctx = length ctx.block < 64

flush-HasRoom : (ctx : Context) → length ctx.block ≤ 64 → HasRoom (flush ctx)
unfolding flush
flush-HasRoom ctx h = ground arith

flush_partial : (ctx : Context) → HasRoom ctx → flush ctx ≡ ctx
unfolding flush
flush_partial ctx h = ground arith

push-HasRoom : (ctx : Context) (x : ℕ) → HasRoom ctx → HasRoom (push ctx x)
unfolding push
push-HasRoom ctx x h =
    flush-HasRoom (record ctx { block = ctx.block ++ x ∷ [] })
      (omega (arith, length-append ctx.block (x ∷ [])))

absorb-append : (ctx : Context) (xs ys : Bytes) → absorb ctx (xs ++ ys) ≡ absorb (absorb ctx xs) ys
unfolding absorb
absorb-append ctx [] ys = refl
absorb-append ctx (x ∷ xs) ys = absorb-append (push ctx x) xs ys

absorb-HasRoom : (ctx : Context) (xs : Bytes) → HasRoom ctx → HasRoom (absorb ctx xs)
unfolding absorb
absorb-HasRoom ctx [] h = h
absorb-HasRoom ctx (x ∷ xs) h = absorb-HasRoom (push ctx x) xs (push-HasRoom ctx x h)

-- Bytes that fit the block together are put in at once.
absorb_together :
    (ctx : Context) (x : ℕ) (xs : Bytes)
    → length ctx.block + length (x ∷ xs) ≤ 64
    → absorb ctx (x ∷ xs) ≡ flush (record ctx { block = ctx.block ++ x ∷ xs })
unfolding absorb push
absorb_together ctx x [] h = refl
absorb_together ctx x (y ∷ ys) h =
    let longer : Context = record ctx { block = ctx.block ++ x ∷ [] } in
    let l = length-append ctx.block (x ∷ []) in
    rw (flush_partial longer (omega (arith, l))) (
      absorb_together longer y ys (omega (arith, l))
      ∙ ap (λ b. flush (record ctx { block = b })) (append_assoc ctx.block (x ∷ []) (y ∷ ys)))

take-drop : (n : ℕ) (xs : Bytes) → take n xs ++ drop n xs ≡ xs
take-drop zero xs = refl
take-drop (suc n) [] = refl
take-drop (suc n) (x ∷ xs) = ap (λ k. x ∷ k) (take-drop n xs)

-- One round of the loop.
round_lem :
    (ctx : Context) (n x : ℕ) (xs : Bytes)
    → length ctx.block + suc n ≡ 64
    → absorb ctx (x ∷ xs)
      ≡ absorb (flush (record ctx { block = ctx.block ++ take (suc n) (x ∷ xs) })) (drop n xs)
round_lem ctx n x xs h =
    ap (λ k. absorb ctx (x ∷ k)) (sym (take-drop n xs))
    ∙ absorb-append ctx (x ∷ take n xs) (drop n xs)
    ∙ ap (λ c. absorb c (drop n xs))
        (absorb_together ctx x (take n xs) (omega (arith, length-take n xs)))

update_loop_lem :
    (fuel : ℕ) (ctx : Context) (input : Bytes)
    → HasRoom ctx
    → length input ≤ fuel
    → update_loop fuel ctx input ≡ absorb ctx input
unfolding update_loop absorb
update_loop_lem zero ctx [] h l = refl
update_loop_lem zero ctx (x ∷ xs) h l = absurd (omega arith)
update_loop_lem (suc fuel) ctx [] h l = refl
update_loop_lem (suc fuel) ctx (x ∷ xs) h l =
    let n : ℕ = 63 - length ctx.block in
    let e : 64 - length ctx.block ≡ suc n = omega arith in
    let filled : Context = record ctx { block = ctx.block ++ x ∷ take n xs } in
    rw e (
      update_loop_lem fuel (flush filled) (drop n xs)
        (flush-HasRoom filled
          (omega (arith, length-append ctx.block (x ∷ take n xs), length-take n xs)))
        (omega (arith, length-drop n xs))
      ∙ sym (round_lem ctx n x xs (omega arith)))

-- From a context whose block is not full, `ls_sha256_update` absorbs its input byte by byte, so the
-- fuel is enough, and leaves a block that is not full.
pub update-absorb :
    (ctx : Context) (input : Bytes)
    → HasRoom ctx
    → (update ctx input ≡ absorb ctx input) × HasRoom (update ctx input)
unfolding update
update-absorb ctx input h =
    let e = update_loop_lem (length input) ctx input h (omega arith) in
    (e, rw e (absorb-HasRoom ctx input h))

-- A message may be cut anywhere: two updates are one update of the texts joined.
pub update-update :
    (ctx : Context) (xs ys : Bytes)
    → HasRoom ctx
    → update (update ctx xs) ys ≡ update ctx (xs ++ ys)
update-update ctx xs ys h =
    let (ex, hx) = update-absorb ctx xs h in
    (update-absorb (update ctx xs) ys hx).0
    ∙ ap (λ c. absorb c ys) ex
    ∙ sym (absorb-append ctx xs ys)
    ∙ sym (update-absorb ctx (xs ++ ys) h).0
