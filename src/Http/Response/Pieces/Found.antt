-- ===== src/Http/Response/Pieces/Found.antt =====
-- `find_bytes` in a text to which more bytes come.
use localsend3ds.Prelude.{
  ℕ, ◌≤◌, ◌≡◌, refl, sym, ap, ◌∙◌, arith, Bool-cases, Option-cases, inl, inr, Option, none, some,
  [], ◌∷◌, ◌++◌, Bytes, ◌==◌, length,
}
use localsend3ds.Json.Cursor.{strip_prefix}
use localsend3ds.Http.Text.{here_or, find_bytes}

strip_prefix-append :
    (wanted s t : Bytes) {rest : Bytes}
    → strip_prefix wanted s ≡ some rest
    → strip_prefix wanted (s ++ t) ≡ some (rest ++ t)
unfolding strip_prefix
strip_prefix-append [] s t e = cc e
strip_prefix-append (x ∷ xs) [] t e = cc e
strip_prefix-append (x ∷ xs) (c ∷ cs) t e = elim (Bool-cases (c == x)) [
  | inl q ↦ rw q (strip_prefix-append xs cs t (rw q at e))
  | inr q ↦ absurd (cc (rw q at e))
]

-- A text that is long enough, and does not begin so, does not if more follows.
strip_prefix-append_none :
    (wanted s t : Bytes)
    → strip_prefix wanted s ≡ none
    → length wanted ≤ length s
    → strip_prefix wanted (s ++ t) ≡ none
unfolding strip_prefix
strip_prefix-append_none [] s t e l = cc e
strip_prefix-append_none (x ∷ xs) [] t e l = absurd (omega arith)
strip_prefix-append_none (x ∷ xs) (c ∷ cs) t e l = elim (Bool-cases (c == x)) [
  | inl q ↦ rw q (strip_prefix-append_none xs cs t (rw q at e) (omega arith))
  | inr q ↦ rw q refl
]

length-strip_prefix :
    (wanted s : Bytes) {rest : Bytes} → strip_prefix wanted s ≡ some rest → length wanted ≤ length s
unfolding strip_prefix
length-strip_prefix [] s e = omega arith
length-strip_prefix (x ∷ xs) [] e = cc e
length-strip_prefix (x ∷ xs) (c ∷ cs) e = elim (Bool-cases (c == x)) [
  | inl q ↦ omega (arith, length-strip_prefix xs cs (rw q at e))
  | inr q ↦ absurd (cc (rw q at e))
]

here_or-some :
    (c : ℕ) (later : Option (Bytes × Bytes)) {head tail : Bytes}
    → here_or c none later ≡ some (head, tail)
    → (more : Bytes) × (head ≡ c ∷ more) × (later ≡ some (more, tail))
unfolding here_or
here_or-some c none e = cc e
here_or-some c (some (more, tail)) e = (more, cc e, cc e)

-- What is found stands within the text.
length-find_bytes :
    (wanted s : Bytes) {head tail : Bytes}
    → find_bytes wanted s ≡ some (head, tail)
    → length wanted ≤ length s
unfolding find_bytes
length-find_bytes wanted [] e = cc e
length-find_bytes wanted (c ∷ cs) e = elim (Option-cases (strip_prefix wanted (c ∷ cs))) [
  | inr (rest, q) ↦ length-strip_prefix wanted (c ∷ cs) q
  | inl q ↦
      let (more, h, k) =
        here_or-some c (find_bytes wanted cs)
          (ap (λ o. here_or c o (find_bytes wanted cs)) (sym q) ∙ e) in
      omega (arith, length-find_bytes wanted cs k)
]

here_or-here :
    (c : ℕ) (o : Option Bytes) (later : Option (Bytes × Bytes)) {rest : Bytes}
    → o ≡ some rest
    → here_or c o later ≡ some ([], rest)
unfolding here_or
here_or-here c o later e = rw e refl

here_or-behind :
    (c : ℕ) (more tail : Bytes) {head : Bytes}
    → head ≡ c ∷ more
    → here_or c none (some (more, tail)) ≡ some (head, tail)
unfolding here_or
here_or-behind c more tail e = rw e refl

-- What is found in a text is found there when more bytes follow.
pub find_bytes-append :
    (wanted s t : Bytes) {head tail : Bytes}
    → find_bytes wanted s ≡ some (head, tail)
    → find_bytes wanted (s ++ t) ≡ some (head, tail ++ t)
unfolding find_bytes
find_bytes-append wanted [] t e = cc e
find_bytes-append wanted (c ∷ cs) t {head} {tail} e =
    elim (Option-cases (strip_prefix wanted (c ∷ cs))) [
      | inr (rest, q) ↦
          let now : some ([], rest) ≡ some (head, tail) =
            sym (here_or-here c (strip_prefix wanted (c ∷ cs)) (find_bytes wanted cs) q) ∙ e in
          here_or-here c (strip_prefix wanted (c ∷ (cs ++ t))) (find_bytes wanted (cs ++ t))
            (strip_prefix-append wanted (c ∷ cs) t q)
          ∙ cc now
      | inl q ↦
          let (more, h, k) =
            here_or-some c (find_bytes wanted cs)
              (ap (λ o. here_or c o (find_bytes wanted cs)) (sym q) ∙ e) in
          let within = length-find_bytes wanted cs k in
          ap (λ o. here_or c o (find_bytes wanted (cs ++ t)))
            (strip_prefix-append_none wanted (c ∷ cs) t q (omega arith))
          ∙ (ap (here_or c none) (find_bytes-append wanted cs t k)
              ∙ here_or-behind c more (tail ++ t) h)
    ]
