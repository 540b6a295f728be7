-- ===== src/Settings/Alias.antt =====
-- No byte of a valid alias ends a line or the text.
use localsend3ds.Prelude.{
  ℕ, zero, suc, ◌+◌, ◌-◌, ◌/◌, ◌*◌, ◌%◌, ◌≡◌, refl, sym, arith, Bool, true, false, ◌||◌, Bool-cases,
  Option-cases, inl, inr, Option, none, some, [], ◌∷◌, Bytes, All, ltb, ◌==◌, within,
}
use localsend3ds.Utf8.{sequence, lead, continue, finish, follow, refused}
use localsend3ds.Settings.{wide, alias_byte, showing, alias_loop, valid_alias}

-- A byte that ends neither a line nor a text.
abbrev pub Inside : ℕ → Type 0
Inside c = ((c == 0) ≡ false) × ((c == 10) ≡ false) × ((c == 13) ≡ false)

-- The next bytes of a sequence.
FirstInside : ℕ → Bytes → Type 0
FirstInside zero s = Unit
FirstInside (suc n) [] = Unit
FirstInside (suc n) (c ∷ cs) = Inside c × FirstInside n cs

tt_first : (s : Bytes) → FirstInside 0 s
unfolding FirstInside
tt_first s = tt

continue-FirstInside :
    (n cp : ℕ) (rest : Bytes) {x : ℕ} → continue n cp rest ≡ some x → FirstInside n rest
unfolding continue FirstInside
continue-FirstInside zero cp rest e = tt
continue-FirstInside (suc n) cp [] e = tt
continue-FirstInside (suc n) cp (next ∷ rest) e = elim (Bool-cases (next / 64 == 2)) [
  | inl h ↦ (ground arith, continue-FirstInside n (cp * 64 + next % 64) rest (rw h at e))
  | inr h ↦ absurd (cc (rw h at e))
]

finish-FirstInside :
    (n : ℕ) (o : Option ℕ) (rest : Bytes) {count cp : ℕ}
    → ((x : ℕ) → o ≡ some x → FirstInside n rest)
    → finish n o ≡ some (count, cp)
    → FirstInside (count - 1) rest
unfolding finish
finish-FirstInside n none rest f e = cc e
finish-FirstInside n (some x) rest {count} f e = elim (Bool-cases (refused n x)) [
  | inl h ↦ absurd (cc (rw h at e))
  | inr h ↦
      let size : count ≡ suc n = cc (rw h at e) in
      let less : count - 1 ≡ n = omega (arith, size) in rw less (f x refl)
]

follow-FirstInside :
    (rest : Bytes) (o : Option (ℕ × ℕ)) {count cp : ℕ}
    → follow rest o ≡ some (count, cp)
    → FirstInside (count - 1) rest
unfolding follow
follow-FirstInside rest none e = cc e
follow-FirstInside rest (some (zero, bits)) {count} e =
    let size : count ≡ 1 = cc e in
    let less : count - 1 ≡ 0 = omega (arith, size) in rw less (tt_first rest)
follow-FirstInside rest (some (suc n, bits)) e =
    finish-FirstInside (suc n) (continue (suc n) bits rest) rest
      (λ x h. continue-FirstInside (suc n) bits rest h) e

sequence-FirstInside :
    (c : ℕ) (rest : Bytes) {count cp : ℕ}
    → sequence c rest ≡ some (count, cp)
    → FirstInside (count - 1) rest
unfolding sequence
sequence-FirstInside c rest e = follow-FirstInside rest (lead c) e

wide-FirstInside :
    (c : ℕ) (rest : Bytes) (o : Option (ℕ × ℕ)) {shows : Bool} {skip : ℕ}
    → sequence c rest ≡ o
    → wide o ≡ some (shows, skip)
    → FirstInside skip rest
wide-FirstInside c rest none q e = cc e
wide-FirstInside c rest (some (count, cp)) {shows} {skip} q e =
    elim (Bool-cases (within 0x80 0x9f cp)) [
      | inl h ↦ absurd (cc (rw h at e))
      | inr h ↦
          let same : count - 1 ≡ skip = cc (rw h at e) in
          rw (sym same) (sequence-FirstInside c rest q)
    ]

-- A byte that the loop accepts, with the rest of its sequence.
alias_byte-Inside :
    (c : ℕ) (rest : Bytes) {shows : Bool} {skip : ℕ}
    → alias_byte c rest ≡ some (shows, skip)
    → Inside c × FirstInside skip rest
unfolding alias_byte
alias_byte-Inside c rest {shows} {skip} e = elim (Bool-cases (ltb c 0x80)) [
  | inr h ↦ (ground arith, wide-FirstInside c rest (sequence c rest) refl (rw h at e))
  | inl h ↦ elim (Bool-cases (ltb c 0x20 || c == 0x7f)) [
    | inl k ↦ absurd (cc (rw (h, k) at e))
    | inr k ↦
        let none_left : 0 ≡ skip = cc (rw (h, k) at e) in
        (ground arith, rw (sym none_left) (tt_first rest))
  ]
]

alias_case :
    (o : Option (Bool × ℕ)) (f : Bool × ℕ → Option Bool) {b : Bool}
    → elim o [ none ↦ none | some p ↦ f p ] ≡ some b
    → (p : Bool × ℕ) × (o ≡ some p) × (f p ≡ some b)
alias_case none f e = cc e
alias_case (some p) f e = (p, refl, e)

showing_lem :
    (shows : Bool) (o : Option Bool) {b : Bool}
    → showing shows o ≡ some b
    → (c : Bool) × (o ≡ some c)
showing_lem shows none e = cc e
showing_lem shows (some c) e = (c, refl)

-- No byte of an alias that is accepted ends a line or the text.
alias_loop-Inside :
    (skip : ℕ) (s : Bytes) {b : Bool}
    → alias_loop skip s ≡ some b
    → FirstInside skip s
    → All Inside s
unfolding alias_loop FirstInside
alias_loop-Inside skip [] e f = tt
alias_loop-Inside (suc skip) (c ∷ cs) e f = (f.0, alias_loop-Inside skip cs e f.1)
alias_loop-Inside zero (c ∷ cs) e f =
    let (p, q, h) = alias_case (alias_byte c cs) (λ p. showing p.0 (alias_loop p.1 cs)) e in
    let (inside, first) = alias_byte-Inside c cs q in
    let (later, k) = showing_lem p.0 (alias_loop p.1 cs) h in
    (inside, alias_loop-Inside p.1 cs k first)

pub valid_alias-Inside : (s : Bytes) → valid_alias s ≡ true → All Inside s
unfolding valid_alias
valid_alias-Inside s h = elim (Option-cases (alias_loop 0 s)) [
  | inl e ↦ absurd (ground (arith, e))
  | inr (b, e) ↦ alias_loop-Inside 0 s e (tt_first s)
]
