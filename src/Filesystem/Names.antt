-- ===== src/Filesystem/Names.antt =====
-- What a name that `ls_filename_sanitize` accepts can hold.
use localsend3ds.Prelude.{
  ℕ, zero, suc, ◌-◌, ◌≤◌, ◌<◌, ◌≡◌, ◌≢◌, refl, ap, false, inl, inr, ◌⊎◌, Option-cases, some, [],
  ◌∷◌, Bytes, ltb, leb, Bool-cases, All, length, codes, str_eq, is_empty, arith,
}
use localsend3ds.Utf8.{sequence}
use localsend3ds.Filesystem.{
  Sanitized, clean, refused, prepend, substitute, Verdict, stop, copy, judge, sanitize_loop,
  last_byte, is_dots, sanitize,
}

-- A byte that names neither a directory nor anything that the card refuses.
pub record SafeByte (c : ℕ) : Type 0 where
  pub printable : 0x20 ≤ c
  pub not_delete : c ≢ 0x7f
  pub not_slash : c ≢ b'/'
  pub not_backslash : c ≢ b'\\'
  pub not_less : c ≢ b'<'
  pub not_greater : c ≢ b'>'
  pub not_colon : c ≢ b':'
  pub not_quote : c ≢ b'"'
  pub not_bar : c ≢ b'|'
  pub not_question : c ≢ b'?'
  pub not_star : c ≢ b'*'

-- The next `k` bytes are not ASCII.
abbrev HighFor : ℕ → Bytes → Type 0
HighFor zero s = Unit
HighFor (suc k) [] = Unit
HighFor (suc k) (c ∷ cs) = (0x80 ≤ c) × HighFor k cs

sequence-HighFor :
    (c : ℕ) (cs : Bytes) {n cp : ℕ} → sequence c cs ≡ some (n, cp) → HighFor (n - 1) cs
unfolding sequence
sequence-HighFor c [] h = ground arith
sequence-HighFor c (x ∷ []) h = ground arith
sequence-HighFor c (x ∷ y ∷ []) h = ground arith
sequence-HighFor c (x ∷ y ∷ z ∷ rest) h = ground arith

substitute-SafeByte : (c : ℕ) → 0x20 ≤ c → c ≢ 0x7f → c ≢ b'/' → c ≢ b'\\' → SafeByte (substitute c)
unfolding substitute
substitute-SafeByte c lo del slash back = ground arith

-- A round that copies has met an ASCII byte that is allowed, or a whole UTF-8 sequence.
judge-cases :
    (c : ℕ) (cs : Bytes) {out skip : ℕ}
    → judge c cs ≡ copy out skip
    → ((out ≡ substitute c) × (skip ≡ 0) × (0x20 ≤ c) × (c ≢ 0x7f) × (c ≢ b'/') × (c ≢ b'\\'))
      ⊎ ((n : ℕ) × (cp : ℕ) × (sequence c cs ≡ some (n, cp))
          × (out ≡ c)
          × (skip ≡ n - 1)
          × (0x80 ≤ c))
unfolding judge
judge-cases c cs {out} {skip} h = elim (Bool-cases (ltb c 0x80)) [
  | inl low ↦ inl (ground arith)
  | inr high ↦ elim (Option-cases (sequence c cs)) [
    | inl e ↦ absurd (ground arith)
    | inr ((n, cp), e) ↦ inr (n, cp, e, ground arith, ground arith, ground arith)
  ]
]

high-SafeByte : (c : ℕ) → 0x80 ≤ c → SafeByte c
high-SafeByte c h = ground arith

judge-SafeByte :
    (c : ℕ) (cs : Bytes) {out skip : ℕ}
    → judge c cs ≡ copy out skip
    → SafeByte out × HighFor skip cs
judge-SafeByte c cs {out} {skip} h = elim (judge-cases c cs h) [
  | inl (e, z, a, b, d, f) ↦ rw (e, z) (substitute-SafeByte c a b d f, tt)
  | inr (n, cp, s, e, z, a) ↦ rw (e, z) (high-SafeByte c a, sequence-HighFor c cs s)
]

clean_inj : {a b : Bytes} → clean a ≡ clean b → a ≡ b
clean_inj h = cc

-- The loop copies byte for byte.
record Copied (s out : Bytes) : Type 0 where
  safe : All SafeByte out
  same_length : length out ≡ length s

extend :
    (c d : ℕ) (cs : Bytes) (r : Sanitized) {out : Bytes}
    → SafeByte d
    → ((more : Bytes) → r ≡ clean more → Copied cs more)
    → prepend d r ≡ clean out
    → Copied (c ∷ cs) out
extend c d cs (clean more) {out} safe ih h =
    let e : d ∷ more ≡ out = cc in
    let k = ih more refl in
    rw (← e) (record { safe = (safe, k.safe); same_length = ap suc k.same_length })
extend c d cs (refused e) safe ih h = cc

loop-Copied :
    (skip : ℕ) (s : Bytes) {out : Bytes}
    → HighFor skip s
    → sanitize_loop skip s ≡ clean out
    → Copied s out
unfolding sanitize_loop
loop-Copied zero [] high h = rw (← clean_inj h) (record { safe = tt; same_length = refl })
loop-Copied (suc skip) [] high h = rw (← clean_inj h) (record { safe = tt; same_length = refl })
loop-Copied (suc skip) (c ∷ cs) high h =
    extend c c cs (sanitize_loop skip cs) (high-SafeByte c high.0)
      (λ more. loop-Copied skip cs {out = more} high.1) h
loop-Copied zero (c ∷ cs) {out} high h =
    by_verdict (judge c cs) refl (λ skip more. loop-Copied skip cs {out = more})
  where
    by_verdict :
        (v : Verdict)
        → judge c cs ≡ v
        → ((skip : ℕ) (more : Bytes)
            → HighFor skip cs
            → sanitize_loop skip cs ≡ clean more
            → Copied cs more)
        → Copied (c ∷ cs) out
    by_verdict (stop e) j ih = absurd (cc (rw (j, sanitize_loop) at h))
    by_verdict (copy d skip) j ih =
        let (safe, more_high) = judge-SafeByte c cs j in
        extend c d cs (sanitize_loop skip cs) safe (λ more. ih skip more more_high)
          (rw (j, sanitize_loop) at h)

-- A name under which a file may be stored.
pub record IsSafe (input name : Bytes) : Type 0 where
  pub bytes : All SafeByte name
  pub same_length : length name ≡ length input
  pub not_empty : is_empty name ≡ false
  pub not_dot : name ≢ codes "."
  pub not_dots : name ≢ codes ".."
  pub no_blank_end : last_byte name ≢ b' '
  pub no_dot_end : last_byte name ≢ b'.'

-- A name that `ls_filename_sanitize` accepts fits its buffer, and has the length of the input; it
-- is not empty and no dot entry, ends in neither a blank nor a dot, and holds no ASCII control
-- character, no slash or backslash and none of `< > : " | ? *`.
pub sanitize-IsSafe :
    (input : Bytes) (capacity : ℕ) {name : Bytes}
    → sanitize input capacity ≡ clean name
    → IsSafe input name × (length name < capacity)
unfolding sanitize str_eq
sanitize-IsSafe input capacity {name} h = by_result (sanitize_loop 0 input) refl
  where
    by_result :
        (r : Sanitized) → sanitize_loop 0 input ≡ r → IsSafe input name × (length name < capacity)
    by_result (refused e) r = absurd (ground arith)
    by_result (clean out) r =
        let k = loop-Copied 0 input tt r in
        let e : out ≡ name = ground arith in
        let not_dots : is_dots out ≡ false = ground arith in
        let room : leb capacity (length input) ≡ false = ground arith in
        rw (← e) (
          record {
            bytes = k.safe;
            same_length = k.same_length;
            not_empty = ground arith;
            not_dot = λ d. cc (rw d at not_dots);
            not_dots = λ d. cc (rw d at not_dots);
            no_blank_end = ground arith;
            no_dot_end = ground arith;
          },
          ground (arith, k.same_length),
        )
