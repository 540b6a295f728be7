-- ===== src/Protocol/Decimal.antt =====
-- A number that is written in decimal digits is read back.
use localsend3ds.Prelude.{
  ℕ, zero, suc, ◌+◌, ◌-◌, ◌*◌, ◌/◌, ◌%◌, ◌^◌, ◌≤◌, ◌<◌, ◌≡◌, sym, ap, ◌∙◌, true, false, some, [],
  ◌∷◌, Bytes, ltb, All, Bool-cases, inl, inr, arith,
}
use native.Mathlib.Nat.{pow-suc}
use localsend3ds.Json.Cursor.{is_digit}
use localsend3ds.Protocol.Object.{digits_loop, uint64_max}
use localsend3ds.Protocol.Write.{decimal, decimal_digits}

abbrev pub IsDigit : ℕ → Type 0
IsDigit c = (b'0' ≤ c) × (c ≤ b'9')

digits_loop-digit :
    (max n count d m : ℕ) (s : Bytes)
    → d < 10
    → m ≡ n * 10 + d
    → m ≤ max
    → digits_loop max n count ((b'0' + d) ∷ s) ≡ digits_loop max m (suc count) s
unfolding digits_loop
digits_loop-digit max n count d m s l e b =
    rw (digit, same, room) (ap (λ k. digits_loop max k (suc count) s) (sym e))
  where
    same : (48 + d) - 48 ≡ d
    same = omega arith

    digit : is_digit (48 + d) ≡ true
    digit = ground arith

    room : ltb ((max - d) / 10) n ≡ false
    room = ground arith

quotient_fits : (fuel n : ℕ) → n < 10 ^ suc fuel → n / 10 < 10 ^ fuel
quotient_fits fuel n l = omega (arith, l, pow-suc 10 fuel)

-- The digits written in front of `s` are read as their number.
digits_loop-decimal_digits :
    (max fuel n : ℕ) (s : Bytes)
    → n ≤ max
    → n < 10 ^ suc fuel
    → (count : ℕ) × (digits_loop max 0 0 (decimal_digits (suc fuel) n s)
        ≡ digits_loop max n (suc count) s)
unfolding decimal_digits
digits_loop-decimal_digits max zero n s m l =
    let one : ltb n 10 ≡ true = ground arith in
    rw one (0, digits_loop-digit max 0 0 n n s (omega arith) (omega arith) m)
digits_loop-decimal_digits max (suc fuel) n s m l = elim (Bool-cases (ltb n 10)) [
  | inl e ↦ rw e (0, digits_loop-digit max 0 0 n n s (ground arith) (omega arith) m)
  | inr e ↦
      let (count, read) =
        digits_loop-decimal_digits max fuel (n / 10) ((b'0' + n % 10) ∷ s) (omega arith)
          (quotient_fits (suc fuel) n l) in
      rw e (
        suc count,
        read
            ∙ digits_loop-digit max (n / 10) (suc count) (n % 10) n s (omega arith) (omega arith) m,
      )
]

pub digits_loop-decimal :
    (n : ℕ)
    → n ≤ uint64_max
    → (count : ℕ) × (digits_loop uint64_max 0 0 (decimal n) ≡ some (n, suc count, []))
unfolding decimal digits_loop
digits_loop-decimal n l = digits_loop-decimal_digits uint64_max 19 n [] l (omega arith)

decimal_digits-IsDigit :
    (fuel n : ℕ) (s : Bytes) → All IsDigit s → All IsDigit (decimal_digits fuel n s)
unfolding decimal_digits
decimal_digits-IsDigit zero n s h = h
decimal_digits-IsDigit (suc fuel) n s h = elim (Bool-cases (ltb n 10)) [
  | inl e ↦ rw e ((ground arith), h)
  | inr e ↦
      rw e
        (decimal_digits-IsDigit fuel (n / 10) ((b'0' + n % 10) ∷ s) ((omega arith, omega arith), h))
]

pub decimal-IsDigit : (n : ℕ) → All IsDigit (decimal n)
unfolding decimal
decimal-IsDigit n = decimal_digits-IsDigit 20 n [] tt
