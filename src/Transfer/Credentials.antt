-- ===== src/Transfer/Credentials.antt =====
-- The credentials of an upload: the comparison, and who may start the stream.
use localsend3ds.Prelude.{
  ℕ, zero, suc, ◌-◌, ◌<◌, ◌≤◌, ◌≡◌, refl, Bool, true, false, ◌&&◌, ◌==◌, [], ◌∷◌, Bytes, length,
  str_eq, eq_of_str_eq, str_eq_refl, Bool-cases, inl, inr, arith, ◌↔◌, ==_refl,
}
use localsend3ds.Transfer.{
  Transfer, accepted, compare_loop, constant_time_equal, validate_upload, behind,
}

-- Where the rounds cover both strings, the loop compares them.
compare_loop_lem :
    (n : ℕ) (left right : Bytes) (same : Bool)
    → length left ≤ n
    → length left ≡ length right
    → compare_loop n left right same ≡ (same && str_eq left right)
unfolding compare_loop str_eq
compare_loop_lem zero [] [] same h e = ground arith
compare_loop_lem (suc n) [] [] same h e =
    rw (compare_loop_lem n [] [] (same && true) (omega arith) refl) (ground arith)
compare_loop_lem n [] (y ∷ ys) same h e = cc e
compare_loop_lem n (x ∷ xs) [] same h e = cc e
compare_loop_lem zero (x ∷ xs) (y ∷ ys) same h e = ground arith
compare_loop_lem (suc n) (x ∷ xs) (y ∷ ys) same h e =
    rw (compare_loop_lem n xs ys (same && x == y) (omega arith) (omega arith)) (ground arith)

compare_loop-false : (n : ℕ) (left right : Bytes) → compare_loop n left right false ≡ false
unfolding compare_loop
compare_loop-false zero left right = refl
compare_loop-false (suc n) left right = compare_loop-false n (behind left) (behind right)

str_eq-length : (a b : Bytes) → (length a == length b) ≡ false → str_eq a b ≡ false
str_eq-length a b h = elim (Bool-cases (str_eq a b)) [
  | inl e ↦ (let same : a ≡ b = eq_of_str_eq a b e in cc (rw same at h, ==_refl (length b)))
  | inr e ↦ e
]

-- For a left string that fits its buffer, whose capacity counts the NUL, the comparison in constant
-- time gives what `strcmp(left, right) == 0` does, however long the right string is.
pub constant_time_equal_lem :
    (left : Bytes) (capacity : ℕ) (right : Bytes)
    → length left < capacity
    → constant_time_equal left capacity right ≡ str_eq left right
unfolding constant_time_equal
constant_time_equal_lem left capacity right h = elim (Bool-cases (length left == length right)) [
  | inl e ↦ rw e (compare_loop_lem (capacity - 1) left right true (omega arith) (ground arith))
  | inr e ↦ rw e (rw (str_eq-length left right e) (compare_loop-false (capacity - 1) left right))
]

-- The tests of `validate_upload`, as equations.
str_eq_iff : (a b : Bytes) → (str_eq a b ≡ true) ↔ (a ≡ b)
str_eq_iff a b = (eq_of_str_eq a b, λ e. rw e (str_eq_refl b))

-- Where the stored identifiers fit their buffers, an upload is let through exactly when the transfer
-- is accepted and the address, the session, the file and the token are those it was accepted with.
pub validate_upload_iff :
    {F : Type 0} (t : Transfer F) (ip session file token : Bytes)
    → length t.session_id < 65
    → length t.metadata.id < 129
    → length t.file_token < 65
    → (validate_upload t ip session file token ≡ true) ↔ (
        (t.state ≡ accepted)
        × (t.sender_ip ≡ ip)
        × (t.session_id ≡ session)
        × (t.metadata.id ≡ file)
        × (t.file_token ≡ token))
unfolding validate_upload
validate_upload_iff t ip session file token hs hf ht =
    rw
      (
        constant_time_equal_lem t.session_id 65 session hs,
        constant_time_equal_lem t.metadata.id 129 file hf,
        constant_time_equal_lem t.file_token 65 token ht,
      )
      (ground (
        arith,
        str_eq_iff t.sender_ip ip,
        str_eq_iff t.session_id session,
        str_eq_iff t.metadata.id file,
        str_eq_iff t.file_token token,
      ))
