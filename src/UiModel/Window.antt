-- ===== src/UiModel/Window.antt =====
-- The selected row is on the screen, and the percentage is rounded down.
use localsend3ds.Prelude.{
  ℕ, zero, suc, ◌+◌, ◌*◌, ◌/◌, ◌%◌, ◌≤◌, ◌<◌, ◌≡◌, ◌⊎◌, true, false, leb, ◌==◌, Bool-cases, inl,
  inr, arith,
}
use localsend3ds.UiModel.{list_start, threshold, percentage_loop, percentage}

-- For a selected row of a list and a window of at least one row, the row is in the window that
-- starts at the answer, and the window ends within the list unless the list is no longer than it.
pub list_start-shows :
    (selected count visible_rows : ℕ)
    → selected < count
    → 0 < visible_rows
    → (list_start selected count visible_rows ≤ selected)
      × (selected < list_start selected count visible_rows + visible_rows)
      × ((count ≤ visible_rows) ⊎ (list_start selected count visible_rows + visible_rows ≤ count))
unfolding list_start
list_start-shows selected count visible_rows h v = ground arith

-- A threshold is the share of the total, rounded up.
threshold_lem : (a b c : ℕ) → leb (a + (b + 99) / 100) c ≡ true → 100 * a + b ≤ 100 * c
threshold_lem a b c h = ground arith

below_lem : (a b c : ℕ) → leb (a + (b + 99) / 100) c ≡ false → 100 * c < 100 * a + b
below_lem a b c h = ground arith

share_lem : (q r p t : ℕ) → t ≡ 100 * q + r → t * p ≡ 100 * (q * p) + r * p
share_lem q r p t e = rw e (omega arith)

total_share : (total p : ℕ) → total * p ≡ 100 * (total / 100 * p) + total % 100 * p
total_share total p = share_lem (total / 100) (total % 100) p total (omega arith)

loop_lem :
    (current total p : ℕ)
    → 100 * current < total * suc p
    → (total * percentage_loop current total p ≤ 100 * current)
      × (100 * current < total * suc (percentage_loop current total p))
unfolding percentage_loop
loop_lem current total zero h = (omega arith, h)
loop_lem current total (suc p) h = elim (Bool-cases (leb (threshold total (suc p)) current)) [
  | inl b ↦ rw b (
    omega (
      arith,
      total_share total (suc p),
      threshold_lem (total / 100 * suc p) (total % 100 * suc p) current b,
    ),
    h,
  )
  | inr b ↦ rw b (
      loop_lem current total p (
        omega (
          arith,
          total_share total (suc p),
          below_lem (total / 100 * suc p) (total % 100 * suc p) current b,
        )))
]

-- Of a transfer that is not complete, the percentage shown is that of the bytes so far, rounded down.
pub percentage_lem :
    (current total : ℕ)
    → current < total
    → (total * percentage current total false ≤ 100 * current)
      × (100 * current < total * suc (percentage current total false))
unfolding percentage
percentage_lem current total h =
    let nonzero : (total == 0) ≡ false = ground arith in
    let below : leb total current ≡ false = ground arith in
    rw (nonzero, below) (loop_lem current total 99 (omega arith))
