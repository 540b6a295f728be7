-- ===== src/UiModel.antt =====
-- source/ui_model.c: the window of a list, and the progress of a transfer.
pub mod Window
mod Tests
use localsend3ds.Prelude.{
  ℕ, zero, suc, ◌+◌, ◌-◌, ◌*◌, ◌/◌, ◌%◌, Bool, ◌||◌, ltb, leb, ◌==◌, if◌then◌else◌,
}

-- The first row, once `selected` is an index.
abbrev start_of : ℕ → ℕ → ℕ → ℕ
start_of selected count visible_rows =
    let start = if leb visible_rows selected then selected - visible_rows + 1 else 0 in
    if ltb count (start + visible_rows) then count - visible_rows else start

-- `ls_ui_list_start`
unfoldable pub list_start : ℕ → ℕ → ℕ → ℕ
list_start selected count visible_rows =
    if count == 0 || visible_rows == 0 || leb count visible_rows
    then 0
    else start_of (if leb count selected then count - 1 else selected) count visible_rows

-- The least number of bytes that shows as `percentage`.
abbrev pub threshold : ℕ → ℕ → ℕ
threshold total percentage = total / 100 * percentage + (total % 100 * percentage + 99) / 100

-- The loop of `ls_ui_percentage`, from a percentage down to 1.
unfoldable pub percentage_loop : ℕ → ℕ → ℕ → ℕ
percentage_loop current total zero = 0
percentage_loop current total (suc p) =
    let further = percentage_loop current total p in
    if leb (threshold total (suc p)) current then suc p else further

-- `ls_ui_percentage`
unfoldable pub percentage : ℕ → ℕ → Bool → ℕ
unfolding percentage_loop
percentage current total completed =
    if completed
    then 100
    else if total == 0
    then 0
    else if leb total current
    then 100
    else percentage_loop current total 99
