-- ===== src/UiModel/Tests.antt =====
-- A list of five rows of which three are shown, and a third of a file.
use localsend3ds.Prelude.{suc, ◌+◌, ◌*◌, ◌≤◌, ◌<◌, ◌⊎◌, false, arith}
use localsend3ds.UiModel.{list_start, percentage}
use localsend3ds.UiModel.Window.{list_start-shows, percentage_lem}

list_start-shows_example :
    (list_start 3 5 3 ≤ 3) × (3 < list_start 3 5 3 + 3) × ((5 ≤ 3) ⊎ (list_start 3 5 3 + 3 ≤ 5))
list_start-shows_example = list_start-shows 3 5 3 (omega arith) (omega arith)

percentage_example :
    (3 * percentage 1 3 false ≤ 100 * 1) × (100 * 1 < 3 * suc (percentage 1 3 false))
percentage_example = percentage_lem 1 3 (omega arith)
