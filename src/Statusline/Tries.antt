-- ===== src/Statusline/Tries.antt =====
-- What the layout of the ledger tries (internal/statusline/ledger.go): the grids, fewest rows first, the
-- fits, roomiest first, and the columns of a grid.
use c_squad.Statusline.Ledger.{Entry}
use c_squad.Statusline.Columns.{Fit}
use c_squad.Statusline.Width.{width}
use c_squad.Base.{
  ℕ, zero, suc, ◌+◌, ◌-◌, ◌*◌, ◌/◌, max, min, Bool, true, false, List, [], ◌∷◌, ◌++◌, map, length,
  take, drop, Text,
}

abbrev pub max_rows : ℕ
max_rows = 4

-- A layout to try: so many rows of tasks, and the first tasks that it shows.
pub record Grid : Type 0 where
  pub rows : ℕ
  pub shown : ℕ

-- One row, two rows, and so on to `left` more.
unfoldable pub full_grids : ℕ → ℕ → ℕ → List Grid
full_grids n r zero = []
full_grids n r (suc left) = record { rows = r; shown = n } ∷ full_grids n (r + 1) left

-- Three rows of `ncol` columns, of one column fewer, and so on down to one.
unfoldable pub cut_grids : ℕ → List Grid
cut_grids zero = []
cut_grids (suc ncol) =
    record { rows = max_rows - 1; shown = (max_rows - 1) * suc ncol } ∷ cut_grids ncol

unfoldable pub grids : ℕ → List Grid
unfolding full_grids cut_grids
grids n = full_grids n 1 (min n max_rows) ++ cut_grids ((n + max_rows - 1) / max_rows - 1)

abbrev pub whole : ℕ
whole = 0x100000

-- `for x := from; x >= to; x--`, as a list of the values of a loop variable.
unfoldable pub down_by : ℕ → ℕ → List ℕ
down_by from zero = []
down_by from (suc left) = from ∷ down_by (from - 1) left

unfoldable pub down_to : ℕ → ℕ → List ℕ
unfolding down_by
down_to from to = down_by from (from + 1 - to)

unfoldable pub widest_of : (Entry → Text) → List Entry → ℕ
widest_of f [] = 0
widest_of f (e ∷ es) = max (width (f e)) (widest_of f es)

abbrev min_badge : ℕ
min_badge = 16

abbrev fit_at : ℕ → ℕ → ℕ → ℕ → Fit
fit_at title usage badge state = record {
  title = title;
  usage = usage;
  badge = badge;
  state = state;
}

-- The steps of a single column after the ones that only shorten titles.
unfoldable pub single_rest : ℕ → ℕ → List Fit
single_rest title_w state_w =
    let keep = min 12 title_w in
    map (λ t. fit_at t 1 whole whole) (down_to title_w keep)
    ++ map (λ t. fit_at t 0 whole whole) (down_to title_w keep)
    ++ map (λ b. fit_at keep 0 b whole) (down_to (state_w - 1) min_badge)
    ++ map (λ t. fit_at t 0 min_badge whole) (down_to keep 0)
    ++ map (λ s. fit_at 0 0 (min min_badge s) s) (down_to state_w 0)

unfoldable pub single_steps : ℕ → ℕ → List Fit
unfolding single_rest
single_steps title_w state_w =
    map (λ t. fit_at t 2 whole whole) (down_to title_w (min 12 title_w))
    ++ single_rest title_w state_w

-- The fits to try, roomiest first. `stateW - 1` of an empty state leaves no badge to cut.
unfoldable pub fit_steps : List Entry → Bool → List Fit
unfolding widest_of single_steps
fit_steps es true =
    let title_w = widest_of (λ e. e.title) es in
    let state_w = widest_of (λ e. e.state) es in
    let keep = min 16 title_w in
    map (λ t. fit_at t 2 whole whole) (down_to title_w keep)
    ++ map (λ b. fit_at keep 2 b whole) (down_to (state_w - 1) min_badge)
fit_steps es false = single_steps (widest_of (λ e. e.title) es) (widest_of (λ e. e.state) es)

-- The columns of a grid, filled one after the other. The fuel is the number of entries: each column
-- takes at least one.
unfoldable pub chunks_in : ℕ → ℕ → List Entry → List (List Entry)
chunks_in fuel rows [] = []
chunks_in zero rows (e ∷ es) = []
chunks_in (suc fuel) rows (e ∷ es) = take rows (e ∷ es) ∷ chunks_in fuel rows (drop rows (e ∷ es))

unfoldable pub chunks : ℕ → List Entry → List (List Entry)
unfolding chunks_in
chunks rows es = chunks_in (length es) rows es
