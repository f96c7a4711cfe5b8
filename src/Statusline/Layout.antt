-- ===== src/Statusline/Layout.antt =====
-- The layout of the ledger (internal/statusline/ledger.go): the lines of the first grid and fit that
-- fit.
use c_squad.Statusline.Ledger.{Task, Entry, new_entry, amber}
use c_squad.Statusline.Lines.{Line, Screen, plain, fg, spaces, line_width, clip, render}
use c_squad.Statusline.Columns.{Fit, Fields, row_width, measure, cell}
use c_squad.Statusline.Tries.{Grid, grids, down_to, fit_steps, chunks}
use c_squad.Statusline.Overflow.{overflow}
use c_squad.Statusline.Width.{clean}
use c_squad.Base.{
  ℕ, zero, suc, ◌+◌, ◌-◌, Bool, ◌&&◌, ◌||◌, not, Option, none, some, List, [], ◌∷◌, ◌++◌, map, ◌==◌,
  ltb, leb, is_empty, length, take, drop, if◌then◌else◌, Text, lit,
}

abbrev pub margin : ℕ
margin = 4

abbrev pub column_gap : ℕ
column_gap = 3

-- The width of all columns with the gaps between them.
unfoldable pub total_width : List Fields → ℕ
total_width [] = 0
total_width (w ∷ []) = row_width w
total_width (w ∷ v ∷ ws) = row_width w + column_gap + total_width (v ∷ ws)

unfoldable pub try_fit : Screen → List (List Entry) → Fit → List Fields
try_fit p cols f = map (measure p f) cols

abbrev pub fits : ℕ → List Fields → Bool
fits usable ws = leb (total_width ws) usable

-- A badge wider than the state and usage fields leaves room for usage parts that the step down dropped:
-- from two parts down to one more than the step keeps.
unfoldable pub roomier : Screen → List (List Entry) → ℕ → Fit → List ℕ → Fit
roomier p cols usable f [] = f
roomier p cols usable f (u ∷ us) =
    let rest = roomier p cols usable f us in
    if fits usable (try_fit p cols (record f { usage = u })) then record f { usage = u } else rest

unfoldable pub with_usage : Screen → List (List Entry) → ℕ → Fit → Fit
unfolding roomier
with_usage p cols usable f =
    if fits usable (try_fit p cols f) then roomier p cols usable f (down_to 2 (f.usage + 1)) else f

-- The first fit that fits; the last one of a single column is taken as it is.
unfoldable pub choose : Screen → List (List Entry) → ℕ → Bool → List Fit → Option Fit
choose p cols usable last [] = none
choose p cols usable last (f ∷ fs) =
    let rest = choose p cols usable last fs in
    if fits usable (try_fit p cols f) || (last && is_empty fs)
    then some (with_usage p cols usable f)
    else rest

-- One line of the layout: the r-th row of each column that has one. `before` fills the gap after the
-- column before it.
line_at : Screen → Fit → ℕ → Line → List (List Entry × Fields) → Line
line_at p f r before [] = []
line_at p f r before ((c, w) ∷ cols) = elim (drop r c) [
  | [] ↦ line_at p f r before cols
  | e ∷ _ ↦
      let here = cell p e w f in
      before
      ++ here
      ++ line_at p f r (spaces (column_gap + row_width w - line_width here) ∷ []) cols
]

unfoldable pub lines_from : Screen → Fit → List (List Entry × Fields) → ℕ → ℕ → List Line
unfolding line_at
lines_from p f cols r zero = []
lines_from p f cols r (suc left) = line_at p f r [] cols ∷ lines_from p f cols (r + 1) left

unfoldable pub first_length : List (List Entry) → ℕ
first_length [] = 0
first_length (c ∷ cols) = length c

unfoldable pub zipped : (List Entry → Fields) → List (List Entry) → List (List Entry × Fields)
zipped m [] = []
zipped m (c ∷ cols) = (c, m c) ∷ zipped m cols

-- The lines of the tasks, and the one of the hidden tasks.
unfoldable pub lines_of : Screen → List (List Entry) → List Entry → Fit → ℕ → List Line
unfolding lines_from first_length zipped
lines_of p cols rest f usable = map (clip usable) (
    lines_from p f (zipped (measure p f) cols) 0 (first_length cols)
    ++ (if is_empty rest then [] else (plain (lit "  ") ∷ overflow p rest (usable - 2)) ∷ []))

unfoldable pub laid : Screen → List (List Entry) → List Entry → ℕ → Option Fit → Option (List Line)
laid p cols rest usable none = none
laid p cols rest usable (some f) = some (lines_of p cols rest f usable)

abbrev pub is_single : List (List Entry) → Bool
is_single cols = length cols == 1

-- The lines of one grid, where a fit is found.
unfoldable pub in_grid : Screen → List Entry → ℕ → Grid → Option (List Line)
unfolding laid
in_grid p es usable g =
    let shown = take g.shown es in
    let cols = chunks g.rows shown in
    laid p cols (drop g.shown es) usable
      (choose p cols usable (is_single cols) (fit_steps shown (not (is_single cols))))

unfoldable pub or_later : Option (List Line) → List Line → List Line
or_later none later = later
or_later (some l) later = l

unfoldable pub first_grid : Screen → List Entry → ℕ → List Grid → List Line
unfolding in_grid or_later
first_grid p es usable [] = []
first_grid p es usable (g ∷ gs) =
    let later = first_grid p es usable gs in or_later (in_grid p es usable g) later

-- `sort.SliceStable` by rank and id.
before : Entry → Entry → Bool
before a b =
    ltb a.style.rank b.style.rank || (a.style.rank == b.style.rank && ltb a.task.id b.task.id)

unfoldable pub put_in : Entry → List Entry → List Entry
unfolding before
put_in e [] = e ∷ []
put_in e (d ∷ ds) = let rest = put_in e ds in if before d e then d ∷ rest else e ∷ d ∷ ds

unfoldable pub sorted : List Entry → List Entry
unfolding put_in
sorted [] = []
sorted (e ∷ es) = put_in e (sorted es)

-- The lines of the ledger.
unfoldable pub layout_lines : Screen → List Task → ℕ → List Line
layout_lines p tasks columns =
    if is_empty tasks || ltb (columns - margin) 1
    then []
    else first_grid p (sorted (map new_entry tasks)) (columns - margin) (grids (length tasks))

-- `Layout`: the ledger as it is written to the terminal.
unfoldable pub layout : Screen → List Task → ℕ → List Text
layout p tasks columns = map render (layout_lines p tasks columns)

-- A row that stands for the ledger when it cannot be shown.
unfoldable pub notice_line : Screen → Text → ℕ → Text
notice_line p text columns =
    if ltb (columns - margin) 1
    then []
    else render (
        clip (columns - margin) (
          fg p amber (0x258e ∷ [])
          ∷ plain (lit " ")
          ∷ fg p amber (lit "?")
          ∷ plain (lit " ")
          ∷ plain (clean text)
          ∷ record { text = lit " — csquad status for details"; sgr = lit "2" }
          ∷ []))
