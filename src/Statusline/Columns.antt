-- ===== src/Statusline/Columns.antt =====
-- The fields of a column and the row of a task in it (internal/statusline/ledger.go, and the usage cell
-- of internal/statusline/usage.go).
use c_squad.Statusline.Ledger.{Entry, age, entry_label}
use c_squad.Statusline.Lines.{Segment, Line, Screen, plain, fg, spaces}
use c_squad.Statusline.Usage.{shows_change, total_part, change_part}
use c_squad.Statusline.Width.{width, truncate, pad, pad_left}
use c_squad.Base.{
  ℕ, ◌+◌, ◌-◌, max, min, Bool, false, ◌&&◌, ◌||◌, not, List, [], ◌∷◌, ◌++◌, ltb, leb, is_empty,
  replicate, if◌then◌else◌, Text, lit, ◌==◌,
}

-- How much of the rows a layout keeps: the widest title, the usage cell (2: the total and the change,
-- 1: the total, 0: none), the widest urgent badge and the widest state.
pub record Fit : Type 0 where
  pub title : ℕ
  pub usage : ℕ
  pub badge : ℕ
  pub state : ℕ

-- The widths of the aligned fields of a column, each as wide as its widest value.
pub record Fields : Type 0 where
  pub id : ℕ
  pub title : ℕ
  pub state : ℕ
  pub total : ℕ
  pub change : ℕ
  pub age : ℕ
  pub block : ℕ
  pub marks : Bool

abbrev pub field_gap : ℕ
field_gap = 2

abbrev pub change_cells : ℕ
change_cells = 7

-- The width of the usage cell: the total, then a space and the change part.
unfoldable pub usage_width : Fields → ℕ
usage_width w =
    if w.total == 0 then 0 else if ltb 0 w.change then w.total + 1 + w.change else w.total

-- The usage cell with the gap before it.
unfoldable pub span : Fields → ℕ
span w = if ltb 0 (usage_width w) then field_gap + usage_width w else 0

-- The width of each row of the column: rail, glyph, id, mark, title, block and age.
unfoldable pub row_width : Fields → ℕ
row_width w =
    4
    + w.id
    + 1
    + w.title
    + field_gap
    + w.block
    + (if w.marks then 2 else 0)
    + (if ltb 0 w.age then field_gap + w.age else 0)

abbrev pub no_fields : Fields
no_fields = record {
  id = 0;
  title = 0;
  state = 0;
  total = 0;
  change = 0;
  age = 0;
  block = 0;
  marks = false;
}

-- The fields that one row needs. `block` is the width of its urgent badge until all rows are seen.
unfoldable pub needs : Screen → Fit → Entry → Fields
needs p f e = record {
  id = width (entry_label e);
  title = min f.title (width e.title);
  state = if e.style.urgent then 0 else width (truncate e.state f.state);
  total = if leb 1 f.usage then width (total_part p e).text else 0;
  change =
      if leb 2 f.usage && shows_change e
      then max change_cells (width (change_part p e).text)
      else 0;
  age = width (age e.task.since p.now);
  block = if e.style.urgent then width (truncate e.state f.badge) else 0;
  marks = not (is_empty e.task.mark);
}

abbrev pub widest : Fields → Fields → Fields
widest a b = record {
  id = max a.id b.id;
  title = max a.title b.title;
  state = max a.state b.state;
  total = max a.total b.total;
  change = max a.change b.change;
  age = max a.age b.age;
  block = max a.block b.block;
  marks = a.marks || b.marks;
}

unfoldable pub all_needs : Screen → Fit → List Entry → Fields
all_needs p f [] = no_fields
all_needs p f (e ∷ es) = widest (needs p f e) (all_needs p f es)

-- Each field as wide as its widest value; the block holds the state and the usage cell, or a badge.
unfoldable pub measure : Screen → Fit → List Entry → Fields
measure p f es = let w = all_needs p f es in record w { block = max (w.state + span w) w.block }

unfoldable pub usage_rest : Screen → Entry → Fields → Bool → Line
usage_rest p e w show =
    if w.change == 0
    then []
    else (let part = if show then change_part p e else plain [] in
        plain (32 ∷ []) ∷ part ∷ spaces (w.change - width part.text) ∷ [])

-- The usage cell: the total right-aligned in its field, then the change part left-aligned in its own.
unfoldable pub usage_cell : Screen → Entry → Fields → Bool → Line
unfolding usage_rest
usage_cell p e w show =
    let total = total_part p e in
    if is_empty total.text
    then spaces (usage_width w) ∷ []
    else spaces (w.total - width total.text) ∷ total ∷ usage_rest p e w show

-- A title three or more cells shorter than its field gets a dotted leader.
unfoldable pub title_text : ℕ → Text → Text
title_text w title =
    let cut = truncate title w in
    if leb 3 (w - width cut) then cut ++ 32 ∷ replicate (w - width cut - 1) 0xb7 else pad cut w

unfoldable pub badge_part : Screen → Entry → Fields → Fit → Line
badge_part p e w f =
    let badge = truncate e.state f.badge in
    record {
      text = badge;
      sgr = if p.no_color then lit "1;7" else lit "1;38;2;20;20;20;48;2;" ++ e.style.rgb;
    }
    ∷ spaces (w.block - width badge)
    ∷ []

-- Bold goes in front of the colour, which is empty without colours.
unfoldable pub bolder : Bool → Segment → Segment
bolder bold s =
    if bold then record s { sgr = if is_empty s.sgr then lit "1" else lit "1;" ++ s.sgr } else s

-- The usage cell with the gap before it, where the column has one.
unfoldable pub usage_part : Screen → Entry → Fields → Fit → Line
usage_part p e w f =
    if ltb 0 (span w) then plain (32 ∷ 32 ∷ []) ∷ usage_cell p e w (leb 2 f.usage) else []

unfoldable pub state_part : Screen → Entry → Fields → Fit → Line
unfolding bolder usage_part
state_part p e w f =
    let text = truncate e.state f.state in
    bolder e.style.bold (fg p e.style.rgb text) ∷ spaces (w.state - width text) ∷ usage_part p e w f
    ++ spaces (w.block - w.state - span w) ∷ []

unfoldable pub mark_part : Bool → Text → Line
mark_part marks mark =
    if marks then plain (if is_empty mark then 32 ∷ [] else mark) ∷ plain (32 ∷ []) ∷ [] else []

unfoldable pub age_part : Screen → Entry → Fields → Line
age_part p e w =
    if ltb 0 w.age
    then plain (32 ∷ 32 ∷ [])
      ∷ record { text = pad_left (age e.task.since p.now) w.age; sgr = lit "2" }
      ∷ []
    else []

unfoldable pub rail : Bool → Text
rail heavy = if heavy then 0x258c ∷ [] else 0x258e ∷ []

unfoldable pub block_part : Screen → Entry → Fields → Fit → Line
block_part p e w f = if e.style.urgent then badge_part p e w f else state_part p e w f

-- What follows the engine mark.
unfoldable pub row_rest : Screen → Entry → Fields → Fit → Line
unfolding age_part block_part
row_rest p e w f =
    record { text = title_text w.title e.title; sgr = if e.style.faint then lit "2" else [] }
      ∷ plain (32 ∷ 32 ∷ [])
      ∷ block_part p e w f
    ++ age_part p e w

-- The row of one task in its column.
unfoldable pub cell : Screen → Entry → Fields → Fit → Line
unfolding mark_part rail row_rest
cell p e w f =
    fg p e.style.rgb (rail (e.style.urgent && p.no_color))
      ∷ plain (32 ∷ [])
      ∷ fg p e.style.rgb e.style.glyph
      ∷ plain (32 ∷ [])
      ∷ record { text = pad (entry_label e) w.id; sgr = lit "1" }
      ∷ plain (32 ∷ [])
      ∷ mark_part w.marks e.task.mark
    ++ row_rest p e w f
