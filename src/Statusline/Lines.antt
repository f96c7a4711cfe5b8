-- ===== src/Statusline/Lines.antt =====
-- Lines of the terminal (internal/statusline/ledger.go): segments of text with their SGR parameters,
-- cut at a cell boundary, and written with escapes.
use c_squad.Statusline.Width.{cell_width, width}
use c_squad.Base.{
  ℕ, ◌+◌, Bool, ◌||◌, List, [], ◌∷◌, ◌++◌, ltb, leb, replicate, is_empty, if◌then◌else◌, Text, lit,
}

pub record Segment : Type 0 where
  pub text : Text
  pub sgr : Text

abbrev pub Line : Type 0
Line = List Segment

abbrev pub plain : Text → Segment
plain text = record { text = text; sgr = [] }

-- The painter with the time and the number format: `fixed d n unit` is `fmt.Sprintf("%.<d>f", n / unit)`.
pub record Screen : Type 0 where
  pub no_color : Bool
  pub now : ℕ
  pub fixed : ℕ → ℕ → ℕ → Text

unfoldable pub fg : Screen → Text → Text → Segment
fg p rgb text = if p.no_color then plain text else record { text = text; sgr = lit "38;2;" ++ rgb }

unfoldable pub line_width : Line → ℕ
line_width [] = 0
line_width (s ∷ l) = width s.text + line_width l

unfoldable pub spaces : ℕ → Segment
spaces n = plain (replicate n 32)

-- The characters of a text that fit: the loop stops at the first that does not.
unfoldable pub fitting_text : ℕ → ℕ → Text → Text
fitting_text used max [] = []
fitting_text used max (r ∷ s) =
    let rest = fitting_text (used + cell_width r) max s in
    if ltb max (used + cell_width r) then [] else r ∷ rest

unfoldable pub clip_from : ℕ → ℕ → Line → Line
unfolding fitting_text
clip_from used max [] = []
clip_from used max (s ∷ l) =
    let rest = clip_from (used + width s.text) max l in
    if leb max used
    then []
    else if leb (used + width s.text) max
    then s ∷ rest
    else record s { text = fitting_text used max s.text } ∷ []

-- Cuts a line to a number of cells at a cell boundary.
unfoldable pub clip : ℕ → Line → Line
unfolding clip_from
clip max l = clip_from 0 max l

unfoldable pub render : Line → Text
render [] = []
render (s ∷ l) =
    (if is_empty s.sgr || is_empty s.text
      then s.text
      else 27 ∷ lit "[" ++ s.sgr ++ lit "m" ++ s.text ++ 27 ∷ lit "[0m")
    ++ render l
