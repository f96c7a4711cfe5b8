-- ===== src/Statusline/Width.antt =====
-- Cells of the terminal (internal/statusline/width.go): the width of a text, cutting and padding it.
-- A text is a list of characters, so the invalid UTF-8 that `clean` replaces does not occur.
use c_squad.Base.{
  ℕ, ◌+◌, ◌-◌, Bool, ◌&&◌, ◌||◌, [], ◌∷◌, ◌++◌, map, ltb, leb, replicate, if◌then◌else◌, Text,
}

abbrev between : ℕ → ℕ → ℕ → Bool
between lo hi r = leb lo r && leb r hi

-- Two cells for East Asian wide and fullwidth characters, one for any other.
unfoldable pub cell_width : ℕ → ℕ
cell_width r =
    if between 0x1100 0x115f r
      || between 0x2e80 0xa4cf r
      || between 0xac00 0xd7a3 r
      || between 0xf900 0xfaff r
      || between 0xfe30 0xfe4f r
      || between 0xff00 0xff60 r
      || between 0xffe0 0xffe6 r
      || between 0x1f300 0x1faff r
      || between 0x20000 0x3fffd r
    then 2
    else 1

unfoldable pub width : Text → ℕ
width [] = 0
width (r ∷ s) = cell_width r + width s

-- Control characters, DEL among them, become spaces.
unfoldable pub clean : Text → Text
clean s = map (λ r. if ltb r 0x20 || (leb 0x7f r && leb r 0x9f) then 32 else r) s

-- The characters that fit in front of the ellipsis: the loop stops at the first that does not.
unfoldable pub fitting : ℕ → ℕ → Text → Text
fitting w max [] = []
fitting w max (r ∷ s) =
    let rest = fitting (w + cell_width r) max s in
    if ltb (max - 1) (w + cell_width r) then [] else r ∷ rest

abbrev pub ellipsis : ℕ
ellipsis = 0x2026

-- Cuts a text to at most `max` cells, with an ellipsis where it is cut.
unfoldable pub truncate : Text → ℕ → Text
truncate s max =
    if leb (width s) max then s else if leb max 1 then [] else fitting 0 max s ++ ellipsis ∷ []

-- Fills with spaces to `w` cells: `-` stops at 0, where the source adds nothing.
unfoldable pub pad : Text → ℕ → Text
pad s w = s ++ replicate (w - width s) 32

unfoldable pub pad_left : Text → ℕ → Text
pad_left s w = replicate (w - width s) 32 ++ s
