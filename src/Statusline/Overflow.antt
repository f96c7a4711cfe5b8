-- ===== src/Statusline/Overflow.antt =====
-- The line of the hidden tasks (`overflow` of internal/statusline/ledger.go).
use c_squad.Statusline.Ledger.{Style, Entry, entry_label}
use c_squad.Statusline.Lines.{Line, Screen, plain, fg, line_width}
use c_squad.Statusline.Width.{truncate}
use c_squad.Base.{
  ℕ, ◌+◌, max, Bool, ◌&&◌, List, [], ◌∷◌, ◌++◌, leb, is_empty, length, if◌then◌else◌, Text, lit,
  text_eq, itoa,
}

-- The groups of hidden tasks by glyph and colour, with how many there are, in the order of the first.
same_look : Style → Style → Bool
same_look a b = text_eq a.glyph b.glyph && text_eq a.rgb b.rgb

tally_in : Style → List (Style × ℕ) → List (Style × ℕ)
unfolding same_look
tally_in s [] = (s, 1) ∷ []
tally_in s ((g, n) ∷ gs) =
    let rest = tally_in s gs in if same_look g s then (g, n + 1) ∷ gs else (g, n) ∷ rest

tallied : List (Style × ℕ) → List Entry → List (Style × ℕ)
unfolding tally_in
tallied gs [] = gs
tallied gs (e ∷ es) = tallied (tally_in e.style gs) es

tally_line : Screen → Text → List (Style × ℕ) → Line
tally_line p gap [] = []
tally_line p gap ((s, n) ∷ gs) =
    (if is_empty gap then [] else plain gap ∷ [])
    ++ fg p s.rgb s.glyph ∷ plain (itoa n) ∷ tally_line p (lit " ") gs

id_line : Screen → Text → List Entry → Line
id_line p gap [] = []
id_line p gap (e ∷ es) =
    (if is_empty gap then [] else plain gap ∷ [])
    ++ fg p e.style.rgb e.style.glyph ∷ plain (lit " " ++ entry_label e) ∷ id_line p (lit "  ") es

-- "+7 more" and the hidden tasks: by id when they fit, else as counts per state, else the bare count.
unfoldable pub overflow : Screen → List Entry → ℕ → Line
unfolding tallied tally_line id_line
overflow p rest max =
    let n = itoa (length rest) in
    let head =
      record { text = lit "+" ++ n; sgr = lit "1" }
      ∷ record { text = lit " more  "; sgr = lit "2" }
      ∷ [] in
    let by_id = id_line p [] rest in
    let tally = tally_line p [] (tallied [] rest) in
    if leb (line_width head + line_width by_id) max
    then head ++ by_id
    else if leb (line_width head + line_width tally) max
    then head ++ tally
    else record { text = truncate (lit "+" ++ n ++ lit " more") max; sgr = lit "1" } ∷ []
