-- ===== src/Statusline/Bounded.antt =====
-- Every line of the ledger fits, and there are four at most.
use c_squad.Statusline.Ledger.{Entry}
use c_squad.Statusline.Lines.{Screen, Line, line_width, fitting_text, clip_from, clip, plain}
use c_squad.Statusline.Columns.{Fit, measure}
use c_squad.Statusline.Overflow.{overflow}
use c_squad.Statusline.Tries.{Grid, chunks_in, chunks}
use c_squad.Statusline.Layout.{
  lines_from, first_length, zipped, lines_of, laid, or_later, put_in, in_grid, first_grid, sorted,
}
use c_squad.Statusline.Grids.{IsGrid}
use c_squad.Statusline.Width.{width, cell_width}
use c_squad.Base.{
  ℕ, zero, suc, ◌+◌, ◌-◌, ◌≤◌, max, min, ◌≡◌, refl, ap, Option, none, some, List, [], ◌∷◌, ◌++◌,
  map, arith, is_empty, if◌then◌else◌, Text, All, length, take, drop, length-take, length-append,
  length-drop, lit,
}

fitting_text-width :
    (used max : ℕ) (s : Text) → used ≤ max → used + width (fitting_text used max s) ≤ max
unfolding fitting_text width
fitting_text-width used max [] h = omega arith
fitting_text-width used max (r ∷ s) h =
    ground (arith, fitting_text-width (used + cell_width r) max s)

clip_from-width :
    (used max : ℕ) (l : Line) → used ≤ max → used + line_width (clip_from used max l) ≤ max
unfolding clip_from line_width
clip_from-width used max [] h = omega arith
clip_from-width used max (s ∷ l) h =
    ground (arith, clip_from-width (used + width s.text) max l, fitting_text-width used max s.text)

-- A clipped line takes at most the given cells.
clip-width : (max : ℕ) (l : Line) → line_width (clip max l) ≤ max
unfolding clip
clip-width max l = omega (arith, clip_from-width 0 max l)

All-clip : (max : ℕ) (ls : List Line) → All (λ l. line_width l ≤ max) (map (clip max) ls)
All-clip max [] = tt
All-clip max (l ∷ ls) = (clip-width max l, All-clip max ls)

pub length-map : {A B : Type 0} → (f : A → B) (xs : List A) → length (map f xs) ≡ length xs
length-map f [] = refl
length-map f (x ∷ xs) = ap suc (length-map f xs)

length-lines_from :
    (p : Screen) (f : Fit) (cols : _) (r left : ℕ) → length (lines_from p f cols r left) ≡ left
unfolding lines_from
length-lines_from p f cols r zero = refl
length-lines_from p f cols r (suc left) = ap suc (length-lines_from p f cols (r + 1) left)

first_length-chunks : (rows : ℕ) (es : List Entry) → first_length (chunks rows es) ≤ rows
unfolding chunks chunks_in first_length
first_length-chunks rows [] = omega arith
first_length-chunks rows (e ∷ es) = omega (arith, length-take rows (e ∷ es))

rest_line : Screen → List Entry → ℕ → List Line
rest_line p rest usable =
    if is_empty rest then [] else (plain (lit "  ") ∷ overflow p rest (usable - 2)) ∷ []

length-rest_line :
    (p : Screen) (rest : List Entry) (usable : ℕ)
    → length (rest_line p rest usable) ≤ min 1 (length rest)
unfolding rest_line
length-rest_line p [] usable = omega arith
length-rest_line p (e ∷ es) usable = omega arith

pub length-lines_of :
    (p : Screen) (cols : List (List Entry)) (rest : List Entry) (f : Fit) (usable : ℕ)
    → (first_length cols ≤ length (lines_of p cols rest f usable))
      × (length (lines_of p cols rest f usable) ≤ first_length cols + min 1 (length rest))
unfolding lines_of rest_line
length-lines_of p cols rest f usable =
    let rows = lines_from p f (zipped (measure p f) cols) 0 (first_length cols) in
    let n = length-lines_from p f (zipped (measure p f) cols) 0 (first_length cols) in
    omega (
      arith,
      length-map (clip usable) (rows ++ rest_line p rest usable),
      length-append rows (rest_line p rest usable),
      length-rest_line p rest usable,
      n,
    )

-- At most four lines, none wider than the terminal leaves.
pub record IsBounded (usable : ℕ) (ls : List Line) : Type 0 where
  pub four : length ls ≤ 4
  pub fit : All (λ l. line_width l ≤ usable) ls

lines_of-fit :
    (p : Screen) (cols : List (List Entry)) (rest : List Entry) (f : Fit) (usable : ℕ)
    → All (λ l. line_width l ≤ usable) (lines_of p cols rest f usable)
unfolding lines_of
lines_of-fit p cols rest f usable = All-clip usable _

lines_of-IsBounded :
    (p : Screen) (es : List Entry) (g : Grid) (f : Fit) (usable : ℕ)
    → IsGrid (length es) g
    → IsBounded usable (lines_of p (chunks g.rows (take g.shown es)) (drop g.shown es) f usable)
lines_of-IsBounded p es g f usable h = record {
  four = grind (
    arith,
    length-lines_of p (chunks g.rows (take g.shown es)) (drop g.shown es) f usable,
    first_length-chunks g.rows (take g.shown es),
    length-drop g.shown es,
    h.four_rows,
    h.or_three,
  );
  fit = lines_of-fit p (chunks g.rows (take g.shown es)) (drop g.shown es) f usable;
}

laid-IsBounded :
    (p : Screen) (es : List Entry) (g : Grid) (usable : ℕ) (o : Option Fit) (later : List Line)
    → IsGrid (length es) g
    → IsBounded usable later
    → IsBounded usable
        (or_later (laid p (chunks g.rows (take g.shown es)) (drop g.shown es) usable o) later)
unfolding laid or_later
laid-IsBounded p es g usable none later h k = k
laid-IsBounded p es g usable (some f) later h k = lines_of-IsBounded p es g f usable h

pub first_grid-IsBounded :
    (p : Screen) (es : List Entry) (usable : ℕ) (gs : List Grid)
    → All (IsGrid (length es)) gs
    → IsBounded usable (first_grid p es usable gs)
unfolding first_grid in_grid
first_grid-IsBounded p es usable [] h = record { four = omega arith; fit = tt }
first_grid-IsBounded p es usable (g ∷ gs) (h, k) =
    laid-IsBounded p es g usable _ _ h (first_grid-IsBounded p es usable gs k)

length-put_in : (e : Entry) (es : List Entry) → length (put_in e es) ≡ suc (length es)
unfolding put_in
length-put_in e [] = refl
length-put_in e (d ∷ ds) = ground (arith, length-put_in e ds)

pub length-sorted : (es : List Entry) → length (sorted es) ≡ length es
unfolding sorted
length-sorted [] = refl
length-sorted (e ∷ es) = omega (arith, length-put_in e (sorted es), length-sorted es)
