-- ===== src/Statusline/Parts.antt =====
-- The cells that the parts of a row take.
use c_squad.Statusline.Ledger.{Usage, Entry}
use c_squad.Statusline.Lines.{Line, Screen, plain, fg, spaces, line_width}
use c_squad.Statusline.Usage.{
  shown_usage, shows_change, change_shown, change_of_row, total_part, change_part,
}
use c_squad.Statusline.Columns.{Fields, title_text, usage_width, usage_cell, usage_rest}
use c_squad.Statusline.Width.{width, cell_width, truncate}
use c_squad.Statusline.Fit.{width-append, width-spaces, truncate_fits, width-pad}
use c_squad.Base.{
  ℕ, zero, suc, ◌+◌, ◌-◌, ◌≤◌, ◌<◌, ◌≡◌, refl, ap, ◌⊎◌, inl, inr, Bool, true, false, Bool-cases,
  Option, none, some, [], ◌∷◌, ◌++◌, arith, leb, replicate, is_empty, if◌then◌else◌, Text, ◌==◌,
}

pub line_width-append : (l m : Line) → line_width (l ++ m) ≡ line_width l + line_width m
unfolding line_width
line_width-append [] m = omega arith
line_width-append (s ∷ l) m = omega (arith, line_width-append l m)

pub spaces-width : (n : ℕ) → width (spaces n).text ≡ n
unfolding spaces
spaces-width n = width-spaces n

pub fg-width : (p : Screen) (rgb text : Text) → width (fg p rgb text).text ≡ width text
unfolding fg
fg-width p rgb text = ground arith

dots-width : (n : ℕ) → width (replicate n 0xb7) ≡ n
unfolding width cell_width
dots-width zero = refl
dots-width (suc n) = omega (arith, dots-width n)

space-width : (s : Text) → width (32 ∷ s) ≡ 1 + width s
unfolding width cell_width
space-width s = refl

-- A text, a space and dots up to `w` cells.
dotted-width :
    (w : ℕ) (s : Text) → 3 ≤ w - width s → width (s ++ 32 ∷ replicate (w - width s - 1) 0xb7) ≡ w
dotted-width w s h = omega (
  arith,
  width-append s (32 ∷ replicate (w - width s - 1) 0xb7),
  space-width (replicate (w - width s - 1) 0xb7),
  dots-width (w - width s - 1),
  h,
)

-- A title fills its field, whatever its length.
pub title_text-width : (w : ℕ) (title : Text) → width (title_text w title) ≡ w
unfolding title_text
title_text-width w title = elim (Bool-cases (leb 3 (w - width (truncate title w)))) [
  | inl e ↦ rw e (dotted-width w (truncate title w) (ground arith))
  | inr e ↦ rw e (omega (arith, (width-pad (truncate title w) w).0, (truncate_fits title w).0))
]

change_of_row-empty :
    (p : Screen) (e : Entry) (u : Option Usage)
    → change_shown e.task.state u ≡ false
    → width (change_of_row p e u).text ≡ 0
unfolding change_shown change_of_row width
change_of_row-empty p e none h = refl
change_of_row-empty p e (some u) h = rw h refl

-- Only a row that shows a usage cell and is at work has a change part.
change_part-empty :
    (p : Screen) (e : Entry) → shows_change e ≡ false → width (change_part p e).text ≡ 0
unfolding shows_change change_part
change_part-empty p e h = change_of_row-empty p e (shown_usage e) h

pub one-space : width (32 ∷ []) ≡ 1
unfolding width cell_width
one-space = refl

pub usage_width-total : (w : Fields) → 0 < w.total → w.change ≡ 0 → usage_width w ≡ w.total
unfolding usage_width
usage_width-total w h k = ground arith

usage_width-both :
    (w : Fields) → 0 < w.total → 0 < w.change → usage_width w ≡ w.total + 1 + w.change
unfolding usage_width
usage_width-both w h k = ground arith

part_within :
    (p : Screen) (e : Entry) (n : ℕ) (show : Bool)
    → (show ≡ true → shows_change e ≡ true → width (change_part p e).text ≤ n)
    → width (if show then change_part p e else plain []).text ≤ n
unfolding width
part_within p e n false h = omega arith
part_within p e n true h = elim (Bool-cases (shows_change e)) [
  | inl q ↦ h refl q
  | inr q ↦ omega (arith, change_part-empty p e q)
]

module _ (p : Screen) (e : Entry) (w : Fields) (show : Bool) where
  usage_rest-empty : w.change ≡ 0 → usage_rest p e w show ≡ []
  unfolding usage_rest
  usage_rest-empty q = rw q

  usage_rest-parts :
      (w.change == 0) ≡ false
      → usage_rest p e w show
        ≡ plain (32 ∷ [])
          ∷ (if show then change_part p e else plain [])
          ∷ spaces (w.change - width (if show then change_part p e else plain []).text)
          ∷ []
  unfolding usage_rest
  usage_rest-parts q = rw q

  usage_rest-width :
      (show ≡ true → shows_change e ≡ true → width (change_part p e).text ≤ w.change)
      → ((w.change ≡ 0) × (line_width (usage_rest p e w show) ≡ 0))
        ⊎ ((0 < w.change) × (line_width (usage_rest p e w show) ≡ 1 + w.change))
  unfolding line_width
  usage_rest-width h =
      let fits = part_within p e w.change show h in
      let gap = spaces-width (w.change - width (if show then change_part p e else plain []).text) in
      elim (Bool-cases (w.change == 0)) [
        | inl q ↦ inl (ground arith, ap line_width (usage_rest-empty (ground arith)))
        | inr q ↦ inr (ground arith, rw (usage_rest-parts q) (omega (arith, fits, gap, one-space)))
      ]

  total_shown :
      is_empty (total_part p e).text ≡ false
      → usage_cell p e w show
        ≡ spaces (w.total - width (total_part p e).text) ∷ total_part p e ∷ usage_rest p e w show
  unfolding usage_cell
  total_shown q = rw q

  total_hidden :
      is_empty (total_part p e).text ≡ true → usage_cell p e w show ≡ spaces (usage_width w) ∷ []
  unfolding usage_cell
  total_hidden q = rw q

  -- The usage cell fills its width.
  pub usage_cell-width :
      0 < w.total
      → width (total_part p e).text ≤ w.total
      → (show ≡ true → shows_change e ≡ true → width (change_part p e).text ≤ w.change)
      → line_width (usage_cell p e w show) ≡ usage_width w
  unfolding line_width
  usage_cell-width pos h k =
      let gap = spaces-width (w.total - width (total_part p e).text) in
      elim (Bool-cases (is_empty (total_part p e).text)) [
        | inl q ↦ rw (total_hidden q) (omega (arith, spaces-width (usage_width w)))
        | inr q ↦ elim (usage_rest-width k) [
          | inl (z, r) ↦ rw (total_shown q) (omega (arith, usage_width-total w pos z, gap, r, h))
          | inr (z, r) ↦ rw (total_shown q) (omega (arith, usage_width-both w pos z, gap, r, h))
        ]
      ]
