-- ===== src/Samples/LedgerRuns.antt =====
-- The ledger of two tasks on a terminal of sixty columns.
use c_squad.Statusline.Ledger.{Task, Entry, new_entry, style_of}
use c_squad.Statusline.Lines.{Screen}
use c_squad.Statusline.Columns.{Fit}
use c_squad.Statusline.Aligned.{IsMarked}
use c_squad.Statusline.Counts.{IsFormat}
use c_squad.Statusline.Width.{width, cell_width}
use c_squad.Base.{
  ℕ, ◌+◌, ◌*◌, ◌/◌, ◌%◌, refl, true, false, none, some, [], ◌∷◌, ◌++◌, Text, text_eq, itoa, arith,
  ◌==◌, if◌then◌else◌, List,
}

-- Half up.
abbrev rounded : ℕ → ℕ → ℕ → Text
rounded d n unit =
    if d == 0
    then itoa ((2 * n + unit) / (2 * unit))
    else (let m = (20 * n + unit) / (2 * unit) in itoa (m / 10) ++ b'.' ∷ itoa (m % 10))

rounded-IsFormat : IsFormat rounded
rounded-IsFormat = record {
  thousands = λ n.
      ((2 * n + 1000) / 2000, record { not_above = omega arith; not_below = omega arith }, refl);
  millions = λ n. (
    (2 * n + 1000000) / 2000000,
    record { not_above = omega arith; not_below = omega arith },
    refl,
  );
  tenths_k = λ n.
      ((20 * n + 1000) / 2000, record { not_above = omega arith; not_below = omega arith }, refl);
  tenths_m = λ n. (
    (20 * n + 1000000) / 2000000,
    record { not_above = omega arith; not_below = omega arith },
    refl,
  );
}

abbrev screen : Screen
screen = record { no_color = true; now = 600000000000; fixed = rounded }

abbrev working_task : Task
working_task = record {
  id = 12;
  mark = b'+' ∷ [];
  title = b'p' ∷ b'a' ∷ b'r' ∷ b's' ∷ b'e' ∷ [];
  state = b'w' ∷ b'o' ∷ b'r' ∷ b'k' ∷ b'i' ∷ b'n' ∷ b'g' ∷ [];
  text = [];
  note = [];
  since = some 0;
  usage = none;
  stale = false;
}

abbrev waiting_task : Task
waiting_task = record working_task { id = 3; mark = []; state = b'w' ∷ b'a' ∷ b'i' ∷ b't' ∷ [] }

abbrev entries : List Entry
entries = new_entry working_task ∷ new_entry waiting_task ∷ []

abbrev some_fit : Fit
some_fit = record { title = 3; usage = 0; badge = 12; state = 7 }

working-IsMarked : IsMarked (new_entry working_task)
unfolding new_entry style_of text_eq width cell_width
working-IsMarked = record { glyph = refl; mark = λ h. refl }

waiting-IsMarked : IsMarked (new_entry waiting_task)
unfolding new_entry style_of text_eq width cell_width
waiting-IsMarked = record { glyph = refl; mark = λ h. cc }
