-- ===== src/App/Hold.antt =====
-- `csquad hold` and `csquad release` (internal/app/hold.go), from the number that the label reads. What is
-- printed is left out.
use c_squad.Task.{Phase, Task, finished, phase_eq, phase_word, label}
use c_squad.Store.Table.{Io}
use c_squad.Store.Ops.{get, set_hold}
use c_squad.Mover.Apply.{World}
use c_squad.App.Advance.{Pass, advance_all}
use c_squad.Finish.Command.{task_found}
use c_squad.Gitx.Kinds.{Fallible, ok, err, and_then}
use c_squad.Base.{
  ℕ, Bool, true, false, ◌&&◌, not, Option, none, some, List, [], ◌++◌, is_empty, if◌then◌else◌,
  Text, lit,
}

-- Why a hold cannot be set or cleared.
unfoldable pub holdable : Bool → Task → Fallible Task
holdable hold t =
    if finished t.phase
    then err (label t ++ lit " is already " ++ phase_word t.phase)
    else if not (is_empty t.merge_into)
    then err (
        label t
        ++ lit " merges into "
        ++ t.merge_into
        ++ lit
            " by itself (launched with --merge); hold and release change the merge csquad makes for the tasks queued after a task")
    else if hold && phase_eq t.phase Phase.merging
    then err (label t ++ lit " is already merging")
    else ok t

-- The world after it, and the error that is answered.
pub record Held : Type 0 where
  pub world : World
  pub error : Option Text

unfoldable pub verb : Bool → Text
verb true = lit "hold"
verb false = lit "release"

-- A released task may merge now.
after_hold : (ℕ → Pass) → Bool → World → World
after_hold passes true w = w
after_hold passes false w = advance_all passes [] w

unfoldable pub hold_found : Io → (ℕ → Pass) → Bool → World → Fallible Task → Held
unfolding after_hold
hold_found io passes hold w (err e) = record { world = w; error = some e }
hold_found (some e) passes hold w (ok t) = record { world = w; error = some e }
hold_found none passes hold w (ok t) = record {
  world = after_hold passes hold (record w { table = set_hold none t.id hold w.table });
  error = none;
}

-- Sets or clears a task's hold.
unfoldable pub hold_one : Option (List Text) → Bool → Io → Io → (ℕ → Pass) → Bool → World → ℕ → Held
unfolding hold_found verb
hold_one owners everyone read_io io passes hold w id =
    hold_found io passes hold w (
      and_then (task_found owners everyone (verb hold) id (get read_io id w.table)) (holdable hold))
