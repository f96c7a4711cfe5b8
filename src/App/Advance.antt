-- ===== src/App/Advance.antt =====
-- `csquad advance` (internal/app/advance.go): every unfinished task moves as far as what is observed
-- allows, pass after pass while a pass moves something, four passes at most.
use c_squad.Engine.{Live}
use c_squad.Task.{Task}
use c_squad.Flow.Kinds.{acts}
use c_squad.Flow.Next.{next}
use c_squad.Store.Table.{Reply, reply, Io}
use c_squad.Store.Ops.{list}
use c_squad.Mover.Apply.{World, Applied, applied, failed_with, apply}
use c_squad.App.Observe.{Seen, every_task, waiting_on, needs_observation, observation}
use c_squad.App.Effects.{Outside, act_on, run_outside}
use c_squad.Base.{
  ℕ, zero, suc, Bool, false, ◌||◌, not, List, [], ◌∷◌, is_empty, filterb, if◌then◌else◌,
}

-- What is seen and answered in one pass, task by task. The engines are asked about the watched tasks.
pub record Pass : Type 0 where
  pub list_io : Io
  pub observe : List Task → List (ℕ × Live)
  pub seen : Task → Seen
  pub outside : Task → Outside

unfoldable pub did_move : Applied → Bool
did_move (applied _ moved) = moved
did_move (failed_with _) = false

-- One task of a pass: the world after it, and whether this process moved it.
unfoldable pub advance_task : Pass → List (ℕ × Live) → List (ℕ × ℕ) → World → Task → World × Bool
advance_task p live stopped w t =
    let m = next t (observation w.table (p.seen t) live stopped t) in
    if not (acts m t)
    then (w, false)
    else (let done = apply (p.outside t).io (p.outside t).now w t m in
        (act_on (run_outside (p.outside t)) m.effect.kind done, did_move done.1))

unfoldable pub advance_tasks :
    Pass → List (ℕ × Live) → List (ℕ × ℕ) → World → List Task → World × Bool
advance_tasks p live stopped w [] = (w, false)
advance_tasks p live stopped w (t ∷ ts) =
    let (w', moved) = advance_task p live stopped w t in
    let (w'', later) = advance_tasks p live stopped w' ts in (w'', moved || later)

-- One pass over the tasks as listed.
unfoldable pub pass_over : Pass → List (ℕ × ℕ) → World → Reply (List Task) → World × Bool
pass_over p stopped w (reply tasks) =
    let watched = filterb (λ t. needs_observation t (waiting_on tasks t.id)) tasks in
    let live = if is_empty watched then [] else p.observe watched in
    advance_tasks p live stopped w tasks
pass_over p stopped w _ = (w, false)

unfoldable pub passes_left : ℕ → (ℕ → Pass) → List (ℕ × ℕ) → World → World
passes_left zero p stopped w = w
passes_left (suc n) p stopped w =
    let (w', moved) = pass_over (p n) stopped w (list (p n).list_io every_task w.table) in
    let rest = passes_left n p stopped w' in if moved then rest else w'

-- `AdvanceAll`: `stopped` holds the Stop hook events by task.
unfoldable pub advance_all : (ℕ → Pass) → List (ℕ × ℕ) → World → World
advance_all p stopped w = passes_left 4 p stopped w
