-- ===== src/Mover/Apply.antt =====
-- `Mover.Apply` and the event log (internal/flow/flow.go). The world holds the table and what the
-- process did besides: the lines of the event log, the rows that `Moved` was told of, and the effects
-- that `Run` was called with. What an effect does is modelled where the effect is run.
use c_squad.Task.{Step, Task, merging, no_step, phase_eq, step_eq, phase_word, label}
use c_squad.Store.Table.{Table, Reply, reply, Io}
use c_squad.Store.Ops.{transition}
use c_squad.Flow.Kinds.{Effect, Move, changed, acts, has_effect}
use c_squad.Base.{
  ℕ, Bool, true, false, ◌&&◌, ◌||◌, not, List, [], ◌∷◌, ◌++◌, if◌then◌else◌, Text, lit,
}

-- One line of the event log.
pub record Event : Type 0 where
  pub task : Text
  pub from : Text
  pub into : Text
  pub reason : Text
  pub time : ℕ

pub record World : Type 0 where
  pub table : Table
  pub events : List Event
  pub told : List Task
  pub runs : List (Task × Effect)

step_word : Step → Text
step_word Step.asked = lit "asked"
step_word Step.no_step = []
step_word Step.resume_waiting = lit "waiting"
step_word Step.resume_round = lit "round"
step_word Step.resume_check = lit "check"
step_word Step.resume_merge = lit "merge"

-- merging/asked, or the phase alone.
unfoldable pub phase_step : Task → Text
unfolding step_word
phase_step t =
    if not (step_eq t.step no_step) && phase_eq t.phase merging
    then phase_word t.phase ++ lit "/" ++ step_word t.step
    else phase_word t.phase

unfoldable pub event : Task → Task → Text → Event
event old new reason = record {
  task = label old;
  from = phase_step old;
  into = phase_step new;
  reason = reason;
  time = new.updated_at;
}

-- What `Apply` answers: the row as stored and whether this process moved it, or the error.
pub data Applied : Type 0 where
  applied : Task → Bool → Applied
  failed_with : Reply Task → Applied

-- The event of a phase or step change, and those who are told of it.
unfoldable pub tell : Task → Task → Text → World → World
tell t stored reason w =
    if not (phase_eq stored.phase t.phase) || not (step_eq stored.step t.step)
    then record w { events = w.events ++ event t stored reason ∷ []; told = w.told ++ stored ∷ [] }
    else w

unfoldable pub run_effect : Task → Effect → World → World
run_effect t e w = if has_effect e.kind then record w { runs = w.runs ++ (t, e) ∷ [] } else w

-- What follows the compare-and-set.
unfoldable pub after_write : World → Task → Move → Table × Reply Task → World × Applied
after_write w t m (tbl, reply stored) = (
  run_effect stored m.effect (tell t stored m.reason (record w { table = tbl })),
  applied stored true,
)
after_write w t m (tbl, r) = (record w { table = tbl }, failed_with r)

-- Writes the move over `t` and runs its effect only if the write won. A move that only acts runs its
-- effect.
unfoldable pub apply : Io → ℕ → World → Task → Move → World × Applied
apply io now w t m =
    if not (acts m t)
    then (w, applied t false)
    else if changed m t
    then after_write w t m (transition io now w.table t m.next)
    else (run_effect t m.effect w, applied t true)
