-- ===== src/Samples/MoverRuns.antt =====
-- Two processes that both decided to merge T1.
use c_squad.Engine.{State}
use c_squad.Task.{merging}
use c_squad.Store.Table.{conflict, find, update, affected}
use c_squad.Store.Ops.{is_version, stamp, written, transition}
use c_squad.Store.Versions.{here}
use c_squad.Flow.Kinds.{changed, acts, turn_ended, implicit, orchestrated, merges}
use c_squad.Flow.Next.{next, lost, after_work}
use c_squad.Mover.Apply.{World, failed_with, tell, run_effect, after_write, apply}
use c_squad.Mover.Once.{apply_once}
use c_squad.Samples.Inputs.{working, session_in, start_world}
use c_squad.Base.{◌≡◌, refl, none, text_eq, arith}

mover_code : Unit {0}
unfolding next changed acts turn_ended implicit orchestrated merges lost after_work apply
    after_write tell run_effect transition find update affected is_version stamp written text_eq
mover_code = tt

abbrev after_first : World
after_first = (apply none 7 start_world working (next working (session_in State.idle))).0

apply_once_example :
    apply none 9 after_first working (next working (session_in State.done))
    ≡ (after_first, failed_with conflict)
unfolding mover_code
apply_once_example =
    apply_once 7 9 start_world after_first working
      (record working { phase = merging; updated_at = 7 }) (session_in State.idle)
      (session_in State.done) (omega arith) refl refl here refl
