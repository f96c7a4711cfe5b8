-- ===== src/Samples/StoreRuns.antt =====
-- The store's theorems at a table of two tasks.
use c_squad.Task.{Task, merging}
use c_squad.Store.Table.{Table, reply, conflict, find, update, affected}
use c_squad.Store.Ops.{set_session, is_version, stamp, written, transition, notice, claim_notice}
use c_squad.Store.Rows.{IsKeyed}
use c_squad.Store.Spec.{Refines, moves}
use c_squad.Store.Refined.{perform-Refines}
use c_squad.Store.Versions.{DbSteps, Keeps, DbSteps-Keeps, here, more, sets_session}
use c_squad.Store.Once.{transition_once, claim_notice_once}
use c_squad.Samples.Inputs.{working, queued, row_of, two_rows}
use c_squad.Base.{◌≡◌, ◌≢◌, refl, inl, true, none, [], ◌∷◌, arith, text_eq}

two_rows-IsKeyed : IsKeyed two_rows
two_rows-IsKeyed = omega arith

abbrev merged_next : Task
merged_next = record working { phase = merging }

store_code : Unit {0}
unfolding transition find update affected is_version stamp written set_session text_eq claim_notice
    notice
store_code = tt

perform-Refines_example : Refines (moves 7 working merged_next) two_rows
perform-Refines_example = perform-Refines (moves 7 working merged_next) two_rows two_rows-IsKeyed

-- The table after T1 moved to merging, and after its session was recorded anew.
abbrev moved : Table
moved = (transition none 7 two_rows working merged_next).0

abbrev renamed : Table
renamed = set_session none 1 (b'u' ∷ []) moved

renaming : DbSteps 1 moved renamed
renaming = more here (sets_session none 1 (b'u' ∷ []) refl)

transition_once_example : transition none 9 renamed working queued ≡ (renamed, conflict)
unfolding store_code
transition_once_example =
    transition_once 7 9 two_rows moved renamed working merged_next queued
      (record merged_next { updated_at = 7 }) two_rows-IsKeyed refl (inl (λ e. cc)) renaming

DbSteps-Keeps_example : Keeps 1 (row_of working) (set_session none 1 (b'u' ∷ []) two_rows)
unfolding store_code
DbSteps-Keeps_example =
    DbSteps-Keeps 1 (row_of working) two_rows (set_session none 1 (b'u' ∷ []) two_rows)
      two_rows-IsKeyed refl (more here (sets_session none 1 (b'u' ∷ []) refl))

abbrev announced : Table
announced = (claim_notice none two_rows working (b'r' ∷ []) 5 true).0

claim_notice_once_example : (claim_notice none announced working (b'q' ∷ []) 8 true).1 ≢ reply true
unfolding store_code
claim_notice_once_example =
    claim_notice_once two_rows announced announced working (b'r' ∷ []) (b'q' ∷ []) 5 8 none
      two_rows-IsKeyed refl here
