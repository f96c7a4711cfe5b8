-- ===== src/Samples/FlowRuns.antt =====
-- The flow's theorems at sample tasks.
use c_squad.Engine.{State}
use c_squad.Verdict.{passes}
use c_squad.Check.Spec.{parse_spec, reviewed_by, is_reviewer}
use c_squad.Task.{waiting, no_step}
use c_squad.Flow.Kinds.{changed, acts, turn_ended, implicit, orchestrated, merges}
use c_squad.Flow.Next.{
  next, next_waiting, missing, still_open, recorded, stuck, lost, after_work, not_shrinking,
}
use c_squad.Flow.Resume.{retry}
use c_squad.Flow.Diagram.{Edge, next-Edge}
use c_squad.Flow.Waiting.{Stops, Waits, Starts, next-waiting}
use c_squad.Flow.Gates.{MayLand, IsChecked, next-land_gated}
use c_squad.Flow.Rounds.{IsRounded, next-IsRounded}
use c_squad.Flow.Guard.{Fixes, GivesUp, EndsFlat, stuck_iff, next-failed_check}
use c_squad.Flow.Progress.{next-moves}
use c_squad.Flow.Resuming.{TakenBack, retry-next}
use c_squad.Samples.Inputs.{
  quiet_obs, session_in, queued, released, working, reviewed, failing, with_verdict, flat,
}
use c_squad.Base.{◌≡◌, ◌≢◌, refl, ◌⊎◌, true, arith, lit, text_eq, ◌↔◌, cut, trim_space}

flow_code : Unit {0}
unfolding next acts changed lit text_eq turn_ended implicit orchestrated merges missing still_open
    lost after_work next_waiting
flow_code = tt

next-Edge_example :
    Edge waiting (next queued released).effect.kind (next queued released).next.phase
unfolding flow_code
next-Edge_example = next-Edge queued released refl

next-waiting_example : Stops queued released ⊎ Waits queued released ⊎ Starts queued released
next-waiting_example = next-waiting queued released refl

next-land_gated_example :
    MayLand working (session_in State.idle) × IsChecked working (session_in State.idle)
unfolding flow_code
next-land_gated_example = next-land_gated working (session_in State.idle) (λ e. cc) refl

next-moves_example :
    ((next queued released).next.phase ≢ waiting) ⊎ ((next queued released).next.step ≢ no_step)
unfolding flow_code
next-moves_example = next-moves queued released refl

reviewed-IsRounded : IsRounded reviewed
reviewed-IsRounded = omega arith

next-IsRounded_example : IsRounded (next reviewed (with_verdict failing)).next
next-IsRounded_example = next-IsRounded reviewed (with_verdict failing) reviewed-IsRounded

stuck_iff_example :
    (stuck reviewed flat ≡ true)
    ↔ ((reviewed_by (parse_spec reviewed.check_spec) ≡ true) × EndsFlat flat.blocking)
stuck_iff_example = stuck_iff reviewed flat

-- The guard stops this review.
stuck-flat : stuck reviewed flat ≡ true
unfolding stuck parse_spec reviewed_by is_reviewer not_shrinking lit text_eq cut trim_space
stuck-flat = refl

next-failed_check_example :
    Fixes reviewed
      (recorded reviewed failing (with_verdict failing))
      (next reviewed (with_verdict failing))
    ⊎ GivesUp reviewed
        (recorded reviewed failing (with_verdict failing))
        (next reviewed (with_verdict failing))
unfolding passes
next-failed_check_example =
    next-failed_check reviewed (with_verdict failing) failing refl refl refl refl

retry-next_example : TakenBack waiting (retry (next queued quiet_obs).next)
unfolding flow_code
retry-next_example = retry-next queued quiet_obs (λ e. cc) refl (λ e. cc)
