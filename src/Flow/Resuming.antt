-- ===== src/Flow/Resuming.antt =====
-- Retry: which tasks it resumes, and that it takes a task back to where the flow stopped it.
use c_squad.Task.{
  Phase, waiting, running, checking, fixing, merging, needs_you, Step, no_step, asked,
  resume_waiting, resume_round, resume_check, resume_merge, Task, phase_eq_iff,
}
use c_squad.Verdict.{Verdict}
use c_squad.Flow.Kinds.{EffectKind, no_effect, check, send, land, Landing, Obs, Move}
use c_squad.Flow.Next.{
  lost, after_work, next_waiting, judge, apply_verdict, landed, next_working, next_checking,
  next_merging, next_ready, next_stopped, dispatch, next,
}
use c_squad.Flow.Resume.{Retried, resumed, refused, resume, retry}
use c_squad.Base.{◌≡◌, ◌≢◌, refl, ◌∙◌, ◌⊎◌, inl, inr, Option, none, some, arith, ◌↔◌}

-- From the phase in which a task was stopped to the phase in which retry resumes it, and the effect.
pub data Back : Phase → EffectKind → Phase → Type 0 where
  requeue : Back waiting no_effect waiting
  restart : Back running no_effect waiting
  recheck : Back checking check checking
  another_round : Back checking send fixing
  reland : Back merging land merging

-- The task stopped for the user with a step that retry knows, out of phase `p`.
pub data Resumes : Phase → Step → Type 0 where
  from_waiting : Resumes waiting resume_waiting
  from_running : Resumes running resume_waiting
  from_check : Resumes checking resume_check
  from_rounds : Resumes checking resume_round
  from_merge : Resumes merging resume_merge

-- A move to `needs_you` out of another phase has no step, or one that resumes that phase.
abbrev StopsWell : Phase → Move → Type 0
StopsWell p m = m.next.phase ≡ needs_you → (m.next.step ≡ no_step) ⊎ Resumes p m.next.step

module _ (t : Task) (o : Obs) where
  lost-step : (m : Move) → lost t o ≡ some m → m.next.step ≡ no_step
  unfolding lost
  lost-step m e = ground arith

  after_work-stays : (after_work t o).next.phase ≡ needs_you → t.phase ≡ needs_you
  unfolding after_work
  after_work-stays h = ground arith

  next_working-StopsWell :
      (p : Phase) → (p ≡ running) ⊎ (p ≡ fixing) → t.phase ≡ p → StopsWell p (next_working t o)
  unfolding next_working
  next_working-StopsWell p w e =
      grind (arith, lost-step, after_work-stays, from_running, phase_eq_iff t.phase running)

  next_checking-StopsWell :
      (v : Option Verdict) → t.phase ≡ checking → StopsWell checking (next_checking t o v)
  unfolding next_checking apply_verdict judge
  next_checking-StopsWell none e = grind (arith, from_check)
  next_checking-StopsWell (some v) e = grind (arith, from_check, from_rounds)

  next_merging-StopsWell :
      (l : Option Landing) → t.phase ≡ merging → StopsWell merging (next_merging t o l)
  unfolding next_merging landed
  next_merging-StopsWell none e = grind (arith, lost-step)
  next_merging-StopsWell (some l) e = grind (arith, from_merge)

  dispatch-StopsWell : (p : Phase) → t.phase ≡ p → p ≢ needs_you → StopsWell p (dispatch p t o)
  unfolding dispatch next_waiting next_ready next_stopped
  dispatch-StopsWell waiting e n = grind (arith, from_waiting)
  dispatch-StopsWell running e n = next_working-StopsWell running (inl refl) e
  dispatch-StopsWell fixing e n = next_working-StopsWell fixing (inr refl) e
  dispatch-StopsWell checking e n = next_checking-StopsWell o.verdict e
  dispatch-StopsWell merging e n = next_merging-StopsWell o.land e
  dispatch-StopsWell needs_you e n = absurd (n refl)
  dispatch-StopsWell _ e n = ground arith

-- Retry takes the row back towards phase `p`.
abbrev pub TakenBack : Phase → Retried → Type 0
TakenBack p (resumed m) = Back p m.effect.kind m.next.phase
TakenBack p (refused _) = ⊥

resume-TakenBack : {p : Phase} {s : Step} → Resumes p s → (u : Task) → TakenBack p (resume s u)
unfolding resume
resume-TakenBack from_waiting u = requeue
resume-TakenBack from_running u = restart
resume-TakenBack from_check u = recheck
resume-TakenBack from_rounds u = another_round
resume-TakenBack from_merge u = reland

retry_at : (u : Task) → u.phase ≡ needs_you → retry u ≡ resume u.step u
unfolding retry
retry_at u e = ground (arith, phase_eq_iff u.phase needs_you)

-- When the flow stops a task for the user with a step, retry accepts the row and takes it back to
-- where it was stopped: a queued or unstarted task waits again, a check without a verdict runs
-- again, a task out of rounds gets one more with the findings, and a merge is landed again.
pub retry-next :
    (t : Task) (o : Obs)
    → t.phase ≢ needs_you
    → (next t o).next.phase ≡ needs_you
    → (next t o).next.step ≢ no_step
    → TakenBack t.phase (retry (next t o).next)
unfolding next
retry-next t o n e k = elim (dispatch-StopsWell t o t.phase refl n e) [
  | inl none_left ↦ absurd (k none_left)
  | inr r ↦ rw (retry_at (next t o).next e) (resume-TakenBack r (next t o).next)
]

resumed_only :
    (t : Task) (m : Move)
    → retry t ≡ resumed m
    → (t.phase ≡ needs_you) × (t.step ≢ no_step) × (t.step ≢ asked)
unfolding retry resume
resumed_only t m e = ground (arith, phase_eq_iff t.phase needs_you)

resume_some :
    (s : Step) (u : Task) → s ≢ no_step → s ≢ asked → (m : Move) × (resume s u ≡ resumed m)
unfolding resume
resume_some resume_waiting u n k = (_, refl)
resume_some resume_round u n k = (_, refl)
resume_some resume_check u n k = (_, refl)
resume_some resume_merge u n k = (_, refl)
resume_some no_step u n k = absurd (n refl)
resume_some asked u n k = absurd (k refl)

-- Retry resumes a task exactly when it needs the user and a step says what to resume.
pub retry_iff :
    (t : Task)
    → ((m : Move) × (retry t ≡ resumed m))
      ↔ ((t.phase ≡ needs_you) × (t.step ≢ no_step) × (t.step ≢ asked))
retry_iff t = (
  λ (m, e). resumed_only t m e,
  λ (e, n, k). let (m, q) = resume_some t.step t n k in (m, retry_at t e ∙ q),
)
