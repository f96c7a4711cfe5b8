-- ===== src/Flow/Progress.antt =====
-- A move that writes the row moves the task: the version of the row tells it from every other.
use c_squad.Task.{
  Phase, running, checking, fixing, merging, needs_you, failed, Task, phase_eq_iff, step_eq_iff,
  last_check_eq_iff, outcome_eq_iff, asked,
}
use c_squad.Verdict.{Verdict}
use c_squad.Flow.Kinds.{Landing, Obs, Move, changed}
use c_squad.Flow.Next.{
  lost, after_work, next_waiting, recorded, judge, apply_verdict, landed, next_working,
  next_checking, next_merging, next_ready, next_stopped, dispatch, next,
}
use c_squad.Base.{
  ◌≡◌, ◌≢◌, refl, ◌⊎◌, inl, inr, true, false, Option, none, some, arith, text_eq_iff,
}

-- The move leaves the row as it is, or takes the task to another phase or step.
abbrev Moves : Phase → Task → Move → Type 0
Moves p t m = (m.next ≡ t) ⊎ ((m.next.phase ≢ p) ⊎ (m.next.step ≢ t.step))

module _ (t : Task) (o : Obs) where
  lost-phase : (m : Move) → lost t o ≡ some m → (m.next.phase ≡ failed) ⊎ (m.next.phase ≡ needs_you)
  unfolding lost
  lost-phase m e = ground arith

  after_work-Moves : (p : Phase) → (p ≡ running) ⊎ (p ≡ fixing) → Moves p t (after_work t o)
  unfolding after_work
  after_work-Moves p w = grind arith

  next_working-Moves : (p : Phase) → (p ≡ running) ⊎ (p ≡ fixing) → Moves p t (next_working t o)
  unfolding next_working
  next_working-Moves p w = grind (arith, lost-phase, after_work-Moves p w)

  judge-Moves : (v : Verdict) (n : Task) → (judge t v o n).next.phase ≢ checking
  unfolding judge
  judge-Moves v n = ground arith

  next_checking-Moves : (v : Option Verdict) → Moves checking t (next_checking t o v)
  unfolding next_checking apply_verdict
  next_checking-Moves none = ground arith
  next_checking-Moves (some v) =
      inr (inl (judge-Moves (recorded t v o) (record t { last_check = some (recorded t v o) })))

  next_merging-Moves : (l : Option Landing) → Moves merging t (next_merging t o l)
  unfolding next_merging landed
  next_merging-Moves none = grind (arith, lost-phase)
  next_merging-Moves (some l) = ground (arith, step_eq_iff t.step asked)

  dispatch-Moves : (p : Phase) → Moves p t (dispatch p t o)
  unfolding dispatch next_waiting next_ready next_stopped
  dispatch-Moves running = next_working-Moves running (inl refl)
  dispatch-Moves fixing = next_working-Moves fixing (inr refl)
  dispatch-Moves checking = next_checking-Moves o.verdict
  dispatch-Moves merging = next_merging-Moves o.land
  dispatch-Moves _ = ground arith

-- The whole row is the same.
unchanged : (m : Move) (t : Task) → m.next ≡ t → changed m t ≡ false
unfolding changed
unchanged m t e = rw e (
    ground (
      arith,
      phase_eq_iff t.phase t.phase,
      step_eq_iff t.step t.step,
      last_check_eq_iff t.last_check t.last_check,
      text_eq_iff t.note t.note,
      outcome_eq_iff t.outcome t.outcome,
    ))

-- Whatever is observed, a move that writes the row changes the phase or the step.
pub next-moves :
    (t : Task) (o : Obs)
    → changed (next t o) t ≡ true
    → ((next t o).next.phase ≢ t.phase) ⊎ ((next t o).next.step ≢ t.step)
unfolding next
next-moves t o h = elim (dispatch-Moves t o t.phase) [
  | inl same ↦ cc (h, unchanged (next t o) t same)
  | inr moved ↦ moved
]
