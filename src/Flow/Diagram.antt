-- ===== src/Flow/Diagram.antt =====
-- The phase diagram of the flow: every move of `next` follows it.
use c_squad.Task.{
  Phase, waiting, running, checking, fixing, merging, ready, done, needs_you, failed, cancelled,
  Task, phase_eq_iff, step_eq_iff, last_check_eq_iff, outcome_eq_iff,
}
use c_squad.Verdict.{Verdict}
use c_squad.Flow.Kinds.{
  EffectKind, no_effect, start, check, send, land, Landing, Obs, Move, stay, changed, acts,
}
use c_squad.Flow.Next.{
  lost, after_work, next_waiting, judge, apply_verdict, landed, next_working, next_checking,
  next_merging, next_ready, next_stopped, dispatch, next,
}
use c_squad.Base.{◌≡◌, refl, ap, ◌⊎◌, inl, inr, true, false, Option, none, some, arith, text_eq_iff}

-- A phase in which a worker holds the task.
pub data IsWorking : Phase → Type 0 where
  running_works : IsWorking running
  fixing_works : IsWorking fixing

-- From a phase, by an effect, to a phase.
pub data Edge : Phase → EffectKind → Phase → Type 0 where
  begin : Edge waiting start running
  blocked : Edge waiting no_effect needs_you
  never_started : Edge running no_effect needs_you
  worker_lost : {p : Phase} → IsWorking p → Edge p no_effect needs_you
  worker_failed : {p : Phase} → IsWorking p → Edge p no_effect failed
  to_check : {p : Phase} → IsWorking p → Edge p check checking
  to_merge : {p : Phase} → IsWorking p → Edge p land merging
  check_stops : Edge checking no_effect needs_you
  check_merges : Edge checking land merging
  check_ready : Edge checking no_effect ready
  check_fixes : Edge checking send fixing
  merge_done : Edge merging no_effect done
  merge_asks : Edge merging send merging
  merge_again : Edge merging land merging
  merge_stops : Edge merging no_effect needs_you
  merge_fails : Edge merging no_effect failed
  ready_merges : Edge ready land merging
  resumes : Edge needs_you no_effect running
  recovers : Edge failed no_effect running

-- The move does nothing, or it follows an edge out of `p`.
abbrev Follows : Phase → Task → Move → Type 0
Follows p t m = (m ≡ stay t) ⊎ Edge p m.effect.kind m.next.phase

module _ (t : Task) (o : Obs) where
  lost_cases :
      (m : Move)
      → lost t o ≡ some m
      → (m.effect.kind ≡ no_effect) × ((m.next.phase ≡ failed) ⊎ (m.next.phase ≡ needs_you))
  unfolding lost
  lost_cases m e = ground arith

  after_work-Follows : (p : Phase) → IsWorking p → Follows p t (after_work t o)
  unfolding after_work
  after_work-Follows p w = grind (arith, to_check, to_merge)

  next_waiting-Follows : Follows waiting t (next_waiting t o)
  unfolding next_waiting
  next_waiting-Follows = grind (arith, begin, blocked)

  next_working-Follows : (p : Phase) → IsWorking p → t.phase ≡ p → Follows p t (next_working t o)
  unfolding next_working
  next_working-Follows p w e =
      grind (arith, never_started, worker_lost, worker_failed, lost_cases, after_work-Follows p w)

  next_checking-Follows : (v : Option Verdict) → Follows checking t (next_checking t o v)
  unfolding next_checking apply_verdict judge
  next_checking-Follows none = grind (arith, check_stops)
  next_checking-Follows (some v) =
      grind (arith, check_stops, check_merges, check_ready, check_fixes)

  next_merging-Follows :
      (l : Option Landing) → t.phase ≡ merging → Follows merging t (next_merging t o l)
  unfolding next_merging landed
  next_merging-Follows none e = grind (arith, merge_again, merge_stops, merge_fails, lost_cases)
  next_merging-Follows (some l) e = grind (arith, merge_done, merge_asks, merge_stops)

  next_ready-Follows : Follows ready t (next_ready t o)
  unfolding next_ready
  next_ready-Follows = grind (arith, ready_merges)

  next_stopped-Follows :
      (p : Phase) → (p ≡ needs_you) ⊎ (p ≡ failed) → Follows p t (next_stopped t o)
  unfolding next_stopped
  next_stopped-Follows p e = grind (arith, resumes, recovers)

  dispatch-Follows : (p : Phase) → t.phase ≡ p → Follows p t (dispatch p t o)
  unfolding dispatch
  dispatch-Follows waiting e = next_waiting-Follows
  dispatch-Follows running e = next_working-Follows running running_works e
  dispatch-Follows fixing e = next_working-Follows fixing fixing_works e
  dispatch-Follows checking e = next_checking-Follows o.verdict
  dispatch-Follows merging e = next_merging-Follows o.land e
  dispatch-Follows ready e = next_ready-Follows
  dispatch-Follows needs_you e = next_stopped-Follows needs_you (inl refl)
  dispatch-Follows failed e = next_stopped-Follows failed (inr refl)
  dispatch-Follows done e = inl refl
  dispatch-Follows cancelled e = inl refl

  next-Follows : Follows t.phase t (next t o)
  unfolding next
  next-Follows = dispatch-Follows t.phase refl

-- A move that keeps the whole row and has no effect does nothing.
pub acts-stay : (t : Task) → acts (stay t) t ≡ false
unfolding acts changed
acts-stay t = ground (
  arith,
  phase_eq_iff t.phase t.phase,
  step_eq_iff t.step t.step,
  last_check_eq_iff t.last_check t.last_check,
  text_eq_iff t.note t.note,
  outcome_eq_iff t.outcome t.outcome,
)

-- Whatever is observed, a move that does anything goes along an edge of the phase diagram, with
-- the effect that the edge names.
pub next-Edge :
    (t : Task) (o : Obs)
    → acts (next t o) t ≡ true
    → Edge t.phase (next t o).effect.kind (next t o).next.phase
next-Edge t o h = elim (next-Follows t o) [
  | inl same ↦ cc (h, ap (λ m. acts m t) same, acts-stay t)
  | inr edge ↦ edge
]
