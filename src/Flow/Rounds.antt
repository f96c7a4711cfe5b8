-- ===== src/Flow/Rounds.antt =====
-- Rounds of checking: the limit, the counts that a verdict keeps, and the convergence guard.
use c_squad.Task.{
  Phase, running, checking, fixing, merging, needs_you, Task, phase_eq_iff, resume_check,
}
use c_squad.Verdict.{Verdict, count}
use c_squad.Flow.Kinds.{Landing, Obs, Move}
use c_squad.Flow.Next.{
  lost, after_work, next_waiting, earlier, previous, recorded, judge, apply_verdict, landed,
  next_working, next_checking, next_merging, next_ready, next_stopped, dispatch, next,
}
use c_squad.Flow.Resume.{resumed, resume, retry}
use c_squad.Base.{
  ℕ, zero, suc, ◌-◌, ◌≤◌, ◌≡◌, ◌≢◌, refl, ◌⊎◌, inl, inr, Option, none, some, List, [], ◌∷◌, ◌++◌,
  arith, length, take, length-append, length-take,
}

-- The loop with its index keeps the first entries.
earlier_from : (k i round : ℕ) (ns : List ℕ) → round - 1 - i ≡ k → earlier i round ns ≡ take k ns
unfolding earlier
earlier_from zero i round [] e = refl
earlier_from (suc k) i round [] e = refl
earlier_from zero i round (n ∷ ns) e =
    ground (arith, earlier_from zero (suc i) round ns (omega arith))
earlier_from (suc k) i round (n ∷ ns) e =
    ground (arith, earlier_from k (suc i) round ns (omega arith))

-- The blocking counts that the row keeps.
abbrev pub history : Task → List ℕ
history t = (previous t.last_check).blocking

-- A verdict that counts keeps the counts of the rounds before this one and adds its own; one
-- without an answer keeps them all.
pub recorded-blocking :
    (t : Task) (v : Verdict) (o : Obs)
    → ((v.error ≡ [])
        × ((recorded t v o).blocking ≡ take (t.round - 1) (history t) ++ count v ∷ []))
      ⊎ ((v.error ≢ []) × ((recorded t v o).blocking ≡ history t))
unfolding recorded
recorded-blocking t v o =
    ground (arith, earlier_from (t.round - 1) 0 t.round (history t) (omega arith))

-- What holds of a task's rounds: the limit is at least one and is kept, a check runs, or is to run
-- again, in round one or later, and there is at most one blocking count for each round.
pub record IsRounded (t : Task) : Type 0 where
  pub limit_pos : 1 ≤ t.max_rounds
  pub within : t.round ≤ t.max_rounds
  pub counted : length (history t) ≤ t.round
  pub started : t.phase ≡ checking → 1 ≤ t.round
  pub rechecked : t.phase ≡ needs_you → t.step ≡ resume_check → 1 ≤ t.round

module _ (t : Task) (o : Obs) where
  length-recorded :
      (v : Verdict)
      → length (history t) ≤ t.round
      → 1 ≤ t.round
      → length (recorded t v o).blocking ≤ t.round
  length-recorded v h p = elim (recorded-blocking t v o) [
    | inl (e, q) ↦ rw q (
        omega (
          arith,
          length-append (take (t.round - 1) (history t)) (count v ∷ []),
          length-take (t.round - 1) (history t),
        ))
    | inr (e, q) ↦ rw q h
  ]

  lost-IsRounded : (m : Move) → IsRounded t → lost t o ≡ some m → IsRounded m.next
  unfolding lost
  lost-IsRounded m r e = ground arith

  after_work-IsRounded : IsRounded t → IsRounded (after_work t o).next
  unfolding after_work
  after_work-IsRounded r = ground arith

  next_working-IsRounded : IsRounded t → IsRounded (next_working t o).next
  unfolding next_working
  next_working-IsRounded r = grind (arith, lost-IsRounded, after_work-IsRounded)

  apply_verdict-IsRounded :
      (v : Verdict) → IsRounded t → 1 ≤ t.round → IsRounded (apply_verdict t v o).next
  unfolding apply_verdict judge
  apply_verdict-IsRounded v r p = ground (arith, length-recorded v)

  next_checking-IsRounded :
      (v : Option Verdict) → t.phase ≡ checking → IsRounded t → IsRounded (next_checking t o v).next
  unfolding next_checking
  next_checking-IsRounded none e r = ground arith
  next_checking-IsRounded (some v) e r = apply_verdict-IsRounded v r (r.started e)

  next_merging-IsRounded : (l : Option Landing) → IsRounded t → IsRounded (next_merging t o l).next
  unfolding next_merging landed
  next_merging-IsRounded none r = grind (arith, lost-IsRounded)
  next_merging-IsRounded (some l) r = ground arith

  dispatch-IsRounded : (p : Phase) → t.phase ≡ p → IsRounded t → IsRounded (dispatch p t o).next
  unfolding dispatch next_waiting next_ready next_stopped
  dispatch-IsRounded running e r = next_working-IsRounded r
  dispatch-IsRounded fixing e r = next_working-IsRounded r
  dispatch-IsRounded checking e r = next_checking-IsRounded o.verdict e r
  dispatch-IsRounded merging e r = next_merging-IsRounded o.land r
  dispatch-IsRounded _ e r = ground arith

-- Every move keeps the rounds in order: never more rounds than the limit, never more blocking counts
-- than rounds.
pub next-IsRounded : (t : Task) (o : Obs) → IsRounded t → IsRounded (next t o).next
unfolding next
next-IsRounded t o r = dispatch-IsRounded t o t.phase refl r

-- A retry keeps them in order too: one more round raises the limit with the round.
pub retry-IsRounded : (t : Task) (m : Move) → retry t ≡ resumed m → IsRounded t → IsRounded m.next
unfolding retry resume
retry-IsRounded t m e r = ground (arith, phase_eq_iff t.phase needs_you)
