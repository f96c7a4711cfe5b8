-- ===== src/Flow/Gates.antt =====
-- What has to hold before work is landed, and before a check's verdict counts.
use c_squad.Task.{Phase, running, checking, fixing, merging, ready, Task}
use c_squad.Verdict.{Verdict, passes}
use c_squad.Flow.Kinds.{no_effect, land, Obs, Move, implicit, merges}
use c_squad.Flow.Next.{
  lost, after_work, next_waiting, recorded, judge, apply_verdict, next_working, next_checking,
  next_ready, next_stopped, dispatch, next,
}
use c_squad.Base.{◌≡◌, ◌≢◌, refl, sym, ◌∙◌, ◌⊎◌, inr, true, false, Option, none, some, arith, []}

-- The task merges at all: a target was given, or tasks wait for it and the user does not hold it.
abbrev pub MayLand : Task → Obs → Type 0
MayLand t o = (t.merge_into ≢ []) ⊎ ((t.hold ≡ false) × (o.dependents ≢ []))

-- The check that the task asks for, if any, has passed: it passes now, or the task is past it.
abbrev pub IsChecked : Task → Obs → Type 0
IsChecked t o =
    (t.check_spec ≡ [])
    ⊎ ((t.phase ≡ ready)
        ⊎ ((t.phase ≡ checking) × ((v : Verdict) × (o.verdict ≡ some v) × (passes v ≡ true))))

-- What a move that lands for the first time rests on.
abbrev Gated : Task → Obs → Move → Type 0
Gated t o m = m.effect.kind ≡ land → MayLand t o × IsChecked t o

module _ (t : Task) (o : Obs) where
  merges-MayLand : merges t o ≡ true → MayLand t o
  unfolding merges implicit
  merges-MayLand h = ground arith

  implicit-MayLand : implicit t o.dependents ≡ true → MayLand t o
  unfolding implicit
  implicit-MayLand h = ground arith

  lost-no_land : (m : Move) → lost t o ≡ some m → m.effect.kind ≡ no_effect
  unfolding lost
  lost-no_land m e = ground arith

  after_work-Gated : Gated t o (after_work t o)
  unfolding after_work
  after_work-Gated = grind (arith, merges-MayLand)

  next_working-Gated : Gated t o (next_working t o)
  unfolding next_working
  next_working-Gated = grind (arith, lost-no_land, after_work-Gated)

  recorded-passes : (v : Verdict) → passes (recorded t v o) ≡ passes v
  unfolding recorded passes
  recorded-passes v = refl

  judge-Gated :
      (v : Verdict) (n : Task)
      → (judge t v o n).effect.kind ≡ land
      → MayLand t o × (passes v ≡ true)
  unfolding judge
  judge-Gated v n h = ground (arith, merges-MayLand)

  next_checking-Gated :
      (v : Option Verdict) → t.phase ≡ checking → o.verdict ≡ v → Gated t o (next_checking t o v)
  unfolding next_checking apply_verdict
  next_checking-Gated none e q h = ground arith
  next_checking-Gated (some v) e q h =
      let (may, good) =
        judge-Gated (recorded t v o) (record t { last_check = some (recorded t v o) }) h in
      (may, inr (inr (e, (v, q, sym (recorded-passes v) ∙ good))))

  next_ready-Gated : t.phase ≡ ready → Gated t o (next_ready t o)
  unfolding next_ready
  next_ready-Gated e = grind (arith, implicit-MayLand)

  dispatch-Gated : (p : Phase) → t.phase ≡ p → p ≢ merging → Gated t o (dispatch p t o)
  unfolding dispatch next_waiting next_stopped
  dispatch-Gated running e n = next_working-Gated
  dispatch-Gated fixing e n = next_working-Gated
  dispatch-Gated checking e n = next_checking-Gated o.verdict e refl
  dispatch-Gated merging e n = absurd (n refl)
  dispatch-Gated ready e n = next_ready-Gated e
  dispatch-Gated _ e n = ground arith

-- A task that is not merging yet is landed only if it merges at all (it has a target, or tasks wait
-- for it and it is not held), and only if it asks for no check, its check passed before, or the
-- verdict of the round at hand passes.
pub next-land_gated :
    (t : Task) (o : Obs)
    → t.phase ≢ merging
    → (next t o).effect.kind ≡ land
    → MayLand t o × IsChecked t o
unfolding next
next-land_gated t o n h = dispatch-Gated t o t.phase refl n h
