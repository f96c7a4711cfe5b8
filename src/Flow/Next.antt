-- ===== src/Flow/Next.antt =====
-- Where a task goes (internal/flow/flow.go): `Next` and what it calls.
use c_squad.Engine.{State, state_eq}
use c_squad.Verdict.{Verdict, no_verdict, passes, count}
use c_squad.Check.Spec.{parse_spec, reviewed_by}
use c_squad.Task.{
  Phase, waiting, running, checking, fixing, merging, ready, done, needs_you, failed, cancelled,
  no_step, asked, resume_waiting, resume_round, resume_check, resume_merge, Task, phase_eq, step_eq,
  label,
}
use c_squad.Flow.Kinds.{
  start, check, send, land, Landing, Obs, Move, no_op, stay, orchestrated, implicit, merges,
  merge_text, entered, elapsed, is_resting, turn_ended, to, need_you, act,
}
use c_squad.Flow.Texts.{
  start_prompt, fix_message, merge_request, check_of, passed_text, max_rounds_text,
  not_converging_text, findings_sent_text, still_conflicts_text,
}
use c_squad.Base.{
  ℕ, suc, ◌+◌, ◌-◌, ◌/◌, ◌≡◌, ap, ◌∙◌, max, Bool, false, ◌&&◌, ◌||◌, not, Option, none, some, List,
  [], ◌∷◌, ◌++◌, ◌==◌, ltb, leb, length, is_empty, drop, lookup, if◌then◌else◌, Text, lit, itoa,
  join,
}

-- A session that failed or disappeared under a running flow. While the task's lock is held the
-- session may be going away on purpose.
unfoldable pub lost : Task → Obs → Option Move
lost t o =
    if not o.observed || o.busy
    then none
    else if state_eq o.live.state State.failed
    then some (record {
      next = record (to t failed no_step) { note = lit "the session failed" };
      effect = no_op;
      reason = lit "the session failed";
    })
    else if state_eq o.live.state State.gone
    then some (need_you t no_step (lit "session gone: it was removed outside csquad"))
    else none

-- The check, else the merge, of a task whose worker finished.
unfoldable pub after_work : Task → Obs → Move
after_work t o =
    if not (is_empty t.check_spec)
    then (let round = max t.round 1 in
        act (record (to t checking no_step) { round = round }) check (check_of round t.max_rounds))
    else if merges t o
    then act (to t merging no_step) land (lit "the worker stopped; " ++ merge_text t o)
    else stay t

-- Why one dependency can never be done, if so.
unfoldable pub dep_gone : ℕ → Option Task → Option Text
dep_gone id none = some (lit "T" ++ itoa id ++ lit " does not exist")
dep_gone id (some d) =
    if phase_eq d.phase cancelled then some (lit "T" ++ itoa id ++ lit " was cancelled") else none

unfoldable pub dep_open : Option Task → Option Text
dep_open none = none
dep_open (some d) =
    if phase_eq d.phase cancelled
    then none
    else if phase_eq d.phase done
    then none
    else some (label d)

abbrev pub collect {ℓ} : {A : Type ℓ} → Option A → List A → List A
collect none rest = rest
collect (some a) rest = a ∷ rest

-- The loop over `After`: the dependencies that are gone, and those that are not done yet.
unfoldable pub missing : List ℕ → List (ℕ × Task) → List Text
unfolding dep_gone
missing [] deps = []
missing (id ∷ ids) deps = collect (dep_gone id (lookup id deps)) (missing ids deps)

unfoldable pub still_open : List ℕ → List (ℕ × Task) → List Text
unfolding dep_open
still_open [] deps = []
still_open (id ∷ ids) deps = collect (dep_open (lookup id deps)) (still_open ids deps)

unfoldable pub next_waiting : Task → Obs → Move
next_waiting t o =
    if not (is_empty (missing t.after o.deps))
    then need_you t resume_waiting (
        lit "dependency gone: "
        ++ join (missing t.after o.deps) (lit ", ")
        ++ lit "; csquad retry waits again, csquad cancel drops this task")
    else if not (is_empty (still_open t.after o.deps))
    then stay t
    else record {
      next = to t running no_step;
      effect = record { kind = start; text = start_prompt t o.deps };
      reason = lit "its dependencies are done";
    }

-- The convergence guard: a reviewer's blocking findings did not shrink for two rounds in a row.
unfoldable pub not_shrinking : List ℕ → Bool
not_shrinking (a ∷ b ∷ c ∷ []) = leb a b && leb b c
not_shrinking _ = false

unfoldable pub stuck : Task → Verdict → Bool
unfolding not_shrinking
stuck t v =
    if not (reviewed_by (parse_spec t.check_spec)) || ltb (length v.blocking) 3
    then false
    else not_shrinking (drop (length v.blocking - 3) v.blocking)

-- The entries of earlier rounds: `for i, n := range prev.Blocking { if i < t.Round-1 … }`.
unfoldable pub earlier : ℕ → ℕ → List ℕ → List ℕ
earlier i round [] = []
earlier i round (n ∷ ns) =
    let rest = earlier (suc i) round ns in if ltb i (round - 1) then n ∷ rest else rest

abbrev pub previous : Option Verdict → Verdict
previous none = no_verdict
previous (some v) = v

-- The verdict as the task keeps it, with its round, its time and the blocking counts so far.
unfoldable pub recorded : Task → Verdict → Obs → Verdict
recorded t v o = record v {
  round = t.round;
  at = if v.at == 0 then o.now / 1000000 else v.at;
  blocking =
      if is_empty v.error
      then earlier 0 t.round (previous t.last_check).blocking ++ count v ∷ []
      else (previous t.last_check).blocking;
}

-- Where the task goes once its last check is `v`.
unfoldable pub judge : Task → Verdict → Obs → Task → Move
judge t v o n =
    if not (is_empty v.error)
    then need_you n resume_check
        (lit "no verdict: " ++ v.error ++ lit "; csquad retry runs the check again")
    else if passes v
    then (if merges t o
        then act (to n merging no_step) land (passed_text t.round ++ lit "; " ++ merge_text t o)
        else record { next = to n ready no_step; effect = no_op; reason = passed_text t.round })
    else if leb t.max_rounds t.round
    then need_you n resume_round (max_rounds_text t v)
    else if stuck t v
    then need_you n resume_round (not_converging_text v)
    else record {
      next = record (to n fixing no_step) { round = t.round + 1 };
      effect = record { kind = send; text = fix_message t v };
      reason = findings_sent_text t.round;
    }

unfoldable pub apply_verdict : Task → Verdict → Obs → Move
unfolding judge
apply_verdict t v o = let v' = recorded t v o in judge t v' o (record t { last_check = some v' })

-- What the result of a landing does.
unfoldable pub landed : Task → Landing → Move
landed t l =
    if l.done
    then record {
      next = record (to t done no_step) { outcome = l.outcome };
      effect = no_op;
      reason =
          if t.in_place
          then lit "done in place: nothing to merge"
          else lit "merged " ++ l.branch ++ lit " into " ++ l.target;
    }
    else if not (is_empty l.conflict) && not (step_eq t.step asked)
    then record {
      next = to t merging asked;
      effect = record { kind = send; text = merge_request l };
      reason = lit "rebase conflict; the worker was asked to rebase";
    }
    else if not (is_empty l.conflict)
    then need_you t resume_merge (still_conflicts_text l)
    else need_you t resume_merge
        (lit "merge stopped: " ++ l.problem ++ lit "; csquad retry tries again")

-- Running and fixing.
unfoldable pub next_working : Task → Obs → Move
next_working t o =
    if is_empty t.session_id
    then (if phase_eq t.phase running
          && not (is_empty t.after)
          && not o.busy
          && elapsed o.now (entered t) o.grace
        then need_you t resume_waiting (
            lit
              "did not start: the process starting the session stopped; csquad retry starts it again")
        else stay t)
    else if not (orchestrated t) && not (implicit t o.dependents)
    then stay t
    else elim (lost t o) [ some m ↦ m | none ↦ if turn_ended t o then after_work t o else stay t ]

-- The check's last sign of life: the entry into the phase or the last write of its log.
abbrev pub quiet_since : Task → Option ℕ → ℕ
quiet_since t none = entered t
quiet_since t (some q) = if ltb (entered t) q then q else entered t

unfoldable pub next_checking : Task → Obs → Option Verdict → Move
next_checking t o (some v) = apply_verdict t v o
next_checking t o none =
    if not o.busy && elapsed o.now (quiet_since t o.quiet) o.grace
    then need_you t resume_check
        (lit "no verdict: the check stopped without one; csquad retry runs it again")
    else stay t

-- Merging, when no landing has just ended.
unfoldable pub next_landing : Task → Obs → Move
next_landing t o = elim (lost t o) [
  | some m ↦ m
  | none ↦
      if step_eq t.step asked
      then (if turn_ended t o
          then act t land (lit "the worker stopped after the rebase request")
          else stay t)
      else if not o.busy && elapsed o.now (entered t) o.grace
      then act t land (lit "landing again: the last attempt stopped")
      else stay t
]

unfoldable pub next_merging : Task → Obs → Option Landing → Move
unfolding next_landing
next_merging t o (some l) = landed t l
next_merging t o none = next_landing t o

-- A task queued after one that is ready.
unfoldable pub next_ready : Task → Obs → Move
next_ready t o =
    if implicit t o.dependents && o.observed && is_resting o.live.state
    then act (to t merging no_step) land (lit "the check passed; " ++ merge_text t o)
    else stay t

-- Back to work only when the session works again.
unfoldable pub next_stopped : Task → Obs → Move
next_stopped t o =
    if not (is_empty t.session_id) && o.observed && state_eq o.live.state State.working
    then record {
      next = to t running no_step;
      effect = no_op;
      reason = lit "the session works again";
    }
    else stay t

-- The `switch` on the phase.
unfoldable pub dispatch : Phase → Task → Obs → Move
unfolding next_working next_checking next_merging next_ready next_stopped
dispatch waiting t o = next_waiting t o
dispatch running t o = next_working t o
dispatch fixing t o = next_working t o
dispatch checking t o = next_checking t o o.verdict
dispatch merging t o = next_merging t o o.land
dispatch ready t o = next_ready t o
dispatch needs_you t o = next_stopped t o
dispatch failed t o = next_stopped t o
dispatch done t o = stay t
dispatch cancelled t o = stay t

unfoldable pub next : Task → Obs → Move
unfolding dispatch
next t o = dispatch t.phase t o

-- `next` in a known phase.
pub next_at : (t : Task) (o : Obs) (p : Phase) → t.phase ≡ p → next t o ≡ dispatch p t o
unfolding next
next_at t o p e = ap (λ q. dispatch q t o) e

pub next_checked :
    (t : Task) (o : Obs) (v : Verdict)
    → t.phase ≡ checking
    → o.verdict ≡ some v
    → next t o ≡ apply_verdict t v o
unfolding dispatch next_checking
next_checked t o v e q = next_at t o checking e ∙ ap (λ w. next_checking t o w) q
