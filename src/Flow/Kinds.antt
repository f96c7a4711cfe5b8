-- ===== src/Flow/Kinds.antt =====
-- What the flow reads and decides (internal/flow/flow.go): observations, moves and effects, and the
-- tests on a task that the decision uses.
-- Stored times are unix milliseconds and observed times are nanoseconds of the same clock; a zero
-- `time.Time` is `none`.
use c_squad.Engine.{State, Live, state_eq}
use c_squad.Verdict.{Verdict}
use c_squad.Task.{
  Phase, Step, Task, Outcome, phase_eq, step_eq, last_check_eq, outcome_eq, fixing, merging,
  needs_you,
}
use c_squad.Base.{
  ℕ, ◌+◌, ◌*◌, Bool, true, false, ◌&&◌, ◌||◌, not, Option, none, some, List, [], ◌++◌, map, ◌==◌,
  ltb, leb, is_empty, if◌then◌else◌, Text, lit, text_eq, itoa, join,
}

-- What to do once the row is written. `no_effect` is the empty kind.
pub data EffectKind : Type 0 where
  no_effect start check send land : EffectKind

pub record Effect : Type 0 where
  pub kind : EffectKind
  pub text : Text

-- The result of landing a merge. `done` with the outcome that is kept, else a rebase conflict (git's
-- message), else the problem that stops it.
pub record Landing : Type 0 where
  pub done : Bool
  pub outcome : Option Outcome
  pub conflict : Text
  pub problem : Text
  pub branch : Text
  pub dir : Text
  pub target : Text

-- What was observed about a task.
pub record Obs : Type 0 where
  pub now : ℕ
  pub settle : ℕ
  pub grace : ℕ
  pub observed : Bool
  pub live : Live
  pub stopped : Option ℕ
  pub replied : Bool
  pub deps : List (ℕ × Task)
  pub dependents : List ℕ
  pub busy : Bool
  pub quiet : Option ℕ
  pub verdict : Option Verdict
  pub land : Option Landing

-- What was decided: the row to write, the effect and the reason for the event log.
pub record Move : Type 0 where
  pub next : Task
  pub effect : Effect
  pub reason : Text

abbrev pub no_op : Effect
no_op = record { kind = no_effect; text = [] }

-- `Move{Next: t}`
abbrev pub stay : Task → Move
stay t = record { next = t; effect = no_op; reason = [] }

abbrev pub has_effect : EffectKind → Bool
has_effect no_effect = false
has_effect _ = true

-- Whether the move writes the row.
unfoldable pub changed : Move → Task → Bool
changed m t =
    not (phase_eq m.next.phase t.phase)
    || not (step_eq m.next.step t.step)
    || not (m.next.round == t.round)
    || not (m.next.max_rounds == t.max_rounds)
    || not (last_check_eq m.next.last_check t.last_check)
    || not (text_eq m.next.note t.note)
    || not (outcome_eq m.next.outcome t.outcome)

-- Whether the move does anything.
unfoldable pub acts : Move → Task → Bool
acts m t = changed m t || has_effect m.effect.kind

-- A task with a check or a merge of its own.
unfoldable pub orchestrated : Task → Bool
orchestrated t = not (is_empty t.check_spec) || not (is_empty t.merge_into)

-- A task that is merged because tasks are queued after it, unless the user holds it.
unfoldable pub implicit : Task → List ℕ → Bool
implicit t dependents = is_empty t.merge_into && not t.hold && not (is_empty dependents)

-- Whether a task lands once its work is complete.
unfoldable pub merges : Task → Obs → Bool
merges t o = not (is_empty t.merge_into) || implicit t o.dependents

-- T3,T4
unfoldable pub labels : List ℕ → Text
labels ids = join (map (λ id. lit "T" ++ itoa id) ids) (lit ",")

-- Where a landing goes, for the event log.
unfoldable pub merge_text : Task → Obs → Text
merge_text t o =
    if not (is_empty t.merge_into)
    then lit "merging into " ++ t.merge_into
    else if t.in_place
    then lit "done in place for " ++ labels o.dependents
    else lit "merging for " ++ labels o.dependents

-- `time.UnixMilli`, in nanoseconds.
abbrev pub unix_milli : ℕ → ℕ
unix_milli ms = ms * 1000000

abbrev pub entered : Task → ℕ
entered t = unix_milli t.updated_at

-- `a.After(b)` where `a` may be the zero time, which comes after nothing.
abbrev pub later_than : Option ℕ → ℕ → Bool
later_than none b = false
later_than (some a) b = ltb b a

-- `now.Sub(since) >= d`, for a duration that is not negative.
abbrev pub elapsed : ℕ → ℕ → ℕ → Bool
elapsed now since d = leb (since + d) now

abbrev pub is_resting : State → Bool
is_resting s = state_eq s State.idle || state_eq s State.done

-- Whether the worker's turn ended.
unfoldable pub turn_ended : Task → Obs → Bool
turn_ended t o =
    if not o.observed || not (is_resting o.live.state)
    then false
    else if later_than o.stopped (entered t)
    then true
    else if phase_eq t.phase fixing || phase_eq t.phase merging
    then o.replied
    else elapsed o.now (entered t) o.settle

-- The task in another phase and step; a note goes with `needs_you` only.
abbrev pub to : Task → Phase → Step → Task
to t phase step = record t {
  phase = phase;
  step = step;
  note = if phase_eq phase needs_you then t.note else [];
}

abbrev pub need_you : Task → Step → Text → Move
need_you t resume note = record {
  next = record (to t needs_you resume) { note = note };
  effect = no_op;
  reason = note;
}

-- `Move{Next: n, Effect: Effect{Kind: k}, Reason: r}`
abbrev pub act : Task → EffectKind → Text → Move
act n kind reason = record { next = n; effect = record { kind = kind; text = [] }; reason = reason }
