-- ===== src/App/Check.antt =====
-- `csquad check T12` (`Check`, `checkRequest` and `taskWorktree` of internal/app/advance.go): the check of
-- the task's current round is run once, its verdict kept in a file and applied. What is printed is left
-- out.
use c_squad.Engine.{Live, Message, last_assistant}
use c_squad.Verdict.{Verdict, Answer, answer_eq, error_verdict}
use c_squad.Task.{Task, checking, phase_eq, label}
use c_squad.Check.Spec.{Spec, SpecError, SpecResult, parsed, refused, parse_spec}
use c_squad.Flow.Kinds.{EffectKind, land, Obs}
use c_squad.Flow.Next.{next}
use c_squad.Engine.{no_live}
use c_squad.Gitx.Kinds.{Fallible, ok, err, and_then, Worktree}
use c_squad.Finish.Inspect.{Git, inspect}
use c_squad.Store.Table.{Table, Reply, reply, Io}
use c_squad.Store.Ops.{get}
use c_squad.Mover.Apply.{World}
use c_squad.App.Observe.{read_verdict, dependents}
use c_squad.App.Effects.{Outside, run_outside, apply_and_run}
use c_squad.App.Advance.{Pass, advance_all}
use c_squad.App.Labels.{parse_label}
use c_squad.Base.{
  ℕ, ◌/◌, Bool, true, false, ◌&&◌, not, Option, none, some, List, [], ◌∷◌, ◌++◌, ◌==◌, ltb,
  is_empty, if◌then◌else◌, Text, lit, itoa,
}

-- What a check looks at. The logger, the environment and the timeouts are left out.
pub record Request : Type 0 where
  pub id : ℕ
  pub title : Text
  pub prompt : Text
  pub final : Text
  pub dir : Text
  pub branch : Text
  pub target : Text
  pub round : ℕ
  pub max : ℕ
  pub previous : Option Verdict

-- What answers while a check runs. `live` is the zero value where the session was not seen, and `file`
-- is the verdict in the file of the round. `before` and `later` are what other processes do to the table
-- while the lock is waited for and while the check runs.
pub record Station : Type 0 where
  pub first_io : Io
  pub lock_free : Bool
  pub before : Table → Table
  pub second_io : Io
  pub file : Option Verdict
  pub spec_error : SpecError → Text
  pub messages : Option (List Message)
  pub live : Live
  pub git : Git
  pub run : Spec → Request → Verdict
  pub later : Table → Table
  pub deps_io : Io
  pub outside : Outside

-- The session's worktree, else the only one named for the task.
own_worktree : Git → Live → List Worktree → Option Worktree
own_worktree g l [] = none
own_worktree g l (w ∷ ws) =
    let rest = own_worktree g l ws in
    if not (is_empty l.cwd) && g.same_dir w.path l.cwd then some w else rest

only_one : List Worktree → Option Worktree
only_one (w ∷ []) = some w
only_one ws = none

unfoldable pub task_worktree : Git → Live → List Worktree → Option Worktree
unfolding own_worktree only_one
task_worktree g l ws = elim (own_worktree g l ws) [ some w ↦ some w | none ↦ only_one ws ]

-- The verdict of the previous round, if that round failed.
failed_before : Task → Option Verdict
failed_before t =
    if ltb 1 t.round
    then elim t.last_check [
      | none ↦ none
      | some v ↦ if answer_eq v.answer Answer.fail then some v else none
    ]
    else none

final_of : Task → Option (List Message) → Text
final_of t none = []
final_of t (some msgs) = if is_empty t.session_id then [] else last_assistant msgs

request_of : Station → Task → Request
unfolding failed_before final_of
request_of s t = record {
  id = t.id;
  title = t.title;
  prompt = t.prompt;
  final = final_of t s.messages;
  dir = [];
  branch = [];
  target = t.merge_into;
  round = t.round;
  max = t.max_rounds;
  previous = failed_before t;
}

in_worktree : Task → Request → Option Worktree → Fallible Request
in_worktree t r (some w) = ok (record r { dir = w.path; branch = w.branch })
in_worktree t r none = err (
    lit "no worktree of "
    ++ label t
    ++ lit " found (named t"
    ++ itoa t.id
    ++ lit "-… or the session's own) to check")

session_live : Station → Task → Live
session_live s t = if is_empty t.session_id then no_live else s.live

-- What a check of a task looks at, or why there is nothing to look at.
unfoldable pub check_request : Station → Task → Fallible Request
unfolding request_of in_worktree session_live
check_request s t =
    let r = request_of s t in
    let l = session_live s t in
    if t.in_place
    then ok (record r { dir = t.cwd })
    else and_then (inspect s.git t t.merge_into l) (λ p.
      in_worktree t (record r { target = if is_empty r.target then p.target else r.target })
        (task_worktree s.git l p.worktrees))

requested : Station → Spec → Fallible Request → Verdict
requested s spec (ok r) = s.run spec r
requested s spec (err e) = error_verdict e

checked_by : Station → Task → SpecResult → Verdict
unfolding requested
checked_by s t (refused e) = error_verdict (s.spec_error e)
checked_by s t (parsed spec) = requested s spec (check_request s t)

-- A verdict with the round, the version and the time that it is for.
abbrev pub stamped : Station → Task → Verdict → Verdict
stamped s t v = record v { round = t.round; for = t.updated_at; at = s.outside.clock / 1000000 }

-- The verdict of the round, and whether it was written to the file now.
unfoldable pub verdict_or : Station → Task → Option Verdict → Verdict × Bool
unfolding checked_by
verdict_or s t (some v) = (v, false)
verdict_or s t none = (stamped s t (checked_by s t (parse_spec t.check_spec)), true)

unfoldable pub verdict_of : Station → Task → Verdict × Bool
unfolding verdict_or
verdict_of s t = verdict_or s t (read_verdict t s.file)

-- The observation that the verdict is applied on.
unfoldable pub check_obs : Station → Table → Task → Verdict → Obs
check_obs s tbl t v = record {
  now = s.outside.clock;
  settle = s.outside.settle;
  grace = s.outside.grace;
  observed = false;
  live = no_live;
  stopped = none;
  replied = false;
  deps = [];
  dependents = dependents s.deps_io tbl t.id;
  busy = false;
  quiet = none;
  verdict = some v;
  land = none;
}

is_land : EffectKind → Bool
is_land land = true
is_land _ = false

-- The move is applied, and a merge that landed releases the tasks queued after it.
unfoldable pub check_applied : Station → (ℕ → Pass) → World → Task → Verdict → World
unfolding is_land
check_applied s passes w t v =
    let m = next t (check_obs s w.table t v) in
    let w' = apply_and_run (run_outside s.outside) s.outside.io s.outside.now w t m in
    if is_land m.effect.kind then advance_all passes [] w' else w'

-- What a check did: the world after it, and the verdict that it wrote to the file.
pub record Checked : Type 0 where
  pub world : World
  pub wrote : Option Verdict

unfoldable pub untouched : World → Checked
untouched w = record { world = w; wrote = none }

-- The row once more, with the lock of the round held: it is still in the round.
unfoldable pub check_round : Station → (ℕ → Pass) → World → ℕ → Reply Task → Checked
unfolding untouched
check_round s passes w round (reply t) =
    let (v, fresh) = verdict_of s t in
    if phase_eq t.phase checking && t.round == round
    then record {
      world = check_applied s passes (record w { table = s.later w.table }) t v;
      wrote = if fresh then some v else none;
    }
    else untouched w
check_round s passes w round r = untouched w

unfoldable pub check_found : Station → (ℕ → Pass) → World → Reply Task → Checked
unfolding untouched
check_found s passes w (reply t) =
    let w' = record w { table = s.before w.table } in
    if phase_eq t.phase checking && s.lock_free
    then check_round s passes w' t.round (get s.second_io t.id w'.table)
    else untouched w
check_found s passes w r = untouched w

unfoldable pub check_labelled : Station → (ℕ → Pass) → World → Option ℕ → Checked
unfolding untouched
check_labelled s passes w none = untouched w
check_labelled s passes w (some id) = check_found s passes w (get s.first_io id w.table)

unfoldable pub check_one : Station → (ℕ → Pass) → World → Text → Checked
check_one s passes w text = check_labelled s passes w (parse_label text)
