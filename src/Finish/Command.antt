-- ===== src/Finish/Command.antt =====
-- `csquad finish` of one task (`finishOne` of internal/app/finish.go), from the number that its label
-- reads. What is printed and the removal of the task's own files are left out.
use c_squad.Engine.{State, Live, Message, state_eq, last_assistant}
use c_squad.Task.{Phase, Task, finished, phase_eq, phase_word, label}
use c_squad.Store.Table.{Table, Reply, reply, db_error, conflict, not_found, Io}
use c_squad.Store.Ops.{get, transition}
use c_squad.Mover.Apply.{World, event}
use c_squad.App.View.{state_text}
use c_squad.Finish.Texts.{or_none}
use c_squad.Finish.Inspect.{Git, Problem, Plan, inspect}
use c_squad.Finish.Clean.{Removal, Cleaned, clean_plan}
use c_squad.Gitx.Kinds.{Fallible, ok, err, and_then}
use c_squad.Base.{
  ℕ, Bool, true, false, ◌&&◌, ◌||◌, not, Option, none, some, List, [], ◌∷◌, ◌++◌, any, is_empty,
  if◌then◌else◌, Text, lit, text_eq, itoa, join,
}

-- Whether this session dispatched a task; outside a session there are no owners.
unfoldable pub owns : Option (List Text) → Task → Bool
owns none t = true
owns (some os) t = any (text_eq t.parent_session) os

unfoldable pub task_found : Option (List Text) → Bool → Text → ℕ → Reply Task → Fallible Task
unfolding owns
task_found owners everyone verb id (reply t) =
    if not everyone && not (owns owners t)
    then err (
        label t
        ++ lit " was launched by another session; pass --all to "
        ++ verb
        ++ lit " it anyway")
    else ok t
task_found owners everyone verb id not_found =
    err (lit "T" ++ itoa id ++ lit " is not a csquad task (csquad status --all lists them)")
task_found owners everyone verb id conflict = err (lit "conflict")
task_found owners everyone verb id (db_error e) = err e

-- The observation of the session: its state, or an error, and whether the service did not answer.
pub data Sight : Type 0 where
  seen : Live → Sight
  unseen : Bool → Text → Sight

-- What the world outside answers while a task is finished. `first` is the table before the task's lock
-- was taken, and `meanwhile` is what other processes do to the table before the last write.
pub record Answers : Type 0 where
  pub owners : Option (List Text)
  pub everyone : Bool
  pub first : Table
  pub first_io : Io
  pub read_io : Io
  pub lock_free : Bool
  pub engine_error : Option Text
  pub sight : Task → Sight
  pub git : Git
  pub run : Removal → Option Text
  pub messages : Option (List Message)
  pub stop_error : Option Text
  pub remove_session : List Text → Fallible Text
  pub meanwhile : Table → Table
  pub io : Io
  pub now : ℕ

-- Why a task cannot be finished as it is.
unfoldable pub not_finishable : Task → Fallible Task
not_finishable t =
    if phase_eq t.phase Phase.done
    then err (label t ++ lit " is already finished")
    else if phase_eq t.phase Phase.cancelled
    then err (label t ++ lit " was cancelled")
    else if phase_eq t.phase Phase.waiting || is_empty t.session_id
    then err (
        label t
        ++ lit
            " has not started (finishing it would release the tasks queued after it); cancel it instead")
    else ok t

unfoldable pub still_unfinished : Task → Fallible Task
still_unfinished t =
    if finished t.phase then err (label t ++ lit " is already " ++ phase_word t.phase) else ok t

unfoldable pub with_engine : Option Text → Task → Fallible Task
with_engine none t = ok t
with_engine (some e) t = err e

-- The lock of the task, then its row again.
unfoldable pub locked : Answers → Table → ℕ → Task → Fallible Task
unfolding still_unfinished with_engine
locked a tbl id t =
    if a.lock_free
    then and_then (task_found a.owners true (lit "finish") id (get a.read_io id tbl))
        (λ cur. and_then (still_unfinished cur) (with_engine a.engine_error))
    else err (label t ++ lit " is busy (csquad is starting or merging it); try again in a moment")

-- A session that still works is not finished.
unfoldable pub at_rest : Task → Sight → Fallible Live
at_rest t (unseen true e) =
    err (label t ++ lit " was left as it is: its session's state cannot be seen. " ++ e)
at_rest t (unseen false e) = err e
at_rest t (seen l) =
    if state_eq l.state State.working || state_eq l.state State.needs_input
    then err (label t ++ lit " is " ++ state_text l.state ++ lit "; finish it once it is done")
    else ok l

problem_lines : List Problem → Text
problem_lines [] = []
problem_lines (p ∷ ps) =
    lit "\n  - "
    ++ p.text
    ++ (if is_empty p.detail then [] else lit ":\n      " ++ join p.detail (lit "\n      "))
    ++ problem_lines ps

unfoldable pub refusal : Task → List Problem → Text
unfolding problem_lines
refusal t ps =
    label t
    ++ lit " is not finished, nothing was removed:"
    ++ problem_lines ps
    ++ lit "\n  keep the work and stop tracking it: csquad cancel "
    ++ label t
    ++ lit "\n  delete it:                          csquad cancel "
    ++ label t
    ++ lit " --discard"

unfoldable pub unless_problems : Task → Plan → Fallible Plan
unless_problems t p = if is_empty p.problems then ok p else err (refusal t p.problems)

-- All that is checked before anything is removed.
unfoldable pub inspected : Answers → Table → ℕ → Text → Fallible (Task × Live × Plan)
inspected a tbl id into =
    and_then (task_found a.owners a.everyone (lit "finish") id (get a.first_io id a.first))
      (λ before. and_then (not_finishable before) (λ startable.
        and_then (locked a tbl id startable) (λ t. and_then (at_rest t (a.sight t)) (λ l.
          and_then (inspect a.git t into l)
            (λ p. and_then (unless_problems t p) (λ p'. ok (t, l, p')))))))

-- What finishing did: the table and the events after it, the commands that git ran, whether the session
-- was removed, and the error that is answered.
pub record Finished : Type 0 where
  pub world : World
  pub ran : List Removal
  pub session_removed : Bool
  pub error : Option Text

final_of : Option (List Message) → Text
final_of none = []
final_of (some msgs) = last_assistant msgs

removes_session : Answers → Task → Live → List Text → Bool
removes_session a t l removed = elim (a.remove_session removed) [
  | ok how ↦ not (is_empty t.session_id) && not (state_eq l.state State.gone)
  | err e ↦ false
]

unfoldable pub error_text : Reply Task → Text
error_text (db_error e) = e
error_text conflict = lit "the task changed meanwhile"
error_text _ = []

unfoldable pub closed : World → Task → List Removal → Bool → Table × Reply Task → Finished
unfolding error_text
closed w t ran gone (tbl, reply stored) = record {
  world = record w { table = tbl; events = w.events ++ event t stored (lit "finished") ∷ [] };
  ran = ran;
  session_removed = gone;
  error = none;
}
closed w t ran gone (tbl, r) = record {
  world = record w { table = tbl };
  ran = ran;
  session_removed = gone;
  error = some (label t ++ lit ": " ++ error_text r);
}

-- The row that is written last.
finished_row : Answers → Task → Plan → Task
unfolding final_of
finished_row a t p = record t {
  phase = Phase.done;
  outcome = some (record { target = p.target; branches = p.branches; final = final_of a.messages });
}

unfoldable pub cleaned : Answers → World → Task → Live → Plan → Cleaned → Finished
unfolding removes_session closed finished_row
cleaned a w t l p c = elim c.error [
  | some e ↦ record {
    world = w;
    ran = c.ran;
    session_removed = false;
    error =
        some (label t ++ lit ": " ++ e ++ lit " (removed so far: " ++ or_none c.done ++ lit ")");
  }
  | none ↦
      closed w t c.ran (removes_session a t l c.removed)
        (transition a.io a.now (a.meanwhile w.table) t (finished_row a t p))
]

unfoldable pub finish_with : Answers → World → Fallible (Task × Live × Plan) → Finished
unfolding cleaned
finish_with a w (err e) = record { world = w; ran = []; session_removed = false; error = some e }
finish_with a w (ok (t, l, p)) = cleaned a w t l p (clean_plan a.run false p)

-- Verifies that a task's work is merged and clean, removes its worktrees and branches, then its session,
-- and marks it done.
unfoldable pub finish_one : Answers → World → ℕ → Text → Finished
unfolding inspected finish_with
finish_one a w id into = finish_with a w (inspected a w.table id into)
