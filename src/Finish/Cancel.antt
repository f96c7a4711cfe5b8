-- ===== src/Finish/Cancel.antt =====
-- `csquad cancel` (`Cancel` and `cancelAgain` of internal/app/finish.go), from the number that its label
-- reads. What is printed and the removal of the task's own files are left out.
use c_squad.Engine.{State, Live, state_eq, no_live}
use c_squad.Task.{Phase, Task, no_step, finished, phase_eq, phase_word, label}
use c_squad.Store.Table.{Table, Reply, reply, db_error, conflict, not_found}
use c_squad.Store.Ops.{get, transition}
use c_squad.Mover.Apply.{World, event}
use c_squad.App.Advance.{Pass, advance_all}
use c_squad.Finish.Texts.{or_none}
use c_squad.Finish.Inspect.{Plan, inspect}
use c_squad.Finish.Clean.{Removal, Cleaned, clean_plan}
use c_squad.Finish.Command.{Answers, Sight, seen, unseen, task_found, with_engine, error_text}
use c_squad.Gitx.Kinds.{Fallible, ok, err, and_then}
use c_squad.Base.{
  ℕ, Bool, true, false, ◌&&◌, ◌||◌, not, Option, none, some, List, [], ◌∷◌, ◌++◌, map, is_empty,
  if◌then◌else◌, Text, lit, join,
}

-- What cancelling did: the world after it, whether the session was asked to stop, the commands that git
-- ran, whether the session was removed, whether work was kept that a discard deletes, and the error that
-- is answered.
pub record Cancelled : Type 0 where
  pub world : World
  pub stopped : Bool
  pub ran : List Removal
  pub session_removed : Bool
  pub kept : Bool
  pub error : Option Text

unfoldable pub refused : World → Text → Cancelled
refused w e = record {
  world = w;
  stopped = false;
  ran = [];
  session_removed = false;
  kept = false;
  error = some e;
}

unfoldable pub observed : Task → Sight → Fallible Live
observed t (seen l) = ok l
observed t (unseen true e) =
    err (label t ++ lit " was left as it is: its session's state cannot be seen. " ++ e)
observed t (unseen false e) = err e

unfoldable pub read_again : Reply Task → Fallible Task
read_again (reply t) = ok t
read_again not_found = err (lit "no such task")
read_again conflict = err (lit "the task changed meanwhile")
read_again (db_error e) = err e

unfoldable pub unfinished : Task → Fallible Task
unfinished t =
    if finished t.phase then err (label t ++ lit " is already " ++ phase_word t.phase) else ok t

-- A session that works, asks or rests is asked to stop.
unfoldable pub interrupts : Fallible Live → Bool
interrupts (ok l) =
    state_eq l.state State.working
    || state_eq l.state State.needs_input
    || state_eq l.state State.idle
interrupts (err e) = false

unfoldable pub stop_done : Answers → Task → Bool → List Text
stop_done a t false = []
stop_done a t true = elim a.stop_error [
  | some e ↦ []
  | none ↦ (lit "stopped session " ++ t.session_id) ∷ []
]

unfoldable pub sight_of : Answers → Task → Fallible Live
sight_of a t = and_then (with_engine a.engine_error t) (λ _. observed t (a.sight t))

-- The session is looked at, then the row is read again, then git is asked.
unfoldable pub looked_at : Answers → Table → Task → Fallible (Task × Live × Plan)
unfolding read_again unfinished
looked_at a tbl t = and_then (sight_of a t) (λ l.
    and_then (read_again (get a.read_io t.id tbl)) (λ cur.
      and_then (unfinished cur)
        (λ cur'. and_then (inspect a.git cur' [] l) (λ p. ok (cur', l, p)))))

is_removed : Fallible Text → Bool
is_removed (ok how) = true
is_removed (err e) = false

-- The session goes last, unless it is gone.
unfoldable pub session_goes : Answers → Live → List Text → Bool
unfolding is_removed
session_goes a l removed =
    not (state_eq l.state State.gone) && is_removed (a.remove_session removed)

-- The row that is written.
abbrev pub cancelled_row : Task → Task
cancelled_row t = record t { phase = Phase.cancelled; step = no_step; note = lit "cancelled" }

unfoldable pub written :
    (ℕ → Pass) → World → Task → List Removal → Bool → Bool → Table × Reply Task → Cancelled
written passes w t ran gone kept (tbl, reply stored) = record {
  world =
      advance_all passes []
        (record w { table = tbl; events = w.events ++ event t stored (lit "cancelled") ∷ [] });
  stopped = false;
  ran = ran;
  session_removed = gone;
  kept = kept;
  error = none;
}
written passes w t ran gone kept (tbl, r) = record {
  world = record w { table = tbl };
  stopped = false;
  ran = ran;
  session_removed = gone;
  kept = kept;
  error = some (label t ++ lit ": " ++ error_text r);
}

-- The row is written whatever was kept.
unfoldable pub take_out :
    Answers → (ℕ → Pass) → World → Task → List Removal → Bool → Bool → Cancelled
unfolding written
take_out a passes w t ran gone kept =
    written passes w t ran gone kept
      (transition a.io a.now (a.meanwhile w.table) t (cancelled_row t))

clean_error : Task → List Text → Cleaned → Text → Text
clean_error t before c e =
    label t ++ lit ": " ++ e ++ lit " (removed so far: " ++ or_none (before ++ c.done) ++ lit ")"

-- After a cleanup: an error leaves the row as it is.
unfoldable pub after_clean :
    Answers → (ℕ → Pass) → World → List Text → Task → Live → Cleaned → Cancelled
unfolding clean_error
after_clean a passes w before t l c = elim c.error [
  | some e ↦ record {
    world = w;
    stopped = false;
    ran = c.ran;
    session_removed = false;
    kept = false;
    error = some (clean_error t before c e);
  }
  | none ↦ take_out a passes w t c.ran (session_goes a l c.removed) false
]

unfoldable pub cancel_looked :
    Answers → (ℕ → Pass) → Bool → World → List Text → Fallible (Task × Live × Plan) → Cancelled
unfolding refused
cancel_looked a passes discard w before (err e) = refused w e
cancel_looked a passes discard w before (ok (t, l, p)) =
    if not (is_empty p.problems) && not discard
    then take_out a passes w t [] false true
    else after_clean a passes w before t l (clean_plan a.run discard p)

-- `cancelAgain`: what a cancelled task still has.
live_again : Answers → Task → Fallible Live
live_again a t = if is_empty t.session_id then ok no_live else sight_of a t

unfoldable pub has_session : Task → Live → Bool
has_session t l = not (is_empty t.session_id) && not (state_eq l.state State.gone)

unfoldable pub refs_of : Plan → List Text
refs_of p =
    map (λ w. lit "worktree " ++ w.path) p.worktrees ++ map (λ b. lit "branch " ++ b) p.branches

unfoldable pub again_error : Task → Live → Plan → Text
again_error t l p =
    let left =
      refs_of p ++ (if has_session t l then (lit "session " ++ t.session_id) ∷ [] else []) in
    if is_empty left
    then label t ++ lit " is already cancelled"
    else label t
      ++ lit " is already cancelled; its work is kept ("
      ++ join left (lit ", ")
      ++ lit ")\n  csquad cancel "
      ++ label t
      ++ lit " --discard deletes it, unmerged work included"

discarded : Answers → World → Task → Live → Bool → Cleaned → Cancelled
discarded a w t l stops c = record {
  world = w;
  stopped = stops;
  ran = c.ran;
  session_removed = elim c.error [
    | some e ↦ false
    | none ↦ has_session t l && session_goes a l c.removed
  ];
  kept = false;
  error = elim c.error [ some e ↦ some (clean_error t (stop_done a t stops) c e) | none ↦ none ];
}

unfoldable pub again : Answers → Bool → World → Task → Fallible (Live × Plan) → Cancelled
unfolding refused again_error discarded clean_error
again a discard w t (err e) = refused w e
again a discard w t (ok (l, p)) =
    if discard
    then discarded a w t l (has_session t l && interrupts (ok l)) (clean_plan a.run true p)
    else refused w (again_error t l p)

unfoldable pub cancel_again : Answers → Bool → World → Task → Cancelled
unfolding refused live_again
cancel_again a discard w t =
    if a.lock_free
    then again a discard w t
        (and_then (live_again a t) (λ l. and_then (inspect a.git t [] l) (λ p. ok (l, p))))
    else refused w (label t ++ lit " is busy; try again in a moment")

-- Whether the session was asked to stop before what follows.
abbrev pub stopping : Bool → Cancelled → Cancelled
stopping stops c = record c { stopped = stops }

unfoldable pub cancel_found : Answers → (ℕ → Pass) → Bool → World → Fallible Task → Cancelled
unfolding refused
cancel_found a passes discard w (err e) = refused w e
cancel_found a passes discard w (ok t) =
    if phase_eq t.phase Phase.cancelled
    then cancel_again a discard w t
    else if finished t.phase
    then refused w (label t ++ lit " is already " ++ phase_word t.phase)
    else if not a.lock_free
    then refused w
        (label t ++ lit " is busy (csquad is starting or merging it); try again in a moment")
    else if is_empty t.session_id
    then take_out a passes w t [] false false
    else stopping (interrupts (sight_of a t)) (
        cancel_looked a passes discard w (stop_done a t (interrupts (sight_of a t)))
          (looked_at a w.table t))

-- Takes a task out of the list, and removes what it left where nothing is lost, or with `discard`.
unfoldable pub cancel_one : Answers → (ℕ → Pass) → Bool → World → ℕ → Cancelled
cancel_one a passes discard w id =
    cancel_found a passes discard w
      (task_found a.owners a.everyone (lit "cancel") id (get a.first_io id a.first))
