-- ===== src/Landing/Merge.antt =====
-- `landing` and `landed` of internal/app/advance.go: the rebase of the task's branch in its worktree, the
-- fast-forward of the target, the verification and the cleanup of finish. What git and the engine
-- answer is a parameter, and the commands that change the repository are kept in their order.
use c_squad.Engine.{State, Live, Message, state_eq, no_live, last_assistant}
use c_squad.Task.{Task, label}
use c_squad.Flow.Kinds.{Landing}
use c_squad.App.View.{state_text}
use c_squad.App.Effects.{first_line_of}
use c_squad.Gitx.Kinds.{Fallible, ok, err, and_then, Worktree}
use c_squad.Finish.Inspect.{Git, Problem, Plan, no_plan, branch_ref, inspect}
use c_squad.Finish.Clean.{Removal, Cleaned, clean_plan}
use c_squad.Finish.Command.{Sight, seen, unseen, with_engine}
use c_squad.Base.{
  Bool, true, false, ◌&&◌, ◌||◌, not, Option, none, some, List, [], ◌∷◌, ◌++◌, map, is_empty,
  if◌then◌else◌, Text, lit, text_eq, join, itoa, trim_space,
}

-- The commands that change the repository.
pub data Command : Type 0 where
  rebase : Text → Text → Command
  abort_rebase : Text → Command
  fast_forward : Text → Text → Command
  fetch : Text → Text → Text → Command
  remove : Removal → Command

-- What answers while a task lands: git before the merge, the commands, git after the merge, and the
-- engine. A rebase that fails answers its output and its error.
pub record Site : Type 0 where
  pub engine_error : Option Text
  pub sight : Task → Sight
  pub before : Git
  pub dirty : Text → Fallible Text
  pub is_ancestor : Text → Text → Text → Fallible Bool
  pub rebase_error : Text → Text → Option (Text × Text)
  pub worktrees : Text → Fallible (List Worktree)
  pub fast_forward_error : Text → Text → Option Text
  pub fetch_error : Text → Text → Text → Option Text
  pub after : Git
  pub run : Removal → Option Text
  pub messages : Option (List Message)
  pub remove_session : List Text → Fallible Text

-- The result, the commands that were run, and whether the session was removed.
pub record Landed : Type 0 where
  pub result : Landing
  pub ran : List Command
  pub session_removed : Bool

abbrev pub into_target : Text → Landing
into_target target = record {
  done = false;
  outcome = none;
  conflict = [];
  problem = [];
  branch = [];
  dir = [];
  target = target;
}

unfoldable pub problem : Landing → List Command → Text → Landed
problem res ran e = record {
  result = record res { problem = e };
  ran = ran;
  session_removed = false;
}

-- The session is at rest, or the task has none.
unfoldable pub look : Site → Task → Fallible Live
look s t = if is_empty t.session_id then ok no_live else elim (s.sight t) [
  | unseen _ e ↦ err (lit "cannot observe the session: " ++ e)
  | seen l ↦
      if state_eq l.state State.working || state_eq l.state State.needs_input
      then err (lit "the session is " ++ state_text l.state)
      else ok l
]

final_message : Option (List Message) → Text
final_message none = []
final_message (some msgs) = last_assistant msgs

removed_session : Fallible Text → Bool
removed_session (ok how) = true
removed_session (err e) = false

-- Ends a landing as finish ends: the worker's final message, then the session goes.
unfoldable pub landed : Site → Task → Live → Plan → List Text → List Command → Landed
unfolding final_message removed_session
landed s t l p removed ran = record {
  result = record (into_target p.target) {
    done = true;
    outcome = some (record {
      target = p.target;
      branches = p.branches;
      final = if is_empty t.session_id then [] else final_message s.messages;
    });
  };
  ran = ran;
  session_removed =
      not (is_empty t.session_id)
      && not (state_eq l.state State.gone)
      && removed_session (s.remove_session removed);
}

-- `err != nil || dirty != ""` does not hold.
unfoldable pub is_clean : Fallible Text → Bool
is_clean (ok changes) = is_empty changes
is_clean (err e) = false

-- The loop over the worktrees: each is without changes.
unfoldable pub all_clean : Site → List Worktree → Fallible Bool
unfolding is_clean
all_clean s [] = ok true
all_clean s (w ∷ ws) =
    let rest = all_clean s ws in
    if is_clean (s.dirty w.path)
    then rest
    else err (lit "worktree " ++ w.path ++ lit " has uncommitted changes")

-- The branches with commits that are not in the target.
unfoldable pub unmerged_of : Site → Text → Text → List Text → Fallible (List Text)
unmerged_of s repo into [] = ok []
unmerged_of s repo into (b ∷ bs) =
    let rest = unmerged_of s repo into bs in
    if text_eq b into
    then err (lit "branch " ++ b ++ lit " is the target itself")
    else and_then (s.before.merged repo (branch_ref b) (branch_ref into))
        (λ m. and_then rest (λ us. ok (if m.0 then us else b ∷ us)))

-- The `switch`: at most one branch has something to land.
unfoldable pub one_of : Task → List Text → List Text → Fallible (Option Text)
one_of t [] us = err (
    lit "no branch of "
    ++ label t
    ++ lit " found (worktree-t"
    ++ itoa t.id
    ++ lit "-… or task/t"
    ++ itoa t.id
    ++ lit "-…)")
one_of t (b ∷ bs) [] = ok none
one_of t (b ∷ bs) (u ∷ []) = ok (some u)
one_of t (b ∷ bs) (u ∷ v ∷ us) =
    err (lit "several unmerged branches: " ++ join (u ∷ v ∷ us) (lit ", "))

unfoldable pub mergeable : Site → Task → Plan → Fallible (Option Text)
mergeable s t p =
    and_then (all_clean s p.worktrees)
      (λ _. and_then (unmerged_of s p.repo p.target p.branches) (one_of t p.branches))

-- The last worktree that has a branch checked out.
unfoldable pub checked_out : List Worktree → Text → Option Worktree
checked_out [] b = none
checked_out (w ∷ ws) b = elim (checked_out ws b) [
  | some v ↦ some v
  | none ↦ if text_eq w.branch b then some w else none
]

summary : List Problem → Text
summary ps = join (map (λ x. x.text) ps) (lit "; ")

-- After the cleanup of the work that was verified.
unfoldable pub cleaned : Site → Task → Live → Plan → Landing → List Command → Cleaned → Landed
cleaned s t l p res ran c =
    let all_ran = ran ++ map remove c.ran in
    elim c.error [
      | some e ↦ problem res all_ran (lit "merged, but the cleanup stopped: " ++ e)
      | none ↦
          let done = landed s t l p c.removed all_ran in
          record done { result = record (done.result) { branch = res.branch; dir = res.dir } }
    ]

unfoldable pub verified : Site → Task → Live → Landing → List Command → Fallible Plan → Landed
unfolding summary
verified s t l res ran (err e) = problem res ran e
verified s t l res ran (ok p) =
    if is_empty p.problems
    then cleaned s t l p res ran (clean_plan s.run false p)
    else problem res ran (lit "unproven merge: " ++ summary p.problems)

-- The verification is that of finish, asked of git after the merge.
abbrev pub verify : Site → Task → Live → Text → Landing → List Command → Landed
verify s t l into res ran = verified s t l res ran (inspect s.after t into l)

unfoldable pub fast_forwarded :
    Site → Task → Live → Text → Text → Text → Landing → List Command → Option Worktree → Landed
fast_forwarded s t l repo into b res ran (some w) =
    let all_ran = ran ++ fast_forward w.path b ∷ [] in
    elim (s.fast_forward_error w.path b) [
      | none ↦ verify s t l into res all_ran
      | some e ↦ problem res all_ran (
          lit "fast-forward of "
          ++ into
          ++ lit " in "
          ++ w.path
          ++ lit " refused: "
          ++ first_line_of e)
    ]
fast_forwarded s t l repo into b res ran none =
    let all_ran = ran ++ fetch repo b into ∷ [] in
    elim (s.fetch_error repo b into) [
      | none ↦ verify s t l into res all_ran
      | some e ↦
          problem res all_ran
            (lit "fast-forward of " ++ into ++ lit " refused: " ++ first_line_of e)
    ]

-- Fast-forwards the target where it is checked out, else its ref.
unfoldable pub forward :
    Site
    → Task
    → Live
    → Text
    → Text
    → Text
    → Landing
    → List Command
    → Fallible (List Worktree)
    → Landed
unfolding fast_forwarded
forward s t l repo into b res ran (err e) = problem res ran e
forward s t l repo into b res ran (ok ws) =
    fast_forwarded s t l repo into b res ran (checked_out ws into)

unfoldable pub is_based : Fallible Bool → Bool
is_based (ok based) = based
is_based (err e) = false

unfoldable pub abandoned : Landing → Text → Text → Text × Text → Landed
abandoned res dir into (out, e) = record {
  result = record res { conflict = trim_space (out ++ lit "\n" ++ e) };
  ran = rebase dir into ∷ abort_rebase dir ∷ [];
  session_removed = false;
}

-- The one branch with something to land, rebased in its worktree.
unfoldable pub rebased : Site → Task → Live → Plan → Text → Option Worktree → Landed
unfolding is_based abandoned
rebased s t l p b none =
    let res = record (into_target p.target) { branch = b } in
    if is_based (s.is_ancestor p.repo (branch_ref p.target) (branch_ref b))
    then forward s t l p.repo p.target b res [] (s.worktrees p.repo)
    else problem res [] (
        lit "branch "
        ++ b
        ++ lit " is not based on "
        ++ p.target
        ++ lit " and has no worktree to rebase in")
rebased s t l p b (some w) =
    let res = record (into_target p.target) { branch = b; dir = w.path } in
    elim (s.rebase_error w.path p.target) [
      | none ↦
          forward s t l p.repo p.target b res (rebase w.path p.target ∷ []) (s.worktrees p.repo)
      | some e ↦ abandoned res w.path p.target e
    ]

unfoldable pub merged_one : Site → Task → Live → Plan → Fallible (Option Text) → Landed
merged_one s t l p (err e) = problem (into_target p.target) [] e
merged_one s t l p (ok (some b)) = rebased s t l p b (checked_out p.worktrees b)
merged_one s t l p (ok none) =
    verify s t l p.target (record (into_target p.target) { branch = join p.branches (lit ", ") }) []

unfoldable pub planned : Site → Task → Live → Fallible Plan → Landed
planned s t l (err e) = problem (into_target t.merge_into) [] e
planned s t l (ok p) =
    if is_empty p.repo
    then problem (into_target t.merge_into) [] (t.cwd ++ lit " is not in a git repository")
    else merged_one s t l p (mergeable s t p)

unfoldable pub looked : Site → Task → Fallible Live → Landed
looked s t (err e) = problem (into_target t.merge_into) [] e
looked s t (ok l) =
    if t.in_place
    then landed s t l no_plan [] []
    else planned s t l (inspect s.before t t.merge_into l)

-- A task in place has nothing to merge: it is done as finish does it.
unfoldable pub landing : Site → Task → Landed
landing s t = looked s t (and_then (with_engine s.engine_error t) (look s))
