-- ===== src/Samples/FinishRuns.antt =====
-- Finishing T1: its branch "b" is merged into "m", and its worktree is clean.
use c_squad.Engine.{State, no_live}
use c_squad.Task.{Task}
use c_squad.Store.Table.{find, update, affected}
use c_squad.Store.Ops.{get, transition, is_version, stamp, written}
use c_squad.Finish.Inspect.{
  Git, Plan, inspect, inspect_in, checked, target_or, check_all, check_branch, branch_found,
  check_worktree, check_head, changes_found, with_own,
}
use c_squad.Finish.Clean.{clean_plan, clean_worktrees, clean_branches}
use c_squad.Finish.Command.{
  Answers, seen, finish_one, finish_with, inspected, task_found, not_finishable, locked, at_rest,
  unless_problems, cleaned, closed, still_unfinished, with_engine,
}
use c_squad.Finish.Verified.{Verified, finish_one-Verified}
use c_squad.Finish.Gone.{Ground, clear_gone}
use c_squad.Finish.Emptied.{Clears, clear_gone-kept}
use c_squad.Samples.Inputs.{two_rows, start_world, working, queued}
use c_squad.Engine.{Live}
use c_squad.Gitx.Kinds.{ok, Worktree}
use c_squad.Base.{
  ℕ, ◌≡◌, inr, ◌⊎◌, refl, true, false, Option, none, some, [], ◌∷◌, ◌==◌, if◌then◌else◌, text_eq,
  lit,
}

abbrev pub main_checkout : Worktree
main_checkout = record {
  path = b'r' ∷ [];
  head = b'1' ∷ [];
  branch = b'm' ∷ [];
  detached = false;
  locked = false;
  bare = false;
}

abbrev pub own_worktree : Worktree
own_worktree = record {
  path = b'w' ∷ [];
  head = b'2' ∷ [];
  branch = b'b' ∷ [];
  detached = false;
  locked = false;
  bare = false;
}

abbrev pub merged_git : Git
merged_git = record {
  top_level = λ _. b'r' ∷ [];
  worktrees_of = λ _. ok (main_checkout ∷ own_worktree ∷ []);
  task_refs = λ _ _ _.
      ok (record { worktrees = own_worktree ∷ []; branches = (b'b' ∷ []) ∷ []; ignored = [] });
  merged = λ _ _ _. ok (true, false, []);
  rev_parse = λ _ _. ok (b'2' ∷ []);
  changes = λ _. ok ([], []);
  same_dir = text_eq;
}

abbrev pub answers : Answers
answers = record {
  owners = none;
  everyone = false;
  first = two_rows;
  first_io = none;
  read_io = none;
  lock_free = true;
  engine_error = none;
  sight = λ _. seen (record no_live { state = State.idle });
  git = merged_git;
  run = λ _. none;
  messages = none;
  stop_error = none;
  remove_session = λ _. ok (lit "session");
  meanwhile = λ t. t;
  io = none;
  now = 7;
}

finish_code : Unit {0}
unfolding finish_one finish_with inspected task_found not_finishable locked still_unfinished
    with_engine at_rest inspect inspect_in target_or checked check_all check_branch branch_found
    check_worktree check_head changes_found with_own unless_problems cleaned closed clean_plan
    clean_worktrees clean_branches get find transition text_eq update affected is_version written
    stamp
finish_code = tt

finish_one-Verified_example :
    (t : Task) × (l : Live) × (p : Plan) × Verified answers two_rows 1 [] t l p
    × ((finish_one answers start_world 1 []).ran ≡ (clean_plan answers.run false p).ran)
unfolding finish_code
finish_one-Verified_example = finish_one-Verified answers start_world 1 [] (inr (inr refl))

-- The session of T1 was removed, and git has no worktree and no branch of it.
abbrev pub emptied : Ground
emptied = record {
  git = record merged_git {
    task_refs = λ _ _ _. ok (record { worktrees = []; branches = []; ignored = [] });
  };
  exists = λ _. true;
  git_dir_error = λ _. none;
  lock_free = λ _. true;
  io = none;
  now = 7;
}

abbrev pub without_first : ℕ → Option Live
without_first i = some (record no_live { state = if i == 1 then State.gone else State.idle })

clear_gone-kept_example :
    (find 1 (clear_gone emptied without_first start_world (working ∷ queued ∷ [])).0.table
      ≡ find 1 two_rows)
    ⊎ Clears emptied without_first (working ∷ queued ∷ []) 1
clear_gone-kept_example =
    clear_gone-kept emptied without_first start_world (working ∷ queued ∷ []) 1
