-- ===== src/Samples/LandRuns.antt =====
-- Landing T1 and cancelling it: its branch "b" is one commit ahead of "m" before, and merged after.
use c_squad.Engine.{State, no_live}
use c_squad.Task.{Phase, Task}
use c_squad.Flow.Next.{next, dispatch, next_merging}
use c_squad.Flow.Next
use c_squad.App.Effects.{Outside, started}
use c_squad.Samples.AppRuns.{idle_pass}
use c_squad.Gitx.Kinds.{ok}
use c_squad.Store.Table.{find, update, affected}
use c_squad.Store.Ops.{get, transition, is_version, stamp, written}
use c_squad.Finish.Inspect.{
  inspect, inspect_in, checked, target_or, check_all, check_branch, branch_found, check_worktree,
  check_head, changes_found, with_own,
}
use c_squad.Finish.Clean.{clean_plan, clean_worktrees, clean_branches}
use c_squad.Finish.Command.{seen, task_found, with_engine}
use c_squad.Finish.Cancel.{
  cancel_one, cancel_found, cancel_looked, looked_at, sight_of, interrupts, stop_done, observed,
  read_again, unfinished, after_clean, take_out,
}
use c_squad.Finish.Cancel
use c_squad.Finish.Kept.{IsLossless, cancel_one-IsLossless}
use c_squad.Landing.Merge
use c_squad.Landing.Merge.{
  Site, landing, look, looked, planned, mergeable, all_clean, is_clean, unmerged_of, one_of,
  merged_one, rebased, checked_out, forward, fast_forwarded, verified, cleaned, abandoned,
}
use c_squad.Landing.Guarded.{IsGuarded, landing-IsGuarded}
use c_squad.Landing.Proven.{IsLandedTask, next-landing_proven}
use c_squad.Landing.Refused.{landing-left}
use c_squad.Samples.Inputs.{start_world, task_in}
use c_squad.Samples.FinishRuns.{main_checkout, own_worktree, merged_git, answers}
use c_squad.Base.{◌≡◌, ◌≢◌, refl, inl, true, false, none, some, [], ◌∷◌, text_eq, lit, Text}

abbrev site : Site
site = record {
  engine_error = none;
  sight = λ _. seen (record no_live { state = State.idle });
  before = record merged_git { merged = λ _ _ _. ok (false, false, []) };
  dirty = λ _. ok [];
  is_ancestor = λ _ _ _. ok true;
  rebase_error = λ _ _. none;
  worktrees = λ _. ok (main_checkout ∷ own_worktree ∷ []);
  fast_forward_error = λ _ _. none;
  fetch_error = λ _ _ _. none;
  after = merged_git;
  run = λ _. none;
  messages = none;
  remove_session = λ _. ok [];
}

abbrev merging : Task
merging = task_in 1 Phase.merging

abbrev pub outside : Outside
outside = record {
  lock_free = true;
  session = started [];
  spawn_error = none;
  send_error = none;
  landing = λ t. (landing site t).result;
  io = none;
  read_io = none;
  now = 7;
  clock = 8;
  settle = 1;
  grace = 1;
}

land_code : Unit {0}
unfolding landing look looked planned mergeable all_clean is_clean unmerged_of one_of merged_one
    rebased checked_out forward fast_forwarded verified cleaned abandoned Merge.landed Merge.problem
    with_engine inspect inspect_in target_or checked check_all check_branch branch_found
    check_worktree check_head changes_found with_own clean_plan clean_worktrees clean_branches
    text_eq next dispatch next_merging Next.landed
land_code = tt

next-landing_proven_example : IsLandedTask site merging (landing site merging)
unfolding land_code
next-landing_proven_example = next-landing_proven outside site merging refl refl

landing-IsGuarded_example : IsGuarded site merging
unfolding land_code
landing-IsGuarded_example = landing-IsGuarded site merging (λ e. cc)

-- The rebase has conflicts.
abbrev torn_site : Site
torn_site = record site { rebase_error = λ _ _. some (lit "both modified", lit "exit 1") }

landing-left_example :
    ((landing torn_site merging).session_removed ≡ false)
    × ((landing torn_site merging).result.conflict ≢ []
        → (dir : Text) × (into : Text) × ((landing torn_site merging).ran
            ≡ Merge.rebase dir into ∷ Merge.abort_rebase dir ∷ []))
unfolding land_code
landing-left_example = landing-left torn_site merging refl

cancel_code : Unit {0}
unfolding cancel_one cancel_found task_found cancel_looked looked_at sight_of interrupts stop_done
    observed read_again unfinished after_clean take_out Cancel.written with_engine inspect
    inspect_in target_or checked check_all check_branch branch_found check_worktree check_head
    changes_found with_own clean_plan clean_worktrees clean_branches text_eq get find transition
    update affected is_version written stamp
cancel_code = tt

cancel_one-IsLossless_example :
    IsLossless answers start_world 1 (cancel_one answers (λ _. idle_pass) false start_world 1).ran
unfolding cancel_code
cancel_one-IsLossless_example =
    cancel_one-IsLossless answers (λ _. idle_pass) start_world 1 (inl (λ e. cc))
