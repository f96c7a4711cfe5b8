-- ===== src/Samples/GitRuns.antt =====
-- Git's answers read back, and what an inspection of T1 rests on in git.
use c_squad.Engine.{no_live}
use c_squad.Task.{Phase}
use c_squad.Gitx.Kinds.{ok}
use c_squad.Gitx.Texts.{split_from, split, trim_right, trim_prefix, cut_at, base_name, reflog_time}
use c_squad.Gitx.Parse.{
  worktree_field, worktree_line, worktree_lines, read_worktrees, commit_of, read_commits,
  status_from, read_status,
}
use c_squad.Gitx.Query.{
  Shell, yes_ancestor, top_level, worktrees, branches, ancestor_reply, is_ancestor, log_args,
  merged_unless, merged, changes, task_prefix, named_branch, named_worktree, add_named,
  add_all_named, named_refs, branch_created, old_branch, old_worktree, dated_refs, task_refs,
  git_of,
}
use c_squad.Gitx.Status.{
  modified, unmodified, copied, Change, tracked, moved, untracked, ignored, print_status, paths_of,
  read_status-print_status,
}
use c_squad.Finish.Inspect.{
  Plan, inspect, inspect_in, target_or, checked, check_all, check_branch, branch_found,
  check_worktree, check_head, changes_found, with_own,
}
use c_squad.Finish.InGit.{IsBranchIn, IsTreeIn, inspect-InGit}
use c_squad.Samples.Inputs.{task_in}
use c_squad.Base.{
  any, ◌++◌, ◌≡◌, refl, true, false, none, [], ◌∷◌, All, Text, text_eq, has_prefix, digits_from,
  itoa, trim_space, cut, lit, if◌then◌else◌, List,
}

-- Two changes, one of them a copy, an unknown file and an ignored one.
abbrev listed : List Change
listed =
    tracked modified unmodified b'a' []
    ∷ moved copied unmodified b'b' [] (b'c' ∷ [])
    ∷ untracked b'd' []
    ∷ ignored b'e' []
    ∷ []

read_status-print_status_example :
    read_status (print_status listed) ≡ ((b'a' ∷ []) ∷ (b'b' ∷ []) ∷ [], (b'd' ∷ []) ∷ [])
unfolding paths_of
read_status-print_status_example =
    read_status-print_status listed
      ((λ e. cc, tt), (((λ e. cc, tt), (λ e. cc, tt)), ((λ e. cc, tt), ((λ e. cc, tt), tt))))

-- A rename that only the worktree has: the source is read as a change, without its first characters.
worktree_rename_test :
    read_status (lit " R new" ++ 0 ∷ lit "source" ++ 0 ∷ []) ≡ (lit "new" ∷ lit "rce" ∷ [], [])
unfolding read_status split split_from status_from lit
worktree_rename_test = refl

-- A repository with one worktree of T1, whose branch "b" git finds in "m".
abbrev git_reply : List Text → Text
git_reply args =
    if any (text_eq (lit "worktree")) args
    then lit
        "worktree /r\nHEAD 1\nbranch refs/heads/m\n\nworktree /t1-b\nHEAD 2\nbranch refs/heads/b\n"
    else if any (text_eq (lit "for-each-ref")) args
    then lit "m\nb"
    else lit "/r"

abbrev pub shell : Shell
shell = record {
  run = λ dir args. ok (git_reply args);
  ancestor = λ _ _ _. yes_ancestor;
  status = λ _. ok [];
  file_time = λ _. none;
  exists = λ _. true;
  same_dir = text_eq;
}

abbrev own_branch : Plan
own_branch = record {
  repo = b'/' ∷ b'r' ∷ [];
  target = b'm' ∷ [];
  worktrees =
      record {
        path = b'/' ∷ b't' ∷ b'1' ∷ b'-' ∷ b'b' ∷ [];
        head = b'2' ∷ [];
        branch = b'b' ∷ [];
        detached = false;
        locked = false;
        bare = false;
      }
      ∷ [];
  branches = (b'b' ∷ []) ∷ [];
  by_patch = [];
  problems = [];
  ignored = [];
}

git_code : Unit {0}
unfolding split_from split trim_right trim_prefix cut_at base_name reflog_time worktree_field
    worktree_line worktree_lines read_worktrees commit_of read_commits status_from read_status
    top_level worktrees branches ancestor_reply is_ancestor log_args merged_unless merged changes
    task_prefix named_branch named_worktree add_named add_all_named named_refs branch_created
    old_branch old_worktree dated_refs task_refs git_of inspect inspect_in target_or checked
    check_all check_branch branch_found check_worktree check_head changes_found with_own text_eq
    has_prefix itoa digits_from trim_space cut
git_code = tt

inspect-InGit_example :
    All (IsBranchIn shell own_branch) own_branch.branches
    × All (IsTreeIn shell own_branch) own_branch.worktrees
unfolding git_code lit
inspect-InGit_example =
    inspect-InGit shell (task_in 1 Phase.running) [] no_live own_branch refl refl
