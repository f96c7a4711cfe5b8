-- ===== src/Finish/Inspect.antt =====
-- What finishing or cancelling a task would remove, and what stands against it
-- (`inspect` of internal/app/finish.go). Git's answers are a parameter.
use c_squad.Engine.{Live}
use c_squad.Task.{Task}
use c_squad.Flow.Kinds.{unix_milli}
use c_squad.Finish.Texts.{commit_lines, change_text, short}
use c_squad.Gitx.Kinds.{Fallible, ok, err, and_then, Worktree, Refs, Commit}
use c_squad.Base.{
  ℕ, Bool, true, false, ◌&&◌, not, List, [], ◌∷◌, ◌++◌, any, is_empty, if◌then◌else◌, Text, lit,
  text_eq,
}

-- What git and the file system answer while a task is inspected: the queries of internal/gitx/gitx.go
-- that `inspect` asks, and whether two paths are one directory.
pub record Git : Type 0 where
  pub top_level : Text → Text
  pub worktrees_of : Text → Fallible (List Worktree)
  pub task_refs : Text → ℕ → ℕ → Fallible Refs
  pub merged : Text → Text → Text → Fallible (Bool × Bool × List Commit)
  pub rev_parse : Text → Text → Fallible Text
  pub changes : Text → Fallible (List Text × List Text)
  pub same_dir : Text → Text → Bool

-- One reason a task's work is not in its target.
pub record Problem : Type 0 where
  pub text : Text
  pub detail : List Text

pub record Plan : Type 0 where
  pub repo : Text
  pub target : Text
  pub worktrees : List Worktree
  pub branches : List Text
  pub by_patch : List (Text × Text)
  pub problems : List Problem
  pub ignored : List Text

-- The plan of an in-place task or outside git: nothing to remove.
abbrev pub no_plan : Plan
no_plan = record {
  repo = [];
  target = [];
  worktrees = [];
  branches = [];
  by_patch = [];
  problems = [];
  ignored = [];
}

abbrev pub branch_ref : Text → Text
branch_ref b = lit "refs/heads/" ++ b

-- What a check adds to the plan: branches verified by patch only, and problems.
abbrev pub Found : Type 0
Found = List (Text × Text) × List Problem

abbrev pub problem_of : Text → List Text → Found
problem_of text detail = ([], record { text = text; detail = detail } ∷ [])

unfoldable pub branch_found : Git → Text → Text → Text → Bool × Bool × List Commit → Fallible Found
branch_found g repo target b (merged, true, commits) =
    and_then (g.rev_parse repo (branch_ref b)) (λ sha. ok ((b, sha) ∷ [], []))
branch_found g repo target b (true, false, commits) = ok ([], [])
branch_found g repo target b (false, false, commits) = ok (
    problem_of (lit "branch " ++ b ++ lit " is not merged into " ++ target)
      (commit_lines commits target))

unfoldable pub check_branch : Git → Text → Text → Text → Fallible Found
unfolding branch_found
check_branch g repo target b =
    if text_eq b target
    then ok (problem_of (lit "branch " ++ b ++ lit " is the target itself") [])
    else and_then (g.merged repo (branch_ref b) target) (branch_found g repo target b)

unfoldable pub head_found : Worktree → Text → Bool × Bool × List Commit → Fallible Found
head_found w target (true, _, commits) = ok ([], [])
head_found w target (false, _, commits) = ok (
    problem_of
      (lit "worktree "
        ++ w.path
        ++ lit " has a detached HEAD "
        ++ short w.head
        ++ lit " not merged into "
        ++ target)
      (commit_lines commits target))

unfoldable pub check_head : Git → Text → Text → Worktree → Fallible Found
unfolding head_found
check_head g repo target w =
    if w.detached && not (is_empty w.head)
    then and_then (g.merged repo w.head target) (head_found w target)
    else ok ([], [])

unfoldable pub changes_found : Worktree → List Text × List Text → Fallible Found
changes_found w ([], []) = ok ([], [])
changes_found w (tracked, untracked) = ok (
    problem_of
      (lit "worktree "
        ++ w.path
        ++ lit " has uncommitted changes: "
        ++ change_text tracked untracked)
      [])

abbrev pub found_both : Found → Found → Fallible Found
found_both (p, q) (p', q') = ok (p ++ p', q ++ q')

unfoldable pub check_worktree : Git → Text → Text → Worktree → Fallible Found
unfolding check_head changes_found
check_worktree g repo target w = and_then (check_head g repo target w) (λ here.
    and_then (and_then (g.changes w.path) (changes_found w)) (λ there. found_both here there))

-- A loop that checks each of a list and stops at the first error.
unfoldable pub check_all : {A : Type 0} → (A → Fallible Found) → List A → Fallible Found
check_all f [] = ok ([], [])
check_all f (x ∷ xs) =
    and_then (f x) (λ here. and_then (check_all f xs) (λ there. found_both here there))

abbrev add_branch : Text → List Text → List Text
add_branch b bs = if not (is_empty b) && not (any (text_eq b) bs) then bs ++ b ∷ [] else bs

-- The session's own worktree belongs to the task whatever its name.
unfoldable pub with_own :
    Git → Text → List Worktree → List Worktree × List Text → List Worktree × List Text
with_own g cwd [] found = found
with_own g cwd (w ∷ ws) (wts, bs) =
    if g.same_dir w.path cwd && not (any (λ x. g.same_dir x.path w.path) wts)
    then with_own g cwd ws (wts ++ w ∷ [], add_branch w.branch bs)
    else with_own g cwd ws (wts, bs)

unfoldable pub checked : Git → Text → Text → List Text → List Worktree × List Text → Fallible Plan
unfolding check_all check_branch check_worktree
checked g repo target ignored (wts, bs) =
    and_then (check_all (check_branch g repo target) bs) (λ found.
      and_then (check_all (check_worktree g repo target) wts) (λ more. ok (record {
        repo = repo;
        target = target;
        worktrees = wts;
        branches = bs;
        by_patch = found.0;
        problems = found.1 ++ more.1;
        ignored = ignored;
      })))

unfoldable pub target_or : Text → Worktree → Fallible Text
target_or target main =
    if not (is_empty target)
    then ok target
    else if is_empty main.branch
    then err
        (lit "the main checkout " ++ main.path ++ lit " is on a detached HEAD; pass --into BRANCH")
    else ok main.branch

unfoldable pub inspect_in : Git → Task → Text → Live → List Worktree → Fallible Plan
unfolding target_or with_own checked
inspect_in g t target l [] = ok no_plan
inspect_in g t target l (main ∷ others) = and_then (target_or target main) (λ into.
    and_then (g.task_refs main.path t.id (unix_milli t.created_at)) (λ refs.
      checked g main.path into refs.ignored (
        if is_empty l.cwd
        then (refs.worktrees, refs.branches)
        else with_own g l.cwd others (refs.worktrees, refs.branches))))

-- What a task left in git, checked against a target; the empty target is the main checkout's branch.
unfoldable pub inspect : Git → Task → Text → Live → Fallible Plan
unfolding inspect_in
inspect g t target l =
    let top = g.top_level t.cwd in
    if t.in_place
    then ok no_plan
    else if is_empty top
    then ok no_plan
    else and_then (g.worktrees_of top) (inspect_in g t target l)
