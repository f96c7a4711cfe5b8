-- ===== src/Gitx/Query.antt =====
-- The queries of internal/gitx/gitx.go: what git and the file system answer is a record of functions.
use c_squad.Gitx.Kinds.{Fallible, ok, err, and_then, Worktree, Refs, Commit}
use c_squad.Gitx.Texts.{split, base_name, reflog_time}
use c_squad.Gitx.Parse.{read_worktrees, read_commits, read_status}
use c_squad.Finish.Inspect.{Git}
use c_squad.Base.{
  ℕ, ◌-◌, ◌*◌, Bool, true, false, ◌&&◌, ◌||◌, not, Option, none, some, List, [], ◌∷◌, ◌++◌, map,
  any, all, ltb, is_empty, if◌then◌else◌, Text, lit, text_eq, has_prefix, itoa, filterb,
}

-- How `git merge-base --is-ancestor` ends: exit code 0, exit code 1, or anything else.
pub data Ancestor : Type 0 where
  yes_ancestor no_ancestor : Ancestor
  broken : Text → Ancestor

-- What is outside: `run dir args` is the trimmed output of git or its error, `status` the raw output of
-- `git status -z`, and `file_time` the time of a worktree's `.git` file in nanoseconds, if it is known.
pub record Shell : Type 0 where
  pub run : Text → List Text → Fallible Text
  pub ancestor : Text → Text → Text → Ancestor
  pub status : Text → Fallible Text
  pub file_time : Text → Option ℕ
  pub exists : Text → Bool
  pub same_dir : Text → Text → Bool

ok_or : Text → Fallible Text → Text
ok_or other (ok s) = s
ok_or other (err e) = other

-- The root of the worktree that holds a directory, or the empty text outside git.
unfoldable pub top_level : Shell → Text → Text
unfolding ok_or
top_level g dir = ok_or [] (g.run dir (lit "rev-parse" ∷ lit "--show-toplevel" ∷ []))

unfoldable pub worktrees : Shell → Text → Fallible (List Worktree)
worktrees g dir =
    and_then (g.run dir (lit "worktree" ∷ lit "list" ∷ lit "--porcelain" ∷ []))
      (λ out. ok (read_worktrees out))

unfoldable pub branches : Shell → Text → Fallible (List Text)
branches g dir =
    and_then
      (g.run dir (lit "for-each-ref" ∷ lit "--format=%(refname:short)" ∷ lit "refs/heads/" ∷ []))
      (λ out. ok (if is_empty out then [] else split out 10))

unfoldable pub ancestor_reply : Text → Text → Ancestor → Fallible Bool
ancestor_reply a b yes_ancestor = ok true
ancestor_reply a b no_ancestor = ok false
ancestor_reply a b (broken e) =
    err (lit "git merge-base --is-ancestor " ++ a ++ lit " " ++ b ++ lit ": " ++ e)

unfoldable pub is_ancestor : Shell → Text → Text → Text → Fallible Bool
unfolding ancestor_reply
is_ancestor g dir a b = ancestor_reply a b (g.ancestor dir a b)

-- Every commit that the target lacks is in it by patch, and there is one.
abbrev pub by_patch : List Commit → Bool
by_patch commits = not (is_empty commits) && all (λ c. c.in_patch) commits

unfoldable pub log_args : Text → Text → List Text
log_args head target =
    lit "log"
    ∷ lit "--cherry-mark"
    ∷ lit "--right-only"
    ∷ lit "--reverse"
    ∷ lit "--format=%m %h %s"
    ∷ (target ++ lit "..." ++ head)
    ∷ lit "--"
    ∷ []

unfoldable pub merged_unless :
    Shell → Text → Text → Text → Bool → Fallible (Bool × Bool × List Commit)
unfolding log_args
merged_unless g dir head target true = ok (true, false, [])
merged_unless g dir head target false = and_then (g.run dir (log_args head target)) (λ out.
    let commits = read_commits (split out 10) in ok (by_patch commits, by_patch commits, commits))

-- Whether head's work is in the target: as an ancestor, or each commit by its patch.
unfoldable pub merged : Shell → Text → Text → Text → Fallible (Bool × Bool × List Commit)
unfolding merged_unless
merged g dir head target =
    and_then (is_ancestor g dir head target) (merged_unless g dir head target)

unfoldable pub changes : Shell → Text → Fallible (List Text × List Text)
changes g dir = and_then (g.status dir) (λ out. ok (read_status out))

-- t12-
unfoldable pub task_prefix : ℕ → Text
task_prefix id = lit "t" ++ itoa id ++ lit "-"

unfoldable pub named_branch : ℕ → Text → Bool
named_branch id b =
    has_prefix b (lit "worktree-" ++ task_prefix id) || has_prefix b (lit "task/" ++ task_prefix id)

unfoldable pub named_worktree : ℕ → Worktree → Bool
named_worktree id w = has_prefix (base_name w.path) (task_prefix id)

abbrev pub member : Text → List Text → Bool
member b bs = any (text_eq b) bs

-- One worktree that is not the main checkout, with the worktrees and branches so far.
unfoldable pub add_named :
    Shell → ℕ → Worktree → List Worktree × List Text → List Worktree × List Text
add_named g id w (ws, bs) =
    if w.bare
    then (ws, bs)
    else if not (is_empty w.branch) && (member w.branch bs || named_worktree id w)
    then (ws ++ w ∷ [], if member w.branch bs then bs else bs ++ w.branch ∷ [])
    else if named_worktree id w && g.exists w.path
    then (ws ++ w ∷ [], bs)
    else (ws, bs)

unfoldable pub add_all_named :
    Shell → ℕ → List Worktree → List Worktree × List Text → List Worktree × List Text
unfolding add_named
add_all_named g id [] found = found
add_all_named g id (w ∷ ws) found = add_all_named g id ws (add_named g id w found)

others : List Worktree → List Worktree
others [] = []
others (main ∷ ws) = ws

-- The worktrees and branches named for a task, and the branches of worktrees so named.
unfoldable pub named_refs : Shell → Text → ℕ → Fallible Refs
unfolding add_all_named others
named_refs g repo id = and_then (worktrees g repo) (λ wts. and_then (branches g repo) (λ bs.
    let found = add_all_named g id (others wts) ([], filterb (named_branch id) bs) in
    ok (record { worktrees = found.0; branches = found.1; ignored = [] })))

abbrev pub older : Option ℕ → ℕ → Bool
older none since = false
older (some at) since = ltb at since

reflog_of : Fallible Text → Option ℕ
reflog_of (ok out) = if is_empty out then none else reflog_time out
reflog_of (err e) = none

-- The time of the branch's oldest reflog entry.
unfoldable pub branch_created : Shell → Text → Text → Option ℕ
unfolding reflog_of
branch_created g repo b = reflog_of (
    g.run repo (
      lit "reflog"
      ∷ lit "show"
      ∷ lit "--date=unix"
      ∷ lit "--format=%gd"
      ∷ (lit "refs/heads/" ++ b)
      ∷ lit "--"
      ∷ []))

-- Seconds as nanoseconds.
abbrev seconds : Option ℕ → Option ℕ
seconds none = none
seconds (some s) = some (s * 1000000000)

unfoldable pub old_branch : Shell → Text → ℕ → Text → Bool
old_branch g repo since b = older (seconds (branch_created g repo b)) since

unfoldable pub old_worktree : Shell → Text → ℕ → List Text → Worktree → Bool
old_worktree g repo since old w =
    older (g.file_time w.path) since || (not (is_empty w.branch) && member w.branch old)

-- The refs of a task that are not older than it, up to five seconds; the others are ignored.
unfoldable pub dated_refs : Shell → Text → ℕ → Refs → Refs
dated_refs g repo created all =
    let since = created - 5000000000 in
    let old = filterb (old_branch g repo since) all.branches in
    record {
      worktrees = filterb (λ w. not (old_worktree g repo since old w)) all.worktrees;
      branches = filterb (λ b. not (old_branch g repo since b)) all.branches;
      ignored =
          map (λ b. lit "branch " ++ b) old
          ++ map (λ w. lit "worktree " ++ w.path)
              (filterb (old_worktree g repo since old) all.worktrees);
    }

unfoldable pub task_refs : Shell → Text → ℕ → ℕ → Fallible Refs
task_refs g repo id created =
    and_then (named_refs g repo id) (λ all. ok (dated_refs g repo created all))

-- The queries as the commands of the application ask them.
unfoldable pub git_of : Shell → Git
git_of g = record {
  top_level = top_level g;
  worktrees_of = worktrees g;
  task_refs = task_refs g;
  merged = merged g;
  rev_parse = λ repo ref. g.run repo (lit "rev-parse" ∷ lit "--verify" ∷ lit "-q" ∷ ref ∷ []);
  changes = changes g;
  same_dir = g.same_dir;
}
