-- ===== src/Finish/InGit.antt =====
-- A plan without problems, over the queries of internal/gitx/gitx.go: what git itself answered.
use c_squad.Engine.{Live}
use c_squad.Task.{Task}
use c_squad.Gitx.Kinds.{ok, Worktree}
use c_squad.Gitx.Query.{Shell, git_of, changes}
use c_squad.Gitx.Merges.{IsIn, merged-IsIn}
use c_squad.Finish.Inspect.{Plan, branch_ref, inspect}
use c_squad.Finish.Safe.{IsLanded, IsClean, inspect-IsSafe}
use c_squad.Base.{◌≡◌, ◌≢◌, refl, inl, true, ◌&&◌, not, [], All, All-map, is_empty, Text}

abbrev pub IsBranchIn : Shell → Plan → Text → Type 0
IsBranchIn g p b = (b ≢ p.target) × IsIn g p.repo (branch_ref b) p.target

abbrev pub IsTreeIn : Shell → Plan → Worktree → Type 0
IsTreeIn g p w =
    (changes g w.path ≡ ok ([], []))
    × ((w.detached && not (is_empty w.head)) ≡ true → IsIn g p.repo w.head p.target)

module _ (g : Shell) (p : Plan) where
  branch-IsBranchIn : (b : Text) → IsLanded (git_of g) p.repo p.target b → IsBranchIn g p b
  unfolding git_of
  branch-IsBranchIn b (apart, m) =
      (apart, merged-IsIn g p.repo (branch_ref b) p.target m.whole m.patch m.commits m.said m.holds)

  tree-IsTreeIn : (w : Worktree) → IsClean (git_of g) p.repo p.target w → IsTreeIn g p w
  unfolding git_of
  tree-IsTreeIn w (clean, head) = (
    clean,
    λ d.
        let (patch, c, said) = head d in
        merged-IsIn g p.repo w.head p.target true patch c said (inl refl),
  )

-- Where the inspection of a task finds no problem, every branch of the plan is another than the target,
-- and is an ancestor of it or has commits of its own that git each marked as in the target by patch; every
-- worktree has an empty status, and a detached head in it is in the target likewise.
pub inspect-InGit :
    (g : Shell) (t : Task) (target : Text) (l : Live) (p : Plan)
    → inspect (git_of g) t target l ≡ ok p
    → p.problems ≡ []
    → All (IsBranchIn g p) p.branches × All (IsTreeIn g p) p.worktrees
inspect-InGit g t target l p h none_left =
    let (bs, ws) = inspect-IsSafe (git_of g) t target l p h none_left in
    (All-map (branch-IsBranchIn g p) p.branches bs, All-map (tree-IsTreeIn g p) p.worktrees ws)
