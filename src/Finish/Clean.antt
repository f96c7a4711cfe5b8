-- ===== src/Finish/Clean.antt =====
-- Removing what `inspect` found (`clean` of internal/app/finish.go). Each command's answer from git is a
-- parameter, and the commands that were run are kept in their order.
use c_squad.Finish.Inspect.{Plan}
use c_squad.Gitx.Kinds.{Worktree}
use c_squad.Base.{
  Bool, true, false, Option, none, some, List, [], ◌∷◌, ◌++◌, is_empty, if◌then◌else◌, Text, lit,
  text_eq,
}

-- The commands on the repository. Those with `force` discard work; the others are refused by git, or by
-- the check of the verified commit, where work would be lost.
pub data Removal : Type 0 where
  unlock force_remove remove_worktree : Worktree → Removal
  prune : Removal
  force_delete : Text → Removal
  delete_by_patch : Text → Text → Removal
  delete_merged : Text → Text → Removal

-- What was removed, the commands that were run, and the error that stopped it.
pub record Cleaned : Type 0 where
  pub removed : List Text
  pub done : List Text
  pub ran : List Removal
  pub error : Option Text

abbrev pub nothing_removed : Cleaned
nothing_removed = record { removed = []; done = []; ran = []; error = none }

abbrev removals : Bool → Worktree → List Removal
removals false w = remove_worktree w ∷ []
removals true w = if w.locked then unlock w ∷ force_remove w ∷ [] else force_remove w ∷ []

abbrev removal : Bool → Worktree → Removal
removal false w = remove_worktree w
removal true w = force_remove w

worktree_removed : Text → List Removal → Option Text → Cleaned → Cleaned
worktree_removed path ran (some e) rest = record nothing_removed { ran = ran; error = some e }
worktree_removed path ran none rest = record {
  removed = path ∷ rest.removed;
  done = (lit "worktree " ++ path) ∷ rest.done;
  ran = ran ++ rest.ran;
  error = rest.error;
}

unfoldable pub clean_worktrees : (Removal → Option Text) → Bool → List Worktree → Cleaned
unfolding worktree_removed
clean_worktrees run force [] = nothing_removed
clean_worktrees run force (w ∷ ws) =
    worktree_removed w.path (removals force w) (run (removal force w))
      (clean_worktrees run force ws)

verified_head : Text → List (Text × Text) → Option Text
verified_head b [] = none
verified_head b ((c, sha) ∷ m) = if text_eq c b then some sha else verified_head b m

deletion_of : Bool → Text → Text → Option Text → Removal
deletion_of true target b _ = force_delete b
deletion_of false target b (some sha) = delete_by_patch b sha
deletion_of false target b none = delete_merged b target

branch_deleted : Text → Removal → Option Text → Cleaned → Cleaned
branch_deleted b c (some e) rest = record nothing_removed { ran = c ∷ []; error = some e }
branch_deleted b c none rest = record {
  removed = [];
  done = (lit "branch " ++ b) ∷ rest.done;
  ran = c ∷ rest.ran;
  error = rest.error;
}

unfoldable pub clean_branches :
    (Removal → Option Text) → Bool → Text → List (Text × Text) → List Text → Cleaned
unfolding verified_head deletion_of branch_deleted
clean_branches run force target by_patch [] = nothing_removed
clean_branches run force target by_patch (b ∷ bs) =
    let c = deletion_of force target b (verified_head b by_patch) in
    branch_deleted b c (run c) (clean_branches run force target by_patch bs)

-- Branches go after all worktrees are gone.
after_worktrees : Plan → Cleaned → Cleaned → Cleaned
after_worktrees p trees branches = elim trees.error [
  | some e ↦ trees
  | none ↦ record {
    removed = trees.removed;
    done = trees.done ++ branches.done;
    ran = trees.ran ++ (if is_empty p.repo then [] else prune ∷ []) ++ branches.ran;
    error = branches.error;
  }
]

-- Removes what a plan names, worktrees first, then branches.
unfoldable pub clean_plan : (Removal → Option Text) → Bool → Plan → Cleaned
unfolding clean_worktrees clean_branches after_worktrees
clean_plan run force p =
    after_worktrees p (clean_worktrees run force p.worktrees)
      (clean_branches run force p.target p.by_patch p.branches)
