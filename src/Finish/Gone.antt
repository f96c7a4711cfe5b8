-- ===== src/Finish/Gone.antt =====
-- Tasks whose session was removed outside csquad (`clearGone`, `clearIfEmpty` and `leftovers` of
-- internal/app/finish.go). Removing the files of a task is left out.
use c_squad.Engine.{State, Live, state_eq}
use c_squad.Task.{Phase, no_step, Task, phase_eq}
use c_squad.Flow.Kinds.{unix_milli}
use c_squad.Gitx.Kinds.{Fallible, ok, err, Worktree, Refs}
use c_squad.Finish.Inspect.{Git, no_plan}
use c_squad.Finish.Cancel.{refs_of}
use c_squad.Store.Table.{Table, Reply, reply, Io}
use c_squad.Store.Ops.{transition}
use c_squad.Mover.Apply.{World, event}
use c_squad.Base.{
  ℕ, Bool, true, false, not, ◌&&◌, Option, none, some, List, [], ◌∷◌, ◌++◌, is_empty, if◌then◌else◌,
  Text, lit,
}

-- What answers: git, whether a directory is there, why `git rev-parse --git-dir` failed in it if that is
-- not that it is in no repository, the task locks, and the store.
pub record Ground : Type 0 where
  pub git : Git
  pub exists : Text → Bool
  pub git_dir_error : Text → Option Text
  pub lock_free : ℕ → Bool
  pub io : Io
  pub now : ℕ

unfoldable pub left_refs : Fallible Refs → Fallible (List Text)
left_refs (err e) = err e
left_refs (ok refs) =
    ok (refs_of (record no_plan { worktrees = refs.worktrees; branches = refs.branches }))

unfoldable pub left_trees : Ground → Task → Fallible (List Worktree) → Fallible (List Text)
unfolding left_refs
left_trees g t (err e) = err e
left_trees g t (ok []) = ok []
left_trees g t (ok (w ∷ _)) = left_refs (g.git.task_refs w.path t.id (unix_milli t.created_at))

unfoldable pub left_outside : Option Text → Fallible (List Text)
left_outside none = ok []
left_outside (some e) = err e

-- The worktrees and branches that a task left.
unfoldable pub left_over : Ground → Task → Fallible (List Text)
unfolding left_trees left_outside
left_over g t =
    let top = g.git.top_level t.cwd in
    if t.in_place
    then ok []
    else if not (g.exists t.cwd)
    then ok []
    else if is_empty top
    then left_outside (g.git_dir_error t.cwd)
    else left_trees g t (g.git.worktrees_of top)

abbrev pub removed_row : Task → Task
removed_row t = record t {
  phase = Phase.cancelled;
  step = no_step;
  note = lit "removed outside csquad";
}

-- The event is told only if the write won.
unfoldable pub cleared : World → Task → Table × Reply Task → World × Bool
cleared w t (tbl, reply stored) = (
  record w {
    table = tbl;
    events =
        w.events
        ++ event t stored (lit "removed outside csquad: no session, worktree or branch is left")
          ∷ [];
  },
  true,
)
cleared w t (tbl, _) = (record w { table = tbl }, false)

unfoldable pub clear_left : Ground → World → Task → Fallible (List Text) → World × Bool
clear_left g w t (err e) = (w, false)
clear_left g w t (ok (_ ∷ _)) = (w, false)
clear_left g w t (ok []) = cleared w t (transition g.io g.now w.table t (removed_row t))

-- A task that left nothing is taken out of the list.
unfoldable pub clear_if_empty : Ground → World → Task → World × Bool
clear_if_empty g w t = if g.lock_free t.id then clear_left g w t (left_over g t) else (w, false)

unfoldable pub is_gone : (ℕ → Option Live) → Task → Bool
is_gone live t =
    (elim (live t.id) [ none ↦ false | some l ↦ state_eq l.state State.gone ])
    && phase_eq t.phase Phase.running

-- The tasks that stay in the list.
unfoldable pub clear_gone : Ground → (ℕ → Option Live) → World → List Task → World × List Task
clear_gone g live w [] = (w, [])
clear_gone g live w (t ∷ ts) =
    let (v, out) = if is_gone live t then clear_if_empty g w t else (w, false) in
    let (u, rest) = clear_gone g live v ts in (u, if out then rest else t ∷ rest)
