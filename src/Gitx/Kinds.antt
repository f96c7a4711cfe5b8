-- ===== src/Gitx/Kinds.antt =====
-- What git is asked about (internal/gitx/gitx.go): worktrees, commits and the refs of a task.
use c_squad.Base.{Bool, List, Text}

-- A value or an error.
pub data Fallible (A : Type 0) : Type 0 where
  ok : A → Fallible A
  err : Text → Fallible A

-- `if err != nil { return err }`
abbrev pub and_then : {A B : Type 0} → Fallible A → (A → Fallible B) → Fallible B
and_then (ok a) f = f a
and_then (err e) f = err e

-- One entry of `git worktree list` (`gitx.Worktree`).
pub record Worktree : Type 0 where
  pub path : Text
  pub head : Text
  pub branch : Text
  pub detached : Bool
  pub locked : Bool
  pub bare : Bool

-- `gitx.Refs`
pub record Refs : Type 0 where
  pub worktrees : List Worktree
  pub branches : List Text
  pub ignored : List Text

-- A commit that is not reachable from the target (`gitx.Commit`).
pub record Commit : Type 0 where
  pub hash : Text
  pub subject : Text
  pub in_patch : Bool
