-- ===== src/App/Draft.antt =====
-- The flags of `csquad launch` read into a task (internal/app/launch.go). The logger, the notes and what
-- is printed are left out. An error's text that quotes another package's error has it at the end.
use c_squad.Task.{cancelled, Task, phase_eq, label}
use c_squad.Check.Spec.{Kind, codex, SpecError, SpecResult, parsed, refused, parse_spec, print_spec}
use c_squad.Gitx.Kinds.{Fallible, ok, err, and_then, Worktree}
use c_squad.Gitx.Query.{Shell, top_level, worktrees}
use c_squad.Store.Table.{Table, Reply, reply, Io}
use c_squad.Store.Ops.{get}
use c_squad.App.Labels.{parse_label}
use c_squad.Claude.Session.{is_full_id}
use c_squad.Base.{
  ℕ, Bool, true, false, ◌&&◌, ◌||◌, not, Option, none, some, List, [], ◌∷◌, ◌++◌, any, reverse,
  is_empty, ◌==◌, if◌then◌else◌, Text, lit, text_eq, itoa,
}

-- `max` is a natural number: the command line refuses a negative one as Launch does.
pub record LaunchArgs : Type 0 where
  pub title : Text
  pub cwd : Text
  pub engine : Text
  pub model : Text
  pub isolation : Text
  pub prompt_file : Text
  pub no_worker_rules : Bool
  pub engine_args : List Text
  pub after : Text
  pub check : Text
  pub max : ℕ
  pub merge : Bool
  pub merge_into : Text
  pub no_merge : Bool
  pub fork : Bool

-- What answers while the flags are read: the engines (`engine_error` is why there is none of a name), the
-- directories, the environment, `CheckArgs` of an engine, the prompt's file and standard input, the
-- embedded rules, git, and the driver of the store for the reads of the tasks.
pub record Desk : Type 0 where
  pub engine_error : Text → Option Text
  pub cwd : Text
  pub canonical : Text → Text
  pub is_dir : Text → Bool
  pub getenv : Text → Text
  pub check_args : Text → List Text → Text → Fallible (List Text)
  pub read_file : Text → Fallible Text
  pub stdin : Text
  pub worker_rules : Text → Bool → Text
  pub flow_rules : Text
  pub shell : Shell
  pub session_key : Text
  pub spec_error : SpecError → Text
  pub read_io : Io
  pub deps_io : Io

abbrev pub unless : Bool → Text → Fallible (Unit {0})
unless b e = if b then err e else ok tt

-- `strings.FieldsFunc` at commas and blanks: the word in progress is kept reversed.
unfoldable pub label_fields : Text → Text → List Text
label_fields word [] = if is_empty word then [] else reverse word ∷ []
label_fields word (c ∷ s) =
    let sep = c == b',' || c == 32 in
    let rest = label_fields (if sep then [] else c ∷ word) s in
    if sep && not (is_empty word) then reverse word ∷ rest else rest

-- One task that is waited for: it must be there and not cancelled.
unfoldable pub after_task : ℕ → Reply Task → Fallible ℕ
after_task id (reply t) =
    if phase_eq t.phase cancelled
    then err (lit "--after: " ++ label t ++ lit " was cancelled")
    else ok id
after_task id _ = err (
    lit "--after: T"
    ++ itoa id
    ++ lit " is not a csquad task (only existing tasks can be waited for)")

unfoldable pub labelled_part : Desk → Table → Text → Option ℕ → Fallible ℕ
labelled_part d tbl part none = err (lit "--after: " ++ part)
labelled_part d tbl part (some id) = after_task id (get d.read_io id tbl)

unfoldable pub after_part : Desk → Table → Text → Fallible ℕ
after_part d tbl part = labelled_part d tbl part (parse_label part)

unfoldable pub with_id : List ℕ → ℕ → List ℕ
with_id ids id = if any (λ x. x == id) ids then ids else ids ++ id ∷ []

-- The loop over the labels.
unfoldable pub after_from : Desk → Table → List ℕ → List Text → Fallible (List ℕ)
after_from d tbl ids [] = ok ids
after_from d tbl ids (part ∷ parts) =
    and_then (after_part d tbl part) (λ id. after_from d tbl (with_id ids id) parts)

unfoldable pub some_ids : List ℕ → Fallible (List ℕ)
some_ids ids =
    if is_empty ids then err (lit "--after needs task ids, e.g. --after T3,T4") else ok ids

-- "T3,T4" as ids of existing tasks.
unfoldable pub parse_after : Desk → Table → Text → Fallible (List ℕ)
unfolding label_fields some_ids
parse_after d tbl v = and_then (after_from d tbl [] (label_fields [] v)) some_ids

unfoldable pub after_ids : Desk → Table → Text → Fallible (List ℕ)
after_ids d tbl v = if is_empty v then ok [] else parse_after d tbl v

codex_error : Option Text → Text → Fallible Text
codex_error none v = ok v
codex_error (some e) v = err (lit "--check codex needs the codex engine: " ++ e)

is_codex : Kind → Bool
is_codex codex = true
is_codex _ = false

spec_value : Desk → SpecResult → Fallible Text
unfolding codex_error is_codex
spec_value d (refused e) = err (d.spec_error e)
spec_value d (parsed s) =
    codex_error (if is_codex s.kind then d.engine_error (lit "codex") else none) (print_spec s)

-- The value of `--check`, as it is stored.
unfoldable pub check_value : Desk → Text → Fallible Text
unfolding spec_value
check_value d v = if is_empty v then ok [] else spec_value d (parse_spec v)

-- The variable that holds the dispatching session's id.
unfoldable pub fork_env : Text → Option Text
fork_env engine =
    if text_eq engine (lit "claude")
    then some (lit "CLAUDE_CODE_SESSION_ID")
    else if text_eq engine (lit "codex")
    then some (lit "CODEX_THREAD_ID")
    else none

-- The other engine, which the dispatching session is of.
other_engine : Text → Text × Text
other_engine engine =
    if text_eq engine (lit "claude")
    then (lit "codex", lit "CODEX_THREAD_ID")
    else (lit "claude", lit "CLAUDE_CODE_SESSION_ID")

no_session : Desk → Text → Text → Text × Text → Text
no_session d engine var (other, other_var) =
    if is_empty (d.getenv other_var)
    then lit "--fork needs the dispatching session's id, and "
      ++ var
      ++ lit " is not set: run launch from a "
      ++ engine
      ++ lit " session, or leave out --fork"
    else lit "--fork forks the dispatching session, which is a "
      ++ other
      ++ lit " session, and a fork stays in its engine: use --engine "
      ++ other

fork_id : Desk → Text → Text → Text → Fallible Text
unfolding no_session other_engine
fork_id d engine var id =
    if is_empty id
    then err (no_session d engine var (other_engine engine))
    else if text_eq engine (lit "claude") && not (is_full_id id)
    then err (lit "--fork needs the full session id; " ++ var ++ lit " is " ++ id)
    else ok id

-- The session that `--fork` starts from, of the task's engine.
unfoldable pub fork_source : Desk → Text → Fallible Text
unfolding fork_id
fork_source d engine = elim (fork_env engine) [
  | none ↦ err (lit "--fork works with the claude and codex engines")
  | some var ↦ fork_id d engine var (d.getenv var)
]

unfoldable pub fork_of : Desk → LaunchArgs → Text → Fallible Text
fork_of d la engine =
    if not la.fork
    then ok []
    else if not (is_empty la.after)
    then err (
        lit
          "--fork starts the task now, from the conversation as it is; it cannot wait --after other tasks")
    else fork_source d engine

branch_or : Text → Worktree → Fallible Text
branch_or branch w =
    if not (is_empty branch)
    then ok branch
    else if is_empty w.branch
    then err (
        lit "--merge: the main checkout "
        ++ w.path
        ++ lit " is on a detached HEAD; name the branch: --merge BRANCH")
    else ok w.branch

known_branch : Desk → Text → Worktree → Text → Fallible Text
known_branch d top w branch =
    elim (d.shell.run top
      (lit "rev-parse" ∷ lit "--verify" ∷ lit "-q" ∷ (lit "refs/heads/" ++ branch) ∷ [])) [
        | ok _ ↦ ok branch
        | err _ ↦ err (lit "--merge: there is no branch " ++ branch ++ lit " in " ++ w.path)
      ]

target_in : Desk → Text → Text → Fallible (List Worktree) → Fallible Text
unfolding branch_or known_branch
target_in d top branch (ok (w ∷ _)) = and_then (branch_or branch w) (λ b. known_branch d top w b)
target_in d top branch (ok []) =
    err (lit "--merge: cannot list the worktrees of " ++ top ++ lit ": <nil>")
target_in d top branch (err e) =
    err (lit "--merge: cannot list the worktrees of " ++ top ++ lit ": " ++ e)

-- The branch of `--merge`: the one given, else that of the main checkout. It must exist.
unfoldable pub merge_target : Desk → Text → Text → Fallible Text
unfolding target_in
merge_target d cwd branch =
    let top = top_level d.shell cwd in
    if is_empty top
    then err (lit "--merge needs a git repository; " ++ cwd ++ lit " is not in one")
    else target_in d top branch (worktrees d.shell top)

unfoldable pub merge_of : Desk → LaunchArgs → Text → Bool → Fallible Text
merge_of d la cwd in_place =
    if la.merge && la.no_merge
    then err (lit "--merge and --no-merge exclude each other")
    else if not la.merge
    then ok la.merge_into
    else if in_place
    then err (
        lit
          "--merge needs a worktree task; an in-place task (--isolation none) leaves its changes uncommitted")
    else merge_target d cwd la.merge_into
