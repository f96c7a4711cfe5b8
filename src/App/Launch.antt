-- ===== src/App/Launch.antt =====
-- `csquad launch` (`Launch` of internal/app/launch.go): the next number, a row in the table, then the
-- session; a failed start deletes the row again. Files of the launch, notes and what is printed are left
-- out.
use c_squad.Task.{running, waiting, done, no_step, Task, phase_eq}
use c_squad.Gitx.Kinds.{Fallible, ok, err, and_then}
use c_squad.Store.Table.{Table, Reply, reply, db_error, conflict, not_found, Io}
use c_squad.Store.Ops.{insert, get, set_session, set_engine_args, delete}
use c_squad.Flow.Texts.{start_prompt}
use c_squad.App.Effects.{Started, started, not_started}
use c_squad.App.Draft.{LaunchArgs, Desk, unless, after_ids, check_value, fork_of, merge_of}
use c_squad.Base.{
  ℕ, Bool, true, false, ◌&&◌, ◌||◌, not, Option, none, some, List, [], ◌∷◌, ◌++◌, reverse, is_empty,
  ltb, ◌==◌, if◌then◌else◌, Text, lit, text_eq, trim_space,
}

-- A task that is to be inserted, and the session that it starts from.
pub record Draft : Type 0 where
  pub task : Task
  pub fork : Text

unfoldable pub engine_name : LaunchArgs → Text
engine_name la = if is_empty la.engine then lit "claude" else la.engine

is_isolation : Text → Bool
is_isolation i = is_empty i || text_eq i (lit "none") || text_eq i (lit "worktree")

known_engine : Desk → Text → Fallible (Unit {0})
known_engine d engine = elim (d.engine_error engine) [ none ↦ ok tt | some e ↦ err e ]

-- The first guards, and the directory of the task.
unfoldable pub place_of : Desk → LaunchArgs → Fallible Text
unfolding is_isolation known_engine
place_of d la =
    let cwd = d.canonical (if is_empty la.cwd then d.cwd else la.cwd) in
    and_then (unless (is_empty (trim_space la.title)) (lit "--title is required")) (λ _.
      and_then
        (unless (not (is_isolation la.isolation)) (lit "--isolation must be none or worktree"))
        (λ _. and_then (known_engine d (engine_name la)) (λ _.
          and_then (unless (not (d.is_dir cwd)) (cwd ++ lit " is not a directory")) (λ _. ok cwd))))

unfoldable pub is_in_place : LaunchArgs → Bool
is_in_place la = text_eq la.isolation (lit "none")

unfoldable pub rounds_of : LaunchArgs → Text → Fallible (Unit {0})
rounds_of la check =
    unless (ltb 0 la.max && is_empty check)
      (lit "--max sets the rounds of --check; it needs --check and a positive number")

read_prompt : Desk → LaunchArgs → Fallible Text
read_prompt d la =
    if is_empty la.prompt_file then ok d.stdin else elim (d.read_file la.prompt_file) [
      | ok raw ↦ ok raw
      | err e ↦ err (lit "cannot read the prompt file " ++ la.prompt_file ++ lit ": " ++ e)
    ]

some_prompt : LaunchArgs → Text → Fallible Text
some_prompt la raw =
    if is_empty (trim_space raw)
    then err (
        if is_empty la.prompt_file
        then lit "the prompt (stdin) is empty"
        else lit "the prompt file " ++ la.prompt_file ++ lit " is empty")
    else ok (trim_space raw)

unfoldable pub prompt_of : Desk → LaunchArgs → Fallible Text
unfolding read_prompt some_prompt
prompt_of d la = and_then (read_prompt d la) (some_prompt la)

drop_breaks : Text → Text
drop_breaks [] = []
drop_breaks (c ∷ s) = if c == 10 then drop_breaks s else c ∷ s

-- The rules for a worker, with those of a flow for a task that has one.
unfoldable pub rules_of : Desk → LaunchArgs → Text → Bool → Text
unfolding drop_breaks
rules_of d la check in_place =
    let rules = d.worker_rules (engine_name la) in_place in
    if la.no_worker_rules
    then []
    else if not (is_empty check) || la.merge
    then reverse (drop_breaks (reverse rules)) ++ 10 ∷ d.flow_rules
    else rules

dep_of : ℕ → Reply Task → List (ℕ × Task)
dep_of id (reply t) = (id, t) ∷ []
dep_of id _ = []

-- The tasks that are waited for; one that cannot be read is not done.
unfoldable pub deps_of : Desk → Table → List ℕ → List (ℕ × Task)
unfolding dep_of
deps_of d tbl [] = []
deps_of d tbl (id ∷ ids) = dep_of id (get d.deps_io id tbl) ++ deps_of d tbl ids

is_done : Reply Task → Bool
is_done (reply t) = phase_eq t.phase done
is_done _ = false

unfoldable pub all_done : Desk → Table → List ℕ → Bool
unfolding is_done
all_done d tbl [] = true
all_done d tbl (id ∷ ids) = is_done (get d.deps_io id tbl) && all_done d tbl ids

-- The row that is inserted. The number, the times and the default of the rounds are the store's.
unfoldable pub draft_task :
    Desk → LaunchArgs → Table → Text → List ℕ → Text → Text → List Text → Text → Task
draft_task d la tbl cwd after check target args prompt = record {
  id = 0;
  title = la.title;
  cwd = cwd;
  engine = engine_name la;
  model = la.model;
  engine_args = args;
  session_id = [];
  parent_session = d.session_key;
  in_place = is_in_place la;
  prompt = prompt;
  worker_rules = rules_of d la check (is_in_place la);
  after = after;
  check_spec = check;
  max_rounds = la.max;
  round = 0;
  merge_into = target;
  hold = la.no_merge;
  phase = if all_done d tbl after then running else waiting;
  last_check = none;
  note = [];
  outcome = none;
  step = no_step;
  created_at = 0;
  updated_at = 0;
  notified = [];
  notified_phase = 0;
}

-- The guards of Launch, in their order.
unfoldable pub draft : Desk → LaunchArgs → Table → Fallible Draft
draft d la tbl = and_then (place_of d la) (λ cwd. and_then (after_ids d tbl la.after) (λ after.
    and_then (check_value d la.check) (λ check. and_then (rounds_of la check) (λ _.
      and_then (fork_of d la (engine_name la)) (λ fork.
        and_then (merge_of d la cwd (is_in_place la)) (λ target.
          and_then (d.check_args (engine_name la) la.engine_args d.cwd) (λ args.
            and_then (prompt_of d la) (λ prompt. ok (record {
              task = draft_task d la tbl cwd after check target args prompt;
              fork = fork;
            })))))))))

-- What answers while the task is inserted and started: the store's clock and the driver's errors, what
-- other processes do to the table from the insertion on, the engine's `Queue`, if it has one, and the start
-- of the session with a prompt and the session that it is forked from.
pub record Starter : Type 0 where
  pub now : ℕ
  pub insert_io : Io
  pub args_error : Option Text
  pub record_error : Option Text
  pub delete_io : Io
  pub meanwhile : Table → Table
  pub queue : Option (ℕ → List Text → Bool → Text → Fallible (List Text))
  pub session : Task → Text → Text → Started

-- What launch did.
pub data Launched : Type 0 where
  queued : Task → Launched
  launched : Task → Text → Launched

-- The number is free again.
unfoldable pub given_up : Starter → Table → ℕ → Text → Table × Fallible Launched
given_up s tbl id e = (delete s.delete_io id tbl, err e)

-- The arguments are written for a queued task, unless the driver fails.
unfoldable pub args_written :
    Starter → Table → Task → List Text → Option Text → Table × Fallible Launched
args_written s tbl t args none = (set_engine_args none t.id args tbl, ok (queued t))
args_written s tbl t args (some e) = given_up s tbl t.id e

unfoldable pub queued_args :
    Starter → Table → Task → Fallible (List Text) → Table × Fallible Launched
queued_args s tbl t (err e) = given_up s tbl t.id e
queued_args s tbl t (ok args) = args_written s tbl t args s.args_error

unfoldable pub queue_by :
    Starter
    → Table
    → Task
    → Option (ℕ → List Text → Bool → Text → Fallible (List Text))
    → Table × Fallible Launched
queue_by s tbl t none = (tbl, ok (queued t))
queue_by s tbl t (some q) = queued_args s tbl t (q t.id t.engine_args t.in_place t.cwd)

-- A task that waits: its engine takes what it needs from the environment now.
unfoldable pub queue_up : Starter → Table → Task → Table × Fallible Launched
queue_up s tbl t = queue_by s tbl t s.queue

unfoldable pub recorded_as : Table → Task → Text → Option Text → Table × Fallible Launched
recorded_as tbl t sid none = (set_session none t.id sid tbl, ok (launched t sid))
recorded_as tbl t sid (some e) = (tbl, err e)

unfoldable pub begun_as : Starter → Table → Task → Started → Table × Fallible Launched
begun_as s tbl t (not_started e) = given_up s tbl t.id e
begun_as s tbl t (started sid) = recorded_as tbl t sid s.record_error

unfoldable pub start_up :
    Starter → Table → List (ℕ × Task) → Text → Task → Table × Fallible Launched
start_up s tbl deps fork t = begun_as s tbl t (s.session t (start_prompt t deps) fork)

-- What becomes of the new row, with the table as it is then.
unfoldable pub placed : Starter → List (ℕ × Task) → Text → Table → Task → Table × Fallible Launched
placed s deps fork tbl t =
    if phase_eq t.phase waiting then queue_up s tbl t else start_up s tbl deps fork t

unfoldable pub inserted :
    Starter → List (ℕ × Task) → Text → Table × Reply Task → Table × Fallible Launched
inserted s deps fork (tbl, reply t) = placed s deps fork (s.meanwhile tbl) t
inserted s deps fork (tbl, db_error e) = (tbl, err e)
inserted s deps fork (tbl, conflict) = (tbl, err [])
inserted s deps fork (tbl, not_found) = (tbl, err [])

unfoldable pub launch_draft : Desk → Starter → Table → Fallible Draft → Table × Fallible Launched
launch_draft d s tbl (err e) = (tbl, err e)
launch_draft d s tbl (ok dr) =
    inserted s (deps_of d tbl dr.task.after) dr.fork (insert s.insert_io s.now tbl dr.task)

unfoldable pub launch : Desk → Starter → LaunchArgs → Table → Table × Fallible Launched
unfolding launch_draft
launch d s la tbl = launch_draft d s tbl (draft d la tbl)
