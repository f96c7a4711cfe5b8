-- ===== src/App/Observe.antt =====
-- What the flow is told about a task (internal/app/advance.go): which tasks are observed, the tasks
-- queued after others, and the observation that `next` decides on.
use c_squad.Engine.{Live, Message, no_live}
use c_squad.Verdict.{Verdict}
use c_squad.Task.{
  Phase, waiting, running, checking, fixing, merging, ready, needs_you, failed, Task, asked,
  phase_eq, step_eq,
}
use c_squad.Flow.Kinds.{Obs, orchestrated, implicit, entered, later_than, is_resting}
use c_squad.Store.Table.{Table, Reply, reply, Io}
use c_squad.Store.Ops.{Filter, get, list}
use c_squad.Base.{
  ℕ, ◌-◌, Bool, true, false, ◌&&◌, ◌||◌, not, Option, none, some, List, [], ◌∷◌, ◌++◌, reverse,
  ◌==◌, is_empty, any, filterb, lookup, map, if◌then◌else◌, Text, lit, text_eq, has_prefix, itoa,
}

-- What the clock, the locks, the files and the engines answer while one task is looked at. Times are
-- nanoseconds. `messages` is the conversation of the task's session, `none` when the engine is
-- unknown or does not answer.
pub record Seen : Type 0 where
  pub now : ℕ
  pub settle : ℕ
  pub grace : ℕ
  pub task_lock_held : Bool
  pub check_lock_held : Bool
  pub log_written : Option ℕ
  pub verdict_file : Option Verdict
  pub messages : Option (List Message)
  pub reading : Io

abbrev pub every_task : Filter
every_task = record { parents = none; with_finished = false }

-- The waiting tasks that list a number in their `After`, once for each time they list it.
unfoldable pub waiting_on : List Task → ℕ → List ℕ
waiting_on [] id = []
waiting_on (t ∷ ts) id =
    let rest = waiting_on ts id in
    if phase_eq t.phase waiting
    then map (λ _. t.id) (filterb (λ a. a == id) t.after) ++ rest
    else rest

-- No tasks when the table cannot be read.
listed : Reply (List Task) → List Task
listed (reply ts) = ts
listed _ = []

-- The waiting tasks queued after a task.
unfoldable pub dependents : Io → Table → ℕ → List ℕ
unfolding listed
dependents io tbl id = waiting_on (listed (list io every_task tbl)) id

abbrev watched_phase : Phase → Bool
watched_phase running = true
watched_phase fixing = true
watched_phase merging = true
watched_phase needs_you = true
watched_phase failed = true
watched_phase ready = true
watched_phase _ = false

-- Whether the flow reads the live state of the task's session.
unfoldable pub needs_observation : Task → List ℕ → Bool
needs_observation t deps =
    if is_empty t.session_id || (not (orchestrated t) && not (implicit t deps))
    then false
    else watched_phase t.phase

-- The verdict that the check of the round left for this version of the task.
unfoldable pub read_verdict : Task → Option Verdict → Option Verdict
read_verdict t none = none
read_verdict t (some v) =
    if not (v.for == t.updated_at) || not (v.round == t.round) then none else some v

is_assistant : Message → Bool
is_assistant m = text_eq m.role (lit "assistant")

has_time : Option ℕ → Bool
has_time none = false
has_time (some _) = true

is_dated : Message → Bool
unfolding has_time
is_dated m = has_time m.at

-- Backwards from the newest entry to csquad's last message: whether the worker answered after it.
answered_since : Text → Bool → List Message → Bool
unfolding is_assistant
answered_since prefix seen [] = false
answered_since prefix seen (m ∷ older) =
    let rest = answered_since prefix (seen || is_assistant m) older in
    if text_eq m.role (lit "user") && has_prefix m.text prefix then seen else rest

-- The beginning of the message that the worker answers.
unfoldable pub asked_with : Task → Text
asked_with t =
    if phase_eq t.phase fixing
    then lit "csquad: check " ++ itoa (t.round - 1) ++ lit " of "
    else lit "csquad: the work is accepted"

-- Whether the worker answered after the task entered its step.
unfoldable pub replied : Task → Option (List Message) → Bool
unfolding is_assistant is_dated answered_since
replied t none = false
replied t (some msgs) =
    if any (λ m. is_dated m && is_assistant m && later_than m.at (entered t)) msgs
    then true
    else if any is_dated msgs
    then false
    else answered_since (asked_with t) false (reverse msgs)

unfoldable pub add_row : ℕ → Reply Task → List (ℕ × Task) → List (ℕ × Task)
add_row id (reply d) rest = (id, d) ∷ rest
add_row id _ rest = rest

-- The rows of a task's dependencies; one that cannot be read is not in the map.
unfoldable pub dep_rows : Io → Table → List ℕ → List (ℕ × Task)
unfolding add_row
dep_rows io tbl [] = []
dep_rows io tbl (id ∷ ids) = add_row id (get io id tbl) (dep_rows io tbl ids)

-- The dependents are read only where they decide whether the work merges.
reads_dependents : Task → Bool
reads_dependents t =
    is_empty t.merge_into
    && not t.hold
    && (phase_eq t.phase running || phase_eq t.phase checking || phase_eq t.phase ready)

is_busy : Phase → Task → Seen → Bool
is_busy running t s = is_empty t.session_id && s.task_lock_held
is_busy checking t s = s.check_lock_held
is_busy merging t s = s.task_lock_held
is_busy _ t s = false

live_of : Option Live → Live
live_of none = no_live
live_of (some l) = l

was_observed : Option Live → Bool
was_observed none = false
was_observed (some _) = true

-- Whether the worker's answer is looked for: it was messaged, rests, and no hook event came since.
asks_reply : Task → Option Live → Option ℕ → Bool
unfolding live_of was_observed
asks_reply t l stopped =
    (phase_eq t.phase fixing || (phase_eq t.phase merging && step_eq t.step asked))
    && was_observed l
    && is_resting (live_of l).state
    && not (later_than stopped (entered t))

-- What `next` is told about a task, from the table and from what was seen.
unfoldable pub observation : Table → Seen → List (ℕ × Live) → List (ℕ × ℕ) → Task → Obs
unfolding reads_dependents is_busy live_of was_observed asks_reply
observation tbl s live stopped t = record {
  now = s.now;
  settle = s.settle;
  grace = s.grace;
  observed = was_observed (lookup t.id live);
  live = live_of (lookup t.id live);
  stopped = lookup t.id stopped;
  replied = asks_reply t (lookup t.id live) (lookup t.id stopped) && replied t s.messages;
  deps = if phase_eq t.phase waiting then dep_rows s.reading tbl t.after else [];
  dependents = if reads_dependents t then dependents s.reading tbl t.id else [];
  busy = is_busy t.phase t s;
  quiet = if phase_eq t.phase checking then s.log_written else none;
  verdict = if phase_eq t.phase checking then read_verdict t s.verdict_file else none;
  land = none;
}
