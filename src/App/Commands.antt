-- ===== src/App/Commands.antt =====
-- `csquad retry`, the Stop hooks and the advance that the status line spawns (`Retry`, `Hook` and
-- `maybeAdvance` of internal/app/advance.go). What is printed is left out.
use c_squad.Engine.{Live}
use c_squad.Task.{Task, label, phase_eq, waiting}
use c_squad.Flow.Kinds.{EffectKind, land, Move, acts, orchestrated, implicit}
use c_squad.Flow.Next.{next}
use c_squad.Flow.Resume.{Retried, resumed, refused, retry}
use c_squad.Gitx.Kinds.{Fallible, ok, err}
use c_squad.Finish.Command.{task_found, error_text}
use c_squad.Store.Table.{Table, Reply, reply, Io}
use c_squad.Store.Ops.{get, list}
use c_squad.Mover.Apply.{World, Applied, applied, failed_with, apply}
use c_squad.App.Observe.{Seen, waiting_on, observation, every_task}
use c_squad.App.Effects.{Outside, run_outside, act_on}
use c_squad.App.Advance.{Pass, advance_all}
use c_squad.Base.{
  ℕ, Bool, true, false, ◌&&◌, ◌||◌, not, Option, none, some, List, [], ◌∷◌, ◌++◌, is_empty,
  if◌then◌else◌, Text, lit, text_eq, has_prefix,
}

-- The world after a command, and the error that is answered.
pub record Answered : Type 0 where
  pub world : World
  pub error : Option Text

is_land : EffectKind → Bool
is_land land = true
is_land _ = false

-- A merge that landed releases the tasks queued after it.
retry_done : (ℕ → Pass) → Task → Move → World → Applied → Answered
unfolding is_land
retry_done passes t m w (applied stored won) = record {
  world = if is_land m.effect.kind then advance_all passes [] w else w;
  error = none;
}
retry_done passes t m w (failed_with r) = record {
  world = w;
  error = some (label t ++ lit ": " ++ error_text r);
}

unfoldable pub retry_move : Outside → (ℕ → Pass) → World → Task → Retried → Answered
unfolding retry_done
retry_move out passes w t (refused e) = record { world = w; error = some e }
retry_move out passes w t (resumed m) =
    let done = apply out.io out.now w t m in
    retry_done passes t m (act_on (run_outside out) m.effect.kind done) done.1

unfoldable pub retry_found : Outside → (ℕ → Pass) → World → Fallible Task → Answered
retry_found out passes w (err e) = record { world = w; error = some e }
retry_found out passes w (ok t) = retry_move out passes w t (retry t)

-- Resumes a task that needs the user, from the number that its label reads.
unfoldable pub retry_one :
    Option (List Text) → Bool → Io → Outside → (ℕ → Pass) → World → ℕ → Answered
retry_one owners everyone io out passes w id =
    retry_found out passes w (task_found owners everyone (lit "retry") id (get io id w.table))

-- The task whose turn ended: a flow, a task others wait for, or one to notify of.
unfoldable pub is_hooked : List Task → Text → Bool → Text → Task → Bool
is_hooked tasks engine notifying session t =
    text_eq t.engine engine
    && not (is_empty t.session_id)
    && (orchestrated t || implicit t (waiting_on tasks t.id) || notifying)
    && (text_eq t.session_id session || has_prefix session t.session_id)

unfoldable pub first_hooked : (Task → Bool) → List Task → Option Task
first_hooked p [] = none
first_hooked p (t ∷ ts) = let rest = first_hooked p ts in if p t then some t else rest

engine_of : Text → Option Text
engine_of which =
    if text_eq which (lit "claude-stop")
    then some (lit "claude")
    else if text_eq which (lit "codex-stop")
    then some (lit "codex")
    else none

hooked_in : Text → Bool → Text → Reply (List Task) → Option Task
hooked_in engine notifying session (reply tasks) =
    first_hooked (is_hooked tasks engine notifying session) tasks
hooked_in engine notifying session r = none

-- The task that a Stop hook spawns an advance for. The session is the empty text where the hook's JSON
-- names none; the database may not exist yet. An unknown hook is an error, where `quoted` is `%q` of fmt.
unfoldable pub hook :
    (Text → Text) → Text → Text → Bool → Bool → Reply (List Task) → Fallible (Option Task)
unfolding engine_of hooked_in
hook quoted which session has_database notifying r = elim (engine_of which) [
  | none ↦ err (lit "unknown hook " ++ quoted which ++ lit " (claude-stop, codex-stop)")
  | some engine ↦
      if is_empty session || not has_database
      then ok none
      else ok (hooked_in engine notifying session r)
]

would_move : Table → (Task → Seen) → List (ℕ × Live) → (ℕ → List ℕ) → Task → Bool
would_move tbl seen live deps t =
    (phase_eq t.phase waiting || orchestrated t || implicit t (deps t.id))
    && acts (next t (observation tbl (seen t) live [] t)) t

listed_or : Reply (List Task) → List Task
listed_or (reply ts) = ts
listed_or r = []

-- Whether the status line spawns an advance: some task would move, and no advance runs.
unfoldable pub maybe_advance :
    Io → Table → (Task → Seen) → List (ℕ × Live) → Bool → List Task → Bool
unfolding would_move listed_or
maybe_advance io tbl seen live lock_held tasks =
    let deps = waiting_on (listed_or (list io every_task tbl)) in
    elim (first_hooked (would_move tbl seen live deps) tasks) [
      | some t ↦ not lock_held
      | none ↦ false
    ]
