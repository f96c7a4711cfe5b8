-- ===== src/App/Wait.antt =====
-- `csquad wait` (internal/app/wait.go): the state that is watched, and one poll of one watched task.
-- The loop around it is Waiting.
use c_squad.Engine.{State}
use c_squad.Task.{Phase, Task, finished, phase_eq}
use c_squad.Flow.Kinds.{orchestrated}
use c_squad.Base.{
  ℕ, ◌+◌, Bool, true, false, ◌||◌, Option, none, some, List, [], ◌∷◌, ◌==◌, ltb, is_empty,
  if◌then◌else◌, Text, lit,
}

-- What is watched: a live state, or one of four words of the flow.
pub data Watched : Type 0 where
  session : State → Watched
  finished_task ready needs_you starting : Watched

abbrev watched_code : Watched → ℕ
watched_code (session State.no_state) = 0
watched_code (session State.working) = 1
watched_code (session State.needs_input) = 2
watched_code (session State.idle) = 3
watched_code (session State.done) = 4
watched_code (session State.failed) = 5
watched_code (session State.stopped) = 6
watched_code (session State.gone) = 7
watched_code finished_task = 8
watched_code ready = 9
watched_code needs_you = 10
watched_code starting = 11

unfoldable pub watched_eq : Watched → Watched → Bool
watched_eq a b = watched_code a == watched_code b

-- The states that wait exits for, and how they read.
unfoldable pub report : Watched → Option Text
report (session State.needs_input) = some (lit "needs input")
report (session State.idle) = some (lit "idle")
report (session State.done) = some (lit "done")
report (session State.failed) = some (lit "failed")
report (session State.stopped) = some (lit "stopped")
report (session State.gone) = some (lit "removed")
report finished_task = some (lit "finished")
report ready = some (lit "ready")
report needs_you = some (lit "needs you")
report _ = none

-- The session's own state, only where the user can act on it.
abbrev actionable : State → Watched
actionable State.needs_input = session State.needs_input
actionable State.failed = session State.failed
actionable State.gone = session State.gone
actionable State.stopped = session State.stopped
actionable s = session State.working

ready_or_asked : State → Watched
ready_or_asked State.needs_input = session State.needs_input
ready_or_asked s = ready

state_in : Phase → State → Watched
unfolding ready_or_asked
state_in Phase.ready live = ready_or_asked live
state_in Phase.needs_you live = needs_you
state_in Phase.failed live = session State.failed
state_in Phase.waiting live = session State.working
state_in Phase.checking live = session State.working
state_in p live = actionable live

-- What wait watches for a task that the flow drives.
unfoldable pub flow_state : Task → State → Watched
unfolding state_in
flow_state t live = state_in t.phase live

-- The state of one poll.
unfoldable pub watched : Task → State → Watched
watched t live =
    if finished t.phase
    then finished_task
    else if orchestrated t || phase_eq t.phase Phase.waiting
    then flow_state t live
    else if is_empty t.session_id
    then starting
    else session live

-- The memory of one watched task. `state` and `cand` mean nothing before `inited`.
pub record Watch : Type 0 where
  pub state : Watched
  pub cand : Watched
  pub count : ℕ
  pub done : Bool
  pub inited : Bool

-- A state is settled on: an event if wait exits for it.
abbrev pub settled : Watch → Option Text → Watch × Option Text
settled w none = (w, none)
settled w (some text) = (record w { done = true }, some text)

abbrev pub at_first : Watch → Watched → Watch
at_first w s = record w { inited = true; state = s; cand = s }

-- How often in a row the state differs from the last one that was settled on.
abbrev pub seen_again : Watch → Watched → ℕ
seen_again w s = if watched_eq s w.cand then w.count + 1 else 1

unfoldable pub poll_inited : Bool → Watch → Watched → Watch × Option Text
poll_inited false w s = settled (at_first w s) (report s)
poll_inited true w s =
    if watched_eq s w.state
    then (record w { cand = s; count = 0 }, none)
    else if ltb (seen_again w s) 2
    then (record w { cand = s; count = seen_again w s }, none)
    else settled (record w { state = s; cand = s; count = 0 }) (report s)

-- One poll of one task: its memory after it, and the text of the event, if there is one.
unfoldable pub poll : Watch → Watched → Watch × Option Text
unfolding poll_inited
poll w s = if w.done then (w, none) else poll_inited w.inited w s

-- Polls in a row, with every event.
unfoldable pub polls : Watch → List Watched → Watch × List Text
polls w [] = (w, [])
polls w (s ∷ ss) =
    let (w', e) = poll w s in
    let (w'', later) = polls w' ss in (w'', elim e [ none ↦ later | some text ↦ text ∷ later ])
