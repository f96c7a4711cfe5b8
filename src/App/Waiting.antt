-- ===== src/App/Waiting.antt =====
-- The loop of `csquad wait` (`Wait` of internal/app/wait.go). What it prints of an engine that does not
-- answer is left out. Times are nanoseconds.
use c_squad.Engine.{State}
use c_squad.Task.{Task, needs_you, finished, phase_eq, name}
use c_squad.App.Wait.{Watch, watched, poll}
use c_squad.Base.{
  ℕ, zero, suc, ◌+◌, Bool, true, false, ◌&&◌, ◌||◌, not, Option, none, some, List, [], ◌∷◌, ◌++◌,
  map, filterb, all, is_empty, leb, if◌then◌else◌, Text, lit, text_eq,
}

-- One watched task.
pub record Watcher : Type 0 where
  pub task : Task
  pub watch : Watch

-- What one turn of the loop sees: the rows that can be read, the live states (`no_state` where a task was
-- not seen), the error of an engine and whether it is that its service does not answer, the clock when
-- the failures, the events and the end are looked at, and whether a signal ends the sleep.
pub record Look : Type 0 where
  pub row : ℕ → Option Task
  pub live : ℕ → State
  pub failing : Text → Option Text
  pub down : Text → Bool
  pub checked_at : ℕ
  pub event_at : ℕ
  pub now : ℕ
  pub interrupted : Bool

-- The settings, the end of the wait and the time that it is given, as it is printed.
pub record Terms : Type 0 where
  pub grace : ℕ
  pub fail_limit : ℕ
  pub deadline : ℕ
  pub span : Text

pub record Loop : Type 0 where
  pub watchers : List Watcher
  pub events : List (ℕ × Text)
  pub stop_at : Option ℕ
  pub failures : List (Text × ℕ)

pub data Waited : Type 0 where
  reported : List Text → Waited
  engine_failed : Text → Text → Waited
  interrupted : Waited

-- A turn ends the wait or goes on.
pub data Turned : Type 0 where
  ended : Waited → Turned
  again : Loop → Turned

-- The row as it is now, or as it was.
unfoldable pub reread : Look → Watcher → Watcher
reread k w = record w { task = elim (k.row w.task.id) [ some t ↦ t | none ↦ w.task ] }

-- A task that needs an engine that fails sits the turn out.
unfoldable pub sits_out : Look → Task → Bool
sits_out k t =
    (elim (k.failing t.engine) [ none ↦ false | some _ ↦ true ])
    && not (is_empty t.session_id)
    && not (finished t.phase)

unfoldable pub failed_since : List (Text × ℕ) → Text → Option ℕ
failed_since [] engine = none
failed_since ((e, at) ∷ rest) engine =
    if text_eq e engine then some at else failed_since rest engine

-- The failures of the engines that still fail.
unfoldable pub still_failing : Look → List (Text × ℕ) → List (Text × ℕ)
still_failing k = filterb (λ f. elim (k.failing f.0) [ none ↦ false | some _ ↦ true ])

-- A failure that has lasted too long ends the wait; a service that does not answer does not.
unfoldable pub fail_since :
    Terms → Look → Text → Text → Option ℕ → List (Text × ℕ) → Option Waited × List (Text × ℕ)
fail_since p k engine e none fs = (
  if leb (k.checked_at + p.fail_limit) k.checked_at then some (engine_failed engine e) else none,
  fs ++ (engine, k.checked_at) ∷ [],
)
fail_since p k engine e (some at) fs =
    (if leb (at + p.fail_limit) k.checked_at then some (engine_failed engine e) else none, fs)

unfoldable pub fail_one :
    Terms → Look → Watcher → Option Text → List (Text × ℕ) → Option Waited × List (Text × ℕ)
fail_one p k w none fs = (none, fs)
fail_one p k w (some e) fs =
    if w.watch.done || is_empty w.task.session_id || finished w.task.phase || k.down w.task.engine
    then (none, fs)
    else fail_since p k w.task.engine e (failed_since fs w.task.engine) fs

unfoldable pub fail_all :
    Terms → Look → List Watcher → List (Text × ℕ) → Option Waited × List (Text × ℕ)
fail_all p k [] fs = (none, fs)
fail_all p k (w ∷ ws) fs =
    let (r, fs') = fail_one p k w (k.failing w.task.engine) fs in
    let later = fail_all p k ws fs' in elim r [ some end ↦ (some end, fs') | none ↦ later ]

note_of : Task → Text
note_of t = if phase_eq t.phase needs_you && not (is_empty t.note) then lit " · " ++ t.note else []

event_text : Watcher → Text → Text
unfolding note_of
event_text w text =
    name w.task
    ++ (if w.watch.inited then lit " · " else lit " · already ")
    ++ text
    ++ note_of w.task

event_of : Watcher → Option Text → List (ℕ × Text)
unfolding event_text
event_of w none = []
event_of w (some text) = (w.task.id, event_text w text) ∷ []

-- One poll of one task, and its event.
unfoldable pub poll_one : Look → Watcher → Watcher × List (ℕ × Text)
unfolding event_of
poll_one k w =
    if sits_out k w.task
    then (w, [])
    else (let (watch, text) = poll w.watch (watched w.task (k.live w.task.id)) in
        (record w { watch = watch }, event_of w text))

unfoldable pub poll_all : Look → List Watcher → List Watcher × List (ℕ × Text)
poll_all k [] = ([], [])
poll_all k (w ∷ ws) =
    let (w', e) = poll_one k w in let (ws', es) = poll_all k ws in (w' ∷ ws', e ++ es)

unfoldable pub all_reported : List Watcher → Bool
all_reported ws = all (λ w. w.watch.done) ws

-- At the deadline each task that is not done still works.
unfoldable pub still_working : Terms → List Watcher → List (ℕ × Text)
still_working p [] = []
still_working p (w ∷ ws) =
    let rest = still_working p ws in
    if w.watch.done
    then rest
    else (w.task.id, name w.task ++ lit " · still working after " ++ p.span) ∷ rest

event_in : (ℕ × Text) → List (ℕ × Text) → List (ℕ × Text)
event_in e [] = e ∷ []
event_in e (f ∷ es) = let rest = event_in e es in if leb e.0 f.0 then e ∷ f ∷ es else f ∷ rest

by_id : List (ℕ × Text) → List (ℕ × Text)
unfolding event_in
by_id [] = []
by_id (e ∷ es) = event_in e (by_id es)

-- The lines of the answer, by id.
unfoldable pub lines_of_events : List (ℕ × Text) → List Text
unfolding by_id
lines_of_events es = map (λ e. e.1) (by_id es)

-- The grace for other events starts with the first one.
unfoldable pub grace_from : Terms → Look → Loop → Option ℕ
grace_from p k l =
    if is_empty l.events
    then l.stop_at
    else elim l.stop_at [ some at ↦ some at | none ↦ some (k.event_at + p.grace) ]

unfoldable pub is_over : Option ℕ → ℕ → Bool
is_over none now = true
is_over (some at) now = leb at now

-- The end of a turn: after the grace, when every task is reported, at the deadline or at a signal; else
-- the loop sleeps.
unfoldable pub turn_end : Terms → Look → Loop → Turned
unfolding is_over
turn_end p k l =
    let stop = grace_from p k l in
    if (not (is_empty l.events) && is_over stop k.now) || all_reported l.watchers
    then ended (reported (lines_of_events l.events))
    else if leb p.deadline k.now
    then ended (reported (lines_of_events (l.events ++ still_working p l.watchers)))
    else if k.interrupted
    then ended interrupted
    else again (record l { stop_at = stop })

-- What follows the look at the failures.
unfoldable pub turn_polled : Terms → Look → Loop → Option Waited × List (Text × ℕ) → Turned
turn_polled p k l (some end, fs) = ended end
turn_polled p k l (none, fs) =
    let (ws, es) = poll_all k l.watchers in
    turn_end p k (record l { watchers = ws; events = l.events ++ es; failures = fs })

unfoldable pub turn : Terms → Look → Loop → Turned
turn p k l =
    let ws = map (reread k) l.watchers in
    let fs = still_failing k l.failures in
    turn_polled p k (record l { watchers = ws }) (fail_all p k ws fs)

unfoldable pub turned_on : Turned → (Loop → Option Waited) → Option Waited
turned_on (ended r) f = some r
turned_on (again l) f = f l

-- The loop, for a number of turns; `none` when they are used up.
unfoldable pub wait_from : ℕ → Terms → (ℕ → Look) → ℕ → Loop → Option Waited
wait_from zero p looks i l = none
wait_from (suc n) p looks i l = turned_on (turn p (looks i) l) (λ m. wait_from n p looks (suc i) m)
