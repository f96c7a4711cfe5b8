-- ===== src/App/View.antt =====
-- How a task shows (internal/app/app.go): its phase combined with what was observed of its session.
-- The key of a view is a constant of the source, so it is an enumeration here.
use c_squad.Engine.{State, Live, state_eq, state_word}
use c_squad.Task.{Phase, Task, phase_word}
use c_squad.Base.{
  ℕ, max, Bool, ◌&&◌, ◌++◌, map, ◌==◌, is_empty, if◌then◌else◌, Text, lit, itoa, join, trim_space,
  replace_all,
}

-- The keys: those of the phases and the live states (`failed` and `done` are of both), and three more.
-- `blank` is the empty text of a zero live state.
pub data Key : Type 0 where
  waiting checking fixing merging ready needs_you cancelled failed done : Key
  working needs_input idle stopped gone blank : Key
  starting unknown review : Key

pub record View : Type 0 where
  pub key : Key
  pub text : Text

abbrev key_code : Key → ℕ
key_code Key.waiting = 0
key_code Key.checking = 1
key_code Key.fixing = 2
key_code Key.merging = 3
key_code Key.ready = 4
key_code Key.needs_you = 5
key_code Key.cancelled = 6
key_code Key.failed = 7
key_code Key.done = 8
key_code Key.working = 9
key_code Key.needs_input = 10
key_code Key.idle = 11
key_code Key.stopped = 12
key_code Key.gone = 13
key_code Key.blank = 14
key_code Key.starting = 15
key_code Key.unknown = 16
key_code Key.review = 17

abbrev pub key_eq : Key → Key → Bool
key_eq a b = key_code a == key_code b

-- The key of a live state.
abbrev pub state_key : State → Key
state_key State.no_state = Key.blank
state_key State.working = Key.working
state_key State.needs_input = Key.needs_input
state_key State.idle = Key.idle
state_key State.done = Key.done
state_key State.failed = Key.failed
state_key State.stopped = Key.stopped
state_key State.gone = Key.gone

unfoldable pub state_text : State → Text
state_text State.needs_input = lit "needs input"
state_text s = replace_all (state_word s) b'_' (lit " ")

abbrev pub state_view : State → View
state_view s = record { key = state_key s; text = state_text s }

-- `fixing 2/3`
abbrev pub round_text : Task → Text
round_text t = phase_word t.phase ++ lit " " ++ itoa (max 1 t.round) ++ lit "/" ++ itoa t.max_rounds

-- A question that the worker asks back comes before the phase.
abbrev pub unless_asked : Live → Bool → View → View
unless_asked l observed v =
    if observed && state_eq l.state State.needs_input then state_view l.state else v

-- A running task shows its session.
abbrev pub session_view : Task → Live → Bool → View
session_view t l observed =
    if is_empty t.session_id
    then record { key = Key.starting; text = lit "starting" }
    else if observed
    then state_view l.state
    else record { key = Key.unknown; text = lit "unknown" }

phase_view : Phase → Task → Live → Bool → View
phase_view Phase.waiting t l observed = record {
  key = Key.waiting;
  text = trim_space (lit "waiting " ++ join (map (λ id. lit "T" ++ itoa id) t.after) (lit ","));
}
phase_view Phase.fixing t l observed =
    unless_asked l observed (record { key = Key.fixing; text = round_text t })
phase_view Phase.merging t l observed =
    unless_asked l observed (record { key = Key.merging; text = phase_word t.phase })
phase_view Phase.checking t l observed = record { key = Key.checking; text = round_text t }
phase_view Phase.ready t l observed =
    unless_asked l observed (record { key = Key.ready; text = phase_word t.phase })
phase_view Phase.done t l observed = record { key = Key.done; text = phase_word t.phase }
phase_view Phase.failed t l observed = record { key = Key.failed; text = phase_word t.phase }
phase_view Phase.cancelled t l observed = record { key = Key.cancelled; text = phase_word t.phase }
phase_view Phase.needs_you t l observed = record { key = Key.needs_you; text = lit "needs you" }
phase_view Phase.running t l observed = session_view t l observed

unfoldable pub view : Task → Live → Bool → View
unfolding phase_view
view t l observed = phase_view t.phase t l observed
