-- ===== src/Claude/Sessions.antt =====
-- Sessions as `claude agents` lists them (`RawState`, `match` and `states` of
-- internal/engine/claude/claude.go). The start time of a session is left out.
use c_squad.Engine.{state_word, needs_input, working, idle, failed, gone}
use c_squad.Base.{
  Bool, ◌&&◌, ◌||◌, not, Option, none, some, List, [], ◌∷◌, ◌++◌, is_empty, if◌then◌else◌, Text,
  lit, text_eq, has_prefix,
}

-- `waiting_for` is the JSON as it stands in the list, empty where there is none.
pub record Session : Type 0 where
  pub id : Text
  pub session_id : Text
  pub status : Text
  pub state : Text
  pub tempo : Text
  pub waiting_for : Text
  pub cwd : Text

-- A state as a word: an unknown one passes through.
pub record Seen : Type 0 where
  pub state : Text
  pub session_id : Text
  pub cwd : Text

unfoldable pub is_session_busy : Session → Bool
is_session_busy s = text_eq s.status (lit "busy") || text_eq s.status (lit "shell")

unfoldable pub waits_for_user : Session → Bool
waits_for_user s =
    not (is_empty s.waiting_for)
    && not (text_eq s.waiting_for (lit "null"))
    && not (text_eq s.waiting_for (lit "\"\""))

-- `switch s.State` at the end of a turn, then the status.
unfoldable pub status_state : Session → Text
status_state s =
    if is_session_busy s
    then state_word working
    else if text_eq s.tempo (lit "blocked") || text_eq s.state (lit "blocked")
    then state_word needs_input
    else if text_eq s.status (lit "idle")
    then state_word idle
    else if not (is_empty s.state)
    then s.state
    else if not (is_empty s.status)
    then s.status
    else lit "unknown"

unfoldable pub is_ended : Text → Bool
is_ended w = text_eq w (lit "done") || text_eq w (lit "failed") || text_eq w (lit "stopped")

unfoldable pub raw_state : Session → Text
raw_state s =
    if text_eq s.status (lit "waiting") || (waits_for_user s && not (is_session_busy s))
    then state_word needs_input
    else if is_ended s.state
    then s.state
    else if text_eq s.state (lit "crashed")
    then state_word failed
    else status_state s

unfoldable pub first_where : (Session → Bool) → List Session → Option Session
first_where p [] = none
first_where p (s ∷ list) = let rest = first_where p list in if p s then some s else rest

unfoldable pub is_named : Text → Session → Bool
is_named id s = text_eq s.id id || text_eq s.session_id id

unfoldable pub is_short_for : Text → Session → Bool
is_short_for id s =
    has_prefix s.session_id id || (not (is_empty s.id) && has_prefix id (s.id ++ lit "-"))

-- The session of a stored id: one that has it before one that it abbreviates.
unfoldable pub matched : List Session → Text → Option Session
matched list id = if is_empty id then none else elim (first_where (is_named id) list) [
  | some s ↦ some s
  | none ↦ first_where (is_short_for id) list
]

unfoldable pub seen : List Session → Text → Seen
seen list id = elim (matched list id) [
  | none ↦ record { state = state_word gone; session_id = []; cwd = [] }
  | some s ↦ record {
    state = raw_state s;
    session_id = if is_empty s.session_id then s.id else s.session_id;
    cwd = s.cwd;
  }
]

-- The state of each id.
unfoldable pub states : List Session → List Text → List (Text × Seen)
states list [] = []
states list (id ∷ ids) = (id, seen list id) ∷ states list ids
