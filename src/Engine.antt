-- ===== src/Engine.antt =====
-- What csquad needs from a coding agent (internal/engine/engine.go): the live state of a session,
-- a conversation, and token usage. The engines themselves are not modelled here.
use c_squad.Base.{
  ℕ, ◌+◌, ◌-◌, ◌≡◌, ◌↔◌, Bool, true, Option, List, [], ◌∷◌, reverse, arith, ◌==◌, if◌then◌else◌,
  Text, lit, text_eq,
}

-- The states that an observation can show. `no_state` is the empty text of a zero `Live`.
pub data State : Type 0 where
  no_state working needs_input idle done failed stopped gone : State

abbrev state_code : State → ℕ
state_code no_state = 0
state_code working = 1
state_code needs_input = 2
state_code idle = 3
state_code done = 4
state_code failed = 5
state_code stopped = 6
state_code gone = 7

abbrev pub state_eq : State → State → Bool
state_eq a b = state_code a == state_code b

pub state_eq_iff : (a b : State) → (state_eq a b ≡ true) ↔ (a ≡ b)
state_eq_iff a b = ground arith

-- The constants as the source spells them.
unfoldable pub state_word : State → Text
state_word no_state = []
state_word working = lit "working"
state_word needs_input = lit "needs_input"
state_word idle = lit "idle"
state_word done = lit "done"
state_word failed = lit "failed"
state_word stopped = lit "stopped"
state_word gone = lit "gone"

-- One observation of a session. `StartedAt` is read by no modelled code and is left out.
pub record Live : Type 0 where
  pub state : State
  pub session_id : Text
  pub cwd : Text

-- The zero value, what a Go map answers for a session that was not observed.
abbrev pub no_live : Live
no_live = record { state = no_state; session_id = []; cwd = [] }

-- One entry of a conversation. `at` is its time in nanoseconds, `none` when the engine gives none.
-- The counts of folded tool calls are read by no modelled code and are left out.
pub record Message : Type 0 where
  pub role : Text
  pub text : Text
  pub at : Option ℕ

newest_assistant : List Message → Text
newest_assistant [] = []
newest_assistant (m ∷ ms) =
    let rest = newest_assistant ms in if text_eq m.role (lit "assistant") then m.text else rest

-- The loop runs from the newest entry back.
unfoldable pub last_assistant : List Message → Text
unfolding newest_assistant
last_assistant msgs = newest_assistant (reverse msgs)

-- A session's token usage. The counts are never negative; `Activity` is left out.
pub record Usage : Type 0 where
  pub known : Bool
  pub input : ℕ
  pub cache_write : ℕ
  pub output : ℕ
  pub cache_read : ℕ
  pub context : ℕ
  pub context_max : ℕ

-- The work of a session: input, cache writes and output.
unfoldable pub fresh : Usage → ℕ
fresh u = u.input + u.cache_write + u.output

-- The counts less those of the parent session, and never below zero: `-` stops at 0 as
-- `max(0, a - b)` does.
unfoldable pub minus : Usage → Usage → Usage
minus u base = record u {
  input = u.input - base.input;
  cache_write = u.cache_write - base.cache_write;
  output = u.output - base.output;
  cache_read = u.cache_read - base.cache_read;
}
