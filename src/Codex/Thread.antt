-- ===== src/Codex/Thread.antt =====
-- What a Codex thread shows (internal/engine/codex/state.go): its state, the time of a turn, and its
-- conversation. Times are milliseconds since 1970.
use c_squad.Engine.{State, working, needs_input, idle, failed, stopped}
use c_squad.Base.{
  ℕ, ◌+◌, ◌-◌, ◌*◌, Bool, true, false, ◌&&◌, ◌||◌, not, Option, none, some, List, [], ◌∷◌, ◌++◌,
  reverse, any, length, take, drop, ltb, leb, ◌==◌, if◌then◌else◌, Text, lit, text_eq, trim_space,
  join, filterb, ◌≡◌, refl,
}

-- `UserInput` as the JSON of an entry decodes; `none` stands for one that does not.
pub record Input : Type 0 where
  pub kind : Text
  pub text : Text
  pub name : Text

-- `Item`: the entries of `content`, and how many questions it carries.
pub record Item : Type 0 where
  pub kind : Text
  pub text : Text
  pub content : List (Option Input)
  pub questions : ℕ
  pub tool : Text

-- `started_at` is in seconds and may be missing; the turn's error is left out.
pub record Turn : Type 0 where
  pub id : Text
  pub status : Text
  pub items : List Item
  pub started_at : Option ℕ

-- The status of a thread. The rest of `Thread` is read by no modelled code.
pub record Thread : Type 0 where
  pub status : Text
  pub active_flags : List Text

unfoldable pub has_user_message : Turn → Bool
has_user_message t = any (λ it. text_eq it.kind (lit "userMessage")) t.items

-- Two minutes.
abbrev pub young_turn : ℕ
young_turn = 120000

hex_digit : ℕ → Option ℕ
hex_digit c =
    if leb b'0' c && leb c b'9'
    then some (c - b'0')
    else if leb b'a' c && leb c b'f'
    then some (c - b'a' + 10)
    else if leb b'A' c && leb c b'F'
    then some (c - b'A' + 10)
    else none

-- The number that hexadecimal digits write, after those that were read.
unfoldable pub hex_from : ℕ → Text → Option ℕ
unfolding hex_digit
hex_from n [] = some n
hex_from n (c ∷ s) = elim (hex_digit c) [ none ↦ none | some d ↦ hex_from (16 * n + d) s ]

is_version_seven : Text → Bool
is_version_seven h = length h == 32 && text_eq (take 1 (drop 12 h)) (lit "7")

-- The time in a UUIDv7: its first 48 bits. An id is ASCII.
unfoldable pub uuid_time : Text → Option ℕ
unfolding hex_from is_version_seven
uuid_time id =
    let h = filterb (λ c. not (c == b'-')) id in
    if is_version_seven h then hex_from 0 (take 12 h) else none

seconds_time : Option ℕ → Option ℕ
seconds_time none = none
seconds_time (some s) = if s == 0 then none else some (1000 * s)

-- When a turn started: by its id, else by its time.
unfoldable pub turn_time : Turn → Option ℕ
unfolding seconds_time
turn_time t = elim (uuid_time t.id) [ some at ↦ some at | none ↦ seconds_time t.started_at ]

-- What follows the last line break.
after_break : Text → Text → Text
after_break line [] = reverse line
after_break line (c ∷ s) = after_break (if c == 10 then [] else c ∷ line) s

drop_marks : Text → Text
drop_marks [] = []
drop_marks (c ∷ s) = if c == b'*' || c == b'_' || c == b'`' || c == 32 then drop_marks s else c ∷ s

ends_in_question : Text → Bool
ends_in_question [] = false
ends_in_question (c ∷ s) = c == b'?' || c == 0xff1f

-- Whether the last line of a text ends with a question mark, markup aside.
unfoldable pub is_question : Text → Bool
unfolding after_break drop_marks ends_in_question
is_question text =
    ends_in_question (drop_marks (reverse (trim_space (after_break [] (trim_space text)))))

-- The newest message of the agent decides; the items are given newest first.
asks_from : List Item → Bool
asks_from [] = false
asks_from (it ∷ items) =
    let rest = asks_from items in
    if text_eq it.kind (lit "agentMessage") then ltb 0 it.questions || is_question it.text else rest

unfoldable pub asks : Turn → Bool
unfolding asks_from
asks t = asks_from (reverse t.items)

is_young : Option ℕ → ℕ → Bool
is_young none now = false
is_young (some at) now = ltb now (at + young_turn)

turn_state : Turn → ℕ → State
unfolding is_young
turn_state t now =
    if text_eq t.status (lit "inProgress")
    then working
    else if text_eq t.status (lit "failed")
    then failed
    else if text_eq t.status (lit "interrupted")
    then (if not (has_user_message t) && is_young (turn_time t) now then working else stopped)
    else if text_eq t.status (lit "completed")
    then (if asks t then needs_input else idle)
    else idle

newest_state : Option Turn → ℕ → State
unfolding turn_state
newest_state none now = idle
newest_state (some t) now = turn_state t now

waits_on_user : Text → Bool
waits_on_user f = text_eq f (lit "waitingOnApproval") || text_eq f (lit "waitingOnUserInput")

-- The state of a thread, with its newest turn.
unfoldable pub live : Thread → Option Turn → ℕ → State
unfolding waits_on_user newest_state
live t newest now =
    if text_eq t.status (lit "active")
    then (if any waits_on_user t.active_flags then needs_input else working)
    else if text_eq t.status (lit "systemError")
    then failed
    else newest_state newest now

input_part : Option Input → List Text
input_part none = []
input_part (some i) =
    if text_eq i.kind (lit "text")
    then i.text ∷ []
    else if text_eq i.kind (lit "localImage") || text_eq i.kind (lit "image")
    then lit "[image]" ∷ []
    else if text_eq i.kind (lit "skill") || text_eq i.kind (lit "mention")
    then (lit "[" ++ i.name ++ lit "]") ∷ []
    else []

input_parts : List (Option Input) → List Text
unfolding input_part
input_parts [] = []
input_parts (i ∷ content) = input_part i ++ input_parts content

unfoldable pub user_text : Item → Text
unfolding input_parts
user_text it = join (input_parts it.content) (10 ∷ [])

uuid_time_test : uuid_time (lit "00000000-1000-7000-8000-000000000000") ≡ some 4096
unfolding uuid_time lit text_eq
uuid_time_test = refl

is_question_test : is_question (lit "Done.\n**Shall I go on?**  ") ≡ true
unfolding is_question trim_space lit
is_question_test = refl
