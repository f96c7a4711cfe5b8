-- ===== src/Codex/Conversation.antt =====
-- The conversation of a thread (`Messages` of internal/engine/codex/state.go).
use c_squad.Codex.Thread.{Item, Turn, turn_time, user_text}
use c_squad.Base.{
  ℕ, suc, Bool, Option, List, [], ◌∷◌, ◌++◌, reverse, any, is_empty, if◌then◌else◌, Text, lit,
  text_eq, trim_space,
}

-- `engine.ToolCount`
pub record ToolCount : Type 0 where
  pub name : Text
  pub count : ℕ

-- `engine.Message` by its role; the time is `none` where the turn gives none.
pub data PeekEntry : Type 0 where
  user assistant : Text → Option ℕ → PeekEntry
  tools : List ToolCount → PeekEntry

-- Items that are neither messages nor calls of tools.
unfoldable pub is_skipped : Text → Bool
is_skipped kind =
    any (λ k. text_eq k kind)
      (lit "reasoning"
        ∷ lit "plan"
        ∷ lit "hookPrompt"
        ∷ lit "contextCompaction"
        ∷ lit "enteredReviewMode"
        ∷ lit "exitedReviewMode"
        ∷ lit "functionCallOutput"
        ∷ [])

-- What one item is to the conversation.
pub data Said : Type 0 where
  by_user by_assistant tool_call : Text → Said
  silent : Said

-- A text that is blank is not said.
unless_blank : Text → (Text → Said) → Said
unless_blank text say = if is_empty text then silent else say text

unfoldable pub said : Item → Said
unfolding unless_blank
said it =
    if text_eq it.kind (lit "userMessage")
    then unless_blank (trim_space (user_text it)) by_user
    else if text_eq it.kind (lit "agentMessage")
    then unless_blank (trim_space it.text) by_assistant
    else if is_skipped it.kind
    then silent
    else tool_call (if is_empty it.tool then it.kind else it.tool)

unfoldable pub bumped : Text → List ToolCount → List ToolCount
bumped name [] = []
bumped name (t ∷ ts) =
    record t { count = if text_eq t.name name then suc t.count else t.count } ∷ bumped name ts

unfoldable pub has_tool : Text → List ToolCount → Bool
has_tool name ts = any (λ t. text_eq t.name name) ts

-- One more call of a tool among the counts.
unfoldable pub counted : Text → List ToolCount → List ToolCount
counted name ts =
    if has_tool name ts then bumped name ts else ts ++ record { name = name; count = 1 } ∷ []

-- A call is counted in the newest entry, if that is one of calls. The entries are newest first.
unfoldable pub with_call : Text → List PeekEntry → List PeekEntry
with_call name (tools ts ∷ out) = tools (counted name ts) ∷ out
with_call name out = tools (counted name []) ∷ out

unfoldable pub with_said : Option ℕ → Said → List PeekEntry → List PeekEntry
with_said at (by_user text) out = user text at ∷ out
with_said at (by_assistant text) out = assistant text at ∷ out
with_said at (tool_call name) out = with_call name out
with_said at silent out = out

-- The loop over the items of a turn.
unfoldable pub with_items : Option ℕ → List Item → List PeekEntry → List PeekEntry
with_items at [] out = out
with_items at (it ∷ items) out = with_items at items (with_said at (said it) out)

unfoldable pub with_turns : List Turn → List PeekEntry → List PeekEntry
with_turns [] out = out
with_turns (t ∷ turns) out = with_turns turns (with_items (turn_time t) t.items out)

-- The entries of the turns, oldest first.
unfoldable pub messages : List Turn → List PeekEntry
messages turns = reverse (with_turns turns [])
