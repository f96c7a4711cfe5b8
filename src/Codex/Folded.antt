-- ===== src/Codex/Folded.antt =====
-- The calls of tools in a conversation: runs of them are one entry, and none is lost.
use mathlib.Core.List.{reverse_aux}
use c_squad.Codex.Thread.{Item, Turn, turn_time}
use c_squad.Codex.Conversation.{
  ToolCount, PeekEntry, user, assistant, tools, Said, by_user, by_assistant, tool_call, silent,
  said, bumped, has_tool, counted, with_call, with_said, with_items, with_turns, messages,
}
use c_squad.Base.{
  ℕ, suc, ◌+◌, Bool, true, false, ◌||◌, ◌&&◌, List, [], ◌∷◌, ◌++◌, Text, text_eq, text_eq_iff,
  not_same, Option, ◌≡◌, refl, sym, ap, ◌∙◌, arith, Bool-cases, inl, inr,
}

total : List ToolCount → ℕ
total [] = 0
total (t ∷ ts) = t.count + total ts

-- How many calls the entries count.
unfoldable pub calls_counted : List PeekEntry → ℕ
unfolding total
calls_counted [] = 0
calls_counted (tools ts ∷ out) = total ts + calls_counted out
calls_counted (user _ _ ∷ out) = calls_counted out
calls_counted (assistant _ _ ∷ out) = calls_counted out

is_call : Said → ℕ
is_call (tool_call _) = 1
is_call (by_user _) = 0
is_call (by_assistant _) = 0
is_call silent = 0

unfoldable pub calls_in : List Item → ℕ
unfolding is_call
calls_in [] = 0
calls_in (it ∷ items) = is_call (said it) + calls_in items

-- How many calls of tools the turns hold.
unfoldable pub calls_made : List Turn → ℕ
calls_made [] = 0
calls_made (t ∷ turns) = calls_in t.items + calls_made turns

-- Every tool is named once.
unfoldable pub NamedOnce : List ToolCount → Type 0
NamedOnce [] = Unit
NamedOnce (t ∷ ts) = (has_tool t.name ts ≡ false) × NamedOnce ts

is_tools : List PeekEntry → Bool
is_tools [] = false
is_tools (tools _ ∷ _) = true
is_tools (user _ _ ∷ _) = false
is_tools (assistant _ _ ∷ _) = false

-- No entry of calls follows another, and each names a tool once.
unfoldable pub IsFolded : List PeekEntry → Type 0
unfolding is_tools
IsFolded [] = Unit
IsFolded (tools ts ∷ out) = NamedOnce ts × (is_tools out ≡ false) × IsFolded out
IsFolded (user _ _ ∷ out) = IsFolded out
IsFolded (assistant _ _ ∷ out) = IsFolded out

bumped_none : (name : Text) (ts : List ToolCount) → has_tool name ts ≡ false → bumped name ts ≡ ts
unfolding bumped has_tool
bumped_none name [] h = refl
bumped_none name (t ∷ ts) h =
    let other : text_eq t.name name ≡ false = ground arith in
    let rest = bumped_none name ts (ground arith) in rw (other, rest) refl

has_tool-bumped :
    (name k : Text) (ts : List ToolCount) → has_tool k (bumped name ts) ≡ has_tool k ts
unfolding bumped has_tool
has_tool-bumped name k [] = refl
has_tool-bumped name k (t ∷ ts) = ap (λ b. text_eq t.name k || b) (has_tool-bumped name k ts)

NamedOnce-bumped : (name : Text) (ts : List ToolCount) → NamedOnce ts → NamedOnce (bumped name ts)
unfolding bumped NamedOnce
NamedOnce-bumped name [] h = tt
NamedOnce-bumped name (t ∷ ts) (f, h) =
    (has_tool-bumped name t.name ts ∙ f, NamedOnce-bumped name ts h)

total-bumped :
    (name : Text) (ts : List ToolCount)
    → NamedOnce ts
    → has_tool name ts ≡ true
    → total (bumped name ts) ≡ suc (total ts)
unfolding bumped NamedOnce total has_tool
total-bumped name [] h e = cc
total-bumped name (t ∷ ts) (f, h) e = elim (Bool-cases (text_eq t.name name)) [
  | inl g ↦
      let gone : has_tool name ts ≡ false =
        sym (ap (λ k. has_tool k ts) ((text_eq_iff t.name name).0 g)) ∙ f in
      rw (g, bumped_none name ts gone) (omega arith)
  | inr g ↦ let rest = total-bumped name ts h (ground arith) in rw (g, rest) (omega arith)
]

has_tool-append :
    (k : Text) (ts : List ToolCount) (t : ToolCount)
    → has_tool k (ts ++ t ∷ []) ≡ (has_tool k ts || text_eq t.name k)
unfolding has_tool
has_tool-append k [] t = ground arith
has_tool-append k (s ∷ ts) t = ground (arith, has_tool-append k ts t)

total-append : (ts : List ToolCount) (t : ToolCount) → total (ts ++ t ∷ []) ≡ total ts + t.count
unfolding total
total-append [] t = omega arith
total-append (s ∷ ts) t = omega (arith, total-append ts t)

NamedOnce-append :
    (ts : List ToolCount) (t : ToolCount)
    → NamedOnce ts
    → has_tool t.name ts ≡ false
    → NamedOnce (ts ++ t ∷ [])
unfolding NamedOnce has_tool
NamedOnce-append [] t h f = (refl, tt)
NamedOnce-append (s ∷ ts) t (g, h) f =
    let other : text_eq t.name s.name ≡ false = not_same s.name t.name (ground arith) in
    let rest : has_tool t.name ts ≡ false = ground arith in
    (has_tool-append s.name ts t ∙ rw (g, other) refl, NamedOnce-append ts t h rest)

total-counted :
    (name : Text) (ts : List ToolCount) → NamedOnce ts → total (counted name ts) ≡ suc (total ts)
unfolding counted
total-counted name ts h = elim (Bool-cases (has_tool name ts)) [
  | inl e ↦ rw e (total-bumped name ts h e)
  | inr e ↦ rw e (total-append ts _ ∙ omega arith)
]

NamedOnce-counted : (name : Text) (ts : List ToolCount) → NamedOnce ts → NamedOnce (counted name ts)
unfolding counted
NamedOnce-counted name ts h = elim (Bool-cases (has_tool name ts)) [
  | inl e ↦ rw e (NamedOnce-bumped name ts h)
  | inr e ↦ rw e (NamedOnce-append ts _ h e)
]

-- One more call, and the entries stay folded.
call_counted :
    (name : Text) (out : List PeekEntry)
    → IsFolded out
    → (calls_counted (with_call name out) ≡ suc (calls_counted out)) × IsFolded (with_call name out)
unfolding with_call calls_counted IsFolded NamedOnce total
call_counted name [] h =
    (omega (arith, total-counted name [] tt), (NamedOnce-counted name [] tt, refl, tt))
call_counted name (tools ts ∷ out) (n, f, h) =
    (rw (total-counted name ts n) (omega arith), (NamedOnce-counted name ts n, f, h))
call_counted name (user t at ∷ out) h =
    (omega (arith, total-counted name [] tt), (NamedOnce-counted name [] tt, refl, h))
call_counted name (assistant t at ∷ out) h =
    (omega (arith, total-counted name [] tt), (NamedOnce-counted name [] tt, refl, h))

said_counted :
    (at : Option ℕ) (s : Said) (out : List PeekEntry)
    → IsFolded out
    → (calls_counted (with_said at s out) ≡ is_call s + calls_counted out)
      × IsFolded (with_said at s out)
unfolding with_said calls_counted IsFolded is_call
said_counted at (by_user t) out h = (omega arith, h)
said_counted at (by_assistant t) out h = (omega arith, h)
said_counted at (tool_call name) out h = let (e, f) = call_counted name out h in (omega arith, f)
said_counted at silent out h = (omega arith, h)

items_counted :
    (at : Option ℕ) (items : List Item) (out : List PeekEntry)
    → IsFolded out
    → (calls_counted (with_items at items out) ≡ calls_in items + calls_counted out)
      × IsFolded (with_items at items out)
unfolding with_items calls_in
items_counted at [] out h = (omega arith, h)
items_counted at (it ∷ items) out h =
    let (e, f) = said_counted at (said it) out h in
    let (g, k) = items_counted at items (with_said at (said it) out) f in (omega arith, k)

turns_counted :
    (turns : List Turn) (out : List PeekEntry)
    → IsFolded out
    → (calls_counted (with_turns turns out) ≡ calls_made turns + calls_counted out)
      × IsFolded (with_turns turns out)
unfolding with_turns calls_made
turns_counted [] out h = (omega arith, h)
turns_counted (t ∷ turns) out h =
    let (e, f) = items_counted (turn_time t) t.items out h in
    let (g, k) = turns_counted turns (with_items (turn_time t) t.items out) f in (omega arith, k)

calls_counted-reverse :
    (a b : List PeekEntry) → calls_counted (reverse_aux a b) ≡ calls_counted a + calls_counted b
unfolding calls_counted
calls_counted-reverse [] b = omega arith
calls_counted-reverse (tools ts ∷ a) b = omega (arith, calls_counted-reverse a (tools ts ∷ b))
calls_counted-reverse (user t at ∷ a) b = calls_counted-reverse a (user t at ∷ b)
calls_counted-reverse (assistant t at ∷ a) b = calls_counted-reverse a (assistant t at ∷ b)

IsFolded-reverse :
    (a b : List PeekEntry)
    → IsFolded a
    → IsFolded b
    → (is_tools a && is_tools b) ≡ false
    → IsFolded (reverse_aux a b)
unfolding IsFolded is_tools
IsFolded-reverse [] b h k e = k
IsFolded-reverse (tools ts ∷ a) b (n, f, h) k e =
    IsFolded-reverse a (tools ts ∷ b) h (n, e, k) (rw f refl)
IsFolded-reverse (user t at ∷ a) b h k e = IsFolded-reverse a (user t at ∷ b) h k (ground arith)
IsFolded-reverse (assistant t at ∷ a) b h k e =
    IsFolded-reverse a (assistant t at ∷ b) h k (ground arith)

-- The entries of a conversation count every call of a tool that its turns hold, once; no two entries of
-- calls stand next to each other, and none names a tool twice.
pub messages-IsFolded :
    (turns : List Turn)
    → (calls_counted (messages turns) ≡ calls_made turns) × IsFolded (messages turns)
unfolding messages calls_counted IsFolded is_tools
messages-IsFolded turns =
    let (e, h) = turns_counted turns [] tt in
    let out = with_turns turns [] in
    (calls_counted-reverse out [] ∙ omega (arith, e), IsFolded-reverse out [] h tt (ground arith))
