-- ===== src/Statusline/Usage.antt =====
-- The usage cell of a row (internal/statusline/usage.go): readings, counts in a few cells, and the parts
-- that a row shows. Files that keep readings are left out.
use c_squad.Statusline.Ledger.{Sample, Usage, Entry, age, amber}
use c_squad.Statusline.Lines.{Segment, Screen, plain, fg}
use c_squad.Base.{
  ℕ, ◌+◌, ◌-◌, Bool, false, ◌&&◌, ◌||◌, not, Option, none, some, List, [], ◌∷◌, ◌++◌, ◌==◌, ltb,
  leb, length, drop, if◌then◌else◌, Text, lit, text_eq, itoa,
}

-- Appends a reading, unless the newest one is less than eight seconds older, and keeps the newest two.
last_at : List Sample → Option ℕ
last_at [] = none
last_at (s ∷ []) = some s.at
last_at (s ∷ t ∷ l) = last_at (t ∷ l)

too_soon : Option ℕ → ℕ → Bool
too_soon none at = false
too_soon (some last) at = ltb at (last + 8000)

unfoldable pub add_sample : List Sample → Sample → List Sample
unfolding last_at too_soon
add_sample l s =
    if too_soon (last_at l) s.at then l else drop (length (l ++ s ∷ []) - 2) (l ++ s ∷ [])

-- A change between two readings: of known size, or `unsized`. The time between them is read by nothing
-- that is modelled and is left out.
pub data Delta : Type 0 where
  unsized : Delta
  tokens_more : ℕ → Delta

unfoldable pub change_of : Sample → Sample → Delta
change_of a b =
    if a.known && b.known && ltb a.fresh b.fresh
    then tokens_more (b.fresh - a.fresh)
    else if not (a.known && b.known) && ltb a.activity b.activity
    then unsized
    else tokens_more 0

-- The change between the last two readings.
unfoldable pub change : List Sample → Option Delta
unfolding change_of
change [] = none
change (a ∷ []) = none
change (a ∷ b ∷ []) = some (change_of a b)
change (a ∷ b ∷ c ∷ l) = change (b ∷ c ∷ l)

-- A count in four cells: 622, 4.1k, 326k, 1.2M, 12M. `fixed d n unit` is `fmt.Sprintf("%.<d>f", n / unit)`.
unfoldable pub tokens : (ℕ → ℕ → ℕ → Text) → ℕ → Text
tokens fixed n =
    if ltb n 1000
    then itoa n
    else if ltb n 9950
    then fixed 1 n 1000 ++ lit "k"
    else if ltb n 999500
    then fixed 0 n 1000 ++ lit "k"
    else if ltb n 9950000
    then fixed 1 n 1000000 ++ lit "M"
    else fixed 0 n 1000000 ++ lit "M"

unfoldable pub change_text : (ℕ → ℕ → ℕ → Text) → Delta → Text
change_text fixed unsized = lit "+?"
change_text fixed (tokens_more n) = lit "+" ++ tokens fixed n

unfoldable pub is_working : Text → Bool
is_working k =
    text_eq k (lit "working")
    || text_eq k (lit "checking")
    || text_eq k (lit "fixing")
    || text_eq k (lit "merging")

-- Whether the row shows a usage cell, and with what.
unfoldable pub shown_usage : Entry → Option Usage
shown_usage e = elim e.task.usage [
  | none ↦ none
  | some u ↦
      if not e.style.urgent && not (text_eq e.task.state (lit "waiting")) then some u else none
]

unfoldable pub change_shown : Text → Option Usage → Bool
change_shown state none = false
change_shown state (some u) = is_working state

unfoldable pub shows_change : Entry → Bool
unfolding change_shown
shows_change e = change_shown e.task.state (shown_usage e)

unfoldable pub total_part : Screen → Entry → Segment
total_part p e = elim (shown_usage e) [
  | none ↦ plain []
  | some u ↦ record {
    text = if u.known then tokens p.fixed u.total else lit "?";
    sgr = if is_working e.task.state then [] else lit "2";
  }
]

stalled : Screen → Entry → Option ℕ → Bool
stalled p e none = false
stalled p e (some activity) =
    not (text_eq e.task.state (lit "checking")) && leb (activity + 120000000000) p.now

delta_part : Screen → Entry → Option Delta → Segment
delta_part p e none = plain []
delta_part p e (some unsized) = fg p e.style.rgb (change_text p.fixed unsized)
delta_part p e (some (tokens_more n)) =
    if n == 0
    then record { text = lit "+0"; sgr = lit "2" }
    else fg p e.style.rgb (change_text p.fixed (tokens_more n))

unfoldable pub change_of_row : Screen → Entry → Option Usage → Segment
unfolding stalled delta_part
change_of_row p e none = plain []
change_of_row p e (some u) =
    if not (is_working e.task.state)
    then plain []
    else if stalled p e u.activity
    then fg p amber (lit "idle " ++ age u.activity p.now)
    else delta_part p e (change u.samples)

-- What follows the total of a working row.
unfoldable pub change_part : Screen → Entry → Segment
unfolding change_of_row
change_part p e = change_of_row p e (shown_usage e)
