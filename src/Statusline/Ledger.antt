-- ===== src/Statusline/Ledger.antt =====
-- The rows of the ledger (internal/statusline/ledger.go): state keys and their styles, the age of a
-- state, and the entry that a task becomes. Times are nanoseconds, and `none` is the zero time.
use c_squad.Statusline.Width.{clean, truncate}
use c_squad.Base.{
  ℕ, ◌-◌, ◌/◌, ◌%◌, Bool, true, false, ◌&&◌, not, Option, none, some, List, [], ◌∷◌, ◌++◌, ◌==◌,
  ltb, leb, is_empty, if◌then◌else◌, Text, lit, text_eq, itoa, join, fields, replace_all,
}

-- One reading of a task's usage; times are milliseconds.
pub record Sample : Type 0 where
  pub at : ℕ
  pub fresh : ℕ
  pub known : Bool
  pub activity : ℕ

-- What a row's usage cell shows: the samples oldest first.
pub record Usage : Type 0 where
  pub samples : List Sample
  pub known : Bool
  pub total : ℕ
  pub activity : Option ℕ

-- One row of the ledger. `usage` is `none` where the source has no usage cell.
pub record Task : Type 0 where
  pub id : ℕ
  pub mark : Text
  pub title : Text
  pub state : Text
  pub text : Text
  pub note : Text
  pub since : Option ℕ
  pub usage : Option Usage
  pub stale : Bool

pub record Style : Type 0 where
  pub glyph : Text
  pub rgb : Text
  pub rank : ℕ
  pub urgent : Bool
  pub faint : Bool
  pub text : Text
  pub bold : Bool

abbrev pub amber : Text
unfolding lit
amber = lit "230;166;20"

red : Text
unfolding lit
red = lit "232;76;82"

green : Text
unfolding lit
green = lit "46;166;98"

violet : Text
unfolding lit
violet = lit "146;110;234"

orange : Text
unfolding lit
orange = lit "232;124;60"

cyan : Text
unfolding lit
cyan = lit "22;166;196"

blue : Text
unfolding lit
blue = lit "64;140;232"

gray : Text
unfolding lit
gray = lit "138;143;152"

-- A style of a glyph, which takes one character.
abbrev styled : ℕ → Text → ℕ → Bool → Bool → Text → Bool → Style
styled glyph rgb rank urgent faint text bold = record {
  glyph = glyph ∷ [];
  rgb = rgb;
  rank = rank;
  urgent = urgent;
  faint = faint;
  text = text;
  bold = bold;
}

-- The table of styles, looked up by the state's key.
find_style : Text → Option Style
unfolding red green violet orange cyan blue gray
find_style k =
    if text_eq k (lit "needs_input")
    then some (styled 0x25c6 amber 0 true false (lit "needs input") false)
    else if text_eq k (lit "needs_you")
    then some (styled 0x25c6 amber 0 true false (lit "needs you") false)
    else if text_eq k (lit "failed")
    then some (styled 0x2717 red 1 false false (lit "failed") false)
    else if text_eq k (lit "review")
    then some (styled 0x2713 green 1 false false (lit "done") true)
    else if text_eq k (lit "ready")
    then some (styled 0x2713 green 2 false false (lit "ready") false)
    else if text_eq k (lit "done")
    then some (styled 0x2713 green 2 false false (lit "done") false)
    else if text_eq k (lit "merging")
    then some (styled 0x21e1 violet 3 false false (lit "merging") false)
    else if text_eq k (lit "fixing")
    then some (styled 0x25d1 orange 3 false false (lit "fixing") false)
    else if text_eq k (lit "checking")
    then some (styled 0x25d0 cyan 3 false false (lit "checking") false)
    else if text_eq k (lit "working")
    then some (styled 0x25cf blue 3 false false (lit "working") false)
    else if text_eq k (lit "idle")
    then some (styled 0x25c7 gray 4 false true (lit "idle") false)
    else if text_eq k (lit "waiting")
    then some (styled 0x25cc gray 5 false true (lit "waiting") false)
    else if text_eq k (lit "stopped")
    then some (styled 0x25a0 gray 5 false true (lit "stopped") false)
    else if text_eq k (lit "gone")
    then some (styled 0x25a1 gray 5 false true (lit "gone") false)
    else none

-- An unknown key ranks with idle.
style_or : Text → Option Style → Style
unfolding gray
style_or key (some s) = s
style_or key none = styled 0x25c7 gray 4 false true (replace_all key b'_' (lit " ")) false

unfoldable pub style_of : Text → Style
unfolding find_style style_or
style_of key = style_or key (find_style key)

-- now, 42m, 1h05m, 12h: the minutes since a time. A time to come is now, as `-` stops at 0.
age_text : ℕ → Text
age_text m =
    if ltb m 1
    then lit "now"
    else if ltb m 60
    then itoa m ++ lit "m"
    else if leb 10 (m / 60)
    then itoa (m / 60) ++ lit "h"
    else itoa (m / 60) ++ lit "h" ++ itoa (m % 60 / 10) ++ itoa (m % 60 % 10) ++ lit "m"

unfoldable pub age : Option ℕ → ℕ → Text
unfolding age_text
age none now = []
age (some since) now = age_text ((now - since) / 60000000000)

-- The text before the first ": ", if there is one.
before_colon : Text → Option Text
before_colon [] = none
before_colon (c ∷ []) = none
before_colon (c ∷ d ∷ s) =
    let rest = before_colon (d ∷ s) in
    if c == b':' && d == 32
    then some []
    else elim rest [ none ↦ none | some head ↦ some (c ∷ head) ]

problem_part : Text → Text
unfolding before_colon
problem_part note = elim (before_colon note) [
  | none ↦ note
  | some head ↦ if is_empty head then note else head
]

-- The start of a note, up to its first ": ".
unfoldable pub short_reason : Text → ℕ → Text
unfolding problem_part
short_reason note max = truncate (problem_part (join (fields (clean note)) (lit " "))) max

pub record Entry : Type 0 where
  pub task : Task
  pub style : Style
  pub title : Text
  pub state : Text

abbrev reason_max : ℕ
reason_max = 24

state_text : Task → Style → Text
state_text t st =
    let shown = clean (if is_empty t.text then st.text else t.text) in
    let stale = if t.stale then shown ++ lit "?" else shown in
    let reason = short_reason t.note reason_max in
    if text_eq t.state (lit "needs_you")
      && not (is_empty t.note)
      && is_empty t.text
      && not (is_empty reason)
    then stale ++ lit " · " ++ reason
    else stale

unfoldable pub new_entry : Task → Entry
unfolding state_text
new_entry t = record {
  task = t;
  style = style_of t.state;
  title = clean t.title;
  state = state_text t (style_of t.state);
}

unfoldable pub entry_label : Entry → Text
entry_label e = lit "T" ++ itoa e.task.id
