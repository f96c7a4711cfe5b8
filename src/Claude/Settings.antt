-- ===== src/Claude/Settings.antt =====
-- The engine arguments of a Claude task and its settings (`CheckArgs` to `taskSettings` of
-- internal/engine/claude/launch.go). What the files hold, what git answers and what the JSON decoder
-- makes of a text is a parameter.
use c_squad.Json.{Json, object, Members}
use c_squad.Gitx.Kinds.{Fallible, ok, err, and_then}
use c_squad.Claude.Paths.{is_abs, join_path}
use c_squad.Base.{
  ℕ, zero, suc, ◌+◌, Bool, true, false, ◌&&◌, not, Option, none, some, List, [], ◌∷◌, ◌++◌, any,
  drop, if◌then◌else◌, Text, lit, text_eq, has_prefix, cut, trim_space,
}

-- What the engine is told by the system: `os.ReadFile`, `json.Unmarshal` into an `any`, the output of
-- `git rev-parse --show-toplevel` in a directory, the path without symbolic links, and the engine's
-- own configuration: its directory and the environment as KEY=VALUE.
pub record Machine : Type 0 where
  pub read_file : Text → Fallible Text
  pub decode : Text → Option Json
  pub top_level : Text → Fallible Text
  pub canonical : Text → Text
  pub claude_dir : Text
  pub env : List Text

-- The reserved arguments, which csquad sets itself.
abbrev pub reserved : List Text
reserved =
    lit "--bg"
    ∷ lit "--background"
    ∷ lit "--name"
    ∷ lit "-n"
    ∷ lit "--append-system-prompt"
    ∷ lit "--print"
    ∷ lit "-p"
    ∷ lit "--resume"
    ∷ lit "-r"
    ∷ lit "--continue"
    ∷ lit "-c"
    ∷ lit "--fork-session"
    ∷ []

unfoldable pub flag_name : Text → Text
flag_name a = (cut a b'=').0

-- Where `--settings` stands among the arguments, if it does: its index, its value, and whether it is
-- written --settings=VALUE.
pub record Found : Type 0 where
  pub index : ℕ
  pub value : Text
  pub inline : Bool

unfoldable pub moved_on : Fallible (Option Found) → Fallible (Option Found)
moved_on (ok none) = ok none
moved_on (ok (some f)) = ok (some (record f { index = suc f.index }))
moved_on (err e) = err e

unfoldable pub found_next : List Text → Fallible (Option Found)
found_next [] = err (lit "--settings needs a value")
found_next (v ∷ _) = ok (some (record { index = 0; value = v; inline = false }))

-- The length of "--settings=".
unfoldable pub find_settings : List Text → Fallible (Option Found)
unfolding moved_on found_next
find_settings [] = ok none
find_settings (a ∷ args) =
    let rest = find_settings args in
    if text_eq a (lit "--settings")
    then found_next args
    else if has_prefix a (lit "--settings=")
    then ok (some (record { index = 0; value = drop 11 a; inline = true }))
    else moved_on rest

unfoldable pub looks_inline : Text → Bool
looks_inline v = has_prefix (trim_space v) (lit "{")

decoded_object : Text → Option Json → Fallible Members
decoded_object value (some (object m)) = ok m
decoded_object value _ = err (lit "--settings " ++ value ++ lit " is not a JSON object")

settings_data : Machine → Text → Fallible Text
settings_data c value = if looks_inline value then ok value else elim (c.read_file value) [
  | ok b ↦ ok b
  | err e ↦ err (lit "cannot read --settings " ++ value ++ lit ": " ++ e)
]

unfoldable pub read_settings : Machine → Text → Fallible Members
unfolding decoded_object settings_data
read_settings c value = and_then (settings_data c value) (λ b. decoded_object value (c.decode b))

-- A reserved argument among the arguments: the first.
first_reserved : List Text → Option Text
first_reserved [] = none
first_reserved (a ∷ args) =
    let rest = first_reserved args in
    if any (λ r. text_eq (flag_name a) r) reserved then some a else rest

-- `args[i] = v`
unfoldable pub replaced : List Text → ℕ → Text → List Text
replaced [] i v = []
replaced (a ∷ args) zero v = v ∷ args
replaced (a ∷ args) (suc i) v = a ∷ replaced args i v

unfoldable pub absolute_settings : Text → List Text → Found → List Text × Text
absolute_settings cwd args f =
    let value = join_path (cwd ∷ f.value ∷ []) in
    if not (looks_inline f.value) && not (is_abs f.value)
    then (
      if f.inline
          then replaced args f.index (lit "--settings=" ++ value)
          else replaced args (f.index + 1) value,
      value,
    )
    else (args, f.value)

checked_settings : Machine → Text → List Text → Option Found → Fallible (List Text)
unfolding absolute_settings
checked_settings c cwd args none = ok args
checked_settings c cwd args (some f) =
    let (out, value) = absolute_settings cwd args f in
    and_then (read_settings c value) (λ _. ok out)

-- The arguments a task is stored with, or why they are refused.
unfoldable pub check_args : Machine → List Text → Text → Fallible (List Text)
unfolding first_reserved checked_settings
check_args c args cwd = elim (first_reserved args) [
  | some a ↦ err (a ++ lit " is set by csquad launch and cannot be passed after --")
  | none ↦ and_then (find_settings args) (λ f. checked_settings c cwd args f)
]
