-- ===== src/Claude/Private.antt =====
-- What starting or queueing a session writes, and what stands on the command line.
use c_squad.Json.{Json}
use c_squad.Claude.Settings.{Found}
use c_squad.Claude.Start.{
  Action, make_dir, write_file, set_mode, rename, remove_file, run_claude, without,
}
use c_squad.Claude.Session.{StartSpec, command_line}
use c_squad.Base.{
  ℕ, ◌+◌, ◌≤◌, Option, none, some, List, [], ◌∷◌, drop, All, ◌≡◌, if◌then◌else◌, Text, lit, text_eq,
  has_prefix,
}

-- The arguments without the first `--settings` and its value.
unfoldable pub without_settings : List Text → List Text
without_settings [] = []
without_settings (a ∷ args) =
    let rest = without_settings args in
    if text_eq a (lit "--settings")
    then drop 1 args
    else if has_prefix a (lit "--settings=")
    then args
    else a ∷ rest

-- A directory is made for its owner only, as is a file, and the claude command is the one of the task
-- in its directory, with the arguments that are left.
unfoldable pub IsPrivate : Text → Text → StartSpec → Action → Type 0
IsPrivate mode home spec (make_dir _ m) = m ≡ 700
IsPrivate mode home spec (write_file _ _ m) = m ≡ 600
IsPrivate mode home spec (set_mode _ m) = m ≡ 600
IsPrivate mode home spec (rename _ _) = Unit
IsPrivate mode home spec (remove_file _) = Unit
IsPrivate mode home spec (run_claude dir args) =
    (dir ≡ spec.cwd) × (args ≡ command_line mode home spec (without_settings spec.args))

is_command : Action → ℕ
is_command (run_claude _ _) = 1
is_command _ = 0

-- How often the claude command was run.
unfoldable pub commands : List Action → ℕ
unfolding is_command
commands [] = 0
commands (a ∷ log) = is_command a + commands log

module _ (mode home : Text) (spec : StartSpec) where
  -- All was private so far, and the command was run at most `n` times.
  unfoldable Kept : ℕ → List Action → Type 0
  Kept n log = All (IsPrivate mode home spec) log × (commands log ≤ n)

-- What is left of the arguments once the settings were found in them.
left_by : List Text → Option Found → List Text
left_by args none = args
left_by args (some f) = without args f.index (if f.inline then 1 else 2)
