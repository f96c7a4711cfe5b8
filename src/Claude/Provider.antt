-- ===== src/Claude/Provider.antt =====
-- The settings of a task (`taskSettings` of internal/engine/claude/launch.go): the user's, and what
-- csquad adds to them.
use c_squad.Json.{Json, string, object, Members, no_members, member_at, put, has_key, keys}
use c_squad.Gitx.Kinds.{Fallible, ok, err}
use c_squad.Gitx.Texts.{cut_at}
use c_squad.Claude.Paths.{join_path}
use c_squad.Claude.Settings.{Machine}
use c_squad.Base.{
  ℕ, Bool, true, false, ◌&&◌, ◌||◌, not, Option, none, some, List, [], ◌∷◌, ◌++◌, any, all, drop,
  length, is_empty, leb, ltb, ◌==◌, if◌then◌else◌, Text, lit, text_eq, has_prefix, trim_space,
}

-- `m[key].(map[string]any)`, empty where there is none.
unfoldable pub object_of : Members → Text → Members
object_of m key = elim (member_at m key) [ some (object o) ↦ o | _ ↦ no_members ]

json_object : Option Json → Option Members
json_object (some (object m)) = some m
json_object _ = none

-- A file without a JSON object is passed over; `null` is a nil map.
read_json_object : Machine → Text → Option Members
unfolding json_object
read_json_object c file = elim (c.read_file file) [ ok b ↦ json_object (c.decode b) | err _ ↦ none ]

unfoldable pub read_all : Machine → List Text → List Members
unfolding read_json_object
read_all c [] = []
read_all c (f ∷ files) =
    let rest = read_all c files in elim (read_json_object c f) [ some m ↦ m ∷ rest | none ↦ rest ]

top_dirs : Machine → Text → Fallible Text → List Text
top_dirs c cwd (err _) = cwd ∷ []
top_dirs c cwd (ok out) =
    let top = c.canonical (trim_space out) in
    if not (is_empty top) && not (text_eq top (c.canonical cwd)) then cwd ∷ top ∷ [] else cwd ∷ []

settings_files : List Text → List Text
settings_files [] = []
settings_files (d ∷ dirs) =
    join_path (d ∷ lit ".claude" ∷ lit "settings.json" ∷ [])
    ∷ join_path (d ∷ lit ".claude" ∷ lit "settings.local.json" ∷ [])
    ∷ settings_files dirs

-- The settings that Claude Code reads for a session in a directory.
unfoldable pub ambient_settings : Machine → Text → List Members
unfolding top_dirs settings_files
ambient_settings c cwd =
    let dirs = top_dirs c cwd (c.top_level cwd) in
    read_all c (join_path (c.claude_dir ∷ lit "settings.json" ∷ []) ∷ settings_files dirs)

is_name_char : ℕ → Bool
is_name_char c = (leb b'A' c && leb c b'Z') || (leb b'0' c && leb c b'9') || c == b'_'

-- A prefix and one more character at least, all of them capitals, digits or _.
begins_with : Text → Text → Bool
unfolding is_name_char
begins_with k prefix =
    let rest = drop (length prefix) k in
    has_prefix k prefix && not (is_empty rest) && all is_name_char rest

-- A variable of the launching session that picks a provider or belongs to it.
unfoldable pub is_provider_env : Text → Bool
unfolding begins_with
is_provider_env k =
    begins_with k (lit "ANTHROPIC_")
    || begins_with k (lit "CLAUDE_CODE_USE_")
    || text_eq k (lit "CLAUDE_CODE_OAUTH_TOKEN")
    || text_eq k (lit "CLAUDE_CODE_SUBAGENT_MODEL")

-- A key of settings that picks a provider or its credentials.
unfoldable pub is_provider_choice : Text → Bool
unfolding begins_with
is_provider_choice k =
    text_eq k (lit "ANTHROPIC_BASE_URL")
    || text_eq k (lit "ANTHROPIC_AUTH_TOKEN")
    || text_eq k (lit "ANTHROPIC_API_KEY")
    || begins_with k (lit "CLAUDE_CODE_USE_")
    || text_eq k (lit "CLAUDE_CODE_OAUTH_TOKEN")

has_helper : Option Json → Bool
has_helper (some (string h)) = not (is_empty h)
has_helper _ = false

-- The settings of a nil map are empty ones here, which choose nothing either.
unfoldable pub chooses_provider : Members → Bool
unfolding has_helper
chooses_provider s =
    has_helper (member_at s (lit "apiKeyHelper"))
    || any is_provider_choice (keys (object_of s (lit "env")))

-- The worktree settings: where the session works, and what its branch begins at.
unfoldable pub with_worktree : Members → List Members → Bool → Members → Members
with_worktree user ambient in_place settings =
    let wt = object_of user (lit "worktree") in
    let chosen = any (λ a. has_key (object_of a (lit "worktree")) (lit "baseRef")) ambient in
    if in_place
    then put settings (lit "worktree") (object (put wt (lit "bgIsolation") (string (lit "none"))))
    else if has_key wt (lit "baseRef") || chosen
    then settings
    else put settings (lit "worktree") (object (put wt (lit "baseRef") (string (lit "head"))))

unfoldable pub with_inbound : Members → Members → Members
with_inbound user settings =
    if has_key user (lit "crossSessionInbound")
    then settings
    else put settings (lit "crossSessionInbound") (string (lit "accept"))

unfoldable pub forwards : Members → Text × Text → Bool
forwards own (k, v) = is_provider_env k && not (is_empty v) && not (has_key own k)

-- The loop over the environment: the variables so far and the keys that were forwarded.
unfoldable pub forward_env : Members → List Text → Members → List Text → Members × List Text
forward_env own [] vars keys = (vars, keys)
forward_env own (kv ∷ env) vars keys =
    let (k, v) = cut_at kv b'=' in
    let b = forwards own (k, v) in
    forward_env own env (if b then put vars k (string v) else vars)
      (if b then keys ++ k ∷ [] else keys)

unfoldable pub is_chosen : Members → List Members → Bool
is_chosen user ambient = chooses_provider user || any chooses_provider ambient

unfoldable pub with_forwarded : Members → Members × List Text → Members × List Text
with_forwarded settings (vars, keys) =
    if is_empty keys then (settings, []) else (put settings (lit "env") (object vars), keys)

unfoldable pub with_env : Members → List Members → List Text → Members → Members × List Text
unfolding with_forwarded
with_env user ambient env settings =
    let own = object_of user (lit "env") in
    if is_chosen user ambient
    then (settings, [])
    else with_forwarded settings (forward_env own env own [])

text_before : Text → Text → Bool
text_before [] t = true
text_before (a ∷ s) [] = false
text_before (a ∷ s) (b ∷ t) = let rest = text_before s t in ltb a b || (a == b && rest)

sorted_in : Text → List Text → List Text
unfolding text_before
sorted_in s [] = s ∷ []
sorted_in s (t ∷ ts) = let rest = sorted_in s ts in if text_before s t then s ∷ t ∷ ts else t ∷ rest

-- sort.Strings
unfoldable pub sort_texts : List Text → List Text
unfolding sorted_in
sort_texts [] = []
sort_texts (s ∷ ts) = sorted_in s (sort_texts ts)

-- The settings of a task, and the keys that were forwarded to it.
unfoldable pub task_settings : Machine → Members → Bool → Text → Members × List Text
unfolding sort_texts
task_settings c user in_place cwd =
    let ambient = ambient_settings c cwd in
    let base = with_inbound user (with_worktree user ambient in_place user) in
    let (settings, forwarded) = with_env user ambient c.env base in (settings, sort_texts forwarded)
