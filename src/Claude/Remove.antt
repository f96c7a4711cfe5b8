-- ===== src/Claude/Remove.antt =====
-- `Remove` of internal/engine/claude/claude.go: `claude rm`, and again with the value that it asks for
-- where the session's worktree was verified. What the list and the command answer is a parameter.
use c_squad.Gitx.Kinds.{Fallible, ok, err}
use c_squad.Claude.Sessions.{Session, matched}
use c_squad.Base.{
  ℕ, Bool, true, false, ◌||◌, not, Option, none, some, List, [], ◌∷◌, ◌++◌, is_empty, any, drop,
  length, ◌==◌, if◌then◌else◌, Text, lit, text_eq, has_prefix, cut, join, ◌≡◌, refl,
}

-- What `claude agents` answers: the list, no answer in time, or another error.
pub data Listed : Type 0 where
  listed : List Session → Listed
  not_answering : Text → Listed
  other_error : Text → Listed

-- `run` is the output of the claude command after the commands before it, and whether it failed;
-- `canonical` is the path without symbolic links.
pub record Agent : Type 0 where
  pub list : Listed
  pub run : List (List Text) → List Text → Text × Bool
  pub canonical : Text → Text

-- A character of a token: `[^\s"'``]`
is_token : ℕ → Bool
is_token c =
    not (c == 32 || c == 9 || c == 10 || c == 12 || c == 13 || c == b'"' || c == b'\'' || c == b'`')

token : Text → Text
unfolding is_token
token [] = []
token (c ∷ s) = if is_token c then c ∷ token s else []

some_token : Text → Option Text
unfolding token
some_token s = if is_empty (token s) then none else some (token s)

-- `["']?` and a token.
quoted_token : Text → Option Text
unfolding some_token
quoted_token [] = none
quoted_token (c ∷ s) = if c == b'"' || c == b'\'' then some_token s else some_token (c ∷ s)

-- `[ =]+`, as many as leave a token.
token_after : Text → Option Text
unfolding quoted_token
token_after [] = none
token_after (c ∷ s) =
    let later = token_after s in
    if c == 32 || c == b'=' then elim later [ some t ↦ some t | none ↦ quoted_token s ] else none

-- The value after the first occurrence of a flag that has one.
unfoldable pub flag_token : Text → Text → Option Text
unfolding token_after
flag_token flag [] = none
flag_token flag (c ∷ s) =
    let rest = flag_token flag s in
    elim (if has_prefix (c ∷ s) flag then token_after (drop (length flag) (c ∷ s)) else none) [
      | some t ↦ some t
      | none ↦ rest
    ]

flag_args : Text → Text → List Text
flag_args flag out = elim (flag_token flag out) [ none ↦ [] | some t ↦ flag ∷ t ∷ [] ]

-- What a refusal of `claude rm` asks for.
unfoldable pub asked_args : Text → List Text
unfolding flag_args
asked_args out =
    flag_args (lit "--discard-unpushed") out ++ flag_args (lit "--force-remove-worktree") out

unfoldable pub contains_path : Agent → List Text → Text → Bool
contains_path a paths p = any (λ q. text_eq (a.canonical q) (a.canonical p)) paths

first_line : Text → Text
first_line s = (cut s 10).0

or_unknown : Text → Text
or_unknown s = if is_empty s then lit "(unknown)" else s

-- The commands that were run, and what is said.
abbrev pub Removed : Type 0
Removed = List (List Text) × Fallible Text

second_said : Text → List Text → Text × Bool → Fallible Text
second_said id extra (out, true) =
    err (lit "claude rm " ++ id ++ lit " " ++ join extra (lit " ") ++ lit " refused: " ++ out)
second_said id extra (out, false) = ok (
    lit "removed session "
    ++ id
    ++ lit " ("
    ++ join extra (lit " ")
    ++ lit ", its worktree was verified merged)")

-- After a refusal with this output.
unfoldable pub forced : Agent → Text → List Text → Text → Text → Removed
unfolding first_line or_unknown second_said
forced a id merged cwd out =
    let extra = asked_args out in
    let first = lit "rm" ∷ id ∷ [] in
    if is_empty extra
    then (first ∷ [], err (lit "claude rm " ++ id ++ lit " refused: " ++ out))
    else if is_empty cwd || not (contains_path a merged cwd)
    then (
      first ∷ [],
      err (
          lit "claude rm "
          ++ id
          ++ lit " refused ("
          ++ first_line out
          ++ lit "); its worktree "
          ++ or_unknown cwd
          ++ lit " was not verified merged, so the session is left"),
    )
    else (first ∷ (first ++ extra) ∷ [], second_said id extra (a.run (first ∷ []) (first ++ extra)))

unfoldable pub remove_at : Agent → Text → List Text → Text → Removed
remove_at a id merged cwd =
    let (out, refused) = a.run [] (lit "rm" ∷ id ∷ []) in
    if refused
    then forced a id merged cwd out
    else ((lit "rm" ∷ id ∷ []) ∷ [], ok (lit "removed session " ++ id))

-- The session of an id, removed; `merged` are the worktrees that were verified and removed.
unfoldable pub remove_listed : Agent → Text → List Text → Option Session → Removed
remove_listed a id merged none = ([], ok (lit "session " ++ id ++ lit " was already removed"))
remove_listed a id merged (some s) = remove_at a id merged s.cwd

unfoldable pub remove_answered : Agent → Text → List Text → Listed → Removed
remove_answered a id merged (listed list) = remove_listed a id merged (matched list id)
remove_answered a id merged (not_answering e) = ([], err e)
remove_answered a id merged (other_error _) = remove_at a id merged []

unfoldable pub remove : Agent → Text → List Text → Removed
remove a id merged = remove_answered a id merged a.list

token_test :
    asked_args (lit "use --discard-unpushed='ab1' to go on")
    ≡ lit "--discard-unpushed" ∷ lit "ab1" ∷ []
unfolding asked_args flag_token has_prefix lit
token_test = refl
