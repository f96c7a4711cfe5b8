-- ===== src/Samples/EngineRuns.antt =====
-- Claude sessions and Codex threads, and the theorems applied to them.
use c_squad.Json.{Json, null, string, no_members, member_at}
use c_squad.Gitx.Kinds.{ok, err}
use c_squad.Claude.Settings.{Machine}
use c_squad.Claude.Provider.{ambient_settings, is_chosen, task_settings}
use c_squad.Claude.Forwarded.{env_value, given, or_else, task_settings-IsAllOrNone}
use c_squad.Claude.Start.{System}
use c_squad.Claude.Session.{StartSpec}
use c_squad.Claude.Remove.{Agent, listed, remove}
use c_squad.Claude.Verified.{IsVerified, remove-IsVerified}
use c_squad.Codex.Options.{
  Codec, parsed, no_options, parse_from, parse_next, read_flag, set_option, parse_options,
  print_options,
}
use c_squad.Codex.Config.{IsCodec}
use c_squad.Codex.Written.{parse_options-print_options}
use c_squad.Codex.Thread.{Item, Turn}
use c_squad.Codex.Conversation.{messages}
use c_squad.Codex.Folded.{calls_counted, calls_made, IsFolded, messages-IsFolded}
use c_squad.Base.{
  Bool, true, false, Option, none, some, List, [], ◌∷◌, All, Text, lit, text_eq, has_prefix, cut,
  trim_space, ◌==◌, if◌then◌else◌, ◌≡◌, refl, sym, ap, subst, ◌∙◌, if-then, if-else, Bool-cases,
  inl, inr,
}

-- A machine without settings files, where the session has a base URL.
abbrev machine : Machine
machine = record {
  read_file = err;
  decode = λ _. none;
  top_level = err;
  canonical = λ p. p;
  claude_dir = lit "/home/u/.claude";
  env = lit "ANTHROPIC_BASE_URL=http://x" ∷ lit "HOME=/home/u" ∷ [];
}

task_settings-IsAllOrNone_example :
    (is_chosen no_members (ambient_settings machine (lit "/w")) ≡ true
      → (member_at (task_settings machine no_members false (lit "/w")).0 (lit "env")
          ≡ member_at no_members (lit "env"))
        × ((task_settings machine no_members false (lit "/w")).1 ≡ []))
    × (is_chosen no_members (ambient_settings machine (lit "/w")) ≡ false
        → (k : Text)
        → env_value (task_settings machine no_members false (lit "/w")).0 k
          ≡ or_else (env_value no_members k) (given machine.env k))
    × ((k : Text)
        → text_eq (lit "worktree") k ≡ false
        → text_eq (lit "crossSessionInbound") k ≡ false
        → text_eq (lit "env") k ≡ false
        → member_at (task_settings machine no_members false (lit "/w")).0 k
          ≡ member_at no_members k)
task_settings-IsAllOrNone_example = task_settings-IsAllOrNone machine no_members false (lit "/w")

abbrev system : System
system = record {
  error_of = λ _ _. none;
  ran = λ _. (lit "backgrounded · 1a2b3c4d", none);
  encode = λ _. ok (lit "{}");
}

abbrev start_spec : StartSpec
start_spec = record {
  id = 12;
  title = lit "fix";
  cwd = lit "/w";
  model = [];
  prompt = lit "Fix it.";
  rules = [];
  in_place = false;
  args = lit "--settings={}" ∷ lit "--verbose" ∷ [];
  stop_hook = [];
  fork = [];
}

-- `claude rm` refuses once, for commits that were not pushed.
abbrev agent : Agent
agent = record {
  list = listed (
      record {
        id = lit "1a2b3c4d";
        session_id = [];
        status = lit "idle";
        state = lit "done";
        tempo = [];
        waiting_for = [];
        cwd = lit "/w/t12";
      }
      ∷ []);
  run = λ log _. elim log [
    | [] ↦ (lit "not pushed: pass --discard-unpushed ab12", true)
    | _ ∷ _ ↦ ([], false)
  ];
  canonical = λ p. p;
}

remove-IsVerified_example :
    All
      (IsVerified agent (lit "1a2b3c4d") (lit "/w/t12" ∷ []))
      (remove agent (lit "1a2b3c4d") (lit "/w/t12" ∷ [])).0
remove-IsVerified_example = remove-IsVerified agent (lit "1a2b3c4d") (lit "/w/t12" ∷ [])

-- JSON with strings only, written with a quote before them.
unquoted : Text → Option Json
unquoted [] = none
unquoted (c ∷ s) = if c == b'"' then some (string s) else none

with_quote : Json → Option Text
with_quote (string s) = some (b'"' ∷ s)
with_quote _ = none

is_quoted : Text → Bool
is_quoted [] = false
is_quoted (c ∷ s) = c == b'"'

abbrev codec : Codec
codec = record { decode = unquoted; encode = with_quote; is_valid = is_quoted }

or_null : Option Json → Json
or_null none = null
or_null (some v) = v

unquoted-with_quote :
    (t : Text) (v : Json)
    → unquoted t ≡ some v
    → (u : Text) × (with_quote v ≡ some u) × (unquoted u ≡ some v)
unfolding unquoted with_quote or_null
unquoted-with_quote [] v e = cc
unquoted-with_quote (c ∷ s) v e = elim (Bool-cases (c == b'"')) [
  | inl f ↦
      let same : string s ≡ v = ap or_null (sym (if-then _ (some (string s)) none f) ∙ e) in
      subst (λ w. (u : Text) × (with_quote w ≡ some u) × (unquoted u ≡ some w)) same
        (b'"' ∷ s, refl, refl)
  | inr f ↦ absurd (none-some (sym (if-else _ (some (string s)) none f) ∙ e))
]
  where
    none-some : none ≡ some v → ⊥
    none-some h = cc

not_quoted : (s : Text) → is_quoted s ≡ false → unquoted s ≡ none
unfolding unquoted is_quoted
not_quoted [] e = refl
not_quoted (c ∷ s) e = rw e refl

codec-IsCodec : IsCodec codec
unfolding IsCodec unquoted with_quote
codec-IsCodec = (unquoted-with_quote, λ s. (b'"' ∷ s, refl, refl), not_quoted)

parse_options-print_options_example :
    parse_options codec (print_options codec (record no_options { model = lit "gpt" }))
    ≡ parsed (record no_options { model = lit "gpt" })
unfolding parse_options parse_from parse_next read_flag set_option lit has_prefix cut text_eq
    trim_space
parse_options-print_options_example =
    parse_options-print_options codec (lit "-m" ∷ lit "gpt" ∷ [])
      (record no_options { model = lit "gpt" }) codec-IsCodec refl

abbrev call : Item
call = record { kind = lit "commandExecution"; text = []; content = []; questions = 0; tool = [] }

abbrev turns : List Turn
turns =
    record {
      id = [];
      status = lit "completed";
      items =
          call ∷ record call { kind = lit "agentMessage"; text = lit "Done." } ∷ call ∷ call ∷ [];
      started_at = none;
    }
    ∷ []

messages-IsFolded_example :
    (calls_counted (messages turns) ≡ calls_made turns) × IsFolded (messages turns)
messages-IsFolded_example = messages-IsFolded turns
