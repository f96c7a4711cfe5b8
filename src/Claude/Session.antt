-- ===== src/Claude/Session.antt =====
-- `Start` of internal/engine/claude/launch.go: a session is started with the merged settings in a file,
-- and what was written goes again if it does not start.
use c_squad.Json.{object, Members}
use c_squad.Gitx.Kinds.{Fallible, ok, err}
use c_squad.Gitx.Texts.{split}
use c_squad.Claude.Settings.{Machine, flag_name}
use c_squad.Claude.Provider.{task_settings}
use c_squad.Claude.Start.{
  Action, make_dir, write_file, remove_file, run_claude, System, After, and_next, perform, dir_path,
  write_private, settings_file, prompt_file, Given, given_settings, provider_note, with_stop_hook,
}
use c_squad.Base.{
  ℕ, ◌+◌, Bool, true, false, ◌&&◌, ◌||◌, not, Option, none, some, List, [], ◌∷◌, ◌++◌, any, all,
  drop, length, is_empty, leb, ltb, ◌==◌, if◌then◌else◌, Text, lit, text_eq, has_prefix, itoa, ◌≡◌,
  refl,
}

-- `StartSpec`; this engine reads no schema.
pub record StartSpec : Type 0 where
  pub id : ℕ
  pub title : Text
  pub cwd : Text
  pub model : Text
  pub prompt : Text
  pub rules : Text
  pub in_place : Bool
  pub args : List Text
  pub stop_hook : Text
  pub fork : Text

pub record Started : Type 0 where
  pub session_id : Text
  pub notes : List Text

-- "T12 · title"
unfoldable pub spec_name : StartSpec → Text
spec_name s = b'T' ∷ itoa s.id ++ lit " · " ++ s.title

is_hex : ℕ → Bool
is_hex c = (leb b'0' c && leb c b'9') || (leb b'a' c && leb c b'f')

-- Whether these texts are hexadecimal numbers of these lengths.
hex_parts : List ℕ → List Text → Bool
unfolding is_hex
hex_parts [] [] = true
hex_parts [] (_ ∷ _) = false
hex_parts (_ ∷ _) [] = false
hex_parts (n ∷ ns) (p ∷ ps) = length p == n && all is_hex p && hex_parts ns ps

-- A whole session UUID.
unfoldable pub is_full_id : Text → Bool
unfolding hex_parts
is_full_id id = hex_parts (8 ∷ 4 ∷ 4 ∷ 4 ∷ 12 ∷ []) (split id b'-')

is_blank : ℕ → Bool
is_blank c = c == 32 || c == 9 || c == 10 || c == 12 || c == 13

after_blanks : Text → Text
unfolding is_blank
after_blanks [] = []
after_blanks (c ∷ s) = if is_blank c then after_blanks s else c ∷ s

-- `\s+` at the beginning, and what follows it.
blanks : Text → Option Text
unfolding is_blank after_blanks
blanks [] = none
blanks (c ∷ s) = if is_blank c then some (after_blanks s) else none

hex_run : Text → Text
unfolding is_hex
hex_run [] = []
hex_run (c ∷ s) = if is_hex c then c ∷ hex_run s else []

-- `·\s+([0-9a-f]{6,})`
id_after_dot : Text → Option Text
unfolding blanks hex_run
id_after_dot [] = none
id_after_dot (c ∷ s) =
    if c == 0xb7
    then elim (blanks s) [
      | none ↦ none
      | some r ↦ if leb 6 (length (hex_run r)) then some (hex_run r) else none
    ]
    else none

-- `backgrounded\s+·\s+([0-9a-f]{6,})` at the beginning.
id_here : Text → Option Text
unfolding id_after_dot blanks
id_here s =
    if has_prefix s (lit "backgrounded")
    then elim (blanks (drop 12 s)) [ none ↦ none | some r ↦ id_after_dot r ]
    else none

-- The session id in what claude printed, the first.
unfoldable pub backgrounded : Text → Option Text
unfolding id_here
backgrounded [] = none
backgrounded (c ∷ s) = elim (id_here (c ∷ s)) [ some id ↦ some id | none ↦ backgrounded s ]

-- `len` of a text: its bytes in UTF-8.
unfoldable pub byte_length : Text → ℕ
byte_length [] = 0
byte_length (c ∷ s) =
    (if ltb c 0x80 then 1 else if ltb c 0x800 then 2 else if ltb c 0x10000 then 3 else 4)
    + byte_length s

-- Outside Windows.
abbrev pub max_inline_prompt : ℕ
max_inline_prompt = 60000

unfoldable pub is_large : StartSpec → Bool
is_large spec = ltb max_inline_prompt (byte_length spec.prompt)

-- The prompt of the command line.
unfoldable pub inline_prompt : Text → StartSpec → Text
inline_prompt home spec =
    if is_large spec
    then lit "Your full task prompt is too large to pass on the command line. Read all of "
      ++ prompt_file home spec.id
      ++ lit
          " first (in chunks with offset and limit if needed, until its end), then carry out the task it describes."
    else spec.prompt

unfoldable pub has_flag : List Text → List Text → Bool
has_flag args flags = any (λ a. any (λ f. text_eq (flag_name a) f) flags) args

unfoldable pub system_prompt : StartSpec → Text
system_prompt spec = spec.rules ++ lit "\nYour task ID is T" ++ itoa spec.id ++ lit ".\n"

-- The command line of a start: from the task, the engine's permission mode and the arguments that are
-- left when the settings are taken out of them.
unfoldable pub command_line : Text → Text → StartSpec → List Text → List Text
command_line mode home spec extra =
    (if is_empty spec.fork
      then lit "--bg" ∷ lit "--name" ∷ spec_name spec ∷ []
      else lit "--bg"
        ∷ lit "--resume"
        ∷ spec.fork
        ∷ lit "--fork-session"
        ∷ lit "--name"
        ∷ spec_name spec
        ∷ [])
    ++ (if not (is_empty mode)
          && not
              (has_flag extra (lit "--permission-mode" ∷ lit "--dangerously-skip-permissions" ∷ []))
        then lit "--permission-mode" ∷ mode ∷ []
        else [])
    ++ (if not (is_empty spec.model) && not (has_flag extra (lit "--model" ∷ []))
        then lit "--model" ∷ spec.model ∷ []
        else [])
    ++ extra
    ++ lit "--settings"
      ∷ settings_file home spec.id
      ∷ lit "--append-system-prompt"
      ∷ system_prompt spec
      ∷ lit "--"
      ∷ inline_prompt home spec
      ∷ []

-- A prompt that is too large is written to its file.
unfoldable pub write_prompt : System → Text → StartSpec → List Action → After (Unit {0})
write_prompt s home spec log =
    let file = prompt_file home spec.id in
    if is_large spec
    then and_next (perform s (make_dir (dir_path file) 700) log)
        (λ _ log1. perform s (write_file file (spec.prompt ++ 10 ∷ []) 600) log1)
    else (log, ok tt)

unfoldable pub names_file : Option Text → Text → Bool
names_file none file = false
names_file (some v) file = text_eq v file

-- What a start that failed takes back: a queued task's settings are kept for its retry. Errors are
-- ignored.
unfoldable pub take_back : System → Text → StartSpec → Given → List Action → List Action
unfolding names_file
take_back s home spec g log =
    let file = settings_file home spec.id in
    let log1 =
      if names_file g.named file
      then (write_private s file (object g.user) log).0
      else (perform s (remove_file file) log).0 in
    if is_large spec then (perform s (remove_file (prompt_file home spec.id)) log1).0 else log1

unfoldable pub launch_error : StartSpec → Text → Option Text → Text
launch_error spec out e =
    lit "launching "
    ++ spec_name spec
    ++ lit " failed:\n"
    ++ (elim e [ none ↦ out | some t ↦ if is_empty out then t else out ])

-- The id that was read from the output of a command that did not fail.
unfoldable pub started_id : Text → Option Text → Option Text
started_id out (some e) = none
started_id out none = backgrounded out

-- What follows the command: `said` is its output and its error.
unfoldable pub ended :
    System
    → Text
    → StartSpec
    → Given
    → List Text
    → Text × Option Text
    → List Action
    → Option Text
    → After Started
unfolding launch_error
ended s home spec g forwarded (out, e) log none =
    (take_back s home spec g log, err (launch_error spec out e))
ended s home spec g forwarded said log (some id) = (
  log,
  ok (record {
    session_id = id;
    notes = provider_note spec.id (lit " uses") forwarded (settings_file home spec.id);
  }),
)

unfoldable pub run_start :
    System → Text → Text → StartSpec → Given → List Text → List Action → After Started
unfolding started_id
run_start s mode home spec g forwarded log =
    let (out, e) = s.ran log in
    let after = log ++ run_claude spec.cwd (command_line mode home spec g.extra) ∷ [] in
    ended s home spec g forwarded (out, e) after (started_id out e)

-- The settings of the session, with the Stop hook of a task that asks for one.
unfoldable pub session_settings : StartSpec → Members → Members
session_settings spec settings =
    if is_empty spec.stop_hook then settings else with_stop_hook settings spec.stop_hook

unfoldable pub fork_error : Text → Fallible (Unit {0})
fork_error fork =
    if not (is_empty fork) && not (is_full_id fork)
    then err (lit "--fork needs the full session id, got " ++ fork)
    else ok tt

-- `mode` is the engine's permission mode and `home` its directory. The quotes in the text of the first
-- error are left out.
unfoldable pub start : System → Machine → Text → Text → StartSpec → List Action → After Started
unfolding fork_error
start s c mode home spec log =
    and_next (log, fork_error spec.fork)
      (λ _ log1.
        and_next (log1, given_settings c spec.args)
          (λ g log2.
            let (settings, forwarded) = task_settings c g.user spec.in_place spec.cwd in
            let file = settings_file home spec.id in
            and_next (write_private s file (object (session_settings spec settings)) log2)
              (λ _ log3.
                and_next (write_prompt s home spec log3)
                  (λ _ log4. run_start s mode home spec g forwarded log4))))

backgrounded_test : backgrounded (lit "ok: backgrounded · 1a2b3c4d.") ≡ some (lit "1a2b3c4d")
unfolding backgrounded has_prefix lit
backgrounded_test = refl

full_id_test : is_full_id (lit "01234567-89ab-cdef-0123-456789abcdef") ≡ true
unfolding is_full_id split lit
full_id_test = refl
