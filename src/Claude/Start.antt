-- ===== src/Claude/Start.antt =====
-- Starting a Claude session (`Queue`, `WithStopHook`, `Start` and `writePrivate` of
-- internal/engine/claude/launch.go). What the file system and the claude command answer is a parameter.
use c_squad.Json.{
  Json, number, string, array, object, Elements, no_elements, element, Members, no_members,
  member_at, put, appended,
}
use c_squad.Gitx.Kinds.{Fallible, ok, err}
use c_squad.Claude.Paths.{clean_path, join_path}
use c_squad.Claude.Settings.{Machine, Found, find_settings, read_settings}
use c_squad.Claude.Provider.{object_of, task_settings}
use c_squad.Base.{
  ℕ, ◌+◌, Bool, Option, none, some, List, [], ◌∷◌, ◌++◌, drop, take, is_empty, ◌==◌, if◌then◌else◌,
  Text, lit, reverse, itoa, join,
}

-- What a start does to the system. A mode is written in octal.
pub data Action : Type 0 where
  make_dir : Text → ℕ → Action
  write_file : Text → Text → ℕ → Action
  set_mode : Text → ℕ → Action
  rename : Text → Text → Action
  remove_file : Text → Action
  run_claude : Text → List Text → Action

-- What answers: the error of an action, the output and the error of the claude command, each after the
-- actions so far, and `json.MarshalIndent`.
pub record System : Type 0 where
  pub error_of : List Action → Action → Option Text
  pub ran : List Action → Text × Option Text
  pub encode : Json → Fallible Text

-- A result after the actions so far.
abbrev pub After : Type 0 → Type 0
After A = List Action × Fallible A

unfoldable pub and_next : {A B : Type 0} → After A → (A → List Action → After B) → After B
and_next (log, ok a) f = f a log
and_next (log, err e) f = (log, err e)

unless_error : Option Text → Fallible (Unit {0})
unless_error none = ok tt
unless_error (some e) = err e

unfoldable pub perform : System → Action → List Action → After (Unit {0})
unfolding unless_error
perform s a log = (log ++ a ∷ [], unless_error (s.error_of log a))

before_last : Text → Text → Text → Text
before_last kept seen [] = kept
before_last kept seen (a ∷ p) =
    before_last (if a == b'/' then reverse (a ∷ seen) else kept) (a ∷ seen) p

-- filepath.Dir
unfoldable pub dir_path : Text → Text
unfolding before_last
dir_path p = clean_path (before_last [] [] p)

unfoldable pub write_private : System → Text → Json → List Action → After (Unit {0})
write_private s file v log = and_next (perform s (make_dir (dir_path file) 700) log) (λ _ log1.
    and_next (log1, s.encode v)
      (λ b log2.
        let tmp = file ++ lit ".tmp" in
        and_next (perform s (write_file tmp (b ++ 10 ∷ []) 600) log2) (λ _ log3.
          and_next (perform s (set_mode tmp 600) log3)
            (λ _ log4. perform s (rename tmp file) log4))))

-- The task's settings file, and the file of a prompt that is too large for the command line.
unfoldable pub settings_file : Text → ℕ → Text
settings_file home id = join_path (home ∷ lit "settings" ∷ (b'T' ∷ itoa id ++ lit ".json") ∷ [])

unfoldable pub prompt_file : Text → ℕ → Text
prompt_file home id = join_path (home ∷ lit "prompts" ∷ (b'T' ∷ itoa id ++ lit ".md") ∷ [])

-- `append(args[:i], args[i+n:]...)`
unfoldable pub without : List Text → ℕ → ℕ → List Text
without args i n = take i args ++ drop (i + n) args

-- The user's settings, the arguments without them, and the value that named them.
pub record Given : Type 0 where
  pub user : Members
  pub extra : List Text
  pub named : Option Text

unfoldable pub given_read : List Text → Found → Fallible Members → Fallible Given
given_read args f (err e) = err e
given_read args f (ok user) = ok (record {
  user = user;
  extra = without args f.index (if f.inline then 1 else 2);
  named = some f.value;
})

unfoldable pub given_found : Machine → List Text → Fallible (Option Found) → Fallible Given
given_found c args (err e) = err e
given_found c args (ok none) = ok (record { user = no_members; extra = args; named = none })
given_found c args (ok (some f)) = given_read args f (read_settings c f.value)

unfoldable pub given_settings : Machine → List Text → Fallible Given
given_settings c args = given_found c args (find_settings args)

unfoldable pub provider_note : ℕ → Text → List Text → Text → List Text
provider_note id verb forwarded file =
    if is_empty forwarded
    then []
    else ((b'T' ∷ itoa id)
        ++ verb
        ++ lit " this session's provider settings ("
        ++ join forwarded (lit ", ")
        ++ lit "), stored in "
        ++ file
        ++ lit " (mode 600) while the task exists.")
      ∷ []

-- The arguments of a task that starts later, and what is said to the user.
unfoldable pub queue :
    System
    → Machine
    → Text
    → ℕ
    → List Text
    → Bool
    → Text
    → List Action
    → After (List Text × List Text)
queue s c home id args in_place cwd log =
    and_next (log, given_settings c args)
      (λ g log1.
        let (settings, forwarded) = task_settings c g.user in_place cwd in
        let file = settings_file home id in
        and_next (write_private s file (object settings) log1) (λ _ log2. (
          log2,
          ok (
            g.extra ++ lit "--settings" ∷ file ∷ [],
            provider_note id (lit " will use") forwarded file,
          ),
        )))

stop_group : Text → Json
stop_group command = object (member_of (lit "hooks") (array (element (object hook) no_elements)))
  where
    member_of : Text → Json → Members
    member_of k v = put no_members k v

    hook : Members
    hook =
        put
          (put (put no_members (lit "type") (string (lit "command"))) (lit "command")
            (string command))
          (lit "timeout") (number (lit "30"))

elements_of : Option Json → Elements
elements_of (some (array l)) = l
elements_of _ = no_elements

-- The settings with a Stop hook after those that they have.
unfoldable pub with_stop_hook : Members → Text → Members
unfolding stop_group elements_of
with_stop_hook settings command =
    let hooks = object_of settings (lit "hooks") in
    let stop = appended (elements_of (member_at hooks (lit "Stop"))) (stop_group command) in
    put settings (lit "hooks") (object (put hooks (lit "Stop") (array stop)))
