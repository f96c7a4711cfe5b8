-- ===== src/Codex/Options.antt =====
-- Thread options (internal/engine/codex/args.go): read from a command line, and written back in one
-- form. encoding/json is a parameter.
use c_squad.Json.{Json, string, Members, no_members, member, put}
use c_squad.Base.{
  Bool, ◌&&◌, ◌||◌, not, Option, none, some, List, [], ◌∷◌, ◌++◌, any, drop, length, is_empty, ltb,
  take, if◌then◌else◌, Text, lit, text_eq, has_prefix, cut, trim_space, ◌≡◌, refl,
}

-- `json.Unmarshal` into an `any`, `json.Marshal` and `json.Valid`.
pub record Codec : Type 0 where
  pub decode : Text → Option Json
  pub encode : Json → Option Text
  pub is_valid : Text → Bool

-- `Options`. The map of the configuration and the order of its keys are one list.
pub record Options : Type 0 where
  pub model : Text
  pub effort : Text
  pub sandbox : Text
  pub approval : Text
  pub config : Members

abbrev pub no_options : Options
no_options = record { model = []; effort = []; sandbox = []; approval = []; config = no_members }

pub data Flag : Type 0 where
  model_flag effort_flag sandbox_flag approval_flag config_flag : Flag

-- The errors of `ParseOptions`, with the texts that they quote.
pub data OptionError : Type 0 where
  unknown_option needs_value : Text → OptionError
  empty_model : OptionError
  not_one_of : Flag → Text → OptionError
  not_pair : Text → OptionError

pub data OptionResult : Type 0 where
  parsed : Options → OptionResult
  refused : OptionError → OptionResult

abbrev pub sandboxes : List Text
sandboxes = lit "read-only" ∷ lit "workspace-write" ∷ lit "danger-full-access" ∷ []

abbrev pub approvals : List Text
approvals = lit "untrusted" ∷ lit "on-request" ∷ lit "never" ∷ []

abbrev pub efforts : List Text
efforts = lit "none" ∷ lit "minimal" ∷ lit "low" ∷ lit "medium" ∷ lit "high" ∷ lit "xhigh" ∷ []

unfoldable pub is_one_of : Text → List Text → Bool
is_one_of v list = any (λ x. text_eq v x) list

long_name : Text → Text
long_name name =
    if text_eq name (lit "-m")
    then lit "--model"
    else if text_eq name (lit "-s")
    then lit "--sandbox"
    else if text_eq name (lit "-a")
    then lit "--ask-for-approval"
    else if text_eq name (lit "-c")
    then lit "--config"
    else name

flag_of : Text → Option Flag
flag_of name =
    if text_eq name (lit "--model")
    then some model_flag
    else if text_eq name (lit "--effort")
    then some effort_flag
    else if text_eq name (lit "--sandbox")
    then some sandbox_flag
    else if text_eq name (lit "--ask-for-approval")
    then some approval_flag
    else if text_eq name (lit "--config")
    then some config_flag
    else none

-- An argument as a name and a value that stands in it.
name_value : Text → Text × Option Text
name_value a =
    let (name, value, inline) = cut a b'=' in
    if has_prefix a (lit "--")
    then (name, if inline then some value else none)
    else if has_prefix a (lit "-") && ltb 2 (length a)
    then (take 2 a, some (drop 2 a))
    else (a, none)

flagged : Text × Option Text → Option (Flag × Option Text)
unfolding flag_of long_name
flagged (name, value) = elim (flag_of (long_name name)) [ none ↦ none | some f ↦ some (f, value) ]

-- The option that an argument names, and the value that stands in it.
unfoldable pub read_flag : Text → Option (Flag × Option Text)
unfolding flagged name_value
read_flag a = flagged (name_value a)

unfoldable pub or_text : Option Json → Text → Json
or_text (some v) raw = v
or_text none raw = string raw

-- A value as JSON where it is, else as the text it is.
unfoldable pub read_value : Codec → Text → Json
read_value c raw = or_text (c.decode raw) raw

unfoldable pub set_config : Codec → Options → Text → Text × Text × Bool → OptionResult
set_config c o value (key, raw, found) =
    let k = trim_space key in
    if not found || is_empty k
    then refused (not_pair value)
    else parsed (record o { config = put o.config k (read_value c raw) })

-- The `switch` that stores a value.
unfoldable pub set_option : Codec → Options → Flag → Text → OptionResult
unfolding set_config
set_option c o model_flag v =
    if is_empty (trim_space v) then refused empty_model else parsed (record o { model = v })
set_option c o effort_flag v =
    if not (is_one_of v efforts)
    then refused (not_one_of effort_flag v)
    else parsed (record o { effort = v })
set_option c o sandbox_flag v =
    if not (is_one_of v sandboxes)
    then refused (not_one_of sandbox_flag v)
    else parsed (record o { sandbox = v })
set_option c o approval_flag v =
    if not (is_one_of v approvals)
    then refused (not_one_of approval_flag v)
    else parsed (record o { approval = v })
set_option c o config_flag v = set_config c o v (cut v b'=')

unfoldable pub go_on : OptionResult → (Options → OptionResult) → OptionResult
go_on (parsed o) f = f o
go_on (refused e) f = refused e

-- The last argument.
unfoldable pub parse_last : Codec → Options → Text → Option (Flag × Option Text) → OptionResult
parse_last c o a none = refused (unknown_option a)
parse_last c o a (some (f, none)) = refused (needs_value a)
parse_last c o a (some (f, some v)) = set_option c o f v

-- An argument before another: an option whose value does not stand in it takes that. Then the loop goes
-- on, behind the other argument or with it.
unfoldable pub parse_next :
    Codec
    → Options
    → Text
    → Text
    → Option (Flag × Option Text)
    → (Options → OptionResult)
    → (Options → OptionResult)
    → OptionResult
unfolding go_on
parse_next c o a b none behind with_it = refused (unknown_option a)
parse_next c o a b (some (f, none)) behind with_it = go_on (set_option c o f b) behind
parse_next c o a b (some (f, some v)) behind with_it = go_on (set_option c o f v) with_it

unfoldable pub parse_from : Codec → Options → List Text → OptionResult
parse_from c o [] = parsed o
parse_from c o (a ∷ []) = parse_last c o a (read_flag a)
parse_from c o (a ∷ b ∷ args) =
    parse_next c o a b (read_flag a) (λ n. parse_from c n args) (λ n. parse_from c n (b ∷ args))

unfoldable pub parse_options : Codec → List Text → OptionResult
parse_options c args = parse_from c no_options args

unfoldable pub text_of : Option Text → Text
text_of none = []
text_of (some t) = t

-- A string that would read as JSON is written as a JSON string; another value as JSON.
unfoldable pub print_value : Codec → Json → Text
unfolding text_of
print_value c (string s) = if c.is_valid s then text_of (c.encode (string s)) else s
print_value c v = text_of (c.encode v)

unfoldable pub add_flag : Text → Text → List Text → List Text
add_flag flag v rest = if is_empty v then rest else flag ∷ v ∷ rest

unfoldable pub config_args : Codec → Members → List Text
config_args c no_members = []
config_args c (member k v m) = lit "--config" ∷ (k ++ b'=' ∷ print_value c v) ∷ config_args c m

-- `Args`
unfoldable pub print_options : Codec → Options → List Text
print_options c o = add_flag (lit "--model") o.model (
    add_flag (lit "--effort") o.effort (
      add_flag (lit "--sandbox") o.sandbox
        (add_flag (lit "--ask-for-approval") o.approval (config_args c o.config))))

read_flag_test : read_flag (lit "-mgpt") ≡ some (model_flag, some (lit "gpt"))
unfolding read_flag text_eq has_prefix cut lit
read_flag_test = refl

read_flag_test_next : read_flag (lit "--config") ≡ some (config_flag, none)
unfolding read_flag text_eq has_prefix cut lit
read_flag_test_next = refl
