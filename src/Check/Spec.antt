-- ===== src/Check/Spec.antt =====
-- The `--check` value (internal/check/check.go): `codex[:model]`, `claude[:model]` or `cmd:<command>`.
use c_squad.Base.{
  Bool, true, false, not, [], ◌++◌, ◌≡◌, refl, Text, lit, text_eq, cut, trim_space, is_empty,
  if◌then◌else◌,
}

-- `no_kind` is the empty text of the zero `Spec`, which comes with an error.
pub data Kind : Type 0 where
  no_kind cmd claude codex : Kind

unfoldable pub kind_word : Kind → Text
kind_word no_kind = []
kind_word cmd = lit "cmd"
kind_word claude = lit "claude"
kind_word codex = lit "codex"

pub record Spec : Type 0 where
  pub kind : Kind
  pub model : Text
  pub command : Text

-- The two errors of `ParseSpec`; `unknown` carries the text that its message quotes.
pub data SpecError : Type 0 where
  needs_command : SpecError
  unknown : Text → SpecError

pub data SpecResult : Type 0 where
  parsed : Spec → SpecResult
  refused : SpecError → SpecResult

is_cmd : Kind → Bool
is_cmd cmd = true
is_cmd _ = false

-- Whether the check is an agent's review and not a command.
unfoldable pub is_reviewer : Spec → Bool
unfolding is_cmd
is_reviewer s = not (is_cmd s.kind)

-- `Spec.String`
unfoldable pub print_spec : Spec → Text
unfolding is_cmd
print_spec s =
    if is_cmd s.kind
    then lit "cmd:" ++ s.command
    else if is_empty s.model
    then kind_word s.kind
    else kind_word s.kind ++ lit ":" ++ s.model

-- `switch kind`: what each word before the colon means.
spec_of : Text → Text → Text → SpecResult
spec_of v kind rest =
    if text_eq kind (lit "cmd")
    then (if is_empty (trim_space rest)
        then refused needs_command
        else parsed (record { kind = cmd; model = []; command = rest }))
    else if text_eq kind (lit "claude")
    then parsed (record { kind = claude; model = trim_space rest; command = [] })
    else if text_eq kind (lit "codex")
    then parsed (record { kind = codex; model = trim_space rest; command = [] })
    else refused (unknown v)

unfoldable pub parse_spec : Text → SpecResult
unfolding spec_of
parse_spec v = let (kind, rest, _) = cut (trim_space v) b':' in spec_of v kind rest

-- What `ParseSpec` and `Reviewer` tell the convergence guard: a text that does not parse counts as no
-- reviewer.
unfoldable pub reviewed_by : SpecResult → Bool
reviewed_by (parsed s) = is_reviewer s
reviewed_by (refused _) = false

parse_spec_cmd :
    parse_spec (lit " cmd:go test ./... ")
    ≡ parsed (record { kind = cmd; model = []; command = lit "go test ./..." })
unfolding parse_spec lit text_eq trim_space cut
parse_spec_cmd = refl

parse_spec_model :
    parse_spec (lit "codex: o3") ≡ parsed (record { kind = codex; model = lit "o3"; command = [] })
unfolding parse_spec lit text_eq trim_space cut
parse_spec_model = refl
