-- ===== src/Check/Run.antt =====
-- Running a check (`Run`, `runCmd`, `runClaude`, `runAgent`, `Parse`, `decode` and `tail` of
-- internal/check/check.go). What processes, the engine and the libraries answer is the record Runner; what
-- is logged is left out.
use c_squad.Engine.{State}
use c_squad.Verdict.{
  Finding, Answer, no_answer, pass, fail, Verdict, no_verdict, error_verdict, answer_eq, passes,
}
use c_squad.Check.Spec.{Kind, Spec, print_spec}
use c_squad.Gitx.Texts.{split, trim_right}
use c_squad.Base.{
  ℕ, zero, suc, ◌-◌, Bool, false, ◌&&◌, ◌||◌, not, Option, none, some, List, [], ◌∷◌, ◌++◌, reverse,
  take, drop, length, ◌==◌, ltb, is_empty, if◌then◌else◌, Text, lit, text_eq, itoa, join,
  trim_space,
}

-- The fields of a reviewer's JSON object that a verdict keeps.
pub record Json : Type 0 where
  pub word : Text
  pub summary : Text
  pub findings : List Finding

-- How a command ended.
pub data CommandEnd : Type 0 where
  timed_out exited_zero : CommandEnd
  exited : ℕ → Text → CommandEnd
  not_run : Text → CommandEnd

-- One look at the reviewer's session: its state, or none when it was not seen, its last message, and
-- whether two minutes have passed.
pub record Poll : Type 0 where
  pub state : Option State
  pub final : Text
  pub late : Bool

-- `json` is json.Unmarshal into a verdict, `fences` the fenced blocks that the pattern finds, and
-- `value_length` the length of the JSON value that a text starts with. The claude process printed `out`
-- and `errors`, which `result` reads as the structured output and the result. `polls` are the looks
-- before the deadline.
pub record Runner : Type 0 where
  pub json : Text → Option Json
  pub fences : Text → List Text
  pub value_length : Text → Option ℕ
  pub byte_length : Text → ℕ
  pub last_bytes : ℕ → Text → Text
  pub timeout : Text
  pub deadline : Bool
  pub command : CommandEnd
  pub resolve_error : Option Text
  pub out : Text
  pub errors : Text
  pub run_error : Option Text
  pub result : Option (Text × Text)
  pub agent_error : Option Text
  pub start_error : Option Text
  pub polls : List Poll

unfoldable pub decoded : Answer → Json → Verdict
decoded a j = record no_verdict { answer = a; summary = j.summary; findings = j.findings }

-- A JSON object with a verdict that is pass or fail.
unfoldable pub decode_json : Option Json → Option Verdict
unfolding decoded
decode_json none = none
decode_json (some j) =
    if text_eq j.word (lit "pass")
    then some (decoded pass j)
    else if text_eq j.word (lit "fail")
    then some (decoded fail j)
    else none

unfoldable pub decode : Runner → Text → Option Verdict
unfolding decode_json
decode r b = decode_json (r.json b)

abbrev pub or_else : Option Verdict → Option Verdict → Option Verdict
or_else (some v) o = some v
or_else none o = o

unfoldable pub first_decoded : Runner → List Text → Option Verdict
first_decoded r [] = none
first_decoded r (b ∷ bs) = or_else (decode r b) (first_decoded r bs)

unfoldable pub is_object : Text → Bool
is_object [] = false
is_object (c ∷ s) = c == b'{'

-- The object that a text starts with, if it has a verdict, and how much of the text to pass over.
unfoldable pub value_with : Option Verdict → ℕ → Option (Verdict × ℕ)
value_with none n = none
value_with (some v) n = some (v, n - 1)

unfoldable pub value_of : Runner → Text → Option ℕ → Option (Verdict × ℕ)
unfolding value_with
value_of r s none = none
value_of r s (some n) = value_with (decode r (take n s)) n

unfoldable pub value_at : Runner → Text → Option (Verdict × ℕ)
unfolding value_of is_object
value_at r s = if is_object s then value_of r s (r.value_length s) else none

-- The last object with a verdict that stands in the text. `passed` characters are passed over.
unfoldable pub scan : Runner → ℕ → Option Verdict → Text → Option Verdict
scan r passed best [] = best
scan r (suc n) best (c ∷ s) = scan r n best s
scan r zero best (c ∷ s) = elim (value_at r (c ∷ s)) [
  | none ↦ scan r zero best s
  | some (v, n) ↦ scan r n (some v) s
]

-- The verdict in a reviewer's answer: the whole text, else its last fenced block, else an object in it.
unfoldable pub parse : Runner → Text → Option Verdict
parse r text =
    let t = trim_space text in
    or_else (decode r t) (or_else (first_decoded r (reverse (r.fences t))) (scan r zero none t))

-- The end of an output: at most `lines` lines and `bytes` bytes.
unfoldable pub tail : Runner → Text → ℕ → ℕ → Text
tail r out lines bytes =
    let parts = split (trim_right out 10) 10 in
    let kept = join (drop (length parts - lines) parts) (lit "\n") in
    if ltb bytes (r.byte_length kept) then lit "…" ++ r.last_bytes bytes kept else kept

blocking : Text → Finding
blocking text = record { severity = lit "blocking"; file = []; summary = text }

unfoldable pub quoted : Text → Text
quoted command = lit "`" ++ command ++ lit "`"

output_or : Text → Text
output_or text = if is_empty text then lit "(no output)" else text

unfoldable pub run_cmd : Runner → Text → CommandEnd → Verdict
unfolding blocking quoted output_or
run_cmd r command timed_out =
    error_verdict (quoted command ++ lit " did not finish within " ++ r.timeout)
run_cmd r command exited_zero = record no_verdict {
  answer = pass;
  summary = quoted command ++ lit " exited 0";
}
run_cmd r command (not_run e) = error_verdict (lit "cannot run " ++ quoted command ++ lit ": " ++ e)
run_cmd r command (exited code out) = record no_verdict {
  answer = fail;
  summary = quoted command ++ lit " exited " ++ itoa code;
  findings = blocking (output_or (tail r out 60 6000)) ∷ [];
}

unfoldable pub verdict_else : Text → Option Verdict → Verdict
verdict_else e (some v) = v
verdict_else e none = error_verdict e

-- What the process printed, or its error.
unfoldable pub claude_text : Runner → Text
claude_text r =
    let msg = trim_space (r.errors ++ r.out) in
    elim r.run_error [ some e ↦ if is_empty msg then e else msg | none ↦ msg ]

unfoldable pub claude_result : Runner → Option (Text × Text) → Verdict
unfolding claude_text
claude_result r none =
    error_verdict (lit "the Claude reviewer printed no result: " ++ tail r (claude_text r) 5 500)
claude_result r (some (structured, result)) =
    verdict_else (lit "the Claude reviewer gave no verdict: " ++ tail r result 5 500)
      (or_else (if is_empty structured then none else decode r structured) (parse r result))

unfoldable pub run_claude : Runner → Option Text → Verdict
unfolding claude_result
run_claude r (some e) = error_verdict e
run_claude r none = claude_result r r.result

unfoldable pub answered : Runner → Text → Verdict
answered r final =
    verdict_else (lit "the reviewer gave no verdict: " ++ tail r final 5 500) (parse r final)

-- The loop over the looks at the session, until the deadline.
unfoldable pub poll_agent : Runner → List Poll → Verdict
unfolding answered
poll_agent r [] = error_verdict (lit "the reviewer did not answer within " ++ r.timeout)
poll_agent r (p ∷ ps) =
    let rest = poll_agent r ps in
    elim p.state [
      | some State.failed ↦ error_verdict (lit "the reviewer failed")
      | some State.gone ↦ error_verdict (lit "the reviewer session is gone")
      | some State.working ↦ rest
      | some State.no_state ↦ rest
      | some _ ↦ if not (is_empty p.final) || p.late then answered r p.final else rest
      | none ↦ rest
    ]

unfoldable pub run_agent : Runner → Option Text → Option Text → Verdict
run_agent r (some e) start = error_verdict e
run_agent r none (some e) = error_verdict (lit "starting the reviewer: " ++ e)
run_agent r none none = poll_agent r r.polls

unfoldable pub run_kind : Runner → Spec → Kind → Verdict
run_kind r s Kind.no_kind = error_verdict (lit "unknown check " ++ print_spec s)
run_kind r s Kind.cmd = run_cmd r s.command r.command
run_kind r s Kind.claude = run_claude r r.resolve_error
run_kind r s Kind.codex = run_agent r r.agent_error r.start_error

-- A failing verdict without findings blocks with its summary.
unfoldable pub with_finding : Verdict → Verdict
unfolding blocking
with_finding v =
    if is_empty v.error && answer_eq v.answer fail && is_empty v.findings
    then record v { findings = blocking v.summary ∷ [] }
    else v

unfoldable pub or_timed_out : Runner → Verdict → Verdict
or_timed_out r v =
    if r.deadline && is_empty v.error && not (passes v) && answer_eq v.answer no_answer
    then record v { error = lit "timed out after " ++ r.timeout }
    else v

-- Runs one check; a check that cannot decide answers a verdict with its error.
unfoldable pub run : Runner → Spec → Verdict
run r s = or_timed_out r (with_finding (run_kind r s s.kind))
