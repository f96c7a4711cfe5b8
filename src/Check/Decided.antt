-- ===== src/Check/Decided.antt =====
-- What a check answers: a decision, or why there is none.
use c_squad.Engine.{State}
use c_squad.Verdict.{Verdict, Answer, no_answer, pass, fail, answer_eq, passes, error_verdict}
use c_squad.Check.Spec.{Kind, Spec}
use c_squad.Check.Run.{
  Json, CommandEnd, timed_out, exited_zero, exited, not_run, Poll, Runner, decode_json, decode,
  or_else, first_decoded, is_object, value_with, value_of, value_at, scan, parse, run_cmd,
  verdict_else, claude_result, run_claude, answered, poll_agent, run_agent, run_kind, with_finding,
  or_timed_out, run, decoded, quoted,
}
use c_squad.Finish.Safe.{if-true, if-false}
use c_squad.Base.{
  subst, ap, ℕ, zero, suc, ◌≡◌, ◌≢◌, refl, ◌⊎◌, inl, inr, false, ◌&&◌, ◌||◌, not, Option, none,
  some, List, [], ◌∷◌, ◌++◌, reverse, take, is_empty, if◌then◌else◌, if-both, Text, text_eq, lit,
  arith, trim_space, Bool-cases, Option-cases,
}

-- A pass, a failure with a finding at least, or an error.
abbrev pub IsDecided : Verdict → Type 0
IsDecided v =
    (v.error ≢ [])
    ⊎ ((v.error ≡ []) × ((v.answer ≡ pass) ⊎ ((v.answer ≡ fail) × (v.findings ≢ []))))

-- An error, or an answer.
unfoldable Ends : Verdict → Type 0
Ends v = (v.error ≢ []) ⊎ ((v.error ≡ []) × (v.answer ≢ no_answer))

unfoldable IsGood : Option Verdict → Type 0
IsGood none = Unit
IsGood (some v) = (v.error ≡ []) × (v.answer ≢ no_answer)

error-Ends : (e : Text) → e ≢ [] → Ends (error_verdict e)
unfolding Ends
error-Ends e n = inl n

none-IsGood : IsGood none
unfolding IsGood
none-IsGood = tt

decoded-IsGood : (a : Answer) (j : Json) → a ≢ no_answer → IsGood (some (decoded a j))
unfolding IsGood decoded
decoded-IsGood a j n = (refl, n)

decode_json-IsGood : (o : Option Json) → IsGood (decode_json o)
unfolding decode_json
decode_json-IsGood none = none-IsGood
decode_json-IsGood (some j) =
    if-both IsGood (text_eq j.word (lit "pass")) _ _ (λ _. decoded-IsGood pass j (λ e. cc))
      (λ _.
        if-both IsGood (text_eq j.word (lit "fail")) _ _ (λ _. decoded-IsGood fail j (λ e. cc))
          (λ _. none-IsGood))

or_else-IsGood : (o p : Option Verdict) → IsGood o → IsGood p → IsGood (or_else o p)
or_else-IsGood (some v) p h k = h
or_else-IsGood none p h k = k

verdict_else-Ends : (e : Text) (o : Option Verdict) → e ≢ [] → IsGood o → Ends (verdict_else e o)
unfolding verdict_else IsGood Ends
verdict_else-Ends e (some v) n h = inr h
verdict_else-Ends e none n h = inl n

module _ (r : Runner) where
  decode-IsGood : (b : Text) → IsGood (decode r b)
  unfolding decode
  decode-IsGood b = decode_json-IsGood (r.json b)

  first_decoded-IsGood : (bs : List Text) → IsGood (first_decoded r bs)
  unfolding first_decoded
  first_decoded-IsGood [] = none-IsGood
  first_decoded-IsGood (b ∷ bs) =
      or_else-IsGood (decode r b) (first_decoded r bs) (decode-IsGood b) (first_decoded-IsGood bs)

  value_with-IsGood :
      (o : Option Verdict) (m : ℕ) (v : Verdict) (n : ℕ)
      → IsGood o
      → value_with o m ≡ some (v, n)
      → IsGood (some v)
  unfolding value_with
  value_with-IsGood none m v n g h = cc
  value_with-IsGood (some u) m v n g h =
      subst IsGood (ap (λ x. elim x [ some y ↦ some (y.0) | none ↦ some u ]) h) g

  value_of-IsGood :
      (s : Text) (o : Option ℕ) (v : Verdict) (n : ℕ)
      → value_of r s o ≡ some (v, n)
      → IsGood (some v)
  unfolding value_of
  value_of-IsGood s none v n h = cc
  value_of-IsGood s (some m) v n h =
      value_with-IsGood (decode r (take m s)) m v n (decode-IsGood (take m s)) h

  value_at-IsGood : (s : Text) (v : Verdict) (n : ℕ) → value_at r s ≡ some (v, n) → IsGood (some v)
  unfolding value_at
  value_at-IsGood s v n h = elim (Bool-cases (is_object s)) [
    | inl e ↦ value_of-IsGood s (r.value_length s) v n (if-true (is_object s) _ _ _ e h)
    | inr e ↦ absurd (let k = if-false (is_object s) _ _ _ e h in cc)
  ]

  scan-IsGood :
      (s : Text) (passed : ℕ) (best : Option Verdict) → IsGood best → IsGood (scan r passed best s)
  unfolding scan
  scan-IsGood [] passed best h = h
  scan-IsGood (c ∷ s) (suc n) best h = scan-IsGood s n best h
  scan-IsGood (c ∷ s) zero best h = elim (Option-cases (value_at r (c ∷ s))) [
    | inl e ↦ rw (scan, e) (scan-IsGood s zero best h)
    | inr ((v, n), e) ↦ rw (scan, e) (scan-IsGood s n (some v) (value_at-IsGood (c ∷ s) v n e))
  ]

  parse-IsGood : (text : Text) → IsGood (parse r text)
  unfolding parse
  parse-IsGood text = or_else-IsGood _ _ (decode-IsGood (trim_space text)) (
      or_else-IsGood _ _ (first_decoded-IsGood (reverse (r.fences (trim_space text))))
        (scan-IsGood (trim_space text) zero none none-IsGood))

  answered-Ends : (final : Text) → Ends (answered r final)
  unfolding answered lit
  answered-Ends final = verdict_else-Ends _ _ (λ e. cc) (parse-IsGood final)

  run_cmd-Ends : (command : Text) (e : CommandEnd) → Ends (run_cmd r command e)
  unfolding run_cmd Ends quoted lit
  run_cmd-Ends command timed_out = inl (λ e. cc)
  run_cmd-Ends command exited_zero = inr (refl, λ e. cc)
  run_cmd-Ends command (not_run x) = inl (λ e. cc)
  run_cmd-Ends command (exited code out) = inr (refl, λ e. cc)

  claude_result-Ends : (o : Option (Text × Text)) → Ends (claude_result r o)
  unfolding claude_result lit
  claude_result-Ends none = error-Ends _ (λ e. cc)
  claude_result-Ends (some (structured, result)) =
      verdict_else-Ends _ _ (λ e. cc)
        (or_else-IsGood _ _
          (if-both IsGood (is_empty structured) _ _ (λ _. none-IsGood)
            (λ _. decode-IsGood structured))
          (parse-IsGood result))

  looked-Ends :
      (p : Poll) (rest : Verdict)
      → Ends rest
      → Ends (if not (is_empty p.final) || p.late then answered r p.final else rest)
  looked-Ends p rest h =
      if-both Ends (not (is_empty p.final) || p.late) _ _ (λ _. answered-Ends p.final) (λ _. h)

  poll_agent-Ends : (ps : List Poll) → Ends (poll_agent r ps)
  unfolding poll_agent lit
  poll_agent-Ends [] = error-Ends _ (λ e. cc)
  poll_agent-Ends (p ∷ ps) =
      elim p.state
        as (λ o. Ends (elim o [
          | some State.failed ↦ error_verdict (lit "the reviewer failed")
          | some State.gone ↦ error_verdict (lit "the reviewer session is gone")
          | some State.working ↦ poll_agent r ps
          | some State.no_state ↦ poll_agent r ps
          | some _ ↦
              if not (is_empty p.final) || p.late then answered r p.final else poll_agent r ps
          | none ↦ poll_agent r ps
        ])) [
          | some State.failed ↦ error-Ends _ (λ e. cc)
          | some State.gone ↦ error-Ends _ (λ e. cc)
          | some State.working ↦ poll_agent-Ends ps
          | some State.no_state ↦ poll_agent-Ends ps
          | some State.needs_input ↦ looked-Ends p (poll_agent r ps) (poll_agent-Ends ps)
          | some State.idle ↦ looked-Ends p (poll_agent r ps) (poll_agent-Ends ps)
          | some State.done ↦ looked-Ends p (poll_agent r ps) (poll_agent-Ends ps)
          | some State.stopped ↦ looked-Ends p (poll_agent r ps) (poll_agent-Ends ps)
          | none ↦ poll_agent-Ends ps
        ]

-- An error from outside says something.
abbrev pub IsSaid : Option Text → Type 0
IsSaid none = Unit
IsSaid (some e) = e ≢ []

module _ (r : Runner) where
  run_claude-Ends : (o : Option Text) → IsSaid o → Ends (run_claude r o)
  unfolding run_claude
  run_claude-Ends (some e) h = error-Ends e h
  run_claude-Ends none h = claude_result-Ends r r.result

  run_agent-Ends : (o start : Option Text) → IsSaid o → Ends (run_agent r o start)
  unfolding run_agent lit
  run_agent-Ends (some e) start h = error-Ends e h
  run_agent-Ends none (some e) h = error-Ends _ (λ e. cc)
  run_agent-Ends none none h = poll_agent-Ends r r.polls

  run_kind-Ends :
      (s : Spec) (k : Kind) → IsSaid r.resolve_error → IsSaid r.agent_error → Ends (run_kind r s k)
  unfolding run_kind lit
  run_kind-Ends s Kind.no_kind h a = error-Ends _ (λ e. cc)
  run_kind-Ends s Kind.cmd h a = run_cmd-Ends r s.command r.command
  run_kind-Ends s Kind.claude h a = run_claude-Ends r.resolve_error h
  run_kind-Ends s Kind.codex h a = run_agent-Ends r.agent_error r.start_error a

an_answer : (a : Answer) → a ≢ no_answer → (a ≡ pass) ⊎ (a ≡ fail)
an_answer no_answer n = absurd (n refl)
an_answer pass n = inl refl
an_answer fail n = inr refl

has_finding :
    (v : Verdict)
    → v.error ≡ []
    → v.answer ≡ fail
    → (is_empty v.error && answer_eq v.answer fail && is_empty v.findings) ≡ false
    → v.findings ≢ []
has_finding v e q k x = ground (arith, e, q, k, x)

with_finding-IsDecided : (v : Verdict) → Ends v → IsDecided (with_finding v)
unfolding with_finding Ends
with_finding-IsDecided v (inl n) =
    if-both IsDecided (is_empty v.error && answer_eq v.answer fail && is_empty v.findings) _ v
      (λ _. inl n) (λ _. inl n)
with_finding-IsDecided v (inr (e, n)) = elim (an_answer v.answer n) [
  | inl q ↦
      if-both IsDecided (is_empty v.error && answer_eq v.answer fail && is_empty v.findings) _ v
        (λ _. inr (e, inl q)) (λ _. inr (e, inl q))
  | inr q ↦
      if-both IsDecided (is_empty v.error && answer_eq v.answer fail && is_empty v.findings) _ v
        (λ _. inr (e, inr (q, λ x. cc))) (λ k. inr (e, inr (q, has_finding v e q k)))
]

or_timed_out-IsDecided : (r : Runner) (v : Verdict) → IsDecided v → IsDecided (or_timed_out r v)
unfolding or_timed_out lit
or_timed_out-IsDecided r v h =
    if-both IsDecided
      (r.deadline && is_empty v.error && not (passes v) && answer_eq v.answer no_answer)
      (record v { error = lit "timed out after " ++ r.timeout }) v (λ _. inl (λ e. cc)) (λ _. h)

-- A check ends in a pass, in a failure with a finding at least, or in an error that says why there is no
-- verdict, where the errors of finding the reviewer's program and its engine are not empty.
pub run-IsDecided :
    (r : Runner) (s : Spec) → IsSaid r.resolve_error → IsSaid r.agent_error → IsDecided (run r s)
unfolding run
run-IsDecided r s h a =
    or_timed_out-IsDecided r (with_finding (run_kind r s s.kind))
      (with_finding-IsDecided (run_kind r s s.kind) (run_kind-Ends r s s.kind h a))
