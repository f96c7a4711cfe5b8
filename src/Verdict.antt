-- ===== src/Verdict.antt =====
-- A check's verdict and its findings (internal/check/check.go).
use c_squad.Base.{
  ℕ, ◌+◌, ◌≡◌, refl, ◌↔◌, Bool, true, false, ◌&&◌, List, [], ◌∷◌, ◌++◌, arith, ◌==◌, is_empty,
  if◌then◌else◌, Text, lit, text_eq, text_eq_iff,
}

-- One problem that a check found. The severity is `blocking` or `minor`, or whatever a reviewer wrote.
pub record Finding : Type 0 where
  pub severity : Text
  pub file : Text
  pub summary : Text

-- The field `Verdict`: `pass`, `fail`, or empty when there was no verdict.
pub data Answer : Type 0 where
  no_answer pass fail : Answer

-- `error` set means that there was no verdict. `for` is the version of the task it was run for,
-- and `blocking` counts the blocking findings of every round so far.
pub record Verdict : Type 0 where
  pub answer : Answer
  pub summary : Text
  pub findings : List Finding
  pub error : Text
  pub round : ℕ
  pub for : ℕ
  pub at : ℕ
  pub blocking : List ℕ

-- Go's zero value.
abbrev pub no_verdict : Verdict
no_verdict = record {
  answer = no_answer;
  summary = [];
  findings = [];
  error = [];
  round = 0;
  for = 0;
  at = 0;
  blocking = [];
}

-- `Verdict{Error: …}`
abbrev pub error_verdict : Text → Verdict
error_verdict e = record no_verdict { error = e }

abbrev answer_code : Answer → ℕ
answer_code no_answer = 0
answer_code pass = 1
answer_code fail = 2

abbrev pub answer_eq : Answer → Answer → Bool
answer_eq a b = answer_code a == answer_code b

-- A passing verdict.
unfoldable pub passes : Verdict → Bool
passes v = is_empty v.error && answer_eq v.answer pass

count_from : List Finding → ℕ
count_from [] = 0
count_from (f ∷ fs) = (if text_eq f.severity (lit "minor") then 0 else 1) + count_from fs

-- The number of blocking findings: one without a severity counts as blocking.
unfoldable pub count : Verdict → ℕ
unfolding count_from
count v = count_from v.findings

finding_eq : Finding → Finding → Bool
finding_eq f g =
    text_eq f.severity g.severity && text_eq f.file g.file && text_eq f.summary g.summary

findings_eq : List Finding → List Finding → Bool
unfolding finding_eq
findings_eq [] [] = true
findings_eq [] (_ ∷ _) = false
findings_eq (_ ∷ _) [] = false
findings_eq (f ∷ fs) (g ∷ gs) = finding_eq f g && findings_eq fs gs

numbers_eq : List ℕ → List ℕ → Bool
numbers_eq [] [] = true
numbers_eq [] (_ ∷ _) = false
numbers_eq (_ ∷ _) [] = false
numbers_eq (a ∷ s) (b ∷ t) = a == b && numbers_eq s t

-- Two verdicts have the same JSON text when all their fields are the same.
unfoldable pub verdict_eq : Verdict → Verdict → Bool
unfolding findings_eq numbers_eq
verdict_eq v w =
    answer_eq v.answer w.answer
    && text_eq v.summary w.summary
    && findings_eq v.findings w.findings
    && text_eq v.error w.error
    && v.round == w.round
    && v.for == w.for
    && v.at == w.at
    && numbers_eq v.blocking w.blocking

-- A finding on one line for the worker.
unfoldable pub format_finding : Finding → Text
format_finding f =
    let s = if is_empty f.file then f.summary else f.file ++ lit ": " ++ f.summary in
    if is_empty f.severity then s else lit "[" ++ f.severity ++ lit "] " ++ s

finding_eq_iff : (f g : Finding) → (finding_eq f g ≡ true) ↔ (f ≡ g)
unfolding finding_eq
finding_eq_iff f g = ground (
  arith,
  text_eq_iff f.severity g.severity,
  text_eq_iff f.file g.file,
  text_eq_iff f.summary g.summary,
)

findings_eq_iff : (s t : List Finding) → (findings_eq s t ≡ true) ↔ (s ≡ t)
unfolding findings_eq
findings_eq_iff [] [] = (λ _. refl, λ _. refl)
findings_eq_iff [] (g ∷ t) = (λ e. cc, λ e. cc)
findings_eq_iff (f ∷ s) [] = (λ e. cc, λ e. cc)
findings_eq_iff (f ∷ s) (g ∷ t) = ground (arith, finding_eq_iff f g, findings_eq_iff s t)

numbers_eq_iff : (s t : List ℕ) → (numbers_eq s t ≡ true) ↔ (s ≡ t)
unfolding numbers_eq
numbers_eq_iff [] [] = (λ _. refl, λ _. refl)
numbers_eq_iff [] (b ∷ t) = (λ e. cc, λ e. cc)
numbers_eq_iff (a ∷ s) [] = (λ e. cc, λ e. cc)
numbers_eq_iff (a ∷ s) (b ∷ t) = ground (arith, numbers_eq_iff s t)

pub verdict_eq_iff : (v w : Verdict) → (verdict_eq v w ≡ true) ↔ (v ≡ w)
unfolding verdict_eq
verdict_eq_iff v w = ground (
  arith,
  text_eq_iff v.summary w.summary,
  findings_eq_iff v.findings w.findings,
  text_eq_iff v.error w.error,
  numbers_eq_iff v.blocking w.blocking,
)
