-- ===== src/Task.antt =====
-- The row of the tasks table and its phases and steps (internal/store/store.go, and the steps of
-- internal/flow/flow.go), with the verdict that a row keeps (internal/check/check.go) and the live
-- state of a session (internal/engine/engine.go).
-- A column of constants is an enumeration. `last_check` and `outcome` are JSON texts in the table:
-- here they are the value that the text encodes, and `none` is the empty text.
use c_squad.Verdict.{Verdict, verdict_eq, verdict_eq_iff}
use c_squad.Base.{
  ℕ, ◌≡◌, refl, ◌↔◌, Bool, true, false, ◌&&◌, ◌||◌, Option, none, some, List, [], ◌∷◌, ◌++◌, arith,
  ◌==◌, Text, lit, text_eq, text_eq_iff, texts_eq, itoa,
}

pub data Phase : Type 0 where
  waiting running checking fixing merging ready done needs_you failed cancelled : Phase

abbrev phase_code : Phase → ℕ
phase_code waiting = 0
phase_code running = 1
phase_code checking = 2
phase_code fixing = 3
phase_code merging = 4
phase_code ready = 5
phase_code done = 6
phase_code needs_you = 7
phase_code failed = 8
phase_code cancelled = 9

abbrev pub phase_eq : Phase → Phase → Bool
phase_eq p q = phase_code p == phase_code q

pub phase_eq_iff : (p q : Phase) → (phase_eq p q ≡ true) ↔ (p ≡ q)
phase_eq_iff p q = ground arith

-- The constants as the source spells them.
unfoldable pub phase_word : Phase → Text
phase_word waiting = lit "waiting"
phase_word running = lit "running"
phase_word checking = lit "checking"
phase_word fixing = lit "fixing"
phase_word merging = lit "merging"
phase_word ready = lit "ready"
phase_word done = lit "done"
phase_word needs_you = lit "needs_you"
phase_word failed = lit "failed"
phase_word cancelled = lit "cancelled"

-- A phase that is out of the list for good.
abbrev pub finished : Phase → Bool
finished p = phase_eq p done || phase_eq p cancelled

-- Where a task is inside its phase. `no_step` is the empty text, `asked` belongs to merging, and
-- the others say what retry resumes.
pub data Step : Type 0 where
  no_step asked resume_waiting resume_round resume_check resume_merge : Step

abbrev step_code : Step → ℕ
step_code no_step = 0
step_code asked = 1
step_code resume_waiting = 2
step_code resume_round = 3
step_code resume_check = 4
step_code resume_merge = 5

abbrev pub step_eq : Step → Step → Bool
step_eq a b = step_code a == step_code b

pub step_eq_iff : (a b : Step) → (step_eq a b ≡ true) ↔ (a ≡ b)
step_eq_iff a b = ground arith

-- What a done task left (`flow.Outcome`).
pub record Outcome : Type 0 where
  pub target : Text
  pub branches : List Text
  pub final : Text

-- One row of the tasks table. Times are unix milliseconds.
pub record Task : Type 0 where
  pub id : ℕ
  pub title : Text
  pub cwd : Text
  pub engine : Text
  pub model : Text
  pub engine_args : List Text
  pub session_id : Text
  pub parent_session : Text
  pub in_place : Bool
  pub prompt : Text
  pub worker_rules : Text
  pub after : List ℕ
  pub check_spec : Text
  pub max_rounds : ℕ
  pub round : ℕ
  pub merge_into : Text
  pub hold : Bool
  pub phase : Phase
  pub last_check : Option Verdict
  pub note : Text
  pub outcome : Option Outcome
  pub step : Step
  pub created_at : ℕ
  pub updated_at : ℕ
  pub notified : Text
  pub notified_phase : ℕ

-- T12
unfoldable pub label : Task → Text
label t = lit "T" ++ itoa t.id

-- T12 · title
unfoldable pub name : Task → Text
name t = lit "T" ++ itoa t.id ++ lit " · " ++ t.title

-- Equality of the two JSON columns.
abbrev pub last_check_eq : Option Verdict → Option Verdict → Bool
last_check_eq none none = true
last_check_eq none (some _) = false
last_check_eq (some _) none = false
last_check_eq (some v) (some w) = verdict_eq v w

outcomes_same : Outcome → Outcome → Bool
outcomes_same o p =
    text_eq o.target p.target && texts_eq o.branches p.branches && text_eq o.final p.final

unfoldable pub outcome_eq : Option Outcome → Option Outcome → Bool
unfolding outcomes_same
outcome_eq none none = true
outcome_eq none (some _) = false
outcome_eq (some _) none = false
outcome_eq (some o) (some p) = outcomes_same o p

pub last_check_eq_iff : (a b : Option Verdict) → (last_check_eq a b ≡ true) ↔ (a ≡ b)
last_check_eq_iff none none = (λ _. refl, λ _. refl)
last_check_eq_iff none (some w) = (λ e. cc, λ e. cc)
last_check_eq_iff (some v) none = (λ e. cc, λ e. cc)
last_check_eq_iff (some v) (some w) = ground (arith, verdict_eq_iff v w)

texts_eq_iff : (s t : List Text) → (texts_eq s t ≡ true) ↔ (s ≡ t)
texts_eq_iff [] [] = (λ _. refl, λ _. refl)
texts_eq_iff [] (b ∷ t) = (λ e. cc, λ e. cc)
texts_eq_iff (a ∷ s) [] = (λ e. cc, λ e. cc)
texts_eq_iff (a ∷ s) (b ∷ t) = ground (arith, text_eq_iff a b, texts_eq_iff s t)

pub outcome_eq_iff : (a b : Option Outcome) → (outcome_eq a b ≡ true) ↔ (a ≡ b)
unfolding outcome_eq
outcome_eq_iff none none = (λ _. refl, λ _. refl)
outcome_eq_iff none (some w) = (λ e. cc, λ e. cc)
outcome_eq_iff (some v) none = (λ e. cc, λ e. cc)
outcome_eq_iff (some v) (some w) = ground (
  arith,
  text_eq_iff v.target w.target,
  texts_eq_iff v.branches w.branches,
  text_eq_iff v.final w.final,
)
