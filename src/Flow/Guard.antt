-- ===== src/Flow/Guard.antt =====
-- The convergence guard against its description, and how a failed check goes on.
use c_squad.Task.{checking, fixing, needs_you, resume_round, Task}
use c_squad.Verdict.{Verdict, passes}
use c_squad.Check.Spec.{parse_spec, reviewed_by}
use c_squad.Flow.Kinds.{no_effect, send, Obs, Move}
use c_squad.Flow.Texts.{fix_message}
use c_squad.Flow.Next.{not_shrinking, stuck, recorded, judge, apply_verdict, next, next_checked}
use c_squad.Base.{
  ℕ, ◌+◌, ◌-◌, ◌≤◌, ◌<◌, ◌≡◌, ◌↔◌, refl, sym, ap, ◌∙◌, ◌⊎◌, inl, inr, true, false, some, List, [],
  ◌∷◌, ◌++◌, arith, length, take, drop, length-append, take-append-drop, drop-length_append,
  Bool-cases, leb, subst,
}

-- The list ends with three counts that do not shrink.
abbrev pub EndsFlat : List ℕ → Type 0
EndsFlat l =
    (pre : List ℕ) × (a : ℕ) × (b : ℕ) × (c : ℕ) × (l ≡ pre ++ a ∷ b ∷ c ∷ []) × (a ≤ b) × (b ≤ c)

not_shrinking_three :
    (l : List ℕ)
    → not_shrinking l ≡ true
    → (a : ℕ) × (b : ℕ) × (c : ℕ) × (l ≡ a ∷ b ∷ c ∷ []) × (a ≤ b) × (b ≤ c)
unfolding not_shrinking
not_shrinking_three [] h = cc
not_shrinking_three (a ∷ []) h = cc
not_shrinking_three (a ∷ b ∷ []) h = cc
not_shrinking_three (a ∷ b ∷ c ∷ []) h = (a, b, c, refl, ground arith, ground arith)
not_shrinking_three (a ∷ b ∷ c ∷ d ∷ l) h = cc

EndsFlat-of-drop : (l : List ℕ) → not_shrinking (drop (length l - 3) l) ≡ true → EndsFlat l
EndsFlat-of-drop l h =
    let (a, b, c, e, p, q) = not_shrinking_three (drop (length l - 3) l) h in
    (
      take (length l - 3) l,
      a,
      b,
      c,
      sym (take-append-drop (length l - 3) l) ∙ ap (λ r. take (length l - 3) l ++ r) e,
      p,
      q,
    )

drop_last_three :
    (pre : List ℕ) (a b c : ℕ)
    → drop (length (pre ++ a ∷ b ∷ c ∷ []) - 3) (pre ++ a ∷ b ∷ c ∷ []) ≡ a ∷ b ∷ c ∷ []
drop_last_three pre a b c =
    let e : length (pre ++ a ∷ b ∷ c ∷ []) - 3 ≡ length pre =
      omega (arith, length-append pre (a ∷ b ∷ c ∷ [])) in
    rw e (drop-length_append pre (a ∷ b ∷ c ∷ []))

not_shrinking-of-EndsFlat :
    (l : List ℕ) → EndsFlat l → (not_shrinking (drop (length l - 3) l) ≡ true) × (3 ≤ length l)
unfolding not_shrinking
not_shrinking-of-EndsFlat l (pre, a, b, c, e, p, q) = rw e (
    rw (drop_last_three pre a b c)
      (ground arith, omega (arith, length-append pre (a ∷ b ∷ c ∷ []))))

stuck_test :
    (t : Task) (v : Verdict)
    → stuck t v ≡ true
    → (reviewed_by (parse_spec t.check_spec) ≡ true)
      × (not_shrinking (drop (length v.blocking - 3) v.blocking) ≡ true)
unfolding stuck
stuck_test t v h = ground arith

-- The guard stops a task exactly when its check is a reviewer and the last three blocking counts do
-- not shrink from one to the next.
pub stuck_iff :
    (t : Task) (v : Verdict)
    → (stuck t v ≡ true) ↔ ((reviewed_by (parse_spec t.check_spec) ≡ true) × EndsFlat v.blocking)
unfolding stuck
stuck_iff t v = (
  λ h. ((stuck_test t v h).0, EndsFlat-of-drop v.blocking (stuck_test t v h).1),
  λ (r, f). let (e, n) = not_shrinking-of-EndsFlat v.blocking f in ground arith,
)

error-recorded : (t : Task) (v : Verdict) (o : Obs) → (recorded t v o).error ≡ v.error
unfolding recorded
error-recorded t v o = refl

passes-recorded : (t : Task) (v : Verdict) (o : Obs) → passes (recorded t v o) ≡ passes v
unfolding recorded passes
passes-recorded t v o = refl

-- The findings go to the worker, and one more round begins.
pub record Fixes (t : Task) (v : Verdict) (m : Move) : Type 0 where
  pub to_fixing : m.next.phase ≡ fixing
  pub one_more : m.next.round ≡ t.round + 1
  pub rounds_left : t.round < t.max_rounds
  pub converging : stuck t v ≡ false
  pub sent : m.effect ≡ record { kind = send; text = fix_message t v }

-- The task stops for the user in the same round.
pub record GivesUp (t : Task) (v : Verdict) (m : Move) : Type 0 where
  pub to_user : m.next.phase ≡ needs_you
  pub to_resume : m.next.step ≡ resume_round
  pub same_round : m.next.round ≡ t.round
  pub nothing_sent : m.effect.kind ≡ no_effect
  pub why : (t.max_rounds ≤ t.round) ⊎ (stuck t v ≡ true)

judge_failed :
    (t : Task) (v : Verdict) (o : Obs) (n : Task)
    → n.round ≡ t.round
    → v.error ≡ []
    → passes v ≡ false
    → Fixes t v (judge t v o n) ⊎ GivesUp t v (judge t v o n)
unfolding judge
judge_failed t v o n r e f = elim (Bool-cases (leb t.max_rounds t.round)) [
  | inl full ↦ inr (ground arith)
  | inr left ↦ elim (Bool-cases (stuck t v)) [
    | inl flat ↦ inr (ground arith)
    | inr fine ↦ inl (ground arith)
  ]
]

-- A check that ran and did not pass: with rounds left and the findings shrinking, the worker gets
-- them and the next round begins; else the task stops for the user in the same round.
pub next-failed_check :
    (t : Task) (o : Obs) (v : Verdict)
    → t.phase ≡ checking
    → o.verdict ≡ some v
    → v.error ≡ []
    → passes v ≡ false
    → Fixes t (recorded t v o) (next t o) ⊎ GivesUp t (recorded t v o) (next t o)
unfolding apply_verdict
next-failed_check t o v e q x f =
    subst (λ m. Fixes t (recorded t v o) m ⊎ GivesUp t (recorded t v o) m)
      (sym (next_checked t o v e q))
      (judge_failed t (recorded t v o) o (record t { last_check = some (recorded t v o) }) refl
        (error-recorded t v o ∙ x) (passes-recorded t v o ∙ f))
