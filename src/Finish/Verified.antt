-- ===== src/Finish/Verified.antt =====
-- Finishing removes nothing before git said that the work is merged and clean.
use c_squad.Engine.{Live}
use c_squad.Task.{Task, finished}
use c_squad.Store.Table.{Table, Reply, reply, db_error, conflict, not_found}
use c_squad.Store.Ops.{get}
use c_squad.Mover.Apply.{World}
use c_squad.Finish.Inspect.{Plan, inspect}
use c_squad.Finish.Safe.{IsSafe, and_then-ok, if-true, if-false, ok-inj, inspect-IsSafe}
use c_squad.Finish.Clean.{Removal, Cleaned, clean_plan}
use c_squad.Finish.Command.{
  Answers, finish_one, finish_with, inspected, unless_problems, at_rest, task_found, not_finishable,
  locked, owns, still_unfinished, with_engine, cleaned, closed,
}
use c_squad.Gitx.Kinds.{Fallible, ok, err}
use c_squad.Base.{
  ℕ, ◌≡◌, ◌≢◌, ◌⊎◌, inl, inr, refl, ap, subst, ◌∙◌, Bool, true, false, ◌&&◌, not, lit, Bool-cases,
  Option, Option-cases, none, some, List, [], ◌∷◌, is_empty, Text,
}

pub is_empty-empty : {A : Type 0} → (xs : List A) → is_empty xs ≡ true → xs ≡ []
is_empty-empty [] h = refl
is_empty-empty (x ∷ xs) h = cc

unless_problems-ok :
    (t : Task) (p p' : Plan) → unless_problems t p ≡ ok p' → (p ≡ p') × (p.problems ≡ [])
unfolding unless_problems
unless_problems-ok t p p' h = elim (Bool-cases (is_empty p.problems)) [
  | inl e ↦ (ok-inj p p' (if-true (is_empty p.problems) _ _ _ e h), is_empty-empty p.problems e)
  | inr e ↦ let k = if-false (is_empty p.problems) _ _ _ e h in cc
]

-- What was verified of a task, the row as it is once its lock is held, before its work is removed.
pub record Verified (a : Answers) (tbl : Table) (id : ℕ) (into : Text) (t : Task) (l : Live)
    (p : Plan) : Type 0 where
  pub row : get a.read_io id tbl ≡ reply t
  pub resting : at_rest t (a.sight t) ≡ ok l
  pub found : inspect a.git t into l ≡ ok p
  pub no_problem : p.problems ≡ []
  pub safe : IsSafe a.git p

pub task_found-ok :
    (owners : _) (everyone : Bool) (verb : Text) (id : ℕ) (r : Reply Task) (t : Task)
    → task_found owners everyone verb id r ≡ ok t
    → r ≡ reply t
unfolding task_found
task_found-ok owners everyone verb id (reply s) t h =
    elim (Bool-cases (not everyone && not (owns owners s))) [
      | inl e ↦ let k = if-true (not everyone && not (owns owners s)) _ _ _ e h in cc
      | inr e ↦ ap reply (ok-inj s t (if-false (not everyone && not (owns owners s)) _ _ _ e h))
    ]
task_found-ok owners everyone verb id conflict t h = cc
task_found-ok owners everyone verb id not_found t h = cc
task_found-ok owners everyone verb id (db_error e) t h = cc

pub with_engine-ok : (e : Option Text) (t t' : Task) → with_engine e t ≡ ok t' → t ≡ t'
unfolding with_engine
with_engine-ok none t t' h = ok-inj t t' h
with_engine-ok (some e) t t' h = cc

still_unfinished-ok : (t t' : Task) → still_unfinished t ≡ ok t' → t ≡ t'
unfolding still_unfinished
still_unfinished-ok t t' h = elim (Bool-cases (finished t.phase)) [
  | inl e ↦ let k = if-true (finished t.phase) _ _ _ e h in cc
  | inr e ↦ ok-inj t t' (if-false (finished t.phase) _ _ _ e h)
]

-- The task that is finished is the row as it is once the lock is held.
locked-row :
    (a : Answers) (tbl : Table) (id : ℕ) (t cur : Task)
    → locked a tbl id t ≡ ok cur
    → get a.read_io id tbl ≡ reply cur
unfolding locked
locked-row a tbl id t cur h = elim (Bool-cases a.lock_free) [
  | inl e ↦
      let (x, e1, h1) =
        and_then-ok (task_found a.owners true (lit "finish") id (get a.read_io id tbl)) _ _
          (if-true a.lock_free _ _ _ e h) in
      let (y, e2, h2) = and_then-ok (still_unfinished x) _ _ h1 in
      task_found-ok a.owners true (lit "finish") id _ x e1
      ∙ ap reply (still_unfinished-ok x y e2 ∙ with_engine-ok a.engine_error y cur h2)
  | inr e ↦ let k = if-false a.lock_free _ _ _ e h in cc
]

closed-ran :
    (w : World) (t : Task) (ran : List Removal) (gone : Bool) (r : Table × Reply Task)
    → (closed w t ran gone r).ran ≡ ran
unfolding closed
closed-ran w t ran gone (tbl, reply s) = refl
closed-ran w t ran gone (tbl, conflict) = refl
closed-ran w t ran gone (tbl, not_found) = refl
closed-ran w t ran gone (tbl, db_error e) = refl

cleaned-ran :
    (a : Answers) (w : World) (t : Task) (l : Live) (p : Plan) (c : Cleaned)
    → (cleaned a w t l p c).ran ≡ c.ran
unfolding cleaned
cleaned-ran a w t l p c = elim (Option-cases c.error) [
  | inl e ↦ rw e (closed-ran w t c.ran _ _)
  | inr (x, e) ↦ rw e
]

inspected-Verified :
    (a : Answers) (tbl : Table) (id : ℕ) (into : Text) (t : Task) (l : Live) (p : Plan)
    → inspected a tbl id into ≡ ok (t, l, p)
    → Verified a tbl id into t l p
unfolding inspected
inspected-Verified a tbl id into t l p h =
    let (before, e1, h1) =
      and_then-ok (task_found a.owners a.everyone (lit "finish") id (get a.first_io id a.first)) _ _
        h in
    let (startable, e2, h2) = and_then-ok (not_finishable before) _ _ h1 in
    let (t', e3, h3) = and_then-ok (locked a tbl id startable) _ _ h2 in
    let (l', e4, h4) = and_then-ok (at_rest t' (a.sight t')) _ _ h3 in
    let (p', e5, h5) = and_then-ok (inspect a.git t' into l') _ _ h4 in
    let (p'', e6, h6) = and_then-ok (unless_problems t' p') _ _ h5 in
    let (same_plan, none_left) = unless_problems-ok t' p' p'' e6 in
    subst (λ r. Verified a tbl id into r.0 r.1 r.2) (ok-inj (t', l', p'') (t, l, p) h6)
      (subst (λ x. Verified a tbl id into t' l' x) same_plan
        (record {
          row = locked-row a tbl id startable t' e3;
          resting = e4;
          found = e5;
          no_problem = none_left;
          safe = inspect-IsSafe a.git t' into l' p' e5 none_left;
        }))

finish_with-Verified :
    (a : Answers) (w : World) (id : ℕ) (into : Text) (r : Fallible (Task × Live × Plan))
    → inspected a w.table id into ≡ r
    → ((finish_with a w r).ran ≢ [])
      ⊎ ((finish_with a w r).session_removed ≡ true)
      ⊎ ((finish_with a w r).error ≡ none)
    → (t : Task) × (l : Live) × (p : Plan) × Verified a w.table id into t l p
      × ((finish_with a w r).ran ≡ (clean_plan a.run false p).ran)
unfolding finish_with
finish_with-Verified a w id into (err e) q (inl n) = absurd (n refl)
finish_with-Verified a w id into (err e) q (inr (inl h)) = cc
finish_with-Verified a w id into (err e) q (inr (inr h)) = cc
finish_with-Verified a w id into (ok (t, l, p)) q h = (
  t,
  l,
  p,
  inspected-Verified a w.table id into t l p q,
  cleaned-ran a w t l p (clean_plan a.run false p),
)

-- If finishing runs any command on the repository, removes the session, or succeeds, then the session
-- was seen at rest and the plan for the task has no problem: every branch in it is merged into the
-- target, as a whole or by patch, as git said, and every worktree in it is clean.
-- The commands are those that clean up this plan without force.
pub finish_one-Verified :
    (a : Answers) (w : World) (id : ℕ) (into : Text)
    → ((finish_one a w id into).ran ≢ [])
      ⊎ ((finish_one a w id into).session_removed ≡ true)
      ⊎ ((finish_one a w id into).error ≡ none)
    → (t : Task) × (l : Live) × (p : Plan) × Verified a w.table id into t l p
      × ((finish_one a w id into).ran ≡ (clean_plan a.run false p).ran)
unfolding finish_one
finish_one-Verified a w id into h =
    finish_with-Verified a w id into (inspected a w.table id into) refl h
