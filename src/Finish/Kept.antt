-- ===== src/Finish/Kept.antt =====
-- Cancelling without `--discard` loses no work.
use c_squad.Engine.{Live}
use c_squad.Task.{Task, Phase, phase_eq, finished}
use c_squad.Mover.Apply.{World}
use c_squad.Store.Table.{Table, Reply, reply, db_error, conflict, not_found}
use c_squad.Store.Ops.{get}
use c_squad.App.Advance.{Pass}
use c_squad.Gitx.Kinds.{Fallible, ok, err}
use c_squad.Finish.Inspect.{Plan, inspect}
use c_squad.Finish.Clean.{Removal, Cleaned, clean_plan}
use c_squad.Finish.Command.{Answers, Sight, seen, unseen, task_found, with_engine}
use c_squad.Finish.Cancel.{
  Cancelled, looked_at, take_out, after_clean, cancel_looked, again, cancel_again, cancel_found,
  cancel_one, written, refused, sight_of, observed, interrupts, stopping, read_again, unfinished,
  again_error,
}
use c_squad.Finish.Verified.{is_empty-empty, task_found-ok}
use c_squad.Finish.Safe.{IsSafe, and_then-ok, if-true, if-false, ok-inj, inspect-IsSafe}
use c_squad.Base.{
  ℕ, ◌≡◌, ◌≢◌, ◌⊎◌, refl, ap, ◌∙◌, subst, inl, inr, Bool, true, false, not, ◌&&◌, Bool-cases,
  Option-cases, lit, List, [], Text, is_empty, if-both, arith,
}

-- What holds where commands were run without a discard: the task is the row `id` as it was read after
-- its session was seen, it was unfinished, git answered the plan for it, and that plan, which has no
-- problem, was carried out.
pub record IsLossless (a : Answers) (w : World) (id : ℕ) (ran : List Removal) : Type 0 where
  pub before : Task
  pub task : Task
  pub live : Live
  pub plan : Plan
  pub first : get a.first_io id a.first ≡ reply before
  pub sight : a.sight before ≡ seen live
  pub row : get a.read_io before.id w.table ≡ reply task
  pub unended : finished task.phase ≡ false
  pub found : inspect a.git task [] live ≡ ok plan
  pub no_problem : plan.problems ≡ []
  pub safe : IsSafe a.git plan
  pub commands : ran ≡ (clean_plan a.run false plan).ran

abbrev Touches : Cancelled → Type 0
Touches c = (c.ran ≢ []) ⊎ (c.session_removed ≡ true)

refused-untouched : (c : Cancelled) → c.ran ≡ [] → c.session_removed ≡ false → ¬ Touches c
refused-untouched c r s (inl n) = n r
refused-untouched c r s (inr e) = cc

written-same :
    (passes : ℕ → Pass) (w : World) (t : Task) (ran : List Removal) (gone kept : Bool)
    (r : Table × Reply Task)
    → ((written passes w t ran gone kept r).ran ≡ ran)
      × ((written passes w t ran gone kept r).session_removed ≡ gone)
unfolding written
written-same passes w t ran gone kept (tbl, reply s) = (refl, refl)
written-same passes w t ran gone kept (tbl, conflict) = (refl, refl)
written-same passes w t ran gone kept (tbl, not_found) = (refl, refl)
written-same passes w t ran gone kept (tbl, db_error e) = (refl, refl)

take_out-same :
    (a : Answers) (passes : ℕ → Pass) (w : World) (t : Task) (ran : List Removal) (gone kept : Bool)
    → ((take_out a passes w t ran gone kept).ran ≡ ran)
      × ((take_out a passes w t ran gone kept).session_removed ≡ gone)
unfolding take_out
take_out-same a passes w t ran gone kept = written-same passes w t ran gone kept _

-- The row alone is written.
take_out-untouched :
    (a : Answers) (passes : ℕ → Pass) (w : World) (t : Task) (kept : Bool)
    → ¬ Touches (take_out a passes w t [] false kept)
take_out-untouched a passes w t kept =
    let (r, s) = take_out-same a passes w t [] false kept in
    refused-untouched (take_out a passes w t [] false kept) r s

after_clean-ran :
    (a : Answers) (passes : ℕ → Pass) (w : World) (before : List Text) (t : Task) (l : Live)
    (c : Cleaned)
    → (after_clean a passes w before t l c).ran ≡ c.ran
unfolding after_clean
after_clean-ran a passes w before t l c = elim (Option-cases c.error) [
  | inl e ↦ rw e ((take_out-same a passes w t c.ran _ false).0)
  | inr (x, e) ↦ rw e refl
]

observed-seen : (t : Task) (x : Sight) (l : Live) → observed t x ≡ ok l → x ≡ seen l
unfolding observed
observed-seen t (seen k) l h = ap seen (ok-inj k l h)
observed-seen t (unseen true e) l h = cc
observed-seen t (unseen false e) l h = cc

sight_of-seen : (a : Answers) (t : Task) (l : Live) → sight_of a t ≡ ok l → a.sight t ≡ seen l
unfolding sight_of
sight_of-seen a t l h =
    let (_, _, k) = and_then-ok (with_engine a.engine_error t) _ _ h in
    observed-seen t (a.sight t) l k

read_again-ok : (r : Reply Task) (t : Task) → read_again r ≡ ok t → r ≡ reply t
unfolding read_again
read_again-ok (reply s) t h = ap reply (ok-inj s t h)
read_again-ok conflict t h = cc
read_again-ok not_found t h = cc
read_again-ok (db_error e) t h = cc

unfinished-ok : (t c : Task) → unfinished t ≡ ok c → (t ≡ c) × (finished t.phase ≡ false)
unfolding unfinished
unfinished-ok t c h = elim (Bool-cases (finished t.phase)) [
  | inl e ↦ let k = if-true (finished t.phase) _ _ _ e h in cc
  | inr e ↦ (ok-inj t c (if-false (finished t.phase) _ _ _ e h), e)
]

-- What looking at a session saw and read.
Looked : Answers → Table → Task → Task × Live × Plan → Type 0
Looked a tbl t (c, l, p) =
    (a.sight t ≡ seen l)
    × (get a.read_io t.id tbl ≡ reply c)
    × (finished c.phase ≡ false)
    × (inspect a.git c [] l ≡ ok p)

looked_at-Looked :
    (a : Answers) (tbl : Table) (t : Task) (o : Task × Live × Plan)
    → looked_at a tbl t ≡ ok o
    → Looked a tbl t o
unfolding looked_at Looked
looked_at-Looked a tbl t o h =
    let (l, saw, h2) = and_then-ok (sight_of a t) _ _ h in
    let (y, read, h3) = and_then-ok (read_again (get a.read_io t.id tbl)) _ _ h2 in
    let (c, unended, h4) = and_then-ok (unfinished y) _ _ h3 in
    let (p, found, h5) = and_then-ok (inspect a.git c [] l) _ _ h4 in
    let (same, still) = unfinished-ok y c unended in
    subst (Looked a tbl t) (ok-inj (c, l, p) o h5) (
      sight_of-seen a t l saw,
      read_again-ok _ c (read ∙ ap ok same),
      subst (λ x. finished x.phase ≡ false) same still,
      found,
    )

module _ (a : Answers) (passes : ℕ → Pass) (w : World) (id : ℕ) where
  unfoldable Lossless : Cancelled → Type 0
  Lossless c = Touches c → IsLossless a w id c.ran

  -- A plan without problems was carried out.
  carried_out-Lossless :
      (t c : Task) (l : Live) (p : Plan) (before : List Text)
      → get a.first_io id a.first ≡ reply t
      → Looked a w.table t (c, l, p)
      → p.problems ≡ []
      → Lossless (after_clean a passes w before c l (clean_plan a.run false p))
  unfolding Lossless Looked
  carried_out-Lossless t c l p before first (saw, row, unended, found) e _ = record {
    before = t;
    task = c;
    live = l;
    plan = p;
    first = first;
    sight = saw;
    row = row;
    unended = unended;
    found = found;
    no_problem = e;
    safe = inspect-IsSafe a.git c [] l p found e;
    commands = after_clean-ran a passes w before c l (clean_plan a.run false p);
  }

  take_out-Lossless : (t : Task) (kept : Bool) → Lossless (take_out a passes w t [] false kept)
  unfolding Lossless
  take_out-Lossless t kept h = absurd (take_out-untouched a passes w t kept h)

  refused-Lossless : (e : Text) → Lossless (refused w e)
  unfolding refused Lossless
  refused-Lossless e h = absurd (refused-untouched (refused w e) refl refl h)

  cancel_looked-Lossless :
      (before : List Text) (t : Task) (r : Fallible (Task × Live × Plan))
      → get a.first_io id a.first ≡ reply t
      → looked_at a w.table t ≡ r
      → Lossless (cancel_looked a passes false w before r)
  unfolding cancel_looked
  cancel_looked-Lossless before t (err e) f q = refused-Lossless e
  cancel_looked-Lossless before t (ok (c, l, p)) f q =
      if-both Lossless (not (is_empty p.problems) && true) _ _ (λ _. take_out-Lossless c true)
        (λ e.
          carried_out-Lossless t c l p before f (looked_at-Looked a w.table t (c, l, p) q)
            (is_empty-empty p.problems (ground (arith, e))))

  -- A task that was cancelled before is left as it is.
  again-Lossless : (t : Task) (r : Fallible (Live × Plan)) → Lossless (again a false w t r)
  unfolding again
  again-Lossless t (err e) = refused-Lossless e
  again-Lossless t (ok (l, p)) = refused-Lossless (again_error t l p)

  cancel_again-Lossless : (t : Task) → Lossless (cancel_again a false w t)
  unfolding cancel_again
  cancel_again-Lossless t =
      if-both Lossless a.lock_free _ _ (λ _. again-Lossless t _) (λ _. refused-Lossless _)

  stopping-Lossless : (stops : Bool) (c : Cancelled) → Lossless c → Lossless (stopping stops c)
  unfolding Lossless
  stopping-Lossless stops c h = h

  cancel_found-Lossless :
      (r : Fallible Task)
      → ((t : Task) → r ≡ ok t → get a.first_io id a.first ≡ reply t)
      → Lossless (cancel_found a passes false w r)
  unfolding cancel_found
  cancel_found-Lossless (err e) f = refused-Lossless e
  cancel_found-Lossless (ok t) f =
      if-both Lossless (phase_eq t.phase Phase.cancelled) _ _ (λ _. cancel_again-Lossless t)
        (λ _.
          if-both Lossless (finished t.phase) _ _ (λ _. refused-Lossless _)
            (λ _.
              if-both Lossless (not a.lock_free) _ _ (λ _. refused-Lossless _)
                (λ _.
                  if-both Lossless (is_empty t.session_id) _ _ (λ _. take_out-Lossless t false)
                    (λ _.
                      stopping-Lossless (interrupts (sight_of a t)) _
                        (cancel_looked-Lossless _ t (looked_at a w.table t) (f t refl) refl)))))

-- If cancelling without a discard runs any command on the repository or removes the session, then the
-- row of the task, read again after its session was seen, was unfinished, and the plan that git gave for
-- that row and that session has no problem: every branch in it is merged into the target, as a whole or
-- by patch, as git said, and every worktree in it is clean. The commands are those that clean up this
-- plan without force.
pub cancel_one-IsLossless :
    (a : Answers) (passes : ℕ → Pass) (w : World) (id : ℕ)
    → ((cancel_one a passes false w id).ran ≢ [])
      ⊎ ((cancel_one a passes false w id).session_removed ≡ true)
    → IsLossless a w id (cancel_one a passes false w id).ran
unfolding cancel_one Lossless
cancel_one-IsLossless a passes w id h =
    let first = get a.first_io id a.first in
    cancel_found-Lossless a passes w id (task_found a.owners a.everyone (lit "cancel") id first)
      (λ t e. task_found-ok a.owners a.everyone (lit "cancel") id first t e) h
