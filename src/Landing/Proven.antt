-- ===== src/Landing/Proven.antt =====
-- What is known once a landing is done.
use c_squad.Engine.{Live}
use c_squad.Task.{Task, Phase}
use c_squad.Flow.Kinds.{Landing}
use c_squad.Flow.Next
use c_squad.Flow.Next.{next, dispatch, next_merging}
use c_squad.App.Effects.{Outside, landed_obs}
use c_squad.Gitx.Kinds.{Fallible, ok, err, and_then, Worktree}
use c_squad.Finish.Inspect.{Plan, inspect, branch_ref}
use c_squad.Finish.Clean.{Cleaned, clean_plan}
use c_squad.Finish.Command.{with_engine}
use c_squad.Finish.Safe.{IsSafe, inspect-IsSafe}
use c_squad.Finish.Verified.{is_empty-empty}
use c_squad.Landing.Guarded.{look-again}
use c_squad.Landing.Merge.{
  Command, remove, Site, Landed, problem, look, landed, mergeable, checked_out, cleaned, verified,
  into_target, abandoned, is_based, fast_forwarded, forward, rebased, merged_one, planned, looked,
  landing,
}
use c_squad.Base.{
  arith, ◌≡◌, refl, sym, ◌∙◌, ap, subst, ◌⊎◌, inl, inr, true, false, Bool-cases, Option,
  Option-cases, none, some, List, [], ◌++◌, map, is_empty, if-both, Text,
}

-- The work was merged: asked again after the merge, git said that it is all in the target, and then it
-- was removed without force.
pub record IsMergedOf (s : Site) (t : Task) (l : Live) (target : Text) (r : Landed) : Type 0 where
  pub plan : Plan
  pub found : inspect s.after t target l ≡ ok plan
  pub no_problem : plan.problems ≡ []
  pub safe : IsSafe s.after plan
  pub all_removed : (clean_plan s.run false plan).error ≡ none
  pub earlier : List Command
  pub commands : r.ran ≡ earlier ++ map remove (clean_plan s.run false plan).ran

-- What a result that says `done` rests on.
unfoldable Rests : Site → Task → Live → Text → Landed → Type 0
Rests s t l target r = r.result.done ≡ true → IsMergedOf s t l target r

module _ (s : Site) (t : Task) (l : Live) (target : Text) where
  problem-Rests :
      (res : Landing) (ran : List Command) (e : Text)
      → res.done ≡ false
      → Rests s t l target (problem res ran e)
  unfolding problem Rests
  problem-Rests res ran e undone h = cc

  abandoned-Rests :
      (res : Landing) (dir into : Text) (e : Text × Text)
      → res.done ≡ false
      → Rests s t l target (abandoned res dir into e)
  unfolding abandoned Rests
  abandoned-Rests res dir into (out, e) undone h = cc

  cleaned-Rests :
      (p : Plan) (res : Landing) (ran : List Command) (c : Cleaned)
      → inspect s.after t target l ≡ ok p
      → p.problems ≡ []
      → clean_plan s.run false p ≡ c
      → res.done ≡ false
      → Rests s t l target (cleaned s t l p res ran c)
  unfolding cleaned Rests landed problem
  cleaned-Rests p res ran c found no_problem q undone = elim (Option-cases c.error) [
    | inr (e, h) ↦ rw h (λ k. cc)
    | inl h ↦ rw h (λ k. record {
      plan = p;
      found = found;
      no_problem = no_problem;
      safe = inspect-IsSafe s.after t target l p found no_problem;
      all_removed = ap (λ x. x.error) q ∙ h;
      earlier = ran;
      commands = ap (λ x. ran ++ map remove x.ran) (sym q);
    })
  ]

  verified-Rests :
      (res : Landing) (ran : List Command) (r : Fallible Plan)
      → inspect s.after t target l ≡ r
      → res.done ≡ false
      → Rests s t l target (verified s t l res ran r)
  unfolding verified
  verified-Rests res ran (err e) q undone = problem-Rests res ran e undone
  verified-Rests res ran (ok p) q undone =
      if-both (Rests s t l target) (is_empty p.problems) _ _
        (λ e.
          cleaned-Rests p res ran (clean_plan s.run false p) q (is_empty-empty p.problems e) refl
            undone)
        (λ _. problem-Rests res ran _ undone)

  fast_forwarded-Rests :
      (repo b : Text) (res : Landing) (ran : List Command) (w : Option Worktree)
      → res.done ≡ false
      → Rests s t l target (fast_forwarded s t l repo target b res ran w)
  unfolding fast_forwarded Rests
  fast_forwarded-Rests repo b res ran (some w) undone =
      elim (Option-cases (s.fast_forward_error w.path b)) [
        | inl h ↦ rw (Rests, fast_forwarded, h) (verified-Rests res _ _ refl undone)
        | inr (e, h) ↦ rw (Rests, fast_forwarded, h) (problem-Rests res _ _ undone)
      ]
  fast_forwarded-Rests repo b res ran none undone =
      elim (Option-cases (s.fetch_error repo b target)) [
        | inl h ↦ rw (Rests, fast_forwarded, h) (verified-Rests res _ _ refl undone)
        | inr (e, h) ↦ rw (Rests, fast_forwarded, h) (problem-Rests res _ _ undone)
      ]

  forward-Rests :
      (repo b : Text) (res : Landing) (ran : List Command) (ws : Fallible (List Worktree))
      → res.done ≡ false
      → Rests s t l target (forward s t l repo target b res ran ws)
  unfolding forward
  forward-Rests repo b res ran (err e) undone = problem-Rests res ran e undone
  forward-Rests repo b res ran (ok ws) undone =
      fast_forwarded-Rests repo b res ran (checked_out ws target) undone

module _ (s : Site) (t : Task) (l : Live) where
  rebased-Rests :
      (p : Plan) (b : Text) (w : Option Worktree) → Rests s t l p.target (rebased s t l p b w)
  unfolding rebased
  rebased-Rests p b none =
      if-both (Rests s t l p.target)
        (is_based (s.is_ancestor p.repo (branch_ref p.target) (branch_ref b))) _ _
        (λ _. forward-Rests s t l p.target p.repo b _ [] (s.worktrees p.repo) refl)
        (λ _. problem-Rests s t l p.target _ [] _ refl)
  rebased-Rests p b (some w) = elim (Option-cases (s.rebase_error w.path p.target)) [
    | inl h ↦ rw (rebased, h) (forward-Rests s t l p.target p.repo b _ _ (s.worktrees p.repo) refl)
    | inr (e, h) ↦
        rw (rebased, h)
          (abandoned-Rests s t l p.target
            (record (into_target p.target) { branch = b; dir = w.path }) w.path p.target e refl)
  ]

  merged_one-Rests :
      (p : Plan) (r : Fallible (Option Text)) → Rests s t l p.target (merged_one s t l p r)
  unfolding merged_one
  merged_one-Rests p (err e) = problem-Rests s t l p.target _ [] e refl
  merged_one-Rests p (ok (some b)) = rebased-Rests p b (checked_out p.worktrees b)
  merged_one-Rests p (ok none) = verified-Rests s t l p.target _ [] _ refl refl

-- Why a task may be landed: nothing is to merge in place, or its work was merged into the target that
-- was found first.
pub record IsLandedTask (s : Site) (t : Task) (r : Landed) : Type 0 where
  pub live : Live
  pub resting : look s t ≡ ok live
  pub merged :
      (t.in_place ≡ true)
      ⊎ ((p : Plan) × (inspect s.before t t.merge_into live ≡ ok p)
          × IsMergedOf s t live p.target r)

-- What a result that says `done` tells of the task.
unfoldable Tells : Site → Task → Landed → Type 0
Tells s t r = r.result.done ≡ true → IsLandedTask s t r

problem-Tells :
    (s : Site) (t : Task) (res : Landing) (ran : List Command) (e : Text)
    → res.done ≡ false
    → Tells s t (problem res ran e)
unfolding problem Tells
problem-Tells s t res ran e undone h = cc

module _ (s : Site) (t : Task) (l : Live) (resting : look s t ≡ ok l) where
  merged-Tells :
      (p : Plan) (r : Landed)
      → inspect s.before t t.merge_into l ≡ ok p
      → Rests s t l p.target r
      → Tells s t r
  unfolding Tells Rests
  merged-Tells p r found rests h = record {
    live = l;
    resting = resting;
    merged = inr (p, found, rests h);
  }

  planned-Tells :
      (r : Fallible Plan) → inspect s.before t t.merge_into l ≡ r → Tells s t (planned s t l r)
  unfolding planned
  planned-Tells (err e) q = problem-Tells s t _ [] e refl
  planned-Tells (ok p) q =
      if-both (Tells s t) (is_empty p.repo) _ _ (λ _. problem-Tells s t _ [] _ refl)
        (λ _. merged-Tells p _ q (merged_one-Rests s t l p (mergeable s t p)))

  in_place-Tells : (r : Landed) → t.in_place ≡ true → Tells s t r
  unfolding Tells
  in_place-Tells r e h = record { live = l; resting = resting; merged = inl e }

looked-Tells :
    (s : Site) (t : Task) (r : Fallible Live)
    → ((l : Live) → r ≡ ok l → look s t ≡ ok l)
    → Tells s t (looked s t r)
unfolding looked
looked-Tells s t (err e) q = problem-Tells s t _ [] e refl
looked-Tells s t (ok l) q =
    if-both (Tells s t) t.in_place _ _ (in_place-Tells s t l (q l refl) _)
      (λ _. planned-Tells s t l (q l refl) _ refl)

-- A landing is done only if the session was at rest, and the task is in place or its work was merged:
-- asked again after the merge, git said that each branch of the task is in the target and each worktree
-- clean, and the commands that were run end with those that remove them without force, which all
-- succeeded.
pub landing-IsLandedTask :
    (s : Site) (t : Task) → (landing s t).result.done ≡ true → IsLandedTask s t (landing s t)
unfolding landing Tells
landing-IsLandedTask s t =
    looked-Tells s t (and_then (with_engine s.engine_error t) (look s)) (look-again s t)

landed-done : (t : Task) (r : Landing) → (Next.landed t r).next.phase ≡ Phase.done → r.done ≡ true
unfolding Next.landed
landed-done t r h = elim (Bool-cases r.done) [ inl e ↦ e | inr e ↦ ground (arith, e, h) ]

-- The move of a merging task that is decided on the result of its landing marks the task done only if
-- the session was at rest and the task is in place or its work was merged, as above.
pub next-landing_proven :
    (out : Outside) (s : Site) (t : Task)
    → t.phase ≡ Phase.merging
    → (next t (landed_obs out (landing s t).result)).next.phase ≡ Phase.done
    → IsLandedTask s t (landing s t)
unfolding next dispatch next_merging
next-landing_proven out s t m h = landing-IsLandedTask s t (
    landed-done t (landing s t).result (
      subst (λ p. (dispatch p t (landed_obs out (landing s t).result)).next.phase ≡ Phase.done) m
        h))
