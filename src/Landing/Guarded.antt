-- ===== src/Landing/Guarded.antt =====
-- What is checked before a landing runs its first command on the repository.
use c_squad.Engine.{Live}
use c_squad.Task.{Task}
use c_squad.Gitx.Kinds.{Fallible, ok, err, and_then, Worktree}
use c_squad.Finish.Inspect.{Plan, inspect, branch_ref}
use c_squad.Finish.Command.{with_engine}
use c_squad.Finish.Safe.{and_then-ok, if-true, if-false}
use c_squad.Finish.Verified.{with_engine-ok, is_empty-empty}
use c_squad.Flow.Kinds.{Landing}
use c_squad.Landing.Merge.{
  Site, Landed, problem, look, is_clean, landed, all_clean, unmerged_of, one_of, mergeable,
  merged_one, planned, looked, landing,
}
use c_squad.Base.{
  ◌≡◌, ◌≢◌, refl, sym, ap, subst, Bool, true, false, Option, List, [], ◌∷◌, All, is_empty, if-both,
  Text, text_eq, text_eq_iff, Bool-cases, inl, inr,
}

-- What is known before the first command.
pub record IsGuarded (s : Site) (t : Task) : Type 0 where
  pub live : Live
  pub resting : look s t ≡ ok live
  pub outside : t.in_place ≡ false
  pub plan : Plan
  pub found : inspect s.before t t.merge_into live ≡ ok plan
  pub clean : All (λ w. s.dirty w.path ≡ ok []) plan.worktrees
  pub apart : All (λ b. b ≢ plan.target) plan.branches

is_clean-ok : (d : Fallible Text) → is_clean d ≡ true → d ≡ ok []
unfolding is_clean
is_clean-ok (ok c) h = ap ok (is_empty-empty c h)
is_clean-ok (err e) h = cc

all_clean-All :
    (s : Site) (ws : List Worktree) (x : Bool)
    → all_clean s ws ≡ ok x
    → All (λ w. s.dirty w.path ≡ ok []) ws
unfolding all_clean
all_clean-All s [] x h = tt
all_clean-All s (w ∷ ws) x h = elim (Bool-cases (is_clean (s.dirty w.path))) [
  | inl e ↦ (
    is_clean-ok (s.dirty w.path) e,
    all_clean-All s ws x (if-true (is_clean (s.dirty w.path)) _ _ _ e h),
  )
  | inr e ↦ absurd (let k = if-false (is_clean (s.dirty w.path)) _ _ _ e h in cc)
]

unmerged_of-All :
    (s : Site) (repo into : Text) (bs us : List Text)
    → unmerged_of s repo into bs ≡ ok us
    → All (λ b. b ≢ into) bs
unfolding unmerged_of
unmerged_of-All s repo into [] us h = tt
unmerged_of-All s repo into (b ∷ bs) us h = elim (Bool-cases (text_eq b into)) [
  | inl e ↦ absurd (let k = if-true (text_eq b into) _ _ _ e h in cc)
  | inr e ↦
      let (m, _, k) =
        and_then-ok (s.before.merged repo (branch_ref b) (branch_ref into)) _ _
          (if-false (text_eq b into) _ _ _ e h) in
      let (vs, more, _) = and_then-ok (unmerged_of s repo into bs) _ _ k in
      (λ x. (let y = (text_eq_iff b into).1 x in cc), unmerged_of-All s repo into bs vs more)
]

module _ (s : Site) (t : Task) where
  mergeable-ok :
      (p : Plan) (o : Option Text)
      → mergeable s t p ≡ ok o
      → All (λ w. s.dirty w.path ≡ ok []) p.worktrees × All (λ b. b ≢ p.target) p.branches
  unfolding mergeable
  mergeable-ok p o h =
      let (x, clean, k) = and_then-ok (all_clean s p.worktrees) _ _ h in
      let (us, more, _) =
        and_then-ok (unmerged_of s p.repo p.target p.branches) (one_of t p.branches) _ k in
      (all_clean-All s p.worktrees x clean, unmerged_of-All s p.repo p.target p.branches us more)

-- The engine is there, and the session is the one that was looked at.
pub look-again :
    (s : Site) (t : Task) (l : Live)
    → and_then (with_engine s.engine_error t) (look s) ≡ ok l
    → look s t ≡ ok l
look-again s t l h =
    let (t', e, seen) = and_then-ok (with_engine s.engine_error t) (look s) l h in
    subst (λ x. look s x ≡ ok l) (sym (with_engine-ok s.engine_error t t' e)) seen

-- What commands that were run tell.
unfoldable Ran : Site → Task → Landed → Type 0
Ran s t r = r.ran ≢ [] → IsGuarded s t

problem-Ran : (s : Site) (t : Task) (res : Landing) (e : Text) → Ran s t (problem res [] e)
unfolding problem Ran
problem-Ran s t res e n = absurd (n refl)

module _ (s : Site) (t : Task) (l : Live) (resting : look s t ≡ ok l) (outside : t.in_place ≡ false)
    (p : Plan) (found : inspect s.before t t.merge_into l ≡ ok p) where
  merged_one-Ran :
      (r : Fallible (Option Text)) → mergeable s t p ≡ r → Ran s t (merged_one s t l p r)
  unfolding merged_one Ran problem
  merged_one-Ran (err e) q n = absurd (n refl)
  merged_one-Ran (ok o) q n =
      let (clean, apart) = mergeable-ok s t p o q in
      record {
        live = l;
        resting = resting;
        outside = outside;
        plan = p;
        found = found;
        clean = clean;
        apart = apart;
      }

planned-Ran :
    (s : Site) (t : Task) (l : Live) (r : Fallible Plan)
    → look s t ≡ ok l
    → t.in_place ≡ false
    → inspect s.before t t.merge_into l ≡ r
    → Ran s t (planned s t l r)
unfolding planned
planned-Ran s t l (err e) seen outside q = problem-Ran s t _ e
planned-Ran s t l (ok p) seen outside q =
    if-both (Ran s t) (is_empty p.repo) _ _ (λ _. problem-Ran s t _ _)
      (λ _. merged_one-Ran s t l seen outside p q (mergeable s t p) refl)

landed-Ran : (s : Site) (t : Task) (l : Live) (p : Plan) → Ran s t (landed s t l p [] [])
unfolding landed Ran
landed-Ran s t l p n = absurd (n refl)

looked-Ran :
    (s : Site) (t : Task) (r : Fallible Live)
    → ((l : Live) → r ≡ ok l → look s t ≡ ok l)
    → Ran s t (looked s t r)
unfolding looked
looked-Ran s t (err e) q = problem-Ran s t _ e
looked-Ran s t (ok l) q =
    if-both (Ran s t) t.in_place _ _ (λ _. landed-Ran s t l _)
      (λ e. planned-Ran s t l _ (q l refl) e refl)

-- A landing runs its first command on the repository only if the session is at rest, the task is not in
-- place, every worktree of the task is without changes and none of its branches is the target.
pub landing-IsGuarded : (s : Site) (t : Task) → (landing s t).ran ≢ [] → IsGuarded s t
unfolding landing Ran
landing-IsGuarded s t =
    looked-Ran s t (and_then (with_engine s.engine_error t) (look s)) (look-again s t)
