-- ===== src/Landing/Refused.antt =====
-- What a landing that is not done has left.
use c_squad.Engine.{Live}
use c_squad.Task.{Task}
use c_squad.Flow.Kinds.{Landing}
use c_squad.Gitx.Kinds.{Fallible, ok, err, and_then, Worktree}
use c_squad.Finish.Inspect.{Plan, inspect, branch_ref}
use c_squad.Finish.Clean.{Cleaned, clean_plan}
use c_squad.Finish.Command.{with_engine}
use c_squad.Landing.Merge.{
  Command, rebase, abort_rebase, Site, Landed, problem, look, landed, mergeable, checked_out,
  cleaned, verified, fast_forwarded, forward, rebased, merged_one, planned, looked, landing,
  into_target, abandoned, is_based,
}
use c_squad.Base.{
  ◌≡◌, ◌≢◌, refl, ◌⊎◌, inl, inr, true, false, Option, Option-cases, none, some, List, [], ◌∷◌,
  is_empty, if-both, Text,
}

-- The session was left, and where the rebase had conflicts, nothing was run but the rebase and its abort.
unfoldable pub IsLeft : Landed → Type 0
IsLeft r =
    (r.result.done ≡ true)
    ⊎ ((r.session_removed ≡ false)
        × ((r.result.conflict ≡ [])
            ⊎ ((dir : Text) × (into : Text) × (r.ran ≡ rebase dir into ∷ abort_rebase dir ∷ []))))

problem-IsLeft :
    (res : Landing) (ran : List Command) (e : Text) → res.conflict ≡ [] → IsLeft (problem res ran e)
unfolding problem IsLeft
problem-IsLeft res ran e none_left = inr (refl, inl none_left)

abandoned-IsLeft :
    (res : Landing) (dir into : Text) (e : Text × Text) → IsLeft (abandoned res dir into e)
unfolding abandoned IsLeft
abandoned-IsLeft res dir into (out, e) = inr (refl, inr (dir, into, refl))

landed-IsLeft :
    (s : Site) (t : Task) (l : Live) (p : Plan) (removed : List Text) (ran : List Command)
    → IsLeft (landed s t l p removed ran)
unfolding landed IsLeft
landed-IsLeft s t l p removed ran = inl refl

module _ (s : Site) (t : Task) (l : Live) where
  cleaned-IsLeft :
      (p : Plan) (res : Landing) (ran : List Command) (c : Cleaned)
      → res.conflict ≡ []
      → IsLeft (cleaned s t l p res ran c)
  unfolding cleaned landed IsLeft
  cleaned-IsLeft p res ran c none_left = elim (Option-cases c.error) [
    | inr (e, h) ↦ rw h (problem-IsLeft res _ _ none_left)
    | inl h ↦ rw h (inl refl)
  ]

  verified-IsLeft :
      (res : Landing) (ran : List Command) (r : Fallible Plan)
      → res.conflict ≡ []
      → IsLeft (verified s t l res ran r)
  unfolding verified
  verified-IsLeft res ran (err e) none_left = problem-IsLeft res ran e none_left
  verified-IsLeft res ran (ok p) none_left =
      if-both IsLeft (is_empty p.problems) _ _
        (λ _. cleaned-IsLeft p res ran (clean_plan s.run false p) none_left)
        (λ _. problem-IsLeft res ran _ none_left)

  fast_forwarded-IsLeft :
      (repo into b : Text) (res : Landing) (ran : List Command) (w : Option Worktree)
      → res.conflict ≡ []
      → IsLeft (fast_forwarded s t l repo into b res ran w)
  unfolding fast_forwarded
  fast_forwarded-IsLeft repo into b res ran (some w) none_left =
      elim (Option-cases (s.fast_forward_error w.path b)) [
        | inl h ↦ rw (fast_forwarded, h) (verified-IsLeft res _ _ none_left)
        | inr (e, h) ↦ rw (fast_forwarded, h) (problem-IsLeft res _ _ none_left)
      ]
  fast_forwarded-IsLeft repo into b res ran none none_left =
      elim (Option-cases (s.fetch_error repo b into)) [
        | inl h ↦ rw (fast_forwarded, h) (verified-IsLeft res _ _ none_left)
        | inr (e, h) ↦ rw (fast_forwarded, h) (problem-IsLeft res _ _ none_left)
      ]

  forward-IsLeft :
      (repo into b : Text) (res : Landing) (ran : List Command) (ws : Fallible (List Worktree))
      → res.conflict ≡ []
      → IsLeft (forward s t l repo into b res ran ws)
  unfolding forward
  forward-IsLeft repo into b res ran (err e) none_left = problem-IsLeft res ran e none_left
  forward-IsLeft repo into b res ran (ok ws) none_left =
      fast_forwarded-IsLeft repo into b res ran (checked_out ws into) none_left

  rebased-IsLeft : (p : Plan) (b : Text) (w : Option Worktree) → IsLeft (rebased s t l p b w)
  unfolding rebased
  rebased-IsLeft p b none =
      if-both IsLeft (is_based (s.is_ancestor p.repo (branch_ref p.target) (branch_ref b))) _ _
        (λ _. forward-IsLeft p.repo p.target b _ [] (s.worktrees p.repo) refl)
        (λ _. problem-IsLeft _ [] _ refl)
  rebased-IsLeft p b (some w) = elim (Option-cases (s.rebase_error w.path p.target)) [
    | inl h ↦
        rw (rebased, h)
          (forward-IsLeft p.repo p.target b
            (record (into_target p.target) { branch = b; dir = w.path })
            (rebase w.path p.target ∷ []) (s.worktrees p.repo) refl)
    | inr (e, h) ↦
        rw (rebased, h)
          (abandoned-IsLeft (record (into_target p.target) { branch = b; dir = w.path }) w.path
            p.target e)
  ]

  merged_one-IsLeft : (p : Plan) (r : Fallible (Option Text)) → IsLeft (merged_one s t l p r)
  unfolding merged_one
  merged_one-IsLeft p (err e) = problem-IsLeft _ [] e refl
  merged_one-IsLeft p (ok (some b)) = rebased-IsLeft p b (checked_out p.worktrees b)
  merged_one-IsLeft p (ok none) = verified-IsLeft _ [] (inspect s.after t p.target l) refl

  planned-IsLeft : (r : Fallible Plan) → IsLeft (planned s t l r)
  unfolding planned
  planned-IsLeft (err e) = problem-IsLeft _ [] e refl
  planned-IsLeft (ok p) =
      if-both IsLeft (is_empty p.repo) _ _ (λ _. problem-IsLeft _ [] _ refl)
        (λ _. merged_one-IsLeft p (mergeable s t p))

looked-IsLeft : (s : Site) (t : Task) (r : Fallible Live) → IsLeft (looked s t r)
unfolding looked
looked-IsLeft s t (err e) = problem-IsLeft _ [] e refl
looked-IsLeft s t (ok l) =
    if-both IsLeft t.in_place _ _ (λ _. landed-IsLeft s t l _ [] []) (λ _. planned-IsLeft s t l _)

-- A landing that is not done has left the session, and if the rebase had conflicts, the repository saw no
-- command but that rebase and its abort.
pub landing-left :
    (s : Site) (t : Task)
    → (landing s t).result.done ≡ false
    → ((landing s t).session_removed ≡ false)
      × ((landing s t).result.conflict ≢ []
          → (dir : Text) × (into : Text) × ((landing s t).ran
              ≡ rebase dir into ∷ abort_rebase dir ∷ []))
unfolding landing IsLeft
landing-left s t h = elim (looked-IsLeft s t (and_then (with_engine s.engine_error t) (look s))) [
  | inl d ↦ absurd cc
  | inr (kept, inl e) ↦ (kept, λ n. absurd (n e))
  | inr (kept, inr c) ↦ (kept, λ _. c)
]
