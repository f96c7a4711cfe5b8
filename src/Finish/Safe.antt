-- ===== src/Finish/Safe.antt =====
-- A plan without problems is safe to carry out: what `inspect` asked git about each branch and worktree.
use c_squad.Engine.{Live}
use c_squad.Task.{Task}
use c_squad.Flow.Kinds.{unix_milli}
use c_squad.Finish.Inspect.{
  Git, Problem, Plan, Found, branch_ref, no_plan, branch_found, check_branch, head_found,
  check_head, changes_found, check_worktree, check_all, checked, found_both, inspect, inspect_in,
  target_or,
}
use c_squad.Gitx.Kinds.{Commit, Fallible, ok, err, and_then, Worktree}
use c_squad.Base.{
  ◌≡◌, ◌≢◌, ◌⊎◌, inl, inr, refl, ap, subst, ◌∙◌, Bool, true, false, ◌&&◌, not, if◌then◌else◌,
  Bool-cases, List, [], ◌∷◌, ◌++◌, All, All-map, is_empty, Text, text_eq, text_eq_iff,
}

-- An answer of a check without a problem.
abbrev pub NoProblem : Fallible Found → Type 0
NoProblem r = (q : _) × (r ≡ ok (q, []))

-- Work that is in the target, as git said: all of it, or each commit by its patch.
pub record IsMerged (g : Git) (repo head target : Text) : Type 0 where
  pub whole : Bool
  pub patch : Bool
  pub commits : List Commit
  pub said : g.merged repo head target ≡ ok (whole, patch, commits)
  pub holds : (whole ≡ true) ⊎ (patch ≡ true)

-- A branch that may be removed.
abbrev pub IsLanded : Git → Text → Text → Text → Type 0
IsLanded g repo target b = (b ≢ target) × IsMerged g repo (branch_ref b) target

-- A worktree that may be removed: no uncommitted changes, and no work on a detached head that is not in
-- the target as a whole.
abbrev pub IsClean : Git → Text → Text → Worktree → Type 0
IsClean g repo target w =
    (g.changes w.path ≡ ok ([], []))
    × ((w.detached && not (is_empty w.head)) ≡ true
        → (patch : Bool) × (c : List Commit) × (g.merged repo w.head target ≡ ok (true, patch, c)))

abbrev pub IsSafe : Git → Plan → Type 0
IsSafe g p =
    All (IsLanded g p.repo p.target) p.branches × All (IsClean g p.repo p.target) p.worktrees

pub and_then-ok :
    {A B : Type 0}
    → (r : Fallible A) (f : A → Fallible B) (b : B) → and_then r f ≡ ok b
    → (a : A) × (r ≡ ok a) × (f a ≡ ok b)
and_then-ok (ok a) f b h = (a, refl, h)
and_then-ok (err e) f b h = cc

pub if-true : {A : Type 0} → (b : Bool) (x y r : A) → b ≡ true → (if b then x else y) ≡ r → x ≡ r
if-true true x y r e h = h
if-true false x y r e h = cc

pub if-false : {A : Type 0} → (b : Bool) (x y r : A) → b ≡ false → (if b then x else y) ≡ r → y ≡ r
if-false true x y r e h = cc
if-false false x y r e h = h

pub append_empty : {A : Type 0} → (xs ys : List A) → xs ++ ys ≡ [] → (xs ≡ []) × (ys ≡ [])
append_empty [] ys h = (refl, h)
append_empty (x ∷ xs) ys h = cc

found_both-empty :
    (p p' : _) (q q' : List Problem) (r : _)
    → found_both (p, q) (p', q') ≡ ok (r, [])
    → (q ≡ []) × (q' ≡ [])
found_both-empty p p' q q' r h = append_empty q q' cc

check_all-All :
    {A : Type 0}
    → (f : A → Fallible Found) (xs : List A) → NoProblem (check_all f xs)
    → All (λ x. NoProblem (f x)) xs
unfolding check_all
check_all-All f [] h = tt
check_all-All f (x ∷ xs) (q, h) =
    let (here, e, h') = and_then-ok (f x) _ _ h in
    let (there, e', h'') = and_then-ok (check_all f xs) _ _ h' in
    let (s, s') = found_both-empty here.0 there.0 here.1 there.1 q h'' in
    (
      (here.0, e ∙ ap (λ z. ok (here.0, z)) s),
      check_all-All f xs (there.0, e' ∙ ap (λ z. ok (there.0, z)) s'),
    )

branch_found-ok :
    (g : Git) (repo target b : Text) (m patch : Bool) (c : List Commit)
    → NoProblem (branch_found g repo target b (m, patch, c))
    → (m ≡ true) ⊎ (patch ≡ true)
unfolding branch_found
branch_found-ok g repo target b m true c h = inr refl
branch_found-ok g repo target b true false c h = inl refl
branch_found-ok g repo target b false false c (q, h) = cc

check_branch-IsLanded :
    (g : Git) (repo target b : Text)
    → NoProblem (check_branch g repo target b)
    → IsLanded g repo target b
unfolding check_branch
check_branch-IsLanded g repo target b (q, h) = elim (Bool-cases (text_eq b target)) [
  | inl e ↦ let k = if-true (text_eq b target) _ _ _ e h in cc
  | inr e ↦
      let (r, said, k) =
        and_then-ok (g.merged repo (branch_ref b) target) (branch_found g repo target b) _
          (if-false (text_eq b target) _ _ _ e h) in
      (
        λ x. let y = (text_eq_iff b target).1 x in cc,
        record {
          whole = r.0;
          patch = r.1;
          commits = r.2;
          said = said;
          holds = branch_found-ok g repo target b r.0 r.1 r.2 (q, k);
        },
      )
]

head_found-ok :
    (w : Worktree) (target : Text) (m patch : Bool) (c : List Commit)
    → NoProblem (head_found w target (m, patch, c))
    → m ≡ true
unfolding head_found
head_found-ok w target true patch c h = refl
head_found-ok w target false patch c (q, h) = cc

check_head-ok :
    (g : Git) (repo target : Text) (w : Worktree)
    → NoProblem (check_head g repo target w)
    → (w.detached && not (is_empty w.head)) ≡ true
    → (patch : Bool) × (c : List Commit) × (g.merged repo w.head target ≡ ok (true, patch, c))
unfolding check_head
check_head-ok g repo target w (q, h) e =
    let (r, said, k) =
      and_then-ok (g.merged repo w.head target) (head_found w target) _
        (if-true (w.detached && not (is_empty w.head)) _ _ _ e h) in
    (r.1, r.2, said ∙ ap (λ m. ok (m, r.1, r.2)) (head_found-ok w target r.0 r.1 r.2 (q, k)))

changes_found-ok :
    (w : Worktree) (c : List Text × List Text) → NoProblem (changes_found w c) → c ≡ ([], [])
unfolding changes_found
changes_found-ok w ([], []) h = refl
changes_found-ok w ([], u ∷ us) (q, h) = cc
changes_found-ok w (t ∷ ts, us) (q, h) = cc

check_worktree-IsClean :
    (g : Git) (repo target : Text) (w : Worktree)
    → NoProblem (check_worktree g repo target w)
    → IsClean g repo target w
unfolding check_worktree
check_worktree-IsClean g repo target w (q, h) =
    let (here, e, h') = and_then-ok (check_head g repo target w) _ _ h in
    let (there, e', h'') = and_then-ok (and_then (g.changes w.path) (changes_found w)) _ _ h' in
    let (c, f, k) = and_then-ok (g.changes w.path) (changes_found w) there e' in
    let (s, s') = found_both-empty here.0 there.0 here.1 there.1 q h'' in
    (
      f ∙ ap ok (changes_found-ok w c (there.0, k ∙ ap (λ z. ok (there.0, z)) s')),
      check_head-ok g repo target w (here.0, e ∙ ap (λ z. ok (here.0, z)) s),
    )

check_branches-All :
    (g : Git) (repo target : Text) (bs : List Text)
    → NoProblem (check_all (check_branch g repo target) bs)
    → All (IsLanded g repo target) bs
check_branches-All g repo target bs h =
    All-map (check_branch-IsLanded g repo target) bs
      (check_all-All (check_branch g repo target) bs h)

pub ok-inj : {A : Type 0} → (a b : A) → ok a ≡ ok b → a ≡ b
ok-inj a b h = ap (λ r. elim r [ ok x ↦ x | err e ↦ a ]) h

no_plan-IsSafe : (g : Git) (p : Plan) → ok no_plan ≡ ok p → IsSafe g p
no_plan-IsSafe g p h = subst (λ x. IsSafe g x) (ok-inj no_plan p h) (tt, tt)

checked-IsSafe :
    (g : Git) (repo target : Text) (ignored bs : List Text) (wts : List Worktree) (p : Plan)
    → checked g repo target ignored (wts, bs) ≡ ok p
    → p.problems ≡ []
    → IsSafe g p
unfolding checked
checked-IsSafe g repo target ignored bs wts p h none_left =
    let (found, e, h') = and_then-ok (check_all (check_branch g repo target) bs) _ _ h in
    let (more, e', h'') = and_then-ok (check_all (check_worktree g repo target) wts) _ _ h' in
    subst (λ x. x.problems ≡ [] → IsSafe g x) (ok-inj _ p h'')
      (λ none_here.
        let (s, s') = append_empty found.1 more.1 none_here in
        (
          check_branches-All g repo target bs (found.0, e ∙ ap (λ z. ok (found.0, z)) s),
          All-map (check_worktree-IsClean g repo target) wts (
              check_all-All (check_worktree g repo target) wts
                (more.0, e' ∙ ap (λ z. ok (more.0, z)) s')),
        ))
      none_left

inspect_in-IsSafe :
    (g : Git) (t : Task) (target : Text) (l : Live) (wts : List Worktree) (p : Plan)
    → inspect_in g t target l wts ≡ ok p
    → p.problems ≡ []
    → IsSafe g p
unfolding inspect_in
inspect_in-IsSafe g t target l [] p h e = no_plan-IsSafe g p h
inspect_in-IsSafe g t target l (main ∷ others) p h e =
    let (into, e1, h1) = and_then-ok (target_or target main) _ _ h in
    let (refs, e2, h2) =
      and_then-ok (g.task_refs main.path t.id (unix_milli t.created_at)) _ _ h1 in
    checked-IsSafe g main.path into refs.ignored _ _ p h2 e

-- A plan without problems names only work that git said is in the target, and clean worktrees.
pub inspect-IsSafe :
    (g : Git) (t : Task) (target : Text) (l : Live) (p : Plan)
    → inspect g t target l ≡ ok p
    → p.problems ≡ []
    → IsSafe g p
unfolding inspect
inspect-IsSafe g t target l p h e = elim (Bool-cases t.in_place) [
  | inl i ↦ no_plan-IsSafe g p (if-true t.in_place _ _ _ i h)
  | inr i ↦
      let outside = if-false t.in_place _ _ _ i h in
      elim (Bool-cases (is_empty (g.top_level t.cwd))) [
        | inl j ↦ no_plan-IsSafe g p (if-true (is_empty (g.top_level t.cwd)) _ _ _ j outside)
        | inr j ↦
            let (wts, _, k) =
              and_then-ok (g.worktrees_of (g.top_level t.cwd)) _ _
                (if-false (is_empty (g.top_level t.cwd)) _ _ _ j outside) in
            inspect_in-IsSafe g t target l wts p k e
      ]
]
