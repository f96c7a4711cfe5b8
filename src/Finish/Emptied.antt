-- ===== src/Finish/Emptied.antt =====
-- Which rows clearing the tasks whose session is gone can change.
use c_squad.Engine.{State, Live, state_eq, state_eq_iff}
use c_squad.Task.{Phase, Task, phase_eq_iff}
use c_squad.Gitx.Kinds.{Fallible, ok, err, Worktree, Refs}
use c_squad.Store.Table.{
  Row, Table, Reply, reply, db_error, conflict, not_found, Io, find, update, affected,
}
use c_squad.Store.Ops.{is_version, written, transition}
use c_squad.Store.Rows.{map_row, find-update, find-id}
use c_squad.Store.Cas.{written-id}
use c_squad.Mover.Apply.{World}
use c_squad.Finish.Inspect.{Plan}
use c_squad.Finish.Cancel.{refs_of}
use c_squad.Finish.Safe.{if-true, if-false, ok-inj, append_empty}
use c_squad.Finish.Verified.{is_empty-empty}
use c_squad.Finish.Gone.{
  left_refs, left_trees, left_outside, Ground, left_over, cleared, clear_left, clear_if_empty,
  is_gone, clear_gone, removed_row,
}
use c_squad.Base.{
  ℕ, ◌*◌, ◌≡◌, refl, ap, ◌∙◌, ◌⊎◌, inl, inr, true, false, Bool, ◌&&◌, not, is_empty, map,
  Bool-cases, Option, none, some, Option-cases, List, [], ◌∷◌, ◌==◌, ==_iff, if◌then◌else◌, Text,
  arith,
}

-- Nothing is left of a task: it works in place, its directory is gone or in no repository, or git lists
-- no worktrees, or no worktree and no branch for its number and the nanosecond of its creation.
pub data NothingLeft (g : Ground) (t : Task) : Type 0 where
  placed : t.in_place ≡ true → NothingLeft g t
  no_directory : g.exists t.cwd ≡ false → NothingLeft g t
  no_repository : g.git.top_level t.cwd ≡ [] → g.git_dir_error t.cwd ≡ none → NothingLeft g t
  no_worktrees : g.git.worktrees_of (g.git.top_level t.cwd) ≡ ok [] → NothingLeft g t
  no_refs :
      (w : Worktree) (ws : List Worktree) (refs : Refs)
      → g.git.worktrees_of (g.git.top_level t.cwd) ≡ ok (w ∷ ws)
      → g.git.task_refs w.path t.id (t.created_at * 1000000) ≡ ok refs
      → refs.worktrees ≡ []
      → refs.branches ≡ []
      → NothingLeft g t

map_empty : {A B : Type 0} → (f : A → B) (xs : List A) → map f xs ≡ [] → xs ≡ []
map_empty f [] h = refl
map_empty f (x ∷ xs) h = cc

refs_of-empty : (p : Plan) → refs_of p ≡ [] → (p.worktrees ≡ []) × (p.branches ≡ [])
unfolding refs_of
refs_of-empty p h =
    let (w, b) = append_empty _ _ h in (map_empty _ p.worktrees w, map_empty _ p.branches b)

left_refs-ok :
    (r : Fallible Refs)
    → left_refs r ≡ ok []
    → (refs : Refs) × (r ≡ ok refs) × (refs.worktrees ≡ []) × (refs.branches ≡ [])
unfolding left_refs
left_refs-ok (err e) h = cc
left_refs-ok (ok refs) h = let (w, b) = refs_of-empty _ (ok-inj _ [] h) in (refs, refl, w, b)

left_trees-NothingLeft :
    (g : Ground) (t : Task) (r : Fallible (List Worktree))
    → g.git.worktrees_of (g.git.top_level t.cwd) ≡ r
    → left_trees g t r ≡ ok []
    → NothingLeft g t
unfolding left_trees
left_trees-NothingLeft g t (err e) q h = cc
left_trees-NothingLeft g t (ok []) q h = no_worktrees q
left_trees-NothingLeft g t (ok (w ∷ ws)) q h =
    let (refs, found, no_trees, no_branches) = left_refs-ok _ h in
    no_refs w ws refs q found no_trees no_branches

left_outside-none : (o : Option Text) → left_outside o ≡ ok [] → o ≡ none
unfolding left_outside
left_outside-none none h = refl
left_outside-none (some e) h = cc

left_over-NothingLeft : (g : Ground) (t : Task) → left_over g t ≡ ok [] → NothingLeft g t
unfolding left_over
left_over-NothingLeft g t h = elim (Bool-cases t.in_place) [
  | inl i ↦ placed i
  | inr i ↦
      let h1 = if-false t.in_place _ _ _ i h in
      elim (Bool-cases (g.exists t.cwd)) [
        | inr x ↦ no_directory x
        | inl x ↦
            let h2 = if-false (not (g.exists t.cwd)) _ _ _ (ap not x) h1 in
            let top = g.git.top_level t.cwd in
            elim (Bool-cases (is_empty top)) [
              | inl e ↦
                  no_repository (is_empty-empty top e)
                    (left_outside-none _ (if-true (is_empty top) _ _ _ e h2))
              | inr e ↦
                  left_trees-NothingLeft g t (g.git.worktrees_of top) refl
                    (if-false (is_empty top) _ _ _ e h2)
            ]
      ]
]

abbrev SawGone : Option Live → Type 0
SawGone o = (l : Live) × (o ≡ some l) × (l.state ≡ State.gone)

seen_gone :
    (o : Option Live)
    → (elim o [ none ↦ false | some l ↦ state_eq l.state State.gone ]) ≡ true
    → SawGone o
seen_gone none h = cc
seen_gone (some l) h = (l, refl, (state_eq_iff l.state State.gone).0 h)

both : (b c : Bool) → b && c ≡ true → (b ≡ true) × (c ≡ true)
both b c h = ground (arith, h)

is_gone-SawGone :
    (live : ℕ → Option Live) (t : Task)
    → is_gone live t ≡ true
    → SawGone (live t.id) × (t.phase ≡ Phase.running)
unfolding is_gone
is_gone-SawGone live t h =
    let (s, r) =
      both (elim (live t.id) [ none ↦ false | some l ↦ state_eq l.state State.gone ]) _ h in
    (seen_gone (live t.id) s, (phase_eq_iff t.phase Phase.running).0 r)

-- The session is gone, the task runs, its lock is free, and nothing is left of it.
unfoldable pub IsEmptied : Ground → (ℕ → Option Live) → Task → Type 0
IsEmptied g live t =
    SawGone (live t.id) × (t.phase ≡ Phase.running) × (g.lock_free t.id ≡ true) × NothingLeft g t

-- One of the tasks has this number and is such a task.
unfoldable pub Clears : Ground → (ℕ → Option Live) → List Task → ℕ → Type 0
Clears g live [] j = ⊥
Clears g live (t ∷ ts) j = ((t.id ≡ j) × IsEmptied g live t) ⊎ Clears g live ts j

other_row :
    (now j : ℕ) (old next : Task) (o : Option Row)
    → ((r : Row) → o ≡ some r → r.task.id ≡ j)
    → (old.id == j) ≡ false
    → map_row (λ r. if is_version old r then written now old next r else r) o ≡ o
unfolding is_version
other_row now j old next none k h = refl
other_row now j old next (some r) k h =
    let same = k r refl in let off : (r.task.id == old.id) ≡ false = ground arith in rw off refl

-- A transition leaves the other rows.
transition_other :
    (io : Io) (now j : ℕ) (tbl : Table) (old next : Task)
    → (old.id == j) ≡ false
    → find j (transition io now tbl old next).0 ≡ find j tbl
unfolding transition
transition_other (some e) now j tbl old next h = refl
transition_other none now j tbl old next h =
    let tbl' = update (is_version old) (written now old next) tbl in
    let kept : find j tbl' ≡ find j tbl =
      find-update (is_version old) (written now old next) (written-id now old next) j tbl
      ∙ other_row now j old next (find j tbl) (λ r e. find-id j tbl r e) h in
    elim (Bool-cases (affected (is_version old) tbl == 1)) [
      | inl e ↦ elim (Option-cases (find old.id tbl')) [
        | inl f ↦ rw (e, f) refl
        | inr (r, f) ↦ rw (e, f) kept
      ]
      | inr e ↦ rw e refl
    ]

cleared-table : (w : World) (t : Task) (r : Table × Reply Task) → (cleared w t r).0.table ≡ r.0
unfolding cleared
cleared-table w t (tbl, reply s) = refl
cleared-table w t (tbl, db_error e) = refl
cleared-table w t (tbl, conflict) = refl
cleared-table w t (tbl, not_found) = refl

-- The row is as it was, or the task is the one with the number and nothing was left of it.
left-kept :
    (g : Ground) (w : World) (t : Task) (a : Fallible (List Text)) (j : ℕ)
    → (find j (clear_left g w t a).0.table ≡ find j w.table) ⊎ ((t.id ≡ j) × (a ≡ ok []))
unfolding clear_left
left-kept g w t (err e) j = inl refl
left-kept g w t (ok (r ∷ refs)) j = inl refl
left-kept g w t (ok []) j = elim (Bool-cases (t.id == j)) [
  | inl e ↦ inr ((==_iff t.id j).0 e, refl)
  | inr e ↦ inl (
      ap (find j) (cleared-table w t (transition g.io g.now w.table t (removed_row t)))
      ∙ transition_other g.io g.now j w.table t (removed_row t) e)
]

if_empty-kept :
    (g : Ground) (w : World) (t : Task) (j : ℕ)
    → (find j (clear_if_empty g w t).0.table ≡ find j w.table)
      ⊎ ((t.id ≡ j) × (g.lock_free t.id ≡ true) × (left_over g t ≡ ok []))
unfolding clear_if_empty
if_empty-kept g w t j = elim (Bool-cases (g.lock_free t.id)) [
  | inr f ↦ inl (rw f refl)
  | inl f ↦
      rw f
        (elim (left-kept g w t (left_over g t) j) [ inl e ↦ inl e | inr (e, h) ↦ inr (e, refl, h) ])
]

-- A row differs after clearing the tasks whose session is gone only if it is the row of a listed task
-- that runs, whose session was seen gone, whose lock was free, and of which nothing is left: it works in
-- place, its directory is gone or in no repository, git lists no worktrees there, or git answers no
-- worktree and no branch for the number of the task and the time of its creation.
pub clear_gone-kept :
    (g : Ground) (live : ℕ → Option Live) (w : World) (ts : List Task) (j : ℕ)
    → (find j (clear_gone g live w ts).0.table ≡ find j w.table) ⊎ Clears g live ts j
unfolding clear_gone Clears IsEmptied
clear_gone-kept g live w [] j = inl refl
clear_gone-kept g live w (t ∷ ts) j = elim (Bool-cases (is_gone live t)) [
  | inr n ↦ rw n (elim (clear_gone-kept g live w ts j) [ inl e ↦ inl e | inr c ↦ inr (inr c) ])
  | inl y ↦ rw y (elim (clear_gone-kept g live (clear_if_empty g w t).0 ts j) [
    | inr c ↦ inr (inr c)
    | inl e ↦ elim (if_empty-kept g w t j) [
      | inl f ↦ inl (e ∙ f)
      | inr (i, l, o) ↦
          let (s, r) = is_gone-SawGone live t y in
          inr (inl (i, (s, r, l, left_over-NothingLeft g t o)))
    ]
  ])
]
