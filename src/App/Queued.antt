-- ===== src/App/Queued.antt =====
-- What is known of the task that the flags of a launch are read into.
use c_squad.Task.{running, waiting, cancelled, Task, phase_eq}
use c_squad.Gitx.Kinds.{ok, err}
use c_squad.Finish.Safe.{and_then-ok, ok-inj, if-true, if-false}
use c_squad.Store.Table.{Table, Reply, reply, db_error, conflict, not_found}
use c_squad.Store.Ops.{get}
use c_squad.App.Labels.{parse_label}
use c_squad.App.Draft.{
  LaunchArgs, Desk, unless, after_ids, after_from, after_part, labelled_part, after_task,
  parse_after, some_ids, label_fields, check_value, fork_of, merge_of, with_id,
}
use c_squad.App.Launch.{
  Draft, place_of, engine_name, is_in_place, rounds_of, prompt_of, draft_task, draft, all_done,
}
use c_squad.Base.{
  ℕ, ◌≡◌, refl, sym, ap, subst, Bool, true, false, ◌&&◌, not, ◌⊎◌, Option, none, some, List, [],
  ◌∷◌, ◌++◌, All, any, is_empty, ◌==◌, if◌then◌else◌, Text, trim_space, Bool-cases, inl, inr, arith,
}

-- A task that is there and not cancelled.
unfoldable pub IsThere : Desk → Table → ℕ → Type 0
IsThere d tbl id =
    (t : Task) × (get d.read_io id tbl ≡ reply t) × (phase_eq t.phase cancelled ≡ false)

-- No number twice.
unfoldable pub IsDistinct : List ℕ → Type 0
IsDistinct [] = Unit
IsDistinct (id ∷ ids) = (any (λ x. x == id) ids ≡ false) × IsDistinct ids

not_ok : {A : Type 0} {m : Text} (a : A) → err m ≡ ok a → ⊥
not_ok a h = cc

task-there :
    (id j : ℕ) (r : Reply Task)
    → after_task id r ≡ ok j
    → (t : Task) × (r ≡ reply t) × (phase_eq t.phase cancelled ≡ false) × (id ≡ j)
unfolding after_task
task-there id j (reply t) h = elim (Bool-cases (phase_eq t.phase cancelled)) [
  | inl e ↦ absurd (not_ok j (if-true _ _ _ _ e h))
  | inr e ↦ (t, refl, e, ok-inj id j (if-false _ _ _ _ e h))
]
task-there id j (db_error e) h = cc
task-there id j conflict h = cc
task-there id j not_found h = cc

part-IsThere :
    (d : Desk) (tbl : Table) (o : Option ℕ) (part : Text) (j : ℕ)
    → labelled_part d tbl part o ≡ ok j
    → IsThere d tbl j
unfolding labelled_part IsThere
part-IsThere d tbl none part j h = cc
part-IsThere d tbl (some id) part j h =
    let (t, e, f, same) = task-there id j (get d.read_io id tbl) h in
    subst (λ i. (t : Task) × (get d.read_io i tbl ≡ reply t) × (phase_eq t.phase cancelled ≡ false))
      same (t, e, f)

All-with_id : (P : ℕ → Type 0) (ids : List ℕ) (id : ℕ) → All P ids → P id → All P (with_id ids id)
unfolding with_id
All-with_id P ids id h p = elim (Bool-cases (any (λ x. x == id) ids)) [
  | inl e ↦ rw e h
  | inr e ↦ rw e (at_end ids h)
]
  where
    at_end : (xs : List ℕ) → All P xs → All P (xs ++ id ∷ [])
    at_end [] k = (p, tt)
    at_end (x ∷ xs) (q, k) = (q, at_end xs k)

any-snoc :
    (x id : ℕ) (ids : List ℕ)
    → any (λ y. y == x) ids ≡ false
    → (id == x) ≡ false
    → any (λ y. y == x) (ids ++ id ∷ []) ≡ false
any-snoc x id [] h e = rw e refl
any-snoc x id (y ∷ ids) h e = ground (arith, any-snoc x id ids)

IsDistinct-snoc :
    (ids : List ℕ) (id : ℕ)
    → IsDistinct ids
    → any (λ x. x == id) ids ≡ false
    → IsDistinct (ids ++ id ∷ [])
unfolding IsDistinct
IsDistinct-snoc [] id h e = (refl, tt)
IsDistinct-snoc (x ∷ ids) id (f, h) e =
    (any-snoc x id ids f (ground arith), IsDistinct-snoc ids id h (ground arith))

IsDistinct-with_id : (ids : List ℕ) (id : ℕ) → IsDistinct ids → IsDistinct (with_id ids id)
unfolding with_id
IsDistinct-with_id ids id h = elim (Bool-cases (any (λ x. x == id) ids)) [
  | inl e ↦ rw e h
  | inr e ↦ rw e (IsDistinct-snoc ids id h e)
]

from-IsThere :
    (d : Desk) (tbl : Table) (parts : List Text) (ids out : List ℕ)
    → after_from d tbl ids parts ≡ ok out
    → All (IsThere d tbl) ids
    → IsDistinct ids
    → All (IsThere d tbl) out × IsDistinct out
unfolding after_from after_part
from-IsThere d tbl [] ids out h a u =
    let e = ok-inj ids out h in (subst (All (IsThere d tbl)) e a, subst IsDistinct e u)
from-IsThere d tbl (part ∷ parts) ids out h a u =
    let (id, e, k) = and_then-ok (after_part d tbl part) _ out h in
    from-IsThere d tbl parts (with_id ids id) out k
      (All-with_id (IsThere d tbl) ids id a (part-IsThere d tbl (parse_label part) part id e))
      (IsDistinct-with_id ids id u)

some_ids-same : (ids out : List ℕ) → some_ids ids ≡ ok out → ids ≡ out
unfolding some_ids
some_ids-same [] out h = cc
some_ids-same (id ∷ ids) out h = ok-inj (id ∷ ids) out h

after_ids-IsThere :
    (d : Desk) (tbl : Table) (v : Text) (out : List ℕ)
    → after_ids d tbl v ≡ ok out
    → All (IsThere d tbl) out × IsDistinct out
unfolding after_ids parse_after some_ids IsDistinct
after_ids-IsThere d tbl v out h = elim (Bool-cases (is_empty v)) [
  | inl e ↦
      let same = ok-inj [] out (if-true _ _ _ _ e h) in
      (subst (All (IsThere d tbl)) same tt, subst IsDistinct same tt)
  | inr e ↦
      let (ids, f, k) =
        and_then-ok (after_from d tbl [] (label_fields [] v)) _ out (if-false _ _ _ _ e h) in
      let (a, u) = from-IsThere d tbl (label_fields [] v) [] ids f tt tt in
      let same = some_ids-same ids out k in
      (subst (All (IsThere d tbl)) same a, subst IsDistinct same u)
]

unless-ok : (b : Bool) (e : Text) (u : Unit {0}) → unless b e ≡ ok u → b ≡ false
unless-ok true e u h = cc
unless-ok false e u h = refl

place_of-titled :
    (d : Desk) (la : LaunchArgs) (cwd : Text)
    → place_of d la ≡ ok cwd
    → is_empty (trim_space la.title) ≡ false
unfolding place_of
place_of-titled d la cwd h =
    let (u, e, _) = and_then-ok (unless (is_empty (trim_space la.title)) _) _ cwd h in
    unless-ok _ _ u e

-- A fork does not wait.
fork_of-now :
    (d : Desk) (la : LaunchArgs) (engine fork : Text)
    → fork_of d la engine ≡ ok fork
    → (is_empty fork ≡ true) ⊎ (is_empty la.after ≡ true)
unfolding fork_of
fork_of-now d la engine fork h = elim (Bool-cases (not la.fork)) [
  | inl e ↦ let same = ok-inj [] fork (if-true _ _ _ _ e h) in inl (ap is_empty (sym same))
  | inr e ↦ elim (Bool-cases (is_empty la.after)) [
    | inl f ↦ inr f
    | inr f ↦
        let on : not (is_empty la.after) ≡ true = ground arith in
        absurd (not_ok fork (if-true _ _ _ _ on (if-false _ _ _ _ e h)))
  ]
]

merge_of-worktree :
    (d : Desk) (la : LaunchArgs) (cwd target : Text) (in_place : Bool)
    → merge_of d la cwd in_place ≡ ok target
    → la.merge ≡ true
    → in_place ≡ false
unfolding merge_of
merge_of-worktree d la cwd target in_place h m = elim (Bool-cases in_place) [
  | inl e ↦ elim (Bool-cases (la.merge && la.no_merge)) [
    | inl f ↦ absurd (not_ok target (if-true _ _ _ _ f h))
    | inr f ↦
        let off : not la.merge ≡ false = ground arith in
        absurd (not_ok target (if-true _ _ _ _ e (if-false _ _ _ _ off (if-false _ _ _ _ f h))))
  ]
  | inr e ↦ e
]

no_after :
    (d : Desk) (tbl : Table) (v : Text) (out : List ℕ)
    → after_ids d tbl v ≡ ok out
    → is_empty v ≡ true
    → is_empty out ≡ true
unfolding after_ids
no_after d tbl v out h e = ap is_empty (sym (ok-inj [] out (if-true _ _ _ _ e h)))

-- A title; tasks to wait for that are there, not cancelled and each named once, and the phase `waiting`
-- exactly if one of them is not done; no fork that waits, and no merge of a task in place.
unfoldable pub IsSound : Desk → LaunchArgs → Table → Draft → Type 0
IsSound d la tbl dr =
    (is_empty (trim_space dr.task.title) ≡ false)
    × All (IsThere d tbl) dr.task.after
    × IsDistinct dr.task.after
    × (dr.task.phase ≡ (if all_done d tbl dr.task.after then running else waiting))
    × ((is_empty dr.fork ≡ true) ⊎ (is_empty dr.task.after ≡ true))
    × (la.merge ≡ true → dr.task.in_place ≡ false)

-- The task that the flags are read into has a title; it waits for tasks that are there, not cancelled
-- and each named once, and is queued exactly if one of them is not done; one that is a fork waits for
-- none, and one that was asked to be merged works in a worktree.
pub draft-IsSound :
    (d : Desk) (la : LaunchArgs) (tbl : Table) (dr : Draft)
    → draft d la tbl ≡ ok dr
    → IsSound d la tbl dr
unfolding draft draft_task IsSound
draft-IsSound d la tbl dr h =
    let (cwd, e1, h1) = and_then-ok (place_of d la) _ dr h in
    let (after, e2, h2) = and_then-ok (after_ids d tbl la.after) _ dr h1 in
    let (check, e3, h3) = and_then-ok (check_value d la.check) _ dr h2 in
    let (u, e4, h4) = and_then-ok (rounds_of la check) _ dr h3 in
    let (fork, e5, h5) = and_then-ok (fork_of d la (engine_name la)) _ dr h4 in
    let (target, e6, h6) = and_then-ok (merge_of d la cwd (is_in_place la)) _ dr h5 in
    let (args, e7, h7) = and_then-ok (d.check_args (engine_name la) la.engine_args d.cwd) _ dr h6 in
    let (prompt, e8, h8) = and_then-ok (prompt_of d la) _ dr h7 in
    let (there, distinct) = after_ids-IsThere d tbl la.after after e2 in
    let now : (is_empty fork ≡ true) ⊎ (is_empty after ≡ true) =
      elim (fork_of-now d la (engine_name la) fork e5) [
        | inl f ↦ inl f
        | inr f ↦ inr (no_after d tbl la.after after e2 f)
      ] in
    subst (IsSound d la tbl)
      (ok-inj
        (record { task = draft_task d la tbl cwd after check target args prompt; fork = fork }) dr
        h8)
      (
        place_of-titled d la cwd e1,
        there,
        distinct,
        refl,
        now,
        merge_of-worktree d la cwd target (is_in_place la) e6,
      )
