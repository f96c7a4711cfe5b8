-- ===== src/App/Held.antt =====
-- A hold keeps csquad from merging a task, also where another process decided before the hold.
use c_squad.Task.{Phase, Task, finished, phase_eq}
use c_squad.Store.Table.{Table, Row, conflict, update, affected, find, reply, Io}
use c_squad.Store.Ops.{set_hold, transition, is_version, has_id, with_hold, get, found}
use c_squad.Store.Rows.{find-id}
use c_squad.Mover.Apply.{World}
use c_squad.App.Advance.{Pass}
use c_squad.App.Hold.{holdable, hold_found, hold_one, verb}
use c_squad.Finish.Command.{task_found}
use c_squad.Finish.Safe.{and_then-ok, if-true, if-false, ok-inj}
use c_squad.Finish.Verified.{task_found-ok}
use c_squad.Gitx.Kinds.{Fallible, ok, err}
use c_squad.Base.{
  ℕ, ◌≡◌, refl, sym, ap, subst, ◌∙◌, inl, inr, Option, some, List, Text, lit, Bool-cases, is_empty,
  not, ◌&&◌, Bool, true, false, none, [], ◌∷◌, arith,
}

affected-held :
    (old : Task) (tbl : Table)
    → old.hold ≡ false
    → affected (is_version old) (update (has_id old.id) (with_hold true) tbl) ≡ 0
unfolding affected update is_version
affected-held old [] h = refl
affected-held old (r ∷ rs) h = ground (arith, affected-held old rs h)

-- A move that was decided on the version before the hold is refused: it conflicts and writes nothing.
hold_stops :
    (now : ℕ) (tbl : Table) (old next : Task)
    → old.hold ≡ false
    → transition none now (set_hold none old.id true tbl) old next
      ≡ (set_hold none old.id true tbl, conflict)
unfolding transition set_hold
hold_stops now tbl old next h = rw (affected-held old tbl h)

found-id : (r : Option Row) (t : Task) → found r ≡ reply t → (s : Row) × (r ≡ some s) × (s.task ≡ t)
unfolding found
found-id none t h = cc
found-id (some s) t h = (s, refl, cc)

get-id : (io : Io) (id : ℕ) (tbl : Table) (t : Task) → get io id tbl ≡ reply t → t.id ≡ id
unfolding get
get-id (some e) id tbl t h = cc
get-id none id tbl t h =
    let (s, e, q) = found-id (find id tbl) t h in ap (λ x. x.id) (sym q) ∙ find-id id tbl s e

holdable-ok : (t t' : Task) → holdable true t ≡ ok t' → t ≡ t'
unfolding holdable
holdable-ok t t' h = elim (Bool-cases (finished t.phase)) [
  | inl e ↦ let k = if-true (finished t.phase) _ _ _ e h in cc
  | inr e ↦
      let h' = if-false (finished t.phase) _ _ _ e h in
      elim (Bool-cases (not (is_empty t.merge_into))) [
        | inl q ↦ let k = if-true (not (is_empty t.merge_into)) _ _ _ q h' in cc
        | inr q ↦
            let h'' = if-false (not (is_empty t.merge_into)) _ _ _ q h' in
            elim (Bool-cases (true && phase_eq t.phase Phase.merging)) [
              | inl x ↦ let k = if-true (true && phase_eq t.phase Phase.merging) _ _ _ x h'' in cc
              | inr x ↦ ok-inj t t' (if-false (true && phase_eq t.phase Phase.merging) _ _ _ x h'')
            ]
      ]
]

-- What holding a task wrote, when it answers without an error.
hold_found-done :
    (io : Io) (passes : ℕ → Pass) (w : World) (r : Fallible Task)
    → (hold_found io passes true w r).error ≡ none
    → (t : Task) × (r ≡ ok t)
      × ((hold_found io passes true w r).world.table ≡ set_hold none t.id true w.table)
unfolding hold_found
hold_found-done io passes w (err e) h = cc
hold_found-done (some e) passes w (ok t) h = cc
hold_found-done none passes w (ok t) h = (t, refl, refl)

-- Once `csquad hold` answered without an error, a move of the task that was decided on a version that
-- was not held, a landing among them, is refused: it gets the conflict and writes nothing.
pub hold_one-conflict :
    (owners : Option (List Text)) (everyone : Bool) (read_io io : Io) (passes : ℕ → Pass)
    (w : World) (id now : ℕ) (old next : Task)
    → (hold_one owners everyone read_io io passes true w id).error ≡ none
    → old.id ≡ id
    → old.hold ≡ false
    → transition none now
        (hold_one owners everyone read_io io passes true w id).world.table
        old
        next
      ≡ ((hold_one owners everyone read_io io passes true w id).world.table, conflict)
unfolding hold_one verb
hold_one-conflict owners everyone read_io io passes w id now old next h same_id free =
    let (t, e, written) = hold_found-done io passes w _ h in
    let (t', e1, e2) =
      and_then-ok (task_found owners everyone (lit "hold") id (get read_io id w.table)) _ t e in
    let t_id =
      ap (λ x. x.id) (sym (holdable-ok t' t e2))
      ∙ get-id read_io id w.table t' (task_found-ok owners everyone (lit "hold") id _ t' e1) in
    let tbl_held = written ∙ ap (λ n. set_hold none n true w.table) (t_id ∙ sym same_id) in
    subst (λ x. transition none now x old next ≡ (x, conflict)) (sym tbl_held)
      (hold_stops now w.table old next free)
