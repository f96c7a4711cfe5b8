-- ===== src/Mover/Once.antt =====
-- Concurrent processes that decide from the same row never act twice.
use c_squad.Task.{Task}
use c_squad.Store.Table.{Table, Reply, reply, db_error, conflict, not_found, Io}
use c_squad.Store.Ops.{transition}
use c_squad.Store.Rows.{IsKeyed}
use c_squad.Store.Versions.{DbSteps}
use c_squad.Store.Once.{transition_once}
use c_squad.Flow.Kinds.{Obs, Move, changed, acts}
use c_squad.Flow.Next.{next}
use c_squad.Flow.Progress.{next-moves}
use c_squad.Mover.Apply.{World, applied, failed_with, tell, run_effect, after_write, apply}
use c_squad.Base.{ℕ, ◌≡◌, sym, ap, ◌∙◌, Bool, true, none, arith, subst}

apply-changed :
    (io : Io) (now : ℕ) (w : World) (t : Task) (m : Move)
    → changed m t ≡ true
    → apply io now w t m ≡ after_write w t m (transition io now w.table t m.next)
unfolding apply acts
apply-changed io now w t m h = rw h

-- What a successful write answered, and the table that it left.
after_write_ok :
    (w : World) (t stored : Task) (m : Move) (p : Table × Reply Task) (b : Bool)
    → (after_write w t m p).1 ≡ applied stored b
    → (p.1 ≡ reply stored) × ((after_write w t m p).0.table ≡ p.0)
unfolding after_write tell run_effect
after_write_ok w t stored m (tbl, reply s) b e = (ground arith, ground arith)
after_write_ok w t stored m (tbl, db_error x) b e = cc
after_write_ok w t stored m (tbl, conflict) b e = cc
after_write_ok w t stored m (tbl, not_found) b e = cc

-- Two processes observe the same version of a task, each decides on its own observation to write, and
-- they apply their moves one after the other, with any of the store's operations by others in
-- between: if the first one wins, the second gets the conflict, and leaves the table, the event log,
-- those told and the effects run as they were.
pub apply_once :
    (now now' : ℕ) (w later : World) (t stored : Task) (o o' : Obs)
    → IsKeyed w.table
    → changed (next t o) t ≡ true
    → (apply none now w t (next t o)).1 ≡ applied stored true
    → DbSteps t.id (apply none now w t (next t o)).0.table later.table
    → changed (next t o') t ≡ true
    → apply none now' later t (next t o') ≡ (later, failed_with conflict)
unfolding after_write
apply_once now now' w later t stored o o' k c e run c' =
    let m = next t o in
    let p = transition none now w.table t m.next in
    let (won, left) =
      after_write_ok w t stored m p true
        (ap (λ x. x.1) (sym (apply-changed none now w t m c)) ∙ e) in
    let table : (apply none now w t m).0.table ≡ p.0 =
      ap (λ x. x.0.table) (apply-changed none now w t m c) ∙ left in
    let lost =
      transition_once now now' w.table p.0 later.table t m.next (next t o').next stored k
        (ap (λ r. (p.0, r)) won) (next-moves t o c)
        (subst (λ x. DbSteps t.id x later.table) table run) in
    apply-changed none now' later t (next t o') c' ∙ ap (after_write later t (next t o')) lost
