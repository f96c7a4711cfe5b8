-- ===== src/App/Sessions.antt =====
-- What the steps of advancing one task (internal/app/advance.go) do to the sessions that the rows
-- record.
use c_squad.Task.{Task}
use c_squad.Flow.Kinds.{no_effect, start, Effect, Move, changed, acts}
use c_squad.Store.Table.{
  Row, Table, Reply, reply, db_error, conflict, not_found, Io, find, update, affected,
}
use c_squad.Store.Ops.{
  found, has_id, with_session, same, set_session, get, is_version, written, transition,
}
use c_squad.Store.Rows.{map_row, find-update, find-id}
use c_squad.Store.Cas.{written-id}
use c_squad.Mover.Apply.{World, Applied, applied, failed_with, tell, run_effect, after_write, apply}
use c_squad.App.Effects.{
  Outside, Started, started, not_started, begun, fail, told_failed, claim, start_claimed, act_on,
  run_outside, run_simple, start_queued,
}
use c_squad.Finish.Verified.{is_empty-empty}
use c_squad.Base.{
  Bool, ◌⊎◌, ◌&&◌, is_empty, ℕ, ◌≡◌, refl, sym, ap, subst, ◌∙◌, true, false, Option, none, some, [],
  ◌==◌, if◌then◌else◌, if-both, ==_iff, Bool-cases, Option-cases, inl, inr, arith, Text,
}

abbrev session_of : Option Row → Option Text
session_of none = none
session_of (some r) = some r.task.session_id

-- The session that the row `j` records.
unfoldable pub session_at : ℕ → Table → Option Text
session_at j tbl = session_of (find j tbl)

session_of-written :
    (now : ℕ) (old n : Task) (o : Option Row)
    → session_of (map_row (λ r. if is_version old r then written now old n r else r) o)
      ≡ session_of o
unfolding written
session_of-written now old n none = refl
session_of-written now old n (some r) = elim (Bool-cases (is_version old r)) [
  | inl e ↦ rw e refl
  | inr e ↦ rw e refl
]

pub transition-session :
    (io : Io) (now j : ℕ) (tbl : Table) (old n : Task)
    → session_at j (transition io now tbl old n).0 ≡ session_at j tbl
unfolding transition session_at
transition-session (some e) now j tbl old n = refl
transition-session none now j tbl old n =
    let tbl' = update (is_version old) (written now old n) tbl in
    let kept : session_of (find j tbl') ≡ session_of (find j tbl) =
      ap session_of (find-update (is_version old) (written now old n) (written-id now old n) j tbl)
      ∙ session_of-written now old n (find j tbl) in
    elim (Bool-cases (affected (is_version old) tbl == 1)) [
      | inl e ↦ elim (Option-cases (find old.id tbl')) [
        | inl f ↦ rw (e, f) refl
        | inr (r, f) ↦ rw (e, f) kept
      ]
      | inr e ↦ rw e refl
    ]

after_write-table :
    (w : World) (t : Task) (m : Move) (p : Table × Reply Task) → (after_write w t m p).0.table ≡ p.0
unfolding after_write tell run_effect
after_write-table w t m (tbl, reply s) = ground arith
after_write-table w t m (tbl, db_error e) = refl
after_write-table w t m (tbl, conflict) = refl
after_write-table w t m (tbl, not_found) = refl

run_effect-table : (w : World) (t : Task) (e : Effect) → (run_effect t e w).table ≡ w.table
unfolding run_effect
run_effect-table w t e = ground arith

-- Writing a move changes no session.
pub apply-session :
    (io : Io) (now j : ℕ) (w : World) (t : Task) (m : Move)
    → session_at j (apply io now w t m).0.table ≡ session_at j w.table
unfolding apply
apply-session io now j w t m = elim (Bool-cases (acts m t)) [
  | inr a ↦ rw a refl
  | inl a ↦ elim (Bool-cases (changed m t)) [
    | inl c ↦
        rw (a, c)
          (ap (session_at j) (after_write-table w t m (transition io now w.table t m.next))
            ∙ transition-session io now j w.table t m.next)
    | inr c ↦ rw (a, c) (ap (session_at j) (run_effect-table w t m.effect))
  ]
]

pub idle_effect :
    (out : Outside) (p : World × Applied) → (act_on (run_outside out) no_effect p).table ≡ p.0.table
unfolding act_on run_outside run_simple
idle_effect out (w, applied t true) = refl
idle_effect out (w, applied t false) = refl
idle_effect out (w, failed_with e) = refl

pub locked_start :
    (out : Outside) (p : World × Applied)
    → out.lock_free ≡ false
    → (act_on (run_outside out) start p).table ≡ p.0.table
unfolding act_on run_outside run_simple start_queued
locked_start out (w, applied t true) h = rw h refl
locked_start out (w, applied t false) h = refl
locked_start out (w, failed_with e) h = refl

other_session :
    (id j : ℕ) (sid : Text) (o : Option Row)
    → ((r : Row) → o ≡ some r → r.task.id ≡ j)
    → (id == j) ≡ false
    → session_of (map_row (λ r. if has_id id r then with_session sid r else r) o) ≡ session_of o
other_session id j sid none k h = refl
other_session id j sid (some r) k h =
    let same_row = k r refl in let off : (r.task.id == id) ≡ false = ground arith in rw off refl

told_failed-table :
    (w : World) (t : Task) (note : Text) (p : Table × Reply Task)
    → (told_failed w t note p).table ≡ p.0
unfolding told_failed
told_failed-table w t note (tbl, reply s) = refl
told_failed-table w t note (tbl, db_error e) = refl
told_failed-table w t note (tbl, conflict) = refl
told_failed-table w t note (tbl, not_found) = refl

task_or : Task → Reply Task → Task
task_or a (reply b) = b
task_or a _ = a

reply-inj : {a b : Task} → Reply.reply a ≡ reply b → a ≡ b
unfolding task_or
reply-inj {a} h = ap (λ r. task_or a r) h

both : (b c : Bool) → b && c ≡ true → c ≡ true
both b c h = ground (arith, h)

set_session-session :
    (io : Io) (id j : ℕ) (sid : Text) (tbl : Table)
    → (session_at j (set_session io id sid tbl) ≡ session_at j tbl) ⊎ (id ≡ j)
unfolding set_session session_at
set_session-session (some e) id j sid tbl = inl refl
set_session-session none id j sid tbl = elim (Bool-cases (id == j)) [
  | inl e ↦ inr ((==_iff id j).0 e)
  | inr e ↦ inl (
      ap session_of (find-update (has_id id) (with_session sid) (λ r. refl) j tbl)
      ∙ other_session id j sid (find j tbl) (λ r q. find-id j tbl r q) e)
]

get-session :
    (io : Io) (id : ℕ) (tbl : Table) (cur : Task)
    → get io id tbl ≡ reply cur
    → session_at cur.id tbl ≡ some cur.session_id
unfolding get found session_at
get-session (some e) id tbl cur h = cc
get-session none id tbl cur h = elim (Option-cases (find id tbl)) [
  | inl e ↦ let k = sym (ap found e) ∙ h in cc
  | inr (r, e) ↦
      let same_task = reply-inj (sym (ap found e) ∙ h) in
      let here = ap (λ t. t.id) (sym same_task) ∙ find-id id tbl r e in
      ap (λ n. session_of (find n tbl)) here
      ∙ ap session_of e
      ∙ ap (λ t. some t.session_id) same_task
]

-- The session of row `j` is as it was, or it was empty.
unfoldable pub Fills : ℕ → Table → Table → Type 0
Fills j tbl tbl' = (session_at j tbl' ≡ session_at j tbl) ⊎ (session_at j tbl ≡ some [])

begun-Fills :
    (out : Outside) (w : World) (cur : Task) (s : Started) (j : ℕ)
    → session_at cur.id w.table ≡ some []
    → Fills j w.table (begun out w cur s).table
unfolding begun Fills fail
begun-Fills out w cur (started sid) j h = elim (set_session-session out.io cur.id j sid w.table) [
  | inl e ↦ inl e
  | inr e ↦ inr (subst (λ n. session_at n w.table ≡ some []) e h)
]
begun-Fills out w cur (not_started e) j h = inl (
    ap (session_at j) (told_failed-table w cur _ (transition out.io out.now w.table cur _))
    ∙ transition-session out.io out.now j w.table cur _)

claimed-Fills :
    (out : Outside) (w : World) (t : Task) (r : Reply Task) (j : ℕ)
    → get out.read_io t.id w.table ≡ r
    → Fills j w.table (start_claimed out w (claim (λ cur. is_empty cur.session_id) t r)).table
unfolding start_claimed claim Fills
claimed-Fills out w t conflict j q = inl refl
claimed-Fills out w t not_found j q = inl refl
claimed-Fills out w t (db_error e) j q = inl refl
claimed-Fills out w t (reply cur) j q = elim (Bool-cases (same t cur && is_empty cur.session_id)) [
  | inr e ↦ rw e (inl refl)
  | inl e ↦
      let none_yet = is_empty-empty cur.session_id (both (same t cur) _ e) in
      rw e (
        begun-Fills out w cur out.session j
          (get-session out.read_io t.id w.table cur q ∙ ap some none_yet))
]

pub started-Fills :
    (out : Outside) (p : World × Applied) (j : ℕ)
    → Fills j p.0.table (act_on (run_outside out) start p).table
unfolding act_on run_outside run_simple start_queued Fills
started-Fills out (w, applied t true) j =
    if-both (λ v. Fills j w.table v.table) out.lock_free _ w (λ _. claimed-Fills out w t _ j refl)
      (λ _. inl refl)
started-Fills out (w, applied t false) j = inl refl
started-Fills out (w, failed_with e) j = inl refl
