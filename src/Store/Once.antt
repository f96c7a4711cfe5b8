-- ===== src/Store/Once.antt =====
-- What happens once: a version of a row is written over once, and a phase is announced once.
use c_squad.Task.{Task, phase_eq_iff, step_eq_iff}
use c_squad.Store.Table.{Row, Table, reply, conflict, Io, find, update}
use c_squad.Store.Ops.{
  has_id, stamp, is_version, written, transition, noticed, notice, claim_row, claim_found,
  claim_notice,
}
use c_squad.Store.Rows.{IsKeyed, map_row, find-id, find-update, update-IsKeyed}
use c_squad.Store.Cas.{transition_cases, find-written, update-written-IsKeyed}
use c_squad.Store.Versions.{DbSteps, DbSteps-Keeps}
use c_squad.Base.{
  ℕ, ◌<◌, ◌≡◌, ◌≢◌, refl, sym, ap, ◌∙◌, ◌⊎◌, inl, inr, Bool, true, false, Option, none, some, arith,
  if◌then◌else◌, ==_iff, subst, Text,
}

-- What a won transition leaves at its number: the row as answered, in a later version if it moved.
pub record Written (now : ℕ) (tbl mid : Table) (old next stored : Task) : Type 0 where
  pub keyed : IsKeyed mid
  pub row : Row
  pub there : find old.id mid ≡ some row
  pub answer : row.task ≡ stored
  pub time : stored.updated_at ≡ stamp now old next

written-time :
    (now : ℕ) (old next : Task) (r : Row)
    → (written now old next r).task.updated_at ≡ stamp now old next
unfolding written
written-time now old next r = refl

transition-Written :
    (now : ℕ) (tbl mid : Table) (old next stored : Task)
    → IsKeyed tbl
    → transition none now tbl old next ≡ (mid, reply stored)
    → Written now tbl mid old next stored
transition-Written now tbl mid old next stored k e = elim (transition_cases now tbl old next k) [
  | inl w ↦
      let m : mid ≡ update (is_version old) (written now old next) tbl =
        ap (λ x. x.0) (sym e ∙ w.answered) in
      let s : reply stored ≡ reply (written now old next w.row).task =
        ap (λ x. x.1) (sym e ∙ w.answered) in
      record {
        keyed = subst IsKeyed (sym m) (update-written-IsKeyed now tbl old next k);
        row = written now old next w.row;
        there = ap (find old.id) m ∙ find-written now tbl old next w.row w.was_there w.was_version;
        answer = cc;
        time = cc (s, written-time now old next w.row);
      }
  | inr l ↦ let s : reply stored ≡ conflict = ap (λ x. x.1) (sym e ∙ l.refused) in cc
]

stamp_moves :
    (now : ℕ) (old next : Task)
    → (next.phase ≢ old.phase) ⊎ (next.step ≢ old.step)
    → old.updated_at < stamp now old next
unfolding stamp
stamp_moves now old next h =
    ground (arith, phase_eq_iff next.phase old.phase, step_eq_iff next.step old.step)

is_version-time :
    (old : Task) (r : Row) → is_version old r ≡ true → r.task.updated_at ≡ old.updated_at
unfolding is_version
is_version-time old r h = ground arith

-- A version whose time the row has left behind is never written over again.
pub transition_stale :
    (now id : ℕ) (tbl : Table) (old next : Task) (r : Row)
    → IsKeyed tbl
    → find old.id tbl ≡ some r
    → old.updated_at < r.task.updated_at
    → transition none now tbl old next ≡ (tbl, conflict)
transition_stale now id tbl old next r k e h = elim (transition_cases now tbl old next k) [
  | inl w ↦
      let q : some r ≡ some w.row = sym e ∙ w.was_there in
      absurd (ground (arith, is_version-time old w.row w.was_version))
  | inr l ↦ l.refused
]

-- Of all the writers that observed the same version of a task, at most one moves it: once a transition
-- from that version changed the phase or the step, every later transition from the version is
-- refused with the conflict and writes nothing, whatever the store's other operations did in between,
-- as long as the row is not deleted.
pub transition_once :
    (now now' : ℕ) (tbl mid later : Table) (old next next' stored : Task)
    → IsKeyed tbl
    → transition none now tbl old next ≡ (mid, reply stored)
    → (next.phase ≢ old.phase) ⊎ (next.step ≢ old.step)
    → DbSteps old.id mid later
    → transition none now' later old next' ≡ (later, conflict)
transition_once now now' tbl mid later old next next' stored k e moves run =
    let w = transition-Written now tbl mid old next stored k e in
    let s = DbSteps-Keeps old.id w.row mid later w.keyed w.there run in
    transition_stale now' old.id later old next' s.row s.keyed s.still (
      omega (
        arith,
        stamp_moves now old next moves,
        s.later.no_earlier,
        ap (λ x. x.updated_at) w.answer,
        w.time,
      ))

-- A claim that sends a phase event leaves the row marked as announced for the version of `t`.
pub record Announced (tbl mid : Table) (t : Task) : Type 0 where
  pub keyed : IsKeyed mid
  pub row : Row
  pub there : find t.id mid ≡ some row
  pub version : row.task.updated_at ≡ t.updated_at
  pub marked : row.task.notified_phase ≡ row.task.updated_at

notice_sends :
    (t : Task) (class : Text) (at : ℕ) (r : Row) (phase_at : ℕ) (send : Bool)
    → notice t class at true r ≡ some (phase_at, send)
    → (phase_at ≡ r.task.updated_at) × (r.task.updated_at ≡ t.updated_at)
unfolding notice
notice_sends t class at r phase_at send e = ground arith

claim_row-Announced :
    (tbl mid : Table) (t : Task) (class : Text) (at : ℕ) (r : Row) (n : Option (ℕ × Bool))
    → IsKeyed tbl
    → find t.id tbl ≡ some r
    → notice t class at true r ≡ n
    → claim_row tbl t.id class at n ≡ (mid, reply true)
    → Announced tbl mid t
unfolding claim_row
claim_row-Announced tbl mid t class at r none k e q h =
    let s : reply false ≡ reply true = ap (λ x. x.1) h in cc
claim_row-Announced tbl mid t class at r (some (phase_at, send)) k e q h =
    let m : update (has_id t.id) (noticed class at phase_at) tbl ≡ mid = ap (λ x. x.0) h in
    let (now, version) = notice_sends t class at r phase_at send q in
    record {
      keyed =
          subst IsKeyed m
            (update-IsKeyed (has_id t.id) (noticed class at phase_at) (λ _. refl) tbl k);
      row = noticed class at phase_at r;
      there =
          ap (find t.id) (sym m)
          ∙ find-update (has_id t.id) (noticed class at phase_at) (λ _. refl) t.id tbl
          ∙ ap (map_row (λ s. if has_id t.id s then noticed class at phase_at s else s)) e
          ∙ rw ((==_iff r.task.id t.id).1 (find-id t.id tbl r e));
      version = version;
      marked = now;
    }

claim_found-Announced :
    (tbl mid : Table) (t : Task) (class : Text) (at : ℕ) (s : Option Row)
    → IsKeyed tbl
    → find t.id tbl ≡ s
    → claim_found tbl t class at true s ≡ (mid, reply true)
    → Announced tbl mid t
unfolding claim_found
claim_found-Announced tbl mid t class at none k e h =
    let s : reply false ≡ reply true = ap (λ x. x.1) h in cc
claim_found-Announced tbl mid t class at (some r) k e h =
    claim_row-Announced tbl mid t class at r (notice t class at true r) k e refl h

notice_marked :
    (t : Task) (class : Text) (at : ℕ) (r : Row) (phase_at : ℕ) (send : Bool)
    → (r.task.updated_at ≡ t.updated_at → r.task.notified_phase ≡ r.task.updated_at)
    → notice t class at true r ≡ some (phase_at, send)
    → send ≡ false
unfolding notice
notice_marked t class at r phase_at send m e = ground arith

claim_row_silent :
    (tbl : Table) (id : ℕ) (class : Text) (at : ℕ) (n : Option (ℕ × Bool))
    → ((phase_at : ℕ) (send : Bool) → n ≡ some (phase_at, send) → send ≡ false)
    → (claim_row tbl id class at n).1 ≡ reply false
unfolding claim_row
claim_row_silent tbl id class at none h = refl
claim_row_silent tbl id class at (some (phase_at, send)) h = ap reply (h phase_at send refl)

claim_marked :
    (tbl : Table) (t : Task) (class : Text) (at : ℕ) (r : Row)
    → find t.id tbl ≡ some r
    → (r.task.updated_at ≡ t.updated_at → r.task.notified_phase ≡ r.task.updated_at)
    → (claim_notice none tbl t class at true).1 ≡ reply false
unfolding claim_notice claim_found
claim_marked tbl t class at r e m =
    ap (λ s. (claim_found tbl t class at true s).1) e
    ∙ claim_row_silent tbl t.id class at (notice t class at true r)
        (λ phase_at send q. notice_marked t class at r phase_at send m q)

-- A phase event is announced once for each version of a task: after a claim told its caller to send,
-- no claim of a phase event for that version tells another to, whatever its class and its time,
-- and whatever the store's operations did in between, as long as the row is not deleted.
pub claim_notice_once :
    (tbl mid later : Table) (t : Task) (class class' : Text) (at at' : ℕ) (io : Io)
    → IsKeyed tbl
    → claim_notice none tbl t class at true ≡ (mid, reply true)
    → DbSteps t.id mid later
    → (claim_notice io later t class' at' true).1 ≢ reply true
unfolding claim_notice
claim_notice_once tbl mid later t class class' at at' (some e) k h run q = cc
claim_notice_once tbl mid later t class class' at at' none k h run q =
    let a = claim_found-Announced tbl mid t class at (find t.id tbl) k refl h in
    let s = DbSteps-Keeps t.id a.row mid later a.keyed a.there run in
    let silent =
      claim_marked later t class' at' s.row s.still
        (λ same_time. s.later.same_mark (a.version ∙ sym same_time) a.marked) in
    cc
