-- ===== src/Store/Versions.antt =====
-- Versions of a row over any run of the store's operations, by any number of writers.
use c_squad.Task.{Task, phase_eq_iff}
use c_squad.Store.Table.{Row, Table, Io, find, update}
use c_squad.Store.Ops.{
  insert, has_id, unless_error, with_session, with_engine_args, with_hold, set_session,
  set_engine_args, set_hold, delete, stamp, is_version, written, transition, noticed, notice,
  claim_row, claim_found, claim_notice,
}
use c_squad.Store.Rows.{
  IsKeyed, map_row, keep_if, find-id, find-update, update-IsKeyed, find-append, IsKeyed-append,
  IsKeyed-filterb, find-filterb,
}
use c_squad.Store.Cas.{transition_cases}
use c_squad.Base.{
  ℕ, ◌≤◌, ◌≡◌, ◌≢◌, refl, sym, ap, ◌∙◌, ◌⊎◌, inl, inr, Bool, true, not, Option, none, some, List,
  arith, ◌==◌, if◌then◌else◌, Bool-cases, ==_iff, subst, Text,
}

-- One operation of the store, with or without an error of the driver, that does not delete row `id`.
pub data DbStep (id : ℕ) (tbl tbl' : Table) : Type 0 where
  inserts : (io : Io) (now : ℕ) (t : Task) → tbl' ≡ (insert io now tbl t).0 → DbStep id tbl tbl'
  sets_session :
      (io : Io) (j : ℕ) (session : Text) → tbl' ≡ set_session io j session tbl → DbStep id tbl tbl'
  sets_engine_args :
      (io : Io) (j : ℕ) (args : List Text)
      → tbl' ≡ set_engine_args io j args tbl
      → DbStep id tbl tbl'
  sets_hold : (io : Io) (j : ℕ) (hold : Bool) → tbl' ≡ set_hold io j hold tbl → DbStep id tbl tbl'
  deletes : (io : Io) (j : ℕ) → j ≢ id → tbl' ≡ delete io j tbl → DbStep id tbl tbl'
  transitions :
      (io : Io) (now : ℕ) (old next : Task)
      → tbl' ≡ (transition io now tbl old next).0
      → DbStep id tbl tbl'
  claims :
      (io : Io) (t : Task) (class : Text) (at : ℕ) (phase_event : Bool)
      → tbl' ≡ (claim_notice io tbl t class at phase_event).0
      → DbStep id tbl tbl'

-- Any run of such operations.
pub data DbSteps (id : ℕ) (tbl : Table) : Table → Type 0 where
  here : DbSteps id tbl tbl
  more : {tbl' tbl'' : Table} → DbSteps id tbl tbl' → DbStep id tbl' tbl'' → DbSteps id tbl tbl''

-- The time of the phase does not go back; while it stands the phase stands, and so does the mark that
-- the phase was announced.
pub record IsLater (t u : Task) : Type 0 where
  pub no_earlier : t.updated_at ≤ u.updated_at
  pub same_phase : t.updated_at ≡ u.updated_at → u.phase ≡ t.phase
  pub same_mark :
      t.updated_at ≡ u.updated_at
      → t.notified_phase ≡ t.updated_at
      → u.notified_phase ≡ u.updated_at

-- The row is still in the table, in the same or a later version, and the table is in key order.
pub record Keeps (id : ℕ) (r : Row) (tbl : Table) : Type 0 where
  pub keyed : IsKeyed tbl
  pub row : Row
  pub still : find id tbl ≡ some row
  pub later : IsLater r.task row.task

IsLater-refl : (t : Task) → IsLater t t
IsLater-refl t = ground arith

IsLater-trans : (t u v : Task) → IsLater t u → IsLater u v → IsLater t v
IsLater-trans t u v p q = ground arith

module _ (id : ℕ) (r : Row) (tbl : Table) (k : IsKeyed tbl) (there : find id tbl ≡ some r) where
  Keeps-refl : Keeps id r tbl
  Keeps-refl = record { keyed = k; row = r; still = there; later = IsLater-refl r.task }

  -- An update that keeps the numbers, and gives each row it writes the same or a later version.
  Keeps-update :
      (test : Row → Bool) (f : Row → Row)
      → ((s : Row) → (f s).task.id ≡ s.task.id)
      → (test r ≡ true → IsLater r.task (f r).task)
      → Keeps id r (update test f tbl)
  Keeps-update test f ids later = record {
    keyed = update-IsKeyed test f ids tbl k;
    row = if test r then f r else r;
    still = find-update test f ids id tbl ∙ ap (map_row (λ s. if test s then f s else s)) there;
    later = elim (Bool-cases (test r)) [
      | inl e ↦ rw e (later e)
      | inr e ↦ rw e (IsLater-refl r.task)
    ];
  }

  Keeps-insert : (io : Io) (now : ℕ) (t : Task) → Keeps id r (insert io now tbl t).0
  unfolding insert
  Keeps-insert (some e) now t = Keeps-refl
  Keeps-insert none now t = record {
    keyed = IsKeyed-append tbl _ k (omega arith);
    row = r;
    still = find-append id tbl _ ∙ rw there;
    later = IsLater-refl r.task;
  }

  Keeps-delete : (io : Io) (j : ℕ) → j ≢ id → Keeps id r (delete io j tbl)
  unfolding delete
  Keeps-delete (some e) j n = Keeps-refl
  Keeps-delete none j n = record {
    keyed = IsKeyed-filterb (λ s. not (s.task.id == j)) tbl k;
    row = r;
    still =
        find-filterb (λ s. not (s.task.id == j)) id tbl k
        ∙ ap (keep_if (λ s. not (s.task.id == j))) there
        ∙ ground (arith, find-id id tbl r there);
    later = IsLater-refl r.task;
  }

  written-IsLater :
      (now : ℕ) (old next : Task)
      → is_version old r ≡ true
      → IsLater r.task (written now old next r).task
  unfolding is_version written stamp
  written-IsLater now old next v =
      ground (arith, phase_eq_iff r.task.phase old.phase, phase_eq_iff next.phase old.phase)

  Keeps-transition :
      (io : Io) (now : ℕ) (old next : Task) → Keeps id r (transition io now tbl old next).0
  Keeps-transition (some e) now old next = unfold transition in Keeps-refl
  Keeps-transition none now old next = elim (transition_cases now tbl old next k) [
    | inl w ↦ rw w.answered (
        Keeps-update (is_version old) (written now old next) (λ s. unfold written in refl)
          (written-IsLater now old next))
    | inr l ↦ rw l.refused Keeps-refl
  ]

  notice_mark :
      (t : Task) (class : Text) (at : ℕ) (phase_event : Bool) (s : Row) (phase_at : ℕ) (send : Bool)
      → notice t class at phase_event s ≡ some (phase_at, send)
      → (phase_at ≡ s.task.updated_at) ⊎ (phase_at ≡ s.task.notified_phase)
  unfolding notice
  notice_mark t class at phase_event s phase_at send e = ground arith

  claim_row-Keeps :
      (t : Task) (class : Text) (at : ℕ) (s : Row) (n : Option (ℕ × Bool))
      → find t.id tbl ≡ some s
      → ((phase_at : ℕ) (send : Bool)
          → n ≡ some (phase_at, send)
          → (phase_at ≡ s.task.updated_at) ⊎ (phase_at ≡ s.task.notified_phase))
      → Keeps id r (claim_row tbl t.id class at n).0
  unfolding claim_row
  claim_row-Keeps t class at s none e mark = Keeps-refl
  claim_row-Keeps t class at s (some (phase_at, send)) e mark =
      Keeps-update (has_id t.id) (noticed class at phase_at) (λ _. refl) later
    where
      one_row : has_id t.id r ≡ true → s ≡ r
      one_row h =
          let p : some s ≡ some r =
            sym e
            ∙ ap (λ j. find j tbl) (sym ((==_iff r.task.id t.id).0 h) ∙ find-id id tbl r there)
            ∙ there in
          cc

      later : has_id t.id r ≡ true → IsLater r.task (noticed class at phase_at r).task
      later h =
          let m = mark phase_at send refl in
          let q = one_row h in
          record {
            no_earlier = omega arith;
            same_phase = λ _. refl;
            same_mark = λ _ was. elim m [
              | inl now ↦ now ∙ ap (λ x. x.task.updated_at) q
              | inr before ↦ before ∙ ap (λ x. x.task.notified_phase) q ∙ was
            ];
          }

  claim_found-Keeps :
      (t : Task) (class : Text) (at : ℕ) (phase_event : Bool) (s : Option Row)
      → find t.id tbl ≡ s
      → Keeps id r (claim_found tbl t class at phase_event s).0
  unfolding claim_found
  claim_found-Keeps t class at phase_event none e = Keeps-refl
  claim_found-Keeps t class at phase_event (some s) e =
      claim_row-Keeps t class at s (notice t class at phase_event s) e
        (notice_mark t class at phase_event s)

  Keeps-claim :
      (io : Io) (t : Task) (class : Text) (at : ℕ) (phase_event : Bool)
      → Keeps id r (claim_notice io tbl t class at phase_event).0
  unfolding claim_notice
  Keeps-claim (some e) t class at phase_event = Keeps-refl
  Keeps-claim none t class at phase_event =
      claim_found-Keeps t class at phase_event (find t.id tbl) refl

  Keeps-set :
      (io : Io) (j : ℕ) (f : Row → Row)
      → ((s : Row) → (f s).task.id ≡ s.task.id)
      → ((s : Row) → IsLater s.task (f s).task)
      → Keeps id r (unless_error io tbl (update (has_id j) f tbl))
  Keeps-set (some e) j f ids later = Keeps-refl
  Keeps-set none j f ids later = Keeps-update (has_id j) f ids (λ _. later r)

  DbStep-Keeps : (tbl' : Table) → DbStep id tbl tbl' → Keeps id r tbl'
  unfolding set_session set_engine_args set_hold
  DbStep-Keeps tbl' (inserts io now t e) = subst (Keeps id r) (sym e) (Keeps-insert io now t)
  DbStep-Keeps tbl' (sets_session io j v e) = subst (Keeps id r) (sym e) (
      Keeps-set io j (with_session v) (λ s. refl)
        (λ s. record { no_earlier = omega arith; same_phase = λ _. refl; same_mark = λ _ m. m }))
  DbStep-Keeps tbl' (sets_engine_args io j v e) = subst (Keeps id r) (sym e) (
      Keeps-set io j (with_engine_args v) (λ s. refl)
        (λ s. record { no_earlier = omega arith; same_phase = λ _. refl; same_mark = λ _ m. m }))
  DbStep-Keeps tbl' (sets_hold io j v e) = subst (Keeps id r) (sym e) (
      Keeps-set io j (with_hold v) (λ s. refl)
        (λ s. record { no_earlier = omega arith; same_phase = λ _. refl; same_mark = λ _ m. m }))
  DbStep-Keeps tbl' (deletes io j n e) = subst (Keeps id r) (sym e) (Keeps-delete io j n)
  DbStep-Keeps tbl' (transitions io now old next e) =
      subst (Keeps id r) (sym e) (Keeps-transition io now old next)
  DbStep-Keeps tbl' (claims io t class at phase_event e) =
      subst (Keeps id r) (sym e) (Keeps-claim io t class at phase_event)

-- Over any run of the store's operations, by any writers in any order and whatever errors the driver
-- reports, as long as the row is not deleted: the table stays in key order, the row stays, the time
-- of its phase does not go back, and while that time stands so do the phase and the mark that it was
-- announced.
pub DbSteps-Keeps :
    (id : ℕ) (r : Row) (tbl tbl' : Table)
    → IsKeyed tbl
    → find id tbl ≡ some r
    → DbSteps id tbl tbl'
    → Keeps id r tbl'
DbSteps-Keeps id r tbl tbl' k e here = Keeps-refl id r tbl k e
DbSteps-Keeps id r tbl tbl' k e (more {tbl' = mid} run step) =
    let before = DbSteps-Keeps id r tbl mid k e run in
    let after = DbStep-Keeps id before.row mid before.keyed before.still tbl' step in
    record {
      keyed = after.keyed;
      row = after.row;
      still = after.still;
      later = IsLater-trans r.task before.row.task after.row.task before.later after.later;
    }
