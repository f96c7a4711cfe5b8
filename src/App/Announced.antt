-- ===== src/App/Announced.antt =====
-- Observations and moves announce the same events, and each event of a phase once.
use c_squad.Engine.{Live}
use c_squad.Task.{Task}
use c_squad.Store.Table.{Table, Reply, reply, db_error, conflict, not_found, Io}
use c_squad.Store.Ops.{claim_notice}
use c_squad.Store.Rows.{IsKeyed}
use c_squad.Store.Versions.{DbSteps}
use c_squad.Store.Once.{claim_notice_once}
use c_squad.App.View.{view}
use c_squad.App.Notice.{
  Event, Mode, event_word, notice_class, phase_class, phase_event, raise, sends, raise_unless,
}
use c_squad.Base.{◌≡◌, refl, ℕ, Bool, true, false, inl, inr, Bool-cases, arith, sym, ◌∙◌, ap, none}

-- An event of the phase that an observation shows is the event that the move to the phase announced.
pub notice_class-phase_class :
    (t : Task) (l : Live) (observed : Bool)
    → phase_event t (notice_class t (view t l observed)) ≡ true
    → notice_class t (view t l observed) ≡ phase_class t
unfolding notice_class view phase_class phase_event
notice_class-phase_class t l observed h = ground arith

sends-won :
    (mode : Mode) (class : Event) (r : Table × Reply Bool)
    → (sends mode class r).1 ≡ true
    → r ≡ ((sends mode class r).0, reply true)
unfolding sends
sends-won mode class (tbl, reply true) h = refl
sends-won mode class (tbl, reply false) h = cc
sends-won mode class (tbl, db_error e) h = cc
sends-won mode class (tbl, conflict) h = cc
sends-won mode class (tbl, not_found) h = cc

raise_unless-won :
    (announced : Bool) (mode : Mode) (io : Io) (tbl : Table) (t : Task) (class : Event) (at : ℕ)
    → (raise_unless announced mode io tbl t class at).1 ≡ true
    → claim_notice io tbl t (event_word class) at (phase_event t class)
      ≡ ((raise_unless announced mode io tbl t class at).0, reply true)
unfolding raise_unless
raise_unless-won true mode io tbl t class at h = cc
raise_unless-won false mode io tbl t class at h = sends-won mode class _ h

-- A process that sends an event of the phase has won the claim of the table's row.
raise-won :
    (mode : Mode) (io : Io) (tbl : Table) (t : Task) (class : Event) (at : ℕ)
    → phase_event t class ≡ true
    → (raise mode io tbl t class at).1 ≡ true
    → claim_notice io tbl t (event_word class) at true
      ≡ ((raise mode io tbl t class at).0, reply true)
unfolding raise
raise-won Mode.off io tbl t class at p h = cc
raise-won Mode.on io tbl t class at p h =
    ap (λ b. claim_notice io tbl t (event_word class) at b) (sym p)
    ∙ raise_unless-won _ Mode.on io tbl t class at h
raise-won Mode.input io tbl t class at p h =
    ap (λ b. claim_notice io tbl t (event_word class) at b) (sym p)
    ∙ raise_unless-won _ Mode.input io tbl t class at h

-- Of the processes that announce an event of a task's phase for the same version of the row, whether an
-- observation showed it or a move led to it, and whatever each one's setting and clock, no other sends
-- once one has sent, as long as the row is kept.
pub raise_once :
    (tbl later : Table) (t : Task) (class class' : Event) (at at' : ℕ) (mode mode' : Mode) (io : Io)
    → IsKeyed tbl
    → phase_event t class ≡ true
    → phase_event t class' ≡ true
    → (raise mode none tbl t class at).1 ≡ true
    → DbSteps t.id (raise mode none tbl t class at).0 later
    → (raise mode' io later t class' at').1 ≡ false
raise_once tbl later t class class' at at' mode mode' io k p p' h run =
    elim (Bool-cases (raise mode' io later t class' at').1) [
      | inl e ↦ absurd (
          claim_notice_once tbl _ later t (event_word class) (event_word class') at at' io k
            (raise-won mode none tbl t class at p h) run
            (ap (λ r. r.1) (raise-won mode' io later t class' at' p' e)))
      | inr e ↦ e
    ]
