-- ===== src/App/Launched.antt =====
-- What a launch does to the table: one that fails leaves it as it was, one that succeeds adds a sound row.
use c_squad.Task.{waiting, Task, phase_eq}
use c_squad.Gitx.Kinds.{Fallible, ok, err}
use c_squad.Store.Table.{Row, Table, highest, Io}
use c_squad.Store.Ops.{insert, delete, fresh_task}
use c_squad.App.Effects.{Started, started, not_started}
use c_squad.App.Draft.{LaunchArgs, Desk}
use c_squad.App.Launch.{
  Draft, Starter, Launched, draft, deps_of, given_up, queue_up, queue_by, queued_args, args_written,
  recorded_as, placed, begun_as, start_up, inserted, launch_draft, launch,
}
use c_squad.Base.{
  ℕ, ◌+◌, ◌<◌, ◌≡◌, refl, sym, ap, subst, ◌∙◌, Bool, true, false, not, Option, none, some, List, [],
  ◌∷◌, ◌++◌, filterb, ◌==◌, Text, if-both, ==_iff, arith,
}

-- A row above all others goes again.
filterb-new :
    (tbl : Table) (r : Row) (n : ℕ)
    → highest tbl < n
    → r.task.id ≡ n
    → filterb (λ x. not (x.task.id == n)) (tbl ++ r ∷ []) ≡ tbl
unfolding highest
filterb-new [] r n h e =
    let same : (r.task.id == n) ≡ true = (==_iff r.task.id n).1 e in rw same refl
filterb-new (s ∷ tbl) r n h e =
    let other : (s.task.id == n) ≡ false = ground arith in
    rw other (ap (◌∷◌ s) (filterb-new tbl r n (omega arith) e))

-- A failure leaves the table as it was.
unfoldable Restores : Table → Table × Fallible Launched → Type 0
Restores tbl r = (e : Text) → r.1 ≡ err e → r.0 ≡ tbl

no_insert : (tbl : Table) (e : Text) → Restores tbl (tbl, err e)
unfolding Restores
no_insert tbl e f h = refl

-- The table with the new row.
abbrev with_row : Starter → Table → Task → Table
with_row s tbl t = tbl ++ record { task = fresh_task s.now tbl t; notified_at = 0 } ∷ []

module _ (s : Starter) (tbl : Table) (t : Task) (deletes : s.delete_io ≡ none)
    (records : s.record_error ≡ none) where
  given_up-restores : (e : Text) → (given_up s (with_row s tbl t) (highest tbl + 1) e).0 ≡ tbl
  unfolding given_up delete
  given_up-restores e =
      ap (λ io. delete io (highest tbl + 1) (with_row s tbl t)) deletes
      ∙ filterb-new tbl _ (highest tbl + 1) (omega arith) refl

  written-Restores :
      (args : List Text) (o : Option Text)
      → Restores tbl (args_written s (with_row s tbl t) (fresh_task s.now tbl t) args o)
  unfolding args_written Restores
  written-Restores args none f h = cc
  written-Restores args (some e) f h = given_up-restores e

  queued-Restores :
      (a : Fallible (List Text))
      → Restores tbl (queued_args s (with_row s tbl t) (fresh_task s.now tbl t) a)
  unfolding queued_args Restores
  queued-Restores (err e) f h = given_up-restores e
  queued-Restores (ok args) f h = written-Restores args s.args_error f h

  queue_by-Restores :
      (o : Option (ℕ → List Text → Bool → Text → Fallible (List Text)))
      → Restores tbl (queue_by s (with_row s tbl t) (fresh_task s.now tbl t) o)
  unfolding queue_by Restores
  queue_by-Restores none f h = cc
  queue_by-Restores (some q) f h = queued-Restores _ f h

  recorded-Restores :
      (sid : Text) (o : Option Text)
      → o ≡ none
      → Restores tbl (recorded_as (with_row s tbl t) (fresh_task s.now tbl t) sid o)
  unfolding recorded_as Restores
  recorded-Restores sid none k f h = cc
  recorded-Restores sid (some e) k f h = cc

  begun-Restores :
      (a : Started) → Restores tbl (begun_as s (with_row s tbl t) (fresh_task s.now tbl t) a)
  unfolding begun_as Restores
  begun-Restores (not_started e) f h = given_up-restores e
  begun-Restores (started sid) f h = recorded-Restores sid s.record_error records f h

  placed-Restores :
      (deps : List (ℕ × Task)) (fork : Text)
      → Restores tbl (placed s deps fork (with_row s tbl t) (fresh_task s.now tbl t))
  unfolding placed queue_up start_up
  placed-Restores deps fork =
      if-both (Restores tbl) (phase_eq t.phase waiting) _ _ (λ _. queue_by-Restores s.queue)
        (λ _. begun-Restores _)

  inserted-Restores :
      (io : Io) (deps : List (ℕ × Task)) (fork : Text)
      → ((x : Table) → s.meanwhile x ≡ x)
      → Restores tbl (inserted s deps fork (insert io s.now tbl t))
  unfolding inserted insert
  inserted-Restores none deps fork alone =
      subst (λ x. Restores tbl (placed s deps fork x (fresh_task s.now tbl t)))
        (sym (alone (with_row s tbl t))) (placed-Restores deps fork)
  inserted-Restores (some e) deps fork alone = no_insert tbl e

draft-Restores :
    (d : Desk) (s : Starter) (tbl : Table) (dr : Fallible Draft)
    → ((t : Table) → s.meanwhile t ≡ t)
    → s.delete_io ≡ none
    → s.record_error ≡ none
    → Restores tbl (launch_draft d s tbl dr)
unfolding launch_draft
draft-Restores d s tbl (err e) alone deletes records = no_insert tbl e
draft-Restores d s tbl (ok dr) alone deletes records =
    inserted-Restores s tbl dr.task deletes records s.insert_io (deps_of d tbl dr.task.after)
      dr.fork alone

-- A launch that answers an error leaves the table as it was, where no other process writes to it and the
-- driver neither fails to delete a row nor to record a session.
pub launch-Restores :
    (d : Desk) (s : Starter) (la : LaunchArgs) (tbl : Table) (e : Text)
    → ((t : Table) → s.meanwhile t ≡ t)
    → s.delete_io ≡ none
    → s.record_error ≡ none
    → (launch d s la tbl).1 ≡ err e
    → (launch d s la tbl).0 ≡ tbl
unfolding launch Restores
launch-Restores d s la tbl e alone deletes records h =
    draft-Restores d s tbl (draft d la tbl) alone deletes records e h
