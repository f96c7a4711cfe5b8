-- ===== src/Store/Refined.antt =====
-- The table implements the map.
use c_squad.Store.Spec.{
  Op, inserts, gets, sets_session, sets_engine_args, sets_hold, deletes, moves, perform, put, holds,
  cas, perform_map, rows_of, Refines,
}
use c_squad.Task.{Task}
use c_squad.Store.Table.{Row, Table, conflict, find, update, highest}
use c_squad.Store.Ops.{
  insert, get, has_id, with_session, with_engine_args, with_hold, set_session, set_engine_args,
  set_hold, delete, is_version, written,
}
use c_squad.Store.Rows.{
  IsKeyed, map_row, keep_if, find-update, find-append, find-filterb, find-id, find-le_highest,
  update-IsKeyed, IsKeyed-append, IsKeyed-filterb,
}
use c_squad.Store.Cas.{Wins, Loses, written-id, transition_cases, update-written-IsKeyed}
use c_squad.Base.{
  ℕ, ◌+◌, ◌≡◌, refl, sym, ap, ◌∙◌, inl, inr, Bool, Bool-cases, true, false, not, Option,
  Option-cases, none, some, [], ◌∷◌, ◌++◌, ◌==◌, ==_iff, if◌then◌else◌, arith, filterb, subst,
}

map_row-all :
    (test : Row → Bool) (f : Row → Row) (o : Option Row)
    → ((r : Row) → o ≡ some r → test r ≡ true)
    → map_row (λ r. if test r then f r else r) o ≡ map_row f o
map_row-all test f none h = refl
map_row-all test f (some r) h = rw (h r refl)

map_row-none :
    (test : Row → Bool) (f : Row → Row) (o : Option Row)
    → ((r : Row) → o ≡ some r → test r ≡ false)
    → map_row (λ r. if test r then f r else r) o ≡ o
map_row-none test f none h = refl
map_row-none test f (some r) h = rw (h r refl)

keep_if-all :
    (test : Row → Bool) (o : Option Row)
    → ((r : Row) → o ≡ some r → test r ≡ true)
    → keep_if test o ≡ o
keep_if-all test none h = refl
keep_if-all test (some r) h = rw (h r refl)

keep_if-none :
    (test : Row → Bool) (o : Option Row)
    → ((r : Row) → o ≡ some r → test r ≡ false)
    → keep_if test o ≡ none
keep_if-none test none h = refl
keep_if-none test (some r) h = rw (h r refl)

-- The row that is found has the number, or another.
is_found : (id j : ℕ) (tbl : Table) → id ≡ j → (r : Row) → find j tbl ≡ some r → has_id id r ≡ true
is_found id j tbl e r h = (==_iff r.task.id id).1 (find-id j tbl r h ∙ sym e)

is_other :
    (id j : ℕ) (tbl : Table)
    → (id == j) ≡ false
    → (r : Row) → find j tbl ≡ some r
    → has_id id r ≡ false
is_other id j tbl e r h = ground (arith, e, find-id j tbl r h)

module _ (tbl : Table) (k : IsKeyed tbl) where
  none_above : find (highest tbl + 1) tbl ≡ none
  none_above = elim (Option-cases (find (highest tbl + 1) tbl)) [
    | inl e ↦ e
    | inr (r, e) ↦ absurd (omega (arith, find-le_highest (highest tbl + 1) tbl r e))
  ]

  find-changed :
      (test : Row → Bool) (f : Row → Row) (id j : ℕ)
      → ((r : Row) → (f r).task.id ≡ r.task.id)
      → ((r : Row) → find id tbl ≡ some r → test r ≡ true)
      → ((r : Row) → has_id id r ≡ false → test r ≡ false)
      → find j (update test f tbl) ≡ put id (map_row f (find id tbl)) (rows_of tbl) j
  find-changed test f id j same hit miss = elim (Bool-cases (id == j)) [
    | inl e ↦
        let q = (==_iff id j).0 e in
        rw e (
          find-update test f same j tbl
          ∙ map_row-all test f (find j tbl)
              (subst (λ i. (r : Row) → find i tbl ≡ some r → test r ≡ true) q hit)
          ∙ ap (λ i. map_row f (find i tbl)) (sym q))
    | inr e ↦ rw e (
        find-update test f same j tbl
        ∙ map_row-none test f (find j tbl) (λ r h. miss r (is_other id j tbl e r h)))
  ]

  find-set :
      (f : Row → Row) (id j : ℕ)
      → ((r : Row) → (f r).task.id ≡ r.task.id)
      → find j (update (has_id id) f tbl) ≡ put id (map_row f (find id tbl)) (rows_of tbl) j
  find-set f id j same = find-changed (has_id id) f id j same (is_found id id tbl refl) (λ r e. e)

  find-deleted :
      (id j : ℕ) → find j (filterb (λ r. not (r.task.id == id)) tbl) ≡ put id none (rows_of tbl) j
  find-deleted id j = find-filterb (λ r. not (has_id id r)) j tbl k ∙ elim (Bool-cases (id == j)) [
    | inl e ↦ rw e (
        keep_if-none (λ r. not (has_id id r)) (find j tbl)
          (λ r h. ap not (is_found id j tbl ((==_iff id j).0 e) r h)))
    | inr e ↦ rw e (
        keep_if-all (λ r. not (has_id id r)) (find j tbl) (λ r h. ap not (is_other id j tbl e r h)))
  ]

  find-created :
      (r : Row) (j : ℕ)
      → r.task.id ≡ highest tbl + 1
      → find j (tbl ++ r ∷ []) ≡ put (highest tbl + 1) (some r) (rows_of tbl) j
  find-created r j e = find-append j tbl r ∙ elim (Option-cases (find j tbl)) [
    | inl h ↦ rw (h, e)
    | inr (s, h) ↦ rw h (ground (arith, find-le_highest j tbl s h))
  ]

  inserts-Refines : (now : ℕ) (t : Task) → Refines (inserts now t) tbl
  unfolding perform perform_map insert
  inserts-Refines now t = record {
    key = highest tbl + 1;
    free = none_above;
    same_rows = λ j. find-created _ j refl;
    same_answer = refl;
    keyed = IsKeyed-append tbl _ k (omega arith);
  }

  set-Refines :
      (op : Op) (f : Row → Row) (id : ℕ)
      → ((r : Row) → (f r).task.id ≡ r.task.id)
      → perform op tbl ≡ (update (has_id id) f tbl, none)
      → ((key : ℕ)
          → perform_map key op (rows_of tbl)
            ≡ (put id (map_row f (find id tbl)) (rows_of tbl), none))
      → Refines op tbl
  set-Refines op f id same e e' = record {
    key = highest tbl + 1;
    free = none_above;
    same_rows = λ j. rw (e, e' (highest tbl + 1)) (find-set f id j same);
    same_answer = rw (e, e' (highest tbl + 1));
    keyed = rw e (update-IsKeyed (has_id id) f same tbl k);
  }

  deletes-Refines : (id : ℕ) → Refines (deletes id) tbl
  unfolding perform perform_map delete
  deletes-Refines id = record {
    key = highest tbl + 1;
    free = none_above;
    same_rows = find-deleted id;
    same_answer = refl;
    keyed = IsKeyed-filterb (λ r. not (r.task.id == id)) tbl k;
  }

  is_version-other : (old : Task) (r : Row) → has_id old.id r ≡ false → is_version old r ≡ false
  unfolding is_version
  is_version-other old r h = rw h

  is_version-holds :
      (old : Task) (r : Row) (b : Bool)
      → find old.id tbl ≡ some r
      → is_version old r ≡ b
      → holds old r.task ≡ b
  unfolding is_version holds
  is_version-holds old r b e h = ground (arith, h, find-id old.id tbl r e, ==_iff r.task.id old.id)

  Wins-Refines :
      (now : ℕ) (old next : Task) → Wins now tbl old next → Refines (moves now old next) tbl
  unfolding perform perform_map cas
  Wins-Refines now old next w =
      let v = is_version-holds old w.row true w.was_there w.was_version in
      record {
        key = highest tbl + 1;
        free = none_above;
        same_rows = λ j.
            rw (w.answered, w.was_there, v)
              (find-changed (is_version old) (written now old next) old.id j
                  (written-id now old next) (λ r h. cc) (is_version-other old)
                ∙ ap (λ o. put old.id (map_row (written now old next) o) (rows_of tbl) j)
                    w.was_there);
        same_answer = rw (w.answered, w.was_there, v);
        keyed = rw (w.answered) (update-written-IsKeyed now tbl old next k);
      }

  cas-loses :
      (now : ℕ) (old next : Task) (o : Option Row)
      → ((r : Row) → o ≡ some r → holds old r.task ≡ false)
      → cas now old next o (rows_of tbl) ≡ (rows_of tbl, some conflict)
  unfolding cas
  cas-loses now old next none h = refl
  cas-loses now old next (some r) h = rw (h r refl)

  Loses-Refines :
      (now : ℕ) (old next : Task) → Loses now tbl old next → Refines (moves now old next) tbl
  unfolding perform perform_map
  Loses-Refines now old next l =
      let e =
        cas-loses now old next (find old.id tbl)
          (λ r q. is_version-holds old r false q (l.no_version r q)) in
      record {
        key = highest tbl + 1;
        free = none_above;
        same_rows = λ j. rw (l.refused, e);
        same_answer = rw (l.refused, e);
        keyed = rw (l.refused) k;
      }

-- On a table in key order every operation of the store implements the operation on a map from numbers to
-- rows: it changes the rows as that one does, answers the same and leaves the table in key order; a new
-- row gets a number that was free, a write by compare-and-set replaces the row only where it is the
-- version, and every other row stays.
pub perform-Refines : (op : Op) (tbl : Table) → IsKeyed tbl → Refines op tbl
unfolding perform perform_map set_session set_engine_args set_hold get
perform-Refines (inserts now t) tbl k = inserts-Refines tbl k now t
perform-Refines (gets id) tbl k = record {
  key = highest tbl + 1;
  free = none_above tbl k;
  same_rows = λ j. refl;
  same_answer = refl;
  keyed = k;
}
perform-Refines (sets_session id s) tbl k =
    set-Refines tbl k (sets_session id s) (with_session s) id (λ r. refl) refl (λ key. refl)
perform-Refines (sets_engine_args id args) tbl k =
    set-Refines tbl k (sets_engine_args id args) (with_engine_args args) id (λ r. refl) refl
      (λ key. refl)
perform-Refines (sets_hold id b) tbl k =
    set-Refines tbl k (sets_hold id b) (with_hold b) id (λ r. refl) refl (λ key. refl)
perform-Refines (deletes id) tbl k = deletes-Refines tbl k id
perform-Refines (moves now old next) tbl k = elim (transition_cases now tbl old next k) [
  | inl w ↦ Wins-Refines tbl k now old next w
  | inr l ↦ Loses-Refines tbl k now old next l
]
