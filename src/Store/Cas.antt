-- ===== src/Store/Cas.antt =====
-- The compare-and-set: what `transition` does to the table, seen as a map from numbers to rows.
use c_squad.Task.{Task}
use c_squad.Store.Table.{Row, Table, reply, conflict, find, update, affected}
use c_squad.Store.Ops.{is_version, written, transition}
use c_squad.Store.Rows.{IsAbove, IsKeyed, map_row, find-update, update-IsKeyed}
use c_squad.Base.{
  ℕ, ◌≡◌, refl, ap, ◌∙◌, ◌⊎◌, inl, inr, true, false, Option, none, some, [], ◌∷◌, arith, ◌==◌,
  if◌then◌else◌, Bool-cases, Option-cases, ==_iff, subst,
}

is_version-id : (old : Task) (r : Row) → is_version old r ≡ true → r.task.id ≡ old.id
unfolding is_version
is_version-id old r h = ground arith

-- How many rows the UPDATE writes: one if the row with the number is the version, else none.
abbrev hits : Task → Option Row → ℕ
hits old none = 0
hits old (some r) = if is_version old r then 1 else 0

affected_above : (old : Task) (tbl : Table) → IsAbove old.id tbl → affected (is_version old) tbl ≡ 0
unfolding affected
affected_above old [] a = refl
affected_above old (r ∷ rs) (h, a) = ground (arith, is_version-id old r, affected_above old rs a)

affected-is_version :
    (old : Task) (tbl : Table)
    → IsKeyed tbl
    → affected (is_version old) tbl ≡ hits old (find old.id tbl)
unfolding affected find
affected-is_version old [] k = refl
affected-is_version old (r ∷ rs) (a, k) = elim (Bool-cases (r.task.id == old.id)) [
  | inl q ↦
      ground
        (arith, affected_above old rs (subst (λ n. IsAbove n rs) ((==_iff r.task.id old.id).0 q) a))
  | inr q ↦ ground (arith, is_version-id old r, affected-is_version old rs k)
]

-- The write won: the row was the version, and the one row is written.
pub record Wins (now : ℕ) (tbl : Table) (old next : Task) : Type 0 where
  pub row : Row
  pub was_there : find old.id tbl ≡ some row
  pub was_version : is_version old row ≡ true
  pub answered :
      transition none now tbl old next
      ≡ (update (is_version old) (written now old next) tbl, reply (written now old next row).task)

-- The write lost: no row is the version, and the table is as it was.
pub record Loses (now : ℕ) (tbl : Table) (old next : Task) : Type 0 where
  pub no_version : (r : Row) → find old.id tbl ≡ some r → is_version old r ≡ false
  pub refused : transition none now tbl old next ≡ (tbl, conflict)

pub written-id :
    (now : ℕ) (old next : Task) (r : Row) → (written now old next r).task.id ≡ r.task.id
unfolding written
written-id now old next r = refl

-- The row that the transition writes, as found afterwards.
pub find-written :
    (now : ℕ) (tbl : Table) (old next : Task) (r : Row)
    → find old.id tbl ≡ some r
    → is_version old r ≡ true
    → find old.id (update (is_version old) (written now old next) tbl)
      ≡ some (written now old next r)
find-written now tbl old next r e v =
    find-update (is_version old) (written now old next) (written-id now old next) old.id tbl
    ∙ ap (map_row (λ s. if is_version old s then written now old next s else s)) e
    ∙ rw v

pub update-written-IsKeyed :
    (now : ℕ) (tbl : Table) (old next : Task)
    → IsKeyed tbl
    → IsKeyed (update (is_version old) (written now old next) tbl)
update-written-IsKeyed now tbl old next k =
    update-IsKeyed (is_version old) (written now old next) (written-id now old next) tbl k

transition_wins :
    (now : ℕ) (tbl : Table) (old next : Task) (r : Row)
    → IsKeyed tbl
    → find old.id tbl ≡ some r
    → is_version old r ≡ true
    → transition none now tbl old next
      ≡ (update (is_version old) (written now old next) tbl, reply (written now old next r).task)
unfolding transition
transition_wins now tbl old next r k e v =
    let one : affected (is_version old) tbl ≡ 1 =
      affected-is_version old tbl k ∙ ap (hits old) e ∙ rw v in
    rw (one, find-written now tbl old next r e v)

transition_loses :
    (now : ℕ) (tbl : Table) (old next : Task)
    → affected (is_version old) tbl ≡ 0
    → transition none now tbl old next ≡ (tbl, conflict)
unfolding transition
transition_loses now tbl old next e = rw e

-- On a table in key order a transition wins exactly when the row with the number still has the phase,
-- the time and the hold of `old`, and writes that row alone; else nothing is written and the answer is
-- the conflict.
pub transition_cases :
    (now : ℕ) (tbl : Table) (old next : Task)
    → IsKeyed tbl
    → Wins now tbl old next ⊎ Loses now tbl old next
transition_cases now tbl old next k = elim (Option-cases (find old.id tbl)) [
  | inl e ↦ inr (record {
    no_version = λ r q. cc;
    refused = transition_loses now tbl old next (affected-is_version old tbl k ∙ ap (hits old) e);
  })
  | inr (r, e) ↦ elim (Bool-cases (is_version old r)) [
    | inl v ↦ inl (record {
      row = r;
      was_there = e;
      was_version = v;
      answered = transition_wins now tbl old next r k e v;
    })
    | inr v ↦ inr (record {
      no_version = λ s q. cc;
      refused =
          transition_loses now tbl old next
            (affected-is_version old tbl k ∙ ap (hits old) e ∙ rw v);
    })
  ]
]
