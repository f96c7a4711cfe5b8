-- ===== src/Store/Rows.antt =====
-- The table as a map from numbers to rows: what SELECT by id sees after each statement, and the
-- numbers that a table holds.
use c_squad.Store.Table.{Row, Table, find, update, highest, order_by_id, insert_by_id}
use c_squad.Base.{
  ℕ, ◌≤◌, ◌<◌, ◌≡◌, refl, sym, inl, inr, Bool, Option, none, some, [], ◌∷◌, ◌++◌, arith, ◌==◌,
  if◌then◌else◌, filterb, All, Bool-cases, ==_iff, subst,
}

-- Every number in the table is above `n`.
abbrev pub IsAbove : ℕ → Table → Type 0
IsAbove n tbl = All (λ r. n < r.task.id) tbl

-- The table as the primary key orders it: numbers rise strictly, so none stands twice.
abbrev pub IsKeyed : Table → Type 0
IsKeyed [] = Unit
IsKeyed (r ∷ rs) = IsAbove r.task.id rs × IsKeyed rs

abbrev pub map_row : (Row → Row) → Option Row → Option Row
map_row f none = none
map_row f (some r) = some (f r)

pub find-id : (id : ℕ) (tbl : Table) (r : Row) → find id tbl ≡ some r → r.task.id ≡ id
unfolding find
find-id id [] r e = cc
find-id id (s ∷ rs) r e = ground (arith, find-id id rs r)

pub find_above : (id : ℕ) (tbl : Table) → IsAbove id tbl → find id tbl ≡ none
unfolding find
find_above id [] a = refl
find_above id (r ∷ rs) (h, a) = ground (arith, find_above id rs a)

pub find-update :
    (test : Row → Bool) (f : Row → Row)
    → ((r : Row) → (f r).task.id ≡ r.task.id)
    → (j : ℕ) (tbl : Table)
    → find j (update test f tbl) ≡ map_row (λ r. if test r then f r else r) (find j tbl)
unfolding find update
find-update test f k j [] = refl
find-update test f k j (r ∷ rs) = ground (arith, find-update test f k j rs, k r)

pub update-IsAbove :
    (test : Row → Bool) (f : Row → Row)
    → ((r : Row) → (f r).task.id ≡ r.task.id)
    → (n : ℕ) (tbl : Table) → IsAbove n tbl
    → IsAbove n (update test f tbl)
unfolding update
update-IsAbove test f k n [] a = tt
update-IsAbove test f k n (r ∷ rs) (h, a) = (ground (arith, k r), update-IsAbove test f k n rs a)

kept_id :
    (test : Row → Bool) (f : Row → Row)
    → ((r : Row) → (f r).task.id ≡ r.task.id)
    → (r : Row) → (if test r then f r else r).task.id ≡ r.task.id
kept_id test f k r = ground (arith, k r)

pub update-IsKeyed :
    (test : Row → Bool) (f : Row → Row)
    → ((r : Row) → (f r).task.id ≡ r.task.id)
    → (tbl : Table) → IsKeyed tbl
    → IsKeyed (update test f tbl)
unfolding update
update-IsKeyed test f k [] h = tt
update-IsKeyed test f k (r ∷ rs) (a, h) = (
  subst (λ n. IsAbove n (update test f rs)) (sym (kept_id test f k r))
      (update-IsAbove test f k r.task.id rs a),
  update-IsKeyed test f k rs h,
)

pub find-append :
    (j : ℕ) (tbl : Table) (r : Row)
    → find j (tbl ++ r ∷ [])
      ≡ (elim (find j tbl) [ some s ↦ some s | none ↦ if r.task.id == j then some r else none ])
unfolding find
find-append j [] r = ground arith
find-append j (s ∷ rs) r = ground (arith, find-append j rs r)

pub find-le_highest : (id : ℕ) (tbl : Table) (r : Row) → find id tbl ≡ some r → id ≤ highest tbl
unfolding find highest
find-le_highest id [] r e = cc
find-le_highest id (s ∷ rs) r e = ground (arith, find-le_highest id rs r)

IsAbove-append :
    (n : ℕ) (tbl : Table) (r : Row) → IsAbove n tbl → n < r.task.id → IsAbove n (tbl ++ r ∷ [])
IsAbove-append n [] r a h = (h, tt)
IsAbove-append n (s ∷ rs) r (x, a) h = (x, IsAbove-append n rs r a h)

pub IsKeyed-append :
    (tbl : Table) (r : Row) → IsKeyed tbl → highest tbl < r.task.id → IsKeyed (tbl ++ r ∷ [])
unfolding highest
IsKeyed-append [] r k h = (tt, tt)
IsKeyed-append (s ∷ rs) r (a, k) h =
    (IsAbove-append s.task.id rs r a (omega arith), IsKeyed-append rs r k (omega arith))

IsAbove-filterb : (p : Row → Bool) (n : ℕ) (tbl : Table) → IsAbove n tbl → IsAbove n (filterb p tbl)
IsAbove-filterb p n [] a = tt
IsAbove-filterb p n (r ∷ rs) (h, a) = elim (Bool-cases (p r)) [
  | inl e ↦ rw e (h, IsAbove-filterb p n rs a)
  | inr e ↦ rw e (IsAbove-filterb p n rs a)
]

pub IsKeyed-filterb : (p : Row → Bool) (tbl : Table) → IsKeyed tbl → IsKeyed (filterb p tbl)
IsKeyed-filterb p [] k = tt
IsKeyed-filterb p (r ∷ rs) (a, k) = elim (Bool-cases (p r)) [
  | inl e ↦ rw e (IsAbove-filterb p r.task.id rs a, IsKeyed-filterb p rs k)
  | inr e ↦ rw e (IsKeyed-filterb p rs k)
]

-- What a test leaves of a row that was found.
abbrev pub keep_if : (Row → Bool) → Option Row → Option Row
keep_if p none = none
keep_if p (some r) = if p r then some r else none

pub find-filterb :
    (p : Row → Bool) (j : ℕ) (tbl : Table)
    → IsKeyed tbl
    → find j (filterb p tbl) ≡ keep_if p (find j tbl)
unfolding find
find-filterb p j [] k = refl
find-filterb p j (r ∷ rs) (a, k) = elim (Bool-cases (p r)) [
  | inl e ↦ ground (arith, find-filterb p j rs k)
  | inr e ↦ elim (Bool-cases (r.task.id == j)) [
    | inl q ↦ ground (
      arith,
      find-filterb p j rs k,
      find_above j rs (subst (λ n. IsAbove n rs) ((==_iff r.task.id j).0 q) a),
    )
    | inr q ↦ ground (arith, find-filterb p j rs k)
  ]
]

insert_by_id-IsAbove :
    (r : Row) (tbl : Table) → IsAbove r.task.id tbl → insert_by_id r tbl ≡ r ∷ tbl
unfolding insert_by_id
insert_by_id-IsAbove r [] a = refl
insert_by_id-IsAbove r (s ∷ rs) (h, a) = ground arith

-- A table in the order of its key is listed in that order.
pub order_by_id-IsKeyed : (tbl : Table) → IsKeyed tbl → order_by_id tbl ≡ tbl
unfolding order_by_id
order_by_id-IsKeyed [] k = refl
order_by_id-IsKeyed (r ∷ rs) (a, k) = rw (order_by_id-IsKeyed rs k) (insert_by_id-IsAbove r rs a)
