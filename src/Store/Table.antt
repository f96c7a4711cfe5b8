-- ===== src/Store/Table.antt =====
-- The tasks table (internal/store/store.go): rows, and what a SELECT, an UPDATE or a DELETE by id does
-- to them. A row is the task and the one column that `Task` does not show, `notified_at`.
use c_squad.Task.{Task}
use c_squad.Base.{
  ℕ, ◌+◌, max, Bool, Option, none, some, List, [], ◌∷◌, ◌==◌, leb, if◌then◌else◌, Text,
}

pub record Row : Type 0 where
  pub task : Task
  pub notified_at : ℕ

abbrev pub Table : Type 0
Table = List Row

-- What an operation answers: a value, the driver's error, or one of the two errors of the package.
pub data Reply (A : Type 0) : Type 0 where
  reply : A → Reply A
  db_error : Text → Reply A
  conflict : Reply A
  not_found : Reply A

-- The driver's error for the statements of one operation, if it reports one. The transaction is then
-- rolled back.
abbrev pub Io : Type 0
Io = Option Text

-- `SELECT … WHERE id = ?`
unfoldable pub find : ℕ → Table → Option Row
find id [] = none
find id (r ∷ rs) = if r.task.id == id then some r else find id rs

-- `UPDATE … WHERE id = ? AND …`
unfoldable pub update : (Row → Bool) → (Row → Row) → Table → Table
update test f [] = []
update test f (r ∷ rs) = (if test r then f r else r) ∷ update test f rs

-- `RowsAffected` of such an update.
unfoldable pub affected : (Row → Bool) → Table → ℕ
affected test [] = 0
affected test (r ∷ rs) = (if test r then 1 else 0) + affected test rs

-- `SELECT COALESCE(MAX(id), 0)`
unfoldable pub highest : Table → ℕ
highest [] = 0
highest (r ∷ rs) = max r.task.id (highest rs)

-- `ORDER BY id`
unfoldable pub insert_by_id : Row → Table → Table
insert_by_id r [] = r ∷ []
insert_by_id r (s ∷ rs) =
    let rest = insert_by_id r rs in if leb r.task.id s.task.id then r ∷ s ∷ rs else s ∷ rest

unfoldable pub order_by_id : Table → Table
unfolding insert_by_id
order_by_id [] = []
order_by_id (r ∷ rs) = insert_by_id r (order_by_id rs)
