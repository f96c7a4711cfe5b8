-- ===== src/Store/Spec.antt =====
-- What the store promises: a map from numbers to rows. The operations of internal/store/store.go on the
-- table (Table, Ops) implement it.
use c_squad.Task.{Task, phase_eq}
use c_squad.Store.Table.{Row, Table, Reply, reply, conflict, find}
use c_squad.Store.Ops.{
  insert, found, get, with_session, with_engine_args, with_hold, set_session, set_engine_args,
  set_hold, delete, written, transition,
}
use c_squad.Store.Rows.{IsKeyed, map_row}
use c_squad.Base.{ℕ, ◌≡◌, Bool, Option, none, some, ◌==◌, ◌&&◌, bool_eq, if◌then◌else◌, Text, List}

-- An operation that the driver does not fail.
pub data Op : Type 0 where
  inserts : ℕ → Task → Op
  gets : ℕ → Op
  sets_session : ℕ → Text → Op
  sets_engine_args : ℕ → List Text → Op
  sets_hold : ℕ → Bool → Op
  deletes : ℕ → Op
  moves : ℕ → Task → Task → Op

-- On the table. The setters and the deletion answer nothing.
unfoldable pub perform : Op → Table → Table × Option (Reply Task)
perform (inserts now t) tbl = let (tbl', r) = insert none now tbl t in (tbl', some r)
perform (gets id) tbl = (tbl, some (get none id tbl))
perform (sets_session id s) tbl = (set_session none id s tbl, none)
perform (sets_engine_args id args) tbl = (set_engine_args none id args tbl, none)
perform (sets_hold id b) tbl = (set_hold none id b tbl, none)
perform (deletes id) tbl = (delete none id tbl, none)
perform (moves now old next) tbl =
    let (tbl', r) = transition none now tbl old next in (tbl', some r)

abbrev pub Rows : Type 0
Rows = ℕ → Option Row

abbrev pub put : ℕ → Option Row → Rows → Rows
put id r m j = if id == j then r else m j

-- The row that is created under a number.
abbrev created : ℕ → ℕ → Task → Task
created key now t = record t {
  id = key;
  created_at = now;
  updated_at = now;
  max_rounds = if t.max_rounds == 0 then 3 else t.max_rounds;
}

-- The row is the version that a writer read: its phase, the time of its phase and its hold.
unfoldable pub holds : Task → Task → Bool
holds old t =
    phase_eq t.phase old.phase && t.updated_at == old.updated_at && bool_eq t.hold old.hold

-- The compare-and-set: the row is replaced if it is the version that the writer read.
unfoldable pub cas : ℕ → Task → Task → Option Row → Rows → Rows × Option (Reply Task)
cas now old next none m = (m, some conflict)
cas now old next (some r) m =
    if holds old r.task
    then (put old.id (some (written now old next r)) m, some (reply (written now old next r).task))
    else (m, some conflict)

-- On the map, where `key` is a number for a new row.
unfoldable pub perform_map : ℕ → Op → Rows → Rows × Option (Reply Task)
unfolding cas holds
perform_map key (inserts now t) m = (
  put key (some (record { task = created key now t; notified_at = 0 })) m,
  some (reply (created key now t)),
)
perform_map key (gets id) m = (m, some (found (m id)))
perform_map key (sets_session id s) m = (put id (map_row (with_session s) (m id)) m, none)
perform_map key (sets_engine_args id args) m =
    (put id (map_row (with_engine_args args) (m id)) m, none)
perform_map key (sets_hold id b) m = (put id (map_row (with_hold b) (m id)) m, none)
perform_map key (deletes id) m = (put id none m, none)
perform_map key (moves now old next) m = cas now old next (m old.id) m

-- The table as a map.
abbrev pub rows_of : Table → Rows
rows_of tbl id = find id tbl

-- The operation on the table does to its map what the operation on the map does, answers the same, and
-- leaves a keyed table, where a new row gets a number that is free.
pub record Refines (op : Op) (tbl : Table) : Type 0 where
  pub key : ℕ
  pub free : rows_of tbl key ≡ none
  pub same_rows : (j : ℕ) → rows_of (perform op tbl).0 j ≡ (perform_map key op (rows_of tbl)).0 j
  pub same_answer : (perform op tbl).1 ≡ (perform_map key op (rows_of tbl)).1
  pub keyed : IsKeyed (perform op tbl).0
