-- ===== src/Store/Ops.antt =====
-- The operations of the store (internal/store/store.go). Each is one statement or one immediate
-- transaction, so it takes the table to the next table in one step. `now` is the clock in unix
-- milliseconds, and `io` the driver's error.
use c_squad.Task.{Task, phase_eq, step_eq, finished}
use c_squad.Store.Table.{
  Row, Table, Reply, reply, db_error, conflict, not_found, Io, find, update, affected, highest,
  order_by_id,
}
use c_squad.Base.{
  ℕ, ◌+◌, max, Bool, true, false, ◌&&◌, ◌||◌, not, Option, none, some, List, [], ◌∷◌, ◌++◌, map,
  ◌==◌, leb, if◌then◌else◌, filterb, any, is_empty, bool_eq, Text, lit, text_eq,
}

-- The row with the next id, one above the highest in the table. `notified_at` has its default.
abbrev pub fresh_task : ℕ → Table → Task → Task
fresh_task now tbl t = record t {
  id = highest tbl + 1;
  created_at = now;
  updated_at = now;
  max_rounds = if t.max_rounds == 0 then 3 else t.max_rounds;
}

unfoldable pub insert : Io → ℕ → Table → Task → Table × Reply Task
insert (some e) now tbl t = (tbl, db_error e)
insert none now tbl t = (
  tbl ++ record { task = fresh_task now tbl t; notified_at = 0 } ∷ [],
  reply (fresh_task now tbl t),
)

unfoldable pub found : Option Row → Reply Task
found none = not_found
found (some r) = reply r.task

unfoldable pub get : Io → ℕ → Table → Reply Task
unfolding found
get (some e) id tbl = db_error e
get none id tbl = found (find id tbl)

-- Which tasks `list` selects: those of the given sessions (`none` is every session), finished ones
-- only if asked for.
pub record Filter : Type 0 where
  pub parents : Option (List Text)
  pub with_finished : Bool

abbrev by_parent : Option (List Text) → Task → Bool
by_parent none t = true
by_parent (some ps) t = any (λ p. text_eq t.parent_session p) ps

unfoldable pub selects : Filter → Task → Bool
selects f t = (f.with_finished || not (finished t.phase)) && by_parent f.parents t

unfoldable pub list : Io → Filter → Table → Reply (List Task)
list (some e) f tbl = db_error e
list none f tbl = reply (map (λ r. r.task) (order_by_id (filterb (λ r. selects f r.task) tbl)))

abbrev pub has_id : ℕ → Row → Bool
has_id id r = r.task.id == id

-- A single statement: with a driver's error nothing changes, and the caller gets the error.
abbrev pub unless_error : Io → Table → Table → Table
unless_error (some e) tbl tbl' = tbl
unless_error none tbl tbl' = tbl'

abbrev pub with_session : Text → Row → Row
with_session session r = record r { task = record (r.task) { session_id = session } }

abbrev pub with_engine_args : List Text → Row → Row
with_engine_args args r = record r { task = record (r.task) { engine_args = args } }

abbrev pub with_hold : Bool → Row → Row
with_hold hold r = record r { task = record (r.task) { hold = hold } }

-- The session a task runs in. The time of the phase does not move.
unfoldable pub set_session : Io → ℕ → Text → Table → Table
set_session io id session tbl = unless_error io tbl (update (has_id id) (with_session session) tbl)

unfoldable pub set_engine_args : Io → ℕ → List Text → Table → Table
set_engine_args io id args tbl =
    unless_error io tbl (update (has_id id) (with_engine_args args) tbl)

unfoldable pub set_hold : Io → ℕ → Bool → Table → Table
set_hold io id hold tbl = unless_error io tbl (update (has_id id) (with_hold hold) tbl)

unfoldable pub delete : Io → ℕ → Table → Table
delete io id tbl = unless_error io tbl (filterb (λ r. not (r.task.id == id)) tbl)

-- The time that a transition stamps: it moves only when the phase or the step changes.
unfoldable pub stamp : ℕ → Task → Task → ℕ
stamp now old next =
    if not (phase_eq next.phase old.phase) || not (step_eq next.step old.step)
    then max now (old.updated_at + 1)
    else old.updated_at

-- `WHERE id = ? AND phase = ? AND updated_at = ? AND hold = ?`
unfoldable pub is_version : Task → Row → Bool
is_version old r =
    r.task.id == old.id
    && phase_eq r.task.phase old.phase
    && r.task.updated_at == old.updated_at
    && bool_eq r.task.hold old.hold

-- The columns that a transition sets.
unfoldable pub written : ℕ → Task → Task → Row → Row
written now old next r = record r {
  task = record (r.task) {
    phase = next.phase;
    step = next.step;
    round = next.round;
    max_rounds = next.max_rounds;
    last_check = next.last_check;
    note = next.note;
    outcome = next.outcome;
    updated_at = stamp now old next;
  };
}

-- The row as stored. A SELECT that finds nothing is an error, and rolls back to the table `tbl`.
abbrev stored_as : Table → Table → Option Row → Table × Reply Task
stored_as tbl tbl' none = (tbl, db_error (lit "sql: no rows in result set"))
stored_as tbl tbl' (some r) = (tbl', reply r.task)

-- The compare-and-set: `next` over `old` when the row still holds old's phase, time and hold.
unfoldable pub transition : Io → ℕ → Table → Task → Task → Table × Reply Task
transition (some e) now tbl old next = (tbl, db_error e)
transition none now tbl old next =
    if affected (is_version old) tbl == 1
    then (let tbl' = update (is_version old) (written now old next) tbl in
        stored_as tbl tbl' (find old.id tbl'))
    else (tbl, conflict)

-- Whether `t` is still the version of the row that `cur` is.
unfoldable pub same : Task → Task → Bool
same t cur = phase_eq t.phase cur.phase && t.updated_at == cur.updated_at

-- What a notice writes.
abbrev pub noticed : Text → ℕ → ℕ → Row → Row
noticed class at phase_at r = record r {
  task = record (r.task) { notified = class; notified_phase = phase_at };
  notified_at = at;
}

-- The decision about one row: none when nothing is recorded, else the phase time that is recorded and
-- whether the caller sends.
unfoldable pub notice : Task → Text → ℕ → Bool → Row → Option (ℕ × Bool)
notice t class at phase_event r =
    if not (phase_eq r.task.phase t.phase)
      || not (r.task.updated_at == t.updated_at)
      || leb at r.notified_at
    then none
    else if phase_event
    then (if text_eq r.task.notified class && r.task.notified_phase == r.task.updated_at
        then none
        else some (r.task.updated_at, not (r.task.notified_phase == r.task.updated_at)))
    else if text_eq r.task.notified class
    then none
    else some (r.task.notified_phase, not (is_empty class))

unfoldable pub claim_row : Table → ℕ → Text → ℕ → Option (ℕ × Bool) → Table × Reply Bool
claim_row tbl id class at none = (tbl, reply false)
claim_row tbl id class at (some (phase_at, send)) =
    (update (has_id id) (noticed class at phase_at) tbl, reply send)

unfoldable pub claim_found : Table → Task → Text → ℕ → Bool → Option Row → Table × Reply Bool
unfolding claim_row
claim_found tbl t class at phase_event none = (tbl, reply false)
claim_found tbl t class at phase_event (some r) =
    claim_row tbl t.id class at (notice t class at phase_event r)

-- Records an observation and says whether this caller sends the notification.
unfoldable pub claim_notice : Io → Table → Task → Text → ℕ → Bool → Table × Reply Bool
unfolding claim_found
claim_notice (some e) tbl t class at phase_event = (tbl, db_error e)
claim_notice none tbl t class at phase_event =
    claim_found tbl t class at phase_event (find t.id tbl)
