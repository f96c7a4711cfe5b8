-- ===== src/App/Effects.antt =====
-- Running an effect (internal/app/advance.go): starting a queued session, spawning a check, sending to
-- the worker, landing, and what is written when one of them fails.
use c_squad.Task.{
  needs_you, merging, Step, no_step, resume_waiting, resume_check, Task, phase_eq, label,
}
use c_squad.Flow.Kinds.{EffectKind, start, check, send, land, Landing, Obs, Move}
use c_squad.Flow.Next.{next}
use c_squad.Store.Table.{Table, Reply, reply, Io}
use c_squad.Store.Ops.{get, set_session, transition, same}
use c_squad.Mover.Apply.{World, Applied, applied, event, apply}
use c_squad.Engine.{no_live}
use c_squad.Base.{
  ℕ, Bool, true, false, ◌&&◌, Option, none, some, [], ◌∷◌, ◌++◌, is_empty, if◌then◌else◌, Text, lit,
  ltb, length, take, ◌-◌, trim_space, cut, join, fields,
}

unfoldable pub clip : Text → ℕ → Text
clip s n = if ltb n (length s) then take (n - 1) s ++ lit "…" else s

-- The first line and the words of the others, within 300 characters.
unfoldable pub first_line_of : Text → Text
first_line_of s =
    let s' = trim_space s in
    let (line, more, cut_there) = cut s' 10 in
    let rest = trim_space more in
    let first = trim_space line in
    clip
      (if cut_there
        then if is_empty rest then first else first ++ lit " " ++ join (fields rest) (lit " ")
        else s')
      300

-- A session was started, or the error that says why not.
pub data Started : Type 0 where
  started : Text → Started
  not_started : Text → Started

-- What the world outside answers while the effect of one task runs: whether the task's lock is free,
-- the engine's answers, the spawned check, and the landing of the branch in git. `io` is the driver's
-- error of a write, `read_io` that of a read, `now` the store's clock in milliseconds, `clock` the
-- application's in nanoseconds, and `settle` and `grace` are its settings.
pub record Outside : Type 0 where
  pub lock_free : Bool
  pub session : Started
  pub spawn_error : Option Text
  pub send_error : Option Text
  pub landing : Task → Landing
  pub io : Io
  pub read_io : Io
  pub now : ℕ
  pub clock : ℕ
  pub settle : ℕ
  pub grace : ℕ

-- Moves a task, as stored, to `needs_you` with a note: the event and those told only if the write won.
unfoldable pub told_failed : World → Task → Text → Table × Reply Task → World
told_failed w t note (tbl, reply stored) = record w {
  table = tbl;
  events = w.events ++ event t stored note ∷ [];
  told = w.told ++ stored ∷ [];
}
told_failed w t note (tbl, _) = record w { table = tbl }

unfoldable pub fail : Outside → World → Task → Step → Text → World
unfolding told_failed
fail out w t resume note = told_failed w t note (
    transition out.io out.now w.table t
      (record t { phase = needs_you; step = resume; note = note }))

-- The claim on the row as it is now: it must still be the version, and satisfy a condition.
unfoldable pub claim : (Task → Bool) → Task → Reply Task → Option Task
claim p t (reply cur) = if same t cur && p cur then some cur else none
claim p t _ = none

unfoldable pub begun : Outside → World → Task → Started → World
begun out w cur (started sid) = record w { table = set_session out.io cur.id sid w.table }
begun out w cur (not_started e) =
    fail out w cur resume_waiting
      (lit "did not start: " ++ first_line_of e ++ lit "; csquad retry starts it again")

unfoldable pub start_claimed : Outside → World → Option Task → World
start_claimed out w none = w
start_claimed out w (some cur) = begun out w cur out.session

-- Starts the session of a task whose dependencies are done.
unfoldable pub start_queued : Outside → World → Task → World
unfolding start_claimed
start_queued out w t =
    if out.lock_free
    then start_claimed out w
        (claim (λ cur. is_empty cur.session_id) t (get out.read_io t.id w.table))
    else w

unfoldable pub fail_if : Option Text → Outside → World → Task → Step → (Text → Text) → World
fail_if none out w t resume note = w
fail_if (some e) out w t resume note = fail out w t resume (note e)

-- The effects that do not land.
unfoldable pub run_simple : Outside → World → Task → EffectKind → World
unfolding fail_if
run_simple out w t start = start_queued out w t
run_simple out w t check =
    fail_if out.spawn_error out w t resume_check
      (λ e. lit "no verdict: the check did not start (" ++ e ++ lit "); csquad retry runs it again")
run_simple out w t send = fail_if out.send_error out w t no_step (λ e.
    lit "message lost: csquad could not send to the worker ("
    ++ e
    ++ lit "); tell it with csquad send "
    ++ label t)
run_simple out w t _ = w

unfoldable pub act_on : (World → Task → EffectKind → World) → EffectKind → World × Applied → World
act_on run k (w, applied stored true) = run w stored k
act_on run k (w, _) = w

-- `Mover.Apply` with the effect run at once, for the row as stored.
unfoldable pub apply_and_run :
    (World → Task → EffectKind → World) → Io → ℕ → World → Task → Move → World
unfolding act_on
apply_and_run run io now w t m = act_on run m.effect.kind (apply io now w t m)

-- The observation that a landing's move is decided on.
abbrev pub landed_obs : Outside → Landing → Obs
landed_obs out l = record {
  now = out.clock;
  settle = out.settle;
  grace = out.grace;
  observed = false;
  live = no_live;
  stopped = none;
  replied = false;
  deps = [];
  dependents = [];
  busy = false;
  quiet = none;
  verdict = none;
  land = some l;
}

-- The row is merging here, so its move is that of the landing, which asks for no other landing.
unfoldable pub land_claimed : Outside → World → Option Task → World
land_claimed out w none = w
land_claimed out w (some cur) =
    apply_and_run (run_simple out) out.io out.now w cur
      (next cur (landed_obs out (out.landing cur)))

-- Lands a task's merge: the task's lock, the row as observed, then the landing and its move.
unfoldable pub land_task : Outside → World → Task → World
land_task out w t =
    if out.lock_free
    then land_claimed out w
        (claim (λ cur. phase_eq cur.phase merging) t (get out.read_io t.id w.table))
    else w

-- Runs an effect for a task as stored.
unfoldable pub run_outside : Outside → World → Task → EffectKind → World
run_outside out w t land = land_task out w t
run_outside out w t k = run_simple out w t k
