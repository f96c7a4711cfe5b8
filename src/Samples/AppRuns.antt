-- ===== src/Samples/AppRuns.antt =====
-- The passes of advance, notifications, wait and the cells of the status line at small inputs.
use c_squad.Engine.{State, no_live}
use c_squad.Task.{Phase, Task, label}
use c_squad.Flow.Kinds.{Landing, acts, changed}
use c_squad.Flow.Next.{next, next_waiting, missing, still_open}
use c_squad.Mover.Apply.{World, apply, after_write, tell, run_effect}
use c_squad.Store.Table.{conflict, Table, find, update, affected}
use c_squad.Store.Ops.{
  transition, get, found, claim_notice, notice, is_version, stamp, written, same, set_session,
}
use c_squad.Store.Rows.{IsKeyed}
use c_squad.Store.Versions.{here}
use c_squad.App.Observe.{Seen, observation, dep_rows, add_row}
use c_squad.App.Effects.{
  Outside, started, act_on, run_outside, run_simple, start_queued, start_claimed, begun, claim,
}
use c_squad.App.Advance.{Pass, advance_task}
use c_squad.App.Sessions.{session_at}
use c_squad.App.Gated.{IsRead, advance_task-IsGated}
use c_squad.App.Hold.{hold_one, hold_found, holdable, verb}
use c_squad.App.Held.{hold_one-conflict}
use c_squad.Finish.Command.{task_found, owns}
use c_squad.App.Labels.{parse_label, parse_label-label}
use c_squad.App.View.{view}
use c_squad.App.Notice.{
  Event, Mode, event_word, notice_class, phase_class, phase_event, raise, raise_unless, sends,
  wants,
}
use c_squad.App.Announced.{notice_class-phase_class, raise_once}
use c_squad.App.Wait.{Watch, session, poll, poll_inited, report, watched_eq}
use c_squad.App.Confirm.{poll_confirmed, two_polls}
use c_squad.Statusline.Width.{width, cell_width, clean, truncate, fitting, pad, pad_left}
use c_squad.Samples.Inputs.{queued, task_in, working, row_of, two_rows, start_world}
use c_squad.Base.{
  itoa, ◌≡◌, ◌≢◌, refl, inl, true, false, none, some, [], ◌∷◌, All, arith, lit, text_eq,
}

two_rows-IsKeyed : IsKeyed two_rows
two_rows-IsKeyed = omega arith

abbrev pub seen : Seen
seen = record {
  now = 60000000000;
  settle = 10000000000;
  grace = 30000000000;
  task_lock_held = false;
  check_lock_held = false;
  log_written = none;
  verdict_file = none;
  messages = none;
  reading = none;
}

abbrev landing : Landing
landing = record {
  done = false;
  outcome = none;
  conflict = [];
  problem = b'p' ∷ [];
  branch = [];
  dir = [];
  target = [];
}

abbrev outside : Outside
outside = record {
  lock_free = true;
  session = started (b's' ∷ []);
  spawn_error = none;
  send_error = none;
  landing = λ _. landing;
  io = none;
  read_io = none;
  now = 60000;
  clock = 60000000000;
  settle = 10000000000;
  grace = 30000000000;
}

-- Every session is idle.
abbrev pub idle_pass : Pass
idle_pass = record {
  list_io = none;
  observe = λ _. (1, record no_live { state = State.idle }) ∷ [];
  seen = λ _. seen;
  outside = λ _. outside;
}

-- T2 waits for T1, which is done.
abbrev unstarted : Task
unstarted = record queued { session_id = [] }

abbrev released_world : World
released_world = record start_world {
  table = row_of (task_in 1 Phase.done) ∷ row_of unstarted ∷ [];
}

advance_code : Unit {0}
unfolding session_at advance_task observation dep_rows add_row next next_waiting missing still_open
    acts changed apply after_write tell run_effect transition act_on run_outside run_simple
    start_queued start_claimed begun claim get find update affected is_version stamp written same
    set_session text_eq
advance_code = tt

advance_task-IsGated_example :
    All (IsRead none released_world.table) unstarted.after
    × (outside.lock_free ≡ true)
    × (session_at 2 released_world.table ≡ some [])
unfolding advance_code
advance_task-IsGated_example =
    advance_task-IsGated idle_pass [] [] released_world unstarted 2 refl (λ e. cc)

abbrev accepted : Task
accepted = task_in 1 Phase.ready

abbrev ready_table : Table
ready_table = row_of accepted ∷ []

ready_table-IsKeyed : IsKeyed ready_table
ready_table-IsKeyed = omega arith

notice_code : Unit {0}
unfolding view notice_class phase_class phase_event raise raise_unless sends wants event_word
    claim_notice notice find text_eq lit
notice_code = tt

notice_class-phase_class_example : notice_class accepted (view accepted no_live true) ≡ Event.ready
unfolding notice_code
notice_class-phase_class_example = notice_class-phase_class accepted no_live true refl

-- After the notification of "ready" was sent, an observation of the same version sends none.
raise_once_example :
    (raise Mode.input none
      (raise Mode.on none ready_table accepted Event.ready 5).0
      accepted
      Event.ready
      9).1
    ≡ false
unfolding notice_code
raise_once_example =
    raise_once ready_table (raise Mode.on none ready_table accepted Event.ready 5).0 accepted
      Event.ready Event.ready 5 9 Mode.on Mode.input none ready_table-IsKeyed refl refl refl here

abbrev at_work : Watch
at_work = record {
  state = session State.working;
  cand = session State.working;
  count = 0;
  done = false;
  inited = true;
}

wait_code : Unit {0}
unfolding poll poll_inited report watched_eq
wait_code = tt

poll_confirmed_example :
    (session State.idle ≡ session State.idle)
    × (session State.idle ≢ session State.working)
    × (report (session State.idle) ≡ some (lit "idle"))
unfolding wait_code
poll_confirmed_example =
    poll_confirmed at_work (session State.idle) (session State.idle) (lit "idle") (inl (refl, refl))
      refl refl refl refl

two_polls_example :
    ((poll at_work (session State.idle)).1 ≡ none)
    × ((poll (poll at_work (session State.idle)).0 (session State.idle)).1 ≡ some (lit "idle"))
unfolding wait_code
two_polls_example =
    two_polls at_work (session State.idle) (lit "idle") (inl (refl, refl)) refl refl refl (λ e. cc)
      refl

parse_label-label_example :
    (parse_label (label working) ≡ some 1)
    × (parse_label (b't' ∷ itoa 1) ≡ some 1)
    × (parse_label (itoa 1) ≡ some 1)
parse_label-label_example = parse_label-label working (omega arith)

hold_code : Unit {0}
unfolding hold_one hold_found holdable task_found owns verb get found find
hold_code = tt

-- The hold came between a decision to start T2 and its write.
hold_one-conflict_example :
    transition none 9
      (hold_one none false none none (λ _. idle_pass) true start_world 2).world.table
      queued
      (task_in 2 Phase.running)
    ≡ ((hold_one none false none none (λ _. idle_pass) true start_world 2).world.table, conflict)
unfolding hold_code
hold_one-conflict_example =
    hold_one-conflict none false none none (λ _. idle_pass) start_world 2 9 queued
      (task_in 2 Phase.running) refl refl refl

width_code : Unit {0}
unfolding width cell_width clean truncate fitting pad pad_left
width_code = tt
