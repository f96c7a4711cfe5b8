-- ===== src/Flow/Frame.antt =====
-- What a move leaves alone, and what it writes: the fields of the row that the flow owns.
use c_squad.Task.{Phase, running, checking, fixing, merging, Task}
use c_squad.Verdict.{Verdict}
use c_squad.Flow.Kinds.{Landing, Obs, Move}
use c_squad.Flow.Next.{
  lost, after_work, next_waiting, judge, apply_verdict, landed, next_working, next_checking,
  next_merging, next_ready, next_stopped, dispatch, next,
}
use c_squad.Base.{◌≡◌, Option, none, some, arith}

-- The row with the columns of `n` that a transition writes, but for the time of the change.
abbrev pub with_flow : Task → Task → Task
with_flow t n = record t {
  phase = n.phase;
  step = n.step;
  round = n.round;
  max_rounds = n.max_rounds;
  last_check = n.last_check;
  note = n.note;
  outcome = n.outcome;
}

-- The move writes no other column, and never the limit of rounds.
abbrev Keeps : Task → Move → Type 0
Keeps t m = (m.next ≡ with_flow t m.next) × (m.next.max_rounds ≡ t.max_rounds)

module _ (t : Task) (o : Obs) where
  lost-Keeps : (m : Move) → lost t o ≡ some m → Keeps t m
  unfolding lost
  lost-Keeps m e = ground arith

  after_work-Keeps : Keeps t (after_work t o)
  unfolding after_work
  after_work-Keeps = ground arith

  next_working-Keeps : Keeps t (next_working t o)
  unfolding next_working
  next_working-Keeps = grind (arith, lost-Keeps, after_work-Keeps)

  next_checking-Keeps : (v : Option Verdict) → Keeps t (next_checking t o v)
  unfolding next_checking apply_verdict judge
  next_checking-Keeps none = ground arith
  next_checking-Keeps (some v) = ground arith

  next_merging-Keeps : (l : Option Landing) → Keeps t (next_merging t o l)
  unfolding next_merging landed
  next_merging-Keeps none = grind (arith, lost-Keeps)
  next_merging-Keeps (some l) = ground arith

  dispatch-Keeps : (p : Phase) → Keeps t (dispatch p t o)
  unfolding dispatch next_waiting next_ready next_stopped
  dispatch-Keeps running = next_working-Keeps
  dispatch-Keeps fixing = next_working-Keeps
  dispatch-Keeps checking = next_checking-Keeps o.verdict
  dispatch-Keeps merging = next_merging-Keeps o.land
  dispatch-Keeps _ = ground arith

-- A move writes only the columns of the flow (phase, step, round, last check, note, outcome), and
-- never the limit of rounds: identity, session, dependencies, check, merge target, hold and times
-- of the task stay what they were.
pub next-Keeps :
    (t : Task) (o : Obs)
    → ((next t o).next ≡ with_flow t (next t o).next) × ((next t o).next.max_rounds ≡ t.max_rounds)
unfolding next
next-Keeps t o = dispatch-Keeps t o t.phase
