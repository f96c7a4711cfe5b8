-- ===== src/Samples/Inputs.antt =====
-- The inputs that the runs use.
use c_squad.Engine.{State, no_live}
use c_squad.Verdict.{Finding, Verdict, Answer, no_verdict}
use c_squad.Task.{Phase, Task, no_step, resume_waiting, waiting, running, checking, needs_you, done}
use c_squad.Flow.Kinds.{Obs}
use c_squad.Store.Table.{Row, Table}
use c_squad.Mover.Apply.{World}
use c_squad.Base.{ℕ, false, true, none, some, [], ◌∷◌}

-- A task that was just launched, numbered and in a phase.
abbrev pub task_in : ℕ → Phase → Task
task_in id phase = record {
  id = id;
  title = [];
  cwd = [];
  engine = [];
  model = [];
  engine_args = [];
  session_id = b's' ∷ [];
  parent_session = [];
  in_place = false;
  prompt = [];
  worker_rules = [];
  after = [];
  check_spec = [];
  max_rounds = 3;
  round = 0;
  merge_into = [];
  hold = false;
  phase = phase;
  last_check = none;
  note = [];
  outcome = none;
  step = no_step;
  created_at = 1;
  updated_at = 1;
  notified = [];
  notified_phase = 0;
}

-- A minute later nothing was seen yet.
abbrev pub quiet_obs : Obs
quiet_obs = record {
  now = 60000000000;
  settle = 10000000000;
  grace = 30000000000;
  observed = false;
  live = no_live;
  stopped = none;
  replied = false;
  deps = [];
  dependents = [];
  busy = false;
  quiet = none;
  verdict = none;
  land = none;
}

abbrev pub session_in : State → Obs
session_in s = record quiet_obs { observed = true; live = record no_live { state = s } }

-- T2 waits for T1, which is done.
abbrev pub queued : Task
queued = record (task_in 2 waiting) { after = 1 ∷ [] }

abbrev pub released : Obs
released = record quiet_obs { deps = (1, task_in 1 done) ∷ [] }

-- T1 works, and merges into "m" when it is done.
abbrev pub working : Task
working = record (task_in 1 running) { merge_into = b'm' ∷ [] }

-- The review of T1 in round two found what it found in round one.
abbrev pub reviewed : Task
reviewed = record (task_in 1 checking) {
  check_spec = b'c' ∷ b'o' ∷ b'd' ∷ b'e' ∷ b'x' ∷ [];
  merge_into = b'm' ∷ [];
  round = 2;
  last_check = some (record no_verdict { answer = Answer.fail; round = 1; blocking = 1 ∷ [] });
}

abbrev pub finding : Finding
finding = record { severity = []; file = []; summary = b'x' ∷ [] }

abbrev pub failing : Verdict
failing = record no_verdict { answer = Answer.fail; findings = finding ∷ [] }

abbrev pub passing : Verdict
passing = record no_verdict { answer = Answer.pass }

abbrev pub with_verdict : Verdict → Obs
with_verdict v = record quiet_obs { verdict = some v }

-- A task that stopped because a dependency is gone.
abbrev pub stopped : Task
stopped = record reviewed { phase = needs_you; step = resume_waiting }

-- Three rounds with the same number of blocking findings.
abbrev pub flat : Verdict
flat = record no_verdict { answer = Answer.fail; round = 3; blocking = 4 ∷ 2 ∷ 2 ∷ 2 ∷ [] }

abbrev pub row_of : Task → Row
row_of t = record { task = t; notified_at = 0 }

abbrev pub two_rows : Table
two_rows = row_of working ∷ row_of queued ∷ []

abbrev pub start_world : World
start_world = record { table = two_rows; events = []; told = []; runs = [] }
