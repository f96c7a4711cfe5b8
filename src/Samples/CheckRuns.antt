-- ===== src/Samples/CheckRuns.antt =====
-- The check of T1's first round, interrupted and run again.
use c_squad.Engine.{no_live}
use c_squad.Verdict.{Answer, no_verdict}
use c_squad.Task.{Phase, Task}
use c_squad.App.Observe.{observation}
use c_squad.App.Check.{Station, verdict_of}
use c_squad.App.Again.{verdict_of-again}
use c_squad.Samples.Inputs.{task_in, two_rows}
use c_squad.Samples.AppRuns.{seen}
use c_squad.Samples.FinishRuns.{merged_git}
use c_squad.Samples.LandRuns.{outside}
use c_squad.Check.Spec.{Kind, Spec}
use c_squad.Check.Run.{Runner, exited, run}
use c_squad.Check.Decided.{IsDecided, run-IsDecided}
use c_squad.Base.{length, drop, ◌-◌, ◌≡◌, refl, true, false, some, none, [], ◌∷◌}

abbrev checked_task : Task
checked_task = record (task_in 1 Phase.checking) {
  check_spec = b'c' ∷ b'o' ∷ b'd' ∷ b'e' ∷ b'x' ∷ [];
  round = 1;
}

abbrev station : Station
station = record {
  first_io = none;
  lock_free = true;
  before = λ t. t;
  second_io = none;
  file = none;
  spec_error = λ _. [];
  messages = none;
  live = no_live;
  git = merged_git;
  run = λ _ _. record no_verdict { answer = Answer.pass };
  later = λ t. t;
  deps_io = none;
  outside = outside;
}

verdict_of-again_example :
    (verdict_of (record station { file = some (verdict_of station checked_task).0 }) checked_task
      ≡ ((verdict_of station checked_task).0, false))
    × ((observation two_rows
          (record seen { verdict_file = some (verdict_of station checked_task).0 })
          []
          []
          checked_task).verdict
        ≡ some (verdict_of station checked_task).0)
verdict_of-again_example = verdict_of-again station checked_task two_rows seen [] [] refl

-- A command that exits with 1 and prints "no".
abbrev runner : Runner
runner = record {
  json = λ _. none;
  fences = λ _. [];
  value_length = λ _. none;
  byte_length = length;
  last_bytes = λ n s. drop (length s - n) s;
  timeout = b'1' ∷ [];
  deadline = false;
  command = exited 1 (b'n' ∷ b'o' ∷ []);
  resolve_error = none;
  out = [];
  errors = [];
  run_error = none;
  result = none;
  agent_error = none;
  start_error = none;
  polls = [];
}

abbrev spec : Spec
spec = record { kind = Kind.cmd; model = []; command = b'x' ∷ [] }

run-IsDecided_example : IsDecided (run runner spec)
run-IsDecided_example = run-IsDecided runner spec tt tt
