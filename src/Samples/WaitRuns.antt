-- ===== src/Samples/WaitRuns.antt =====
-- A wait for T1, which works until the deadline.
use c_squad.Engine.{State}
use c_squad.Task.{Phase}
use c_squad.App.Wait.{Watched}
use c_squad.App.Waiting.{Look, Terms, Loop, Waited, wait_from}
use c_squad.App.Ending.{wait_from-ends}
use c_squad.Samples.Inputs.{task_in}
use c_squad.Base.{ℕ, ◌*◌, ◌≡◌, false, some, none, [], ◌∷◌, arith}

-- Every second T1 is seen working.
abbrev looks : ℕ → Look
looks i = record {
  row = λ _. none;
  live = λ _. State.working;
  failing = λ _. none;
  down = λ _. false;
  checked_at = i * 1000000000;
  event_at = i * 1000000000;
  now = i * 1000000000;
  interrupted = false;
}

-- Three seconds.
abbrev terms : Terms
terms = record {
  grace = 5000000000;
  fail_limit = 120000000000;
  deadline = 3000000000;
  span = b'0' ∷ b'm' ∷ [];
}

abbrev begun : Loop
begun = record {
  watchers =
      record {
        task = task_in 1 Phase.running;
        watch = record {
          state = Watched.starting;
          cand = Watched.starting;
          count = 0;
          done = false;
          inited = false;
        };
      }
      ∷ [];
  events = [];
  stop_at = none;
  failures = [];
}

wait_from-ends_example : (r : Waited) × (wait_from 3001 terms looks 0 begun ≡ some r)
wait_from-ends_example = wait_from-ends 3000 terms looks begun (λ j. omega arith) (omega arith)
