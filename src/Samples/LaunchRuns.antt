-- ===== src/Samples/LaunchRuns.antt =====
-- A launch whose session does not start, and a task that is queued after T1.
use c_squad.Task.{waiting}
use c_squad.Gitx.Kinds.{ok, err}
use c_squad.App.Effects.{not_started}
use c_squad.App.Draft.{
  LaunchArgs, Desk, label_fields, after_task, labelled_part, after_part, with_id, after_from,
  some_ids, parse_after, after_ids, check_value, fork_of, merge_of,
}
use c_squad.App.Launch.{
  Draft, Starter, engine_name, place_of, is_in_place, rounds_of, prompt_of, rules_of, deps_of,
  all_done, draft_task, draft, given_up, begun_as, start_up, placed, inserted, launch_draft, launch,
}
use c_squad.App.Launched.{launch-Restores}
use c_squad.App.Queued.{IsSound, draft-IsSound}
use c_squad.App.Labels.{unlabelled, number_from, atoi, parse_label}
use c_squad.Store.Table.{find}
use c_squad.Store.Ops.{insert, delete, found, get}
use c_squad.Samples.Inputs.{two_rows, task_in}
use c_squad.Samples.GitRuns.{shell}
use c_squad.Base.{◌≡◌, refl, true, false, none, [], ◌∷◌, lit, text_eq, trim_space}

abbrev desk : Desk
desk = record {
  engine_error = λ _. none;
  cwd = lit "/w";
  canonical = λ p. p;
  is_dir = λ _. true;
  getenv = λ _. [];
  check_args = λ _ args _. ok args;
  read_file = err;
  stdin = lit "Fix it.";
  worker_rules = λ _ _. [];
  flow_rules = [];
  shell = shell;
  session_key = [];
  spec_error = λ _. [];
  read_io = none;
  deps_io = none;
}

abbrev flags : LaunchArgs
flags = record {
  title = lit "fix";
  cwd = [];
  engine = [];
  model = [];
  isolation = [];
  prompt_file = [];
  no_worker_rules = true;
  engine_args = [];
  after = [];
  check = [];
  max = 0;
  merge = false;
  merge_into = [];
  no_merge = false;
  fork = false;
}

abbrev starter : Starter
starter = record {
  now = 5;
  insert_io = none;
  args_error = none;
  record_error = none;
  delete_io = none;
  meanwhile = λ t. t;
  queue = none;
  session = λ _ _ _. not_started (lit "no claude");
}

launch-Restores_example : (launch desk starter flags two_rows).0 ≡ two_rows
unfolding launch launch_draft draft draft_task place_of engine_name rounds_of after_ids check_value
    fork_of merge_of prompt_of all_done deps_of inserted insert placed start_up begun_as given_up
    delete lit trim_space text_eq
launch-Restores_example =
    launch-Restores desk starter flags two_rows (lit "no claude") (λ t. refl) refl refl refl

-- T1 is not done.
abbrev after_one : Draft
after_one = record {
  task = record (task_in 0 waiting) {
    title = lit "fix";
    cwd = lit "/w";
    engine = lit "claude";
    session_id = [];
    prompt = lit "Fix it.";
    after = 1 ∷ [];
    max_rounds = 0;
    created_at = 0;
    updated_at = 0;
  };
  fork = [];
}

draft-IsSound_example : IsSound desk (record flags { after = lit "T1" }) two_rows after_one
unfolding draft draft_task place_of engine_name rounds_of after_ids parse_after after_from
    after_part labelled_part after_task with_id some_ids label_fields parse_label unlabelled atoi
    number_from get found find check_value fork_of merge_of prompt_of rules_of all_done is_in_place
    lit trim_space text_eq
draft-IsSound_example =
    draft-IsSound desk (record flags { after = lit "T1" }) two_rows after_one refl
