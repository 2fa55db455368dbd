-- ===== src/Soar/Examples/Runs.antt =====
-- Tests of the executions and of the approvals.
use threat_scope_xdr.Prelude.{String, ◌≡◌, refl, false, none, some, List, [], ◌∷◌, ◌++◌, arith, All}
use threat_scope_xdr.Access.Examples.{alice, empty_tables}
use threat_scope_xdr.Soar.Json.{nothing, dict, end}
use threat_scope_xdr.Soar.Models.{
  live_local, Status, Execution, StepStatus, StepRun, ApprovalStatus, Approval, approve, Effect,
  Run,
}
use threat_scope_xdr.Soar.World.{World, done, left_by, replied, log}
use threat_scope_xdr.Soar.Graph.{find_step}
use threat_scope_xdr.Soar.Graph.Walks.{at_start, along}
use threat_scope_xdr.Soar.Examples.Conditions.{test_python}
use threat_scope_xdr.Soar.Examples.Graphs.{straight, straight_is_valid, load_to_ask, step_to}
use threat_scope_xdr.Soar.StepRuns.{create_step}
use threat_scope_xdr.Soar.StepTypes.Effects.{IsAllowed}
use threat_scope_xdr.Soar.Executions.{loop, max_rounds, run_execution, started}
use threat_scope_xdr.Soar.Executions.Allowed.{run_execution-IsAllowed}
use threat_scope_xdr.Soar.Executions.Limit.{loop_limit}
use threat_scope_xdr.Soar.Approvals.{approval_count}
use threat_scope_xdr.Soar.Approvals.Counts.{IsCounted}
use threat_scope_xdr.Soar.Approvals.Counted.{Call, decide_all, decide_all-IsCounted}
use threat_scope_xdr.Soar.Delays.{resume_due}
use threat_scope_xdr.Soar.Delays.Stranded.{resume_strands}

-- the digest of a text is the text, and no action is known
abbrev test_world : World
test_world = record {
  now = 1_000;
  tables = empty_tables;
  catalog = λ key. none;
  policies = [];
  constants = end;
  sha256 = λ s. s;
  python = test_python;
  read_context = λ key config r. nothing;
  perform = λ effect config r. replied nothing end;
}

abbrev at_key : String → Status → Execution
at_key key status = record {
  id = 1;
  playbook_id = 1;
  playbook_version = 1;
  execution_uuid = "e1";
  trigger_source_type = "soc_alert";
  trigger_source_id = some 7;
  mode = live_local;
  status = status;
  requested_by_user_id = 1;
  approved_by_user_id = none;
  current_step_key = some key;
  input_context = end;
  variable_state = end;
  error_code = none;
  error_summary = none;
  simulated_action_count = 0;
  started_at = none;
  completed_at = none;
  cancelled_at = none;
  expires_at = some 900_000_000;
  next_resume_at = none;
}

abbrev fresh_run : String → Status → Run
fresh_run key status = record {
  execution = at_key key status;
  step_runs = [];
  approvals = [];
  decisions = [];
  inputs = [];
  events = [];
  successes = 0;
  failures = 0;
  effects = [];
}

abbrev waiting_row : StepStatus → StepRun
waiting_row status = record {
  id = 1;
  step_key = "ask";
  step_type = "approval";
  action_key = none;
  sequence_number = 1;
  attempt_number = 1;
  idempotency_key = "e1:ask";
  status = status;
  output_snapshot = dict end;
  error_code = none;
  completed_at = none;
}

abbrev two_needed : Approval
two_needed = record {
  id = 1;
  step_execution_id = 1;
  approval_type = "step";
  required_permission = "soar:approve";
  minimum_approvals = 2;
  requester_user_id = 1;
  assigned_to_user_id = none;
  status = ApprovalStatus.pending;
  separation_required = false;
  expires_at = none;
  decided_at = none;
}

abbrev waiting_run : Run
waiting_run = record (fresh_run "ask" Status.waiting_approval) {
  step_runs = waiting_row StepStatus.waiting_approval ∷ [];
  approvals = two_needed ∷ [];
}

-- an approval step makes the execution wait
ask_waits :
    (left_by
      (run_execution test_world straight alice (fresh_run "ask" Status.queued))).execution.status
    ≡ Status.waiting_approval
unfolding run_execution
ask_waits = refl

run_execution-IsAllowed_example :
    (added : List Effect) × ((left_by
        (run_execution test_world straight alice (fresh_run "load" Status.queued))).effects
      ≡ [] ++ added)
    × All
        (IsAllowed test_world alice
          (left_by
            (run_execution test_world straight alice (fresh_run "load" Status.queued))).approvals)
        added
run_execution-IsAllowed_example =
    run_execution-IsAllowed test_world alice straight (fresh_run "load" Status.queued)

loop_limit_example :
    loop test_world straight alice 200
      (fresh_run "ask" Status.running)
      (fresh_run "ask" Status.running)
    ≡ loop test_world straight alice max_rounds
        (fresh_run "ask" Status.running)
        (fresh_run "ask" Status.running)
loop_limit_example =
    loop_limit test_world alice straight test_python "load" straight_is_valid 200
      (fresh_run "ask" Status.running) (fresh_run "ask" Status.running) (omega arith) (omega arith)
      (along at_start load_to_ask) refl

waiting_run-IsCounted : IsCounted 1 2 waiting_run
unfolding approval_count
waiting_run-IsCounted = record {
  there = omega arith;
  enough = (refl, tt);
  once = λ user. omega arith;
}

abbrev calls : List Call
calls =
    record {
      world = test_world;
      step_run = waiting_row StepStatus.waiting_approval;
      user = alice;
      decision = approve;
    }
    ∷ record {
      world = test_world;
      step_run = waiting_row StepStatus.waiting_approval;
      user = alice;
      decision = approve;
    }
    ∷ []

decide_all-IsCounted_example : IsCounted 1 2 (decide_all straight 1 calls waiting_run)
decide_all-IsCounted_example =
    decide_all-IsCounted straight 1 2 calls waiting_run waiting_run-IsCounted

abbrev delayed_run : Run
delayed_run = record (fresh_run "ask" Status.waiting_delay) {
  step_runs = waiting_row StepStatus.waiting_delay ∷ [];
}

row_is_kept :
    create_step test_world
      (started test_world alice.id delayed_run)
      "ask"
      (step_to "approval" (some "stop"))
    ≡ some (waiting_row StepStatus.waiting_delay, started test_world alice.id delayed_run)
unfolding create_step started log
row_is_kept = refl

find_ask : find_step "ask" straight ≡ some (step_to "approval" (some "stop"))
unfolding find_step
find_ask = refl

resume_strands_example :
    ((left_by (run_execution test_world straight alice delayed_run)).execution.status
      ≡ Status.running)
    × (resume_due test_world straight alice
          (left_by (run_execution test_world straight alice delayed_run))
        ≡ done (left_by (run_execution test_world straight alice delayed_run)))
resume_strands_example =
    resume_strands test_world straight alice delayed_run "ask" (step_to "approval" (some "stop"))
      (waiting_row StepStatus.waiting_delay) refl refl refl find_ask row_is_kept refl test_world
      alice
