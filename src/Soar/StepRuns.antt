-- ===== src/Soar/StepRuns.antt =====
-- soar/service.py: _create_step, _fail and _pending_approval.
use threat_scope_xdr.Prelude.{
  ℕ, ◌+◌, min, max, String, Bool, ◌&&◌, ◌||◌, Option, none, some, List, [], ◌∷◌, ◌++◌, str_eq, ltb,
  ◌==◌, if◌then◌else◌, length, select, any, next_id, concat,
}
use threat_scope_xdr.Access.Models.{UserAccount, hours}
use threat_scope_xdr.Soar.Json.{dict, end}
use threat_scope_xdr.Soar.Models.{
  Configuration, Step, Status, StepStatus, is_waiting, is_done, is_approved_step, is_failed,
  is_running, StepRun, ApprovalStatus, Approval, Run,
}
use threat_scope_xdr.Soar.World.{World, with_status, log, set_step}

-- `order_by(attempt_number.desc()).first()`
later_attempt : StepRun → Option StepRun → StepRun
later_attempt s none = s
later_attempt s (some t) = if ltb s.attempt_number t.attempt_number then t else s

unfoldable pub latest_attempt : List StepRun → Option StepRun
unfolding later_attempt
latest_attempt [] = none
latest_attempt (s ∷ ss) = some (later_attempt s (latest_attempt ss))

-- the statuses in which `_create_step` goes on with the row that there is
abbrev pub is_kept : StepStatus → Bool
is_kept s = is_done s || is_approved_step s || is_waiting s

-- `is_some existing`, with a failed one: the number of the next attempt
abbrev pub next_attempt : Option StepRun → ℕ
next_attempt none = 1
next_attempt (some s) = if is_failed s.status then s.attempt_number + 1 else 1

unfoldable pub new_step : World → Run → String → Step → String → ℕ → StepRun
new_step w r key step idempotency_key attempt = record {
  id = next_id (λ s. s.id) r.step_runs;
  step_key = key;
  step_type = step.type_name;
  action_key = step.action_key;
  sequence_number = length r.step_runs + 1;
  attempt_number = attempt;
  idempotency_key = idempotency_key;
  status = StepStatus.running;
  output_snapshot = dict end;
  error_code = none;
  completed_at = none;
}

-- the row with the run that holds it; `none` if the unique constraint on attempts is violated
abbrev pub add_step : StepRun → Run → Option (StepRun × Run)
add_step s r =
    if any (λ t. str_eq t.idempotency_key s.idempotency_key && t.attempt_number == s.attempt_number)
      r.step_runs
    then none
    else some (s, record r { step_runs = r.step_runs ++ s ∷ [] })

unfoldable pub reuse_step :
    World → Run → String → Step → String → Option StepRun → Option (StepRun × Run)
unfolding new_step
reuse_step w r key step idempotency_key none = add_step (new_step w r key step idempotency_key 1) r
reuse_step w r key step idempotency_key (some s) =
    if is_kept s.status
    then some (s, r)
    else add_step (new_step w r key step idempotency_key (next_attempt (some s))) r

-- `_create_step`
unfoldable pub create_step : World → Run → String → Step → Option (StepRun × Run)
unfolding reuse_step latest_attempt concat
create_step w r key step =
    let idempotency_key = w.sha256 (concat r.execution.execution_uuid (concat ":" key)) in
    reuse_step w r key step idempotency_key
      (latest_attempt (select (λ s. str_eq s.idempotency_key idempotency_key) r.step_runs))

-- the last row of the step runs that is still running
unfoldable pub last_running : List StepRun → Option StepRun
last_running [] = none
last_running (s ∷ ss) = elim (last_running ss) [
  | none ↦ (if is_running s.status then some s else none)
  | some t ↦ some t
]

abbrev pub step_failed : World → String → Option StepRun → Run → Run
step_failed w code none r = r
step_failed w code (some s) r =
    set_step s.id
      (λ t. record t {
        status = StepStatus.failed;
        error_code = some code;
        completed_at = some w.now;
      })
      r

-- `_fail`
unfoldable pub fail : World → ℕ → String → String → Run → Run
unfolding last_running log
fail w actor_id code summary r =
    let latest = last_running r.step_runs in
    let r' = step_failed w code latest r in
    log "execution_failed" actor_id (elim latest [ none ↦ none | some s ↦ some s.id ])
      (record r' {
        execution = record r'.execution {
          status = Status.failed;
          error_code = some code;
          error_summary = some summary;
          completed_at = some w.now;
        };
        failures = r'.failures + 1;
      })

-- the latest approval of a step
unfoldable pub latest_approval : ℕ → List Approval → Option Approval
latest_approval step_id [] = none
latest_approval step_id (a ∷ rest) = elim (latest_approval step_id rest) [
  | none ↦ (if a.step_execution_id == step_id then some a else none)
  | some b ↦ some b
]

unfoldable pub clamp : ℕ → ℕ → ℕ → ℕ
clamp lo hi n = max lo (min hi n)

-- the row of `_pending_approval`
unfoldable pub new_approval :
    World → UserAccount → Run → StepRun → Configuration → Bool → String → Approval
unfolding clamp
new_approval w actor r step config sensitive approval_type = record {
  id = next_id (λ a. a.id) r.approvals;
  step_execution_id = step.id;
  approval_type = approval_type;
  required_permission = if sensitive then "soar:sensitive_actions" else "soar:approve";
  minimum_approvals = clamp 1 5 config.minimum_approvals;
  requester_user_id = actor.id;
  assigned_to_user_id = config.assigned_to_user_id;
  status = ApprovalStatus.pending;
  separation_required = sensitive || config.separation_required;
  expires_at = some (w.now + hours (min 72 (max 1 config.expires_hours)));
  decided_at = none;
}

-- the writes of `_pending_approval` for a new approval
unfoldable pub request_approval : World → UserAccount → Run → StepRun → Approval → Run
unfolding log
request_approval w actor r step approval = log "approval_requested" actor.id (some step.id) (
    set_step step.id (λ s. record s { status = StepStatus.waiting_approval })
      (with_status Status.waiting_approval (record r { approvals = r.approvals ++ approval ∷ [] })))

-- `_pending_approval`: the approval, and the run that waits for it if it is new
unfoldable pub pending_approval :
    World → UserAccount → Run → StepRun → Configuration → Bool → String → Approval × Run
unfolding new_approval latest_approval request_approval
pending_approval w actor r step config sensitive approval_type =
    elim (latest_approval step.id r.approvals) [
      | some a ↦ (a, r)
      | none ↦ (
        new_approval w actor r step config sensitive approval_type,
        request_approval w actor r step
            (new_approval w actor r step config sensitive approval_type),
      )
    ]
