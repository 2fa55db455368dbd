-- ===== src/Soar/StepTypes.antt =====
-- soar/service.py: what run_execution does at a step of each type, and of _dispatch the branches
-- that change no record of another module.
pub mod Effects
pub mod Writes
pub mod Calls
pub mod Routes
use threat_scope_xdr.Prelude.{
  ℕ, zero, suc, ◌+◌, ◌-◌, ◌*◌, ◌/◌, ◌%◌, ◌≤◌, ◌<◌, min, max, String, ◌≡◌, refl, sym, ap, ◌∙◌, ◌≢◌,
  ◌↔◌, ◌⊎◌, inl, inr, Bool, true, false, not, ◌&&◌, ◌||◌, Option, none, some, List, [], ◌∷◌, ◌++◌,
  map, arith, str_eq, starts_with, eq_iff, eq_refl, ltb, leb, ◌==◌, if◌then◌else◌, is_some,
  Bool-cases, Option-cases, length, select, first, count_where, delete_where, update_where, any,
  all, All, next_id, count_where-append, first-test, count_where-delete_where, count_where_mono,
  first-update_where_ne, count_where-update_where_ne, contains, ends_with, nonempty, elem, take,
  rstrip_slash, strip, join_words, is_space, concat, opt_eq, show, ==_iff, opt_eq-eq, count, unique,
  sorted, any-append, any-delete_where, any-delete_where_self, any-select, any_mono, length-append,
  count_where_pos, first-update_where, count_where-update_where_self,
}
use threat_scope_xdr.Access.Models.{Moment, UserAccount, hours, seconds}
use threat_scope_xdr.Access.Store.{Tables}
use threat_scope_xdr.Access.Roles.{effective_permissions}
use threat_scope_xdr.Soar.Json.{
  Json, Entries, Python, nothing, number, int, pos, str, dict, end, entry,
}
use threat_scope_xdr.Soar.Conditions.{Outcome, returned, raised, evaluate, ConditionResult}
use threat_scope_xdr.Soar.Graph.{Playbook, find_step}
use threat_scope_xdr.Soar.Models.{
  Configuration, Step, Mode, dry_run, simulation, live_local, same_mode, Safety, sensitive_local,
  is_sensitive, is_read_only, ActionDefinition, ActionPolicy, Status, is_terminal, Execution,
  StepStatus, is_waiting, is_done, is_approved_step, is_failed, is_running, StepRun, ApprovalStatus,
  is_approved, Approval, AnalystInput, InputStatus, Event, Effect, Run,
}
use threat_scope_xdr.Soar.World.{
  Performed, replied, denied, broke, World, Answer, done, refused, left_by, Turn, stop, go, throw,
  crash, with_status, log, set_step,
}
use threat_scope_xdr.Soar.Context.{put_entry, merge, context_of}
use threat_scope_xdr.Soar.StepRuns.{
  latest_attempt, is_kept, create_step, fail, new_approval, pending_approval, clamp, last_running,
}

-- `{"status": status, "summary": summary}`
abbrev output : String → String → Json
output status summary = dict (entry "status" (str status) (entry "summary" (str summary) end))

-- what follows the chain of step types: the step is done, and the execution goes to the route or,
-- without one, stops
unfoldable pub complete_step : World → ℕ → StepRun → StepStatus → Json → Option String → Run → Turn
unfolding log
complete_step w actor_id s status value route r =
    let r' = log "step_completed" actor_id (some s.id) (
      set_step s.id
        (λ t. record t { status = status; output_snapshot = value; completed_at = some w.now })
        (record r { execution = record r.execution { current_step_key = route } })) in
    elim route [
      | some next ↦ go r'
      | none ↦ stop (
          log "execution_completed_with_warnings" actor_id none (record r' {
            execution = record r'.execution {
              status = Status.completed_with_warnings;
              completed_at = some w.now;
            };
          }))
    ]

-- an end step that is no failure
unfoldable pub finish : World → ℕ → StepRun → Run → Run
unfolding log
finish w actor_id s r =
    let r' =
      set_step s.id
        (λ t. record t {
          status = StepStatus.succeeded;
          output_snapshot = output "completed" "Terminal step reached";
          completed_at = some w.now;
        })
        r in
    log "execution_completed" actor_id (some s.id) (record r' {
      execution = record r'.execution {
        status = Status.completed;
        completed_at = some w.now;
        current_step_key = none;
      };
      successes = r'.successes + 1;
    })

abbrev new_input : World → Run → StepRun → Configuration → AnalystInput
new_input w r s config = record {
  id = next_id (λ i. i.id) r.inputs;
  step_execution_id = s.id;
  field_names = config.field_names;
  required_names = config.required_names;
  requested_from_user_id = config.requested_from_user_id;
  submitted_by_user_id = none;
  status = InputStatus.pending;
  expires_at = some (w.now + hours (min 72 (max 1 config.expires_hours)));
}

-- an analyst_input step
unfoldable pub ask_analyst : World → ℕ → StepRun → Configuration → Run → Run
unfolding log
ask_analyst w actor_id s config r =
    let r' =
      if any (λ i. i.step_execution_id == s.id) r.inputs
      then r
      else record r { inputs = r.inputs ++ new_input w r s config ∷ [] } in
    log "analyst_input_requested" actor_id (some s.id) (
      set_step s.id (λ t. record t { status = StepStatus.waiting_input })
        (with_status Status.waiting_input r'))

-- a delay step
unfoldable pub start_delay : World → ℕ → StepRun → Configuration → Run → Run
unfolding log
start_delay w actor_id s config r = log "delay_started" actor_id (some s.id) (
    set_step s.id (λ t. record t { status = StepStatus.waiting_delay })
      (record r {
        execution = record r.execution {
          status = Status.waiting_delay;
          next_resume_at = some (w.now + seconds config.delay_seconds);
        };
      }))

-- what `_dispatch` gives: the output with the run, or an exception
pub data Dispatched : Type 0 where
  answered : Json → Run → Dispatched
  denied_with : ℕ → String → Dispatched
  broken : String → Dispatched

abbrev record_effect : Effect → Performed → Run → Dispatched
record_effect effect (replied value variables) r = answered value (record r {
  execution = record r.execution { variable_state = variables };
  effects = r.effects ++ effect ∷ [];
})
record_effect effect (denied code message) r = denied_with code message
record_effect effect (broke message) r = broken message

-- `_dispatch`
unfoldable pub dispatch : World → StepRun → ActionDefinition → Configuration → Run → Dispatched
dispatch w s action config r =
    if action.simulated
    then answered (output "simulated" "No external infrastructure was modified.") (record r {
      execution = record r.execution {
        simulated_action_count = r.execution.simulated_action_count + 1;
      };
    })
    else if is_read_only action.safety
    then answered (w.read_context action.action_key config r) r
    else if same_mode r.execution.mode simulation && not config.perform_harmless_local
    then answered (output "intended" "Simulation recorded the intended local action") r
    else (let effect : Effect = record {
      action = action;
      mode = r.execution.mode;
      step_execution_id = s.id;
    } in
        record_effect effect (w.perform effect config r) r)

after_dispatch : World → ℕ → StepRun → ActionDefinition → Option String → Dispatched → Turn
unfolding complete_step
after_dispatch w actor_id s action route (answered value r) =
    complete_step w actor_id s
      (if action.simulated then StepStatus.simulated else StepStatus.succeeded) value route r
after_dispatch w actor_id s action route (denied_with code message) = throw code message
after_dispatch w actor_id s action route (broken message) = crash message

-- `approval_type`
unfoldable pub approval_type_of : ActionDefinition → Option String
approval_type_of action =
    if is_sensitive action.safety
    then some "sensitive_action"
    else if action.simulated
    then some "containment_simulation"
    else none

if_approved : World → UserAccount → Step → StepRun → ActionDefinition → Approval × Run → Turn
unfolding dispatch after_dispatch
if_approved w actor step s action (approval, r) =
    if is_approved approval.status
    then after_dispatch w actor.id s action step.on_success
        (dispatch w s action step.configuration r)
    else stop r

dispatch_step : World → UserAccount → Step → StepRun → ActionDefinition → Option String → Run → Turn
unfolding if_approved pending_approval dispatch after_dispatch
dispatch_step w actor step s action (some approval_type) r =
    if_approved w actor step s action
      (pending_approval w actor r s step.configuration (is_sensitive action.safety) approval_type)
dispatch_step w actor step s action none r =
    after_dispatch w actor.id s action step.on_success (dispatch w s action step.configuration r)

abbrev pub is_enabled : List ActionPolicy → String → Bool
is_enabled policies key = elim (first (λ p. str_eq p.action_key key) policies) [
  | none ↦ false
  | some p ↦ p.enabled
]

-- a step with a known action
act : World → UserAccount → Step → StepRun → ActionDefinition → Run → Turn
unfolding fail dispatch_step approval_type_of effective_permissions
act w actor step s action r =
    if not (is_enabled w.policies action.action_key)
    then stop (fail w actor.id "SOAR_ACTION_DISABLED" "Action is disabled by policy" r)
    else if not (any (same_mode r.execution.mode) action.allowed_modes)
    then stop (
        fail w actor.id "SOAR_ACTION_MODE_NOT_ALLOWED" "Action cannot run in this execution mode" r)
    else if not (elem action.required_permission (effective_permissions actor w.tables))
    then stop (fail w actor.id "SOAR_PERMISSION_DENIED" "Dispatch-time action permission denied" r)
    else dispatch_step w actor step s action (approval_type_of action) r

find_action : World → Option String → Option ActionDefinition
find_action w none = none
find_action w (some key) = w.catalog key

run_action : World → UserAccount → Step → StepRun → Option ActionDefinition → Run → Turn
unfolding fail act
run_action w actor step s none r =
    stop (fail w actor.id "SOAR_ACTION_UNKNOWN" "Action is not in the server-owned catalog" r)
run_action w actor step s (some action) r = act w actor step s action r

decide_route : World → UserAccount → Step → StepRun → Outcome ConditionResult → Run → Turn
unfolding complete_step
decide_route w actor step s (returned d) r =
    complete_step w actor.id s StepStatus.succeeded
      (dict (
        entry "status" (str "succeeded")
          (entry "matched" (Json.boolean d.matched) (entry "summary" (str d.explanation) end))))
      (if d.matched then step.on_success else step.on_failure) r
decide_route w actor step s (raised message) r = crash message

unfoldable pub is_dry_run : Mode → Bool
is_dry_run dry_run = true
is_dry_run _ = false

-- the chain of step types
unfoldable pub run_step : World → UserAccount → Step → StepRun → Run → Turn
unfolding complete_step fail finish decide_route context_of evaluate pending_approval ask_analyst
    start_delay run_action find_action is_dry_run
run_step w actor step s r =
    if is_dry_run r.execution.mode && not (str_eq step.type_name "end")
    then complete_step w actor.id s StepStatus.skipped
        (output "intended" "Dry run recorded the intended step; no mutation was performed.")
        step.on_success r
    else if str_eq step.type_name "end"
    then if str_eq step.configuration.outcome "failed"
      then stop (fail w actor.id "SOAR_STEP_FAILED" "Workflow reached its failure terminal" r)
      else stop (finish w actor.id s r)
    else if str_eq step.type_name "condition"
    then decide_route w actor step s (evaluate w.python (context_of w r) step.condition) r
    else if str_eq step.type_name "approval"
    then stop
        (pending_approval w actor r s step.configuration false step.configuration.approval_type).1
    else if str_eq step.type_name "analyst_input"
    then stop (ask_analyst w actor.id s step.configuration r)
    else if str_eq step.type_name "delay"
    then stop (start_delay w actor.id s step.configuration r)
    else run_action w actor step s (find_action w step.action_key) r
