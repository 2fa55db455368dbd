-- ===== src/Soar/Models.antt =====
-- The rows of soar/models.py, with the texts for the reader left out, and the steps of a playbook.
use threat_scope_xdr.Prelude.{ℕ, String, Bool, true, false, Option, List}
use threat_scope_xdr.Access.Models.{Moment}
use threat_scope_xdr.Soar.Json.{Json, Entries}

-- `configuration` of a step, each value read as the code reads it, with its default
pub record Configuration : Type 0 where
  pub outcome : String
  pub minimum_approvals : ℕ
  pub approval_type : String
  pub assigned_to_user_id : Option ℕ
  pub separation_required : Bool
  pub expires_hours : ℕ
  pub delay_seconds : ℕ
  pub perform_harmless_local : Bool
  pub requested_from_user_id : Option ℕ
  pub field_names : List String
  pub required_names : List String

-- A step of a definition; `none` is a route that is missing or empty.
pub record Step : Type 0 where
  pub type_name : String
  pub action_key : Option String
  pub condition : Json
  pub configuration : Configuration
  pub on_success : Option String
  pub on_failure : Option String
  pub on_timeout : Option String

-- EXECUTION_MODES of catalog.py
pub data Mode : Type 0 where
  dry_run simulation live_local : Mode

abbrev pub same_mode : Mode → Mode → Bool
same_mode dry_run dry_run = true
same_mode simulation simulation = true
same_mode live_local live_local = true
same_mode _ _ = false

-- SAFETY_CLASSIFICATIONS of catalog.py
pub data Safety : Type 0 where
  read_only harmless_local controlled_local sensitive_local simulation_only : Safety

abbrev pub is_sensitive : Safety → Bool
is_sensitive sensitive_local = true
is_sensitive _ = false

abbrev pub is_read_only : Safety → Bool
is_read_only read_only = true
is_read_only _ = false

-- ActionDefinition of catalog.py
pub record ActionDefinition : Type 0 where
  pub action_key : String
  pub safety : Safety
  pub allowed_modes : List Mode
  pub required_permission : String
  pub simulated : Bool
  pub compensating_action_key : Option String

-- SoarActionPolicy
pub record ActionPolicy : Type 0 where
  pub action_key : String
  pub enabled : Bool

-- the values of `SoarExecution.status`
pub data Status : Type 0 where
  proposed queued running waiting_approval waiting_input waiting_delay : Status
  completed completed_with_warnings failed cancelled expired : Status
  rollback_requested rolled_back rollback_failed : Status

-- `status in TERMINAL`
abbrev pub is_terminal : Status → Bool
is_terminal Status.completed = true
is_terminal Status.completed_with_warnings = true
is_terminal Status.failed = true
is_terminal Status.cancelled = true
is_terminal Status.rolled_back = true
is_terminal Status.rollback_failed = true
is_terminal Status.expired = true
is_terminal _ = false

-- SoarExecution
pub record Execution : Type 0 where
  pub id : ℕ
  pub playbook_id : ℕ
  pub playbook_version : ℕ
  pub execution_uuid : String
  pub trigger_source_type : String
  pub trigger_source_id : Option ℕ
  pub mode : Mode
  pub status : Status
  pub requested_by_user_id : ℕ
  pub approved_by_user_id : Option ℕ
  pub current_step_key : Option String
  pub input_context : Entries
  pub variable_state : Entries
  pub error_code : Option String
  pub error_summary : Option String
  pub simulated_action_count : ℕ
  pub started_at : Option Moment
  pub completed_at : Option Moment
  pub cancelled_at : Option Moment
  pub expires_at : Option Moment
  pub next_resume_at : Option Moment

-- the values of `SoarStepExecution.status`
pub data StepStatus : Type 0 where
  running succeeded simulated skipped approved waiting_approval waiting_input waiting_delay failed :
      StepStatus

abbrev pub is_waiting : StepStatus → Bool
is_waiting StepStatus.waiting_approval = true
is_waiting StepStatus.waiting_input = true
is_waiting StepStatus.waiting_delay = true
is_waiting _ = false

abbrev pub is_done : StepStatus → Bool
is_done StepStatus.succeeded = true
is_done StepStatus.simulated = true
is_done StepStatus.skipped = true
is_done _ = false

abbrev pub is_approved_step : StepStatus → Bool
is_approved_step StepStatus.approved = true
is_approved_step _ = false

abbrev pub is_failed : StepStatus → Bool
is_failed StepStatus.failed = true
is_failed _ = false

abbrev pub is_running : StepStatus → Bool
is_running StepStatus.running = true
is_running _ = false

-- SoarStepExecution
pub record StepRun : Type 0 where
  pub id : ℕ
  pub step_key : String
  pub step_type : String
  pub action_key : Option String
  pub sequence_number : ℕ
  pub attempt_number : ℕ
  pub idempotency_key : String
  pub status : StepStatus
  pub output_snapshot : Json
  pub error_code : Option String
  pub completed_at : Option Moment

-- the values of `SoarApproval.status`
pub data ApprovalStatus : Type 0 where
  pending partially_approved approved rejected expired cancelled : ApprovalStatus

abbrev pub is_open : ApprovalStatus → Bool
is_open ApprovalStatus.pending = true
is_open ApprovalStatus.partially_approved = true
is_open _ = false

abbrev pub is_approved : ApprovalStatus → Bool
is_approved ApprovalStatus.approved = true
is_approved _ = false

-- SoarApproval
pub record Approval : Type 0 where
  pub id : ℕ
  pub step_execution_id : ℕ
  pub approval_type : String
  pub required_permission : String
  pub minimum_approvals : ℕ
  pub requester_user_id : ℕ
  pub assigned_to_user_id : Option ℕ
  pub status : ApprovalStatus
  pub separation_required : Bool
  pub expires_at : Option Moment
  pub decided_at : Option Moment

pub data Decision : Type 0 where
  approve reject : Decision

abbrev pub is_approve : Decision → Bool
is_approve approve = true
is_approve reject = false

-- SoarApprovalDecision
pub record ApprovalDecision : Type 0 where
  pub approval_id : ℕ
  pub decision : Decision
  pub decided_by_user_id : ℕ

-- the values of `SoarAnalystInput.status`
pub data InputStatus : Type 0 where
  pending submitted expired cancelled : InputStatus

abbrev pub is_pending : InputStatus → Bool
is_pending InputStatus.pending = true
is_pending _ = false

-- SoarAnalystInput
pub record AnalystInput : Type 0 where
  pub id : ℕ
  pub step_execution_id : ℕ
  pub field_names : List String
  pub required_names : List String
  pub requested_from_user_id : Option ℕ
  pub submitted_by_user_id : Option ℕ
  pub status : InputStatus
  pub expires_at : Option Moment

-- SoarExecutionEvent, without the statuses, the summary and the metadata
pub record Event : Type 0 where
  pub event_type : String
  pub actor_user_id : ℕ
  pub step_execution_id : Option ℕ

-- A call of the part of `_dispatch` that changes the records of other modules.
pub record Effect : Type 0 where
  pub action : ActionDefinition
  pub mode : Mode
  pub step_execution_id : ℕ

-- An execution with the rows that belong to it, the two counters of its playbook, and the calls
-- that changed other modules' records.
pub record Run : Type 0 where
  pub execution : Execution
  pub step_runs : List StepRun
  pub approvals : List Approval
  pub decisions : List ApprovalDecision
  pub inputs : List AnalystInput
  pub events : List Event
  pub successes : ℕ
  pub failures : ℕ
  pub effects : List Effect
