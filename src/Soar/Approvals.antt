-- ===== src/Soar/Approvals.antt =====
-- backend/app/modules/soar/service.py: decide_approval with its refusals, the count of the
-- decisions and what an answered approval does to the step and the execution, and
-- cancel_execution.
pub mod Rows
pub mod Counts
pub mod Counted
pub mod Final
use threat_scope_xdr.Prelude.{
  ℕ, zero, suc, ◌+◌, ◌-◌, ◌*◌, ◌/◌, ◌%◌, ◌≤◌, ◌<◌, min, max, String, ◌≡◌, refl, sym, ap, ◌∙◌, ◌≢◌,
  ◌↔◌, ◌⊎◌, inl, inr, Bool, true, false, not, ◌&&◌, ◌||◌, Option, none, some, List, [], ◌∷◌, ◌++◌,
  map, arith, str_eq, starts_with, eq_iff, eq_refl, ltb, leb, ◌==◌, if◌then◌else◌, is_some,
  Bool-cases, Option-cases, length, select, first, count_where, delete_where, update_where, any,
  all, All, next_id, count_where-append, first-test, count_where-delete_where, count_where_mono,
  first-update_where_ne, count_where-update_where_ne, contains, ends_with, nonempty, elem, take,
  rstrip_slash, strip, join_words, is_space, concat, opt_eq, show, ==_iff, opt_eq-eq, count, unique,
  sorted, any-append, any-delete_where, any-delete_where_self, any-select, any_mono, length-append,
  count_where_pos, first-update_where, count_where-update_where_self,
}
use threat_scope_xdr.Access.Models.{Moment, UserAccount, is_active}
use threat_scope_xdr.Access.Roles.{effective_permissions}
use threat_scope_xdr.Soar.Json.{Json, Entries, str, dict, end, entry}
use threat_scope_xdr.Soar.Graph.{Playbook, find_step}
use threat_scope_xdr.Soar.Models.{
  Step, Status, is_terminal, Execution, StepStatus, StepRun, ApprovalStatus, is_open, is_approved,
  Approval, Decision, is_approve, approve, reject, ApprovalDecision, InputStatus, is_pending,
  AnalystInput, Run,
}
use threat_scope_xdr.Soar.World.{World, Answer, done, refused, with_status, log, set_step}
use threat_scope_xdr.Soar.Executions.{is_over, expire, run_execution}

abbrev pub set_approval : ℕ → (Approval → Approval) → Run → Run
set_approval id f r = record r { approvals = update_where (λ a. a.id == id) f r.approvals }

-- the permissions that let a user decide
abbrev may_decide : World → Approval → UserAccount → Bool
may_decide w a user =
    elem a.required_permission (effective_permissions user w.tables)
    || elem "soar:approve" (effective_permissions user w.tables)

-- `locked_until and locked_until > now`
abbrev is_locked_at : Moment → Option Moment → Bool
is_locked_at now none = false
is_locked_at now (some m) = ltb now m

abbrev is_other : Option ℕ → ℕ → Bool
is_other none id = false
is_other (some n) id = not (n == id)

-- another active user who may decide
unfoldable pub has_other_approver : World → Approval → UserAccount → Bool
unfolding effective_permissions
has_other_approver w a actor =
    any (λ u. is_active u.status && not (u.id == actor.id) && may_decide w a u) w.tables.users

abbrev pub is_decision_of : ℕ → ℕ → ApprovalDecision → Bool
is_decision_of approval_id user_id d =
    d.approval_id == approval_id && d.decided_by_user_id == user_id

-- the tests of `decide_approval` after that of the time, in order
unfoldable pub refusal : World → Approval → UserAccount → Run → Option (ℕ × String)
unfolding has_other_approver effective_permissions
refusal w a actor r =
    if not (may_decide w a actor)
    then some (403, "Current user is not eligible to decide")
    else if not (is_active actor.status) || is_locked_at w.now actor.locked_until
    then some (403, "Disabled or locked users cannot approve")
    else if is_other a.assigned_to_user_id actor.id
    then some (403, "Approval is assigned to another user")
    else if a.separation_required && a.requester_user_id == actor.id && has_other_approver w a actor
    then some (403, "Requester/approver separation is required")
    else if any (is_decision_of a.id actor.id) r.decisions
    then some (409, "User already decided this approval")
    else none

-- the approvals of the row so far
unfoldable pub approval_count : ℕ → List ApprovalDecision → ℕ
approval_count id ds = count_where (λ d. d.approval_id == id && is_approve d.decision) ds

unfoldable pub reject_run : World → Approval → UserAccount → Run → Run
unfolding log
reject_run w a actor r =
    let r' =
      set_approval a.id
        (λ b. record b { status = ApprovalStatus.rejected; decided_at = some w.now }) r in
    log "approval_rejected" actor.id none (record r' {
      execution = record r'.execution {
        status = Status.failed;
        error_code = some "SOAR_APPROVAL_REQUIRED";
        error_summary = some "Approval was rejected";
        completed_at = some w.now;
      };
    })

-- where the execution goes when the step's approval is complete
resume_key : Playbook → StepRun → Option String
unfolding find_step
resume_key by_key s =
    if str_eq s.step_type "approval"
    then elim (find_step s.step_key by_key) [ none ↦ none | some step ↦ step.on_success ]
    else some s.step_key

abbrev approve_step : World → StepRun → StepRun
approve_step w s =
    if str_eq s.step_type "approval"
    then record s { status = StepStatus.succeeded; completed_at = some w.now }
    else record s { status = StepStatus.approved; completed_at = none }

unfoldable pub approve_run : World → Playbook → Approval → StepRun → UserAccount → Run → Run
unfolding log resume_key
approve_run w by_key a s actor r =
    let r' =
      set_approval a.id
        (λ b. record b { status = ApprovalStatus.approved; decided_at = some w.now }) r in
    log "approval_approved" actor.id none (
      set_step s.id (approve_step w) (record r' {
        execution = record r'.execution {
          approved_by_user_id = some actor.id;
          current_step_key = resume_key by_key s;
          status = Status.queued;
        };
      }))

unfoldable pub partly_approve_run : Approval → UserAccount → Run → Run
unfolding log
partly_approve_run a actor r =
    log "approval_partially_approved" actor.id none
      (set_approval a.id (λ b. record b { status = ApprovalStatus.partially_approved }) r)

-- a decision that is recorded
unfoldable pub record_decision : Approval → UserAccount → Decision → Run → Run
record_decision a actor d r = record r {
  decisions =
      r.decisions
      ++ record { approval_id = a.id; decision = d; decided_by_user_id = actor.id } ∷ [];
}

-- after the decision is recorded; an approval that is complete resumes the execution
unfoldable pub apply_decision :
    World → Playbook → Approval → StepRun → UserAccount → Decision → Run → Answer
unfolding reject_run approve_run partly_approve_run approval_count run_execution
apply_decision w by_key a s actor reject r = done (reject_run w a actor r)
apply_decision w by_key a s actor approve r =
    if leb a.minimum_approvals (approval_count a.id r.decisions)
    then run_execution w by_key actor (approve_run w by_key a s actor r)
    else done (partly_approve_run a actor r)

unfoldable pub answer_refusal : Run → Option (ℕ × String) → Answer → Answer
answer_refusal r none next = next
answer_refusal r (some (code, message)) next = refused code message r

unfoldable pub decide_approval :
    World → Playbook → Approval → StepRun → UserAccount → Decision → Run → Answer
unfolding answer_refusal refusal record_decision apply_decision
decide_approval w by_key a s actor d r =
    if not (is_open a.status)
    then refused 409 "Approval is no longer pending" r
    else if is_over w.now a.expires_at
    then refused 409 "Approval has expired"
        (set_approval a.id (λ b. record b { status = ApprovalStatus.expired }) r)
    else answer_refusal r (refusal w a actor r)
        (apply_decision w by_key a s actor d (record_decision a actor d r))

unfoldable pub cancel_execution : World → UserAccount → Run → Answer
unfolding log
cancel_execution w actor r =
    if is_terminal r.execution.status
    then refused 409 "Terminal execution cannot be cancelled" r
    else done (
        log "execution_cancelled" actor.id none (record r {
          execution = record r.execution {
            status = Status.cancelled;
            cancelled_at = some w.now;
            completed_at = some w.now;
          };
          approvals =
              update_where (λ a. is_open a.status)
                (λ a. record a { status = ApprovalStatus.cancelled }) r.approvals;
          inputs =
              update_where (λ i. is_pending i.status)
                (λ i. record i { status = InputStatus.cancelled }) r.inputs;
        }))

-- a call of the handler with the number of an approval, and the row of its step
unfoldable pub decide : World → Playbook → ℕ → StepRun → UserAccount → Decision → Run → Answer
unfolding decide_approval
decide w by_key id s actor d r = elim (first (λ a. a.id == id) r.approvals) [
  | none ↦ refused 404 "Approval not found" r
  | some a ↦ decide_approval w by_key a s actor d r
]
