-- ===== src/Soar/StepTypes/Calls.antt =====
-- soar/service.py: which calls of an action's own code a step of each type makes.
use threat_scope_xdr.Prelude.{
  String, ◌≡◌, refl, inl, inr, Bool, true, false, not, ◌&&◌, ◌||◌, Option, none, some, str_eq,
  if◌then◌else◌, Bool-cases, Option-cases, any, elem,
}
use threat_scope_xdr.Access.Models.{UserAccount}
use threat_scope_xdr.Access.Roles.{effective_permissions}
use threat_scope_xdr.Soar.Conditions.{Outcome, returned, raised, ConditionResult, evaluate}
use threat_scope_xdr.Soar.Context.{context_of}
use threat_scope_xdr.Soar.Models.{
  Configuration, Step, simulation, same_mode, is_sensitive, is_read_only, ActionDefinition,
  StepStatus, StepRun, is_approved, Approval, Run,
}
use threat_scope_xdr.Soar.World.{World}
use threat_scope_xdr.Soar.StepRuns.{new_approval, pending_approval, latest_approval}
use threat_scope_xdr.Soar.StepTypes.{
  Dispatched, answered, denied_with, broken, dispatch, after_dispatch, approval_type_of,
  if_approved, dispatch_step, is_enabled, act, find_action, run_action, decide_route, is_dry_run,
  run_step,
}
use threat_scope_xdr.Soar.StepTypes.Effects.{
  approves, latest_approval-approves, not-false, not_dry, or_right, or_left, Extends, Extends-same,
  fail-Extends,
}
use threat_scope_xdr.Soar.StepTypes.Writes.{
  finish-Extends, start_delay-Extends, ask_analyst-Extends, pending_approval-Extends, TurnExtends,
  complete_step-Extends, DispatchExtends, record_effect-Extends, DispatchExtends-if, TurnExtends-if,
}

module _ (w : World) (actor : UserAccount) where
  -- the tests before a dispatch
  record Passed (action : ActionDefinition) (s : StepRun) (r : Run) : Type 0 where
    not_dry_run : is_dry_run r.execution.mode ≡ false
    is_on : is_enabled w.policies action.action_key ≡ true
    has_mode : any (same_mode r.execution.mode) action.allowed_modes ≡ true
    is_permitted : elem action.required_permission (effective_permissions actor w.tables) ≡ true
    was_approved : (not (is_sensitive action.safety) || any (approves s.id) r.approvals) ≡ true

  dispatch-Extends :
      (s : StepRun) (action : ActionDefinition) (c : Configuration) (r : Run)
      → Passed action s r
      → DispatchExtends w actor r (dispatch w s action c r)
  unfolding dispatch
  dispatch-Extends s action c r ok =
      DispatchExtends-if w actor r action.simulated _ _
        (λ sim. Extends-same w actor r _ refl refl refl)
        λ real.
          DispatchExtends-if w actor r (is_read_only action.safety) _ _
            (λ reads. Extends-same w actor r r refl refl refl)
            λ writes.
              DispatchExtends-if w actor r
                (same_mode r.execution.mode simulation && not c.perform_harmless_local) _ _
                (λ intended. Extends-same w actor r r refl refl refl)
                λ performed. record_effect-Extends w actor _ _ r (record {
                  not_simulated = real;
                  not_read_only = writes;
                  not_dry_run = ok.not_dry_run;
                  is_on = ok.is_on;
                  has_mode = ok.has_mode;
                  is_permitted = ok.is_permitted;
                  was_approved = ok.was_approved;
                })

  after_dispatch-Extends :
      (s : StepRun) (action : ActionDefinition) (route : Option String) (d : Dispatched) (r : Run)
      → DispatchExtends w actor r d
      → TurnExtends w actor r (after_dispatch w actor.id s action route d)
  unfolding after_dispatch
  after_dispatch-Extends s action route (answered value r') r x =
      complete_step-Extends w actor s
        (if action.simulated then StepStatus.simulated else StepStatus.succeeded) value route r r' x
  after_dispatch-Extends s action route (denied_with code message) r x = tt
  after_dispatch-Extends s action route (broken message) r x = tt

  -- the tests that do not look at the approvals
  record Checked (action : ActionDefinition) (r : Run) : Type 0 where
    not_dry : is_dry_run r.execution.mode ≡ false
    on : is_enabled w.policies action.action_key ≡ true
    mode_ok : any (same_mode r.execution.mode) action.allowed_modes ≡ true
    permitted : elem action.required_permission (effective_permissions actor w.tables) ≡ true

  pass :
      (action : ActionDefinition) (s : StepRun) (r : Run)
      → Checked action r
      → (not (is_sensitive action.safety) || any (approves s.id) r.approvals) ≡ true
      → Passed action s r
  pass action s r ok h = record {
    not_dry_run = ok.not_dry;
    is_on = ok.on;
    has_mode = ok.mode_ok;
    is_permitted = ok.permitted;
    was_approved = h;
  }

  -- an approval that is approved was there before
  pending_approval-approved :
      (r : Run) (s : StepRun) (c : Configuration) (sensitive : Bool) (kind : String)
      → is_approved (pending_approval w actor r s c sensitive kind).0.status ≡ true
      → ((pending_approval w actor r s c sensitive kind).1 ≡ r)
        × (any (approves s.id) r.approvals ≡ true)
  unfolding pending_approval new_approval
  pending_approval-approved r s c sensitive kind h =
      elim (Option-cases (latest_approval s.id r.approvals)) [
        | inl e ↦ absurd (cc (rw (e, pending_approval) at h))
        | inr (a, e) ↦ (
          rw (e, pending_approval) refl,
          latest_approval-approves s.id r.approvals a e (rw (e, pending_approval) at h),
        )
      ]

  if_approved-Extends :
      (step : Step) (s : StepRun) (action : ActionDefinition) (p : Approval × Run) (r : Run)
      → Checked action r
      → Extends w actor r p.1
      → (is_approved p.0.status ≡ true → (p.1 ≡ r) × (any (approves s.id) r.approvals ≡ true))
      → TurnExtends w actor r (if_approved w actor step s action p)
  unfolding if_approved
  if_approved-Extends step s action (a, r') r ok x known =
      TurnExtends-if w actor r (is_approved a.status) _ _
        (λ h.
          let (same, yes_approved) = known h in
          after_dispatch-Extends s action step.on_success
            (dispatch w s action step.configuration r') r
            (rw same (
              dispatch-Extends s action step.configuration r
                (pass action s r ok (or_right (is_sensitive action.safety) yes_approved)))))
        λ h. x

  dispatch_step-Extends :
      (step : Step) (s : StepRun) (action : ActionDefinition) (kind : Option String) (r : Run)
      → Checked action r
      → (kind ≡ none → is_sensitive action.safety ≡ false)
      → TurnExtends w actor r (dispatch_step w actor step s action kind r)
  unfolding dispatch_step
  dispatch_step-Extends step s action (some kind) r ok h =
      if_approved-Extends step s action
        (pending_approval w actor r s step.configuration (is_sensitive action.safety) kind) r ok
        (pending_approval-Extends w actor r s step.configuration (is_sensitive action.safety) kind)
        (pending_approval-approved r s step.configuration (is_sensitive action.safety) kind)
  dispatch_step-Extends step s action none r ok h =
      after_dispatch-Extends s action step.on_success (dispatch w s action step.configuration r) r
        (dispatch-Extends s action step.configuration r (pass action s r ok (or_left _ (h refl))))

  approval_type_of-none :
      (action : ActionDefinition)
      → approval_type_of action ≡ none
      → is_sensitive action.safety ≡ false
  unfolding approval_type_of
  approval_type_of-none action h = elim (Bool-cases (is_sensitive action.safety)) [
    | inl t ↦ absurd (cc (rw t at h))
    | inr f ↦ f
  ]

  act-Extends :
      (step : Step) (s : StepRun) (action : ActionDefinition) (r : Run)
      → is_dry_run r.execution.mode ≡ false
      → TurnExtends w actor r (act w actor step s action r)
  unfolding act
  act-Extends step s action r live =
      TurnExtends-if w actor r (not (is_enabled w.policies action.action_key)) _ _
        (λ h. fail-Extends w actor actor.id _ _ r)
        λ on.
          TurnExtends-if w actor r (not (any (same_mode r.execution.mode) action.allowed_modes)) _ _
            (λ h. fail-Extends w actor actor.id _ _ r)
            λ mode_ok.
              TurnExtends-if w actor r
                (not (elem action.required_permission (effective_permissions actor w.tables))) _ _
                (λ h. fail-Extends w actor actor.id _ _ r)
                λ permitted.
                  dispatch_step-Extends step s action (approval_type_of action) r
                    (record {
                      not_dry = live;
                      on = not-false _ on;
                      mode_ok = not-false _ mode_ok;
                      permitted = not-false _ permitted;
                    })
                    (approval_type_of-none action)

  run_action-Extends :
      (step : Step) (s : StepRun) (o : Option ActionDefinition) (r : Run)
      → is_dry_run r.execution.mode ≡ false
      → TurnExtends w actor r (run_action w actor step s o r)
  unfolding run_action
  run_action-Extends step s none r live = fail-Extends w actor actor.id _ _ r
  run_action-Extends step s (some action) r live = act-Extends step s action r live

  decide_route-Extends :
      (step : Step) (s : StepRun) (o : Outcome ConditionResult) (r : Run)
      → TurnExtends w actor r (decide_route w actor step s o r)
  unfolding decide_route
  decide_route-Extends step s (returned d) r =
      complete_step-Extends w actor s _ _ _ r r (Extends-same w actor r r refl refl refl)
  decide_route-Extends step s (raised message) r = tt

  -- A step adds only allowed effects.
  pub run_step-Extends :
      (step : Step) (s : StepRun) (r : Run) → TurnExtends w actor r (run_step w actor step s r)
  unfolding run_step
  run_step-Extends step s r =
      TurnExtends-if w actor r (is_dry_run r.execution.mode && not (str_eq step.type_name "end")) _
        _ (λ h. complete_step-Extends w actor s _ _ _ r r (Extends-same w actor r r refl refl refl))
        λ live.
          TurnExtends-if w actor r (str_eq step.type_name "end") _ _
            (λ h.
              TurnExtends-if w actor r (str_eq step.configuration.outcome "failed") _ _
                (λ h. fail-Extends w actor actor.id _ _ r) (λ h. finish-Extends w actor s r))
            λ no_end.
              TurnExtends-if w actor r (str_eq step.type_name "condition") _ _
                (λ h.
                  decide_route-Extends step s (evaluate w.python (context_of w r) step.condition) r)
                λ _.
                  TurnExtends-if w actor r (str_eq step.type_name "approval") _ _
                    (λ h.
                      pending_approval-Extends w actor r s step.configuration false
                        step.configuration.approval_type)
                    λ _.
                      TurnExtends-if w actor r (str_eq step.type_name "analyst_input") _ _
                        (λ h. ask_analyst-Extends w actor s step.configuration r)
                        λ _.
                          TurnExtends-if w actor r (str_eq step.type_name "delay") _ _
                            (λ h. start_delay-Extends w actor s step.configuration r)
                            λ _.
                              run_action-Extends step s (find_action w step.action_key) r
                                (not_dry _ _ live no_end)
