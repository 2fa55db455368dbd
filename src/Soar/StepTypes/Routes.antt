-- ===== src/Soar/StepTypes/Routes.antt =====
-- soar/service.py: where a step of each type leads.
use threat_scope_xdr.Prelude.{
  String, ◌≡◌, refl, ap, ◌∙◌, inl, inr, Bool, true, false, not, ◌&&◌, Option, none, some, List, [],
  ◌∷◌, str_eq, if◌then◌else◌, Bool-cases, select, any, elem,
}
use threat_scope_xdr.Access.Models.{UserAccount}
use threat_scope_xdr.Access.Roles.{effective_permissions}
use threat_scope_xdr.Soar.Json.{Json}
use threat_scope_xdr.Soar.Conditions.{Outcome, returned, raised, ConditionResult, evaluate}
use threat_scope_xdr.Soar.Context.{context_of}
use threat_scope_xdr.Soar.Graph.{routes, given}
use threat_scope_xdr.Soar.Graph.Walks.{elem-cons_cases, elem-cons, elem-cons_eq}
use threat_scope_xdr.Soar.Graph.Valid.{some_injective}
use threat_scope_xdr.Soar.Models.{
  Step, StepRun, StepStatus, ActionDefinition, Approval, is_approved, is_sensitive, Run, same_mode,
}
use threat_scope_xdr.Soar.World.{World, Turn, stop, go, throw, crash, log}
use threat_scope_xdr.Soar.StepRuns.{pending_approval}
use threat_scope_xdr.Soar.StepTypes.{
  complete_step, Dispatched, answered, denied_with, broken, dispatch, after_dispatch,
  approval_type_of, if_approved, dispatch_step, is_enabled, act, find_action, run_action,
  decide_route, is_dry_run, run_step,
}

-- a round that goes on goes on at a route of its step
abbrev pub Leads : Step → Turn → Type 0
Leads step (go r) =
    (v : String) × (r.execution.current_step_key ≡ some v) × (elem v (routes step) ≡ true)
Leads step (stop r) = Unit {0}
Leads step (throw code message) = Unit {0}
Leads step (crash message) = Unit {0}

pub Leads-if :
    (step : Step) (b : Bool) (t u : Turn)
    → Leads step t
    → Leads step u
    → Leads step (if b then t else u)
Leads-if step true t u h k = h
Leads-if step false t u h k = k

abbrev IsRoute : Step → Option String → Type 0
IsRoute step none = Unit {0}
IsRoute step (some v) = elem v (routes step) ≡ true

IsRoute-if :
    (step : Step) (b : Bool) (o p : Option String)
    → IsRoute step o
    → IsRoute step p
    → IsRoute step (if b then o else p)
IsRoute-if step true o p h k = h
IsRoute-if step false o p h k = k

given-elem_first :
    (o : Option String) (v : String) (rest : List String)
    → o ≡ some v
    → elem v (given o rest) ≡ true
given-elem_first none v rest h = absurd (cc h)
given-elem_first (some u) v rest h = elem-cons_eq v u rest (some_injective h)

given-elem_later :
    (o : Option String) (v : String) (rest : List String)
    → elem v rest ≡ true
    → elem v (given o rest) ≡ true
given-elem_later none v rest h = h
given-elem_later (some u) v rest h = elem-cons v u rest h

IsRoute-intro :
    (step : Step) (o : Option String)
    → ((v : String) → o ≡ some v → elem v (routes step) ≡ true)
    → IsRoute step o
IsRoute-intro step none h = tt
IsRoute-intro step (some v) h = h v refl

on_success-IsRoute : (step : Step) → IsRoute step step.on_success
unfolding routes
on_success-IsRoute step =
    IsRoute-intro step step.on_success (λ v h. given-elem_first step.on_success v _ h)

on_failure-IsRoute : (step : Step) → IsRoute step step.on_failure
unfolding routes
on_failure-IsRoute step =
    IsRoute-intro step step.on_failure
      (λ v h. given-elem_later step.on_success v _ (given-elem_first step.on_failure v _ h))

pub elem-select_intro :
    (p : String → Bool) (k : String) (ks : List String)
    → elem k ks ≡ true
    → p k ≡ true
    → elem k (select p ks) ≡ true
elem-select_intro p k [] h t = absurd (cc h)
elem-select_intro p k (j ∷ ks) h t = elim (elem-cons_cases k j ks h) [
  | inl same ↦ rw (ap p same ∙ t) (elem-cons_eq k j (select p ks) same)
  | inr later ↦ elim (Bool-cases (p j)) [
    | inl y ↦ rw y (elem-cons k j (select p ks) (elem-select_intro p k ks later t))
    | inr n ↦ rw n (elem-select_intro p k ks later t)
  ]
]

module _ (w : World) (actor : UserAccount) (step : Step) where
  complete_step-Leads :
      (s : StepRun) (status : StepStatus) (value : Json) (route : Option String) (r : Run)
      → IsRoute step route
      → Leads step (complete_step w actor.id s status value route r)
  unfolding complete_step log
  complete_step-Leads s status value none r h = tt
  complete_step-Leads s status value (some v) r h = (v, refl, h)

  after_dispatch-Leads :
      (s : StepRun) (action : ActionDefinition) (d : Dispatched)
      → Leads step (after_dispatch w actor.id s action step.on_success d)
  unfolding after_dispatch
  after_dispatch-Leads s action (answered value r) =
      complete_step-Leads s _ value step.on_success r (on_success-IsRoute step)
  after_dispatch-Leads s action (denied_with code message) = tt
  after_dispatch-Leads s action (broken message) = tt

  if_approved-Leads :
      (s : StepRun) (action : ActionDefinition) (p : Approval × Run)
      → Leads step (if_approved w actor step s action p)
  unfolding if_approved
  if_approved-Leads s action (a, r) =
      Leads-if step (is_approved a.status) _ _
        (after_dispatch-Leads s action (dispatch w s action step.configuration r)) tt

  dispatch_step-Leads :
      (s : StepRun) (action : ActionDefinition) (kind : Option String) (r : Run)
      → Leads step (dispatch_step w actor step s action kind r)
  unfolding dispatch_step
  dispatch_step-Leads s action (some kind) r =
      if_approved-Leads s action
        (pending_approval w actor r s step.configuration (is_sensitive action.safety) kind)
  dispatch_step-Leads s action none r =
      after_dispatch-Leads s action (dispatch w s action step.configuration r)

  act-Leads :
      (s : StepRun) (action : ActionDefinition) (r : Run) → Leads step (act w actor step s action r)
  unfolding act
  act-Leads s action r = Leads-if step (not (is_enabled w.policies action.action_key)) _ _ tt (
      Leads-if step (not (any (same_mode r.execution.mode) action.allowed_modes)) _ _ tt (
        Leads-if step (not (elem action.required_permission (effective_permissions actor w.tables)))
          _ _ tt (dispatch_step-Leads s action (approval_type_of action) r)))

  run_action-Leads :
      (s : StepRun) (o : Option ActionDefinition) (r : Run)
      → Leads step (run_action w actor step s o r)
  unfolding run_action
  run_action-Leads s none r = tt
  run_action-Leads s (some action) r = act-Leads s action r

  decide_route-Leads :
      (s : StepRun) (o : Outcome ConditionResult) (r : Run)
      → Leads step (decide_route w actor step s o r)
  unfolding decide_route
  decide_route-Leads s (returned d) r = complete_step-Leads s _ _ _ r (
      IsRoute-if step d.matched step.on_success step.on_failure (on_success-IsRoute step)
        (on_failure-IsRoute step))
  decide_route-Leads s (raised message) r = tt

  pub run_step-Leads : (s : StepRun) (r : Run) → Leads step (run_step w actor step s r)
  unfolding run_step
  run_step-Leads s r =
      Leads-if step (is_dry_run r.execution.mode && not (str_eq step.type_name "end")) _ _
        (complete_step-Leads s _ _ step.on_success r (on_success-IsRoute step))
        (Leads-if step (str_eq step.type_name "end") _ _
          (Leads-if step (str_eq step.configuration.outcome "failed") _ _ tt tt)
          (Leads-if step (str_eq step.type_name "condition") _ _
            (decide_route-Leads s (evaluate w.python (context_of w r) step.condition) r)
            (Leads-if step (str_eq step.type_name "approval") _ _ tt (
              Leads-if step (str_eq step.type_name "analyst_input") _ _ tt (
                Leads-if step (str_eq step.type_name "delay") _ _ tt
                  (run_action-Leads s (find_action w step.action_key) r))))))
