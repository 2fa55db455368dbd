-- ===== src/Soar/StepTypes/Writes.antt =====
-- soar/service.py: the writes of a step, against the calls of an action's own code.
use threat_scope_xdr.Prelude.{
  String, ◌≡◌, refl, sym, inl, inr, Bool, true, false, Option, none, some, [], ◌∷◌, arith, ◌==◌,
  if◌then◌else◌, Bool-cases, Option-cases, any,
}
use mathlib.Core.List.{append-nil}
use threat_scope_xdr.Access.Models.{UserAccount}
use threat_scope_xdr.Soar.Json.{Json}
use threat_scope_xdr.Soar.Models.{Configuration, StepStatus, StepRun, Approval, Effect, Run}
use threat_scope_xdr.Soar.World.{
  Performed, replied, denied, broke, World, Turn, stop, go, throw, crash, log,
}
use threat_scope_xdr.Soar.StepRuns.{
  new_approval, request_approval, pending_approval, latest_approval,
}
use threat_scope_xdr.Soar.StepTypes.{
  complete_step, finish, ask_analyst, start_delay, Dispatched, answered, denied_with, broken,
  record_effect,
}
use threat_scope_xdr.Soar.StepTypes.Effects.{
  IsFresh, IsAllowed, Extends, Extends-same, Extends-trans,
}

module _ (w : World) (actor : UserAccount) where
  pub finish-Extends : (s : StepRun) (r : Run) → Extends w actor r (finish w actor.id s r)
  unfolding finish
  finish-Extends s r = Extends-same w actor r (finish w actor.id s r) refl refl refl

  pub start_delay-Extends :
      (s : StepRun) (c : Configuration) (r : Run) → Extends w actor r (start_delay w actor.id s c r)
  unfolding start_delay
  start_delay-Extends s c r = Extends-same w actor r (start_delay w actor.id s c r) refl refl refl

  pub ask_analyst-Extends :
      (s : StepRun) (c : Configuration) (r : Run) → Extends w actor r (ask_analyst w actor.id s c r)
  unfolding ask_analyst
  ask_analyst-Extends s c r = elim (Bool-cases (any (λ i. i.step_execution_id == s.id) r.inputs)) [
    | inl t ↦
        Extends-same w actor r (ask_analyst w actor.id s c r) (rw t refl) (rw t refl) (rw t refl)
    | inr f ↦
        Extends-same w actor r (ask_analyst w actor.id s c r) (rw f refl) (rw f refl) (rw f refl)
  ]

  pub new_approval-IsFresh :
      (r : Run) (s : StepRun) (c : Configuration) (sensitive : Bool) (kind : String)
      → IsFresh r.approvals (new_approval w actor r s c sensitive kind)
  unfolding new_approval
  new_approval-IsFresh r s c sensitive kind = (refl, omega arith)

  pub request_approval-Extends :
      (r : Run) (s : StepRun) (a : Approval)
      → IsFresh r.approvals a
      → Extends w actor r (request_approval w actor r s a)
  unfolding request_approval log
  request_approval-Extends r s a fresh_one = record {
    added = [];
    effects_lem = sym (append-nil r.effects);
    allowed = tt;
    more = a ∷ [];
    approvals_lem = refl;
    fresh = (fresh_one, tt);
    decisions_lem = refl;
  }

  pub pending_approval-Extends :
      (r : Run) (s : StepRun) (c : Configuration) (sensitive : Bool) (kind : String)
      → Extends w actor r (pending_approval w actor r s c sensitive kind).1
  unfolding pending_approval
  pending_approval-Extends r s c sensitive kind =
      elim (Option-cases (latest_approval s.id r.approvals)) [
        | inl e ↦
            rw (e, pending_approval)
              (request_approval-Extends r s (new_approval w actor r s c sensitive kind)
                (new_approval-IsFresh r s c sensitive kind))
        | inr (a, e) ↦ rw (e, pending_approval) (Extends-same w actor r r refl refl refl)
      ]

  -- How a round may end.
  abbrev pub TurnExtends : Run → Turn → Type 0
  TurnExtends r (stop r') = Extends w actor r r'
  TurnExtends r (go r') = Extends w actor r r'
  TurnExtends r (throw code message) = Unit {0}
  TurnExtends r (crash message) = Unit {0}

  pub complete_step-Extends :
      (s : StepRun) (status : StepStatus) (value : Json) (route : Option String) (r r' : Run)
      → Extends w actor r r'
      → TurnExtends r (complete_step w actor.id s status value route r')
  unfolding complete_step log
  complete_step-Extends s status value none r r' x =
      Extends-trans w actor r r' _ x (Extends-same w actor r' _ refl refl refl)
  complete_step-Extends s status value (some next) r r' x =
      Extends-trans w actor r r' _ x (Extends-same w actor r' _ refl refl refl)

  -- What `_dispatch` may give for an action that passed the tests.
  abbrev pub DispatchExtends : Run → Dispatched → Type 0
  DispatchExtends r (answered value r') = Extends w actor r r'
  DispatchExtends r (denied_with code message) = Unit {0}
  DispatchExtends r (broken message) = Unit {0}

  pub record_effect-Extends :
      (e : Effect) (p : Performed) (r : Run)
      → IsAllowed w actor r.approvals e
      → DispatchExtends r (record_effect e p r)
  record_effect-Extends e (replied value variables) r ok = record {
    added = e ∷ [];
    effects_lem = refl;
    allowed = (ok, tt);
    more = [];
    approvals_lem = sym (append-nil r.approvals);
    fresh = tt;
    decisions_lem = refl;
  }
  record_effect-Extends e (denied code message) r ok = tt
  record_effect-Extends e (broke message) r ok = tt

  pub DispatchExtends-if :
      (r : Run) (b : Bool) (d e : Dispatched)
      → (b ≡ true → DispatchExtends r d)
      → (b ≡ false → DispatchExtends r e)
      → DispatchExtends r (if b then d else e)
  DispatchExtends-if r true d e h k = h refl
  DispatchExtends-if r false d e h k = k refl

  pub TurnExtends-if :
      (r : Run) (b : Bool) (t u : Turn)
      → (b ≡ true → TurnExtends r t)
      → (b ≡ false → TurnExtends r u)
      → TurnExtends r (if b then t else u)
  TurnExtends-if r true t u h k = h refl
  TurnExtends-if r false t u h k = k refl

  pub TurnExtends-trans :
      (r r' : Run) (t : Turn) → Extends w actor r r' → TurnExtends r' t → TurnExtends r t
  TurnExtends-trans r r' (stop r'') x y = Extends-trans w actor r r' r'' x y
  TurnExtends-trans r r' (go r'') x y = Extends-trans w actor r r' r'' x y
  TurnExtends-trans r r' (throw code message) x y = tt
  TurnExtends-trans r r' (crash message) x y = tt
