-- ===== src/Soar/Executions/Allowed.antt =====
-- soar/service.py: which calls of an action's own code a whole call of run_execution makes.
use threat_scope_xdr.Prelude.{
  ℕ, zero, suc, String, ◌≡◌, refl, inl, inr, ◌&&◌, Option, none, some, List, ◌++◌, str_eq, ◌==◌,
  Bool-cases, Option-cases, any, All,
}
use threat_scope_xdr.Access.Models.{UserAccount}
use threat_scope_xdr.Soar.Graph.{Playbook, find_step}
use threat_scope_xdr.Soar.Models.{Step, StepRun, is_waiting, is_terminal, Run, Effect}
use threat_scope_xdr.Soar.World.{World, Answer, left_by, Turn, stop, go, throw, crash, log}
use threat_scope_xdr.Soar.StepRuns.{create_step, reuse_step, add_step, is_kept}
use threat_scope_xdr.Soar.StepTypes.Effects.{
  IsAllowed, Extends, Extends-same, Extends-trans, fail-Extends,
}
use threat_scope_xdr.Soar.StepTypes.Writes.{TurnExtends, TurnExtends-trans, TurnExtends-if}
use threat_scope_xdr.Soar.StepTypes.Calls.{run_step-Extends}
use threat_scope_xdr.Soar.Executions.{
  start_step, at_key, turn, exceeded, continue, loop, max_rounds, started, is_over, expire,
  run_execution,
}

module _ (w : World) (actor : UserAccount) where
  -- the run with a step's row is the run, but for the rows of steps
  abbrev Keeps : Run → Option (StepRun × Run) → Type 0
  Keeps r none = Unit {0}
  Keeps r (some (s, r')) = Extends w actor r r'

  add_step-Keeps : (s : StepRun) (r : Run) → Keeps r (add_step s r)
  add_step-Keeps s r =
      elim (Bool-cases (
        any
          (λ t. str_eq t.idempotency_key s.idempotency_key && t.attempt_number == s.attempt_number)
          r.step_runs)) [ inl t ↦ rw t tt | inr f ↦ rw f (Extends-same w actor r _ refl refl refl) ]

  reuse_step-Keeps :
      (r : Run) (key : String) (step : Step) (idem : String) (o : Option StepRun)
      → Keeps r (reuse_step w r key step idem o)
  unfolding reuse_step
  reuse_step-Keeps r key step idem none = add_step-Keeps _ r
  reuse_step-Keeps r key step idem (some s) = elim (Bool-cases (is_kept s.status)) [
    | inl t ↦ rw t (Extends-same w actor r r refl refl refl)
    | inr f ↦ rw f (add_step-Keeps _ r)
  ]

  create_step-Keeps : (r : Run) (key : String) (step : Step) → Keeps r (create_step w r key step)
  unfolding create_step
  create_step-Keeps r key step = reuse_step-Keeps r key step _ _

  start_step-Extends :
      (step : Step) (o : Option (StepRun × Run)) (r : Run)
      → Keeps r o
      → TurnExtends w actor r (start_step w actor step o)
  unfolding start_step
  start_step-Extends step none r x = tt
  start_step-Extends step (some (s, r')) r x =
      TurnExtends-if w actor r (is_waiting s.status) _ _ (λ h. x)
        λ h. TurnExtends-trans w actor r r' _ x (run_step-Extends w actor step s r')

  at_key-Extends :
      (key : String) (o : Option Step) (r : Run) → TurnExtends w actor r (at_key w actor key o r)
  unfolding at_key
  at_key-Extends key none r = fail-Extends w actor actor.id _ _ r
  at_key-Extends key (some step) r =
      start_step-Extends step (create_step w r key step) r (create_step-Keeps r key step)

  module _ (by_key : Playbook) where
    turn-Extends : (key : String) (r : Run) → TurnExtends w actor r (turn w by_key actor key r)
    unfolding turn
    turn-Extends key r = at_key-Extends key (find_step key by_key) r

    continue-Extends :
        (again : Run → Answer) (first_saved saved live : Run) (t : Turn)
        → Extends w actor first_saved saved
        → Extends w actor first_saved live
        → TurnExtends w actor live t
        → ((r : Run)
            → Extends w actor first_saved r
            → Extends w actor first_saved (left_by (again r)))
        → Extends w actor first_saved (left_by (continue w actor again saved t))
    unfolding continue
    continue-Extends again r0 saved live (stop r) x y z next = Extends-trans w actor r0 live r y z
    continue-Extends again r0 saved live (go r) x y z next =
        next r (Extends-trans w actor r0 live r y z)
    continue-Extends again r0 saved live (throw code message) x y z next = x
    continue-Extends again r0 saved live (crash message) x y z next =
        Extends-trans w actor r0 saved _ x (fail-Extends w actor actor.id _ _ saved)

    exceeded-Extends :
        (r0 r : Run) → Extends w actor r0 r → Extends w actor r0 (exceeded w actor.id r)
    unfolding exceeded
    exceeded-Extends r0 r x = Extends-trans w actor r0 r _ x (fail-Extends w actor actor.id _ _ r)

    loop-Extends :
        (rounds : ℕ) (r0 saved live : Run)
        → Extends w actor r0 saved
        → Extends w actor r0 live
        → Extends w actor r0 (left_by (loop w by_key actor rounds saved live))
    unfolding loop
    loop-Extends zero r0 saved live x y = exceeded-Extends r0 live y
    loop-Extends (suc n) r0 saved live x y = elim (Option-cases live.execution.current_step_key) [
      | inl e ↦ rw (e, loop) (exceeded-Extends r0 live y)
      | inr (key, e) ↦
          rw (e, loop)
            (continue-Extends (λ r. loop w by_key actor n r r) r0 saved live
              (turn w by_key actor key live) x y (turn-Extends key live)
              (λ r z. loop-Extends n r0 r r z z))
    ]

    pub run_execution-Extends :
        (r : Run) → Extends w actor r (left_by (run_execution w by_key actor r))
    unfolding run_execution started expire log
    run_execution-Extends r = elim (Bool-cases (is_terminal r.execution.status)) [
      | inl t ↦ rw t (Extends-same w actor r r refl refl refl)
      | inr open_still ↦ elim (Bool-cases (is_over w.now r.execution.expires_at)) [
        | inl late ↦ rw (open_still, late) (Extends-same w actor r _ refl refl refl)
        | inr early ↦
            rw (open_still, early)
              (loop-Extends max_rounds r r (started w actor.id r)
                (Extends-same w actor r r refl refl refl) (Extends-same w actor r _ refl refl refl))
      ]
    ]

    -- A call of run_execution, however it ends, adds only calls of actions that are enabled by
    -- policy, allowed in the mode of the execution and permitted to the user, that are no
    -- simulations, that run outside dry runs, and, if they are sensitive, that follow an approved
    -- approval of their step.
    pub run_execution-IsAllowed :
        (r : Run)
        → (added : List Effect) × ((left_by (run_execution w by_key actor r)).effects
            ≡ r.effects ++ added)
          × All (IsAllowed w actor (left_by (run_execution w by_key actor r)).approvals) added
    run_execution-IsAllowed r =
        let x = run_execution-Extends r in (x.added, x.effects_lem, x.allowed)
