-- ===== src/Soar/Executions/Limit.antt =====
-- soar/service.py with soar/validation.py: the limit of 50 steps of run_execution.
use threat_scope_xdr.Prelude.{
  ℕ, zero, suc, ◌+◌, ◌≤◌, String, ◌≡◌, refl, inl, inr, true, false, Option, none, some, [], arith,
  str_eq, Option-cases, length, elem,
}
use threat_scope_xdr.Access.Models.{UserAccount}
use threat_scope_xdr.Soar.Json.{Python}
use threat_scope_xdr.Soar.Graph.{Playbook, find_step, is_key, routes, adjacency, graph_problems}
use threat_scope_xdr.Soar.Graph.Walks.{Walk, along, targets, All-elem}
use threat_scope_xdr.Soar.Graph.Valid.{graph_problems-Walk, graph_problems-CanReach}
use threat_scope_xdr.Soar.Models.{Step, StepRun, is_waiting, Run}
use threat_scope_xdr.Soar.World.{World, Answer, Turn, stop, go, throw, crash}
use threat_scope_xdr.Soar.StepRuns.{create_step}
use threat_scope_xdr.Soar.Executions.{start_step, at_key, turn, continue, loop, max_rounds}
use threat_scope_xdr.Soar.StepTypes.Routes.{Leads, Leads-if, elem-select_intro, run_step-Leads}

module _ (w : World) (actor : UserAccount) (step : Step) where
  start_step-Leads : (o : Option (StepRun × Run)) → Leads step (start_step w actor step o)
  unfolding start_step
  start_step-Leads none = tt
  start_step-Leads (some (s, r)) =
      Leads-if step (is_waiting s.status) _ _ tt (run_step-Leads w actor step s r)

module _ (w : World) (actor : UserAccount) (by_key : Playbook) where
  turn-Leads :
      (key : String) (step : Step) (r : Run)
      → find_step key by_key ≡ some step
      → Leads step (turn w by_key actor key r)
  unfolding turn at_key
  turn-Leads key step r e = rw (e, turn) (start_step-Leads w actor step (create_step w r key step))

  module _ (py : Python) (start : String) (valid : graph_problems py by_key start ≡ some []) where
    onwards :
        (key v : String) (step : Step)
        → find_step key by_key ≡ some step
        → elem v (routes step) ≡ true
        → elem v (targets by_key key) ≡ true
    unfolding targets adjacency
    onwards key v step e h =
        let known = (graph_problems-CanReach py by_key start key step valid e).1 in
        rw e (
          elem-select_intro (is_key by_key) v (routes step) h
            (All-elem (λ t. (is_key by_key t ≡ true) × (str_eq t key ≡ false)) v (routes step) known
              h).0)

    same_answer :
        (again other : Run → Answer) (saved : Run) (step : Step) (t : Turn)
        → Leads step t
        → ((r : Run) (v : String)
            → r.execution.current_step_key ≡ some v
            → elem v (routes step) ≡ true
            → again r ≡ other r)
        → continue w actor again saved t ≡ continue w actor other saved t
    unfolding continue
    same_answer again other saved step (stop r) h k = refl
    same_answer again other saved step (go r) (v, e, h) k = k r v e h
    same_answer again other saved step (throw code message) h k = refl
    same_answer again other saved step (crash message) h k = refl

    no_step :
        (again other : Run → Answer) (saved r : Run) (key : String)
        → find_step key by_key ≡ none
        → continue w actor again saved (turn w by_key actor key r)
          ≡ continue w actor other saved (turn w by_key actor key r)
    unfolding turn at_key continue
    no_step again other saved r key e = rw (e, turn) refl

    loop_same :
        (f g : ℕ) (saved live : Run) {u : String} {n : ℕ}
        → Walk by_key start u n
        → live.execution.current_step_key ≡ some u
        → length by_key ≤ n + f
        → length by_key ≤ n + g
        → loop w by_key actor f saved live ≡ loop w by_key actor g saved live
    unfolding loop
    loop_same zero g saved live walk e le le' =
        absurd (omega (arith, graph_problems-Walk py by_key start valid walk))
    loop_same (suc f) zero saved live walk e le le' =
        absurd (omega (arith, graph_problems-Walk py by_key start valid walk))
    loop_same (suc f) (suc g) saved live {u} {n} walk e le le' =
        elim (Option-cases (find_step u by_key)) [
          | inl missing ↦
              rw (e, loop)
                (no_step (λ r. loop w by_key actor f r r) (λ r. loop w by_key actor g r r) saved
                  live u missing)
          | inr (step, here) ↦
              rw (e, loop)
                (same_answer (λ r. loop w by_key actor f r r) (λ r. loop w by_key actor g r r) saved
                  step (turn w by_key actor u live) (turn-Leads u step live here)
                  λ r v at_v h.
                    loop_same f g r r (along walk (onwards u v step here h)) at_v (omega arith)
                      (omega arith))
        ]

    -- In a valid playbook of at most 50 steps the limit of 50 rounds is never felt: an execution
    -- that stands at a step which a walk from the start leads to ends as it would with any limit
    -- that is not below the number of steps.
    pub loop_limit :
        (limit : ℕ) (saved live : Run) {u : String} {n : ℕ}
        → length by_key ≤ max_rounds
        → length by_key ≤ limit
        → Walk by_key start u n
        → live.execution.current_step_key ≡ some u
        → loop w by_key actor limit saved live ≡ loop w by_key actor max_rounds saved live
    loop_limit limit saved live le le' walk e =
        loop_same limit max_rounds saved live walk e (omega arith) (omega arith)
