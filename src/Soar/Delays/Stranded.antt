-- ===== src/Soar/Delays/Stranded.antt =====
-- soar/service.py: resuming by hand an execution that waits.
use threat_scope_xdr.Prelude.{ℕ, suc, String, ◌≡◌, refl, true, false, some}
use threat_scope_xdr.Access.Models.{UserAccount}
use threat_scope_xdr.Soar.Graph.{Playbook, find_step}
use threat_scope_xdr.Soar.Models.{Step, Status, is_terminal, is_waiting, StepRun, Run}
use threat_scope_xdr.Soar.World.{World, done, left_by, stop, log}
use threat_scope_xdr.Soar.StepRuns.{create_step}
use threat_scope_xdr.Soar.Executions.{
  start_step, at_key, turn, continue, loop, started, is_over, run_execution,
}
use threat_scope_xdr.Soar.Delays.{is_due, resume_due}

loop-stop :
    (w : World) (by_key : Playbook) (actor : UserAccount) (n : ℕ) (saved live r : Run)
    (key : String)
    → live.execution.current_step_key ≡ some key
    → turn w by_key actor key live ≡ stop r
    → loop w by_key actor (suc n) saved live ≡ done r
unfolding loop continue
loop-stop w by_key actor n saved live r key e t = rw (e, loop) (rw t refl)

module _ (w : World) (by_key : Playbook) (actor : UserAccount) (r : Run) (key : String)
    (step : Step) (s : StepRun) (open_still : is_terminal r.execution.status ≡ false)
    (in_time : is_over w.now r.execution.expires_at ≡ false)
    (at : r.execution.current_step_key ≡ some key) (known : find_step key by_key ≡ some step)
    (row : create_step w (started w actor.id r) key step ≡ some (s, started w actor.id r))
    (waits : is_waiting s.status ≡ true) where
  turn-stop : turn w by_key actor key (started w actor.id r) ≡ stop (started w actor.id r)
  unfolding turn at_key start_step
  turn-stop = rw (known, turn) (rw (row, waits) refl)

  at_started : (started w actor.id r).execution.current_step_key ≡ some key
  unfolding started log
  at_started = at

  run_execution-stop : run_execution w by_key actor r ≡ done (started w actor.id r)
  unfolding run_execution
  run_execution-stop =
      rw (open_still, in_time)
        (loop-stop w by_key actor 49 r (started w actor.id r) (started w actor.id r) key at_started
          turn-stop)

  -- Resuming by hand an execution that waits at its current step only sets its status to running,
  -- and from then on no processing of due delays goes on with it.
  pub resume_strands :
      (later : World) (other : UserAccount)
      → ((left_by (run_execution w by_key actor r)).execution.status ≡ Status.running)
        × (resume_due later by_key other (left_by (run_execution w by_key actor r))
            ≡ done (left_by (run_execution w by_key actor r)))
  unfolding resume_due is_due started log
  resume_strands later other = rw run_execution-stop (refl, refl)
