-- ===== src/Soar/Executions.antt =====
-- soar/service.py: run_execution.
pub mod Allowed
pub mod Limit
use threat_scope_xdr.Prelude.{
  ℕ, zero, suc, ◌+◌, ◌-◌, ◌*◌, ◌/◌, ◌%◌, ◌≤◌, ◌<◌, min, max, String, ◌≡◌, refl, sym, ap, ◌∙◌, ◌≢◌,
  ◌↔◌, ◌⊎◌, inl, inr, Bool, true, false, not, ◌&&◌, ◌||◌, Option, none, some, List, [], ◌∷◌, ◌++◌,
  map, arith, str_eq, starts_with, eq_iff, eq_refl, ltb, leb, ◌==◌, if◌then◌else◌, is_some,
  Bool-cases, Option-cases, length, select, first, count_where, delete_where, update_where, any,
  all, All, next_id, count_where-append, first-test, count_where-delete_where, count_where_mono,
  first-update_where_ne, count_where-update_where_ne, contains, ends_with, nonempty, elem, take,
  rstrip_slash, strip, join_words, is_space, concat, opt_eq, show, ==_iff, opt_eq-eq, count, unique,
  sorted, any-append, any-delete_where, any-delete_where_self, any-select, any_mono, length-append,
  count_where_pos, first-update_where, count_where-update_where_self,
}
use threat_scope_xdr.Access.Models.{Moment, UserAccount, hours, seconds}
use threat_scope_xdr.Access.Store.{Tables}
use threat_scope_xdr.Access.Roles.{effective_permissions}
use threat_scope_xdr.Soar.Json.{
  Json, Entries, Python, nothing, number, int, pos, str, dict, end, entry,
}
use threat_scope_xdr.Soar.Conditions.{Outcome, returned, raised, evaluate, ConditionResult}
use threat_scope_xdr.Soar.Graph.{Playbook, find_step}
use threat_scope_xdr.Soar.Models.{
  Configuration, Step, Mode, dry_run, simulation, live_local, same_mode, Safety, sensitive_local,
  is_sensitive, is_read_only, ActionDefinition, ActionPolicy, Status, is_terminal, Execution,
  StepStatus, is_waiting, is_done, is_approved_step, is_failed, is_running, StepRun, ApprovalStatus,
  is_approved, Approval, AnalystInput, InputStatus, Event, Effect, Run,
}
use threat_scope_xdr.Soar.World.{
  Performed, replied, denied, broke, World, Answer, done, refused, left_by, Turn, stop, go, throw,
  crash, with_status, log, set_step,
}
use threat_scope_xdr.Soar.StepRuns.{
  latest_attempt, is_kept, create_step, fail, new_approval, pending_approval, clamp, last_running,
}
use threat_scope_xdr.Soar.StepTypes.{
  complete_step, finish, ask_analyst, start_delay, dispatch, run_step,
}

unfoldable pub start_step : World → UserAccount → Step → Option (StepRun × Run) → Turn
unfolding run_step
start_step w actor step none = throw 500 "IntegrityError"
start_step w actor step (some (s, r)) =
    if is_waiting s.status then stop r else run_step w actor step s r

unfoldable pub at_key : World → UserAccount → String → Option Step → Run → Turn
unfolding fail start_step create_step
at_key w actor key none r =
    stop (fail w actor.id "SOAR_PLAYBOOK_INVALID" "Current step is unavailable" r)
at_key w actor key (some step) r = start_step w actor step (create_step w r key step)

-- one round of the loop
unfoldable pub turn : World → Playbook → UserAccount → String → Run → Turn
unfolding at_key find_step
turn w by_key actor key r = at_key w actor key (find_step key by_key) r

-- the limit is reached, or there is no current step
unfoldable pub exceeded : World → ℕ → Run → Run
unfolding fail
exceeded w actor_id r =
    fail w actor_id "SOAR_PLAYBOOK_INVALID" "Execution exceeded the bounded 50-step dispatch limit"
      r

-- after a round: `saved` is what was committed before it
unfoldable pub continue : World → UserAccount → (Run → Answer) → Run → Turn → Answer
unfolding fail
continue w actor again saved (stop r) = done r
continue w actor again saved (go r) = again r
continue w actor again saved (throw code message) = refused code message saved
continue w actor again saved (crash message) =
    done (fail w actor.id "SOAR_STEP_FAILED" message saved)

-- the `while` loop, with the rounds that are left
unfoldable pub loop : World → Playbook → UserAccount → ℕ → Run → Run → Answer
unfolding exceeded continue turn
loop w by_key actor zero saved live = done (exceeded w actor.id live)
loop w by_key actor (suc rounds) saved live = elim live.execution.current_step_key [
  | none ↦ done (exceeded w actor.id live)
  | some key ↦
      continue w actor (λ r. loop w by_key actor rounds r r) saved (turn w by_key actor key live)
]

abbrev pub max_rounds : ℕ
max_rounds = 50

was_waiting : Status → Bool
was_waiting Status.waiting_approval = true
was_waiting Status.waiting_input = true
was_waiting Status.waiting_delay = true
was_waiting _ = false

abbrev or_now : Moment → Option Moment → Option Moment
or_now now none = some now
or_now now (some m) = some m

unfoldable pub started : World → ℕ → Run → Run
unfolding was_waiting log
started w actor_id r =
    log (if was_waiting r.execution.status then "execution_resumed" else "execution_started")
      actor_id none
      (record r {
        execution = record r.execution {
          status = Status.running;
          started_at = or_now w.now r.execution.started_at;
        };
      })

abbrev pub is_over : Moment → Option Moment → Bool
is_over now none = false
is_over now (some m) = leb m now

-- an execution whose time is over
unfoldable pub expire : World → ℕ → Run → Run
unfolding log
expire w actor_id r = log "execution_expired" actor_id none (record r {
  execution = record r.execution { status = Status.expired; completed_at = some w.now };
})

unfoldable pub run_execution : World → Playbook → UserAccount → Run → Answer
unfolding loop started expire
run_execution w by_key actor r =
    if is_terminal r.execution.status
    then refused 409 "Terminal execution cannot resume" r
    else if is_over w.now r.execution.expires_at
    then done (expire w actor.id r)
    else loop w by_key actor max_rounds r (started w actor.id r)
