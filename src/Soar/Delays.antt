-- ===== src/Soar/Delays.antt =====
-- soar/service.py: process_due, for each execution that it looks at.
pub mod Stranded
use threat_scope_xdr.Prelude.{
  ℕ, zero, suc, ◌+◌, ◌-◌, ◌*◌, ◌/◌, ◌%◌, ◌≤◌, ◌<◌, min, max, String, ◌≡◌, refl, sym, ap, ◌∙◌, ◌≢◌,
  ◌↔◌, ◌⊎◌, inl, inr, Bool, true, false, not, ◌&&◌, ◌||◌, Option, none, some, List, [], ◌∷◌, ◌++◌,
  map, arith, str_eq, starts_with, eq_iff, eq_refl, ltb, leb, ◌==◌, if◌then◌else◌, is_some,
  Bool-cases, Option-cases, length, select, first, count_where, delete_where, update_where, any,
  all, All, next_id, count_where-append, first-test, count_where-delete_where, count_where_mono,
  first-update_where_ne, count_where-update_where_ne, contains, ends_with, nonempty, elem, take,
  rstrip_slash, strip, join_words, is_space, concat, opt_eq, show, ==_iff, opt_eq-eq, count, unique,
  sorted, any-append, any-delete_where, any-delete_where_self, any-select, any_mono, length-append,
  count_where_pos, first-update_where, count_where-update_where_self,
}
use threat_scope_xdr.Access.Models.{Moment, UserAccount}
use threat_scope_xdr.Soar.Json.{str, dict, end, entry}
use threat_scope_xdr.Soar.Graph.{Playbook, find_step}
use threat_scope_xdr.Soar.Models.{Status, is_terminal, StepStatus, StepRun, Run, Execution}
use threat_scope_xdr.Soar.World.{World, Answer, done, refused, log, set_step}
use threat_scope_xdr.Soar.Executions.{is_over, expire, run_execution}

abbrev pub is_waiting_delay : Status → Bool
is_waiting_delay Status.waiting_delay = true
is_waiting_delay _ = false

abbrev is_delayed : StepStatus → Bool
is_delayed StepStatus.waiting_delay = true
is_delayed _ = false

-- the query for the delays that are over
unfoldable pub is_due : World → Run → Bool
is_due w r = is_waiting_delay r.execution.status && is_over w.now r.execution.next_resume_at

-- the latest row of the current step that waits
last_delayed : String → List StepRun → Option StepRun
last_delayed key [] = none
last_delayed key (s ∷ ss) = elim (last_delayed key ss) [
  | none ↦ (if str_eq s.step_key key && is_delayed s.status then some s else none)
  | some t ↦ some t
]

delayed_step : Run → Option StepRun
unfolding last_delayed
delayed_step r = elim r.execution.current_step_key [
  | none ↦ none
  | some key ↦ last_delayed key r.step_runs
]

unfoldable pub end_delay : World → Playbook → ℕ → StepRun → Run → Run
unfolding log find_step
end_delay w by_key actor_id s r = log "delay_completed" actor_id (some s.id) (
    set_step s.id
      (λ t. record t {
        status = StepStatus.succeeded;
        completed_at = some w.now;
        output_snapshot = dict (
            entry "status" (str "delay_completed")
              (entry "summary" (str "Persistent delay became due") end));
      })
      (record r {
        execution = record r.execution {
          current_step_key = elim (find_step s.step_key by_key) [
            | none ↦ none
            | some step ↦ step.on_success
          ];
          next_resume_at = none;
          status = Status.queued;
        };
      }))

-- the first loop
unfoldable pub resume_due : World → Playbook → UserAccount → Run → Answer
unfolding is_due delayed_step end_delay run_execution
resume_due w by_key actor r =
    if is_due w r
    then elim (delayed_step r) [
      | none ↦ done r
      | some s ↦ run_execution w by_key actor (end_delay w by_key actor.id s r)
    ]
    else done r

-- the second loop
unfoldable pub expire_due : World → ℕ → Run → Run
unfolding expire
expire_due w actor_id r =
    if not (is_terminal r.execution.status) && is_over w.now r.execution.expires_at
    then expire w actor_id r
    else r
