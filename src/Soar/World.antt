-- ===== src/Soar/World.antt =====
-- soar/service.py: what a call of the engine is given, how it ends, and its small writes.
use threat_scope_xdr.Prelude.{ℕ, String, Option, List, [], ◌∷◌, ◌++◌, ◌==◌, update_where}
use threat_scope_xdr.Access.Models.{Moment}
use threat_scope_xdr.Access.Store.{Tables}
use threat_scope_xdr.Soar.Json.{Json, Entries, Python}
use threat_scope_xdr.Soar.Models.{
  Configuration, ActionDefinition, ActionPolicy, Status, StepRun, Effect, Run,
}

-- what the part of `_dispatch` that changes other modules' records does: the output and the
-- variables that it leaves, an HTTPException, or any other exception
pub data Performed : Type 0 where
  replied : Json → Entries → Performed
  denied : ℕ → String → Performed
  broke : String → Performed

-- The instant of the call, the tables of access control, the catalogue and the policies of
-- actions, the playbook's constants, and what is not modelled: SHA-256, Python's tables, the
-- contexts that actions read and the changes that they make.
pub record World : Type 0 where
  pub now : Moment
  pub tables : Tables
  pub catalog : String → Option ActionDefinition
  pub policies : List ActionPolicy
  pub constants : Entries
  pub sha256 : String → String
  pub python : Python
  pub read_context : String → Configuration → Run → Json
  pub perform : Effect → Configuration → Run → Performed

-- How a call ends: it returns, with the run committed; or it raises, and the run is what was
-- committed before.
pub data Answer : Type 0 where
  done : Run → Answer
  refused : ℕ → String → Run → Answer

-- the run that the database holds after the call
abbrev pub left_by : Answer → Run
left_by (done r) = r
left_by (refused code message r) = r

-- How a round of the loop ends: the call returns, the loop goes on, or an exception leaves it.
pub data Turn : Type 0 where
  stop go : Run → Turn
  throw : ℕ → String → Turn
  crash : String → Turn

abbrev pub with_status : Status → Run → Run
with_status s r = record r { execution = record r.execution { status = s } }

unfoldable pub log : String → ℕ → Option ℕ → Run → Run
log event_type actor_id step_id r = record r {
  events =
      r.events
      ++ record { event_type = event_type; actor_user_id = actor_id; step_execution_id = step_id }
        ∷ [];
}

abbrev pub set_step : ℕ → (StepRun → StepRun) → Run → Run
set_step id f r = record r { step_runs = update_where (λ s. s.id == id) f r.step_runs }
