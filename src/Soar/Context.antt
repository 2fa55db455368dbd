-- ===== src/Soar/Context.antt =====
-- soar/service.py: _context.
use threat_scope_xdr.Prelude.{ℕ, String, Option, none, some, List, [], ◌∷◌, str_eq, if◌then◌else◌}
use threat_scope_xdr.Soar.Json.{Json, Entries, nothing, number, int, pos, str, dict, end, entry}
use threat_scope_xdr.Soar.Models.{Mode, dry_run, simulation, live_local, is_done, StepRun, Run}
use threat_scope_xdr.Soar.World.{World}

-- `{**fields, key: value}`
unfoldable pub put_entry : String → Json → Entries → Entries
put_entry key value end = entry key value end
put_entry key value (entry k v fs) =
    let rest = put_entry key value fs in if str_eq k key then entry k value fs else entry k v rest

unfoldable pub merge : Entries → Entries → Entries
unfolding put_entry
merge base end = base
merge base (entry k v fs) = merge (put_entry k v base) fs

abbrev id_or_none : Option ℕ → Json
id_or_none none = nothing
id_or_none (some n) = number (int (pos n))

mode_text : Mode → String
mode_text dry_run = "dry_run"
mode_text simulation = "simulation"
mode_text live_local = "live_local"

-- the outputs of the steps that are done, the latest one of a key
step_outputs : List StepRun → Entries → Entries
unfolding put_entry
step_outputs [] outputs = outputs
step_outputs (s ∷ ss) outputs = step_outputs ss (
    if is_done s.status
    then put_entry s.step_key (dict (entry "output" s.output_snapshot end)) outputs
    else outputs)

abbrev number_of : ℕ → Json
number_of n = number (int (pos n))

-- `_context`
unfoldable pub context_of : World → Run → Json
unfolding merge step_outputs mode_text
context_of w r = dict (
    merge
      (entry "trigger"
        (dict (
          merge
            (entry "source_type" (str r.execution.trigger_source_type)
              (entry "source_id" (id_or_none r.execution.trigger_source_id) end))
            r.execution.input_context))
        (entry "execution"
          (dict (
            entry "id" (number_of r.execution.id) (
              entry "uuid" (str r.execution.execution_uuid)
                (entry "mode" (str (mode_text r.execution.mode)) end))))
          (entry "playbook"
            (dict (
              entry "id" (number_of r.execution.playbook_id)
                (entry "version" (number_of r.execution.playbook_version) end)))
            (entry "steps" (dict (step_outputs r.step_runs end))
              (entry "analyst_input" (dict end) (entry "constants" (dict w.constants) end))))))
      r.execution.variable_state)
