-- ===== src/Soar/Examples/Graphs.antt =====
-- Tests of the graph of a playbook.
use threat_scope_xdr.Prelude.{
  ◌<◌, String, ◌≡◌, refl, ◌↔◌, true, false, Option, none, some, List, [], ◌∷◌, str_eq, length, All,
  elem,
}
use threat_scope_xdr.Soar.Validation.{Problem}
use threat_scope_xdr.Soar.Examples.Conditions.{test_python}
use threat_scope_xdr.Soar.Models.{Step, Configuration}
use threat_scope_xdr.Soar.Json.{nothing}
use threat_scope_xdr.Soar.Graph.{
  Playbook, find_step, is_key, adjacency, routes, reachable_keys, has_cycle, graph_problems,
}
use threat_scope_xdr.Soar.Graph.Walks.{at_start, along, targets}
use threat_scope_xdr.Soar.Graph.Reachable.{CanReach, reachable_keys_iff}
use threat_scope_xdr.Soar.Graph.Valid.{
  graph_problems_total, graph_problems-Walk, graph_problems-CanReach,
}

abbrev pub plain : Configuration
plain = record {
  outcome = "completed";
  minimum_approvals = 1;
  approval_type = "step";
  assigned_to_user_id = none;
  separation_required = false;
  expires_hours = 24;
  delay_seconds = 1;
  perform_harmless_local = false;
  requested_from_user_id = none;
  field_names = [];
  required_names = [];
}

abbrev pub step_to : String → Option String → Step
step_to name next = record {
  type_name = name;
  action_key = none;
  condition = nothing;
  configuration = plain;
  on_success = next;
  on_failure = none;
  on_timeout = none;
}

-- an action, an approval and the end
abbrev pub straight : Playbook
straight =
    ("load", step_to "action" (some "ask"))
    ∷ ("ask", step_to "approval" (some "stop"))
    ∷ ("stop", step_to "end" none)
    ∷ []

-- the same with a route back
abbrev round_trip : Playbook
round_trip =
    ("load", step_to "action" (some "ask"))
    ∷ ("ask", record (step_to "approval" (some "stop")) { on_failure = some "load" })
    ∷ ("stop", step_to "end" none)
    ∷ []

pub straight_is_valid : graph_problems test_python straight "load" ≡ some []
unfolding graph_problems
straight_is_valid = refl

round_trip-has_cycle : has_cycle round_trip "load" ≡ some true
unfolding has_cycle
round_trip-has_cycle = refl

straight_keys : reachable_keys straight "load" ≡ some ("stop" ∷ "ask" ∷ "load" ∷ [])
unfolding reachable_keys
straight_keys = refl

pub load_to_ask : elem "ask" (targets straight "load") ≡ true
unfolding targets adjacency is_key
load_to_ask = refl

load_is_key : is_key straight "load" ≡ true
unfolding is_key
load_is_key = refl

find_ask : find_step "ask" straight ≡ some (step_to "approval" (some "stop"))
unfolding find_step
find_ask = refl

reachable_keys_iff_example :
    (r : List String) × (reachable_keys straight "load" ≡ some r)
    × ((v : String) → (elem v r ≡ true) ↔ CanReach straight "load" v)
reachable_keys_iff_example = reachable_keys_iff straight "load" load_is_key

graph_problems_total_example :
    (es : List Problem) × (graph_problems test_python round_trip "load" ≡ some es)
graph_problems_total_example = graph_problems_total test_python round_trip "load"

graph_problems-Walk_example : 1 < length straight
graph_problems-Walk_example =
    graph_problems-Walk test_python straight "load" straight_is_valid (along at_start load_to_ask)

graph_problems-CanReach_example :
    CanReach straight "load" "ask"
    × All
        (λ t. (is_key straight t ≡ true) × (str_eq t "ask" ≡ false))
        (routes (step_to "approval" (some "stop")))
graph_problems-CanReach_example =
    graph_problems-CanReach test_python straight "load" "ask" (step_to "approval" (some "stop"))
      straight_is_valid find_ask
