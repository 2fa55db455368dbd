-- ===== src/Access/Operations.antt =====
-- access_control/dependencies.py: the names of the operations on integrations.
use threat_scope_xdr.Prelude.{
  String, ◌≡◌, refl, ◌&&◌, Option, List, [], ◌∷◌, str_eq, starts_with, ◌==◌, if◌then◌else◌, select,
  first, nonempty, elem, concat,
}
use threat_scope_xdr.Access.Store.{Env}
use Prim.Native.Char.{code}
use Prim.Native.String.{len, slice}

-- `word + path.split("/")`: the parts, the first with `word` in front
split_from : String → String → List String
unfolding concat
split_from word String.[] = word ∷ []
split_from word (String.◌∷◌ c s) =
    let longer = split_from (concat word (String.◌∷◌ c "")) s in
    let next = split_from "" s in if code c == b'/' then word ∷ next else longer

-- `path.split("/")`
unfoldable pub split_slash : String → List String
unfolding split_from
split_slash path = split_from "" path

-- `[p for p in path.split("/") if p]`
unfoldable pub path_parts : String → List String
unfolding split_slash
path_parts path = select nonempty (split_slash path)

-- `path.removeprefix("/api/integrations")`
unfoldable pub integration_suffix : String → String
integration_suffix path =
    if starts_with path "/api/integrations" then slice path 17 (len path) else path

path_parts_test :
    path_parts (integration_suffix "/api/integrations/connectors/12//test/")
    ≡ "connectors" ∷ "12" ∷ "test" ∷ []
unfolding path_parts integration_suffix
path_parts_test = refl

-- the verb of an operation; `method` is in upper case
abbrev pub verb : Env → String → String
verb env method =
    if str_eq method "POST"
    then "create"
    else if str_eq method "PATCH"
    then "update"
    else if str_eq method "DELETE"
    then "delete"
    else env.lower method

-- the tokens of the dictionary `actions`, with their actions, in its order
abbrev pub connector_actions : List (String × String)
connector_actions =
    ("move-to-testing", "connector_move_to_testing")
    ∷ ("activate", "connector_activate")
    ∷ ("disable", "connector_disable")
    ∷ ("archive", "connector_archive")
    ∷ ("validate", "configuration_validate")
    ∷ ("test", "connector_test")
    ∷ ("send-test", "connector_test_send")
    ∷ ("reset-circuit", "circuit_reset")
    ∷ []

-- the loop over `actions`
abbrev pub first_action : List (String × String) → List String → String → String
first_action [] parts otherwise = otherwise
first_action ((token, action) ∷ actions) parts otherwise =
    let rest = first_action actions parts otherwise in if elem token parts then action else rest

-- the branch of `_integration_operation` for connectors
unfoldable pub connector_operation : Env → String → List String → String
connector_operation env method parts =
    if elem "credentials" parts
    then (if elem "rotate" parts
        then "credential_rotate"
        else if str_eq method "DELETE"
        then "credential_remove"
        else "credential_replace")
    else if elem "network-policy" parts
    then "network_policy_update"
    else if elem "taxii" parts && elem "pull" parts
    then "taxii_pull"
    else first_action connector_actions parts (
        if str_eq method "POST"
        then "connector_create"
        else if str_eq method "PATCH"
        then "connector_update"
        else concat "connector_" (env.lower method))

-- `root.replace('-', '_')`
unfoldable pub underscored : String → String
underscored String.[] = ""
underscored (String.◌∷◌ c s) =
    let rest = underscored s in String.◌∷◌ (if code c == b'-' then "_" else c) rest

-- the branches of `_integration_operation`, by the first part of the path
unfoldable pub operation_name : Env → String → String → List String → String
unfolding connector_operation
operation_name env method root parts =
    if str_eq root "connectors"
    then connector_operation env method parts
    else if str_eq root "subscriptions"
    then concat "subscription_" (verb env method)
    else if str_eq root "mappings"
    then (if elem "validate" parts
        then "mapping_validate"
        else if elem "preview" parts
        then "mapping_preview"
        else concat "mapping_" (verb env method))
    else if str_eq root "deliveries"
    then (if elem "retry" parts
        then "delivery_manual_retry"
        else if elem "cancel" parts
        then "delivery_cancel"
        else "delivery_queue")
    else if str_eq root "dead-letters"
    then (if elem "replay" parts then "dead_letter_replay" else "dead_letter_cancel")
    else if str_eq root "inbound-endpoints"
    then (if elem "rotate-secret" parts
        then "inbound_secret_rotate"
        else if elem "disable" parts
        then "inbound_endpoint_disable"
        else concat "inbound_endpoint_" (verb env method))
    else if str_eq root "inbound-events"
    then (if elem "promote" parts then "inbound_promote" else "inbound_reject")
    else if str_eq root "stix"
    then (if elem "preview" parts then "stix_preview" else "stix_promote")
    else if str_eq root "reports"
    then (if elem "download" parts then "report_export" else "report_generation")
    else if str_eq root "process-due"
    then "delivery_process_due"
    else concat (underscored root) (concat "_" (env.lower method))

abbrev pub first_or : String → List String → String
first_or k [] = k
first_or k (j ∷ ks) = j

unfoldable pub integration_operation : Env → String → String → String × Option String
unfolding operation_name
integration_operation env method path =
    let parts = path_parts (integration_suffix path) in
    (
      operation_name env (env.upper method) (first_or "overview" parts) parts,
      first env.is_digit parts,
    )
