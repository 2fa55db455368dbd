-- ===== src/Access/Examples/Events.antt =====
-- Tests of the log of security events, and of roles.
use threat_scope_xdr.Prelude.{
  ◌≡◌, refl, ◌⊎◌, true, ◌&&◌, none, some, List, [], ◌∷◌, ◌==◌, if◌then◌else◌, any,
}
use threat_scope_xdr.Access.Models.{Moment, AccessRole}
use threat_scope_xdr.Access.Store.{Tables, value_error, ok, err}
use threat_scope_xdr.Access.Examples.{test_env, alice, empty_tables, test_tables, both}
use threat_scope_xdr.Access.Roles.{has_role, is_chosen, assign_roles}
use threat_scope_xdr.Access.Roles.Assignment.{assign_roles-has_role}
use threat_scope_xdr.Access.Audit.{AuditEntry, valid, verify_integrity, in_sequence}
use threat_scope_xdr.Access.Audit.Chain.{append_all, append_all_verifies}
use threat_scope_xdr.Access.Audit.Tampering.{payloads, Collision, verify_integrity_tamper_evident}

abbrev test_entry : AuditEntry
test_entry = record {
  event_type = "logout";
  action = "logout";
  request_id = "r1";
  outcome = "success";
  actor = some alice;
  resource_type = none;
  resource_id = none;
  route_template = none;
  request_method = none;
  status_code = some 200;
  reason_code = none;
  metadata_json = "{}";
  client_ip_hash = none;
  user_agent_summary = none;
}

abbrev two_entries : List (Moment × AuditEntry)
two_entries = (5, test_entry) ∷ (3, test_entry) ∷ []

append_all_verifies_example :
    verify_integrity test_env (append_all test_env two_entries (both empty_tables)).live ≡ valid 2
append_all_verifies_example = append_all_verifies test_env two_entries (both empty_tables) refl

abbrev logged : Tables
logged = (append_all test_env two_entries (both empty_tables)).live

verify_integrity_tamper_evident_example :
    (payloads (in_sequence logged.events) ≡ payloads (in_sequence logged.events))
    ⊎ Collision test_env
verify_integrity_tamper_evident_example =
    verify_integrity_tamper_evident test_env logged logged 2 append_all_verifies_example
      append_all_verifies_example refl

abbrev analyst : AccessRole
analyst = record {
  id = 3;
  role_key = "analyst";
  name = "Analyst";
  description = "";
  system_role = true;
  enabled = true;
  created_at = 0;
  updated_at = 0;
}

abbrev with_roles : Tables
with_roles = record test_tables { roles = analyst ∷ [] }

assign_roles-has_role_example :
    let t = with_roles in
    let (r, s') = assign_roles 9 alice ("analyst" ∷ []) none (both t) in
    ((r ≡ err (value_error "One or more roles are invalid or disabled")) × (s' ≡ both t))
    ⊎ ((r ≡ ok tt)
        × (has_role 1 3 s'.live.user_roles ≡ (
            if 1 == alice.id
            then any (λ c. c.id == 3 && is_chosen ("analyst" ∷ []) c) t.roles
            else has_role 1 3 t.user_roles)))
assign_roles-has_role_example =
    assign_roles-has_role 9 alice ("analyst" ∷ []) none (both with_roles) 1 3
