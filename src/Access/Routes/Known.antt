-- ===== src/Access/Routes/Known.antt =====
-- Every permission that a request may need is one that the platform has.
use threat_scope_xdr.Prelude.{String, Bool, true, false, ◌≡◌, elem, all, if◌then◌else◌}
use threat_scope_xdr.Access.Routes.Required.{Required}
use threat_scope_xdr.Access.Routes.Scanning.{
  settings_rule, policies_rule, targets_rule, scans_rule, reports_rule, api_security_rule, soc_rule,
  document_threats_rule, phishing_defense_rule,
}
use threat_scope_xdr.Access.Routes.Response.{
  threat_intel_rule, detections_rule, vulnerability_management_rule, soar_rule, integrations_rule,
  analytics_read_rule, analytics_rule, correlation_rule, governance_rule,
}
use threat_scope_xdr.Access.Routes.Table.{required_permissions, catalogue}

-- the permissions are in the catalogue
record IsKnown (r : Required) : Type 0 where
  known : all (λ k. elem k catalogue) r.0 ≡ true

IsKnown-if : (b : Bool) (r q : Required) → IsKnown r → IsKnown q → IsKnown (if b then r else q)
IsKnown-if true r q h k = h
IsKnown-if false r q h k = k

IsKnown-catalogue : (r : Required) → all (λ k. elem k catalogue) r.0 ≡ true → IsKnown r
IsKnown-catalogue r h = record { known = h }

ruleset known_rules = (IsKnown-if, IsKnown-catalogue)

analytics_read_rule-IsKnown : (path : String) → IsKnown (analytics_read_rule path)
unfolding analytics_read_rule
analytics_read_rule-IsKnown path = search known_rules depth 40

module _ (path method : String) where
  settings_rule-IsKnown : IsKnown (settings_rule path method)
  unfolding settings_rule
  settings_rule-IsKnown = search known_rules depth 40

  policies_rule-IsKnown : IsKnown (policies_rule path method)
  unfolding policies_rule
  policies_rule-IsKnown = search known_rules depth 40

  targets_rule-IsKnown : IsKnown (targets_rule path method)
  unfolding targets_rule
  targets_rule-IsKnown = search known_rules depth 40

  scans_rule-IsKnown : IsKnown (scans_rule path method)
  unfolding scans_rule
  scans_rule-IsKnown = search known_rules depth 40

  reports_rule-IsKnown : IsKnown (reports_rule path method)
  unfolding reports_rule
  reports_rule-IsKnown = search known_rules depth 40

  api_security_rule-IsKnown : IsKnown (api_security_rule path method)
  unfolding api_security_rule
  api_security_rule-IsKnown = search known_rules depth 40

  soc_rule-IsKnown : IsKnown (soc_rule path method)
  unfolding soc_rule
  soc_rule-IsKnown = search known_rules depth 40

  document_threats_rule-IsKnown : IsKnown (document_threats_rule path method)
  unfolding document_threats_rule
  document_threats_rule-IsKnown = search known_rules depth 40

  phishing_defense_rule-IsKnown : IsKnown (phishing_defense_rule path method)
  unfolding phishing_defense_rule
  phishing_defense_rule-IsKnown = search known_rules depth 40

  threat_intel_rule-IsKnown : IsKnown (threat_intel_rule path method)
  unfolding threat_intel_rule
  threat_intel_rule-IsKnown = search known_rules depth 40

  detections_rule-IsKnown : IsKnown (detections_rule path method)
  unfolding detections_rule
  detections_rule-IsKnown = search known_rules depth 40

  vulnerability_management_rule-IsKnown : IsKnown (vulnerability_management_rule path method)
  unfolding vulnerability_management_rule
  vulnerability_management_rule-IsKnown = search known_rules depth 40

  soar_rule-IsKnown : IsKnown (soar_rule path method)
  unfolding soar_rule
  soar_rule-IsKnown = search known_rules depth 40

  integrations_rule-IsKnown : IsKnown (integrations_rule path method)
  unfolding integrations_rule
  integrations_rule-IsKnown = search known_rules depth 40

  analytics_rule-IsKnown : IsKnown (analytics_rule path method)
  unfolding analytics_rule
  analytics_rule-IsKnown = search (known_rules, analytics_read_rule-IsKnown) depth 40

  correlation_rule-IsKnown : IsKnown (correlation_rule path method)
  unfolding correlation_rule
  correlation_rule-IsKnown = search known_rules depth 40

  governance_rule-IsKnown : IsKnown (governance_rule path method)
  unfolding governance_rule
  governance_rule-IsKnown = search known_rules depth 40

  permissions-IsKnown : IsKnown (required_permissions path method)
  unfolding required_permissions
  permissions-IsKnown =
      search
        (
          known_rules, settings_rule-IsKnown, policies_rule-IsKnown, targets_rule-IsKnown,
          scans_rule-IsKnown, reports_rule-IsKnown, api_security_rule-IsKnown, soc_rule-IsKnown,
          document_threats_rule-IsKnown, phishing_defense_rule-IsKnown, threat_intel_rule-IsKnown,
          detections_rule-IsKnown, vulnerability_management_rule-IsKnown, soar_rule-IsKnown,
          integrations_rule-IsKnown, analytics_rule-IsKnown, correlation_rule-IsKnown,
          governance_rule-IsKnown,
        )
        depth 60

-- Whatever its path and method, every permission that a request is asked for is one of the
-- catalogue that `seed_access_control` writes, so no request needs a permission that nobody can
-- hold.
pub required_permissions_known :
    (path method : String) → all (λ k. elem k catalogue) (required_permissions path method).0 ≡ true
required_permissions_known path method = (permissions-IsKnown path method).known
