-- ===== src/Access/Routes/Table.antt =====
-- `required_permissions`, and the catalogue rules/permissions.json.
use threat_scope_xdr.Prelude.{String, true, List, [], ◌∷◌, starts_with, if◌then◌else◌}
use threat_scope_xdr.Access.Routes.Required.{Required, only}
use threat_scope_xdr.Access.Routes.Scanning.{
  settings_rule, policies_rule, targets_rule, scans_rule, reports_rule, api_security_rule, soc_rule,
  document_threats_rule, phishing_defense_rule,
}
use threat_scope_xdr.Access.Routes.Response.{
  threat_intel_rule, detections_rule, vulnerability_management_rule, soar_rule, integrations_rule,
  analytics_rule, correlation_rule, governance_rule,
}

-- `method` is in upper case
unfoldable pub required_permissions : String → String → Required
required_permissions path method =
    if starts_with path "/api/dashboard"
    then only "dashboard:view"
    else if starts_with path "/api/search"
    then only "search:use"
    else if starts_with path "/api/notifications"
    then only "notifications:read"
    else if starts_with path "/api/profile"
    then only "profile:manage"
    else if starts_with path "/api/settings"
    then settings_rule path method
    else if starts_with path "/api/policies"
    then policies_rule path method
    else if starts_with path "/api/targets"
    then targets_rule path method
    else if starts_with path "/api/scans"
    then scans_rule path method
    else if starts_with path "/api/reports"
    then reports_rule path method
    else if starts_with path "/api/api-security"
    then api_security_rule path method
    else if starts_with path "/api/soc"
    then soc_rule path method
    else if starts_with path "/api/document-threats"
    then document_threats_rule path method
    else if starts_with path "/api/phishing-defense"
    then phishing_defense_rule path method
    else if starts_with path "/api/threat-intel"
    then threat_intel_rule path method
    else if starts_with path "/api/detections"
    then detections_rule path method
    else if starts_with path "/api/vulnerability-management"
    then vulnerability_management_rule path method
    else if starts_with path "/api/soar"
    then soar_rule path method
    else if starts_with path "/api/integrations"
    then integrations_rule path method
    else if starts_with path "/api/analytics"
    then analytics_rule path method
    else if starts_with path "/api/correlation"
    then correlation_rule path method
    else if starts_with path "/api/governance"
    then governance_rule path method
    else ([], true)

-- the prefixes of the paths that the function knows
abbrev pub sections : List String
sections =
    "/api/dashboard" ∷ "/api/search" ∷ "/api/notifications" ∷ "/api/profile" ∷ "/api/settings"
    ∷ "/api/policies" ∷ "/api/targets" ∷ "/api/scans" ∷ "/api/reports" ∷ "/api/api-security"
    ∷ "/api/soc" ∷ "/api/document-threats" ∷ "/api/phishing-defense" ∷ "/api/threat-intel"
    ∷ "/api/detections" ∷ "/api/vulnerability-management" ∷ "/api/soar" ∷ "/api/integrations"
    ∷ "/api/analytics" ∷ "/api/correlation" ∷ "/api/governance" ∷ []

-- the keys of rules/permissions.json
abbrev pub catalogue : List String
catalogue =
    "dashboard:view" ∷ "search:use" ∷ "notifications:read" ∷ "activity:read" ∷ "profile:manage"
    ∷ "web:read" ∷ "web:manage_targets" ∷ "web:run_scans" ∷ "web:delete" ∷ "web:generate_reports"
    ∷ "api:read" ∷ "api:manage_assessments" ∷ "api:import" ∷ "api:analyze"
    ∷ "api:manage_authorization" ∷ "api:manage_business_flows" ∷ "api:delete"
    ∷ "api:generate_reports" ∷ "soc:read" ∷ "soc:import" ∷ "soc:simulate" ∷ "soc:run_detection"
    ∷ "soc:manage_alerts" ∷ "soc:manage_rules" ∷ "soc:manage_watchlist" ∷ "soc:delete"
    ∷ "soc:generate_reports" ∷ "document:read" ∷ "document:analyze" ∷ "document:delete"
    ∷ "document:generate_reports" ∷ "phishing:read" ∷ "phishing:analyze"
    ∷ "phishing:manage_disposition" ∷ "phishing:manage_watchlist" ∷ "phishing:delete"
    ∷ "phishing:generate_reports" ∷ "correlation:read" ∷ "correlation:synchronize"
    ∷ "correlation:run" ∷ "correlation:manage_matches" ∷ "cases:read" ∷ "cases:create"
    ∷ "cases:manage" ∷ "cases:delete" ∷ "cases:generate_reports" ∷ "governance:read"
    ∷ "governance:synchronize" ∷ "governance:manage_risks" ∷ "governance:manage_mappings"
    ∷ "governance:manage_treatments" ∷ "governance:manage_exceptions" ∷ "governance:manage_evidence"
    ∷ "governance:manage_reviews" ∷ "governance:generate_reports" ∷ "users:read" ∷ "users:manage"
    ∷ "roles:read" ∷ "roles:manage" ∷ "sessions:manage_all" ∷ "audit:read" ∷ "audit:verify"
    ∷ "system:manage" ∷ "reports:read_all" ∷ "operations:view" ∷ "operations:diagnostics"
    ∷ "operations:backup" ∷ "operations:restore" ∷ "operations:export" ∷ "operations:import"
    ∷ "operations:retention" ∷ "operations:maintenance" ∷ "operations:demo_manage"
    ∷ "operations:release" ∷ "operations:inventory" ∷ "threat_intel:view" ∷ "threat_intel:import"
    ∷ "threat_intel:manage" ∷ "threat_intel:correlate" ∷ "threat_intel:export" ∷ "detections:view"
    ∷ "detections:manage" ∷ "detections:import" ∷ "detections:execute" ∷ "detections:review"
    ∷ "detections:export" ∷ "assets:view" ∷ "assets:manage" ∷ "vulnerabilities:view"
    ∷ "vulnerabilities:aggregate" ∷ "vulnerabilities:triage" ∷ "vulnerabilities:remediate"
    ∷ "vulnerabilities:verify" ∷ "vulnerabilities:accept_risk" ∷ "vulnerabilities:approve_risk"
    ∷ "vulnerabilities:export" ∷ "sla:manage" ∷ "soar:view" ∷ "soar:manage" ∷ "soar:execute"
    ∷ "soar:approve" ∷ "soar:review" ∷ "soar:rollback" ∷ "soar:export" ∷ "soar:sensitive_actions"
    ∷ "soar:action_policy_manage" ∷ "integrations:view" ∷ "integrations:aggregate"
    ∷ "integrations:manage" ∷ "integrations:test" ∷ "integrations:execute" ∷ "integrations:replay"
    ∷ "integrations:export" ∷ "integrations:credentials_manage"
    ∷ "integrations:network_policy_manage" ∷ "integrations:inbound_promote" ∷ "analytics:view"
    ∷ "analytics:aggregate" ∷ "analytics:manage" ∷ "analytics:train" ∷ "analytics:execute"
    ∷ "analytics:review" ∷ "analytics:export" ∷ "analytics:policy_manage" ∷ []
