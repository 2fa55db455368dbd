-- ===== src/Access/Routes/Response.antt =====
-- The sections of authorization.py for intelligence, detections, vulnerabilities, SOAR,
-- integrations, analytics, correlation and governance.
use threat_scope_xdr.Prelude.{
  String, Bool, true, false, ◌||◌, ◌&&◌, [], ◌∷◌, any, str_eq, ends_with, contains, rstrip_slash,
  if◌then◌else◌,
}
use threat_scope_xdr.Access.Routes.Required.{Required, only, either_of, one_of, is_read}

-- paths under /api/threat-intel
unfoldable pub threat_intel_rule : String → String → Required
threat_intel_rule path method =
    if is_read method && ends_with path "/download"
    then only "threat_intel:export"
    else if is_read method
    then only "threat_intel:view"
    else if contains path "/imports"
    then only "threat_intel:import"
    else if contains path "/correlation"
    then only "threat_intel:correlate"
    else if contains path "/matches/" && (ends_with path "/review" || ends_with path "/escalate")
    then either_of "threat_intel:manage" "threat_intel:correlate"
    else if contains path "/reports"
    then only "threat_intel:export"
    else only "threat_intel:manage"

-- paths under /api/detections
unfoldable pub detections_rule : String → String → Required
detections_rule path method =
    if is_read method && ends_with path "/download"
    then only "detections:export"
    else if is_read method
    then only "detections:view"
    else if contains path "/imports"
    then only "detections:import"
    else if contains path "/executions" || ends_with path "/tests/run"
    then only "detections:execute"
    else if contains path "/matches/"
    then only "detections:review"
    else if contains path "/reports"
    then only "detections:export"
    else only "detections:manage"

-- paths under /api/vulnerability-management
unfoldable pub vulnerability_management_rule : String → String → Required
vulnerability_management_rule path method =
    if ends_with (rstrip_slash path) "/overview" && is_read method
    then either_of "vulnerabilities:view" "vulnerabilities:aggregate"
    else if is_read method && contains path "/assets"
    then only "assets:view"
    else if is_read method && contains path "/reports"
    then only "vulnerabilities:export"
    else if is_read method
    then only "vulnerabilities:view"
    else if contains path "/assets"
    then only "assets:manage"
    else if contains path "/reports"
    then only "vulnerabilities:export"
    else if contains path "/sla-policies"
    then only "sla:manage"
    else if contains path "/verifications"
    then only "vulnerabilities:verify"
    else if contains path "/risk-acceptances/"
        && any (λ suffix. ends_with path suffix) ("/approve" ∷ "/reject" ∷ "/revoke" ∷ [])
    then only "vulnerabilities:approve_risk"
    else if contains path "/risk-acceptances"
    then only "vulnerabilities:accept_risk"
    else if contains path "/plans"
        || contains path "/tasks"
        || contains path "/remediation-templates"
    then only "vulnerabilities:remediate"
    else only "vulnerabilities:triage"

-- paths under /api/soar
unfoldable pub soar_rule : String → String → Required
soar_rule path method =
    if ends_with (rstrip_slash path) "/overview" && is_read method
    then only "soar:view"
    else if is_read method && contains path "/reports" && ends_with path "/download"
    then only "soar:export"
    else if is_read method
    then only "soar:view"
    else if contains path "/action-policies"
    then only "soar:action_policy_manage"
    else if contains path "/approvals"
    then only "soar:approve"
    else if contains path "/analyst-inputs"
    then only "soar:review"
    else if contains path "/rollbacks" || ends_with path "/request-rollback"
    then only "soar:rollback"
    else if contains path "/reports"
    then only "soar:export"
    else if contains path "/executions" || ends_with path "/evaluate"
    then only "soar:execute"
    else only "soar:manage"

-- paths under /api/integrations
unfoldable pub integrations_rule : String → String → Required
integrations_rule path method =
    if contains path "/inbound/"
    then ([], true)
    else if is_read method && ends_with (rstrip_slash path) "/overview"
    then either_of "integrations:view" "integrations:aggregate"
    else if is_read method && ends_with path "/download"
    then only "integrations:export"
    else if is_read method
    then only "integrations:view"
    else if contains path "/credentials" || contains path "/rotate-secret"
    then only "integrations:credentials_manage"
    else if contains path "/network-policy"
    then only "integrations:network_policy_manage"
    else if contains path "/promote"
    then only "integrations:inbound_promote"
    else if contains path "/dead-letters/" && ends_with path "/replay"
    then only "integrations:replay"
    else if contains path "/reports"
    then only "integrations:export"
    else if contains path "/test" || contains path "/send-test" || contains path "/health-checks"
    then only "integrations:test"
    else if contains path "/deliveries"
        || contains path "/process-due"
        || contains path "/taxii/pull"
    then only "integrations:execute"
    else only "integrations:manage"

-- the reading requests under /api/analytics
unfoldable pub analytics_read_rule : String → Required
analytics_read_rule path =
    if any (str_eq (rstrip_slash path)) ("/api/analytics/overview" ∷ "/api/analytics/metrics" ∷ [])
    then either_of "analytics:view" "analytics:aggregate"
    else if contains path "/reports" && ends_with path "/export"
    then only "analytics:export"
    else if contains path "/reports"
    then ("analytics:view" ∷ "analytics:aggregate" ∷ "analytics:export" ∷ [], false)
    else only "analytics:view"

-- paths under /api/analytics
unfoldable pub analytics_rule : String → String → Required
analytics_rule path method =
    if is_read method
    then analytics_read_rule path
    else if contains path "/feedback" || contains path "/anomalies/"
    then only "analytics:review"
    else if contains path "/suppressions"
    then only "analytics:policy_manage"
    else if contains path "/reports"
    then only "analytics:export"
    else if contains path "/baselines"
        || contains path "/backtests"
        || contains path "/validate"
        || contains path "/drift"
    then only "analytics:train"
    else if contains path "/jobs" || ends_with path "/process-due"
    then only "analytics:execute"
    else if any (λ suffix. ends_with path suffix)
        ("/activate" ∷ "/disable" ∷ "/retire" ∷ "/rollback" ∷ [])
    then only "analytics:policy_manage"
    else only "analytics:manage"

-- `cases` of the section /api/correlation
abbrev pub is_case_path : String → Bool
is_case_path path = contains path "/cases" || contains path "/case" || contains path "/incident"

-- paths under /api/correlation
unfoldable pub correlation_rule : String → String → Required
correlation_rule path method =
    if is_read method && contains path "/reports" && is_case_path path
    then either_of "cases:read" "reports:read_all"
    else if is_read method && contains path "/reports"
    then either_of "correlation:read" "reports:read_all"
    else if is_read method && is_case_path path
    then one_of "cases:read"
    else if is_read method
    then one_of "correlation:read"
    else if str_eq method "DELETE" && is_case_path path
    then only "cases:delete"
    else if str_eq method "DELETE"
    then only "correlation:manage_matches"
    else if contains path "/reports"
    then only "cases:generate_reports"
    else if is_case_path path && str_eq method "POST" && ends_with (rstrip_slash path) "cases"
    then only "cases:create"
    else if is_case_path path
    then only "cases:manage"
    else if contains path "/synchron"
    then only "correlation:synchronize"
    else if contains path "/run" || contains path "/matches"
    then only "correlation:run"
    else only "correlation:manage_matches"

-- paths under /api/governance
unfoldable pub governance_rule : String → String → Required
governance_rule path method =
    if is_read method && contains path "/reports"
    then either_of "governance:read" "reports:read_all"
    else if is_read method
    then one_of "governance:read"
    else if contains path "/reports"
    then only "governance:generate_reports"
    else if contains path "/synchron"
    then only "governance:synchronize"
    else if contains path "/mappings"
    then only "governance:manage_mappings"
    else if contains path "/treatments"
    then only "governance:manage_treatments"
    else if contains path "/exceptions"
    then only "governance:manage_exceptions"
    else if contains path "/evidence"
    then only "governance:manage_evidence"
    else if contains path "/reviews"
    then only "governance:manage_reviews"
    else only "governance:manage_risks"
