-- ===== src/Access/Routes/Scanning.antt =====
-- The sections of authorization.py for scanning, the API reviews, SOC, documents and phishing.
use threat_scope_xdr.Prelude.{String, ◌||◌, ◌&&◌, not, str_eq, contains, if◌then◌else◌}
use threat_scope_xdr.Access.Routes.Required.{Required, only, either_of, one_of, is_read}

-- paths under /api/settings
unfoldable pub settings_rule : String → String → Required
settings_rule path method =
    if not (is_read method) then only "system:manage" else only "profile:manage"

-- paths under /api/policies
unfoldable pub policies_rule : String → String → Required
policies_rule path method = if is_read method then only "web:read" else only "system:manage"

-- paths under /api/targets
unfoldable pub targets_rule : String → String → Required
targets_rule path method =
    if str_eq method "DELETE"
    then only "web:delete"
    else if is_read method
    then only "web:read"
    else only "web:manage_targets"

-- paths under /api/scans
unfoldable pub scans_rule : String → String → Required
scans_rule path method =
    if str_eq method "DELETE"
    then only "web:delete"
    else if is_read method
    then only "web:read"
    else only "web:run_scans"

-- paths under /api/reports
unfoldable pub reports_rule : String → String → Required
reports_rule path method =
    if is_read method then either_of "web:read" "reports:read_all" else only "web:generate_reports"

-- paths under /api/api-security
unfoldable pub api_security_rule : String → String → Required
api_security_rule path method =
    if is_read method && contains path "/reports"
    then either_of "api:read" "reports:read_all"
    else if is_read method
    then one_of "api:read"
    else if str_eq method "DELETE"
    then only "api:delete"
    else if contains path "/reports"
    then only "api:generate_reports"
    else if contains path "/authorization" || contains path "/identities" || contains path "/roles"
    then only "api:manage_authorization"
    else if contains path "/business-flows"
    then only "api:manage_business_flows"
    else if contains path "/import"
    then only "api:import"
    else if contains path "/jwt" || contains path "/analy"
    then only "api:analyze"
    else only "api:manage_assessments"

-- paths under /api/soc
unfoldable pub soc_rule : String → String → Required
soc_rule path method =
    if is_read method && contains path "/reports"
    then either_of "soc:read" "reports:read_all"
    else if is_read method
    then one_of "soc:read"
    else if str_eq method "DELETE"
    then only "soc:delete"
    else if contains path "/reports"
    then only "soc:generate_reports"
    else if contains path "/imports" || contains path "/sources"
    then only "soc:import"
    else if contains path "/simulator"
    then only "soc:simulate"
    else if contains path "/detections"
    then only "soc:run_detection"
    else if contains path "/alerts"
    then only "soc:manage_alerts"
    else if contains path "/rules"
    then only "soc:manage_rules"
    else if contains path "/blocklist" || contains path "/watchlist"
    then only "soc:manage_watchlist"
    else only "soc:run_detection"

-- paths under /api/document-threats
unfoldable pub document_threats_rule : String → String → Required
document_threats_rule path method =
    if is_read method && contains path "/reports"
    then either_of "document:read" "reports:read_all"
    else if is_read method
    then one_of "document:read"
    else if str_eq method "DELETE"
    then only "document:delete"
    else if contains path "/reports"
    then only "document:generate_reports"
    else only "document:analyze"

-- paths under /api/phishing-defense
unfoldable pub phishing_defense_rule : String → String → Required
phishing_defense_rule path method =
    if is_read method && contains path "/reports"
    then either_of "phishing:read" "reports:read_all"
    else if is_read method
    then one_of "phishing:read"
    else if str_eq method "DELETE" && not (contains path "/watchlist")
    then only "phishing:delete"
    else if contains path "/reports"
    then only "phishing:generate_reports"
    else if contains path "/watchlist"
    then only "phishing:manage_watchlist"
    else if str_eq method "PATCH"
    then only "phishing:manage_disposition"
    else only "phishing:analyze"
