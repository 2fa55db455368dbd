-- ===== src/Access/Routes/Guarded.antt =====
-- Which requests need a permission at all.
use threat_scope_xdr.Prelude.{
  String, Bool, true, false, ◌≡◌, refl, List, [], ◌∷◌, any, contains, if◌then◌else◌, starts_with,
}
use threat_scope_xdr.Access.Routes.Required.{Required}
use threat_scope_xdr.Access.Routes.Scanning.{
  settings_rule, policies_rule, targets_rule, scans_rule, reports_rule, api_security_rule, soc_rule,
  document_threats_rule, phishing_defense_rule,
}
use threat_scope_xdr.Access.Routes.Response.{
  threat_intel_rule, detections_rule, vulnerability_management_rule, soar_rule, integrations_rule,
  analytics_read_rule, analytics_rule, correlation_rule, governance_rule,
}
use threat_scope_xdr.Access.Routes.Table.{required_permissions, sections}

abbrev pub asks_something : Required → Bool
asks_something r = any (λ k. true) r.0

-- a permission is asked for
record IsGuarded (r : Required) : Type 0 where
  guarded : asks_something r ≡ true

IsGuarded-if :
    (b : Bool) (r q : Required) → IsGuarded r → IsGuarded q → IsGuarded (if b then r else q)
IsGuarded-if true r q h k = h
IsGuarded-if false r q h k = k

IsGuarded-cons : (k : String) (ks : List String) (b : Bool) → IsGuarded (k ∷ ks, b)
IsGuarded-cons k ks b = record { guarded = refl }

-- a test that does not pass
IsGuarded-else :
    (b : Bool) (r q : Required) → b ≡ false → IsGuarded q → IsGuarded (if b then r else q)
IsGuarded-else true r q h k = cc
IsGuarded-else false r q h k = k

-- a permission is asked for if the path begins with one of the prefixes
record IsGuardedUnder (path : String) (prefixes : List String) (r : Required) : Type 0 where
  guarded_under : any (starts_with path) prefixes ≡ true → asks_something r ≡ true

guarded_by :
    (b c : Bool) (r q : Required)
    → asks_something r ≡ true
    → (c ≡ true → asks_something q ≡ true)
    → (if b then true else c) ≡ true
    → asks_something (if b then r else q) ≡ true
guarded_by true c r q h k e = h
guarded_by false c r q h k e = k e

infixr 5 ◌then_section◌
◌then_section◌ :
    {path start : String} {prefixes : List String} {r q : Required}
    → IsGuarded r
    → IsGuardedUnder path prefixes q
    → IsGuardedUnder path (start ∷ prefixes) (if starts_with path start then r else q)
◌then_section◌ {path} {start} {prefixes} {r} {q} h k = record {
  guarded_under =
      guarded_by (starts_with path start) (any (starts_with path) prefixes) r q h.guarded
        k.guarded_under;
}

IsGuardedUnder-nil : (path : String) (r : Required) → IsGuardedUnder path [] r
IsGuardedUnder-nil path r = record { guarded_under = λ e. cc }

ruleset guarded_rules = (IsGuarded-if, IsGuarded-cons)

analytics_read_rule-IsGuarded : (path : String) → IsGuarded (analytics_read_rule path)
unfolding analytics_read_rule
analytics_read_rule-IsGuarded path = search guarded_rules depth 40

module _ (path method : String) where
  settings_rule-IsGuarded : IsGuarded (settings_rule path method)
  unfolding settings_rule
  settings_rule-IsGuarded = search guarded_rules depth 40

  policies_rule-IsGuarded : IsGuarded (policies_rule path method)
  unfolding policies_rule
  policies_rule-IsGuarded = search guarded_rules depth 40

  targets_rule-IsGuarded : IsGuarded (targets_rule path method)
  unfolding targets_rule
  targets_rule-IsGuarded = search guarded_rules depth 40

  scans_rule-IsGuarded : IsGuarded (scans_rule path method)
  unfolding scans_rule
  scans_rule-IsGuarded = search guarded_rules depth 40

  reports_rule-IsGuarded : IsGuarded (reports_rule path method)
  unfolding reports_rule
  reports_rule-IsGuarded = search guarded_rules depth 40

  api_security_rule-IsGuarded : IsGuarded (api_security_rule path method)
  unfolding api_security_rule
  api_security_rule-IsGuarded = search guarded_rules depth 40

  soc_rule-IsGuarded : IsGuarded (soc_rule path method)
  unfolding soc_rule
  soc_rule-IsGuarded = search guarded_rules depth 40

  document_threats_rule-IsGuarded : IsGuarded (document_threats_rule path method)
  unfolding document_threats_rule
  document_threats_rule-IsGuarded = search guarded_rules depth 40

  phishing_defense_rule-IsGuarded : IsGuarded (phishing_defense_rule path method)
  unfolding phishing_defense_rule
  phishing_defense_rule-IsGuarded = search guarded_rules depth 40

  threat_intel_rule-IsGuarded : IsGuarded (threat_intel_rule path method)
  unfolding threat_intel_rule
  threat_intel_rule-IsGuarded = search guarded_rules depth 40

  detections_rule-IsGuarded : IsGuarded (detections_rule path method)
  unfolding detections_rule
  detections_rule-IsGuarded = search guarded_rules depth 40

  vulnerability_management_rule-IsGuarded : IsGuarded (vulnerability_management_rule path method)
  unfolding vulnerability_management_rule
  vulnerability_management_rule-IsGuarded = search guarded_rules depth 40

  soar_rule-IsGuarded : IsGuarded (soar_rule path method)
  unfolding soar_rule
  soar_rule-IsGuarded = search guarded_rules depth 40

  integrations_rule-IsGuarded :
      contains path "/inbound/" ≡ false → IsGuarded (integrations_rule path method)
  unfolding integrations_rule
  integrations_rule-IsGuarded h = IsGuarded-else _ _ _ h (search guarded_rules depth 40)

  analytics_rule-IsGuarded : IsGuarded (analytics_rule path method)
  unfolding analytics_rule
  analytics_rule-IsGuarded = search (guarded_rules, analytics_read_rule-IsGuarded) depth 40

  correlation_rule-IsGuarded : IsGuarded (correlation_rule path method)
  unfolding correlation_rule
  correlation_rule-IsGuarded = search guarded_rules depth 40

  governance_rule-IsGuarded : IsGuarded (governance_rule path method)
  unfolding governance_rule
  governance_rule-IsGuarded = search guarded_rules depth 40

  permissions-IsGuardedUnder :
      contains path "/inbound/" ≡ false
      → IsGuardedUnder path sections (required_permissions path method)
  unfolding required_permissions
  permissions-IsGuardedUnder h =
      (IsGuarded-cons _ _ _)
      then_section (IsGuarded-cons _ _ _)
      then_section (IsGuarded-cons _ _ _)
      then_section (IsGuarded-cons _ _ _)
      then_section settings_rule-IsGuarded
      then_section policies_rule-IsGuarded
      then_section targets_rule-IsGuarded
      then_section scans_rule-IsGuarded
      then_section reports_rule-IsGuarded
      then_section api_security_rule-IsGuarded
      then_section soc_rule-IsGuarded
      then_section document_threats_rule-IsGuarded
      then_section phishing_defense_rule-IsGuarded
      then_section threat_intel_rule-IsGuarded
      then_section detections_rule-IsGuarded
      then_section vulnerability_management_rule-IsGuarded
      then_section soar_rule-IsGuarded
      then_section (integrations_rule-IsGuarded h)
      then_section analytics_rule-IsGuarded
      then_section correlation_rule-IsGuarded
      then_section governance_rule-IsGuarded
      then_section IsGuardedUnder-nil path ([], true)

-- A request whose path begins with one of the twenty-one known prefixes and does not contain
-- `/inbound/` is asked for at least one permission, whatever its method.
pub required_permissions_guarded :
    (path method : String)
    → any (starts_with path) sections ≡ true
    → contains path "/inbound/" ≡ false
    → asks_something (required_permissions path method) ≡ true
required_permissions_guarded path method known outside =
    (permissions-IsGuardedUnder path method outside).guarded_under known
