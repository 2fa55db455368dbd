-- ===== src/Access/Examples/Requests.antt =====
-- Tests of the permissions that requests need.
use threat_scope_xdr.Prelude.{
  ◌≡◌, refl, true, false, [], ◌∷◌, starts_with, any, all, contains, elem, concat,
}
use threat_scope_xdr.Access.Store.{Tables, ok}
use threat_scope_xdr.Access.Examples.{
  test_env, alice, open_session, test_tables, both, test_request,
}
use threat_scope_xdr.Access.Roles.{effective_permissions}
use threat_scope_xdr.Access.Sessions.{Request, lookup_session, validate_csrf}
use threat_scope_xdr.Access.RateLimit.{hash_value}
use threat_scope_xdr.Access.Routes.Scanning.{soc_rule}
use threat_scope_xdr.Access.SessionApi.{get_current_session}
use threat_scope_xdr.Access.Routes.Table.{required_permissions, sections, catalogue}
use threat_scope_xdr.Access.Routes.Known.{required_permissions_known}
use threat_scope_xdr.Access.Routes.Guarded.{asks_something, required_permissions_guarded}
use threat_scope_xdr.Access.Gate.{authorize_platform_request}
use threat_scope_xdr.Access.Gate.Admitted.{IsAuthorized, authorize_platform_request_sound}

required_permissions_known_example :
    all (λ k. elem k catalogue) (required_permissions "/api/soc/alerts" "GET").0 ≡ true
required_permissions_known_example = required_permissions_known "/api/soc/alerts" "GET"

alerts_known : any (starts_with "/api/soc/alerts") sections ≡ true
alerts_known = refl

alerts_outside : contains "/api/soc/alerts" "/inbound/" ≡ false
unfolding contains
alerts_outside = refl

required_permissions_guarded_example :
    asks_something (required_permissions "/api/soc/alerts" "GET") ≡ true
required_permissions_guarded_example =
    required_permissions_guarded "/api/soc/alerts" "GET" alerts_known alerts_outside

abbrev alerts_request : Request
alerts_request = record test_request { path = "/api/soc/alerts"; method = "POST" }

abbrev permitted_tables : Tables
permitted_tables = record test_tables {
  permissions =
      record {
        id = 5;
        permission_key = "soc:manage_alerts";
        name = "Manage SOC alerts";
        description = "";
        category = "SOC";
        created_at = 0;
      }
      ∷ [];
}

alerts_let_through :
    (authorize_platform_request test_env 9 alerts_request (both permitted_tables)).0
    ≡ ok (open_session, alice)
unfolding authorize_platform_request get_current_session lookup_session hash_value concat
    required_permissions soc_rule contains effective_permissions validate_csrf
alerts_let_through = refl

authorize_platform_request_sound_example :
    let (r, s') = get_current_session test_env 9 alerts_request (both permitted_tables) in
    (r ≡ ok open_session) × IsAuthorized test_env alerts_request s'.live open_session alice
authorize_platform_request_sound_example =
    authorize_platform_request_sound test_env 9 alerts_request (both permitted_tables) open_session
      alice alerts_let_through
