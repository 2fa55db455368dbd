-- ===== src/Access/Examples/Logins.antt =====
-- Tests of logins and of what they need.
use threat_scope_xdr.Prelude.{◌≡◌, refl, ◌⊎◌, true, false, none, some, contains, strip}
use threat_scope_xdr.Access.Models.{is_blocked, UserAccount}
use threat_scope_xdr.Access.Store.{ok}
use threat_scope_xdr.Access.Examples.{test_env, alice, test_tables, both, test_request}
use threat_scope_xdr.Access.RateLimit.{is_rate_limited, unlock_if_expired, cleared, lock_is_over}
use threat_scope_xdr.Access.Password.{verify_password}
use threat_scope_xdr.Access.Users.{normalize_username, matches_username}
use threat_scope_xdr.Access.Sessions.{client_ip_hash}
use threat_scope_xdr.Access.Login.{
  login_identity, find_account, authenticate_password, unlock_found, check_login, forget_failures,
  decide_login, accept_login,
}
use threat_scope_xdr.Access.Login.Password.{signed_in_as, authenticate_password_sound}

login_goes_through :
    (authenticate_password test_env 9 test_request "alice" "correct horse" (both test_tables)).0
    ≡ ok (signed_in_as test_env 9 none alice)
unfolding authenticate_password find_account login_identity normalize_username matches_username
    contains strip unlock_found unlock_if_expired client_ip_hash check_login forget_failures
    is_rate_limited decide_login verify_password accept_login cleared
login_goes_through = refl

authenticate_password_sound_example :
    (user : UserAccount) × (find_account test_env "alice" test_tables ≡ some user)
    × (verify_password test_env (some user.password_hash) "correct horse" ≡ true)
    × ((is_blocked user.status ≡ false) ⊎ (lock_is_over test_env 9 user ≡ true))
    × (signed_in_as test_env 9 (client_ip_hash test_env test_request) user
        ≡ signed_in_as test_env 9 none alice)
authenticate_password_sound_example =
    authenticate_password_sound test_env 9 test_request "alice" "correct horse" (both test_tables)
      (signed_in_as test_env 9 none alice) login_goes_through
