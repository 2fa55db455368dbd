-- ===== src/Access/Examples/Accounts.antt =====
-- Tests of registrations and of their review.
use threat_scope_xdr.Prelude.{count_where, ◌==◌, ◌≤◌, refl, true, none, some, [], ◌∷◌, arith}
use threat_scope_xdr.Access.Models.{UserAccount}
use threat_scope_xdr.Access.Store.{Tables}
use threat_scope_xdr.Access.Examples.{test_env, alice, test_tables, both, test_request}
use threat_scope_xdr.Access.Users.{active_administrator_count}
use threat_scope_xdr.Access.Accounts.{Registration, registered, reject_registration}
use threat_scope_xdr.Access.Accounts.Administrators.{reject_registration_keeps_administrator}
use threat_scope_xdr.Access.Admin.{disable_user}
use threat_scope_xdr.Access.Admin.Survivor.{disable_user_keeps_administrator}

one_administrator : 1 ≤ active_administrator_count none test_tables
unfolding active_administrator_count
one_administrator = omega arith

reject_registration_keeps_administrator_example :
    1
    ≤ active_administrator_count none
        (reject_registration test_env 9 alice alice "not needed" (both test_tables)).1.live
reject_registration_keeps_administrator_example =
    reject_registration_keeps_administrator test_env 9 alice alice "not needed" (both test_tables)
      refl one_administrator

abbrev bob : Registration
bob = record {
  email = "bob@example.org";
  username = some "bobby";
  display_name = "Bob";
  password = "a long passphrase";
  password_confirmation = "a long passphrase";
  terms_accepted = true;
  privacy_notice_version = "1";
  salt = "x";
  tokens = [];
}

abbrev with_role : Tables
with_role = record test_tables {
  roles =
      record {
        id = 4;
        role_key = "registered_user";
        name = "Registered user";
        description = "";
        system_role = true;
        enabled = true;
        created_at = 0;
        updated_at = 0;
      }
      ∷ [];
}

abbrev bob_account : UserAccount
bob_account =
    registered test_env 9 bob 2 "bobby" "bobby" "Bob" "bob@example.org" "a long passphrase"

one_alice : count_where (λ u. u.id == 1) test_tables.users ≤ 1
one_alice = omega arith

disable_user_keeps_administrator_example :
    1
    ≤ active_administrator_count none
        (disable_user test_env 9 test_request 1 alice (both test_tables)).1.live
disable_user_keeps_administrator_example =
    disable_user_keeps_administrator test_env 9 test_request 1 alice (both test_tables) one_alice
      one_administrator
