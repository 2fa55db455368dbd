-- ===== src/Access/Examples/Limits.antt =====
-- Tests of the limits on attempts.
use threat_scope_xdr.Prelude.{◌≡◌, true, false, none, List, [], ◌∷◌, arith}
use threat_scope_xdr.Access.Models.{minutes, Status, UserAccount}
use threat_scope_xdr.Access.Store.{ok}
use threat_scope_xdr.Access.Examples.{test_env, alice, empty_tables, test_tables, both}
use threat_scope_xdr.Access.RateLimit.{register_user_failure, unlock_if_expired}
use threat_scope_xdr.Access.RateLimit.Window.{
  IsLimited, ManagementCall, run_management, run_management-IsLimited,
}
use threat_scope_xdr.Access.RateLimit.Lockout.{failed_at, lock_lasts, lock_ends}

abbrev two_calls : List ManagementCall
two_calls =
    record { actor_user_id = 1; action = "approve"; ip_hash = none; moment = 5 }
    ∷ record { actor_user_id = 1; action = "approve"; ip_hash = none; moment = 6 }
    ∷ []

none_yet : IsLimited 0 empty_tables
none_yet = record { at_later = λ delay identity ip_hash. omega arith }

run_management-IsLimited_example :
    IsLimited 6 (run_management test_env two_calls (both empty_tables)).live
run_management-IsLimited_example =
    run_management-IsLimited test_env two_calls 0 (both empty_tables)
      (omega arith, (omega arith, tt)) none_yet

-- an account whose registration was not approved yet, with four failed logins
abbrev applicant : UserAccount
applicant = record alice { status = Status.pending_approval; failed_login_count = 4 }

lock_lasts_example :
    let u = failed_at test_env 0 applicant in
    ((register_user_failure test_env 0 applicant (both test_tables)).0 ≡ ok u)
    × (u.status ≡ Status.locked)
    × (unlock_if_expired test_env 5 u (both test_tables) ≡ (ok (false, u), both test_tables))
lock_lasts_example =
    lock_lasts test_env 0 5 applicant (both test_tables) (both test_tables) (omega arith)
      (omega arith)

lock_ends_example :
    (unlock_if_expired test_env (minutes 15) (failed_at test_env 0 applicant) (both test_tables)).0
    ≡ ok (
      true,
      record (failed_at test_env 0 applicant) {
        failed_login_count = 0;
        locked_until = none;
        status = Status.active;
        updated_at = minutes 15;
      },
    )
lock_ends_example =
    lock_ends test_env 0 (minutes 15) applicant (both test_tables) (omega arith) (omega arith)
