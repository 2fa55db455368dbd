-- ===== src/Access/Examples/Factors.antt =====
-- Tests of one-time codes and recovery codes.
use threat_scope_xdr.Prelude.{
  ℕ, ◌≤◌, String, ◌≡◌, refl, true, false, none, some, List, [], ◌∷◌, arith, count_where, strip,
  concat,
}
use threat_scope_xdr.Access.Models.{UserAccount, MfaLoginChallenge, Moment, seconds, MfaDevice}
use threat_scope_xdr.Access.Store.{http, Tables, ok, err}
use threat_scope_xdr.Access.Examples.{test_env, alice, test_tables, both}
use threat_scope_xdr.Access.RateLimit.{hash_value}
use threat_scope_xdr.Access.Mfa.{confirm_device, conclude}
use threat_scope_xdr.Access.Totp.{totp_counter, accept_code, is_six_digits, verify_totp, record_use}
use threat_scope_xdr.Access.RecoveryCodes.{recovery_hash, is_unused_code, consume_recovery_code}
use threat_scope_xdr.Access.Examples.{test_request}
use threat_scope_xdr.Access.Login.{Draws}
use threat_scope_xdr.Access.Audit.{append_event}
use threat_scope_xdr.Access.Mfa.{get_challenge, verify_user_factor}
use threat_scope_xdr.Access.FactorApi.{verify_mfa_login}
use threat_scope_xdr.Access.FactorApi.Challenges.{IsAnswered, verify_mfa_login_sound}
use threat_scope_xdr.Access.FactorApi.Once.{verify_mfa_login_once}
use threat_scope_xdr.Access.Mfa.Replay.{
  IsAccepted, accept_code-IsAccepted, accept_all, accept_all-le-three, InPeriod,
}
use threat_scope_xdr.Access.Mfa.Recovery.{codes_left, consume_all, consume_all-le}
use threat_scope_xdr.Access.Mfa.Enrollment.{CanConfirm, enabled_from, confirm_device_sound}

abbrev test_device : MfaDevice
test_device = record {
  id = 2;
  user_id = 1;
  device_type = "totp";
  label = "Phone";
  secret_encrypted_or_protected = "x";
  enabled = false;
  confirmed_at = none;
  last_used_counter = none;
  last_used_at = none;
  enrollment_expires_at = some (seconds 400);
  failed_attempts = 4;
  created_at = 0;
  disabled_at = none;
}

-- the device after the code of the third period, read in the fourth
abbrev used_device : MfaDevice
used_device = record test_device { last_used_counter = some 3; last_used_at = some (seconds 120) }

code_accepted : accept_code test_env (seconds 120) test_device "123456" "x" ≡ some used_device
unfolding accept_code
code_accepted = refl

started : 1 ≤ totp_counter (seconds 120)
unfolding totp_counter
started = omega arith

accept_code-IsAccepted_example :
    (counter : ℕ) × IsAccepted test_env (seconds 120) test_device used_device "123456" "x" counter
accept_code-IsAccepted_example =
    accept_code-IsAccepted test_env (seconds 120) test_device used_device "123456" "x" started
      code_accepted

abbrev two_tries : List (Moment × String)
two_tries = (seconds 120, "123456") ∷ (seconds 121, "123456") ∷ []

same_period : InPeriod 4 two_tries
unfolding totp_counter
same_period = (refl, (refl, tt))

accept_all-le-three_example : accept_all test_env "x" two_tries test_device ≤ 3
accept_all-le-three_example =
    accept_all-le-three test_env "x" 4 two_tries test_device (omega arith) same_period

abbrev enrolling : Tables
enrolling = record test_tables { devices = test_device ∷ [] }

abbrev confirmed : MfaDevice × List String
confirmed = (enabled_from (seconds 120) used_device, "aa" ∷ [])

setup_confirmed :
    (confirm_device test_env
      (seconds 120)
      alice
      "123456"
      ("aa" ∷ [])
      (some test_device)
      (both enrolling)).0
    ≡ ok confirmed
unfolding confirm_device verify_totp is_six_digits strip conclude accept_code record_use
setup_confirmed = refl

confirm_device_sound_example :
    (used : MfaDevice) × CanConfirm test_env (seconds 120) test_device "123456" used
    × (let c : MfaDevice × List String = (enabled_from (seconds 120) used, "aa" ∷ []) in
        ok c ≡ ok confirmed)
confirm_device_sound_example =
    confirm_device_sound test_env (seconds 120) alice "123456" ("aa" ∷ []) test_device
      (both enrolling) confirmed setup_confirmed

wrong_code :
    verify_totp test_env (seconds 120) test_device "000000" (both enrolling)
    ≡ (ok none, both enrolling)
unfolding verify_totp is_six_digits strip accept_code record_use
wrong_code = refl

abbrev one_code : Tables
one_code = record test_tables {
  recovery_codes =
      record { id = 1; user_id = 1; code_hash = "srecovery:aa"; used_at = none; created_at = 0 }
      ∷ [];
}

code_spent : (consume_recovery_code test_env 9 1 "aa" (both one_code)).0 ≡ ok true
unfolding consume_recovery_code recovery_hash concat strip hash_value
code_spent = refl

one_row : count_where (is_unused_code 1 (recovery_hash test_env "aa")) one_code.recovery_codes ≤ 1
unfolding recovery_hash concat strip hash_value
one_row = ground arith

consume_all-le_example :
    consume_all test_env 1 ((9, "aa") ∷ (10, "aa") ∷ []) (both one_code) ≤ codes_left 1 one_code
consume_all-le_example = consume_all-le test_env 1 ((9, "aa") ∷ (10, "aa") ∷ []) (both one_code)

-- a challenge for the code above, and an enabled device
abbrev challenged : Tables
challenged = record one_code {
  challenges =
      record {
        id = 3;
        user_id = 1;
        challenge_token_hash = "sq";
        expires_at = 100;
        used_at = none;
        failed_attempts = 4;
        created_at = 0;
      }
      ∷ [];
}

abbrev test_draws : Draws
test_draws = record { token = "w"; csrf = "v"; challenge = "p" }

abbrev new_session : ℕ × String
new_session = (8, "w")

signed_in_by_code :
    (verify_mfa_login test_env 9 test_request test_draws "q" "aa" true (both challenged)).0
    ≡ ok new_session
unfolding verify_mfa_login get_challenge hash_value concat verify_user_factor recovery_hash strip
    append_event
signed_in_by_code = refl

verify_mfa_login_sound_example :
    (challenge : MfaLoginChallenge) × (user : UserAccount) × IsAnswered test_env 9 test_request
      test_draws "aa" true "q"
      (both challenged)
      challenge
      user
verify_mfa_login_sound_example =
    verify_mfa_login_sound test_env 9 test_request test_draws "q" "aa" true (both challenged)
      new_session signed_in_by_code

verify_mfa_login_once_example :
    (verify_mfa_login test_env 10 test_request test_draws "q" "bb" true
      (verify_mfa_login test_env 9 test_request test_draws "q" "aa" true (both challenged)).1).0
    ≡ err (http 401 "MFA challenge is invalid or expired")
verify_mfa_login_once_example =
    verify_mfa_login_once test_env 9 10 test_request test_request test_draws test_draws "q" "aa"
      "bb" true true (both challenged) new_session signed_in_by_code
