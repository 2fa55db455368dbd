-- ===== src/Access/SetupApi.antt =====
-- The handlers of access_control/router.py that set up and remove a second factor.
use threat_scope_xdr.Access.FactorApi.{user_or_401}
use threat_scope_xdr.Prelude.{
  ℕ, String, Bool, true, false, not, ◌&&◌, ◌||◌, Option, none, some, List, [], ◌∷◌, ◌++◌, ltb, leb,
  ◌==◌, if◌then◌else◌, is_some, length, delete_where, update_where, next_id, concat, show,
}
use threat_scope_xdr.Access.Models.{Moment, is_active, UserAccount, MfaDevice}
use threat_scope_xdr.Access.Store.{
  Env, Error, http, value_error, Result, ok, err, Exec, pure, raise, lift, gets, ◌>>=◌, ◌>>◌,
  modify, commit, raise_if, catch,
}
use threat_scope_xdr.Access.Password.{verify_password}
use threat_scope_xdr.Access.RateLimit.{save_user}
use threat_scope_xdr.Access.Sessions.{Request, rotate_csrf, revoke_user_sessions}
use threat_scope_xdr.Access.Mfa.{
  begin_enrollment, confirm_enrollment, cancel_enrollment, verify_user_factor, Operation,
}
use threat_scope_xdr.Access.RecoveryCodes.{generate_recovery_codes}
use threat_scope_xdr.Access.Login.{audit, empty_metadata}
use threat_scope_xdr.Access.SessionApi.{require_authenticated_csrf, owner_of}

module _ (env : Env) (now : Moment) (request : Request) where
  -- `_record_mfa_activity`
  unfoldable pub record_mfa_activity : String → String → ℕ → Exec (Unit {0})
  record_mfa_activity action message user_id = do
    modify λ t. record t {
      activities =
          t.activities
          ++ record {
            id = next_id (λ a. a.id) t.activities;
            action = action;
            message = message;
            entity_type = "mfa";
            entity_id = some user_id;
            created_at = now;
          }
            ∷ [];
    }
    commit

  -- `_require_mfa_eligible`
  unfoldable pub require_mfa_eligible : UserAccount → Result (Unit {0})
  require_mfa_eligible user =
      if not (is_active user.status)
        || user.must_change_password
        || elim user.locked_until [ none ↦ false | some t ↦ ltb now t ]
      then err (http 403 "This account is not eligible for MFA setup")
      else ok tt

  abbrev pub operation_event : Operation → String
  operation_event Operation.started = "totp_enrollment_started"
  operation_event Operation.restarted = "totp_enrollment_restarted"
  operation_event Operation.resumed = "totp_enrollment_resumed"

  -- the log of an enrolment that failed, and its answer
  unfoldable pub enrollment_failed :
      {A : Type 0} → UserAccount → String → String → ℕ → String → String → Exec A
  unfolding audit
  enrollment_failed user action outcome code reason detail = do
    audit env now request "totp_enrollment_failed" action outcome (some user) code (some reason)
        none none empty_metadata
    raise (http code detail)

  -- POST /mfa/enroll: the number of the device, the secret and the operation
  unfoldable pub enroll_mfa : String → String → Bool → String → Exec (ℕ × String × Operation)
  unfolding require_authenticated_csrf begin_enrollment audit
  enroll_mfa current_password label restart secret = do
    a ← require_authenticated_csrf env now request
    owner ← gets (owner_of a)
    user ← lift (user_or_401 owner)
    lift (require_mfa_eligible user)
    (if verify_password env (some user.password_hash) current_password
        then pure tt
        else enrollment_failed user "mfa_enroll" "denied" 400 "current_password"
            "Current password is incorrect")
    raise_if user.mfa_enabled (http 409 "MFA is already enabled")
    (device, key, operation) ← catch (begin_enrollment env now user label restart secret) λ _.
        enrollment_failed user "mfa_enroll" "failure" 503 "configuration"
          "MFA setup is temporarily unavailable"
    audit env now request (operation_event operation) "mfa_enroll" "success" (some user) 200 none
        (some "mfa_device") (some (show device.id)) empty_metadata
    pure (device.id, key, operation)

  -- the `except` clauses of `confirm_mfa`
  unfoldable pub confirm_failed : UserAccount → Error → Exec (MfaDevice × List String)
  unfolding enrollment_failed
  confirm_failed user Error.enrollment_expired =
      enrollment_failed user "mfa_confirm" "denied" 409 "expired"
        "MFA setup has expired. Start setup again"
  confirm_failed user Error.enrollment_rate_limit =
      enrollment_failed user "mfa_confirm" "denied" 429 "attempt_limit"
        "Too many attempts. Restart MFA setup"
  confirm_failed user Error.invalid_enrollment_code =
      enrollment_failed user "mfa_confirm" "denied" 422 "invalid_code"
        "The six-digit verification code is invalid"
  confirm_failed user (value_error _) = raise (http 409 "No pending MFA setup was found")
  confirm_failed user e = raise e

  -- POST /mfa/confirm; the codes and the token are drawn
  unfoldable pub confirm_mfa : String → Option ℕ → List String → String → Exec (List String)
  unfolding require_authenticated_csrf confirm_enrollment record_mfa_activity rotate_csrf audit
  confirm_mfa value device_id drawn token = do
    a ← require_authenticated_csrf env now request
    owner ← gets (owner_of a)
    user ← lift (user_or_401 owner)
    lift (require_mfa_eligible user)
    raise_if user.mfa_enabled (http 409 "MFA setup is already complete")
    (device, codes) ←
        catch (confirm_enrollment env now user value device_id drawn) (confirm_failed user)
    record_mfa_activity "mfa_enabled" "Authenticator-app MFA was enabled" user.id
    rotate_csrf env now a token
    audit env now request "totp_enrollment_confirmed" "mfa_confirm" "success" (some user) 200 none
        (some "mfa_device") (some (show device.id)) empty_metadata
    audit env now request "recovery_codes_generated" "mfa_recovery_generate" "success" (some user)
        200 none none none (concat "{\"count\":" (concat (show (length codes)) "}"))
    pure codes

  -- POST /mfa/cancel
  unfoldable pub cancel_mfa_enrollment : Exec Bool
  unfolding require_authenticated_csrf cancel_enrollment audit
  cancel_mfa_enrollment = do
    a ← require_authenticated_csrf env now request
    deleted ← cancel_enrollment a.user_id
    user ← gets (owner_of a)
    audit env now request "totp_enrollment_cancelled" "mfa_cancel" "success" user 200 none none none
        (concat "{\"pending_setup_removed\":" (if leb 1 deleted then "true}" else "false}"))
    pure (leb 1 deleted)

  -- `verify_password(...) and verify_user_factor(...)`; the second runs if the first holds
  unfoldable pub both_factors : UserAccount → String → String → Bool → Exec Bool
  both_factors user current_password value recovery =
      if verify_password env (some user.password_hash) current_password
      then verify_user_factor env now user value recovery
      else pure false

  -- the writes of `disable_mfa` before the commit
  unfoldable pub remove_factors : UserAccount → Exec UserAccount
  unfolding save_user
  remove_factors user = do
    modify λ t. record t {
      devices =
          update_where (λ d. d.user_id == user.id && d.enabled)
            (λ d. record d { enabled = false; disabled_at = some now }) t.devices;
    }
    modify
        λ t. record t { recovery_codes = delete_where (λ r. r.user_id == user.id) t.recovery_codes }
    modify λ t. record t {
      challenges = delete_where (λ c. c.user_id == user.id && not (is_some c.used_at)) t.challenges;
    }
    save_user now (record user { mfa_enabled = false })

  -- POST /mfa/disable
  unfoldable pub disable_mfa : String → String → Bool → Bool → String → Exec ℕ
  unfolding require_authenticated_csrf both_factors remove_factors revoke_user_sessions
      record_mfa_activity rotate_csrf audit
  disable_mfa current_password value recovery confirm_disable token = do
    a ← require_authenticated_csrf env now request
    owner ← gets (owner_of a)
    user ← lift (user_or_401 owner)
    raise_if (not confirm_disable) (http 422 "Explicit confirmation is required")
    raise_if (not user.mfa_enabled) (http 409 "MFA is not enabled")
    verified ← both_factors user current_password value recovery
    raise_if (not verified) (http 400 "MFA could not be disabled")
    remove_factors user
    commit
    sessions_revoked ← revoke_user_sessions env now user.id "mfa_disabled" (some a.id)
    record_mfa_activity "mfa_disabled" "Authenticator-app MFA was disabled" user.id
    rotate_csrf env now a token
    audit env now request "mfa_disabled" "mfa_disable" "success" (some user) 200 none none none
        "{\"other_sessions_revoked\":\"[REDACTED]\"}"
    pure sessions_revoked

  -- POST /mfa/recovery/regenerate; the codes are drawn
  unfoldable pub regenerate_recovery : String → String → Bool → List String → Exec (List String)
  unfolding require_authenticated_csrf both_factors generate_recovery_codes record_mfa_activity
      audit
  regenerate_recovery current_password value recovery drawn = do
    a ← require_authenticated_csrf env now request
    owner ← gets (owner_of a)
    user ← lift (user_or_401 owner)
    raise_if recovery (http 422 "A current authenticator code is required")
    verified ← both_factors user current_password value recovery
    raise_if (not verified) (http 400 "Recovery codes could not be regenerated")
    codes ← generate_recovery_codes env now user.id drawn true
    record_mfa_activity "recovery_codes_regenerated" "MFA recovery codes were regenerated" user.id
    audit env now request "recovery_codes_regenerated" "mfa_recovery_regenerate" "success"
        (some user) 200 none none none empty_metadata
    pure codes
