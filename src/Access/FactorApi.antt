-- ===== src/Access/FactorApi.antt =====
-- The handlers of access_control/router.py that answer a challenge and that change the
-- password.
pub mod Challenges
pub mod Once
use threat_scope_xdr.Prelude.{
  ℕ, zero, suc, ◌+◌, ◌-◌, ◌*◌, ◌/◌, ◌%◌, ◌≤◌, ◌<◌, min, max, String, ◌≡◌, refl, sym, ap, ◌∙◌, ◌≢◌,
  ◌↔◌, ◌⊎◌, inl, inr, Bool, true, false, not, ◌&&◌, ◌||◌, Option, none, some, List, [], ◌∷◌, ◌++◌,
  map, arith, str_eq, starts_with, eq_iff, eq_refl, ltb, leb, ◌==◌, if◌then◌else◌, is_some,
  Bool-cases, Option-cases, length, select, first, count_where, delete_where, update_where, any,
  all, All, next_id, count_where-append, first-test, count_where-delete_where, count_where_mono,
  first-update_where_ne, count_where-update_where_ne, contains, ends_with, nonempty, elem, take,
  rstrip_slash, strip, join_words, is_space, concat, opt_eq, show, ==_iff, opt_eq-eq, count, unique,
  sorted, any-append, any-delete_where, any-delete_where_self, any-select, any_mono, length-append,
  count_where_pos, first-update_where, count_where-update_where_self,
}
use threat_scope_xdr.Access.Models.{
  Moment, seconds, minutes, hours, days, Status, Source, is_blocked, is_locked, is_pending_approval,
  is_rejected, is_active, UserAccount, AccessRole, AccessPermission, UserRoleAssignment,
  RolePermissionAssignment, AuthSession, LoginAttempt, MfaDevice, MfaRecoveryCode,
  MfaLoginChallenge, AuditPayload, SecurityAuditEvent, Notification, SocActivity,
}
use threat_scope_xdr.Access.Store.{
  Mode, AccessConfig, Env, Tables, Db, Error, http, value_error, password_policy, Result, ok, err,
  Exec, pure, raise, lift, gets, ◌>>=◌, ◌>>◌, modify, commit, rollback, raise_if, catch, close,
}
use threat_scope_xdr.Access.Password.{verify_password}
use threat_scope_xdr.Access.Users.{set_password}
use threat_scope_xdr.Access.RateLimit.{save_user}
use threat_scope_xdr.Access.Sessions.{Request, create_session, rotate_csrf, revoke_user_sessions}
use threat_scope_xdr.Access.Mfa.{
  begin_enrollment, confirm_enrollment, cancel_enrollment, get_challenge, verify_user_factor,
  Operation, started, restarted, resumed,
}
use threat_scope_xdr.Access.RecoveryCodes.{generate_recovery_codes}
use threat_scope_xdr.Access.Login.{audit, Draws, empty_metadata}
use threat_scope_xdr.Access.SessionApi.{require_authenticated_csrf, owner_of}

-- `auth_session.user` of a session that has been looked up
abbrev pub user_or_401 : Option UserAccount → Result UserAccount
user_or_401 none = err (http 401 "Authentication required")
user_or_401 (some user) = ok user

-- an assignment to the columns of one challenge
unfoldable pub save_challenge : MfaLoginChallenge → Exec (Unit {0})
save_challenge saved =
    modify
      λ t. record t { challenges = update_where (λ c. c.id == saved.id) (λ _. saved) t.challenges }

abbrev pub challenge_or_401 : Option MfaLoginChallenge → Result MfaLoginChallenge
challenge_or_401 none = err (http 401 "MFA challenge is invalid or expired")
challenge_or_401 (some challenge) = ok challenge

-- `not user or user.status in {"disabled", "locked"}`
abbrev pub open_user_or_401 : Option UserAccount → Result UserAccount
open_user_or_401 none = err (http 401 "MFA challenge is invalid or expired")
open_user_or_401 (some user) =
    if is_blocked user.status then err (http 401 "MFA challenge is invalid or expired") else ok user

module _ (env : Env) (now : Moment) (request : Request) where
  -- the branch of `verify_mfa_login` after a wrong factor
  unfoldable pub refuse_factor : MfaLoginChallenge → UserAccount → Exec (ℕ × String)
  unfolding save_challenge audit
  refuse_factor challenge user = do
    save_challenge (record challenge { failed_attempts = challenge.failed_attempts + 1 })
    commit
    audit env now request "mfa_login_failure" "mfa_login" "failure" (some user) 401
        (some "invalid_factor") none none empty_metadata
    raise (http 401 "MFA verification failed")

  -- the branch after a right one: the session's number and its token
  unfoldable pub accept_factor : Draws → MfaLoginChallenge → UserAccount → Exec (ℕ × String)
  unfolding save_challenge create_session audit
  accept_factor draws challenge user = do
    save_challenge (record challenge { used_at = some now })
    session ← create_session env now user request draws.token draws.csrf true
    commit
    audit env now request "login_success" "mfa_login" "success" (some user) 200 none
        (some "auth_session") (some (show session.id)) "{\"recovery_code_used\":\"[REDACTED]\"}"
    pure (session.id, draws.token)

  unfoldable pub decide_factor : Draws → MfaLoginChallenge → UserAccount → Bool → Exec (ℕ × String)
  unfolding refuse_factor accept_factor
  decide_factor draws challenge user verified =
      if verified then accept_factor draws challenge user else refuse_factor challenge user

  unfoldable pub verify_factor :
      Draws → String → Bool → MfaLoginChallenge → UserAccount → Exec (ℕ × String)
  unfolding decide_factor
  verify_factor draws value recovery challenge user = do
    verified ← verify_user_factor env now user value recovery
    decide_factor draws challenge user verified

  -- the part of `verify_mfa_login` after the challenge has been found
  unfoldable pub answer_challenge : Draws → String → Bool → MfaLoginChallenge → Exec (ℕ × String)
  unfolding verify_factor
  answer_challenge draws value recovery challenge = do
    found ← gets λ t. first (λ u. u.id == challenge.user_id) t.users
    user ← lift (open_user_or_401 found)
    verify_factor draws value recovery challenge user

  -- POST /mfa/verify-login
  unfoldable pub verify_mfa_login : Draws → String → String → Bool → Exec (ℕ × String)
  unfolding answer_challenge
  verify_mfa_login draws challenge_token value recovery = do
    found ← gets (get_challenge env now challenge_token)
    challenge ← lift (challenge_or_401 found)
    answer_challenge draws value recovery challenge

  -- `except PasswordPolicyError`
  abbrev pub policy_as_422 : {A : Type 0} → Error → Exec A
  policy_as_422 (password_policy message) = raise (http 422 message)
  policy_as_422 e = raise e

  -- POST /password/change; `salt` and `token` are drawn
  unfoldable pub change_password : String → String → String → String → Exec (Unit {0})
  unfolding require_authenticated_csrf set_password rotate_csrf audit
  change_password salt token current_password new_password = do
    a ← require_authenticated_csrf env now request
    owner ← gets (owner_of a)
    user ← lift (user_or_401 owner)
    raise_if (not (verify_password env (some user.password_hash) current_password))
        (http 400 "Current password is incorrect")
    saved ←
        catch (set_password env now salt user new_password false "password_changed" (some a.id))
          policy_as_422
    rotate_csrf env now a token
    audit env now request "password_changed" "password_change" "success" (some saved) 200 none none
        none empty_metadata
