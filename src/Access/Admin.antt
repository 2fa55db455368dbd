-- ===== src/Access/Admin.antt =====
-- The administrative handlers of access_control/router.py that change accounts and sessions.
pub mod Survivor
use threat_scope_xdr.Prelude.{
  ℕ, zero, suc, ◌+◌, ◌-◌, ◌*◌, ◌/◌, ◌%◌, ◌≤◌, ◌<◌, min, max, String, ◌≡◌, refl, sym, ap, ◌∙◌, ◌≢◌,
  ◌↔◌, ◌⊎◌, inl, inr, Bool, true, false, not, ◌&&◌, ◌||◌, Option, none, some, List, [], ◌∷◌, ◌++◌,
  map, arith, str_eq, starts_with, eq_iff, eq_refl, ltb, leb, ◌==◌, if◌then◌else◌, is_some,
  Bool-cases, Option-cases, length, select, first, count_where, delete_where, update_where, any,
  all, All, next_id, count_where-append, first-test, count_where-delete_where, count_where_mono,
  first-update_where_ne, count_where-update_where_ne, contains, ends_with, nonempty, elem, take,
  rstrip_slash, strip, join_words, is_space, concat, opt_eq, show, ==_iff, opt_eq-eq, count, unique,
  sorted, any-append, any-delete_where, any-delete_where_self, any-select, any_mono, length-append,
  count_where_pos, first-update_where, count_where-update_where_self,
}
use threat_scope_xdr.Access.Models.{
  Moment, seconds, minutes, hours, days, Status, Source, is_blocked, is_locked, is_pending_approval,
  is_rejected, is_active, UserAccount, AccessRole, AccessPermission, UserRoleAssignment,
  RolePermissionAssignment, AuthSession, LoginAttempt, MfaDevice, MfaRecoveryCode,
  MfaLoginChallenge, AuditPayload, SecurityAuditEvent, Notification, SocActivity,
}
use threat_scope_xdr.Access.Store.{
  Mode, AccessConfig, Env, Tables, Db, Error, http, value_error, password_policy, Result, ok, err,
  Exec, pure, raise, lift, gets, ◌>>=◌, ◌>>◌, modify, commit, rollback, raise_if, catch, close,
}
use threat_scope_xdr.Access.RateLimit.{save_user, clear_failures, record_management_attempt}
use threat_scope_xdr.Access.Users.{ensure_not_last_admin, set_password}
use threat_scope_xdr.Access.Accounts.{
  approve_registration, reject_registration, reopen_registration,
}
use threat_scope_xdr.Access.Roles.{assign_roles}
use threat_scope_xdr.Access.Sessions.{Request, client_ip_hash, revoke_session, revoke_user_sessions}
use threat_scope_xdr.Access.Login.{audit, empty_metadata}
use threat_scope_xdr.Access.SessionApi.{require_authenticated_csrf, session_or_404}
use threat_scope_xdr.Access.Gate.{require_permission}

-- `_user_or_404`
abbrev pub user_or_404 : Option UserAccount → Result UserAccount
user_or_404 none = err (http 404 "User not found")
user_or_404 (some user) = ok user

-- `except ValueError`, of the calls that raise it
abbrev pub value_as_422 : {A : Type 0} → Error → Exec A
value_as_422 (value_error message) = raise (http 422 message)
value_as_422 e = raise e

-- the same after a rollback
abbrev pub rolled_back_422 : {A : Type 0} → Error → Exec A
rolled_back_422 (value_error message) = rollback >> raise (http 422 message)
rolled_back_422 Error.management_rate_limit =
    rollback >> raise (http 429 "Registration management is temporarily unavailable")
rolled_back_422 e = raise e

abbrev pub is_disabled : Status → Bool
is_disabled Status.disabled = true
is_disabled _ = false

module _ (env : Env) (now : Moment) (request : Request) where
  -- The dependencies of the handlers. The session is looked up once for each of the two, where the
  -- framework keeps the first result: the second lookup finds a session that has just been seen.
  unfoldable pub with_permission : {A : Type 0} → String → (UserAccount → Exec A) → Exec A
  unfolding require_authenticated_csrf require_permission
  with_permission permission handler = do
    require_authenticated_csrf env now request
    actor ← require_permission env now request permission
    handler actor

  -- the log of a change to an account
  unfoldable pub audit_user : String → String → UserAccount → ℕ → String → Exec (Unit {0})
  unfolding audit
  audit_user event_type action actor user_id metadata_json =
      audit env now request event_type action "success" (some actor) 200 none (some "user")
        (some (show user_id)) metadata_json

  unfoldable pub get_user : ℕ → Exec UserAccount
  get_user user_id = do
    found ← gets λ t. first (λ u. u.id == user_id) t.users
    lift (user_or_404 found)

  -- POST /registrations/{user_id}/approve; `metadata_json` holds the role keys
  unfoldable pub approve : ℕ → List String → Bool → String → UserAccount → Exec UserAccount
  unfolding get_user record_management_attempt approve_registration audit_user
  approve user_id keys confirm_administrator metadata_json actor = do
    user ← get_user user_id
    saved ←
        catch
          (record_management_attempt env now actor.id "approve" (client_ip_hash env request)
            >> approve_registration env now user actor keys confirm_administrator)
          rolled_back_422
    audit_user "account_approved" "approve_registration" actor user_id metadata_json
    pure saved

  -- POST /registrations/{user_id}/reject
  unfoldable pub reject : ℕ → String → UserAccount → Exec UserAccount
  unfolding get_user record_management_attempt reject_registration audit_user
  reject user_id reason actor = do
    user ← get_user user_id
    saved ←
        catch
          (record_management_attempt env now actor.id "reject" (client_ip_hash env request)
            >> reject_registration env now user actor reason)
          rolled_back_422
    audit_user "account_rejected" "reject_registration" actor user_id empty_metadata
    pure saved

  -- POST /registrations/{user_id}/reopen
  unfoldable pub reopen : ℕ → UserAccount → Exec UserAccount
  unfolding get_user record_management_attempt reopen_registration audit_user
  reopen user_id actor = do
    user ← get_user user_id
    saved ←
        catch
          (record_management_attempt env now actor.id "reopen" (client_ip_hash env request)
            >> reopen_registration now user)
          rolled_back_422
    audit_user "account_reopened" "reopen_registration" actor user_id empty_metadata
    pure saved

  -- `disable_user` after `ensure_not_last_admin`
  unfoldable pub finish_disable : UserAccount → UserAccount → Exec UserAccount
  unfolding save_user revoke_user_sessions audit_user
  finish_disable user actor = do
    saved ← save_user now (record user { status = Status.disabled; disabled_at = some now })
    commit
    revoke_user_sessions env now user.id "account_disabled" none
    audit_user "user_disabled" "disable_user" actor user.id empty_metadata
    pure saved

  unfoldable pub disable_found : UserAccount → UserAccount → Exec UserAccount
  unfolding finish_disable ensure_not_last_admin
  disable_found actor user = do
    catch (ensure_not_last_admin user) value_as_422
    finish_disable user actor

  -- POST /users/{user_id}/disable
  unfoldable pub disable_user : ℕ → UserAccount → Exec UserAccount
  unfolding get_user disable_found
  disable_user user_id actor = do user ← get_user user_id; disable_found actor user

  -- POST /users/{user_id}/enable
  unfoldable pub enable_user : ℕ → UserAccount → Exec UserAccount
  unfolding get_user save_user audit_user
  enable_user user_id actor = do
    user ← get_user user_id
    saved ← save_user now (record user {
      status = if user.must_change_password then Status.pending_password_change else Status.active;
      disabled_at = none;
    })
    commit
    audit_user "user_enabled" "enable_user" actor user_id empty_metadata
    pure saved

  -- POST /users/{user_id}/unlock
  unfoldable pub unlock_user : ℕ → UserAccount → Exec UserAccount
  unfolding get_user clear_failures audit_user
  unlock_user user_id actor = do
    user ← get_user user_id
    saved ← clear_failures env now user
    audit_user "account_unlocked" "unlock_user" actor user_id empty_metadata
    pure saved

  -- `except PasswordPolicyError` of `reset_password`
  abbrev pub policy_422 : {A : Type 0} → Error → Exec A
  policy_422 (password_policy message) = raise (http 422 message)
  policy_422 e = raise e

  -- POST /users/{user_id}/reset-password; the temporary password is given or drawn
  unfoldable pub reset_password : String → ℕ → String → UserAccount → Exec String
  unfolding get_user set_password audit_user
  reset_password salt user_id temporary actor = do
    user ← get_user user_id
    catch (set_password env now salt user temporary true "administrator_password_reset" none)
        policy_422
    audit_user "password_reset" "reset_password" actor user_id empty_metadata
    pure temporary

  -- POST /users/{user_id}/reset-mfa
  unfoldable pub reset_mfa : ℕ → UserAccount → Exec UserAccount
  unfolding get_user save_user revoke_user_sessions audit_user
  reset_mfa user_id actor = do
    user ← get_user user_id
    modify λ t. record t {
      devices =
          update_where (λ d. d.user_id == user.id)
            (λ d. record d { enabled = false; disabled_at = some now }) t.devices;
    }
    modify
        λ t. record t { recovery_codes = delete_where (λ r. r.user_id == user.id) t.recovery_codes }
    saved ← save_user now (record user {
      mfa_enabled = false;
      must_change_password = true;
      status = if is_disabled user.status then Status.disabled else Status.pending_password_change;
    })
    commit
    revoke_user_sessions env now user.id "administrator_mfa_reset" none
    audit_user "mfa_reset" "reset_mfa" actor user_id empty_metadata
    pure saved

  -- DELETE /users/{user_id}/sessions/{session_id}
  unfoldable pub admin_revoke_session : ℕ → ℕ → UserAccount → Exec (Unit {0})
  unfolding revoke_session audit
  admin_revoke_session user_id session_id actor = do
    found ← gets λ t. first (λ r. r.id == session_id && r.user_id == user_id) t.sessions
    item ← lift (session_or_404 found)
    revoke_session env now item "administrator_revoked"
    audit env now request "session_revoked" "admin_revoke_session" "success" (some actor) 200 none
        (some "auth_session") (some (show item.id)) empty_metadata

  -- POST /users/{user_id}/revoke-all-sessions
  unfoldable pub admin_revoke_all : ℕ → UserAccount → Exec ℕ
  unfolding get_user revoke_user_sessions audit_user
  admin_revoke_all user_id actor = do
    get_user user_id
    revoked ← revoke_user_sessions env now user_id "administrator_revoked_all" none
    audit_user "session_revoked" "admin_revoke_all_sessions" actor user_id
        "{\"sessions_revoked\":\"[REDACTED]\"}"
    pure revoked

  -- `set_user_roles` after its guard; `metadata_json` holds the role keys
  unfoldable pub finish_set_roles :
      List String → String → UserAccount → UserAccount → Exec UserAccount
  unfolding assign_roles save_user revoke_user_sessions audit_user
  finish_set_roles keys metadata_json user actor = do
    catch (assign_roles now user keys (some actor.id)) rolled_back_422
    saved ← save_user now (record user { is_system_admin = elem "administrator" keys })
    commit
    revoke_user_sessions env now user.id "role_assignment_changed" none
    audit_user "role_assigned" "set_user_roles" actor user.id metadata_json
    pure saved

  -- `if user.is_system_admin and not becoming_admin`
  unfoldable pub guard_demotion : List String → UserAccount → Exec (Unit {0})
  unfolding ensure_not_last_admin
  guard_demotion keys user =
      if user.is_system_admin && not (elem "administrator" keys)
      then catch (ensure_not_last_admin user) value_as_422
      else pure tt

  unfoldable pub set_roles_found :
      List String → String → UserAccount → UserAccount → Exec UserAccount
  unfolding guard_demotion finish_set_roles
  set_roles_found keys metadata_json actor user = do
    guard_demotion keys user
    finish_set_roles keys metadata_json user actor

  -- PUT /users/{user_id}/roles
  unfoldable pub set_user_roles : ℕ → List String → String → UserAccount → Exec UserAccount
  unfolding get_user set_roles_found
  set_user_roles user_id keys metadata_json actor = do
    user ← get_user user_id
    set_roles_found keys metadata_json actor user
