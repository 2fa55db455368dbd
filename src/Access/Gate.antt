-- ===== src/Access/Gate.antt =====
-- access_control/dependencies.py: what a request to the platform passes before its handler runs.
pub mod Admitted
use threat_scope_xdr.Prelude.{
  ℕ, zero, suc, ◌+◌, ◌-◌, ◌*◌, ◌/◌, ◌%◌, ◌≤◌, ◌<◌, min, max, String, ◌≡◌, refl, sym, ap, ◌∙◌, ◌≢◌,
  ◌↔◌, ◌⊎◌, inl, inr, Bool, true, false, not, ◌&&◌, ◌||◌, Option, none, some, List, [], ◌∷◌, ◌++◌,
  map, arith, str_eq, starts_with, eq_iff, eq_refl, ltb, leb, ◌==◌, if◌then◌else◌, is_some,
  Bool-cases, Option-cases, length, select, first, count_where, delete_where, update_where, any,
  all, All, next_id, count_where-append, first-test, count_where-delete_where, count_where_mono,
  first-update_where_ne, count_where-update_where_ne, contains, ends_with, nonempty, elem, take,
  rstrip_slash, strip, join_words, is_space, concat, opt_eq, show, ==_iff, opt_eq-eq, count, unique,
  sorted, any-append, any-delete_where, any-delete_where_self, any-select, any_mono, length-append,
  count_where_pos, first-update_where, count_where-update_where_self,
}
use threat_scope_xdr.Access.Models.{
  Moment, seconds, minutes, hours, days, Status, Source, is_blocked, is_locked, is_pending_approval,
  is_rejected, is_active, UserAccount, AccessRole, AccessPermission, UserRoleAssignment,
  RolePermissionAssignment, AuthSession, LoginAttempt, MfaDevice, MfaRecoveryCode,
  MfaLoginChallenge, AuditPayload, SecurityAuditEvent, Notification, SocActivity,
}
use threat_scope_xdr.Access.Store.{
  Mode, AccessConfig, Env, Tables, Db, Error, http, value_error, password_policy, Result, ok, err,
  Exec, pure, raise, lift, gets, ◌>>=◌, ◌>>◌, modify, commit, rollback, raise_if, catch, close,
}
use Prim.Native.Char.{code}
use Prim.Native.String.{len, slice}
use threat_scope_xdr.Access.Roles.{effective_permissions}
use threat_scope_xdr.Access.Audit.{AuditEntry, append_event}
use threat_scope_xdr.Access.Sessions.{
  Request, client_ip_hash, summarize_user_agent, lookup_session, validate_csrf,
}
use threat_scope_xdr.Access.Login.{empty_metadata}
use threat_scope_xdr.Access.SessionApi.{require_session, owner_of, get_current_session}
use threat_scope_xdr.Access.Routes.Required.{Required}
use threat_scope_xdr.Access.Routes.Table.{required_permissions}
use threat_scope_xdr.Access.Operations.{split_slash, integration_operation}

-- `request.method.upper() in {"POST", "PUT", "PATCH", "DELETE"}`
abbrev pub is_write : String → Bool
is_write method = elem method ("POST" ∷ "PUT" ∷ "PATCH" ∷ "DELETE" ∷ [])

-- `allowed or not required`
abbrev pub is_allowed : Required → List String → Bool
is_allowed ([], require_all) current = true
is_allowed (k ∷ ks, true) current = all (λ j. elem j current) (k ∷ ks)
is_allowed (k ∷ ks, false) current = any (λ j. elem j current) (k ∷ ks)

-- an entry of the log about the request, without a resource
abbrev pub entry_of :
    Env
    → Request
    → UserAccount
    → String
    → String
    → String
    → ℕ
    → Option String
    → String
    → Option String
    → AuditEntry
entry_of env request user event_type action outcome status_code reason_code metadata_json agent =
    record {
      event_type = event_type;
      action = action;
      request_id = request.request_id;
      outcome = outcome;
      actor = some user;
      resource_type = none;
      resource_id = none;
      route_template = some request.path;
      request_method = some request.method;
      status_code = some status_code;
      reason_code = reason_code;
      metadata_json = metadata_json;
      client_ip_hash = client_ip_hash env request;
      user_agent_summary = agent;
    }

module _ (env : Env) (now : Moment) (request : Request) where
  -- `append_event` and the error that follows it
  unfoldable pub log_and_raise : {A : Type 0} → AuditEntry → Error → Exec A
  log_and_raise entry e = append_event env now entry >> raise e

  unfoldable pub check_permissions : UserAccount → Required → Exec (Unit {0})
  unfolding log_and_raise
  check_permissions user required = do
    current ← gets (effective_permissions user)
    (if is_allowed required current
        then pure tt
        else log_and_raise
            (entry_of env request user "authorization_denied" "platform_request" "denied" 403
              (some "permission_denied")
              (concat "{\"required_permissions\":"
                (concat (env.dumps_texts (sorted required.0)) "}"))
              (summarize_user_agent env request.user_agent))
            (http 403 "Permission denied"))

  -- the CSRF test of the requests that write
  unfoldable pub check_csrf : UserAccount → AuthSession → Exec (Unit {0})
  unfolding log_and_raise
  check_csrf user a =
      if is_write (env.upper request.method)
      then (catch (lift (validate_csrf env request a)) λ e.
          log_and_raise
            (entry_of env request user "csrf_failure" "csrf_validation" "denied" 403
              (some "csrf_invalid") empty_metadata none)
            e)
      else pure tt

  -- `auth_session.user`; `lookup_session` has seen the row
  abbrev pub found_user : Option UserAccount → Result UserAccount
  found_user none = err (http 401 "Authentication required")
  found_user (some user) = ok user

  -- what follows the test of `must_change_password`
  unfoldable pub admit_user : AuthSession → UserAccount → Exec (AuthSession × UserAccount)
  unfolding check_permissions check_csrf
  admit_user a user = do
    check_permissions user (required_permissions request.path (env.upper request.method))
    check_csrf user a
    pure (a, user)

  abbrev pub must_be_current : UserAccount → Exec (Unit {0})
  must_be_current user = raise_if user.must_change_password (http 403 "Password change required")

  unfoldable pub admit_session : AuthSession → Exec (AuthSession × UserAccount)
  unfolding admit_user
  admit_session a = do
    owner ← gets (owner_of a)
    user ← lift (found_user owner)
    must_be_current user
    admit_user a user

  -- `authorize_platform_request` up to its `yield`
  unfoldable pub authorize_platform_request : Exec (AuthSession × UserAccount)
  unfolding admit_session
  authorize_platform_request = do a ← get_current_session env now request; admit_session a

  -- `parts[2] if len(parts) > 2 else "platform"`
  abbrev pub third_part : List String → String
  third_part (_ ∷ _ ∷ k ∷ ks) = k
  third_part _ = "platform"

  -- `authorize_platform_request` after the handler has returned
  unfoldable pub record_mutation : UserAccount → Exec (Unit {0})
  unfolding integration_operation
  record_mutation user =
      if is_write (env.upper request.method)
      then (do
        let integration = starts_with request.path "/api/integrations"
        let (action, resource_id) =
            if integration
            then integration_operation env request.method request.path
            else (concat (env.lower request.method) (concat " " request.path), none)
        append_event env now
            (record (entry_of env request user
              (if integration then "integration_operation" else "module_mutation") action "success"
              200 none empty_metadata (summarize_user_agent env request.user_agent)) {
                resource_type =
                    some (
                      if integration then "integration" else third_part (split_slash request.path));
                resource_id = resource_id;
              })
        pure tt)
      else pure tt

  -- `require_permission(permission)`
  unfoldable pub require_permission : String → Exec UserAccount
  unfolding log_and_raise
  require_permission permission = do
    a ← get_current_session env now request
    owner ← gets (owner_of a)
    user ← lift (found_user owner)
    must_be_current user
    current ← gets (effective_permissions user)
    (if elem permission current
        then pure user
        else log_and_raise
            (entry_of env request user "authorization_denied" "permission_check" "denied" 403
              (some "permission_denied")
              (concat "{\"required_permission\":\"" (concat permission "\"}"))
              (summarize_user_agent env request.user_agent))
            (http 403 "Permission denied"))

  -- the owner of the session, once the password needs no change
  unfoldable pub current_user : Error → Exec UserAccount
  current_user stale = do
    a ← get_current_session env now request
    owner ← gets (owner_of a)
    user ← lift (found_user owner)
    raise_if user.must_change_password stale
    pure user

  -- `require_any_permission(*permissions)`
  unfoldable pub require_any_permission : List String → Exec UserAccount
  unfolding current_user
  require_any_permission permissions = do
    user ← current_user (http 403 "Password change required")
    current ← gets (effective_permissions user)
    raise_if (not (any (λ k. elem k permissions) current)) (http 403 "Permission denied")
    pure user

  -- `require_all_permissions(*permissions)`
  unfoldable pub require_all_permissions : List String → Exec UserAccount
  unfolding current_user
  require_all_permissions permissions = do
    user ← current_user (http 403 "Permission denied")
    current ← gets (effective_permissions user)
    raise_if (not (all (λ k. elem k current) permissions)) (http 403 "Permission denied")
    pure user

  -- `require_system_admin`
  unfoldable pub require_system_admin : Exec UserAccount
  require_system_admin = do
    a ← get_current_session env now request
    owner ← gets (owner_of a)
    user ← lift (found_user owner)
    raise_if (not user.is_system_admin || user.must_change_password)
        (http 403 "System administrator access required")
    pure user
