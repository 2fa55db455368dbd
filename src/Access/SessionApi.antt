-- ===== src/Access/SessionApi.antt =====
-- The handlers of access_control/router.py about the caller's own sessions, with the dependencies
-- of dependencies.py that they name.
pub mod Revoked
use threat_scope_xdr.Prelude.{
  ℕ, zero, suc, ◌+◌, ◌-◌, ◌*◌, ◌/◌, ◌%◌, ◌≤◌, ◌<◌, min, max, String, ◌≡◌, refl, sym, ap, ◌∙◌, ◌≢◌,
  ◌↔◌, ◌⊎◌, inl, inr, Bool, true, false, not, ◌&&◌, ◌||◌, Option, none, some, List, [], ◌∷◌, ◌++◌,
  map, arith, str_eq, starts_with, eq_iff, eq_refl, ltb, leb, ◌==◌, if◌then◌else◌, is_some,
  Bool-cases, Option-cases, length, select, first, count_where, delete_where, update_where, any,
  all, All, next_id, count_where-append, first-test, count_where-delete_where, count_where_mono,
  first-update_where_ne, count_where-update_where_ne, contains, ends_with, nonempty, elem, take,
  rstrip_slash, strip, join_words, is_space, concat, opt_eq, show, ==_iff, opt_eq-eq, count, unique,
  sorted, any-append, any-delete_where, any-delete_where_self, any-select, any_mono, length-append,
  count_where_pos,
}
use threat_scope_xdr.Access.Models.{
  Moment, seconds, minutes, hours, days, Status, Source, is_blocked, is_locked, is_pending_approval,
  is_rejected, is_active, UserAccount, AccessRole, AccessPermission, UserRoleAssignment,
  RolePermissionAssignment, AuthSession, LoginAttempt, MfaDevice, MfaRecoveryCode,
  MfaLoginChallenge, AuditPayload, SecurityAuditEvent, Notification, SocActivity,
}
use threat_scope_xdr.Access.Store.{
  Mode, AccessConfig, Env, Tables, Db, Error, http, value_error, password_policy, Result, ok, err,
  Exec, pure, raise, lift, gets, ◌>>=◌, ◌>>◌, modify, commit, rollback, raise_if, catch, close,
}
use threat_scope_xdr.Access.Sessions.{
  Request, lookup_session, rotate_csrf, revoke_session, revoke_user_sessions, validate_csrf,
}
use threat_scope_xdr.Access.Login.{audit, empty_metadata}

abbrev pub require_session : Option AuthSession → Result AuthSession
require_session none = err (http 401 "Authentication required")
require_session (some a) = ok a

-- `get_current_session`
unfoldable pub get_current_session : Env → Moment → Request → Exec AuthSession
get_current_session env now request = do
  found ← lookup_session env now request true
  lift (require_session found)

-- `require_authenticated_csrf`
unfoldable pub require_authenticated_csrf : Env → Moment → Request → Exec AuthSession
unfolding get_current_session
require_authenticated_csrf env now request = do
  a ← get_current_session env now request
  lift (validate_csrf env request a)
  pure a

-- `auth_session.user`
abbrev pub owner_of : AuthSession → Tables → Option UserAccount
owner_of a t = first (λ u. u.id == a.user_id) t.users

-- GET /csrf
unfoldable pub csrf : Env → Moment → Request → String → Exec String
unfolding get_current_session
csrf env now request token = do a ← get_current_session env now request; rotate_csrf env now a token

-- POST /logout
unfoldable pub logout : Env → Moment → Request → Exec (Unit {0})
unfolding require_authenticated_csrf
logout env now request = do
  a ← require_authenticated_csrf env now request
  user ← gets (owner_of a)
  revoke_session env now a "logout"
  audit env now request "logout" "logout" "success" user 200 none (some "auth_session")
      (some (show a.id)) empty_metadata

-- the metadata of `logout_all`, as `redact` leaves it: the key `sessions_revoked` contains `session`
abbrev pub logout_all_metadata : Bool → String
logout_all_metadata preserve_current =
    concat "{\"preserved_current\":" (
      concat (if preserve_current then "true" else "false") ",\"sessions_revoked\":\"[REDACTED]\"}")

-- POST /logout-all
unfoldable pub logout_all : Env → Moment → Request → Bool → Exec ℕ
unfolding require_authenticated_csrf
logout_all env now request preserve_current = do
  a ← require_authenticated_csrf env now request
  revoked ←
      revoke_user_sessions env now a.user_id "logout_all"
        (if preserve_current then some a.id else none)
  user ← gets (owner_of a)
  audit env now request "logout_all" "logout_all" "success" user 200 none none none
      (logout_all_metadata preserve_current)
  pure revoked

abbrev pub session_or_404 : Option AuthSession → Result AuthSession
session_or_404 none = err (http 404 "Session not found")
session_or_404 (some a) = ok a

-- DELETE /sessions/{session_id}
unfoldable pub delete_session : Env → Moment → Request → ℕ → Exec (Unit {0})
unfolding require_authenticated_csrf
delete_session env now request session_id = do
  current ← require_authenticated_csrf env now request
  found ← gets λ t. first (λ r. r.id == session_id && r.user_id == current.user_id) t.sessions
  item ← lift (session_or_404 found)
  revoke_session env now item "user_revoked"
  user ← gets (owner_of current)
  audit env now request "session_revoked" "revoke_session" "success" user 200 none
      (some "auth_session") (some (show item.id)) empty_metadata
