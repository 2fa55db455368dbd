-- ===== src/Access/Login.antt =====
-- access_control/authentication.py, and the login and session handlers of router.py.
pub mod Password
use threat_scope_xdr.Prelude.{
  ℕ, zero, suc, ◌+◌, ◌-◌, ◌*◌, ◌/◌, ◌%◌, ◌≤◌, ◌<◌, min, max, String, ◌≡◌, refl, sym, ap, ◌∙◌, ◌≢◌,
  ◌↔◌, ◌⊎◌, inl, inr, Bool, true, false, not, ◌&&◌, ◌||◌, Option, none, some, List, [], ◌∷◌, ◌++◌,
  map, arith, str_eq, starts_with, eq_iff, eq_refl, ltb, leb, ◌==◌, if◌then◌else◌, is_some,
  Bool-cases, Option-cases, length, select, first, count_where, delete_where, update_where, any,
  all, All, next_id, count_where-append, first-test, count_where-delete_where, count_where_mono,
  first-update_where_ne, count_where-update_where_ne, contains, ends_with, nonempty, elem, take,
  rstrip_slash, strip, join_words, is_space, concat, opt_eq, show, ==_iff, opt_eq-eq, count, unique,
  sorted, any-append, any-delete_where, any-delete_where_self, any-select, any_mono, length-append,
  count_where_pos,
}
use threat_scope_xdr.Access.Models.{
  Moment, seconds, minutes, hours, days, Status, Source, is_blocked, is_locked, is_pending_approval,
  is_rejected, is_active, UserAccount, AccessRole, AccessPermission, UserRoleAssignment,
  RolePermissionAssignment, AuthSession, LoginAttempt, MfaDevice, MfaRecoveryCode,
  MfaLoginChallenge, AuditPayload, SecurityAuditEvent, Notification, SocActivity,
}
use threat_scope_xdr.Access.Store.{
  Mode, AccessConfig, Env, Tables, Db, Error, http, value_error, password_policy, Result, ok, err,
  Exec, pure, raise, lift, gets, ◌>>=◌, ◌>>◌, modify, commit, rollback, raise_if, catch, close,
}
use Prim.Native.Char.{code}
use threat_scope_xdr.Access.RateLimit.{
  save_user, username_hash, is_rate_limited, record_attempt, register_user_failure, clear_failures,
  unlock_if_expired,
}
use threat_scope_xdr.Access.Password.{verify_password}
use threat_scope_xdr.Access.Users.{
  normalize_username, normalize_email, by_username, by_email, set_password,
}
use threat_scope_xdr.Access.Audit.{AuditEntry, append_event}
use threat_scope_xdr.Access.Sessions.{
  Request, client_ip_hash, summarize_user_agent, create_session, lookup_session, rotate_csrf,
  revoke_session, revoke_user_sessions, validate_csrf,
}
use threat_scope_xdr.Access.Mfa.{create_challenge, get_challenge, verify_user_factor}

-- `raw.casefold()[:254]` where normalisation raises
abbrev pub or_raw : Env → String → Result String → String
or_raw env raw (ok name) = name
or_raw env raw (err _) = take 254 (env.casefold raw)

abbrev pub email_text : Result (Option String) → Result String
email_text (ok (some email)) = ok email
email_text (ok none) = ok ""
email_text (err e) = err e

-- the identifier as it is looked up and counted
unfoldable pub login_identity : Env → String → String
login_identity env identifier =
    let raw = strip identifier in
    if contains raw "@"
    then or_raw env raw (email_text (normalize_email env (some raw)))
    else or_raw env raw (normalize_username env raw)

unfoldable pub find_account : Env → String → Tables → Option UserAccount
find_account env identifier t =
    let normalized = login_identity env identifier in
    if contains (strip identifier) "@" then by_email normalized t else by_username normalized t

-- `unlock_if_expired(db, user) if user else False`
unfoldable pub unlock_found : Env → Moment → Option UserAccount → Exec (Bool × Option UserAccount)
unfolding unlock_if_expired
unlock_found env now none = pure (false, none)
unlock_found env now (some user) = do
  (expired_lock, user') ← unlock_if_expired env now user
  pure (expired_lock, some user')

-- the failures that an expired lock takes with it
unfoldable pub forget_failures : Env → Bool → String → Exec (Unit {0})
forget_failures env false normalized = pure tt
forget_failures env true normalized = do
  modify λ t. record t {
    attempts =
        delete_where (λ a. str_eq a.username_hash (username_hash env normalized) && not a.success)
          t.attempts;
  }
  commit

abbrev pub stored_hash : Option UserAccount → Option String
stored_hash none = none
stored_hash (some user) = some user.password_hash

abbrev pub generic_login_error : String
generic_login_error = "Invalid email, username, or password"

-- the branch of a login that fails
unfoldable pub refuse_login :
    Env → Moment → String → Option String → Option UserAccount → Exec UserAccount
unfolding register_user_failure record_attempt
refuse_login env now normalized ip_hash none = do
  record_attempt env now normalized ip_hash false (some "invalid_credentials")
  raise (http 401 generic_login_error)
refuse_login env now normalized ip_hash (some user) = do
  (if is_blocked user.status then pure user else register_user_failure env now user)
  record_attempt env now normalized ip_hash false (some "invalid_credentials")
  raise (http 401 generic_login_error)

-- the branch of a login that succeeds
unfoldable pub accept_login : Env → Moment → String → Option String → UserAccount → Exec UserAccount
unfolding clear_failures record_attempt save_user
accept_login env now normalized ip_hash user = do
  cleared ← clear_failures env now user
  record_attempt env now normalized ip_hash true none
  saved ← save_user now (record cleared { last_login_at = some now; last_login_ip_hash = ip_hash })
  commit
  pure saved

-- `not user or not valid or user.status in {"disabled", "locked"}`
unfoldable pub decide_login :
    Env → Moment → String → Option String → Bool → Option UserAccount → Exec UserAccount
decide_login env now normalized ip_hash is_valid none = refuse_login env now normalized ip_hash none
decide_login env now normalized ip_hash is_valid (some user) =
    if is_valid && not (is_blocked user.status)
    then accept_login env now normalized ip_hash user
    else refuse_login env now normalized ip_hash (some user)

-- `authenticate_password` from the test of `expired_lock` on
unfoldable pub check_login :
    Env → Moment → String → Option String → String → Bool → Option UserAccount → Exec UserAccount
check_login env now normalized ip_hash password expired_lock user = do
  forget_failures env expired_lock normalized
  limited ← gets (is_rate_limited env now normalized ip_hash)
  raise_if limited (http 429 "Login temporarily unavailable. Try again later.")
  decide_login env now normalized ip_hash (verify_password env (stored_hash user) password) user

unfoldable pub authenticate_password : Env → Moment → Request → String → String → Exec UserAccount
authenticate_password env now request identifier password = do
  found ← gets (find_account env identifier)
  (expired_lock, user) ← unlock_found env now found
  check_login env now (login_identity env identifier) (client_ip_hash env request) password
      expired_lock user

-- `_audit` of router.py
unfoldable pub audit :
    Env
    → Moment
    → Request
    → String
    → String
    → String
    → Option UserAccount
    → ℕ
    → Option String
    → Option String
    → Option String
    → String
    → Exec (Unit {0})
audit env now request event_type action outcome actor status_code reason_code resource_type
      resource_id metadata_json =
    do
      append_event env now (record {
        event_type = event_type;
        action = action;
        request_id = request.request_id;
        outcome = outcome;
        actor = actor;
        resource_type = resource_type;
        resource_id = resource_id;
        route_template = some request.path;
        request_method = some request.method;
        status_code = some status_code;
        reason_code = reason_code;
        metadata_json = metadata_json;
        client_ip_hash = client_ip_hash env request;
        user_agent_summary = summarize_user_agent env request.user_agent;
      })
      pure tt

-- What the handler answers, and the cookie that it sets.
pub data LoginReply : Type 0 where
  account_pending : LoginReply
  account_rejected : LoginReply
  requires_mfa : String → LoginReply
  signed_in : ℕ → String → LoginReply

-- What a request draws from `secrets`.
pub record Draws : Type 0 where
  pub token : String
  pub csrf : String
  pub challenge : String

abbrev pub empty_metadata : String
empty_metadata = "{}"

abbrev pub identifier_type : String → String
identifier_type identifier = if contains identifier "@" then "email" else "username"

-- the handler after the password has been accepted
unfoldable pub continue_login :
    Env → Moment → Request → Draws → String → UserAccount → Exec LoginReply
unfolding audit create_session create_challenge
continue_login env now request draws identifier user =
    if is_pending_approval user.status
    then (do
      audit env now request "login_pending" "login" "denied" (some user) 200
          (some "pending_approval") none none empty_metadata
      pure account_pending)
    else if is_rejected user.status
    then (do
      audit env now request "login_rejected" "login" "denied" (some user) 200 (some "rejected") none
          none empty_metadata
      pure account_rejected)
    else if user.mfa_enabled
    then (do
      challenge ← create_challenge env now user.id draws.challenge
      audit env now request "login_mfa_required" "login" "success" (some user) 200 none none none
          empty_metadata
      pure (requires_mfa challenge))
    else (do
      session ← create_session env now user request draws.token draws.csrf false
      commit
      audit env now request (concat (identifier_type identifier) "_login_success") "login" "success"
          (some user) 200 none (some "auth_session") (some (show session.id))
          (concat "{\"identifier_type\":\"" (concat (identifier_type identifier) "\"}"))
      pure (signed_in session.id draws.token))

abbrev pub status_of : Error → ℕ
status_of (http code _) = code
status_of _ = 500

unfoldable pub login : Env → Moment → Request → Draws → String → String → Exec LoginReply
unfolding audit
login env now request draws identifier password = do
  raise_if (not env.config.local_login_enabled) (http 403 "Local login is unavailable")
  user ← catch (authenticate_password env now request identifier password) λ e. do
    audit env now request "login_failure" "login" "failure" none (status_of e)
        (some "invalid_credentials") none none empty_metadata
    raise e
  continue_login env now request draws identifier user
