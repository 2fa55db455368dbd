-- ===== src/Access/Sessions.antt =====
-- access_control/session_service.py and csrf_service.py.
pub mod Validity
pub mod Revocation
use threat_scope_xdr.Prelude.{
  ℕ, zero, suc, ◌+◌, ◌-◌, ◌*◌, ◌/◌, ◌%◌, ◌≤◌, ◌<◌, min, max, String, ◌≡◌, refl, sym, ap, ◌∙◌, ◌≢◌,
  ◌↔◌, ◌⊎◌, inl, inr, Bool, true, false, not, ◌&&◌, ◌||◌, Option, none, some, List, [], ◌∷◌, ◌++◌,
  map, arith, str_eq, starts_with, eq_iff, eq_refl, ltb, leb, ◌==◌, if◌then◌else◌, is_some,
  Bool-cases, Option-cases, length, select, first, count_where, delete_where, update_where, any,
  all, All, next_id, count_where-append, first-test, count_where-delete_where, count_where_mono,
  first-update_where_ne, count_where-update_where_ne, contains, ends_with, nonempty, elem, take,
  rstrip_slash, strip, join_words, concat, opt_eq, show, opt_eq-eq, count,
}
use threat_scope_xdr.Access.Models.{
  Moment, seconds, minutes, hours, days, Status, Source, is_blocked, is_locked, is_pending_approval,
  is_rejected, is_active, UserAccount, AccessRole, AccessPermission, UserRoleAssignment,
  RolePermissionAssignment, AuthSession, LoginAttempt, MfaDevice, MfaRecoveryCode,
  MfaLoginChallenge,
}
use threat_scope_xdr.Access.Store.{
  Mode, AccessConfig, Env, Tables, Db, Error, http, value_error, password_policy, Result, ok, err,
  Exec, pure, raise, lift, gets, ◌>>=◌, ◌>>◌, modify, commit, rollback, raise_if, close,
}
use threat_scope_xdr.Access.RateLimit.{hash_value}

-- What the handlers read of a request.
pub record Request : Type 0 where
  pub cookie : Option String
  pub csrf_header : String
  pub user_agent : Option String
  pub client_host : Option String
  pub path : String
  pub method : String
  pub request_id : String

-- `" ".join(value.split())[:200]`
unfoldable pub summarize_user_agent : Env → Option String → Option String
summarize_user_agent env none = none
summarize_user_agent env (some value) =
    if nonempty value then some (take 200 (join_words value)) else none

unfoldable pub client_ip : Request → Option String
client_ip request = request.client_host

unfoldable pub client_ip_hash : Env → Request → Option String
client_ip_hash env request = elim request.client_host [
  | none ↦ none
  | some value ↦ if nonempty value then some (hash_value env (concat "ip:" value)) else none
]

module _ (env : Env) (now : Moment) where
  -- `secrets.token_urlsafe` gives the token and the CSRF token
  unfoldable pub create_session : UserAccount → Request → String → String → Bool → Exec AuthSession
  create_session user request token csrf mfa_verified = do
    id ← gets λ t. next_id (λ r. r.id) t.sessions
    let auth_session : AuthSession = record {
      id = id;
      user_id = user.id;
      token_hash = hash_value env token;
      csrf_token_hash = hash_value env csrf;
      created_at = now;
      last_seen_at = now;
      expires_at = now + hours env.config.session_hours;
      idle_expires_at = now + minutes env.config.idle_minutes;
      revoked_at = none;
      revoke_reason = none;
      user_agent_summary = summarize_user_agent env request.user_agent;
      client_ip_hash = client_ip_hash env request;
      mfa_verified = mfa_verified;
      created_from_login = true;
      session_version = 1;
    }
    modify λ t. record t { sessions = t.sessions ++ auth_session ∷ [] }
    pure auth_session

  -- an assignment to the columns of one session
  unfoldable pub save_session : AuthSession → Exec AuthSession
  save_session saved = do
    modify λ t. record t { sessions = update_where (λ r. r.id == saved.id) (λ _. saved) t.sessions }
    pure saved

  -- `auth_session.expires_at <= now or auth_session.idle_expires_at <= now`
  abbrev pub is_expired : AuthSession → Bool
  is_expired a = leb a.expires_at now || leb a.idle_expires_at now

  -- the columns that `lookup_session` assigns when it refreshes
  unfoldable pub refreshed : AuthSession → AuthSession
  refreshed a = record a {
    last_seen_at = now;
    idle_expires_at = min a.expires_at (now + minutes env.config.idle_minutes);
  }

  -- the part after the expiry test
  unfoldable pub admit : Bool → AuthSession → Option UserAccount → Exec (Option AuthSession)
  unfolding save_session refreshed
  admit refresh a none = pure none
  admit refresh a (some user) =
      if is_blocked user.status
      then pure none
      else if refresh && leb (a.last_seen_at + seconds 60) now
      then (do saved ← save_session (refreshed a); commit; pure (some saved))
      else pure (some a)

  unfoldable pub check_session : Bool → Option AuthSession → Exec (Option AuthSession)
  unfolding admit save_session
  check_session refresh none = pure none
  check_session refresh (some a) =
      if is_some a.revoked_at
      then pure none
      else if is_expired a
      then (do
        save_session (record a { revoked_at = some now; revoke_reason = some "expired" })
        commit
        pure none)
      else (do owner ← gets λ t. first (λ u. u.id == a.user_id) t.users; admit refresh a owner)

  unfoldable pub lookup_session : Request → Bool → Exec (Option AuthSession)
  unfolding check_session
  lookup_session request refresh = elim request.cookie [
    | none ↦ pure none
    | some token ↦
        if nonempty token
        then (do
          found ← gets λ t. first (λ r. str_eq r.token_hash (hash_value env token)) t.sessions
          check_session refresh found)
        else pure none
  ]

  -- `secrets.token_urlsafe` gives the token
  unfoldable pub rotate_csrf : AuthSession → String → Exec String
  unfolding save_session
  rotate_csrf a token = do
    save_session (record a {
      csrf_token_hash = hash_value env token;
      session_version = a.session_version + 1;
    })
    commit
    pure token

  unfoldable pub revoke_session : AuthSession → String → Exec (Unit {0})
  unfolding save_session
  revoke_session a reason = if is_some a.revoked_at then pure tt else (do
    save_session (record a { revoked_at = some now; revoke_reason = some (take 120 reason) })
    commit)

  -- the rows that `revoke_user_sessions` updates
  abbrev pub is_open_session : ℕ → Option ℕ → AuthSession → Bool
  is_open_session user_id except_session_id a =
      a.user_id == user_id
      && not (is_some a.revoked_at)
      && elim except_session_id [ none ↦ true | some kept ↦ not (a.id == kept) ]

  unfoldable pub revoke_user_sessions : ℕ → String → Option ℕ → Exec ℕ
  revoke_user_sessions user_id reason except_session_id = do
    revoked ← gets λ t. count_where (is_open_session user_id except_session_id) t.sessions
    modify λ t. record t {
      sessions =
          update_where (is_open_session user_id except_session_id)
            (λ a. record a { revoked_at = some now; revoke_reason = some (take 120 reason) })
            t.sessions;
    }
    commit
    pure revoked

-- csrf_service.py; `hmac.compare_digest` compares the texts
unfoldable pub validate_csrf : Env → Request → AuthSession → Result (Unit {0})
validate_csrf env request a =
    if nonempty request.csrf_header && str_eq (hash_value env request.csrf_header) a.csrf_token_hash
    then ok tt
    else err (http 403 "CSRF validation failed")
