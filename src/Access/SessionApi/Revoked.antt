-- ===== src/Access/SessionApi/Revoked.antt =====
-- A session that has been revoked is never open again, whatever handlers are called.
use threat_scope_xdr.Prelude.{
  ℕ, String, ◌≡◌, ◌≢◌, Bool, true, false, Option, none, some, List, [], ◌∷◌, arith, str_eq, ◌==◌,
}
use threat_scope_xdr.Access.Models.{Moment, UserAccount, AuthSession}
use threat_scope_xdr.Access.Store.{Env, Db, ok, lift}
use threat_scope_xdr.Access.Store.{bind_keeps}
use threat_scope_xdr.Access.Keeps.{Keeps, keeps_rules}
use threat_scope_xdr.Access.RateLimit.{
  hash_value, save_user, record_attempt, register_user_failure, clear_failures, unlock_if_expired,
}
use threat_scope_xdr.Access.Mfa.{create_challenge}
use threat_scope_xdr.Access.Audit.{append_event}
use threat_scope_xdr.Access.Sessions.{
  Request, lookup_session, create_session, refreshed, rotate_csrf, revoke_session,
  revoke_user_sessions,
}
use threat_scope_xdr.Access.Sessions.Validity.{lookup_session_sound}
use threat_scope_xdr.Access.Sessions.Revocation.{
  IsClosed, open_row-ne, save-IsClosed, create_session-IsClosed, lookup_session-IsClosed,
  revoke_session-IsClosed, revoke_user_sessions-IsClosed,
}
use threat_scope_xdr.Access.Login.{
  audit, Draws, login, continue_login, authenticate_password, unlock_found, forget_failures,
  refuse_login, accept_login, decide_login, check_login,
}
use threat_scope_xdr.Access.SessionApi.{
  require_session, get_current_session, require_authenticated_csrf, csrf, logout, logout_all,
  delete_session,
}

module _ (k : ℕ) (env : Env) (now : Moment) (request : Request) where
  abbrev Shut : Db → Type 0
  Shut s = IsClosed k s.live.sessions

  -- the session that a request goes on with is not the closed one
  lookup_session-other :
      (s : Db) (b : AuthSession)
      → Shut s
      → (lookup_session env now request true s).0 ≡ ok (some b)
      → (b.id == k) ≡ false
  unfolding refreshed
  lookup_session-other s b h e =
      let (token, a, user, c, found, good, same) =
        lookup_session_sound env now request true s b e in
      let other =
        open_row-ne k (λ r. str_eq r.token_hash (hash_value env token)) s.live.sessions a h found
          (ground (arith, good.not_revoked)) in
      ground (arith, other, same)

  get_current_session-Shut : (s : Db) → Shut s → Shut (get_current_session env now request s).1
  unfolding get_current_session
  get_current_session-Shut s h =
      bind_keeps Shut (lookup_session env now request true) (λ o. lift (require_session o)) s
        (lookup_session-IsClosed k env now request true s h)
        (λ o e. lookup_session-IsClosed k env now request true s h)

  get_current_session-other :
      (s : Db) (b : AuthSession)
      → Shut s
      → (get_current_session env now request s).0 ≡ ok b
      → (b.id == k) ≡ false
  unfolding get_current_session
  get_current_session-other s b h e = lookup_session-other s b h (ground arith)

  get_current_session-Keeps : Keeps Shut (get_current_session env now request)
  get_current_session-Keeps = record { at = get_current_session-Shut }

  require_authenticated_csrf-Keeps : Keeps Shut (require_authenticated_csrf env now request)
  unfolding require_authenticated_csrf
  require_authenticated_csrf-Keeps = search (keeps_rules, get_current_session-Keeps)

  revoke_session-Keeps :
      (a : AuthSession) (reason : String) → Keeps Shut (revoke_session env now a reason)
  revoke_session-Keeps a reason = record { at = revoke_session-IsClosed k env now a reason }

  revoke_user_sessions-Keeps :
      (user_id : ℕ) (reason : String) (except : Option ℕ)
      → Keeps Shut (revoke_user_sessions env now user_id reason except)
  revoke_user_sessions-Keeps user_id reason except = record {
    at = revoke_user_sessions-IsClosed k env now user_id reason except;
  }

  -- an audit record touches no session
  audit-Keeps :
      (event_type action outcome : String) (actor : Option UserAccount) (status_code : ℕ)
      (reason_code resource_type resource_id : Option String) (metadata_json : String)
      → Keeps Shut (
          audit env now request event_type action outcome actor status_code reason_code
            resource_type resource_id metadata_json)
  unfolding audit append_event
  audit-Keeps event_type action outcome actor status_code reason_code resource_type resource_id
        metadata_json =
      record { at = λ s h. h }

  logout-Keeps : Keeps Shut (logout env now request)
  unfolding logout
  logout-Keeps =
      search (keeps_rules, require_authenticated_csrf-Keeps, revoke_session-Keeps, audit-Keeps)

  logout_all-Keeps : (preserve : Bool) → Keeps Shut (logout_all env now request preserve)
  unfolding logout_all
  logout_all-Keeps preserve =
      search
        (keeps_rules, require_authenticated_csrf-Keeps, revoke_user_sessions-Keeps, audit-Keeps)
        depth 8

  delete_session-Keeps : (session_id : ℕ) → Keeps Shut (delete_session env now request session_id)
  unfolding delete_session
  delete_session-Keeps session_id =
      search (keeps_rules, require_authenticated_csrf-Keeps, revoke_session-Keeps, audit-Keeps)
        depth 9

  save_user-Keeps : (user : UserAccount) → Keeps Shut (save_user now user)
  unfolding save_user
  save_user-Keeps user = search keeps_rules

  record_attempt-Keeps :
      (normalized : String) (ip_hash : Option String) (success : Bool) (reason : Option String)
      → Keeps Shut (record_attempt env now normalized ip_hash success reason)
  unfolding record_attempt
  record_attempt-Keeps normalized ip_hash success reason = record { at = λ s h. h }

  register_user_failure-Keeps :
      (user : UserAccount) → Keeps Shut (register_user_failure env now user)
  unfolding register_user_failure
  register_user_failure-Keeps user = record { at = λ s h. h }

  clear_failures-Keeps : (user : UserAccount) → Keeps Shut (clear_failures env now user)
  unfolding clear_failures
  clear_failures-Keeps user = record { at = λ s h. h }

  unlock_if_expired-Keeps : (user : UserAccount) → Keeps Shut (unlock_if_expired env now user)
  unfolding unlock_if_expired
  unlock_if_expired-Keeps user = search (keeps_rules, clear_failures-Keeps)

  unlock_found-Keeps : (o : Option UserAccount) → Keeps Shut (unlock_found env now o)
  unfolding unlock_found
  unlock_found-Keeps none = search keeps_rules
  unlock_found-Keeps (some user) = search (keeps_rules, unlock_if_expired-Keeps)

  forget_failures-Keeps :
      (b : Bool) (normalized : String) → Keeps Shut (forget_failures env b normalized)
  unfolding forget_failures
  forget_failures-Keeps true normalized = record { at = λ s h. h }
  forget_failures-Keeps false normalized = record { at = λ s h. h }

  refuse_login-Keeps :
      (normalized : String) (ip_hash : Option String) (o : Option UserAccount)
      → Keeps Shut (refuse_login env now normalized ip_hash o)
  unfolding refuse_login
  refuse_login-Keeps normalized ip_hash none = search (keeps_rules, record_attempt-Keeps)
  refuse_login-Keeps normalized ip_hash (some user) =
      search (keeps_rules, record_attempt-Keeps, register_user_failure-Keeps)

  accept_login-Keeps :
      (normalized : String) (ip_hash : Option String) (user : UserAccount)
      → Keeps Shut (accept_login env now normalized ip_hash user)
  unfolding accept_login
  accept_login-Keeps normalized ip_hash user =
      search (keeps_rules, clear_failures-Keeps, record_attempt-Keeps, save_user-Keeps) depth 8

  decide_login-Keeps :
      (normalized : String) (ip_hash : Option String) (b : Bool) (o : Option UserAccount)
      → Keeps Shut (decide_login env now normalized ip_hash b o)
  unfolding decide_login
  decide_login-Keeps normalized ip_hash b none = search (keeps_rules, refuse_login-Keeps)
  decide_login-Keeps normalized ip_hash b (some user) =
      search (keeps_rules, refuse_login-Keeps, accept_login-Keeps)

  check_login-Keeps :
      (normalized : String) (ip_hash : Option String) (password : String) (b : Bool)
      (o : Option UserAccount)
      → Keeps Shut (check_login env now normalized ip_hash password b o)
  unfolding check_login
  check_login-Keeps normalized ip_hash password b o =
      search (keeps_rules, forget_failures-Keeps, decide_login-Keeps) depth 8

  authenticate_password-Keeps :
      (identifier password : String)
      → Keeps Shut (authenticate_password env now request identifier password)
  unfolding authenticate_password
  authenticate_password-Keeps identifier password =
      search (keeps_rules, unlock_found-Keeps, check_login-Keeps) depth 9

  create_session-Keeps :
      (user : UserAccount) (token csrf_token : String) (mfa : Bool)
      → Keeps Shut (create_session env now user request token csrf_token mfa)
  create_session-Keeps user token csrf_token mfa = record {
    at = create_session-IsClosed k env now user request token csrf_token mfa;
  }

  create_challenge-Keeps :
      (user_id : ℕ) (token : String) → Keeps Shut (create_challenge env now user_id token)
  unfolding create_challenge
  create_challenge-Keeps user_id token = record { at = λ s h. h }

  continue_login-Keeps :
      (draws : Draws) (identifier : String) (user : UserAccount)
      → Keeps Shut (continue_login env now request draws identifier user)
  unfolding continue_login
  continue_login-Keeps draws identifier user =
      search (keeps_rules, audit-Keeps, create_session-Keeps, create_challenge-Keeps) depth 9

  login-Keeps :
      (draws : Draws) (identifier password : String)
      → Keeps Shut (login env now request draws identifier password)
  unfolding login
  login-Keeps draws identifier password =
      search (keeps_rules, audit-Keeps, authenticate_password-Keeps, continue_login-Keeps) depth 9

  csrf-Keeps : (token : String) → Keeps Shut (csrf env now request token)
  unfolding csrf rotate_csrf
  csrf-Keeps token = record {
    at = λ s h.
        let s' = (get_current_session env now request s).1 in
        bind_keeps Shut (get_current_session env now request) (λ a. rotate_csrf env now a token) s
          (get_current_session-Shut s h)
          (λ a e.
            let other = get_current_session-other s a h e in
            save-IsClosed k _ s'.live.sessions (ground arith) (get_current_session-Shut s h));
  }

-- The calls that a client can make of the session handlers.
pub data Call : Type 0 where
  login_call : Draws → String → String → Call
  csrf_call : String → Call
  logout_call : Call
  logout_all_call : Bool → Call
  delete_session_call : ℕ → Call

-- A call at its moment with its request; a call that raises ends alone.
unfoldable pub run_call : Env → Moment → Request → Call → Db → Db
run_call env now request (login_call draws identifier password) s =
    (login env now request draws identifier password s).1
run_call env now request (csrf_call token) s = (csrf env now request token s).1
run_call env now request logout_call s = (logout env now request s).1
run_call env now request (logout_all_call preserve) s = (logout_all env now request preserve s).1
run_call env now request (delete_session_call session_id) s =
    (delete_session env now request session_id s).1

unfoldable pub run_calls : Env → List (Moment × Request × Call) → Db → Db
run_calls env [] s = s
run_calls env ((now, request, call) ∷ calls) s =
    run_calls env calls (run_call env now request call s)

run_call-IsClosed :
    (k : ℕ) (env : Env) (now : Moment) (request : Request) (call : Call) (s : Db)
    → IsClosed k s.live.sessions
    → IsClosed k (run_call env now request call s).live.sessions
unfolding run_call
run_call-IsClosed k env now request (login_call draws identifier password) s h =
    (login-Keeps k env now request draws identifier password).at s h
run_call-IsClosed k env now request (csrf_call token) s h =
    (csrf-Keeps k env now request token).at s h
run_call-IsClosed k env now request logout_call s h = (logout-Keeps k env now request).at s h
run_call-IsClosed k env now request (logout_all_call preserve) s h =
    (logout_all-Keeps k env now request preserve).at s h
run_call-IsClosed k env now request (delete_session_call session_id) s h =
    (delete_session-Keeps k env now request session_id).at s h

run_calls-IsClosed :
    (k : ℕ) (env : Env) (calls : List (Moment × Request × Call)) (s : Db)
    → IsClosed k s.live.sessions
    → IsClosed k (run_calls env calls s).live.sessions
unfolding run_calls
run_calls-IsClosed k env [] s h = h
run_calls-IsClosed k env ((now, request, call) ∷ calls) s h =
    run_calls-IsClosed k env calls (run_call env now request call s)
      (run_call-IsClosed k env now request call s h)

-- If the number of a session has been given out and no row with it is open, then after any calls
-- of the login and session handlers, with whatever cookies and at whatever moments, no request is
-- admitted as that session.
pub revoked_stays_refused :
    (k : ℕ) (env : Env) (calls : List (Moment × Request × Call)) (now : Moment) (request : Request)
    (s : Db) (b : AuthSession)
    → IsClosed k s.live.sessions
    → (get_current_session env now request (run_calls env calls s)).0 ≡ ok b
    → b.id ≢ k
revoked_stays_refused k env calls now request s b h e =
    let other =
      get_current_session-other k env now request (run_calls env calls s) b
        (run_calls-IsClosed k env calls s h) e in
    ground arith
