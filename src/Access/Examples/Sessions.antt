-- ===== src/Access/Examples/Sessions.antt =====
-- Tests of sessions.
use threat_scope_xdr.Prelude.{
  String, ◌≡◌, refl, ◌≢◌, true, some, List, [], ◌∷◌, arith, str_eq, first, concat,
}
use threat_scope_xdr.Access.Models.{Moment, UserAccount, AuthSession}
use threat_scope_xdr.Access.Store.{Tables, ok}
use threat_scope_xdr.Access.Examples.{test_env, open_session, test_tables, both, test_request}
use threat_scope_xdr.Access.RateLimit.{hash_value}
use threat_scope_xdr.Access.Sessions.{Request, lookup_session, validate_csrf, revoke_session}
use threat_scope_xdr.Access.Login.{audit}
use threat_scope_xdr.Access.Audit.{append_event}
use threat_scope_xdr.Access.Sessions.Validity.{IsAdmissible, IsRefresh, lookup_session_sound}
use threat_scope_xdr.Access.Sessions.Revocation.{IsClosed}
use threat_scope_xdr.Access.SessionApi.{get_current_session, delete_session}
use threat_scope_xdr.Access.SessionApi.Revoked.{
  delete_session_call, Call, run_calls, run_call, revoked_stays_refused,
}

session_admitted :
    (lookup_session test_env 9 test_request true (both test_tables)).0 ≡ ok (some open_session)
unfolding lookup_session hash_value concat
session_admitted = refl

lookup_session_sound_example :
    (token : String) × (a : AuthSession) × (user : UserAccount) × (test_request.cookie ≡ some token)
    × (first (λ r. str_eq r.token_hash (hash_value test_env token)) test_tables.sessions ≡ some a)
    × IsAdmissible 9 test_tables a user
    × IsRefresh test_env 9 a open_session
lookup_session_sound_example =
    lookup_session_sound test_env 9 test_request true (both test_tables) open_session
      session_admitted

-- a session that was revoked before, and an open one
abbrev two_sessions : Tables
two_sessions = record test_tables {
  sessions =
      record open_session {
        id = 6;
        token_hash = "su";
        revoked_at = some 1;
        revoke_reason = some "logout";
      }
      ∷ open_session
      ∷ [];
}

abbrev some_calls : List (Moment × Request × Call)
some_calls = (9, test_request, delete_session_call 6) ∷ []

six-IsClosed : IsClosed 6 two_sessions.sessions
six-IsClosed = record { none_open = refl; given_out = omega arith }

other_session_admitted :
    (get_current_session test_env 10 test_request
      (run_calls test_env some_calls (both two_sessions))).0
    ≡ ok open_session
unfolding get_current_session run_calls run_call delete_session lookup_session hash_value concat
    validate_csrf revoke_session audit append_event
other_session_admitted = refl

revoked_stays_refused_example : open_session.id ≢ 6
revoked_stays_refused_example =
    revoked_stays_refused 6 test_env some_calls 10 test_request (both two_sessions) open_session
      six-IsClosed other_session_admitted
