-- ===== src/Access/Sessions/Validity.antt =====
-- Which sessions `lookup_session` admits, and what it does to the others.
use threat_scope_xdr.Prelude.{
  ◌<◌, String, ◌≡◌, refl, ◌⊎◌, inl, inr, Bool, false, Option, none, some, arith, str_eq, ◌==◌,
  is_some, Option-cases, first,
}
use threat_scope_xdr.Access.Models.{Moment, is_blocked, UserAccount, AuthSession}
use threat_scope_xdr.Access.Store.{Env, Tables, Db, ok}
use threat_scope_xdr.Access.RateLimit.{hash_value}
use threat_scope_xdr.Access.Sessions.{
  Request, is_expired, refreshed, admit, check_session, lookup_session,
}

-- A row of the table that a request may go on with, and its owner.
pub record IsAdmissible (now : Moment) (t : Tables) (a : AuthSession) (user : UserAccount)
    : Type 0 where
  pub not_revoked : a.revoked_at ≡ none
  pub before_expiry : now < a.expires_at
  pub before_idle : now < a.idle_expires_at
  pub owner : first (λ u. u.id == a.user_id) t.users ≡ some user
  pub not_blocked : is_blocked user.status ≡ false

-- What comes back for the row: the row, or the row with its idle time moved on.
abbrev pub IsRefresh : Env → Moment → AuthSession → AuthSession → Type 0
IsRefresh env now a b = (b ≡ a) ⊎ (b ≡ refreshed env now a)

admit-some :
    (env : Env) (now : Moment) (refresh : Bool) (a : AuthSession) (o : Option UserAccount) (s : Db)
    (b : AuthSession)
    → (admit env now refresh a o s).0 ≡ ok (some b)
    → (user : UserAccount) × (o ≡ some user)
      × (is_blocked user.status ≡ false)
      × IsRefresh env now a b
unfolding admit
admit-some env now refresh a none s b h = cc
admit-some env now refresh a (some user) s b h = (user, refl, ground arith, ground arith)

check_session-some :
    (env : Env) (now : Moment) (refresh : Bool) (o : Option AuthSession) (s : Db) (b : AuthSession)
    → (check_session env now refresh o s).0 ≡ ok (some b)
    → (a : AuthSession) × (user : UserAccount) × (o ≡ some a)
      × IsAdmissible now s.live a user
      × IsRefresh env now a b
unfolding check_session
check_session-some env now refresh none s b h = cc
check_session-some env now refresh (some a) s b h =
    let owner = first (λ u. u.id == a.user_id) s.live.users in
    let open_row : is_some a.revoked_at ≡ false = ground arith in
    let fresh : is_expired env now a ≡ false = ground arith in
    let (user, known, free, same) = admit-some env now refresh a owner s b (ground arith) in
    (
      a,
      user,
      refl,
      record {
        not_revoked = ground arith;
        before_expiry = ground arith;
        before_idle = ground arith;
        owner = known;
        not_blocked = free;
      },
      same,
    )

-- A session is admitted only for a cookie whose hash is that of the first row with the hash, and
-- that row is not revoked, has neither expired nor been idle too long, and its owner is neither
-- disabled nor locked. The session that comes back is the row, or the row seen now with an idle
-- limit that is not past its expiry.
pub lookup_session_sound :
    (env : Env) (now : Moment) (request : Request) (refresh : Bool) (s : Db) (b : AuthSession)
    → (lookup_session env now request refresh s).0 ≡ ok (some b)
    → (token : String) × (a : AuthSession) × (user : UserAccount) × (request.cookie ≡ some token)
      × (first (λ r. str_eq r.token_hash (hash_value env token)) s.live.sessions ≡ some a)
      × IsAdmissible now s.live a user
      × IsRefresh env now a b
unfolding lookup_session
lookup_session_sound env now request refresh s b h = elim (Option-cases request.cookie) [
  | inl missing ↦ absurd (ground arith)
  | inr (token, e) ↦
      let found = first (λ r. str_eq r.token_hash (hash_value env token)) s.live.sessions in
      let (a, user, k, good, same) = check_session-some env now refresh found s b (ground arith) in
      (token, a, user, e, k, good, same)
]
