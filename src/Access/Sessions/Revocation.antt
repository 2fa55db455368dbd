-- ===== src/Access/Sessions/Revocation.antt =====
-- Revoked sessions stay revoked under every operation of session_service.py, and
-- `revoke_user_sessions` revokes exactly what it says.
use threat_scope_xdr.Prelude.{
  ℕ, ◌+◌, ◌≤◌, ◌<◌, String, ◌≡◌, refl, inl, inr, Bool, true, false, not, ◌&&◌, Option, none, some,
  List, [], ◌∷◌, ◌++◌, arith, str_eq, leb, ◌==◌, is_some, Bool-cases, Option-cases, first,
  count_where, update_where, next_id, count_where-append, nonempty, take, count_where_pos,
  first-update_where, count_where-update_where_self,
}
use threat_scope_xdr.Access.Models.{Moment, seconds, is_blocked, UserAccount, AuthSession}
use threat_scope_xdr.Access.Store.{Env, Db, ok}
use threat_scope_xdr.Access.RateLimit.{hash_value}
use threat_scope_xdr.Access.Sessions.{
  Request, is_expired, create_session, refreshed, admit, check_session, lookup_session,
  revoke_session, is_open_session, revoke_user_sessions,
}

abbrev pub is_open_row : ℕ → AuthSession → Bool
is_open_row k a = a.id == k && not (is_some a.revoked_at)

-- The number `k` has been given out, and no row of that number is open.
pub record IsClosed (k : ℕ) (rows : List AuthSession) : Type 0 where
  pub none_open : count_where (is_open_row k) rows ≡ 0
  pub given_out : k < next_id (λ r. r.id) rows

-- An update that keeps the numbers and opens nothing.
count_where-update_where_le :
    (p q : AuthSession → Bool) (f : AuthSession → AuthSession) (rows : List AuthSession)
    → ((a : AuthSession) → q a ≡ true → p (f a) ≡ true → p a ≡ true)
    → count_where p (update_where q f rows) ≤ count_where p rows
count_where-update_where_le p q f [] h = omega arith
count_where-update_where_le p q f (a ∷ rows) h =
    ground (arith, h a, count_where-update_where_le p q f rows h)

next_id-update_where :
    (q : AuthSession → Bool) (f : AuthSession → AuthSession) (rows : List AuthSession)
    → ((a : AuthSession) → q a ≡ true → (f a).id ≡ a.id)
    → next_id (λ r. r.id) (update_where q f rows) ≡ next_id (λ r. r.id) rows
next_id-update_where q f [] h = refl
next_id-update_where q f (a ∷ rows) h = ground (arith, h a, next_id-update_where q f rows h)

pub update-IsClosed :
    (k : ℕ) (q : AuthSession → Bool) (f : AuthSession → AuthSession) (rows : List AuthSession)
    → ((a : AuthSession) → q a ≡ true → is_open_row k (f a) ≡ true → is_open_row k a ≡ true)
    → ((a : AuthSession) → q a ≡ true → (f a).id ≡ a.id)
    → IsClosed k rows
    → IsClosed k (update_where q f rows)
update-IsClosed k q f rows opens keeps h = record {
  none_open =
      omega (arith, h.none_open, count_where-update_where_le (is_open_row k) q f rows opens);
  given_out = omega (arith, h.given_out, next_id-update_where q f rows keeps);
}

-- Writing a row that is not an open row of the number keeps it closed.
pub save-IsClosed :
    (k : ℕ) (saved : AuthSession) (rows : List AuthSession)
    → is_open_row k saved ≡ false
    → IsClosed k rows
    → IsClosed k (update_where (λ r. r.id == saved.id) (λ _. saved) rows)
save-IsClosed k saved rows shut h =
    update-IsClosed k (λ r. r.id == saved.id) (λ _. saved) rows (λ a p o. cc (o, shut))
      (λ a p. ground arith) h

next_id-append :
    (rows : List AuthSession) (a : AuthSession)
    → next_id (λ r. r.id) rows ≤ next_id (λ r. r.id) (rows ++ a ∷ [])
next_id-append [] a = omega arith
next_id-append (r ∷ rows) a = omega (arith, next_id-append rows a)

append-IsClosed :
    (k : ℕ) (a : AuthSession) (rows : List AuthSession)
    → a.id ≡ next_id (λ r. r.id) rows
    → IsClosed k rows
    → IsClosed k (rows ++ a ∷ [])
append-IsClosed k a rows new h = record {
  none_open =
      ground (arith, h.none_open, h.given_out, count_where-append (is_open_row k) rows (a ∷ []));
  given_out = omega (arith, h.given_out, next_id-append rows a);
}

-- a row of the table that is open is not of the closed number
pub open_row-ne :
    (k : ℕ) (p : AuthSession → Bool) (rows : List AuthSession) (a : AuthSession)
    → IsClosed k rows
    → first p rows ≡ some a
    → is_some a.revoked_at ≡ false
    → (a.id == k) ≡ false
open_row-ne k p rows a h found shut =
    ground (arith, h.none_open, count_where_pos p (is_open_row k) rows a found)

module _ (k : ℕ) (env : Env) (now : Moment) where
  pub create_session-IsClosed :
      (user : UserAccount) (request : Request) (token csrf : String) (mfa : Bool) (s : Db)
      → IsClosed k s.live.sessions
      → IsClosed k (create_session env now user request token csrf mfa s).1.live.sessions
  unfolding create_session
  create_session-IsClosed user request token csrf mfa s h =
      append-IsClosed k _ s.live.sessions refl h

  admit-IsClosed :
      (refresh : Bool) (a : AuthSession) (o : Option UserAccount) (s : Db)
      → (a.id == k) ≡ false
      → IsClosed k s.live.sessions
      → IsClosed k (admit env now refresh a o s).1.live.sessions
  unfolding admit
  admit-IsClosed refresh a none s other h = h
  admit-IsClosed refresh a (some user) s other h = elim (Bool-cases (is_blocked user.status)) [
    | inl blocked ↦ rw blocked h
    | inr free ↦ elim (Bool-cases (refresh && leb (a.last_seen_at + seconds 60) now)) [
      | inl old ↦
          rw (free, old) (save-IsClosed k (refreshed env now a) s.live.sessions (ground arith) h)
      | inr recent ↦ rw (free, recent) h
    ]
  ]

  check_session-IsClosed :
      (p : AuthSession → Bool) (refresh : Bool) (o : Option AuthSession) (s : Db)
      → first p s.live.sessions ≡ o
      → IsClosed k s.live.sessions
      → IsClosed k (check_session env now refresh o s).1.live.sessions
  unfolding check_session
  check_session-IsClosed p refresh none s found h = h
  check_session-IsClosed p refresh (some a) s found h = elim (Bool-cases (is_some a.revoked_at)) [
    | inl shut ↦ rw shut h
    | inr open_row ↦ elim (Bool-cases (is_expired env now a)) [
      | inl late ↦ rw (open_row, late) (save-IsClosed k _ s.live.sessions (ground arith) h)
      | inr fresh ↦
          rw (open_row, fresh)
            (admit-IsClosed refresh a (first (λ u. u.id == a.user_id) s.live.users) s
              (open_row-ne k p s.live.sessions a h found open_row) h)
    ]
  ]

  pub lookup_session-IsClosed :
      (request : Request) (refresh : Bool) (s : Db)
      → IsClosed k s.live.sessions
      → IsClosed k (lookup_session env now request refresh s).1.live.sessions
  unfolding lookup_session
  lookup_session-IsClosed request refresh s h = elim (Option-cases request.cookie) [
    | inl missing ↦ rw missing h
    | inr (token, e) ↦ elim (Bool-cases (nonempty token)) [
      | inl given ↦
          rw (e, given)
            (check_session-IsClosed (λ r. str_eq r.token_hash (hash_value env token)) refresh
              (first (λ r. str_eq r.token_hash (hash_value env token)) s.live.sessions) s refl h)
      | inr empty ↦ rw (e, empty) h
    ]
  ]

  pub revoke_session-IsClosed :
      (a : AuthSession) (reason : String) (s : Db)
      → IsClosed k s.live.sessions
      → IsClosed k (revoke_session env now a reason s).1.live.sessions
  unfolding revoke_session
  revoke_session-IsClosed a reason s h = elim (Bool-cases (is_some a.revoked_at)) [
    | inl old ↦ rw old h
    | inr new ↦ rw new (save-IsClosed k _ s.live.sessions (ground arith) h)
  ]

  pub revoke_user_sessions-IsClosed :
      (user_id : ℕ) (reason : String) (except : Option ℕ) (s : Db)
      → IsClosed k s.live.sessions
      → IsClosed k (revoke_user_sessions env now user_id reason except s).1.live.sessions
  unfolding revoke_user_sessions
  revoke_user_sessions-IsClosed user_id reason except s h =
      update-IsClosed k (is_open_session env now user_id except) _ s.live.sessions
        (λ a p o. ground arith) (λ a p. refl) h

-- Revoking the sessions of a user reports how many were open, leaves no open session of that user
-- but the one that is kept, and commits.
pub revoke_user_sessions_lem :
    (env : Env) (now : Moment) (user_id : ℕ) (reason : String) (except : Option ℕ) (s : Db)
    → let (r, s') = revoke_user_sessions env now user_id reason except s in
      (r ≡ ok (count_where (is_open_session env now user_id except) s.live.sessions))
      × (count_where (is_open_session env now user_id except) s'.live.sessions ≡ 0)
      × (s'.saved ≡ s'.live)
unfolding revoke_user_sessions
revoke_user_sessions_lem env now user_id reason except s = (
  refl,
  count_where-update_where_self (is_open_session env now user_id except) _ s.live.sessions
      (λ a p. ground arith),
  refl,
)

-- Revoking the sessions of a user leaves every row that is not to be revoked (the sessions of other
-- users, the kept one, and those that were revoked before) as it was.
pub revoke_user_sessions_others :
    (env : Env) (now : Moment) (user_id : ℕ) (reason : String) (except : Option ℕ) (s : Db) (k : ℕ)
    (a : AuthSession)
    → first (λ r. r.id == k) s.live.sessions ≡ some a
    → is_open_session env now user_id except a ≡ false
    → first (λ r. r.id == k) (revoke_user_sessions env now user_id reason except s).1.live.sessions
      ≡ some a
unfolding revoke_user_sessions
revoke_user_sessions_others env now user_id reason except s k a found other = ground (
  arith,
  first-update_where (λ r. r.id == k) (is_open_session env now user_id except)
      (λ a. record a { revoked_at = some now; revoke_reason = some (take 120 reason) })
      s.live.sessions a (λ r p. refl) found,
)
