-- ===== src/Access/Gate/Admitted.antt =====
-- Which requests reach a handler.
use threat_scope_xdr.Prelude.{
  String, ◌≡◌, refl, inl, inr, true, false, not, ◌&&◌, Option, none, some, List, [], ◌∷◌, arith,
  str_eq, starts_with, Bool-cases, any, contains, nonempty, elem,
}
use threat_scope_xdr.Access.Models.{Moment, UserAccount, AuthSession}
use threat_scope_xdr.Access.Store.{
  bind_ok, raise_if-ok, raise_if-state, Env, Tables, Db, Result, ok, Exec, pure, lift, ◌>>=◌,
}
use mathlib.Core.Path.{subst}
use threat_scope_xdr.Access.Roles.{effective_permissions}
use threat_scope_xdr.Access.RateLimit.{hash_value}
use threat_scope_xdr.Access.Audit.{append_event}
use threat_scope_xdr.Access.Sessions.{Request, validate_csrf}
use threat_scope_xdr.Access.SessionApi.{get_current_session, owner_of}
use threat_scope_xdr.Access.Routes.Required.{Required}
use threat_scope_xdr.Access.Routes.Table.{required_permissions, sections}
use threat_scope_xdr.Access.Routes.Guarded.{asks_something, required_permissions_guarded}
use threat_scope_xdr.Access.Gate.{
  is_write, is_allowed, log_and_raise, check_permissions, check_csrf, found_user, must_be_current,
  admit_user, admit_session, authorize_platform_request,
}

-- the session and its owner pass every test that the request is put to
pub record IsAuthorized (env : Env) (request : Request) (t : Tables) (a : AuthSession)
    (user : UserAccount) : Type 0 where
  pub owner : owner_of a t ≡ some user
  pub password_is_current : user.must_change_password ≡ false
  pub permitted :
      is_allowed
        (required_permissions request.path (env.upper request.method))
        (effective_permissions user t)
      ≡ true
  -- a request that writes carries the CSRF token of the session
  pub carries_token :
      (is_write (env.upper request.method)
        && not (str_eq (hash_value env request.csrf_header) a.csrf_token_hash))
      ≡ false

module _ (env : Env) (now : Moment) (request : Request) where
  check_permissions-ok :
      (user : UserAccount) (required : Required) (s : Db)
      → (check_permissions env now request user required s).0 ≡ ok tt
      → (is_allowed required (effective_permissions user s.live) ≡ true)
        × (check_permissions env now request user required s ≡ (ok tt, s))
  unfolding check_permissions log_and_raise append_event
  check_permissions-ok user required s h =
      elim (Bool-cases (is_allowed required (effective_permissions user s.live))) [
        | inl good ↦ (good, rw good refl)
        | inr bad ↦ absurd (cc (rw bad at h))
      ]

  check_csrf-ok :
      (user : UserAccount) (a : AuthSession) (s : Db)
      → (check_csrf env now request user a s).0 ≡ ok tt
      → (is_write (env.upper request.method)
          && not (str_eq (hash_value env request.csrf_header) a.csrf_token_hash))
        ≡ false
  unfolding check_csrf validate_csrf log_and_raise append_event
  check_csrf-ok user a s h =
      let fits = str_eq (hash_value env request.csrf_header) a.csrf_token_hash in
      elim (Bool-cases (is_write (env.upper request.method))) [
        | inr reads ↦ rw reads refl
        | inl writes ↦ elim (Bool-cases (nonempty request.csrf_header)) [
          | inr missing ↦ absurd (cc (rw (writes, missing) at h))
          | inl given ↦ elim (Bool-cases fits) [
            | inl same ↦ rw (writes, same) refl
            | inr other ↦ absurd (cc (rw (writes, given, other) at h))
          ]
        ]
      ]

  found_user-ok :
      (o : Option UserAccount) (user : UserAccount)
      → found_user env now request o ≡ ok user
      → o ≡ some user
  found_user-ok none user h = absurd (cc h)
  found_user-ok (some u) user h = cc h

  admit_user-ok :
      (b : AuthSession) (u : UserAccount) (s : Db) (a : AuthSession) (user : UserAccount)
      → (admit_user env now request b u s).0 ≡ ok (a, user)
      → ((check_permissions env now request u
            (required_permissions request.path (env.upper request.method))
            s).0
          ≡ ok tt)
        × ((s' : Db) × ((check_csrf env now request u b s').0 ≡ ok tt))
        × (b ≡ a)
        × (u ≡ user)
  unfolding admit_user
  admit_user-ok b u s a user h =
      let required = required_permissions request.path (env.upper request.method) in
      let answer : AuthSession × UserAccount = (a, user) in
      let last : Unit {0} → Exec (AuthSession × UserAccount) = λ _. pure (b, u) in
      let (_, p, rest) =
        bind_ok (check_permissions env now request u required)
          (λ _. check_csrf env now request u b >>= last) s answer h in
      let s' = (check_permissions env now request u required s).1 in
      let (_, q, end) = bind_ok (check_csrf env now request u b) last s' answer rest in
      (p, (s', q), cc end, cc end)

-- The tests hold of what is equal to what passed them.
authorized :
    {r : Result AuthSession} (env : Env) (request : Request) (t : Tables) (a b : AuthSession)
    (user u : UserAccount)
    → b ≡ a
    → u ≡ user
    → (r ≡ ok b) × IsAuthorized env request t b u
    → (r ≡ ok a) × IsAuthorized env request t a user
authorized {r} env request t a b user u same owner h =
    subst (λ v. (r ≡ ok a) × IsAuthorized env request t a v) owner
      (subst (λ c. (r ≡ ok c) × IsAuthorized env request t c u) same h)

-- A request that is let through has a session that `get_current_session` admits; its owner has no
-- password to change and holds the permissions that the path and the method ask for, all of them
-- or one as the table says; and if the method is POST, PUT, PATCH or DELETE, the CSRF header
-- hashes to the token of the session.
pub authorize_platform_request_sound :
    (env : Env) (now : Moment) (request : Request) (s : Db) (a : AuthSession) (user : UserAccount)
    → (authorize_platform_request env now request s).0 ≡ ok (a, user)
    → let (r, s') = get_current_session env now request s in
      (r ≡ ok a) × IsAuthorized env request s'.live a user
unfolding authorize_platform_request admit_session
authorize_platform_request_sound env now request s a user h =
    let answer : AuthSession × UserAccount = (a, user) in
    let (b, found, rest) =
      bind_ok (get_current_session env now request) (admit_session env now request) s answer h in
    let s' = (get_current_session env now request s).1 in
    let admit : UserAccount → Exec (AuthSession × UserAccount) =
      λ w. must_be_current env now request w >>= λ _. admit_user env now request b w in
    let (u, known, more) =
      bind_ok (lift (found_user env now request (owner_of b s'.live))) admit s' answer rest in
    let (_, current, last) =
      bind_ok (must_be_current env now request u) (λ _. admit_user env now request b u) s' answer
        more in
    let s0 = (must_be_current env now request u s').1 in
    let (p, (s'', q), same, owner) = admit_user-ok env now request b u s0 a user last in
    authorized env request s'.live a b user u same owner (
      found,
      record {
        owner = found_user-ok env now request (owner_of b s'.live) u known;
        password_is_current = raise_if-ok u.must_change_password _ s' current;
        permitted =
            subst
              (λ d.
                is_allowed (required_permissions request.path (env.upper request.method))
                  (effective_permissions u d.live)
                ≡ true)
              (raise_if-state u.must_change_password _ s')
              (check_permissions-ok env now request u _ s0 p).0;
        carries_token = check_csrf-ok env now request u b s'' q;
      },
    )

-- Permissions that are asked for and granted share one.
is_allowed-shares :
    (r : Required) (current : List String)
    → asks_something r ≡ true
    → is_allowed r current ≡ true
    → any (λ k. elem k current) r.0 ≡ true
is_allowed-shares ([], b) current h e = absurd (cc h)
is_allowed-shares (k ∷ ks, true) current h e = ground arith
is_allowed-shares (k ∷ ks, false) current h e = e

-- A user whose request is let through to a path under a known prefix, and not to one with
-- `/inbound/` in it, holds at least one permission that the table asks for: no account without
-- permissions reaches a handler of a section.
pub authorize_platform_request_holds :
    (env : Env) (now : Moment) (request : Request) (s : Db) (a : AuthSession) (user : UserAccount)
    → any (starts_with request.path) sections ≡ true
    → contains request.path "/inbound/" ≡ false
    → (authorize_platform_request env now request s).0 ≡ ok (a, user)
    → any
        (λ k. elem k (effective_permissions user (get_current_session env now request s).1.live))
        (required_permissions request.path (env.upper request.method)).0
      ≡ true
authorize_platform_request_holds env now request s a user known outside h =
    let method = env.upper request.method in
    let (_, good) = authorize_platform_request_sound env now request s a user h in
    is_allowed-shares (required_permissions request.path method) _
      (required_permissions_guarded request.path method known outside) good.permitted
