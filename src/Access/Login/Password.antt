-- ===== src/Access/Login/Password.antt =====
-- Which logins `authenticate_password` lets through.
use threat_scope_xdr.Prelude.{
  String, ◌≡◌, refl, sym, ◌∙◌, ◌≢◌, ◌⊎◌, inl, inr, Bool, true, false, not, ◌&&◌, Option, none, some,
  arith, Bool-cases, Option-cases,
}
use threat_scope_xdr.Access.Models.{Moment, is_blocked, is_locked, UserAccount}
use threat_scope_xdr.Access.Store.{Env, Db, http, ok, err}
use threat_scope_xdr.Access.RateLimit.{
  is_rate_limited, unlock_if_expired, clear_failures, cleared, lock_is_over,
}
use threat_scope_xdr.Access.Password.{verify_password}
use threat_scope_xdr.Access.Sessions.{Request, client_ip_hash}
use threat_scope_xdr.Access.Login.{
  login_identity, find_account, unlock_found, forget_failures, refuse_login, accept_login,
  decide_login, check_login, authenticate_password,
}

refuse_login-err :
    (env : Env) (now : Moment) (normalized : String) (ip_hash : Option String)
    (o : Option UserAccount) (s : Db)
    → (refuse_login env now normalized ip_hash o s).0
      ≡ err (http 401 "Invalid email, username, or password")
unfolding refuse_login
refuse_login-err env now normalized ip_hash none s = refl
refuse_login-err env now normalized ip_hash (some user) s = ground arith

-- The account that a login returns, from the account that it found.
abbrev pub signed_in_as : Env → Moment → Option String → UserAccount → UserAccount
signed_in_as env now ip_hash user = record (cleared env now user) {
  last_login_at = some now;
  last_login_ip_hash = ip_hash;
  updated_at = now;
}

accept_login-ok :
    (env : Env) (now : Moment) (normalized : String) (ip_hash : Option String) (user : UserAccount)
    (s : Db)
    → (accept_login env now normalized ip_hash user s).0 ≡ ok (signed_in_as env now ip_hash user)
unfolding accept_login
accept_login-ok env now normalized ip_hash user s = refl

-- what a login needs of the account that it goes on with, and what it returns
abbrev pub Accepted : Env → Moment → Option String → String → UserAccount → UserAccount → Type 0
Accepted env now ip_hash password user u =
    (verify_password env (some user.password_hash) password ≡ true)
    × (is_blocked user.status ≡ false)
    × (signed_in_as env now ip_hash user ≡ u)

ok_injective : {a b : UserAccount} → ok a ≡ ok b → a ≡ b
ok_injective h = cc

decide_login-ok :
    (env : Env) (now : Moment) (normalized : String) (ip_hash : Option String) (password : String)
    (user : UserAccount) (s : Db) (u : UserAccount)
    → (decide_login env now normalized ip_hash
        (verify_password env (some user.password_hash) password)
        (some user)
        s).0
      ≡ ok u
    → Accepted env now ip_hash password user u
unfolding decide_login
decide_login-ok env now normalized ip_hash password user s u h =
    let v = verify_password env (some user.password_hash) password in
    elim (Bool-cases (v && not (is_blocked user.status))) [
      | inl good ↦ (
        ground arith,
        ground arith,
        ok_injective (sym (accept_login-ok env now normalized ip_hash user s) ∙ (rw good at h)),
      )
      | inr bad ↦ cc (rw bad at h, refuse_login-err env now normalized ip_hash (some user) s)
    ]

check_login-ok :
    (env : Env) (now : Moment) (normalized : String) (ip_hash : Option String) (password : String)
    (expired_lock : Bool) (user : UserAccount) (s : Db) (u : UserAccount)
    → (check_login env now normalized ip_hash password expired_lock (some user) s).0 ≡ ok u
    → Accepted env now ip_hash password user u
unfolding check_login forget_failures
check_login-ok env now normalized ip_hash password false user s u h =
    elim (Bool-cases (is_rate_limited env now normalized ip_hash s.live)) [
      | inl limited ↦ cc (rw limited at h)
      | inr free ↦ decide_login-ok env now normalized ip_hash password user s u (rw free at h)
    ]
check_login-ok env now normalized ip_hash password true user s u h =
    let s' = (forget_failures env true normalized s).1 in
    elim (Bool-cases (is_rate_limited env now normalized ip_hash s'.live)) [
      | inl limited ↦ cc (rw limited at h)
      | inr free ↦ decide_login-ok env now normalized ip_hash password user s' u (rw free at h)
    ]

check_login-none :
    (env : Env) (now : Moment) (normalized : String) (ip_hash : Option String) (password : String)
    (s : Db) (u : UserAccount)
    → (check_login env now normalized ip_hash password false none s).0 ≢ ok u
unfolding check_login forget_failures decide_login
check_login-none env now normalized ip_hash password s u h =
    elim (Bool-cases (is_rate_limited env now normalized ip_hash s.live)) [
      | inl limited ↦ cc (rw limited at h)
      | inr free ↦ cc (rw free at h, refuse_login-err env now normalized ip_hash none s)
    ]

and-left : (a b : Bool) → (a && b) ≡ true → a ≡ true
and-left a b h = ground arith

-- clearing an account again changes nothing more that a login returns
signed_in_as-cleared :
    (env : Env) (now : Moment) (ip_hash : Option String) (user : UserAccount)
    → is_locked user.status ≡ true
    → signed_in_as env now ip_hash (record (cleared env now user) { updated_at = now })
      ≡ signed_in_as env now ip_hash user
unfolding cleared
signed_in_as-cleared env now ip_hash user h = rw h

-- A login that goes through found an account under the identifier, its stored hash verifies the
-- password, it is not disabled, and if it is locked its lock has run out. What it returns is that
-- account with no failures and no lock, and with the status active if it was locked.
pub authenticate_password_sound :
    (env : Env) (now : Moment) (request : Request) (identifier password : String) (s : Db)
    (u : UserAccount)
    → (authenticate_password env now request identifier password s).0 ≡ ok u
    → (user : UserAccount) × (find_account env identifier s.live ≡ some user)
      × (verify_password env (some user.password_hash) password ≡ true)
      × ((is_blocked user.status ≡ false) ⊎ (lock_is_over env now user ≡ true))
      × (signed_in_as env now (client_ip_hash env request) user ≡ u)
unfolding authenticate_password unlock_found unlock_if_expired cleared
authenticate_password_sound env now request identifier password s u h =
    let normalized = login_identity env identifier in
    let ip_hash = client_ip_hash env request in
    elim (Option-cases (find_account env identifier s.live)) [
      | inl missing ↦
          absurd (check_login-none env now normalized ip_hash password s u (rw missing at h))
      | inr (user, found) ↦ elim (Bool-cases (lock_is_over env now user)) [
        | inl over ↦
            let s' = (clear_failures env now user s).1 in
            let free = record (cleared env now user) { updated_at = now } in
            let (v, _, same) =
              check_login-ok env now normalized ip_hash password true free s' u
                (rw (found, over) at h) in
            (
              user,
              found,
              v,
              inr over,
              sym (signed_in_as-cleared env now ip_hash user (and-left _ _ over)) ∙ same,
            )
        | inr lasting ↦
            let (v, open_status, same) =
              check_login-ok env now normalized ip_hash password false user s u
                (rw (found, lasting) at h) in
            (user, found, v, inl open_status, same)
      ]
    ]
