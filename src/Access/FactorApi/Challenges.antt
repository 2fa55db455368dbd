-- ===== src/Access/FactorApi/Challenges.antt =====
-- Challenges of the second factor: what answers them.
use threat_scope_xdr.Prelude.{
  ℕ, String, ◌≡◌, refl, ap, ◌∙◌, Bool, true, false, Option, none, some, str_eq, ◌==◌, if◌then◌else◌,
  first,
}
use threat_scope_xdr.Access.Models.{Moment, is_blocked, UserAccount, MfaLoginChallenge}
use threat_scope_xdr.Access.Store.{Env, Tables, Db, http, Result, ok, err, lift}
use threat_scope_xdr.Access.Store.{bind_ok}
use mathlib.Core.Path.{subst}
use threat_scope_xdr.Access.Returns.{ok_injective}
use threat_scope_xdr.Access.RateLimit.{hash_value}
use threat_scope_xdr.Access.Sessions.{Request}
use threat_scope_xdr.Access.Mfa.{get_challenge, challenge_is_open, verify_user_factor}
use threat_scope_xdr.Access.Audit.{append_event}
use threat_scope_xdr.Access.Login.{audit, Draws}
use threat_scope_xdr.Access.FactorApi.{
  challenge_or_401, open_user_or_401, refuse_factor, decide_factor, verify_factor, answer_challenge,
  verify_mfa_login,
}

module _ (env : Env) (now : Moment) (request : Request) (draws : Draws) (value : String)
    (recovery : Bool) where
  refuse_factor-err :
      (challenge : MfaLoginChallenge) (user : UserAccount) (s : Db)
      → (refuse_factor env now request challenge user s).0
        ≡ err (http 401 "MFA verification failed")
  unfolding refuse_factor audit append_event
  refuse_factor-err challenge user s = refl

  pub decide_factor-ok :
      (challenge : MfaLoginChallenge) (user : UserAccount) (verified : Bool) (s : Db)
      (b : ℕ × String)
      → (decide_factor env now request draws challenge user verified s).0 ≡ ok b
      → verified ≡ true
  unfolding decide_factor
  decide_factor-ok challenge user true s b h = refl
  decide_factor-ok challenge user false s b h = absurd (cc (h, refuse_factor-err challenge user s))

  -- What an answer that goes through found.
  pub record IsAnswered (token : String) (s : Db) (challenge : MfaLoginChallenge)
      (user : UserAccount) : Type 0 where
    pub found :
        first (λ c. str_eq c.challenge_token_hash (hash_value env token)) s.live.challenges
        ≡ some challenge
    pub still_open : challenge_is_open now challenge ≡ true
    pub owner : first (λ u. u.id == challenge.user_id) s.live.users ≡ some user
    pub not_blocked : is_blocked user.status ≡ false
    pub verified : (verify_user_factor env now user value recovery s).0 ≡ ok true

  -- the query of `get_challenge`
  abbrev pub row_of : String → Tables → Option MfaLoginChallenge
  row_of token t = first (λ c. str_eq c.challenge_token_hash (hash_value env token)) t.challenges

  pub row_found :
      (token : String) (t : Tables) (challenge : MfaLoginChallenge)
      → challenge_or_401 (get_challenge env now token t) ≡ ok challenge
      → (row_of token t ≡ some challenge) × (challenge_is_open now challenge ≡ true)
  unfolding get_challenge
  row_found token t challenge h = go (row_of token t) refl h
    where
      by_state :
          (c : MfaLoginChallenge) (open_now : Bool)
          → challenge_is_open now c ≡ open_now
          → row_of token t ≡ some c
          → challenge_or_401 (if open_now then some c else none) ≡ ok challenge
          → (row_of token t ≡ some challenge) × (challenge_is_open now challenge ≡ true)
      by_state c true good e k =
          let same = ok_injective k in
          (e ∙ ap some same, subst (λ v. challenge_is_open now v ≡ true) same good)
      by_state c false shut e k = absurd (cc k)

      go :
          (o : Option MfaLoginChallenge)
          → row_of token t ≡ o
          → challenge_or_401
              (elim o [ none ↦ none | some c ↦ if challenge_is_open now c then some c else none ])
            ≡ ok challenge
          → (row_of token t ≡ some challenge) × (challenge_is_open now challenge ≡ true)
      go none e k = absurd (cc k)
      go (some c) e k = by_state c (challenge_is_open now c) refl e k

  open_user_found :
      (o : Option UserAccount) (user : UserAccount)
      → open_user_or_401 o ≡ ok user
      → (o ≡ some user) × (is_blocked user.status ≡ false)
  open_user_found none user h = absurd (cc h)
  open_user_found (some u) user h = by_status (is_blocked u.status) refl h
    where
      by_status :
          (b : Bool)
          → is_blocked u.status ≡ b
          → (let r : Result UserAccount =
                if b then err (http 401 "MFA challenge is invalid or expired") else ok u in
              r)
            ≡ ok user
          → (some u ≡ some user) × (is_blocked user.status ≡ false)
      by_status true e k = absurd (cc k)
      by_status false e k =
          let same = ok_injective k in
          (ap some same, subst (λ v. is_blocked v.status ≡ false) same e)

-- A sign-in with a second factor goes through only for the token of a challenge that is unused, has
-- not expired and has fewer than five wrong answers, whose user is neither disabled nor locked, and
-- with a factor that `verify_user_factor` accepts.
pub verify_mfa_login_sound :
    (env : Env) (now : Moment) (request : Request) (draws : Draws) (token value : String)
    (recovery : Bool) (s : Db) (b : ℕ × String)
    → (verify_mfa_login env now request draws token value recovery s).0 ≡ ok b
    → (challenge : MfaLoginChallenge) × (user : UserAccount) × IsAnswered env now request draws
        value recovery token s challenge user
unfolding verify_mfa_login answer_challenge verify_factor
verify_mfa_login_sound env now request draws token value recovery s b h =
    let (challenge, found, rest) =
      bind_ok (lift (challenge_or_401 (get_challenge env now token s.live)))
        (answer_challenge env now request draws value recovery) s b h in
    let owner = first (λ u. u.id == challenge.user_id) s.live.users in
    let (user, known, more) =
      bind_ok (lift (open_user_or_401 owner))
        (verify_factor env now request draws value recovery challenge) s b rest in
    let (verified, good, last) =
      bind_ok (verify_user_factor env now user value recovery)
        (decide_factor env now request draws challenge user) s b more in
    let (row, still_open) =
      row_found env now request draws value recovery token s.live challenge found in
    let (known_user, not_blocked) =
      open_user_found env now request draws value recovery owner user known in
    (
      challenge,
      user,
      record {
        found = row;
        still_open = still_open;
        owner = known_user;
        not_blocked = not_blocked;
        verified =
            good
            ∙ ap ok (
                decide_factor-ok env now request draws value recovery challenge user verified
                  (verify_user_factor env now user value recovery s).1 b last);
      },
    )
