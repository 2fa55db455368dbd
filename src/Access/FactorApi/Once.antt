-- ===== src/Access/FactorApi/Once.antt =====
-- An answer uses a challenge up.
use threat_scope_xdr.Prelude.{
  ℕ, String, ◌≡◌, refl, ap, ◌∙◌, Bool, true, false, Option, none, some, List, [], ◌∷◌, arith,
  str_eq, ◌==◌, is_some, first, update_where, first-test,
}
use threat_scope_xdr.Access.Models.{
  Moment, UserAccount, MfaDevice, MfaRecoveryCode, MfaLoginChallenge,
}
use threat_scope_xdr.Access.Store.{Env, Tables, Db, http, ok, err, Exec, pure, lift, ◌>>◌, commit}
use threat_scope_xdr.Access.Store.{bind_ok, bind_step}
use threat_scope_xdr.Access.Keeps.{Keeps, Keeps-bind, keeps_rules}
use threat_scope_xdr.Access.RateLimit.{hash_value}
use threat_scope_xdr.Access.Sessions.{Request, create_session}
use threat_scope_xdr.Access.Mfa.{get_challenge, verify_user_factor, verify_device}
use threat_scope_xdr.Access.Totp.{verify_totp, record_use, save_device}
use threat_scope_xdr.Access.RecoveryCodes.{consume_recovery_code, spend_code}
use threat_scope_xdr.Access.Audit.{append_event}
use threat_scope_xdr.Access.Login.{audit, Draws}
use threat_scope_xdr.Access.FactorApi.{
  challenge_or_401, open_user_or_401, save_challenge, accept_factor, decide_factor, verify_factor,
  answer_challenge, verify_mfa_login,
}
use threat_scope_xdr.Access.FactorApi.Challenges.{decide_factor-ok, row_found}

-- a query finds the row that an update put in the place of the row that it found before
first-update_where_const :
    (p q : MfaLoginChallenge → Bool) (rows : List MfaLoginChallenge) (c c' : MfaLoginChallenge)
    → first p rows ≡ some c
    → q c ≡ true
    → p c' ≡ true
    → first p (update_where q (λ _. c') rows) ≡ some c'
first-update_where_const p q [] c c' e h k = absurd (cc e)
first-update_where_const p q (x ∷ xs) c c' e h k =
    ground (arith, first-update_where_const p q xs c c')

module _ (cs : List MfaLoginChallenge) where
  -- the challenges stay as they are
  abbrev HasChallenges : Db → Type 0
  HasChallenges s = s.live.challenges ≡ cs

  spend_code-Keeps :
      (now : Moment) (o : Option MfaRecoveryCode) → Keeps HasChallenges (spend_code now o)
  unfolding spend_code
  spend_code-Keeps now none = record { at = λ s h. h }
  spend_code-Keeps now (some item) = record { at = λ s h. h }

  consume_recovery_code-Keeps :
      (env : Env) (now : Moment) (user_id : ℕ) (value : String)
      → Keeps HasChallenges (consume_recovery_code env now user_id value)
  unfolding consume_recovery_code
  consume_recovery_code-Keeps env now user_id value = search (keeps_rules, spend_code-Keeps)

  record_use-Keeps : (o : Option MfaDevice) → Keeps HasChallenges (record_use o)
  unfolding record_use save_device
  record_use-Keeps none = record { at = λ s h. h }
  record_use-Keeps (some used) = record { at = λ s h. h }

  verify_totp-Keeps :
      (env : Env) (now : Moment) (device : MfaDevice) (value : String)
      → Keeps HasChallenges (verify_totp env now device value)
  unfolding verify_totp
  verify_totp-Keeps env now device value = search (keeps_rules, record_use-Keeps)

  verified-Keeps :
      (o : Option MfaDevice)
      → Keeps HasChallenges
          (let m : Exec Bool = elim o [ none ↦ pure false | some _ ↦ commit >> pure true ] in m)
  verified-Keeps none = record { at = λ s h. h }
  verified-Keeps (some used) = record { at = λ s h. h }

  verify_device-Keeps :
      (env : Env) (now : Moment) (value : String) (o : Option MfaDevice)
      → Keeps HasChallenges (verify_device env now value o)
  unfolding verify_device
  verify_device-Keeps env now value none = record { at = λ s h. h }
  verify_device-Keeps env now value (some device) =
      Keeps-bind (verify_totp env now device value) _ (verify_totp-Keeps env now device value)
        verified-Keeps

  -- no test of a factor writes a challenge
  verify_user_factor-Keeps :
      (env : Env) (now : Moment) (user : UserAccount) (value : String) (recovery : Bool)
      → Keeps HasChallenges (verify_user_factor env now user value recovery)
  unfolding verify_user_factor
  verify_user_factor-Keeps env now user value recovery =
      search (keeps_rules, consume_recovery_code-Keeps, verify_device-Keeps)

accept_factor-challenges :
    (env : Env) (now : Moment) (request : Request) (draws : Draws) (challenge : MfaLoginChallenge)
    (user : UserAccount) (s : Db)
    → (accept_factor env now request draws challenge user s).1.live.challenges
      ≡ update_where
          (λ c. c.id == challenge.id)
          (λ _. record challenge { used_at = some now })
          s.live.challenges
unfolding accept_factor save_challenge create_session audit append_event
accept_factor-challenges env now request draws challenge user s = refl

-- an answer that goes through leaves the challenge used
answered :
    (env : Env) (now : Moment) (request : Request) (draws : Draws) (token value : String)
    (recovery : Bool) (s : Db) (b : ℕ × String)
    → (verify_mfa_login env now request draws token value recovery s).0 ≡ ok b
    → (c : MfaLoginChallenge) × (first
          (λ r. str_eq r.challenge_token_hash (hash_value env token))
          (verify_mfa_login env now request draws token value recovery s).1.live.challenges
        ≡ some c)
      × (is_some c.used_at ≡ true)
unfolding verify_mfa_login answer_challenge verify_factor decide_factor
answered env now request draws token value recovery s b h =
    let get = lift (challenge_or_401 (get_challenge env now token s.live)) in
    let answer = answer_challenge env now request draws value recovery in
    let (challenge, found, rest) = bind_ok get answer s b h in
    let load = lift (open_user_or_401 (first (λ u. u.id == challenge.user_id) s.live.users)) in
    let verify = verify_factor env now request draws value recovery challenge in
    let (user, known, more) = bind_ok load verify s b rest in
    let check = verify_user_factor env now user value recovery in
    let decide = decide_factor env now request draws challenge user in
    let (verified, good, last) = bind_ok check decide s b more in
    let s1 = (check s).1 in
    let yes =
      decide_factor-ok env now request draws value recovery challenge user verified s1 b last in
    let whole =
      bind_step get answer s challenge found
      ∙ bind_step load verify s user known
      ∙ bind_step check decide s verified good
      ∙ ap (λ v. decide v s1) yes in
    let used : MfaLoginChallenge = record challenge { used_at = some now } in
    let p : MfaLoginChallenge → Bool = λ r. str_eq r.challenge_token_hash (hash_value env token) in
    let (row, _) = row_found env now request draws value recovery token s.live challenge found in
    let kept = (verify_user_factor-Keeps s.live.challenges env now user value recovery).at s refl in
    let rows =
      ap (λ q. q.1.live.challenges) whole
      ∙ accept_factor-challenges env now request draws challenge user s1
      ∙ ap (update_where (λ c. c.id == challenge.id) (λ _. used)) kept in
    (
      used,
      ap (first p) rows
          ∙ first-update_where_const p (λ c. c.id == challenge.id) s.live.challenges challenge used
              row (ground arith) (first-test p s.live.challenges challenge row),
      refl,
    )

no_challenge :
    (env : Env) (now : Moment) (token : String) (t : Tables) (c : MfaLoginChallenge)
    → first (λ r. str_eq r.challenge_token_hash (hash_value env token)) t.challenges ≡ some c
    → is_some c.used_at ≡ true
    → get_challenge env now token t ≡ none
unfolding get_challenge
no_challenge env now token t c row spent = rw (row, spent, get_challenge) refl

-- the token of a used challenge is refused
refused :
    (env : Env) (now : Moment) (request : Request) (draws : Draws) (token value : String)
    (recovery : Bool) (s : Db) (c : MfaLoginChallenge)
    → first (λ r. str_eq r.challenge_token_hash (hash_value env token)) s.live.challenges ≡ some c
    → is_some c.used_at ≡ true
    → (verify_mfa_login env now request draws token value recovery s).0
      ≡ err (http 401 "MFA challenge is invalid or expired")
unfolding verify_mfa_login
refused env now request draws token value recovery s c row spent =
    rw (no_challenge env now token s.live c row spent) refl

-- A challenge signs in once: after an answer that went through, every later answer under the same
-- token is refused as invalid or expired, whatever the factor, the request and the moment.
pub verify_mfa_login_once :
    (env : Env) (now later : Moment) (request request' : Request) (draws draws' : Draws)
    (token value value' : String) (recovery recovery' : Bool) (s : Db) (b : ℕ × String)
    → (verify_mfa_login env now request draws token value recovery s).0 ≡ ok b
    → (verify_mfa_login env later request' draws' token value' recovery'
        (verify_mfa_login env now request draws token value recovery s).1).0
      ≡ err (http 401 "MFA challenge is invalid or expired")
verify_mfa_login_once env now later request request' draws draws' token value value' recovery
      recovery' s b h =
    let (used, row, spent) = answered env now request draws token value recovery s b h in
    refused env later request' draws' token value' recovery'
      (verify_mfa_login env now request draws token value recovery s).1 used row spent
