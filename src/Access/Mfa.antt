-- ===== src/Access/Mfa.antt =====
-- access_control/mfa_service.py: authenticator enrolment, codes, recovery codes, challenges.
pub mod Replay
pub mod Recovery
pub mod Enrollment
use threat_scope_xdr.Prelude.{
  ℕ, zero, suc, ◌+◌, ◌-◌, ◌*◌, ◌/◌, ◌%◌, ◌≤◌, ◌<◌, min, max, String, ◌≡◌, refl, sym, ap, ◌∙◌, ◌≢◌,
  ◌↔◌, ◌⊎◌, inl, inr, Bool, true, false, not, ◌&&◌, ◌||◌, Option, none, some, List, [], ◌∷◌, ◌++◌,
  map, arith, str_eq, starts_with, eq_iff, eq_refl, ltb, leb, ◌==◌, if◌then◌else◌, is_some,
  Bool-cases, Option-cases, length, select, first, count_where, delete_where, update_where, any,
  all, All, next_id, count_where-append, first-test, count_where-delete_where, count_where_mono,
  first-update_where_ne, count_where-update_where_ne, contains, ends_with, nonempty, elem, take,
  rstrip_slash, strip, join_words, is_space, concat, opt_eq, show, ==_iff, opt_eq-eq, count, unique,
  sorted, any-append, any-delete_where, any-delete_where_self, any-select, any_mono, length-append,
  count_where_pos,
}
use threat_scope_xdr.Access.Models.{
  Moment, seconds, minutes, hours, days, Status, Source, is_blocked, is_locked, is_pending_approval,
  is_rejected, is_active, UserAccount, AccessRole, AccessPermission, UserRoleAssignment,
  RolePermissionAssignment, AuthSession, LoginAttempt, MfaDevice, MfaRecoveryCode,
  MfaLoginChallenge, AuditPayload, SecurityAuditEvent, Notification, SocActivity,
}
use threat_scope_xdr.Access.Store.{
  Mode, AccessConfig, Env, Tables, Db, Error, http, value_error, password_policy, Result, ok, err,
  Exec, pure, raise, lift, gets, ◌>>=◌, ◌>>◌, modify, commit, rollback, raise_if, catch, close,
}
use Prim.Native.Char.{code}
use threat_scope_xdr.Access.RateLimit.{hash_value, save_user}
use threat_scope_xdr.Access.Totp.{
  totp_period, totp_valid_window, save_device, decrypted, totp_counter, is_six_digits,
  match_counter, is_used, accept_code, record_use, verify_totp,
}
use threat_scope_xdr.Access.RecoveryCodes.{
  recovery_hash, add_recovery_codes, generate_recovery_codes, is_unused_code, spend_code,
  consume_recovery_code,
}

abbrev pub enrollment_ttl_minutes : ℕ
enrollment_ttl_minutes = 10

abbrev pub max_enrollment_attempts : ℕ
max_enrollment_attempts = 5

-- `order_by(created_at.desc()).first()` of the rows that pass a test
unfoldable pub newest : (MfaDevice → Bool) → List MfaDevice → Option MfaDevice
newest p [] = none
newest p (d ∷ ds) =
    let rest = newest p ds in
    if p d
    then elim rest [
      | none ↦ some d
      | some e ↦ if ltb d.created_at e.created_at then some e else some d
    ]
    else rest

-- `filter_by(user_id=user.id, enabled=False)`
abbrev pub is_pending_of : ℕ → MfaDevice → Bool
is_pending_of user_id d = d.user_id == user_id && not d.enabled

abbrev pub is_enabled_of : ℕ → MfaDevice → Bool
is_enabled_of user_id d = d.user_id == user_id && d.enabled

-- `device.enrollment_expires_at and device.enrollment_expires_at > now`
abbrev pub enrollment_is_open : Moment → MfaDevice → Bool
enrollment_is_open now d = elim d.enrollment_expires_at [ none ↦ false | some t ↦ ltb now t ]

pub data Operation : Type 0 where
  started restarted resumed : Operation

-- `label.strip()[:100] or "Authenticator"`
unfoldable pub device_label : String → String
device_label label =
    let short = take 100 (strip label) in if nonempty short then short else "Authenticator"

-- `pending` is the newest device that is not enabled; `secret` is drawn by pyotp
unfoldable pub start_enrollment :
    Env → Moment → UserAccount → String → String → Operation → Exec (MfaDevice × String × Operation)
start_enrollment env now user label secret operation = do
  modify λ t. record t { devices = delete_where (is_pending_of user.id) t.devices }
  id ← gets λ t. next_id (λ d. d.id) t.devices
  let device : MfaDevice = record {
    id = id;
    user_id = user.id;
    device_type = "totp";
    label = device_label label;
    secret_encrypted_or_protected = env.encrypt secret;
    enabled = false;
    confirmed_at = none;
    last_used_counter = none;
    last_used_at = none;
    enrollment_expires_at = some (now + minutes enrollment_ttl_minutes);
    failed_attempts = 0;
    created_at = now;
    disabled_at = none;
  }
  modify λ t. record t { devices = t.devices ++ device ∷ [] }
  commit
  pure (device, secret, operation)

unfoldable pub begin_with :
    Env
    → Moment
    → UserAccount
    → String
    → Bool
    → String
    → Option MfaDevice
    → Exec (MfaDevice × String × Operation)
unfolding start_enrollment
begin_with env now user label restart secret none =
    start_enrollment env now user label secret Operation.started
begin_with env now user label restart secret (some pending) =
    if enrollment_is_open now pending && not restart
    then (do
      old ← lift (decrypted env pending.secret_encrypted_or_protected)
      pure (pending, old, Operation.resumed))
    else start_enrollment env now user label secret Operation.restarted

unfoldable pub begin_enrollment :
    Env → Moment → UserAccount → String → Bool → String → Exec (MfaDevice × String × Operation)
unfolding begin_with
begin_enrollment env now user label restart secret = do
  pending ← gets λ t. newest (is_pending_of user.id) t.devices
  begin_with env now user label restart secret pending

-- the branch of `confirm_enrollment` after a wrong code
unfoldable pub count_enrollment_failure : MfaDevice → Exec (MfaDevice × List String)
unfolding save_device
count_enrollment_failure device = do
  saved ← save_device (record device { failed_attempts = device.failed_attempts + 1 })
  commit
  raise (
      if leb max_enrollment_attempts saved.failed_attempts
      then Error.enrollment_rate_limit
      else Error.invalid_enrollment_code)

-- the branch after a right code
unfoldable pub finish_enrollment :
    Env → Moment → UserAccount → MfaDevice → List String → Exec (MfaDevice × List String)
unfolding save_device save_user generate_recovery_codes
finish_enrollment env now user device codes = do
  saved ← save_device (record device {
    enabled = true;
    confirmed_at = some now;
    enrollment_expires_at = none;
    failed_attempts = 0;
  })
  save_user now (record user { mfa_enabled = true })
  generate_recovery_codes env now user.id codes false
  commit
  pure (saved, codes)

-- `if not verify_totp(device, code)` and what follows
unfoldable pub conclude :
    Env
    → Moment
    → UserAccount
    → MfaDevice
    → List String
    → Option MfaDevice
    → Exec (MfaDevice × List String)
unfolding count_enrollment_failure finish_enrollment
conclude env now user device codes none = count_enrollment_failure device
conclude env now user device codes (some used) = finish_enrollment env now user used codes

-- `except Exception: db.rollback(); raise`, for the errors other than the two of the enrolment
unfoldable pub roll_back_unexpected : Error → Exec (MfaDevice × List String)
roll_back_unexpected Error.invalid_enrollment_code = raise Error.invalid_enrollment_code
roll_back_unexpected Error.enrollment_rate_limit = raise Error.enrollment_rate_limit
roll_back_unexpected e = rollback >> raise e

unfoldable pub confirm_device :
    Env
    → Moment
    → UserAccount
    → String
    → List String
    → Option MfaDevice
    → Exec (MfaDevice × List String)
unfolding conclude roll_back_unexpected
confirm_device env now user value codes none = raise (value_error "No pending MFA setup was found")
confirm_device env now user value codes (some device) =
    if not (enrollment_is_open now device)
    then (do
      modify λ t. record t { devices = delete_where (λ d. d.id == device.id) t.devices }
      commit
      raise Error.enrollment_expired)
    else if leb max_enrollment_attempts device.failed_attempts
    then raise Error.enrollment_rate_limit
    else catch (verify_totp env now device value >>= conclude env now user device codes)
        roll_back_unexpected

-- `query.filter_by(id=device_id)` if a device is named
abbrev pub is_named : Option ℕ → MfaDevice → Bool
is_named none d = true
is_named (some device_id) d = d.id == device_id

unfoldable pub confirm_enrollment :
    Env → Moment → UserAccount → String → Option ℕ → List String → Exec (MfaDevice × List String)
unfolding confirm_device
confirm_enrollment env now user value device_id codes = do
  device ← gets λ t. newest (λ d. is_pending_of user.id d && is_named device_id d) t.devices
  confirm_device env now user value codes device

unfoldable pub cancel_enrollment : ℕ → Exec ℕ
cancel_enrollment user_id = do
  deleted ← gets λ t. count_where (is_pending_of user_id) t.devices
  modify λ t. record t { devices = delete_where (is_pending_of user_id) t.devices }
  commit
  pure deleted

unfoldable pub create_challenge : Env → Moment → ℕ → String → Exec String
create_challenge env now user_id token = do
  modify λ t. record t {
    challenges =
        t.challenges
        ++ record {
          id = next_id (λ c. c.id) t.challenges;
          user_id = user_id;
          challenge_token_hash = hash_value env token;
          expires_at = now + minutes 5;
          used_at = none;
          failed_attempts = 0;
          created_at = now;
        }
          ∷ [];
  }
  commit
  pure token

abbrev pub challenge_is_open : Moment → MfaLoginChallenge → Bool
challenge_is_open now c = not (is_some c.used_at) && ltb now c.expires_at && ltb c.failed_attempts 5

unfoldable pub get_challenge : Env → Moment → String → Tables → Option MfaLoginChallenge
get_challenge env now token t =
    elim (first (λ c. str_eq c.challenge_token_hash (hash_value env token)) t.challenges) [
      | none ↦ none
      | some c ↦ if challenge_is_open now c then some c else none
    ]

unfoldable pub verify_device : Env → Moment → String → Option MfaDevice → Exec Bool
unfolding verify_totp
verify_device env now value none = pure false
verify_device env now value (some device) = do
  verified ← verify_totp env now device value
  elim verified [ none ↦ pure false | some _ ↦ commit >> pure true ]

unfoldable pub verify_user_factor : Env → Moment → UserAccount → String → Bool → Exec Bool
unfolding consume_recovery_code verify_device
verify_user_factor env now user value recovery =
    if recovery then consume_recovery_code env now user.id value else (do
      device ← gets λ t. first (is_enabled_of user.id) t.devices
      verify_device env now value device)
