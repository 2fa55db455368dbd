-- ===== src/Access/Mfa/Enrollment.antt =====
-- `confirm_enrollment`: when an authenticator is enabled, and how wrong codes are counted.
use threat_scope_xdr.Prelude.{
  ◌+◌, ◌<◌, String, ◌≡◌, refl, sym, ◌∙◌, inl, inr, true, Option, none, some, List, arith, leb, ◌==◌,
  if◌then◌else◌, Bool-cases, Option-cases, update_where, strip,
}
use threat_scope_xdr.Access.Models.{Moment, UserAccount, MfaDevice}
use threat_scope_xdr.Access.Store.{Env, Db, Error, Result, ok, err, lift, ◌>>=◌, catch}
use threat_scope_xdr.Access.Mfa.{
  max_enrollment_attempts, enrollment_is_open, confirm_device, conclude, count_enrollment_failure,
  roll_back_unexpected,
}
use threat_scope_xdr.Access.Totp.{is_six_digits, accept_code, verify_totp, decrypted, record_use}

-- What `confirm_enrollment` needs of the pending device and the code.
pub record CanConfirm (env : Env) (now : Moment) (device : MfaDevice) (value : String)
    (used : MfaDevice) : Type 0 where
  pub still_open : enrollment_is_open now device ≡ true
  pub attempts_left : device.failed_attempts < max_enrollment_attempts
  pub six_digits : is_six_digits (strip value) ≡ true
  pub secret : String
  pub decrypts : env.decrypt device.secret_encrypted_or_protected ≡ some secret
  pub accepts : accept_code env now device (strip value) secret ≡ some used

verify_totp-some :
    (env : Env) (now : Moment) (device : MfaDevice) (value : String) (s : Db) (used : MfaDevice)
    → (verify_totp env now device value s).0 ≡ ok (some used)
    → (is_six_digits (strip value) ≡ true)
      × (secret : String) × (env.decrypt device.secret_encrypted_or_protected ≡ some secret)
      × (accept_code env now device (strip value) secret ≡ some used)
unfolding verify_totp record_use
verify_totp-some env now device value s used h = elim (Bool-cases (is_six_digits (strip value))) [
  | inr bad ↦ cc (rw bad at h)
  | inl good ↦ elim (Option-cases (env.decrypt device.secret_encrypted_or_protected)) [
    | inl broken ↦ cc (rw (good, broken, decrypted) at h)
    | inr (secret, e) ↦ elim (Option-cases (accept_code env now device (strip value) secret)) [
      | inl refused ↦ cc (rw (good, e, decrypted, refused) at h)
      | inr (d, accepted) ↦ (good, secret, e, cc (accepted, rw (good, e, decrypted, accepted) at h))
    ]
  ]
]

-- the device that a confirmed setup leaves
abbrev pub enabled_from : Moment → MfaDevice → MfaDevice
enabled_from now used = record used {
  enabled = true;
  confirmed_at = some now;
  enrollment_expires_at = none;
  failed_attempts = 0;
}

abbrev Confirmed : Type 0
Confirmed = MfaDevice × List String

roll_back-err : (e : Error) (s : Db) → (roll_back_unexpected e s).0 ≡ err e
unfolding roll_back_unexpected
roll_back-err Error.invalid_enrollment_code s = refl
roll_back-err Error.enrollment_rate_limit s = refl
roll_back-err _ s = refl

count_enrollment_failure-err :
    (device : MfaDevice) (s : Db)
    → (count_enrollment_failure device s).0
      ≡ err (
          if leb max_enrollment_attempts (device.failed_attempts + 1)
          then Error.enrollment_rate_limit
          else Error.invalid_enrollment_code)
unfolding count_enrollment_failure
count_enrollment_failure-err device s = refl

caught-ok :
    (r : Result Confirmed) (s : Db) (c : Confirmed)
    → (catch (lift r) roll_back_unexpected s).0 ≡ ok c
    → r ≡ ok c
caught-ok (ok a) s c h = h
caught-ok (err e) s c h = cc (h, roll_back-err e s)

conclude-ok :
    (env : Env) (now : Moment) (user : UserAccount) (device : MfaDevice) (codes : List String)
    (r : Result (Option MfaDevice)) (s : Db) (c : Confirmed)
    → ((lift r >>= conclude env now user device codes) s).0 ≡ ok c
    → (used : MfaDevice) × (r ≡ ok (some used)) × (ok (enabled_from now used, codes) ≡ ok c)
unfolding conclude
conclude-ok env now user device codes (err e) s c h = cc
conclude-ok env now user device codes (ok none) s c h =
    cc (sym (count_enrollment_failure-err device s) ∙ h)
conclude-ok env now user device codes (ok (some used)) s c h = (used, refl, h)

-- Setup is confirmed only while it is open, with fewer than five wrong codes so far, and with six
-- digits that the device accepts; the device that comes back is enabled, has no expiry and no
-- wrong codes, and has recorded the counter of the code. The recovery codes are those drawn.
pub confirm_device_sound :
    (env : Env) (now : Moment) (user : UserAccount) (value : String) (codes : List String)
    (device : MfaDevice) (s : Db) (c : MfaDevice × List String)
    → (confirm_device env now user value codes (some device) s).0 ≡ ok c
    → (used : MfaDevice) × CanConfirm env now device value used
      × (ok (enabled_from now used, codes) ≡ ok c)
unfolding confirm_device
confirm_device_sound env now user value codes device s c h =
    elim (Bool-cases (enrollment_is_open now device)) [
      | inr shut ↦ cc (rw shut at h)
      | inl open_setup ↦ elim (Bool-cases (leb max_enrollment_attempts device.failed_attempts)) [
        | inl full ↦ cc (rw (open_setup, full) at h)
        | inr room ↦
            let (r, s') = verify_totp env now device value s in
            let m = lift r >>= conclude env now user device codes in
            let (used, verified, same) =
              conclude-ok env now user device codes r s' c
                (caught-ok (m s').0 (m s').1 c (rw (open_setup, room) at h)) in
            let (digits, secret, d, a) = verify_totp-some env now device value s used verified in
            (
              used,
              record {
                still_open = open_setup;
                attempts_left = ground arith;
                six_digits = digits;
                secret = secret;
                decrypts = d;
                accepts = a;
              },
              same,
            )
      ]
    ]

-- A code that the device does not accept, in an open setup with attempts left, is an error, costs
-- one attempt, and the count is committed: the fifth wrong code is answered by the rate limit, and
-- the ones before it as an invalid code.
pub confirm_device_counts :
    (env : Env) (now : Moment) (user : UserAccount) (value : String) (codes : List String)
    (device : MfaDevice) (s : Db)
    → enrollment_is_open now device ≡ true
    → device.failed_attempts < max_enrollment_attempts
    → verify_totp env now device value s ≡ (ok none, s)
    → let (r, s') = confirm_device env now user value codes (some device) s in
      (r
        ≡ err (
            if device.failed_attempts + 1 == max_enrollment_attempts
            then Error.enrollment_rate_limit
            else Error.invalid_enrollment_code))
      × (s'.saved.devices
          ≡ update_where
              (λ d. d.id == device.id)
              (λ _. record device { failed_attempts = device.failed_attempts + 1 })
              s.live.devices)
unfolding confirm_device conclude count_enrollment_failure roll_back_unexpected
confirm_device_counts env now user value codes device s open_setup room wrong = ground arith
