-- ===== src/Access/Store.antt =====
-- The database session that the services are given, and the outside world that they call.
use threat_scope_xdr.Prelude.{ap, ℕ, String, Bool, Option, List, ◌≡◌, refl, true, false}
use threat_scope_xdr.Access.Models.{
  UserAccount, AccessRole, AccessPermission, UserRoleAssignment, RolePermissionAssignment,
  AuthSession, LoginAttempt, MfaDevice, MfaRecoveryCode, MfaLoginChallenge, AuditPayload,
  SecurityAuditEvent, Notification, SocActivity,
}

-- `registration_mode` of access_control/config.py
pub data Mode : Type 0 where
  disabled approval_required auto_activate_limited : Mode

pub record AccessConfig : Type 0 where
  pub enabled : Bool
  pub environment : String
  pub session_secret : String
  pub mfa_encryption_key : String
  pub allowed_origins : List String
  pub cookie_secure : Bool
  pub cookie_samesite : String
  pub session_hours : ℕ
  pub idle_minutes : ℕ
  pub login_max_attempts : ℕ
  pub lockout_minutes : ℕ
  pub local_login_enabled : Bool
  pub self_registration_enabled : Bool
  pub registration_mode : Mode
  pub privacy_notice_version : String

-- What the code calls and this repository does not implement: hashlib, argon2, pyotp, Fernet,
-- the Unicode tables of Python, and `json.dumps` at the two types of values that are dumped here.
pub record Env : Type 0 where
  pub config : AccessConfig
  pub sha256 : String → String
  -- the salt and the password
  pub argon2_hash : String → String → String
  pub argon2_verify : String → String → Bool
  pub generate_otp : String → ℕ → String
  pub encrypt : String → String
  pub decrypt : String → Option String
  pub nfkc : String → String
  pub casefold : String → String
  pub upper : String → String
  pub lower : String → String
  -- `str.isdigit`
  pub is_digit : String → Bool
  pub dumps_payload : AuditPayload → String
  pub dumps_texts : List String → String

pub record Tables : Type 0 where
  pub users : List UserAccount
  pub roles : List AccessRole
  pub permissions : List AccessPermission
  pub user_roles : List UserRoleAssignment
  pub role_permissions : List RolePermissionAssignment
  pub sessions : List AuthSession
  pub attempts : List LoginAttempt
  pub devices : List MfaDevice
  pub recovery_codes : List MfaRecoveryCode
  pub challenges : List MfaLoginChallenge
  pub events : List SecurityAuditEvent
  pub notifications : List Notification
  pub activities : List SocActivity

-- `live` is what the session sees, `saved` what the last commit left.
pub record Db : Type 0 where
  pub live : Tables
  pub saved : Tables

pub data Error : Type 0 where
  http : ℕ → String → Error
  value_error : String → Error
  password_policy : String → Error
  management_rate_limit : Error
  enrollment_expired : Error
  enrollment_rate_limit : Error
  invalid_enrollment_code : Error

pub data Result {ℓ} (A : Type ℓ) : Type ℓ where
  ok : A → Result A
  err : Error → Result A

-- A service call. What it wrote before it raised is still there after the raise.
abbrev pub Exec : Type 0 → Type 0
Exec A = Db → Result A × Db

module _ {A : Type 0} where
  abbrev pub pure : A → Exec A
  pure a s = (ok a, s)

  abbrev pub raise : Error → Exec A
  raise e s = (err e, s)

  abbrev pub lift : Result A → Exec A
  lift r s = (r, s)

  abbrev pub gets : (Tables → A) → Exec A
  gets f s = (ok (f s.live), s)

infixl 5 ◌>>=◌ ◌>>◌
abbrev pub ◌>>=◌ : {A B : Type 0} → Exec A → (A → Exec B) → Exec B
◌>>=◌ m f s = let (r, s') = m s in elim r [ ok a ↦ f a s' | err e ↦ (err e, s') ]

abbrev pub ◌>>◌ : {A B : Type 0} → Exec A → Exec B → Exec B
m >> k = m >>= λ _. k

-- `db.add`, `db.delete`, `query.update` and assignments to columns
abbrev pub modify : (Tables → Tables) → Exec (Unit {0})
modify f s = (ok tt, record s { live = f s.live })

abbrev pub commit : Exec (Unit {0})
commit s = (ok tt, record s { saved = s.live })

abbrev pub rollback : Exec (Unit {0})
rollback s = (ok tt, record s { live = s.saved })

abbrev pub raise_if : Bool → Error → Exec (Unit {0})
raise_if true e = raise e
raise_if false e = pure tt

-- `try: m except (...): handler`
abbrev pub catch : {A : Type 0} → Exec A → (Error → Exec A) → Exec A
catch m handler s = let (r, s') = m s in elim r [ ok a ↦ (ok a, s') | err e ↦ handler e s' ]

-- `get_db` closes the session after the request, which drops what was not committed.
abbrev pub close : Db → Db
close s = record s { live = s.saved }

-- What holds after a call that is followed by another: the second may use what the first returned.
pub bind_keeps :
    {A B : Type 0} (P : Db → Type 0) (m : Exec A) (f : A → Exec B) (s : Db)
    → P (m s).1
    → ((a : A) → (m s).0 ≡ ok a → P (f a (m s).1).1)
    → P ((m >>= f) s).1
bind_keeps {A} {B} P m f s first_part second_part = go (m s).0 refl
  where
    go :
        (r : Result A)
        → (m s).0 ≡ r
        → P (
            let q : Result B × Db = elim r [ ok a ↦ f a (m s).1 | err e ↦ (err e, (m s).1) ] in q.1)
    go (ok a) e = second_part a e
    go (err x) e = first_part

-- A call that is followed by another returns if both do.
pub bind_ok :
    {A B : Type 0} (m : Exec A) (f : A → Exec B) (s : Db) (b : B)
    → ((m >>= f) s).0 ≡ ok b
    → (a : A) × ((m s).0 ≡ ok a) × ((f a (m s).1).0 ≡ ok b)
bind_ok {A} {B} m f s b h = go (m s).0 refl h
  where
    go :
        (r : Result A)
        → (m s).0 ≡ r
        → (let q : Result B × Db = elim r [ ok a ↦ f a (m s).1 | err e ↦ (err e, (m s).1) ] in q.0)
          ≡ ok b
        → (a : A) × ((m s).0 ≡ ok a) × ((f a (m s).1).0 ≡ ok b)
    go (ok a) e k = (a, e, k)
    go (err x) e k = absurd (cc k)

pub raise_if-ok : (b : Bool) (e : Error) (s : Db) → (raise_if b e s).0 ≡ ok tt → b ≡ false
raise_if-ok true e s h = absurd (cc h)
raise_if-ok false e s h = refl

pub raise_if-state : (b : Bool) (e : Error) (s : Db) → (raise_if b e s).1 ≡ s
raise_if-state true e s = refl
raise_if-state false e s = refl

-- What follows a call that raises is not run.
pub bind_err :
    {A B : Type 0} (m : Exec A) (f : A → Exec B) (s s' : Db) (e : Error)
    → m s ≡ (err e, s')
    → (m >>= f) s ≡ (err e, s')
bind_err m f s s' e h = rw (h, ◌>>=◌) (ap (λ q. (err e, q.1)) h)

-- A call that returns goes on from what it returned and what it left.
pub bind_step :
    {A B : Type 0} (m : Exec A) (f : A → Exec B) (s : Db) (a : A)
    → (m s).0 ≡ ok a
    → (m >>= f) s ≡ f a (m s).1
bind_step m f s a h = rw (h, ◌>>=◌) refl
