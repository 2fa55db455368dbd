-- ===== src/Access/Accounts.antt =====
-- access_control/account_service.py: registration, and its review by administrators.
pub mod Administrators
pub mod Registered
use threat_scope_xdr.Prelude.{
  ℕ, zero, suc, ◌+◌, ◌-◌, ◌*◌, ◌/◌, ◌%◌, ◌≤◌, ◌<◌, min, max, String, ◌≡◌, refl, sym, ap, ◌∙◌, ◌≢◌,
  ◌↔◌, ◌⊎◌, inl, inr, Bool, true, false, not, ◌&&◌, ◌||◌, Option, none, some, List, [], ◌∷◌, ◌++◌,
  map, arith, str_eq, starts_with, eq_iff, eq_refl, ltb, leb, ◌==◌, if◌then◌else◌, is_some,
  Bool-cases, Option-cases, length, select, first, count_where, delete_where, update_where, any,
  all, All, next_id, count_where-append, first-test, count_where-delete_where, count_where_mono,
  first-update_where_ne, count_where-update_where_ne, contains, ends_with, nonempty, elem, take,
  rstrip_slash, strip, join_words, is_space, concat, opt_eq, show, ==_iff, opt_eq-eq, count, unique,
  sorted, any-append, any-delete_where, any-delete_where_self, any-select, any_mono, length-append,
  count_where_pos,
}
use threat_scope_xdr.Access.Models.{
  Moment, seconds, minutes, hours, days, Status, Source, is_blocked, is_locked, is_pending_approval,
  is_rejected, is_active, UserAccount, AccessRole, AccessPermission, UserRoleAssignment,
  RolePermissionAssignment, AuthSession, LoginAttempt, MfaDevice, MfaRecoveryCode,
  MfaLoginChallenge, AuditPayload, SecurityAuditEvent, Notification, SocActivity,
}
use threat_scope_xdr.Access.Store.{
  Mode, AccessConfig, Env, Tables, Db, Error, http, value_error, password_policy, Result, ok, err,
  Exec, pure, raise, lift, gets, ◌>>=◌, ◌>>◌, modify, commit, rollback, raise_if, catch, close,
}
use Prim.Native.Char.{code}
use threat_scope_xdr.Access.RateLimit.{
  save_user, is_registration_rate_limited, record_registration_attempt, clear_user_login_attempts,
}
use threat_scope_xdr.Access.Password.{hash_password}
use threat_scope_xdr.Access.Roles.{assign_roles}
use threat_scope_xdr.Access.Sessions.{Request, client_ip_hash, revoke_user_sessions}
use threat_scope_xdr.Access.Users.{
  normalize_username, normalize_email, validate_display_name, by_username, by_email,
  ensure_not_last_admin,
}
use threat_scope_xdr.Access.Names.{
  local_part, domain_part, mask_email, username_base, free_username,
}
use threat_scope_xdr.Access.Notices.{status_text, activity, opt_id_eq, notify}

-- RegistrationRequest of schemas.py, and what the request draws: the salt and the name tokens.
pub record Registration : Type 0 where
  pub email : String
  pub username : Option String
  pub display_name : String
  pub password : String
  pub password_confirmation : String
  pub terms_accepted : Bool
  pub privacy_notice_version : String
  pub salt : String
  pub tokens : List String

abbrev pub is_disabled_mode : Mode → Bool
is_disabled_mode Mode.disabled = true
is_disabled_mode _ = false

abbrev pub initial_status : Mode → Status
initial_status Mode.approval_required = Status.pending_approval
initial_status _ = Status.active

-- `payload.username.strip() if payload.username else generated_username(...)`
unfoldable pub chosen_username : Env → Registration → String → Tables → Result String
chosen_username env payload email_normalized t =
    let generated = free_username (username_base env email_normalized) payload.tokens t in
    elim payload.username [
      | none ↦ generated
      | some name ↦ if nonempty name then ok (strip name) else generated
    ]

abbrev pub taken : Bool → Result (Unit {0})
taken true = err (value_error "Account registration could not be completed")
taken false = ok tt

-- the row that `register_local_account` adds
unfoldable pub registered :
    Env → Moment → Registration → ℕ → String → String → String → String → String → UserAccount
registered env now payload id username username_normalized display_name email_normalized digest =
    let status = initial_status env.config.registration_mode in
    record {
      id = id;
      username = username;
      username_normalized = username_normalized;
      display_name = display_name;
      email = some (strip payload.email);
      email_normalized = some email_normalized;
      password_hash = digest;
      status = status;
      is_system_admin = false;
      failed_login_count = 0;
      locked_until = none;
      password_changed_at = now;
      must_change_password = false;
      mfa_enabled = false;
      last_login_at = none;
      last_login_ip_hash = none;
      created_at = now;
      updated_at = now;
      disabled_at = none;
      registration_source = Source.local;
      approved_at = if is_active status then some now else none;
      approved_by_user_id = none;
      rejected_at = none;
      rejected_by_user_id = none;
      rejection_reason = none;
      terms_accepted_at = some now;
      privacy_notice_version = some env.config.privacy_notice_version;
      email_verified = false;
      onboarding_completed_at = none;
      is_demo_account = false;
    }

-- the body of the `try` in `register_local_account`
unfoldable pub try_register : Env → Moment → Registration → String → Exec UserAccount
unfolding assign_roles clear_user_login_attempts
try_register env now payload email_normalized = do
  raise_if (not payload.terms_accepted)
      (value_error "Terms and privacy acknowledgement is required")
  raise_if (not (str_eq payload.privacy_notice_version env.config.privacy_notice_version))
      (value_error "The current privacy notice must be accepted")
  raise_if (not (str_eq payload.password payload.password_confirmation))
      (value_error "Password confirmation does not match")
  chosen ← gets (chosen_username env payload email_normalized)
  username ← lift chosen
  username_normalized ← lift (normalize_username env username)
  display_name ← lift (validate_display_name payload.display_name)
  duplicate ←
      gets λ t. is_some (by_email email_normalized t) || is_some (by_username username_normalized t)
  lift (taken duplicate)
  digest ← lift (
      hash_password env payload.salt payload.password username_normalized
        (local_part email_normalized ∷ []))
  id ← gets λ t. next_id (λ u. u.id) t.users
  let user =
      registered env now payload id username username_normalized display_name email_normalized
        digest
  modify λ t. record t { users = t.users ++ user ∷ [] }
  assign_roles now user ("registered_user" ∷ []) none
  commit
  clear_user_login_attempts env now user
  commit
  pure user

-- the message that the visitor sees
unfoldable pub public_message : Env → String → String
public_message env message =
    if contains (env.lower message) "already"
      || contains (env.lower message) "could not be completed"
    then "Account registration could not be completed"
    else message

-- `except (ValueError, PasswordPolicyError) as exc`
unfoldable pub registration_failed :
    Env → Moment → String → Option String → Error → Exec UserAccount
unfolding record_registration_attempt
registration_failed env now email_normalized ip_hash (value_error message) = do
  rollback
  record_registration_attempt env now email_normalized ip_hash false (some "validation")
  raise (http 422 (public_message env message))
registration_failed env now email_normalized ip_hash (password_policy message) = do
  rollback
  record_registration_attempt env now email_normalized ip_hash false (some "validation")
  raise (http 422 (public_message env message))
registration_failed env now email_normalized ip_hash e = raise e

unfoldable pub normalized_or_422 : Result (Option String) → Result String
normalized_or_422 (ok none) = err (http 422 "Email address is required")
normalized_or_422 (ok (some email)) =
    if nonempty email then ok email else err (http 422 "Email address is required")
normalized_or_422 (err (value_error message)) = err (http 422 message)
normalized_or_422 (err e) = err e

-- the notification that follows a registration
unfoldable pub announce : Moment → UserAccount → Exec (Unit {0})
unfolding notify
announce now user =
    if is_pending_approval user.status
    then notify now "Registration Submitted"
        (concat "Registration for " (concat user.username " requires administrator review."))
        user.id none true
    else notify now "Registration Activated" "Your limited local ThreatScope account is ready."
        user.id (some user.id) false

-- `register_local_account` after the account has been added
unfoldable pub conclude_registration :
    Env → Moment → String → Option String → UserAccount → Exec UserAccount
unfolding activity announce record_registration_attempt
conclude_registration env now email_normalized ip_hash user = do
  record_registration_attempt env now email_normalized ip_hash true none
  activity now "account_registered"
      (concat "Local account " (
        concat user.username
          (concat " registered with status " (concat (status_text user.status) "."))))
      user.id
  announce now user
  commit
  pure user

unfoldable pub register_local_account : Env → Moment → Request → Registration → Exec UserAccount
unfolding conclude_registration
register_local_account env now request payload = do
  raise_if
      (not env.config.local_login_enabled
        || not env.config.self_registration_enabled
        || is_disabled_mode env.config.registration_mode)
      (http 403 "Local account registration is unavailable")
  let ip_hash = client_ip_hash env request
  email_normalized ← lift (normalized_or_422 (normalize_email env (some payload.email)))
  limited ← gets (is_registration_rate_limited env now email_normalized ip_hash)
  raise_if limited (http 429 "Registration temporarily unavailable. Try again later.")
  user ←
      catch (try_register env now payload email_normalized)
        (registration_failed env now email_normalized ip_hash)
  conclude_registration env now email_normalized ip_hash user

-- `keys or ["registered_user"]`
abbrev pub or_registered : List String → List String
or_registered [] = "registered_user" ∷ []
or_registered (k ∷ ks) = k ∷ ks

unfoldable pub approve_registration :
    Env → Moment → UserAccount → UserAccount → List String → Bool → Exec UserAccount
unfolding assign_roles save_user activity notify
approve_registration env now user actor keys confirm_administrator = do
  raise_if (not (is_pending_approval user.status || is_rejected user.status))
      (value_error "Only pending or reopened registrations can be approved")
  let chosen = unique (or_registered keys)
  raise_if (elem "administrator" chosen && not confirm_administrator)
      (value_error "Administrator assignment requires explicit confirmation")
  roles ← gets λ t. select (λ r. elem r.role_key chosen) t.roles
  raise_if (not (length roles == length chosen) || any (λ r. not r.enabled) roles)
      (value_error "One or more roles are invalid or disabled")
  assign_roles now user chosen (some actor.id)
  saved ← save_user now (record user {
    status = Status.active;
    is_system_admin = elem "administrator" chosen;
    approved_at = some now;
    approved_by_user_id = some actor.id;
  })
  commit
  activity now "account_approved" (concat "Registration " (concat user.username " approved."))
      user.id
  notify now "Registration Approved" "Your local ThreatScope account was approved." user.id
      (some user.id) false
  commit
  pure saved

-- `reject_registration` after its guards
unfoldable pub finish_rejection :
    Env → Moment → UserAccount → UserAccount → String → Exec UserAccount
unfolding save_user revoke_user_sessions activity notify
finish_rejection env now user actor bounded = do
  saved ← save_user now (record user {
    status = Status.rejected;
    rejected_at = some now;
    rejected_by_user_id = some actor.id;
    rejection_reason = some bounded;
  })
  commit
  revoke_user_sessions env now user.id "registration_rejected" none
  activity now "account_rejected" (concat "Registration " (concat user.username " rejected."))
      user.id
  notify now "Registration Rejected"
      "Your local account registration was not approved. Contact an administrator." user.id
      (some user.id) false
  commit
  pure saved

unfoldable pub reject_registration :
    Env → Moment → UserAccount → UserAccount → String → Exec UserAccount
unfolding ensure_not_last_admin finish_rejection
reject_registration env now user actor reason = do
  let bounded = join_words (strip reason)
  raise_if (not (leb 3 (count bounded) && leb (count bounded) 500))
      (value_error "A bounded rejection reason is required")
  raise_if (not (is_pending_approval user.status || is_active user.status))
      (value_error "Registration cannot be rejected from its current status")
  ensure_not_last_admin user
  finish_rejection env now user actor bounded

unfoldable pub reopen_registration : Moment → UserAccount → Exec UserAccount
unfolding save_user activity notify
reopen_registration now user = do
  raise_if (not (is_rejected user.status))
      (value_error "Only rejected registrations can be reopened")
  saved ← save_user now (record user { status = Status.pending_approval })
  commit
  activity now "account_reopened"
      (concat "Registration " (concat user.username " reopened for review.")) user.id
  notify now "Registration Reopened"
      (concat "Registration " (concat user.username " returned to the approval queue.")) user.id
      none true
  commit
  pure saved
