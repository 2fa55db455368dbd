-- ===== src/Access/Examples.antt =====
-- Concrete rows, requests and an environment, for the tests of the access-control modules.
pub mod Logins
pub mod Sessions
pub mod Events
pub mod Limits
pub mod Factors
pub mod Accounts
pub mod Requests
pub mod Metadata
use threat_scope_xdr.Prelude.{
  ℕ, zero, suc, ◌+◌, ◌-◌, ◌*◌, ◌/◌, ◌%◌, ◌≤◌, ◌<◌, min, max, String, ◌≡◌, refl, sym, ap, ◌∙◌, ◌≢◌,
  ◌↔◌, ◌⊎◌, inl, inr, Bool, true, false, not, ◌&&◌, ◌||◌, Option, none, some, List, [], ◌∷◌, ◌++◌,
  map, arith, str_eq, starts_with, eq_iff, eq_refl, ltb, leb, ◌==◌, if◌then◌else◌, is_some,
  Bool-cases, Option-cases, length, select, first, count_where, delete_where, update_where, any,
  all, All, next_id, count_where-append, first-test, count_where-delete_where, count_where_mono,
  first-update_where_ne, count_where-update_where_ne, contains, ends_with, nonempty, elem, take,
  rstrip_slash, strip, join_words, is_space, concat, opt_eq, show, ==_iff, opt_eq-eq, count, unique,
  sorted, any-append, any-delete_where, any-delete_where_self, any-select, any_mono, length-append,
  count_where_pos, first-update_where, count_where-update_where_self,
}
use threat_scope_xdr.Access.Models.{
  Moment, seconds, minutes, hours, days, Status, Source, is_blocked, is_locked, is_pending_approval,
  is_rejected, is_active, UserAccount, AccessRole, AccessPermission, UserRoleAssignment,
  RolePermissionAssignment, AuthSession, LoginAttempt, MfaDevice, MfaRecoveryCode,
  MfaLoginChallenge, AuditPayload, SecurityAuditEvent, Notification, SocActivity,
}
use threat_scope_xdr.Access.Store.{
  Mode, AccessConfig, Env, Tables, Db, Error, http, value_error, password_policy, Result, ok, err,
  Exec, pure, raise, lift, gets, ◌>>=◌, ◌>>◌, modify, commit, rollback, raise_if, catch, close,
}
use threat_scope_xdr.Access.Sessions.{Request}

abbrev pub test_config : AccessConfig
test_config = record {
  enabled = true;
  environment = "testing";
  session_secret = "s";
  mfa_encryption_key = "k";
  allowed_origins = [];
  cookie_secure = false;
  cookie_samesite = "lax";
  session_hours = 8;
  idle_minutes = 30;
  login_max_attempts = 5;
  lockout_minutes = 15;
  local_login_enabled = true;
  self_registration_enabled = true;
  registration_mode = Mode.approval_required;
  privacy_notice_version = "1";
}

-- Hashes and ciphers that leave the text as it is, and one code for every counter.
abbrev pub test_env : Env
test_env = record {
  config = test_config;
  sha256 = λ text. text;
  argon2_hash = λ salt password. password;
  argon2_verify = λ digest password. str_eq digest password;
  generate_otp = λ secret counter. "123456";
  encrypt = λ text. text;
  decrypt = λ text. some text;
  nfkc = λ text. text;
  casefold = λ text. text;
  upper = λ text. text;
  lower = λ text. text;
  is_digit = λ text. str_eq text "12";
  dumps_payload = λ payload. payload.action;
  dumps_texts = λ texts. "[]";
}

abbrev pub alice : UserAccount
alice = record {
  id = 1;
  username = "alice";
  username_normalized = "alice";
  display_name = "Alice";
  email = none;
  email_normalized = none;
  password_hash = "correct horse";
  status = Status.active;
  is_system_admin = true;
  failed_login_count = 0;
  locked_until = none;
  password_changed_at = 0;
  must_change_password = false;
  mfa_enabled = false;
  last_login_at = none;
  last_login_ip_hash = none;
  created_at = 0;
  updated_at = 0;
  disabled_at = none;
  registration_source = Source.local;
  approved_at = none;
  approved_by_user_id = none;
  rejected_at = none;
  rejected_by_user_id = none;
  rejection_reason = none;
  terms_accepted_at = none;
  privacy_notice_version = none;
  email_verified = false;
  onboarding_completed_at = none;
  is_demo_account = false;
}

-- her session, with the token `t`
abbrev pub open_session : AuthSession
open_session = record {
  id = 7;
  user_id = 1;
  token_hash = "st";
  csrf_token_hash = "sc";
  created_at = 0;
  last_seen_at = 0;
  expires_at = 100;
  idle_expires_at = 50;
  revoked_at = none;
  revoke_reason = none;
  user_agent_summary = none;
  client_ip_hash = none;
  mfa_verified = false;
  created_from_login = true;
  session_version = 1;
}

abbrev pub empty_tables : Tables
empty_tables = record {
  users = [];
  roles = [];
  permissions = [];
  user_roles = [];
  role_permissions = [];
  sessions = [];
  attempts = [];
  devices = [];
  recovery_codes = [];
  challenges = [];
  events = [];
  notifications = [];
  activities = [];
}

abbrev pub test_tables : Tables
test_tables = record empty_tables { users = alice ∷ []; sessions = open_session ∷ [] }

abbrev pub both : Tables → Db
both t = record { live = t; saved = t }

abbrev pub test_request : Request
test_request = record {
  cookie = some "t";
  csrf_header = "c";
  user_agent = none;
  client_host = none;
  path = "/api/auth/session";
  method = "GET";
  request_id = "r1";
}
