-- ===== src/Access/Models.antt =====
-- The rows of access_control/models.py. A moment is a number of microseconds, the resolution of
-- the database's DateTime; a nullable column is an Option.
use threat_scope_xdr.Prelude.{ℕ, ◌*◌, String, Bool, Option, true, false}

abbrev pub Moment : Type 0
Moment = ℕ

abbrev pub seconds : ℕ → ℕ
seconds n = n * 1_000_000

abbrev pub minutes : ℕ → ℕ
minutes n = seconds (n * 60)

abbrev pub hours : ℕ → ℕ
hours n = minutes (n * 60)

abbrev pub days : ℕ → ℕ
days n = hours (n * 24)

-- REGISTRATION_STATUSES of account_service.py: the values of `UserAccount.status`
pub data Status : Type 0 where
  pending_approval active rejected disabled locked pending_password_change : Status

-- REGISTRATION_SOURCES of account_service.py
pub data Source : Type 0 where
  local administrator bootstrap demo : Source

-- `status in {"disabled", "locked"}`
abbrev pub is_blocked : Status → Bool
is_blocked Status.disabled = true
is_blocked Status.locked = true
is_blocked _ = false

abbrev pub is_locked : Status → Bool
is_locked Status.locked = true
is_locked _ = false

abbrev pub is_pending_approval : Status → Bool
is_pending_approval Status.pending_approval = true
is_pending_approval _ = false

abbrev pub is_rejected : Status → Bool
is_rejected Status.rejected = true
is_rejected _ = false

abbrev pub is_active : Status → Bool
is_active Status.active = true
is_active _ = false

pub record UserAccount : Type 0 where
  pub id : ℕ
  pub username : String
  pub username_normalized : String
  pub display_name : String
  pub email : Option String
  pub email_normalized : Option String
  pub password_hash : String
  pub status : Status
  pub is_system_admin : Bool
  pub failed_login_count : ℕ
  pub locked_until : Option Moment
  pub password_changed_at : Moment
  pub must_change_password : Bool
  pub mfa_enabled : Bool
  pub last_login_at : Option Moment
  pub last_login_ip_hash : Option String
  pub created_at : Moment
  pub updated_at : Moment
  pub disabled_at : Option Moment
  pub registration_source : Source
  pub approved_at : Option Moment
  pub approved_by_user_id : Option ℕ
  pub rejected_at : Option Moment
  pub rejected_by_user_id : Option ℕ
  pub rejection_reason : Option String
  pub terms_accepted_at : Option Moment
  pub privacy_notice_version : Option String
  pub email_verified : Bool
  pub onboarding_completed_at : Option Moment
  pub is_demo_account : Bool

pub record AccessRole : Type 0 where
  pub id : ℕ
  pub role_key : String
  pub name : String
  pub description : String
  pub system_role : Bool
  pub enabled : Bool
  pub created_at : Moment
  pub updated_at : Moment

pub record AccessPermission : Type 0 where
  pub id : ℕ
  pub permission_key : String
  pub name : String
  pub description : String
  pub category : String
  pub created_at : Moment

pub record UserRoleAssignment : Type 0 where
  pub id : ℕ
  pub user_id : ℕ
  pub role_id : ℕ
  pub assigned_by_user_id : Option ℕ
  pub assigned_at : Moment

pub record RolePermissionAssignment : Type 0 where
  pub id : ℕ
  pub role_id : ℕ
  pub permission_id : ℕ
  pub assigned_at : Moment

pub record AuthSession : Type 0 where
  pub id : ℕ
  pub user_id : ℕ
  pub token_hash : String
  pub csrf_token_hash : String
  pub created_at : Moment
  pub last_seen_at : Moment
  pub expires_at : Moment
  pub idle_expires_at : Moment
  pub revoked_at : Option Moment
  pub revoke_reason : Option String
  pub user_agent_summary : Option String
  pub client_ip_hash : Option String
  pub mfa_verified : Bool
  pub created_from_login : Bool
  pub session_version : ℕ

pub record LoginAttempt : Type 0 where
  pub id : ℕ
  pub username_hash : String
  pub client_ip_hash : Option String
  pub success : Bool
  pub failure_reason_code : Option String
  pub attempted_at : Moment

pub record MfaDevice : Type 0 where
  pub id : ℕ
  pub user_id : ℕ
  pub device_type : String
  pub label : String
  pub secret_encrypted_or_protected : String
  pub enabled : Bool
  pub confirmed_at : Option Moment
  pub last_used_counter : Option ℕ
  pub last_used_at : Option Moment
  pub enrollment_expires_at : Option Moment
  pub failed_attempts : ℕ
  pub created_at : Moment
  pub disabled_at : Option Moment

pub record MfaRecoveryCode : Type 0 where
  pub id : ℕ
  pub user_id : ℕ
  pub code_hash : String
  pub used_at : Option Moment
  pub created_at : Moment

pub record MfaLoginChallenge : Type 0 where
  pub id : ℕ
  pub user_id : ℕ
  pub challenge_token_hash : String
  pub expires_at : Moment
  pub used_at : Option Moment
  pub failed_attempts : ℕ
  pub created_at : Moment

-- the columns of `SecurityAuditEvent` that `_hash_payload` reads
pub record AuditPayload : Type 0 where
  pub sequence_number : ℕ
  pub event_type : String
  pub actor_user_id : Option ℕ
  pub actor_username_snapshot : Option String
  pub actor_role_keys_json : String
  pub action : String
  pub resource_type : Option String
  pub resource_id : Option String
  pub route_template : Option String
  pub request_method : Option String
  pub request_id : String
  pub outcome : String
  pub status_code : Option ℕ
  pub reason_code : Option String
  pub metadata_json : String
  pub client_ip_hash : Option String
  pub user_agent_summary : Option String
  pub occurred_at : Moment
  pub previous_event_hash : Option String

pub record SecurityAuditEvent : Type 0 where
  pub id : ℕ
  pub payload : AuditPayload
  pub open payload use *
  pub event_hash : String

-- `Notification` of app/models.py
pub record Notification : Type 0 where
  pub id : ℕ
  pub title : String
  pub message : String
  pub type : String
  pub entity_type : String
  pub entity_id : Option ℕ
  pub recipient_user_id : Option ℕ
  pub is_read : Bool
  pub created_at : Moment

-- `SocActivity` of soc_monitor/models.py
pub record SocActivity : Type 0 where
  pub id : ℕ
  pub action : String
  pub message : String
  pub entity_type : String
  pub entity_id : Option ℕ
  pub created_at : Moment
