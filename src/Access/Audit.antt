-- ===== src/Access/Audit.antt =====
-- access_control/audit_service.py: the hash chain of security events.
pub mod Chain
pub mod Tampering
use threat_scope_xdr.Prelude.{
  ℕ, zero, suc, ◌+◌, ◌-◌, ◌*◌, ◌/◌, ◌%◌, ◌≤◌, ◌<◌, min, max, String, ◌≡◌, refl, sym, ap, ◌∙◌, ◌≢◌,
  ◌↔◌, ◌⊎◌, inl, inr, Bool, true, false, not, ◌&&◌, ◌||◌, Option, none, some, List, [], ◌∷◌, ◌++◌,
  map, arith, str_eq, starts_with, eq_iff, eq_refl, ltb, leb, ◌==◌, if◌then◌else◌, is_some,
  Bool-cases, Option-cases, length, select, first, count_where, delete_where, update_where, any,
  all, All, next_id, count_where-append, first-test, count_where-delete_where, count_where_mono,
  first-update_where_ne, count_where-update_where_ne, contains, ends_with, nonempty, elem, take,
  rstrip_slash, strip, join_words, concat, opt_eq, show, opt_eq-eq, count, unique, sorted,
  any-append, any-delete_where, any-delete_where_self, any-select, any_mono, count_where_pos,
}
use threat_scope_xdr.Access.Models.{
  Moment, seconds, minutes, hours, days, Status, Source, is_blocked, is_locked, is_pending_approval,
  is_rejected, is_active, UserAccount, AccessRole, AccessPermission, UserRoleAssignment,
  RolePermissionAssignment, AuthSession, LoginAttempt, MfaDevice, MfaRecoveryCode,
  MfaLoginChallenge, AuditPayload, SecurityAuditEvent,
}
use threat_scope_xdr.Access.Store.{
  Mode, AccessConfig, Env, Tables, Db, Error, http, value_error, password_policy, Result, ok, err,
  Exec, pure, raise, lift, gets, ◌>>=◌, ◌>>◌, modify, commit, rollback, raise_if, close,
}
use threat_scope_xdr.Access.Roles.{role_keys}

unfoldable pub hash_payload : Env → AuditPayload → String
hash_payload env event = env.sha256 (env.dumps_payload event)

-- The keyword arguments of `append_event`; `metadata_json` is the redacted metadata, dumped.
pub record AuditEntry : Type 0 where
  pub event_type : String
  pub action : String
  pub request_id : String
  pub outcome : String
  pub actor : Option UserAccount
  pub resource_type : Option String
  pub resource_id : Option String
  pub route_template : Option String
  pub request_method : Option String
  pub status_code : Option ℕ
  pub reason_code : Option String
  pub metadata_json : String
  pub client_ip_hash : Option String
  pub user_agent_summary : Option String

-- `value[:n] if value else None`
abbrev pub cut : ℕ → Option String → Option String
cut n none = none
cut n (some value) = if nonempty value then some (take n value) else none

-- `order_by(sequence_number.desc()).first()`
unfoldable pub latest : List SecurityAuditEvent → Option SecurityAuditEvent
latest [] = none
latest (e ∷ es) = elim (latest es) [
  | none ↦ some e
  | some l ↦ if ltb l.sequence_number e.sequence_number then some e else some l
]

-- the new event's columns
unfoldable pub next_payload :
    Env → Moment → AuditEntry → Tables → Option SecurityAuditEvent → AuditPayload
next_payload env now entry t previous = record {
  sequence_number = elim previous [ none ↦ 1 | some p ↦ p.sequence_number + 1 ];
  event_type = take 80 entry.event_type;
  actor_user_id = elim entry.actor [ none ↦ none | some a ↦ some a.id ];
  actor_username_snapshot = elim entry.actor [ none ↦ none | some a ↦ some (take 64 a.username) ];
  actor_role_keys_json =
      env.dumps_texts (elim entry.actor [ none ↦ [] | some a ↦ role_keys a.id t ]);
  action = take 120 entry.action;
  resource_type = cut 80 entry.resource_type;
  resource_id = elim entry.resource_id [ none ↦ none | some i ↦ some (take 100 i) ];
  route_template = cut 250 entry.route_template;
  request_method = cut 10 entry.request_method;
  request_id = take 64 entry.request_id;
  outcome = entry.outcome;
  status_code = entry.status_code;
  reason_code = cut 80 entry.reason_code;
  metadata_json = entry.metadata_json;
  client_ip_hash = entry.client_ip_hash;
  user_agent_summary = cut 200 entry.user_agent_summary;
  occurred_at = now;
  previous_event_hash = elim previous [ none ↦ none | some p ↦ some p.event_hash ];
}

unfoldable pub append_event : Env → Moment → AuditEntry → Exec SecurityAuditEvent
append_event env now entry = do
  payload ← gets λ t. next_payload env now entry t (latest t.events)
  id ← gets λ t. next_id (λ e. e.id) t.events
  let event : SecurityAuditEvent = record {
    id = id;
    payload = payload;
    event_hash = hash_payload env payload;
  }
  modify λ t. record t { events = t.events ++ event ∷ [] }
  commit
  pure event

-- `order_by(sequence_number)`
insert_event : SecurityAuditEvent → List SecurityAuditEvent → List SecurityAuditEvent
insert_event e [] = e ∷ []
insert_event e (d ∷ ds) =
    let rest = insert_event e ds in
    if leb e.sequence_number d.sequence_number then e ∷ d ∷ ds else d ∷ rest

unfoldable pub in_sequence : List SecurityAuditEvent → List SecurityAuditEvent
unfolding insert_event
in_sequence [] = []
in_sequence (e ∷ es) = insert_event e (in_sequence es)

pub data Report : Type 0 where
  valid : ℕ → Report
  invalid : ℕ → ℕ → ℕ → String → String → Report

-- the test that the loop of `verify_integrity` makes of one event
abbrev pub fits : Env → ℕ → Option String → SecurityAuditEvent → Bool
fits env expected_sequence previous_hash e =
    e.sequence_number == expected_sequence
    && opt_eq e.previous_event_hash previous_hash
    && str_eq e.event_hash (hash_payload env e.payload)

-- `invalid` holds the events examined, the first bad sequence number and id, and the two hashes.
unfoldable pub verify_from : Env → ℕ → Option String → List SecurityAuditEvent → Report
verify_from env expected_sequence previous_hash [] = valid (expected_sequence - 1)
verify_from env expected_sequence previous_hash (e ∷ es) =
    let rest = verify_from env (expected_sequence + 1) (some e.event_hash) es in
    if fits env expected_sequence previous_hash e
    then rest
    else invalid expected_sequence e.sequence_number e.id (hash_payload env e.payload) e.event_hash

unfoldable pub verify_integrity : Env → Tables → Report
unfolding verify_from
verify_integrity env t = verify_from env 1 none (in_sequence t.events)
