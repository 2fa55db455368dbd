-- ===== src/Access/Roles.antt =====
-- access_control/role_service.py: permissions of an account, and the assignment of roles.
pub mod Assignment
use threat_scope_xdr.Prelude.{
  ℕ, zero, suc, ◌+◌, ◌-◌, ◌*◌, ◌/◌, ◌%◌, ◌≤◌, ◌<◌, min, max, String, ◌≡◌, refl, sym, ap, ◌∙◌, ◌≢◌,
  ◌↔◌, ◌⊎◌, inl, inr, Bool, true, false, not, ◌&&◌, ◌||◌, Option, none, some, List, [], ◌∷◌, ◌++◌,
  map, arith, str_eq, starts_with, eq_iff, eq_refl, ltb, leb, ◌==◌, if◌then◌else◌, is_some,
  Bool-cases, Option-cases, length, select, first, count_where, delete_where, update_where, any,
  all, All, next_id, count_where-append, first-test, count_where-delete_where, count_where_mono,
  first-update_where_ne, count_where-update_where_ne, contains, ends_with, nonempty, elem, take,
  rstrip_slash, strip, join_words, concat, opt_eq, show, opt_eq-eq, count, unique, sorted,
  any-append, any-delete_where, any-delete_where_self, any-select, any_mono, count_where_pos,
}
use threat_scope_xdr.Access.Models.{
  Moment, seconds, minutes, hours, days, Status, Source, is_blocked, is_locked, is_pending_approval,
  is_rejected, is_active, UserAccount, AccessRole, AccessPermission, UserRoleAssignment,
  RolePermissionAssignment, AuthSession, LoginAttempt, MfaDevice, MfaRecoveryCode,
  MfaLoginChallenge,
}
use threat_scope_xdr.Access.Store.{
  Mode, AccessConfig, Env, Tables, Db, Error, http, value_error, password_policy, Result, ok, err,
  Exec, pure, raise, lift, gets, ◌>>=◌, ◌>>◌, modify, commit, rollback, raise_if, close,
}

-- an assignment of a role to a user
abbrev pub has_role : ℕ → ℕ → List UserRoleAssignment → Bool
has_role user_id role_id = any (λ ur. ur.role_id == role_id && ur.user_id == user_id)

-- The joins of `effective_permissions`: some enabled role of the user carries the permission.
abbrev pub is_granted : Tables → ℕ → AccessPermission → Bool
is_granted t user_id p =
    any
      (λ rp.
        rp.permission_id == p.id
        && any (λ r. r.id == rp.role_id && r.enabled && has_role user_id r.id t.user_roles) t.roles)
      t.role_permissions

-- The set as a list; membership is `elem`.
unfoldable pub effective_permissions : UserAccount → Tables → List String
effective_permissions user t =
    if user.is_system_admin
    then map (λ p. p.permission_key) t.permissions
    else map (λ p. p.permission_key) (select (is_granted t user.id) t.permissions)

unfoldable pub role_keys : ℕ → Tables → List String
role_keys user_id t =
    sorted (
      map (λ r. r.role_key) (select (λ r. r.enabled && has_role user_id r.id t.user_roles) t.roles))

-- the rows that `assign_roles` adds, one for each role
unfoldable pub assignments :
    Moment → ℕ → Option ℕ → List AccessRole → List UserRoleAssignment → List UserRoleAssignment
assignments now user_id actor_id [] rows = rows
assignments now user_id actor_id (r ∷ rs) rows = assignments now user_id actor_id rs (
    rows
    ++ record {
      id = next_id (λ ur. ur.id) rows;
      user_id = user_id;
      role_id = r.id;
      assigned_by_user_id = actor_id;
      assigned_at = now;
    }
      ∷ [])

abbrev pub is_chosen : List String → AccessRole → Bool
is_chosen keys r = elem r.role_key keys && r.enabled

unfoldable pub assign_roles : Moment → UserAccount → List String → Option ℕ → Exec (Unit {0})
assign_roles now user keys actor_id = do
  roles ← gets λ t. select (is_chosen keys) t.roles
  raise_if (not (length roles == length (unique keys)))
      (value_error "One or more roles are invalid or disabled")
  modify λ t. record t { user_roles = delete_where (λ ur. ur.user_id == user.id) t.user_roles }
  modify λ t. record t { user_roles = assignments now user.id actor_id roles t.user_roles }
