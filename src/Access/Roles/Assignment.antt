-- ===== src/Access/Roles/Assignment.antt =====
-- What `assign_roles` does to the roles and the permissions of accounts.
use threat_scope_xdr.Prelude.{
  ℕ, String, ◌≡◌, refl, ◌≢◌, ◌⊎◌, inl, inr, true, false, ◌&&◌, ◌||◌, Option, List, [], ◌∷◌, ◌++◌,
  arith, ◌==◌, if◌then◌else◌, Bool-cases, length, select, delete_where, any, next_id, unique,
  any-append, any-delete_where, any-delete_where_self, any-select,
}
use threat_scope_xdr.Access.Models.{Moment, UserAccount, AccessRole, UserRoleAssignment}
use threat_scope_xdr.Access.Store.{Tables, Db, value_error, ok, err}
use threat_scope_xdr.Prelude.{==_iff}
use threat_scope_xdr.Access.Roles.{has_role, assignments, is_chosen, assign_roles}

assignments-has_role :
    (now : Moment) (user_id : ℕ) (actor_id : Option ℕ) (roles : List AccessRole)
    (rows : List UserRoleAssignment) (j role_id : ℕ)
    → has_role j role_id (assignments now user_id actor_id roles rows)
      ≡ (has_role j role_id rows || (any (λ c. c.id == role_id) roles && (user_id == j)))
unfolding assignments
assignments-has_role now user_id actor_id [] rows j role_id = ground arith
assignments-has_role now user_id actor_id (r ∷ rs) rows j role_id =
    let ur : UserRoleAssignment = record {
      id = next_id (λ u. u.id) rows;
      user_id = user_id;
      role_id = r.id;
      assigned_by_user_id = actor_id;
      assigned_at = now;
    } in
    ground (
      arith,
      assignments-has_role now user_id actor_id rs (rows ++ ur ∷ []) j role_id,
      any-append (λ u. u.role_id == role_id && u.user_id == j) rows (ur ∷ []),
    )

-- The table that a successful assignment leaves: the user's old rows are gone.
abbrev reassigned : Moment → ℕ → Option ℕ → List String → Tables → List UserRoleAssignment
reassigned now user_id actor_id keys t =
    assignments now user_id actor_id (select (is_chosen keys) t.roles)
      (delete_where (λ ur. ur.user_id == user_id) t.user_roles)

reassigned_self :
    (now : Moment) (user_id : ℕ) (actor_id : Option ℕ) (keys : List String) (t : Tables)
    (role_id : ℕ)
    → has_role user_id role_id (reassigned now user_id actor_id keys t)
      ≡ any (λ c. c.id == role_id && is_chosen keys c) t.roles
reassigned_self now user_id actor_id keys t role_id =
    let kept : List UserRoleAssignment = delete_where (λ ur. ur.user_id == user_id) t.user_roles in
    ground (
      arith,
      assignments-has_role now user_id actor_id (select (is_chosen keys) t.roles) kept user_id
          role_id,
      any-delete_where_self (λ ur. ur.role_id == role_id && ur.user_id == user_id)
          (λ ur. ur.user_id == user_id) t.user_roles (λ ur h. ground arith),
      any-select (λ c. c.id == role_id) (is_chosen keys) (λ c. c.id == role_id && is_chosen keys c)
          t.roles (λ c. ground arith),
    )

reassigned_others :
    (now : Moment) (user_id : ℕ) (actor_id : Option ℕ) (keys : List String) (t : Tables)
    (j role_id : ℕ)
    → j ≢ user_id
    → has_role j role_id (reassigned now user_id actor_id keys t) ≡ has_role j role_id t.user_roles
reassigned_others now user_id actor_id keys t j role_id ne =
    let kept : List UserRoleAssignment = delete_where (λ ur. ur.user_id == user_id) t.user_roles in
    ground (
      arith,
      assignments-has_role now user_id actor_id (select (is_chosen keys) t.roles) kept j role_id,
      any-delete_where (λ ur. ur.role_id == role_id && ur.user_id == j)
          (λ ur. ur.user_id == user_id) t.user_roles (λ ur h. ground arith),
    )

-- An assignment that is refused leaves the database as it was. One that goes through gives the
-- user exactly the enabled roles among the keys, and every other user keeps the roles it had.
pub assign_roles-has_role :
    (now : Moment) (user : UserAccount) (keys : List String) (actor_id : Option ℕ) (s : Db)
    (j role_id : ℕ)
    → let t = s.live in
      let (r, s') = assign_roles now user keys actor_id s in
      ((r ≡ err (value_error "One or more roles are invalid or disabled")) × (s' ≡ s))
      ⊎ ((r ≡ ok tt)
          × (has_role j role_id s'.live.user_roles ≡ (
              if j == user.id
              then any (λ c. c.id == role_id && is_chosen keys c) t.roles
              else has_role j role_id t.user_roles)))
unfolding assign_roles
assign_roles-has_role now user keys actor_id s j role_id =
    elim (Bool-cases (length (select (is_chosen keys) s.live.roles) == length (unique keys))) [
      | inl fits ↦ rw fits (inr (refl, by_user (Bool-cases (j == user.id))))
      | inr short ↦ rw short (inl (refl, refl))
    ]
  where
    by_user :
        ((j == user.id) ≡ true) ⊎ ((j == user.id) ≡ false)
        → has_role j role_id (reassigned now user.id actor_id keys s.live) ≡ (
            if j == user.id
            then any (λ c. c.id == role_id && is_chosen keys c) s.live.roles
            else has_role j role_id s.live.user_roles)
    by_user (inl same) =
        rw (same, (==_iff j user.id).0 same)
          (reassigned_self now user.id actor_id keys s.live role_id)
    by_user (inr other) = rw other (
        reassigned_others now user.id actor_id keys s.live j role_id
          (λ e. cc (other, (==_iff j user.id).1 e)))
