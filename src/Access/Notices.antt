-- ===== src/Access/Notices.antt =====
-- access_control/account_service.py: the activities and notifications of account changes.
use threat_scope_xdr.Prelude.{
  ℕ, String, Bool, true, false, ◌&&◌, Option, none, some, [], ◌∷◌, ◌++◌, str_eq, ◌==◌,
  if◌then◌else◌, any, next_id, take,
}
use threat_scope_xdr.Access.Models.{Moment, Status}
use threat_scope_xdr.Access.Store.{Exec, modify}

-- the text that the column `status` holds
unfoldable pub status_text : Status → String
status_text Status.pending_approval = "pending_approval"
status_text Status.active = "active"
status_text Status.rejected = "rejected"
status_text Status.disabled = "disabled"
status_text Status.locked = "locked"
status_text Status.pending_password_change = "pending_password_change"

unfoldable pub activity : Moment → String → String → ℕ → Exec (Unit {0})
activity now action message user_id = modify λ t. record t {
  activities =
      t.activities
      ++ record {
        id = next_id (λ a. a.id) t.activities;
        action = action;
        message = take 500 message;
        entity_type = "account_registration";
        entity_id = some user_id;
        created_at = now;
      }
        ∷ [];
}

-- `==` of two numbers that may be None
abbrev pub opt_id_eq : Option ℕ → Option ℕ → Bool
opt_id_eq none none = true
opt_id_eq (some a) (some b) = a == b
opt_id_eq _ _ = false

unfoldable pub notify : Moment → String → String → ℕ → Option ℕ → Bool → Exec (Unit {0})
notify now title message user_id recipient_user_id admin_only = modify λ t.
    let entity_type : String = if admin_only then "user" else "account_status" in
    if any
      (λ n.
        str_eq n.title title
        && str_eq n.entity_type entity_type
        && opt_id_eq n.entity_id (some user_id)
        && opt_id_eq n.recipient_user_id recipient_user_id)
      t.notifications
    then t
    else record t {
      notifications =
          t.notifications
          ++ record {
            id = next_id (λ n. n.id) t.notifications;
            title = title;
            message = take 500 message;
            type = "info";
            entity_type = entity_type;
            entity_id = some user_id;
            recipient_user_id = recipient_user_id;
            is_read = false;
            created_at = now;
          }
            ∷ [];
    }
