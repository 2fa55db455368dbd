-- ===== src/Access/RateLimit.antt =====
-- access_control/rate_limit_service.py, and `hash_value` of session_service.py.
pub mod Window
pub mod Lockout
use threat_scope_xdr.Prelude.{
  ℕ, ◌+◌, String, Bool, true, false, not, ◌&&◌, Option, none, some, List, [], ◌∷◌, ◌++◌, leb, ◌==◌,
  str_eq, concat, show, take, nonempty, opt_eq, elem, count_where, delete_where, update_where,
  next_id, if◌then◌else◌,
}
use threat_scope_xdr.Access.Models.{
  Moment, minutes, days, Status, is_locked, UserAccount, LoginAttempt,
}
use threat_scope_xdr.Access.Store.{
  Env, Tables, Exec, Error, pure, gets, ◌>>=◌, ◌>>◌, modify, commit, raise_if,
}

unfoldable pub hash_value : Env → String → String
hash_value env value = env.sha256 (concat env.config.session_secret value)

unfoldable pub username_hash : Env → String → String
username_hash env username_normalized = hash_value env (concat "username:" username_normalized)

unfoldable pub registration_hash : Env → String → String
registration_hash env email_normalized = hash_value env (concat "registration:" email_normalized)

unfoldable pub management_hash : Env → ℕ → String → String
management_hash env actor_user_id action =
    hash_value env
      (concat "registration-management:" (concat (show actor_user_id) (concat ":" action)))

-- `if ip_hash: query = query.filter(client_ip_hash == ip_hash)`
abbrev pub from_ip : Option String → LoginAttempt → Bool
from_ip none a = true
from_ip (some ip_hash) a = if nonempty ip_hash then opt_eq a.client_ip_hash (some ip_hash) else true

-- a failure of one identity within the last `minutes`
abbrev pub recent_failure : Moment → String → Option String → LoginAttempt → Bool
recent_failure now identity ip_hash a =
    str_eq a.username_hash identity
    && not a.success
    && leb now (a.attempted_at + minutes 15)
    && from_ip ip_hash a

-- an attempt that a management call counts
abbrev pub recent_management : Moment → String → Option String → LoginAttempt → Bool
recent_management now identity ip_hash a =
    str_eq a.username_hash identity
    && opt_eq a.client_ip_hash ip_hash
    && leb now (a.attempted_at + minutes 5)

-- `db.add(LoginAttempt(...))`
abbrev pub add_attempt :
    Moment → String → Option String → Bool → Option String → List LoginAttempt → List LoginAttempt
add_attempt now identity ip_hash success reason attempts =
    attempts
    ++ record {
      id = next_id (λ a. a.id) attempts;
      username_hash = identity;
      client_ip_hash = ip_hash;
      success = success;
      failure_reason_code = reason;
      attempted_at = now;
    }
      ∷ []

-- An assignment to the columns of one account: the row is written, with `updated_at` anew.
unfoldable pub save_user : Moment → UserAccount → Exec UserAccount
save_user now user = do
  let saved = record user { updated_at = now }
  modify (λ t. record t { users = update_where (λ r. r.id == saved.id) (λ _. saved) t.users })
  pure saved

module _ (env : Env) (now : Moment) where
  unfoldable pub is_registration_rate_limited : String → Option String → Tables → Bool
  is_registration_rate_limited normalized ip_hash t =
      leb 5 (count_where (recent_failure now (registration_hash env normalized) ip_hash) t.attempts)

  unfoldable pub record_registration_attempt :
      String → Option String → Bool → Option String → Exec (Unit {0})
  record_registration_attempt normalized ip_hash success reason = do
    let cause : String = elim reason [
      | none ↦ "rejected"
      | some r ↦ if nonempty r then r else "rejected"
    ]
    let code : Option String =
        if success then none else some (take 64 (concat "registration_" cause))
    modify λ t. record t {
      attempts = add_attempt now (registration_hash env normalized) ip_hash success code t.attempts;
    }
    commit

  unfoldable pub record_management_attempt : ℕ → String → Option String → Exec (Unit {0})
  record_management_attempt actor_user_id action ip_hash = do
    let identity_hash = management_hash env actor_user_id action
    attempts ← gets λ t. count_where (recent_management now identity_hash ip_hash) t.attempts
    raise_if (leb 20 attempts) Error.management_rate_limit
    modify λ t. record t { attempts = add_attempt now identity_hash ip_hash true none t.attempts }
    commit

  unfoldable pub is_rate_limited : String → Option String → Tables → Bool
  is_rate_limited normalized ip_hash t =
      leb env.config.login_max_attempts
        (count_where (recent_failure now (username_hash env normalized) ip_hash) t.attempts)

  unfoldable pub record_attempt : String → Option String → Bool → Option String → Exec (Unit {0})
  record_attempt normalized ip_hash success reason = do
    let identity = username_hash env normalized
    let cause : String = elim reason [
      | none ↦ "invalid_credentials"
      | some r ↦ if nonempty r then r else "invalid_credentials"
    ]
    modify λ t. record t {
      attempts =
          if success
          then delete_where (λ a. str_eq a.username_hash identity && not a.success) t.attempts
          else t.attempts;
    }
    modify λ t. record t {
      attempts =
          add_attempt now identity ip_hash success (if success then none else some (take 64 cause))
            t.attempts;
    }
    modify λ t. record t {
      attempts = delete_where (λ a. not (leb now (a.attempted_at + days 30))) t.attempts;
    }
    commit

  -- the columns that `register_user_failure` assigns
  unfoldable pub failed_once : UserAccount → UserAccount
  failed_once user =
      let failures = user.failed_login_count + 1 in
      if leb env.config.login_max_attempts failures
      then record user {
        failed_login_count = failures;
        status = Status.locked;
        locked_until = some (now + minutes env.config.lockout_minutes);
      }
      else record user { failed_login_count = failures }

  unfoldable pub register_user_failure : UserAccount → Exec UserAccount
  unfolding save_user
  register_user_failure user = do saved ← save_user now (failed_once user); commit; pure saved

  -- the identities under which failures of an account are counted
  abbrev pub identity_hashes : UserAccount → List String
  identity_hashes user = username_hash env user.username_normalized ∷ elim user.email_normalized [
    | none ↦ []
    | some email ↦ if nonempty email then username_hash env email ∷ [] else []
  ]

  abbrev pub failure_of : UserAccount → LoginAttempt → Bool
  failure_of user a = elem a.username_hash (identity_hashes user) && not a.success

  unfoldable pub clear_user_login_attempts : UserAccount → Exec ℕ
  clear_user_login_attempts user = do
    deleted ← gets λ t. count_where (failure_of user) t.attempts
    modify λ t. record t { attempts = delete_where (failure_of user) t.attempts }
    pure deleted

  -- the columns that `clear_failures` assigns
  unfoldable pub cleared : UserAccount → UserAccount
  cleared user = record user {
    failed_login_count = 0;
    locked_until = none;
    status = if is_locked user.status then Status.active else user.status;
  }

  unfoldable pub clear_failures : UserAccount → Exec UserAccount
  unfolding clear_user_login_attempts save_user
  clear_failures user = do
    clear_user_login_attempts user
    saved ← save_user now (cleared user)
    commit
    pure saved

  -- `user.locked_until and user.locked_until <= utcnow()`
  abbrev pub lock_is_over : UserAccount → Bool
  lock_is_over user =
      is_locked user.status && elim user.locked_until [ none ↦ false | some t ↦ leb t now ]

  unfoldable pub unlock_if_expired : UserAccount → Exec (Bool × UserAccount)
  unfolding clear_failures
  unlock_if_expired user =
      if lock_is_over user
      then (do saved ← clear_failures user; pure (true, saved))
      else pure (false, user)
