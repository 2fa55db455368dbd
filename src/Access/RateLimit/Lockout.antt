-- ===== src/Access/RateLimit/Lockout.antt =====
-- Locking and unlocking of accounts: `register_user_failure` and `unlock_if_expired`.
use threat_scope_xdr.Prelude.{
  ℕ, ◌+◌, ◌≤◌, ◌<◌, ◌≡◌, ◌≢◌, refl, ◌∙◌, suc, first, ◌==◌, first-update_where_ne, true, false, none,
  List, [], ◌∷◌, arith, length,
}
use threat_scope_xdr.Access.Models.{Moment, minutes, Status, UserAccount}
use threat_scope_xdr.Access.Store.{Env, Db, Exec, Result, ok, err, ◌>>=◌, pure}
use threat_scope_xdr.Access.RateLimit.{
  failed_once, cleared, save_user, register_user_failure, unlock_if_expired,
}

-- Failures at the given moments, one after the other.
pub register_failures : Env → List Moment → UserAccount → Exec UserAccount
register_failures env [] user = pure user
register_failures env (m ∷ ms) user = register_user_failure env m user >>= register_failures env ms

-- `k` more failures are counted, and nothing else that a login looks at has changed.
abbrev pub HasFailed : UserAccount → ℕ → Result UserAccount → Type 0
HasFailed user k (err _) = ⊥
HasFailed user k (ok u) =
    (u.failed_login_count ≡ user.failed_login_count + k)
    × (u.status ≡ user.status)
    × (u.locked_until ≡ user.locked_until)

HasFailed-suc :
    (user u : UserAccount) (k : ℕ) (r : Result UserAccount)
    → HasFailed user 1 (ok u)
    → HasFailed u k r
    → HasFailed user (suc k) r
HasFailed-suc user u k (ok w) h g = (omega arith, g.1 ∙ h.1, g.2 ∙ h.2)
HasFailed-suc user u k (err e) h g = g

failed_once-HasFailed :
    (env : Env) (now : Moment) (user : UserAccount)
    → user.failed_login_count + 1 < env.config.login_max_attempts
    → HasFailed user 1 (ok (failed_once env now user))
unfolding failed_once
failed_once-HasFailed env now user h = ground arith

-- Fewer failures than the configured number are counted one by one and change neither the status
-- of the account nor its lock.
pub register_failures-HasFailed :
    (env : Env) (moments : List Moment) (user : UserAccount) (s : Db)
    → user.failed_login_count + length moments < env.config.login_max_attempts
    → HasFailed user (length moments) (register_failures env moments user s).0
unfolding register_failures register_user_failure
register_failures-HasFailed env [] user s h = (omega arith, refl, refl)
register_failures-HasFailed env (m ∷ ms) user s h =
    let u = record (failed_once env m user) { updated_at = m } in
    let s' = (register_user_failure env m user s).1 in
    let once = failed_once-HasFailed env m user (omega arith) in
    HasFailed-suc user u (length ms) (register_failures env ms u s').0 once
      (register_failures-HasFailed env ms u s' (omega (arith, once.0)))

-- The account that `register_user_failure` leaves.
abbrev pub failed_at : Env → Moment → UserAccount → UserAccount
failed_at env now user = record (failed_once env now user) { updated_at = now }

pub register_user_failure_lem :
    (env : Env) (now : Moment) (user : UserAccount) (s : Db)
    → (register_user_failure env now user s).0 ≡ ok (failed_at env now user)
unfolding register_user_failure
register_user_failure_lem env now user s = refl

-- The failure that reaches the configured number locks the account, whatever its status was, and
-- until the lockout time has passed `unlock_if_expired` leaves it locked and changes nothing.
pub lock_lasts :
    (env : Env) (now later : Moment) (user : UserAccount) (s s' : Db)
    → env.config.login_max_attempts ≤ user.failed_login_count + 1
    → later < now + minutes env.config.lockout_minutes
    → let u = failed_at env now user in
      ((register_user_failure env now user s).0 ≡ ok u)
      × (u.status ≡ Status.locked)
      × (unlock_if_expired env later u s' ≡ (ok (false, u), s'))
unfolding failed_once register_user_failure unlock_if_expired
lock_lasts env now later user s s' h early = (ground arith, ground arith, ground arith)

-- Once the lockout time of an account that was locked by its failures has passed, whatever its
-- status was before, `unlock_if_expired` returns it with no failures, no lock and the status
-- active.
pub lock_ends :
    (env : Env) (now later : Moment) (user : UserAccount) (s' : Db)
    → env.config.login_max_attempts ≤ user.failed_login_count + 1
    → now + minutes env.config.lockout_minutes ≤ later
    → (unlock_if_expired env later (failed_at env now user) s').0
      ≡ ok (
        true,
        record (failed_at env now user) {
          failed_login_count = 0;
          locked_until = none;
          status = Status.active;
          updated_at = later;
        },
      )
unfolding failed_once unlock_if_expired cleared
lock_ends env now later user s' h late = ground arith

-- The row of every account other than the one that fails or is cleared is left as it was.
pub save_user_others :
    (now : Moment) (user : UserAccount) (s : Db) (k : ℕ)
    → k ≢ user.id
    → first (λ r. r.id == k) (save_user now user s).1.live.users
      ≡ first (λ r. r.id == k) s.live.users
unfolding save_user
save_user_others now user s k h =
    first-update_where_ne (λ r. r.id == k) (λ r. r.id == user.id) _ s.live.users (λ r. ground arith)
      (λ r p. ground arith)
