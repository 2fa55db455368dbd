-- ===== src/Access/Admin/Survivor.antt =====
-- Disabling accounts leaves an active administrator.
use threat_scope_xdr.Prelude.{
  ℕ, ◌≤◌, String, ◌≡◌, refl, ap, Bool, true, false, not, ◌&&◌, Option, none, some, List, [], ◌∷◌,
  arith, ◌==◌, first, count_where, any, first-test, ==_iff,
}
use threat_scope_xdr.Access.Models.{Moment, UserAccount}
use threat_scope_xdr.Access.Store.{
  Env, Db, Error, http, value_error, Result, err, lift, ◌>>=◌, catch,
}
use threat_scope_xdr.Access.Store.{bind_err}
use threat_scope_xdr.Access.Keeps.{Keeps, keeps_rules}
use threat_scope_xdr.Access.Audit.{append_event}
use threat_scope_xdr.Access.Sessions.{Request}
use threat_scope_xdr.Access.Login.{audit}
use threat_scope_xdr.Access.Users.{active_administrator_count, ensure_not_last_admin}
use threat_scope_xdr.Access.Accounts.Administrators.{
  HasOther, save_user-Keeps, revoke_user_sessions-Keeps, ensure_refuses, administrator_remains,
}
use threat_scope_xdr.Access.Admin.{
  user_or_404, value_as_422, audit_user, get_user, finish_disable, disable_found, disable_user,
}

none_of :
    (k : ℕ) (users : List UserAccount) (q : UserAccount → Bool)
    → count_where (λ u. u.id == k) users ≡ 0
    → any (λ r. r.id == k && q r) users ≡ false
none_of k [] q h = refl
none_of k (u ∷ us) q h = ground (arith, none_of k us q)

-- the row that a query by number returns agrees with every row of the number, if there is one only
read_row :
    (k : ℕ) (users : List UserAccount) (user : UserAccount)
    → first (λ u. u.id == k) users ≡ some user
    → count_where (λ u. u.id == k) users ≤ 1
    → any (λ r. r.id == k && r.is_system_admin && not user.is_system_admin) users ≡ false
read_row k [] user e h = absurd (cc e)
read_row k (u ∷ us) user e h =
    ground
      (arith, read_row k us user, none_of k us (λ r. r.is_system_admin && not user.is_system_admin))

user_number :
    (k : ℕ) (users : List UserAccount) (user : UserAccount)
    → first (λ u. u.id == k) users ≡ some user
    → user.id ≡ k
user_number k users user e = (==_iff user.id k).0 (first-test (λ u. u.id == k) users user e)

module _ (env : Env) (now : Moment) (request : Request) where
  audit_user-Keeps :
      (k : ℕ) (event_type action : String) (actor : UserAccount) (user_id : ℕ)
      (metadata_json : String)
      → Keeps
          (HasOther k)
          (audit_user env now request event_type action actor user_id metadata_json)
  unfolding audit_user audit append_event
  audit_user-Keeps k event_type action actor user_id metadata_json = record { at = λ s h. h }

  finish_disable-Keeps :
      (user actor : UserAccount)
      → Keeps (HasOther user.id) (finish_disable env now request user actor)
  unfolding finish_disable
  finish_disable-Keeps user actor =
      search (keeps_rules, save_user-Keeps, revoke_user_sessions-Keeps, audit_user-Keeps) depth 20

  value_as_422-Keeps : (k : ℕ) (e : Error) → Keeps (HasOther k) (value_as_422 {A = Unit {0}} e)
  value_as_422-Keeps k (value_error message) = record { at = λ s h. h }
  value_as_422-Keeps k _ = record { at = λ s h. h }

  disable_found-Keeps :
      (actor user : UserAccount)
      → Keeps (HasOther user.id) (disable_found env now request actor user)
  unfolding disable_found ensure_not_last_admin
  disable_found-Keeps actor user =
      search (keeps_rules, value_as_422-Keeps, finish_disable-Keeps) depth 20

  abbrev refusal : Error
  refusal = http 422 "The last active system administrator cannot be disabled or demoted"

  -- where the account is the last administrator, nothing is written
  refused_disable :
      (actor user : UserAccount) (s : Db)
      → (user.is_system_admin && (active_administrator_count (some user.id) s.live == 0)) ≡ true
      → (disable_found env now request actor user s).1.live.users ≡ s.live.users
  unfolding disable_found
  refused_disable actor user s last =
      ap (λ q. q.1.live.users)
        (bind_err (catch (ensure_not_last_admin user) value_as_422)
          (λ _. finish_disable env now request user actor) s s (refusal)
          (rw (ensure_refuses user s last, catch)
            (ap (λ q. let r : Result (Unit {0}) = err refusal in (r, q.1))
              (ensure_refuses user s last))))

  disable_read :
      (user_id : ℕ) (actor : UserAccount) (o : Option UserAccount) (s : Db)
      → first (λ u. u.id == user_id) s.live.users ≡ o
      → count_where (λ u. u.id == user_id) s.live.users ≤ 1
      → 1 ≤ active_administrator_count none s.live
      → 1
        ≤ active_administrator_count none
            ((lift (user_or_404 o) >>= disable_found env now request actor) s).1.live
  disable_read user_id actor none s e one h = h
  disable_read user_id actor (some user) s e one h =
      administrator_remains user (disable_found env now request actor user) s
        (rw (user_number user_id s.live.users user e) (read_row user_id s.live.users user e one))
        (disable_found-Keeps actor user) (refused_disable actor user s) h

-- Where the number of an account stands in one row at most, disabling it by the handler of
-- administrators, whether it goes through or raises, leaves an active administrator if there was
-- one before.
pub disable_user_keeps_administrator :
    (env : Env) (now : Moment) (request : Request) (user_id : ℕ) (actor : UserAccount) (s : Db)
    → count_where (λ u. u.id == user_id) s.live.users ≤ 1
    → 1 ≤ active_administrator_count none s.live
    → 1 ≤ active_administrator_count none (disable_user env now request user_id actor s).1.live
unfolding disable_user get_user
disable_user_keeps_administrator env now request user_id actor s one h =
    disable_read env now request user_id actor (first (λ u. u.id == user_id) s.live.users) s refl
      one h
