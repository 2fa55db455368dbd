-- ===== src/Access/Accounts/Administrators.antt =====
-- The last active administrator survives the review of registrations.
use threat_scope_xdr.Prelude.{
  ℕ, ◌≤◌, String, ◌≡◌, refl, ap, inl, inr, Bool, true, false, not, ◌&&◌, ◌||◌, Option, none, some,
  List, [], ◌∷◌, arith, leb, ◌==◌, Bool-cases, count_where, any, count_where_mono,
  count_where-update_where_ne, strip, join_words, count,
}
use threat_scope_xdr.Access.Models.{Moment, is_pending_approval, is_active, UserAccount}
use threat_scope_xdr.Access.Store.{Exec, Env, Tables, Db, value_error, err}
use threat_scope_xdr.Access.Store.{bind_err}
use threat_scope_xdr.Access.Keeps.{Keeps, keeps_rules}
use threat_scope_xdr.Access.RateLimit.{save_user}
use threat_scope_xdr.Access.Sessions.{revoke_user_sessions}
use threat_scope_xdr.Access.Users.{
  active_administrator_count, is_active_administrator, ensure_not_last_admin,
}
use threat_scope_xdr.Access.Accounts.{finish_rejection, reject_registration}
use threat_scope_xdr.Access.Notices.{activity, notify}

abbrev pub is_other_administrator : ℕ → UserAccount → Bool
is_other_administrator k u = is_active_administrator u && not (u.id == k)

module _ (k : ℕ) where
  -- someone other than account `k` is an active administrator
  abbrev pub HasOther : Db → Type 0
  HasOther s = 1 ≤ count_where (is_other_administrator k) s.live.users

  pub save_user-Keeps :
      (now : Moment) (user : UserAccount) → user.id ≡ k → Keeps HasOther (save_user now user)
  unfolding save_user
  save_user-Keeps now user same = record {
    at = λ s h.
        let saved : UserAccount = record user { updated_at = now } in
        let kept =
          count_where-update_where_ne (is_other_administrator k) (λ r. r.id == user.id) (λ _. saved)
            s.live.users (λ x q. ground arith) in
        omega (arith, h, kept);
  }

  pub revoke_user_sessions-Keeps :
      (env : Env) (now : Moment) (user_id : ℕ) (reason : String) (except : Option ℕ)
      → Keeps HasOther (revoke_user_sessions env now user_id reason except)
  unfolding revoke_user_sessions
  revoke_user_sessions-Keeps env now user_id reason except = record { at = λ s h. h }

  activity-Keeps :
      (now : Moment) (action message : String) (user_id : ℕ)
      → Keeps HasOther (activity now action message user_id)
  unfolding activity
  activity-Keeps now action message user_id = record { at = λ s h. h }

  notify-Keeps :
      (now : Moment) (title message : String) (user_id : ℕ) (recipient : Option ℕ)
      (admin_only : Bool)
      → Keeps HasOther (notify now title message user_id recipient admin_only)
  unfolding notify
  notify-Keeps now title message user_id recipient admin_only = record { at = λ s h. ground arith }

reject_registration-Keeps :
    (env : Env) (now : Moment) (user actor : UserAccount) (reason : String)
    → Keeps (HasOther user.id) (reject_registration env now user actor reason)
unfolding reject_registration finish_rejection ensure_not_last_admin
reject_registration-Keeps env now user actor reason =
    search (keeps_rules, save_user-Keeps, revoke_user_sessions-Keeps, activity-Keeps, notify-Keeps)
      depth 20

-- the rows with the number of an account that has been read agree with it on who is administrator
abbrev pub IsRead : UserAccount → Tables → Type 0
IsRead user t =
    any (λ r. r.id == user.id && r.is_system_admin && not user.is_system_admin) t.users ≡ false

-- if nobody else is an active administrator, then the account is a system administrator
others_or_self :
    (k : ℕ) (admin : Bool) (users : List UserAccount)
    → any (λ r. r.id == k && r.is_system_admin && not admin) users ≡ false
    → 1 ≤ count_where (λ u. is_active_administrator u && true) users
    → count_where (is_other_administrator k) users ≡ 0
    → admin ≡ true
others_or_self k admin [] read h none_left = absurd (omega arith)
others_or_self k admin (u ∷ us) read h none_left = ground (arith, others_or_self k admin us)

some_of_others :
    (k : ℕ) (users : List UserAccount)
    → count_where (is_other_administrator k) users
      ≤ count_where (λ u. is_active_administrator u && true) users
some_of_others k users =
    count_where_mono (is_other_administrator k) (λ u. is_active_administrator u && true) users
      (λ x p. ground arith)

pub ensure_refuses :
    (user : UserAccount) (s : Db)
    → (user.is_system_admin && (active_administrator_count (some user.id) s.live == 0)) ≡ true
    → ensure_not_last_admin user s
      ≡ (err (value_error "The last active system administrator cannot be disabled or demoted"), s)
unfolding ensure_not_last_admin
ensure_refuses user s last = rw last refl

refused_rejection :
    (env : Env) (now : Moment) (user actor : UserAccount) (reason : String) (s : Db)
    → (user.is_system_admin && (active_administrator_count (some user.id) s.live == 0)) ≡ true
    → (reject_registration env now user actor reason s).1.live.users ≡ s.live.users
unfolding reject_registration
refused_rejection env now user actor reason s last =
    let bounded = join_words (strip reason) in
    elim (Bool-cases (not (leb 3 (count bounded) && leb (count bounded) 500))) [
      | inl bad ↦ rw bad refl
      | inr good ↦
          elim (Bool-cases (not (is_pending_approval user.status || is_active user.status))) [
            | inl bad ↦ rw (good, bad) refl
            | inr fits ↦
                rw (good, fits)
                  (ap (λ q. q.1.live.users)
                    (bind_err (ensure_not_last_admin user)
                      (λ _. finish_rejection env now user actor (join_words (strip reason))) s s _
                      (ensure_refuses user s last)))
          ]
    ]

-- A call that keeps the other administrators, and that changes no account where the account read
-- is the last one, leaves an active administrator.
pub administrator_remains :
    {A : Type 0} (user : UserAccount) (m : Exec A) (s : Db)
    → IsRead user s.live
    → Keeps (HasOther user.id) m
    → ((user.is_system_admin && (active_administrator_count (some user.id) s.live == 0)) ≡ true
        → (m s).1.live.users ≡ s.live.users)
    → 1 ≤ active_administrator_count none s.live
    → 1 ≤ active_administrator_count none (m s).1.live
unfolding active_administrator_count
administrator_remains user m s read keeps refused h =
    let others = count_where (is_other_administrator user.id) s.live.users in
    let s' = (m s).1 in
    elim (Bool-cases (others == 0)) [
      | inr more ↦ omega (arith, keeps.at s (ground arith), some_of_others user.id s'.live.users)
      | inl alone ↦
          let admin =
            others_or_self user.id user.is_system_admin s.live.users read h (ground arith) in
          let same = refused (ground (arith, admin, alone)) in rw same h
    ]

-- If some account is an active administrator before a registration is rejected, then some account
-- is one afterwards, whether the rejection goes through or raises.
pub reject_registration_keeps_administrator :
    (env : Env) (now : Moment) (user actor : UserAccount) (reason : String) (s : Db)
    → IsRead user s.live
    → 1 ≤ active_administrator_count none s.live
    → 1 ≤ active_administrator_count none (reject_registration env now user actor reason s).1.live
reject_registration_keeps_administrator env now user actor reason s read h =
    administrator_remains user (reject_registration env now user actor reason) s read
      (reject_registration-Keeps env now user actor reason)
      (refused_rejection env now user actor reason s) h
