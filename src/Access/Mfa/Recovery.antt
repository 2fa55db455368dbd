-- ===== src/Access/Mfa/Recovery.antt =====
-- Recovery codes are spent by use.
use threat_scope_xdr.Prelude.{
  ℕ, suc, ◌+◌, ◌≤◌, String, ◌≡◌, refl, Bool, true, false, not, ◌&&◌, Option, none, some, List, [],
  ◌∷◌, arith, ◌==◌, is_some, first, count_where, update_where, first-test,
}
use threat_scope_xdr.Access.Models.{Moment, MfaRecoveryCode}
use threat_scope_xdr.Access.Store.{Env, Tables, Db, Result, ok}
use threat_scope_xdr.Access.RecoveryCodes.{
  recovery_hash, is_unused_code, spend_code, consume_recovery_code,
}

-- An update that spends rows adds none.
spend_count_le :
    (p q : MfaRecoveryCode → Bool) (f : MfaRecoveryCode → MfaRecoveryCode)
    (rows : List MfaRecoveryCode)
    → ((y : MfaRecoveryCode) → q y ≡ true → p (f y) ≡ false)
    → count_where p (update_where q f rows) ≤ count_where p rows
spend_count_le p q f [] h = omega arith
spend_count_le p q f (y ∷ ys) h = ground (arith, h y, spend_count_le p q f ys h)

-- An update that spends a row that was found leaves at least one row fewer.
spend_count :
    (p found q : MfaRecoveryCode → Bool) (f : MfaRecoveryCode → MfaRecoveryCode)
    (rows : List MfaRecoveryCode) (x : MfaRecoveryCode)
    → first found rows ≡ some x
    → p x ≡ true
    → q x ≡ true
    → ((y : MfaRecoveryCode) → q y ≡ true → p (f y) ≡ false)
    → suc (count_where p (update_where q f rows)) ≤ count_where p rows
spend_count p found q f [] x e px qx h = cc
spend_count p found q f (y ∷ ys) x e px qx h =
    ground (arith, h y, h x, spend_count p found q f ys x, spend_count_le p q f ys h)

-- the codes that a user still has
abbrev pub unused_of : ℕ → MfaRecoveryCode → Bool
unused_of user_id r = r.user_id == user_id && not (is_some r.used_at)

abbrev pub codes_left : ℕ → Tables → ℕ
codes_left user_id t = count_where (unused_of user_id) t.recovery_codes

abbrev pub accepted : Result Bool → ℕ
accepted (ok true) = 1
accepted _ = 0

-- Spending the code that a query finds.
spend_code_lem :
    (p found : MfaRecoveryCode → Bool) (now : Moment) (s : Db) (o : Option MfaRecoveryCode)
    → first found s.live.recovery_codes ≡ o
    → ((y : MfaRecoveryCode) → found y ≡ true → p y ≡ true)
    → ((y : MfaRecoveryCode) → is_some y.used_at ≡ true → p y ≡ false)
    → let (r, s') = spend_code now o s in
      accepted r + count_where p s'.live.recovery_codes ≤ count_where p s.live.recovery_codes
unfolding spend_code
spend_code_lem p found now s none e h k = omega arith
spend_code_lem p found now s (some x) e h k = omega (
  arith,
  spend_count p found (λ r. r.id == x.id) (λ _. record x { used_at = some now })
      s.live.recovery_codes x e (h x (first-test found s.live.recovery_codes x e)) (ground arith)
      (λ y q. k (record x { used_at = some now }) refl),
)

-- One use of a code costs one of the user's unused codes.
consume_recovery_code_lem :
    (env : Env) (now : Moment) (user_id : ℕ) (value : String) (s : Db)
    → let (r, s') = consume_recovery_code env now user_id value s in
      accepted r + codes_left user_id s'.live ≤ codes_left user_id s.live
unfolding consume_recovery_code
consume_recovery_code_lem env now user_id value s =
    let found = is_unused_code user_id (recovery_hash env value) in
    spend_code_lem (unused_of user_id) found now s (first found s.live.recovery_codes) refl
      (λ y h. ground arith) (λ y h. ground arith)

-- Attempts of a user, each at its moment; the number of those that are let through.
pub consume_all : Env → ℕ → List (Moment × String) → Db → ℕ
consume_all env user_id [] s = 0
consume_all env user_id ((now, value) ∷ rest) s =
    let (r, s') = consume_recovery_code env now user_id value s in
    accepted r + consume_all env user_id rest s'

-- However many recovery codes are tried, at whatever moments, no more are accepted than the user
-- had unused ones at the start.
pub consume_all-le :
    (env : Env) (user_id : ℕ) (tries : List (Moment × String)) (s : Db)
    → consume_all env user_id tries s ≤ codes_left user_id s.live
unfolding consume_all
consume_all-le env user_id [] s = omega arith
consume_all-le env user_id ((now, value) ∷ rest) s = omega (
  arith,
  consume_recovery_code_lem env now user_id value s,
  consume_all-le env user_id rest (consume_recovery_code env now user_id value s).1,
)

first-none :
    (p : MfaRecoveryCode → Bool) (rows : List MfaRecoveryCode)
    → count_where p rows ≡ 0
    → first p rows ≡ none
first-none p [] h = refl
first-none p (x ∷ xs) h = ground (arith, first-none p xs)

-- A code whose hash stands in one unused row at most, as the unique column provides, is accepted
-- once: the same text is refused ever after.
pub consume_recovery_code_once :
    (env : Env) (now later : Moment) (user_id : ℕ) (value : String) (s : Db)
    → count_where (is_unused_code user_id (recovery_hash env value)) s.live.recovery_codes ≤ 1
    → (consume_recovery_code env now user_id value s).0 ≡ ok true
    → (consume_recovery_code env later user_id value
        (consume_recovery_code env now user_id value s).1).0
      ≡ ok false
unfolding consume_recovery_code spend_code
consume_recovery_code_once env now later user_id value s unique_row e =
    let found = is_unused_code user_id (recovery_hash env value) in
    let s' = (consume_recovery_code env now user_id value s).1 in
    let spent =
      spend_code_lem found found now s (first found s.live.recovery_codes) refl (λ y h. h)
        (λ y h. ground arith) in
    rw (first-none found s'.live.recovery_codes (ground (arith, spent)))
