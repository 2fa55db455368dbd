-- ===== src/Access/RecoveryCodes.antt =====
-- access_control/mfa_service.py: recovery codes.
use threat_scope_xdr.Prelude.{
  ℕ, String, Bool, true, false, not, ◌&&◌, Option, none, some, List, [], ◌∷◌, ◌++◌, str_eq, ◌==◌,
  if◌then◌else◌, is_some, first, delete_where, update_where, next_id, strip, concat,
}
use threat_scope_xdr.Access.Models.{Moment, MfaRecoveryCode}
use threat_scope_xdr.Access.Store.{Env, Exec, pure, gets, ◌>>=◌, ◌>>◌, modify, commit}
use Prim.Native.Char.{code}
use threat_scope_xdr.Access.RateLimit.{hash_value}

-- `code.replace('-', '')`
without_dashes : String → String
without_dashes String.[] = ""
without_dashes (String.◌∷◌ c s) =
    let rest = without_dashes s in if code c == b'-' then rest else String.◌∷◌ c rest

unfoldable pub recovery_hash : Env → String → String
unfolding without_dashes
recovery_hash env value =
    hash_value env (concat "recovery:" (env.upper (strip (without_dashes value))))

-- one row for each code; the codes are the draws of `secrets.token_hex(6)`, in the printed form
unfoldable pub add_recovery_codes :
    Env → Moment → ℕ → List String → List MfaRecoveryCode → List MfaRecoveryCode
add_recovery_codes env now user_id [] rows = rows
add_recovery_codes env now user_id (c ∷ cs) rows = add_recovery_codes env now user_id cs (
    rows
    ++ record {
      id = next_id (λ r. r.id) rows;
      user_id = user_id;
      code_hash = recovery_hash env c;
      used_at = none;
      created_at = now;
    }
      ∷ [])

unfoldable pub generate_recovery_codes : Env → Moment → ℕ → List String → Bool → Exec (List String)
generate_recovery_codes env now user_id codes commits = do
  modify
      λ t. record t { recovery_codes = delete_where (λ r. r.user_id == user_id) t.recovery_codes }
  modify
      λ t. record t { recovery_codes = add_recovery_codes env now user_id codes t.recovery_codes }
  (if commits then commit else pure tt)
  pure codes

abbrev pub is_unused_code : ℕ → String → MfaRecoveryCode → Bool
is_unused_code user_id digest r =
    r.user_id == user_id && str_eq r.code_hash digest && not (is_some r.used_at)

unfoldable pub spend_code : Moment → Option MfaRecoveryCode → Exec Bool
spend_code now none = pure false
spend_code now (some item) = do
  modify λ t. record t {
    recovery_codes =
        update_where (λ r. r.id == item.id) (λ _. record item { used_at = some now })
          t.recovery_codes;
  }
  commit
  pure true

unfoldable pub consume_recovery_code : Env → Moment → ℕ → String → Exec Bool
unfolding spend_code
consume_recovery_code env now user_id value = do
  item ← gets λ t. first (is_unused_code user_id (recovery_hash env value)) t.recovery_codes
  spend_code now item
