-- ===== src/Access/Redaction.antt =====
-- access_control/redaction.py, with rules/sensitive_keys.json.
pub mod Clean
use threat_scope_xdr.Prelude.{
  map, ℕ, zero, suc, ◌+◌, String, Bool, true, false, ◌≡◌, refl, List, [], ◌∷◌, any, contains, take,
  str_eq, ltb, if◌then◌else◌, concat,
}
use Prim.Native.Char.{code}
use threat_scope_xdr.Prelude.{◌==◌}
use threat_scope_xdr.Access.Store.{Env}

-- The values that `redact` tells apart: a number is given by its literal, and any other object by
-- its `str`.
mutual
  -- a dictionary by its keys in order
  pub data Fields : Type 0 where
    field : String → Value → Fields → Fields
    no_fields : Fields

  -- a list or a tuple
  pub data Items : Type 0 where
    item : Value → Items → Items
    no_items : Items

  pub data Value : Type 0 where
    object : Fields → Value
    array : Items → Value
    text other number : String → Value
    flag : Bool → Value
    null : Value

-- rules/sensitive_keys.json
abbrev pub sensitive_keys : List String
sensitive_keys =
    "password" ∷ "password_hash" ∷ "temporary_password" ∷ "secret" ∷ "token" ∷ "token_hash" ∷ "csrf"
    ∷ "cookie" ∷ "authorization" ∷ "otp" ∷ "totp" ∷ "recovery_code" ∷ "session" ∷ []

-- `s.replace("-", "_")`
unfoldable pub with_underscores : String → String
with_underscores String.[] = ""
with_underscores (String.◌∷◌ c s) =
    let rest = with_underscores s in String.◌∷◌ (if code c == b'-' then "_" else c) rest

unfoldable pub is_sensitive : Env → String → Bool
is_sensitive env key =
    any (contains (with_underscores (env.casefold key))) (map env.casefold sensitive_keys)

-- `result[key] = value`: in the place of the key, or at the end
unfoldable pub put : String → Value → Fields → Fields
put key value no_fields = field key value no_fields
put key value (field k v fs) =
    let rest = put key value fs in if str_eq k key then field k value fs else field k v rest

abbrev pub redacted : Value
redacted = text "[REDACTED]"

abbrev pub max_items : ℕ
max_items = 50

module _ (env : Env) where
  -- what is stored under a key
  abbrev pub masked : String → Value → Value
  masked key value = if is_sensitive env key then redacted else value

  unfoldable mutual
    pub redact : Value → ℕ → Value
    redact null depth = if ltb 6 depth then text "[TRUNCATED]" else null
    redact (flag b) depth = if ltb 6 depth then text "[TRUNCATED]" else flag b
    redact (number n) depth = if ltb 6 depth then text "[TRUNCATED]" else number n
    redact (text s) depth = if ltb 6 depth then text "[TRUNCATED]" else text (take 500 s)
    redact (other s) depth = if ltb 6 depth then text "[TRUNCATED]" else text (take 500 s)
    redact (array xs) depth =
        let inner = redact_items xs max_items depth in
        if ltb 6 depth then text "[TRUNCATED]" else array inner
    redact (object fs) depth =
        let inner = redact_fields fs max_items depth no_fields in
        if ltb 6 depth then text "[TRUNCATED]" else object inner

    -- the first `n` items
    pub redact_items : Items → ℕ → ℕ → Items
    redact_items no_items n depth = no_items
    redact_items (item v xs) zero depth = no_items
    redact_items (item v xs) (suc n) depth = item (redact v (depth + 1)) (redact_items xs n depth)

    -- the first `n` fields, put into `result` one after the other
    pub redact_fields : Fields → ℕ → ℕ → Fields → Fields
    redact_fields no_fields n depth result = result
    redact_fields (field key v fs) zero depth result = result
    redact_fields (field key v fs) (suc n) depth result =
        redact_fields fs n depth
          (put (take 100 key) (masked (take 100 key) (redact v (depth + 1))) result)
