-- ===== src/Access/Redaction/Clean.antt =====
-- What `redact` leaves under sensitive keys.
use threat_scope_xdr.Prelude.{
  ℕ, zero, suc, ◌+◌, ◌≡◌, refl, sym, String, Bool, true, false, str_eq, eq_iff, take, ◌⊎◌, inl, inr,
  ltb, if◌then◌else◌,
}
use mathlib.Core.Path.{subst}
use threat_scope_xdr.Access.Store.{Env}
use threat_scope_xdr.Access.Redaction.{
  Value, Items, Fields, null, flag, number, text, other, array, object, no_items, item, no_fields,
  field, is_sensitive, put, redacted, max_items, masked, redact, redact_items, redact_fields,
}

module _ (env : Env) where
  -- a sensitive key, at any depth, holds the mark of redaction and nothing else
  abbrev mutual
    pub IsClean : Value → Type 0
    IsClean (array xs) = AreClean xs
    IsClean (object fs) = HasCleanFields fs
    IsClean v = Unit

    pub AreClean : Items → Type 0
    AreClean no_items = Unit
    AreClean (item v xs) = IsClean v × AreClean xs

    pub HasCleanFields : Fields → Type 0
    HasCleanFields no_fields = Unit
    HasCleanFields (field key v fs) =
        ((is_sensitive env key ≡ false) ⊎ (v ≡ redacted)) × IsClean v × HasCleanFields fs

  -- one field
  abbrev IsCleanField : String → Value → Type 0
  IsCleanField key v = ((is_sensitive env key ≡ false) ⊎ (v ≡ redacted)) × IsClean v

  put-HasCleanFields :
      (key : String) (v : Value) (fs : Fields)
      → IsCleanField key v
      → HasCleanFields fs
      → HasCleanFields (put key v fs)
  unfolding put
  put-HasCleanFields key v no_fields c h = (c.0, c.1, tt)
  put-HasCleanFields key v (field k w fs) c h =
      by_key (str_eq k key) refl (put-HasCleanFields key v fs c h.2)
    where
      by_key :
          (b : Bool)
          → str_eq k key ≡ b
          → HasCleanFields (put key v fs)
          → HasCleanFields (if b then field k v fs else field k w (put key v fs))
      by_key true e rest =
          let same = (eq_iff k key).0 e in
          (subst (λ j. (is_sensitive env j ≡ false) ⊎ (v ≡ redacted)) (sym same) c.0, c.1, h.2)
      by_key false e rest = (h.0, h.1, rest)

  masked-IsCleanField : (key : String) (v : Value) → IsClean v → IsCleanField key (masked env key v)
  masked-IsCleanField key v h = by_key (is_sensitive env key) refl
    where
      by_key :
          (b : Bool)
          → is_sensitive env key ≡ b
          → ((is_sensitive env key ≡ false) ⊎ ((if b then redacted else v) ≡ redacted))
            × IsClean (if b then redacted else v)
      by_key true e = (inr refl, tt)
      by_key false e = (inl e, h)

  cut_off-IsClean :
      (b : Bool) (v : Value) → IsClean v → IsClean (if b then text "[TRUNCATED]" else v)
  cut_off-IsClean true v h = tt
  cut_off-IsClean false v h = h

  mutual
    unfolding redact redact_items redact_fields

    redact_value-IsClean : (v : Value) (depth : ℕ) → IsClean (redact env v depth)
    redact_value-IsClean null depth = cut_off-IsClean (ltb 6 depth) null tt
    redact_value-IsClean (flag b) depth = cut_off-IsClean (ltb 6 depth) (flag b) tt
    redact_value-IsClean (number n) depth = cut_off-IsClean (ltb 6 depth) (number n) tt
    redact_value-IsClean (text s) depth = cut_off-IsClean (ltb 6 depth) (text (take 500 s)) tt
    redact_value-IsClean (other s) depth = cut_off-IsClean (ltb 6 depth) (text (take 500 s)) tt
    redact_value-IsClean (array xs) depth =
        cut_off-IsClean (ltb 6 depth) (array (redact_items env xs max_items depth))
          (redact_items-AreClean xs max_items depth)
    redact_value-IsClean (object fs) depth =
        cut_off-IsClean (ltb 6 depth) (object (redact_fields env fs max_items depth no_fields))
          (redact_fields-HasCleanFields fs max_items depth no_fields tt)

    redact_items-AreClean : (xs : Items) (n depth : ℕ) → AreClean (redact_items env xs n depth)
    redact_items-AreClean no_items n depth = tt
    redact_items-AreClean (item v xs) zero depth = tt
    redact_items-AreClean (item v xs) (suc n) depth =
        (redact_value-IsClean v (depth + 1), redact_items-AreClean xs n depth)

    redact_fields-HasCleanFields :
        (fs : Fields) (n depth : ℕ) (result : Fields)
        → HasCleanFields result
        → HasCleanFields (redact_fields env fs n depth result)
    redact_fields-HasCleanFields no_fields n depth result h = h
    redact_fields-HasCleanFields (field key v fs) zero depth result h = h
    redact_fields-HasCleanFields (field key v fs) (suc n) depth result h =
        redact_fields-HasCleanFields fs n depth _ (
          put-HasCleanFields (take 100 key) (masked env (take 100 key) (redact env v (depth + 1)))
            result
            (masked-IsCleanField (take 100 key) (redact env v (depth + 1))
              (redact_value-IsClean v (depth + 1)))
            h)

-- Whatever metadata is given, what `redact` leaves of it holds under every sensitive key, in
-- objects and lists at any depth, the mark of redaction and nothing else.
pub redact-IsClean : (env : Env) (v : Value) (depth : ℕ) → IsClean env (redact env v depth)
redact-IsClean env v depth = redact_value-IsClean env v depth
