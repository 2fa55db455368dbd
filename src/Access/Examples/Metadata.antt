-- ===== src/Access/Examples/Metadata.antt =====
-- Tests of the redaction of metadata.
use threat_scope_xdr.Prelude.{◌≡◌, refl}
use threat_scope_xdr.Access.Examples.{test_env}
use threat_scope_xdr.Access.Redaction.{
  Value, text, number, object, no_fields, field, redact, put, is_sensitive, redacted,
  with_underscores,
}
use threat_scope_xdr.Access.Redaction.Clean.{IsClean, redact-IsClean}
use threat_scope_xdr.Prelude.{take, contains}

-- the metadata of `logout_all`
abbrev logout_metadata : Value
logout_metadata =
    object (field "sessions_revoked" (number "2") (field "role" (text "analyst") no_fields))

counts_are_hidden :
    redact test_env logout_metadata 0
    ≡ object (field "sessions_revoked" redacted (field "role" (text "analyst") no_fields))
unfolding redact put is_sensitive with_underscores take contains
counts_are_hidden = refl

redact-IsClean_example : IsClean test_env (redact test_env logout_metadata 0)
redact-IsClean_example = redact-IsClean test_env logout_metadata 0
