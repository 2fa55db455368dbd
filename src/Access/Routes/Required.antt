-- ===== src/Access/Routes/Required.antt =====
-- The answer of `required_permissions`: the permissions, and whether all of them are needed.
use threat_scope_xdr.Prelude.{String, Bool, true, false, ◌||◌, List, [], ◌∷◌, str_eq}

abbrev pub Required : Type 0
Required = List String × Bool

-- `{k}, True`
abbrev pub only : String → Required
only k = (k ∷ [], true)

-- `{j, k}, False`
abbrev pub either_of : String → String → Required
either_of j k = (j ∷ k ∷ [], false)

-- `{k}, False`
abbrev pub one_of : String → Required
one_of k = (k ∷ [], false)

-- the methods, in upper case
abbrev pub is_read : String → Bool
is_read m = str_eq m "GET" || str_eq m "HEAD"
