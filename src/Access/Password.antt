-- ===== src/Access/Password.antt =====
-- access_control/password_service.py, with rules/password_policy.json and common_passwords.txt.
use threat_scope_xdr.Prelude.{
  ℕ, ◌≤◌, String, ◌≡◌, Bool, true, false, not, ◌&&◌, Option, none, some, List, [], ◌∷◌, map, ltb,
  leb, if◌then◌else◌, any, contains, nonempty, elem, strip, count,
}
use threat_scope_xdr.Access.Store.{Env, password_policy, Result, ok, err}

abbrev pub minimum_length : ℕ
minimum_length = 12

abbrev pub maximum_length : ℕ
maximum_length = 128

-- the lines of rules/common_passwords.txt
abbrev pub common_passwords : List String
common_passwords =
    "password" ∷ "password123" ∷ "password1234" ∷ "qwerty123456" ∷ "letmein123456" ∷ "adminadmin123"
    ∷ "welcome123456" ∷ "changeme12345" ∷ "threatscope123" ∷ "vulnscope1234" ∷ []

-- the loop over `prohibited_terms`
abbrev pub has_prohibited_term : Env → String → List String → Bool
has_prohibited_term env normalized_password = any λ term.
    leb 3 (count (env.casefold (strip term)))
    && contains normalized_password (env.casefold (strip term))

unfoldable pub validate_password : Env → String → String → List String → Result (Unit {0})
validate_password env password username prohibited_terms =
    let normalized_username = env.casefold (strip username) in
    let normalized_password = env.casefold password in
    if ltb (count password) minimum_length
    then err (password_policy "Password must contain at least 12 characters")
    else if ltb maximum_length (count password)
    then err (password_policy "Password must contain no more than 128 characters")
    else if not (nonempty (strip password))
    then err (password_policy "Password cannot contain only whitespace")
    else if nonempty normalized_username && contains normalized_password normalized_username
    then err (password_policy "Password must not contain the username")
    else if has_prohibited_term env normalized_password prohibited_terms
    then err (password_policy "Password must not contain the email identifier")
    else if elem normalized_password (map env.casefold common_passwords)
    then err (password_policy "Password is too commonly used")
    else ok tt

-- argon2 draws the salt
unfoldable pub hash_password : Env → String → String → String → List String → Result String
hash_password env salt password username prohibited_terms =
    elim (validate_password env password username prohibited_terms) [
      | ok _ ↦ ok (env.argon2_hash salt password)
      | err e ↦ err e
    ]

unfoldable pub verify_password : Env → Option String → String → Bool
verify_password env none password = false
verify_password env (some password_hash) password =
    if nonempty password_hash then env.argon2_verify password_hash password else false

-- What an accepted password looks like.
pub record IsAcceptable (env : Env) (password username : String) : Type 0 where
  pub long : minimum_length ≤ count password
  pub short : count password ≤ maximum_length
  pub not_blank : nonempty (strip password) ≡ true
  pub without_username :
      (nonempty (env.casefold (strip username))
        && contains (env.casefold password) (env.casefold (strip username)))
      ≡ false
  pub uncommon : elem (env.casefold password) (map env.casefold common_passwords) ≡ false
