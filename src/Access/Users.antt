-- ===== src/Access/Users.antt =====
-- access_control/user_service.py: names, creation of accounts, the last administrator, passwords.
use threat_scope_xdr.Prelude.{
  ℕ, String, ◌≡◌, refl, Bool, true, false, not, ◌&&◌, ◌||◌, Option, none, some, List, [], ◌∷◌, ◌++◌,
  str_eq, ltb, leb, ◌==◌, if◌then◌else◌, is_some, first, count_where, next_id, nonempty, strip,
  join_words, is_space, opt_eq, count,
}
use threat_scope_xdr.Access.Models.{Moment, Status, Source, UserAccount}
use threat_scope_xdr.Access.Store.{
  Env, Tables, value_error, Result, ok, err, Exec, pure, lift, gets, ◌>>=◌, ◌>>◌, modify, commit,
  raise_if,
}
use Prim.Native.Char.{code}
use threat_scope_xdr.Access.RateLimit.{save_user}
use threat_scope_xdr.Access.Password.{hash_password}
use threat_scope_xdr.Access.Roles.{assign_roles}
use threat_scope_xdr.Access.Sessions.{revoke_user_sessions}

abbrev is_alphanumeric : ℕ → Bool
is_alphanumeric c =
    (leb b'0' c && leb c b'9') || (leb b'A' c && leb c b'Z') || (leb b'a' c && leb c b'z')

-- every character is in `[A-Za-z0-9._-]`
username_chars : String → Bool
username_chars String.[] = true
username_chars (String.◌∷◌ c s) =
    let d = code c in (is_alphanumeric d || d == b'.' || d == b'_' || d == b'-') && username_chars s

-- USERNAME_RE
unfoldable pub matches_username : String → Bool
unfolding username_chars
matches_username String.[] = false
matches_username (String.◌∷◌ c s) =
    is_alphanumeric (code c) && username_chars s && leb 2 (count s) && leb (count s) 63

-- `[^\s@]+\.[^\s@]+` on what follows the `@`: `seen` after the first character, `dot` after a dot
-- that is not the first character
domain_ok : Bool → Bool → String → Bool
domain_ok seen dot String.[] = false
domain_ok seen dot (String.◌∷◌ c s) =
    let d = code c in
    let rest = domain_ok true (dot || (seen && d == b'.')) s in
    if is_space d || d == b'@' then false else if str_eq s "" then dot else rest

-- EMAIL_RE; `seen` after the first character of the local part
email_ok : Bool → String → Bool
email_ok seen String.[] = false
email_ok seen (String.◌∷◌ c s) =
    let d = code c in
    let rest = email_ok true s in
    if is_space d then false else if d == b'@' then seen && domain_ok false false s else rest

unfoldable pub matches_email : String → Bool
unfolding domain_ok email_ok is_space
matches_email s = email_ok false s

matches_email_test :
    (matches_email "a.b@c.de" ≡ true)
    × (matches_email "a@b" ≡ false)
    × (matches_email "a@.b" ≡ false)
    × (matches_email "a@b." ≡ false)
    × (matches_email "a b@c.d" ≡ false)
    × (matches_email "@c.d" ≡ false)
    × (matches_email "a@c.d.e" ≡ true)
    × (matches_username "a.b-9" ≡ true)
    × (matches_username "ab" ≡ false)
    × (matches_username "_abc" ≡ false)
unfolding matches_email matches_username
matches_email_test = (refl, refl, refl, refl, refl, refl, refl, refl, refl, refl)

unfoldable pub normalize_username : Env → String → Result String
normalize_username env value =
    let normalized = env.casefold (env.nfkc (strip value)) in
    if not (matches_username (strip value)) || ltb 64 (count normalized)
    then err (
        value_error
          "Username must be 3-64 characters using letters, numbers, dot, underscore, or hyphen")
    else ok normalized

unfoldable pub normalize_email : Env → Option String → Result (Option String)
normalize_email env none = ok none
normalize_email env (some value) =
    let email = env.casefold (env.nfkc (strip value)) in
    if not (nonempty (strip value))
    then ok none
    else if ltb 254 (count email) || not (matches_email email)
    then err (value_error "Email address is invalid")
    else ok (some email)

unfoldable pub validate_display_name : String → Result String
validate_display_name value =
    let result = join_words (strip value) in
    if leb 2 (count result) && leb (count result) 120
    then ok result
    else err (value_error "Display name must be 2-120 characters")

abbrev pub by_username : String → Tables → Option UserAccount
by_username name t = first (λ u. str_eq u.username_normalized name) t.users

abbrev pub by_email : String → Tables → Option UserAccount
by_email email t = first (λ u. opt_eq u.email_normalized (some email)) t.users

-- `user.status in {"active", "pending_password_change"}`
abbrev pub may_administer : Status → Bool
may_administer Status.active = true
may_administer Status.pending_password_change = true
may_administer _ = false

abbrev pub is_active_administrator : UserAccount → Bool
is_active_administrator u = u.is_system_admin && may_administer u.status

unfoldable pub active_administrator_count : Option ℕ → Tables → ℕ
active_administrator_count exclude_user_id t =
    count_where
      (λ u.
        is_active_administrator u
        && elim exclude_user_id [ none ↦ true | some k ↦ not (u.id == k) ])
      t.users

unfoldable pub ensure_not_last_admin : UserAccount → Exec (Unit {0})
unfolding active_administrator_count
ensure_not_last_admin user = do
  others ← gets (active_administrator_count (some user.id))
  raise_if (user.is_system_admin && (others == 0))
      (value_error "The last active system administrator cannot be disabled or demoted")

-- The arguments of `create_user`.
pub record NewUser : Type 0 where
  pub username : String
  pub display_name : String
  pub password : String
  pub email : Option String
  pub role_keys : List String
  pub must_change_password : Bool
  pub is_system_admin : Bool
  pub actor_id : Option ℕ
  pub registration_source : Source
  pub status : Option Status
  pub terms_accepted_at : Option Moment
  pub privacy_notice_version : Option String
  pub is_demo_account : Bool

-- `email.strip() if email and email.strip() else None`
abbrev pub stripped : Option String → Option String
stripped none = none
stripped (some email) = if nonempty (strip email) then some (strip email) else none

abbrev pub or_status : Option Status → Status → Status
or_status none s = s
or_status (some s) _ = s

abbrev pub or_keys : List String → List String → List String
or_keys [] ks = ks
or_keys (k ∷ ks) _ = k ∷ ks

-- `email_normalized and db.query(...).filter_by(email_normalized=email_normalized).first()`
abbrev pub email_taken : Option String → Tables → Bool
email_taken none t = false
email_taken (some email) t = nonempty email && is_some (by_email email t)

unfoldable pub create_user : Env → Moment → String → NewUser → Exec UserAccount
unfolding assign_roles
create_user env now salt new = do
  username_normalized ← lift (normalize_username env new.username)
  email_normalized ← lift (normalize_email env new.email)
  name_taken ← gets λ t. is_some (by_username username_normalized t)
  raise_if name_taken (value_error "Username is already in use")
  mail_taken ← gets (email_taken email_normalized)
  raise_if mail_taken (value_error "Email is already in use")
  display_name ← lift (validate_display_name new.display_name)
  password_hash ← lift (hash_password env salt new.password username_normalized [])
  id ← gets λ t. next_id (λ u. u.id) t.users
  let user : UserAccount = record {
    id = id;
    username = strip new.username;
    username_normalized = username_normalized;
    display_name = display_name;
    email = stripped new.email;
    email_normalized = email_normalized;
    password_hash = password_hash;
    status =
        or_status new.status
          (if new.must_change_password then Status.pending_password_change else Status.active);
    is_system_admin = new.is_system_admin;
    failed_login_count = 0;
    locked_until = none;
    password_changed_at = now;
    must_change_password = new.must_change_password;
    mfa_enabled = false;
    last_login_at = none;
    last_login_ip_hash = none;
    created_at = now;
    updated_at = now;
    disabled_at = none;
    registration_source = new.registration_source;
    approved_at = none;
    approved_by_user_id = none;
    rejected_at = none;
    rejected_by_user_id = none;
    rejection_reason = none;
    terms_accepted_at = new.terms_accepted_at;
    privacy_notice_version = new.privacy_notice_version;
    email_verified = false;
    onboarding_completed_at = none;
    is_demo_account = new.is_demo_account;
  }
  modify λ t. record t { users = t.users ++ user ∷ [] }
  assign_roles now user
      (or_keys new.role_keys (if new.is_system_admin then "administrator" ∷ [] else []))
      new.actor_id
  commit
  pure user

-- `user.status if user.status in {"disabled", "pending_approval", "rejected"} else None`
abbrev pub preserved_status : Status → Option Status
preserved_status Status.disabled = some Status.disabled
preserved_status Status.pending_approval = some Status.pending_approval
preserved_status Status.rejected = some Status.rejected
preserved_status _ = none

unfoldable pub set_password :
    Env → Moment → String → UserAccount → String → Bool → String → Option ℕ → Exec UserAccount
unfolding save_user revoke_user_sessions
set_password env now salt user password must_change reason current_session_id = do
  digest ← lift (hash_password env salt password user.username_normalized [])
  saved ← save_user now (record user {
    password_hash = digest;
    password_changed_at = now;
    must_change_password = must_change;
    status =
        or_status (preserved_status user.status)
          (if must_change then Status.pending_password_change else Status.active);
  })
  commit
  revoke_user_sessions env now user.id reason current_session_id
  pure saved
