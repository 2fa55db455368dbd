-- ===== src/Access/Names.antt =====
-- access_control/account_service.py: masked addresses, and the user names that are made of them.
use threat_scope_xdr.Prelude.{
  ℕ, zero, suc, ◌-◌, min, max, String, ◌≡◌, refl, Bool, false, not, ◌&&◌, ◌||◌, List, [], ◌∷◌,
  str_eq, ltb, leb, ◌==◌, if◌then◌else◌, is_some, take, concat, count,
}
use threat_scope_xdr.Access.Store.{Env, Tables, value_error, Result, ok, err}
use Prim.Native.Char.{code}
use threat_scope_xdr.Access.Users.{by_username}

-- `s.split("@", 1)[0]`
unfoldable pub local_part : String → String
local_part String.[] = ""
local_part (String.◌∷◌ c s) =
    let rest = local_part s in if code c == b'@' then "" else String.◌∷◌ c rest

-- `s.split("@", 1)[1]`, of a text with an `@`
unfoldable pub domain_part : String → String
domain_part String.[] = ""
domain_part (String.◌∷◌ c s) = let rest = domain_part s in if code c == b'@' then s else rest

stars : ℕ → String
stars zero = ""
stars (suc n) = String.◌∷◌ "*" (stars n)

unfoldable pub mask_email : String → String
unfolding local_part domain_part stars
mask_email email =
    let local = local_part email in
    concat (take 1 local)
      (concat (stars (min (max (count local - 1) 2) 8)) (concat "@" (domain_part email)))

mask_email_test :
    (mask_email "alice@example.org" ≡ "a****@example.org") × (mask_email "a@b.c" ≡ "a**@b.c")
unfolding mask_email concat take
mask_email_test = (refl, refl)

is_name_char : ℕ → Bool
is_name_char c =
    (leb b'a' c && leb c b'z') || (leb b'0' c && leb c b'9') || c == b'.' || c == b'_' || c == b'-'

-- `re.sub(r"[^a-z0-9._-]+", ".", s)`; `run` inside a run of other characters
squash : Bool → String → String
squash run String.[] = ""
squash run (String.◌∷◌ c s) =
    let good = is_name_char (code c) in
    let rest = squash (not good) s in
    if good then String.◌∷◌ c rest else if run then rest else String.◌∷◌ "." rest

is_edge : ℕ → Bool
is_edge c = c == b'.' || c == b'_' || c == b'-'

drop_edge : String → String
drop_edge String.[] = ""
drop_edge (String.◌∷◌ c s) =
    let rest = drop_edge s in if is_edge (code c) then rest else String.◌∷◌ c s

drop_end_edge : String → String
drop_end_edge String.[] = ""
drop_end_edge (String.◌∷◌ c s) =
    let rest = drop_end_edge s in
    if str_eq rest "" && is_edge (code c) then "" else String.◌∷◌ c rest

-- the part of `generated_username` before the loop
unfoldable pub username_base : Env → String → String
unfolding local_part squash is_name_char drop_edge drop_end_edge is_edge
username_base env email_normalized =
    let local = local_part email_normalized in
    let base = take 44 (drop_end_edge (drop_edge (squash false (env.casefold local)))) in
    if ltb (count base) 3 then "user" else base

-- The loop of `generated_username`: the tokens are the twenty draws of `secrets.token_hex(4)`.
unfoldable pub free_username : String → List String → Tables → Result String
free_username base [] t = err (value_error "A safe username could not be generated")
free_username base (token ∷ tokens) t =
    let candidate = take 64 (concat base (concat "." token)) in
    let rest = free_username base tokens t in
    if is_some (by_username candidate t) then rest else ok candidate
