-- ===== src/Access/Totp.antt =====
-- access_control/mfa_service.py: one-time codes of authenticators.
use threat_scope_xdr.Prelude.{
  ℕ, zero, suc, ◌+◌, ◌-◌, ◌*◌, ◌/◌, String, Bool, true, false, ◌&&◌, Option, none, some, str_eq,
  leb, ◌==◌, if◌then◌else◌, update_where, strip, count,
}
use threat_scope_xdr.Access.Models.{Moment, MfaDevice}
use threat_scope_xdr.Access.Store.{
  Env, value_error, Result, ok, err, Exec, pure, lift, ◌>>=◌, ◌>>◌, modify,
}
use Prim.Native.Char.{code}

abbrev pub totp_period : ℕ
totp_period = 30

abbrev pub totp_valid_window : ℕ
totp_valid_window = 1

-- an assignment to the columns of one device
unfoldable pub save_device : MfaDevice → Exec MfaDevice
save_device saved = do
  modify λ t. record t { devices = update_where (λ d. d.id == saved.id) (λ _. saved) t.devices }
  pure saved

abbrev pub decrypted : Env → String → Result String
decrypted env protected = elim (env.decrypt protected) [
  | none ↦ err (value_error "MFA secret cannot be decrypted")
  | some secret ↦ ok secret
]

unfoldable pub totp_counter : Moment → ℕ
totp_counter now = now / 1_000_000 / totp_period

-- `re.fullmatch(r"\d{6}", normalized)`, for the ASCII digits
all_digits : String → Bool
all_digits String.[] = true
all_digits (String.◌∷◌ c s) = (leb b'0' (code c) && leb (code c) b'9') && all_digits s

unfoldable pub is_six_digits : String → Bool
unfolding all_digits
is_six_digits s = all_digits s && (count s == 6)

-- The loop over the offsets: the candidates from `first` on, `rounds` of them.
unfoldable pub match_counter : Env → String → String → ℕ → ℕ → Option ℕ
match_counter env secret normalized candidate zero = none
match_counter env secret normalized candidate (suc rounds) =
    let rest = match_counter env secret normalized (candidate + 1) rounds in
    if str_eq (env.generate_otp secret candidate) normalized then some candidate else rest

abbrev pub is_used : Option ℕ → ℕ → Bool
is_used none counter = false
is_used (some last) counter = leb counter last

-- The device after an accepted code, or `none`. The first candidate is the counter before the
-- current one: the clock is past the first period of 1970.
unfoldable pub accept_code : Env → Moment → MfaDevice → String → String → Option MfaDevice
unfolding match_counter totp_counter
accept_code env now device normalized secret =
    elim (match_counter env secret normalized (totp_counter now - totp_valid_window)
      (2 * totp_valid_window + 1)) [
        | none ↦ none
        | some counter ↦
            if is_used device.last_used_counter counter
            then none
            else some (record device { last_used_counter = some counter; last_used_at = some now })
      ]

unfoldable pub record_use : Option MfaDevice → Exec (Option MfaDevice)
unfolding save_device
record_use none = pure none
record_use (some used) = do saved ← save_device used; pure (some saved)

unfoldable pub verify_totp : Env → Moment → MfaDevice → String → Exec (Option MfaDevice)
unfolding record_use
verify_totp env now device value = do
  let normalized = strip value
  if is_six_digits normalized
      then (do
        secret ← lift (decrypted env device.secret_encrypted_or_protected)
        record_use (accept_code env now device normalized secret))
      else pure none
