-- ===== src/Access/Mfa/Replay.antt =====
-- One-time codes: which counters `verify_totp` accepts, and how often.
use threat_scope_xdr.Prelude.{
  ℕ, zero, suc, ◌+◌, ◌-◌, ◌≤◌, ◌<◌, min, String, ◌≡◌, inl, inr, true, false, Option, none, some,
  List, [], ◌∷◌, arith, str_eq, eq_iff, Option-cases,
}
use threat_scope_xdr.Access.Models.{Moment, MfaDevice}
use threat_scope_xdr.Access.Store.{Env}
use threat_scope_xdr.Access.Totp.{totp_counter, match_counter, is_used, accept_code}

match_counter-some :
    (env : Env) (secret normalized : String) (candidate rounds counter : ℕ)
    → match_counter env secret normalized candidate rounds ≡ some counter
    → (str_eq (env.generate_otp secret counter) normalized ≡ true)
      × (candidate ≤ counter)
      × (counter < candidate + rounds)
unfolding match_counter
match_counter-some env secret normalized candidate zero counter h = cc
match_counter-some env secret normalized candidate (suc rounds) counter h =
    ground (arith, match_counter-some env secret normalized (candidate + 1) rounds counter)

-- The device `d'` after a code for `counter` was accepted from `d`.
pub record IsAccepted (env : Env) (now : Moment) (d d' : MfaDevice) (normalized secret : String)
    (counter : ℕ) : Type 0 where
  pub recorded : d'.last_used_counter ≡ some counter
  pub at_moment : d'.last_used_at ≡ some now
  pub code : env.generate_otp secret counter ≡ normalized
  pub not_early : totp_counter now ≤ counter + 1
  pub not_late : counter ≤ totp_counter now + 1
  pub unused : is_used d.last_used_counter counter ≡ false

-- An accepted code is the one that the secret gives for a counter at most one period from the
-- current one, the counter is larger than the last one that the device has accepted, and the
-- device records it with the moment.
pub accept_code-IsAccepted :
    (env : Env) (now : Moment) (d d' : MfaDevice) (normalized secret : String)
    → 1 ≤ totp_counter now
    → accept_code env now d normalized secret ≡ some d'
    → (counter : ℕ) × IsAccepted env now d d' normalized secret counter
unfolding accept_code
accept_code-IsAccepted env now d d' normalized secret started h =
    elim (Option-cases (match_counter env secret normalized (totp_counter now - 1) 3)) [
      | inl missing ↦ absurd (ground arith)
      | inr (c, e) ↦
          let (same, low, high) =
            match_counter-some env secret normalized (totp_counter now - 1) 3 c e in
          let fresh : is_used d.last_used_counter c ≡ false = ground arith in
          (
            c,
            record {
              recorded = ground arith;
              at_moment = ground arith;
              code = (eq_iff (env.generate_otp secret c) normalized).0 same;
              not_early = omega arith;
              not_late = omega arith;
              unused = fresh;
            },
          )
    ]

-- The codes that a device accepts at the given moments, one after the other.
pub accept_all : Env → String → List (Moment × String) → MfaDevice → ℕ
accept_all env secret [] d = 0
accept_all env secret ((now, normalized) ∷ rest) d =
    let fewer = accept_all env secret rest d in
    elim (accept_code env now d normalized secret) [
      | none ↦ fewer
      | some d' ↦ suc (accept_all env secret rest d')
    ]

-- how many counters up to the next one are larger than the last that was used, at most three
abbrev budget : ℕ → Option ℕ → ℕ
budget current none = 3
budget current (some last) = min 3 (current + 1 - last)

budget-le : (current : ℕ) (o : Option ℕ) → budget current o ≤ 3
budget-le current none = omega arith
budget-le current (some last) = omega arith

budget-accept :
    (current counter : ℕ) (o : Option ℕ)
    → current ≤ counter + 1
    → counter ≤ current + 1
    → is_used o counter ≡ false
    → suc (budget current (some counter)) ≤ budget current o
budget-accept current counter none low high fresh = omega arith
budget-accept current counter (some last) low high fresh = ground arith

-- all moments lie in one period
abbrev pub InPeriod : ℕ → List (Moment × String) → Type 0
InPeriod current [] = Unit
InPeriod current ((now, _) ∷ rest) = (totp_counter now ≡ current) × InPeriod current rest

accept_all-budget :
    (env : Env) (secret : String) (current : ℕ) (tries : List (Moment × String)) (d : MfaDevice)
    → 1 ≤ current
    → InPeriod current tries
    → accept_all env secret tries d ≤ budget current d.last_used_counter
unfolding accept_all
accept_all-budget env secret current [] d started same = omega arith
accept_all-budget env secret current ((now, normalized) ∷ rest) d started same =
    elim (Option-cases (accept_code env now d normalized secret)) [
      | inl refused ↦
          rw (refused, accept_all) (accept_all-budget env secret current rest d started same.1)
      | inr (d', e) ↦
          let (c, a) = accept_code-IsAccepted env now d d' normalized secret (omega arith) e in
          rw (e, accept_all)
            (ground (
              arith,
              accept_all-budget env secret current rest d' started same.1,
              budget-accept current c d.last_used_counter (omega (arith, a.not_early))
                  (omega (arith, a.not_late)) a.unused,
              a.recorded,
            ))
    ]

-- Within one period of thirty seconds a device accepts at most three codes, however many are
-- tried: each acceptance uses up one of the three counters around the current one.
pub accept_all-le-three :
    (env : Env) (secret : String) (current : ℕ) (tries : List (Moment × String)) (d : MfaDevice)
    → 1 ≤ current
    → InPeriod current tries
    → accept_all env secret tries d ≤ 3
accept_all-le-three env secret current tries d started same = omega (
  arith,
  accept_all-budget env secret current tries d started same,
  budget-le current d.last_used_counter,
)
