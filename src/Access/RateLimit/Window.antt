-- ===== src/Access/RateLimit/Window.antt =====
-- The sliding window of `record_management_attempt`.
use threat_scope_xdr.Prelude.{
  ℕ, ◌+◌, ◌-◌, ◌≤◌, ◌≡◌, String, true, Option, none, List, [], ◌∷◌, arith, leb, count_where, str_eq,
  opt_eq, opt_eq-eq, eq_iff, if◌then◌else◌, count_where-append, count_where_mono,
}
use mathlib.Core.Path.{subst}
use threat_scope_xdr.Access.Models.{Moment, LoginAttempt}
use threat_scope_xdr.Access.Store.{Env, Tables, Db, ok, err, Error}
use threat_scope_xdr.Access.RateLimit.{
  recent_management, add_attempt, management_hash, record_management_attempt,
}

-- The attempts of one identity in the five minutes before a moment.
abbrev pub in_window : Moment → String → Option String → Tables → ℕ
in_window now identity ip_hash t = count_where (recent_management now identity ip_hash) t.attempts

-- No identity has more than twenty attempts in its window, now or later.
pub record IsLimited (now : Moment) (t : Tables) : Type 0 where
  pub at_later :
      (delay : ℕ) (identity : String) (ip_hash : Option String)
      → in_window (now + delay) identity ip_hash t ≤ 20

-- a window that ends later holds no more of what is there
window_shrinks :
    (now later : Moment) (identity : String) (ip_hash : Option String)
    (attempts : List LoginAttempt)
    → now ≤ later
    → count_where (recent_management later identity ip_hash) attempts
      ≤ count_where (recent_management now identity ip_hash) attempts
window_shrinks now later identity ip_hash attempts h =
    count_where_mono (recent_management later identity ip_hash)
      (recent_management now identity ip_hash) attempts (λ a p. ground arith)

-- Two identities that the tests do not tell apart have one window.
same_window :
    (now : Moment) (identity made_by : String) (ip_hash made_from : Option String)
    (attempts : List LoginAttempt)
    → str_eq made_by identity ≡ true
    → opt_eq made_from ip_hash ≡ true
    → count_where (recent_management now identity ip_hash) attempts
      ≡ count_where (recent_management now made_by made_from) attempts
same_window now identity made_by ip_hash made_from attempts p q =
    rw (← (eq_iff made_by identity).0 p, ← opt_eq-eq made_from ip_hash q)

-- One more attempt by an identity with at most nineteen keeps every window at twenty.
added_fits :
    (now later : Moment) (identity made_by : String) (ip_hash made_from : Option String)
    (attempts : List LoginAttempt)
    → count_where (recent_management later identity ip_hash) attempts ≤ 20
    → count_where (recent_management now made_by made_from) attempts ≤ 19
    → now ≤ later
    → count_where
        (recent_management later identity ip_hash)
        (add_attempt now made_by made_from true none attempts)
      ≤ 20
added_fits now later identity made_by ip_hash made_from attempts h k le =
    rw (count_where-append (recent_management later identity ip_hash) attempts) (
      ground (
        arith,
        same_window now identity made_by ip_hash made_from attempts,
        window_shrinks now later identity ip_hash attempts le,
      ))

-- A management call keeps every window at twenty attempts, whether it is let through or refused.
pub record_management_attempt-IsLimited :
    (env : Env) (now : Moment) (actor_user_id : ℕ) (action : String) (ip_hash : Option String)
    (s : Db)
    → IsLimited now s.live
    → IsLimited now (record_management_attempt env now actor_user_id action ip_hash s).1.live
unfolding record_management_attempt
record_management_attempt-IsLimited env now actor_user_id action ip_hash s limited = record {
  at_later = λ delay identity ip.
      let made_by : String = management_hash env actor_user_id action in
      ground (
        arith,
        limited.at_later delay identity ip,
        added_fits now (now + delay) identity made_by ip ip_hash s.live.attempts,
      );
}

-- A call, by whom, for what, from where and when.
pub record ManagementCall : Type 0 where
  pub actor_user_id : ℕ
  pub action : String
  pub ip_hash : Option String
  pub moment : Moment

-- The calls in the order in which they come; a refused call does not stop the next.
pub run_management : Env → List ManagementCall → Db → Db
run_management env [] s = s
run_management env (c ∷ cs) s =
    run_management env cs
      (record_management_attempt env c.moment c.actor_user_id c.action c.ip_hash s).1

abbrev pub InOrder : Moment → List ManagementCall → Type 0
InOrder start [] = Unit
InOrder start (c ∷ cs) = (start ≤ c.moment) × InOrder c.moment cs

abbrev pub last_moment : Moment → List ManagementCall → Moment
last_moment start [] = start
last_moment start (c ∷ cs) = last_moment c.moment cs

IsLimited-mono :
    (now later : Moment) (t : Tables) → now ≤ later → IsLimited now t → IsLimited later t
IsLimited-mono now later t le h = record {
  at_later = λ delay identity ip.
      let same : now + (later - now + delay) ≡ later + delay = omega arith in
      subst (λ m. in_window m identity ip t ≤ 20) same
        (h.at_later (later - now + delay) identity ip);
}

-- However many management calls are made by whatever accounts, in the order of time, no identity
-- ever has more than twenty attempts on record in the five minutes before the last of them or
-- before any later moment, if that held at the start.
pub run_management-IsLimited :
    (env : Env) (calls : List ManagementCall) (start : Moment) (s : Db)
    → InOrder start calls
    → IsLimited start s.live
    → IsLimited (last_moment start calls) (run_management env calls s).live
unfolding run_management
run_management-IsLimited env [] start s order h = h
run_management-IsLimited env (c ∷ cs) start s order h =
    run_management-IsLimited env cs c.moment
      (record_management_attempt env c.moment c.actor_user_id c.action c.ip_hash s).1 order.1
      (record_management_attempt-IsLimited env c.moment c.actor_user_id c.action c.ip_hash s
        (IsLimited-mono start c.moment s.live order.0 h))

-- A call is refused exactly when twenty attempts of its identity are in the window, and then
-- nothing is written; otherwise the attempt is added at the end and committed.
pub record_management_attempt_lem :
    (env : Env) (now : Moment) (actor_user_id : ℕ) (action : String) (ip_hash : Option String)
    (s : Db)
    → let identity = management_hash env actor_user_id action in
      record_management_attempt env now actor_user_id action ip_hash s ≡ (
        if leb 20 (in_window now identity ip_hash s.live)
        then (err Error.management_rate_limit, s)
        else (let t : Tables = record s.live {
          attempts = add_attempt now identity ip_hash true none s.live.attempts;
        } in
            (ok tt, record { live = t; saved = t })))
unfolding record_management_attempt
record_management_attempt_lem env now actor_user_id action ip_hash s = ground arith
