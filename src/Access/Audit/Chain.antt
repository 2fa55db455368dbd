-- ===== src/Access/Audit/Chain.antt =====
-- What `verify_integrity` accepts, and that `append_event` keeps it.
use threat_scope_xdr.Prelude.{
  ℕ, ◌+◌, ◌-◌, String, ◌≡◌, refl, sym, ap, ◌∙◌, ◌↔◌, inl, inr, Bool, true, ◌&&◌, Option, none, some,
  List, [], ◌∷◌, ◌++◌, arith, eq_iff, eq_refl, Bool-cases, length, opt_eq, ==_iff, opt_eq-eq,
  length-append,
}
use threat_scope_xdr.Access.Models.{Moment, SecurityAuditEvent}
use threat_scope_xdr.Access.Store.{Env, Tables, Db}
use mathlib.Core.Path.{subst}
use threat_scope_xdr.Access.Audit.{
  hash_payload, AuditEntry, latest, next_payload, append_event, insert_event, in_sequence, valid,
  fits, verify_from, verify_integrity,
}

-- Events numbered from `n`, each with its own hash and the hash of the one before.
abbrev pub IsChain : Env → ℕ → Option String → List SecurityAuditEvent → Type 0
IsChain env n previous [] = Unit
IsChain env n previous (e ∷ es) =
    (e.payload.sequence_number ≡ n)
    × (e.payload.previous_event_hash ≡ previous)
    × (e.event_hash ≡ hash_payload env e.payload)
    × IsChain env (n + 1) (some e.event_hash) es

abbrev pub last_hash : Option String → List SecurityAuditEvent → Option String
last_hash previous [] = previous
last_hash previous (e ∷ es) = last_hash (some e.event_hash) es

opt_eq_refl : (o : Option String) → opt_eq o o ≡ true
opt_eq_refl none = refl
opt_eq_refl (some s) = eq_refl s

opt_eq_of : (a b : Option String) → a ≡ b → opt_eq a b ≡ true
opt_eq_of a b e = subst (λ x. opt_eq a x ≡ true) e (opt_eq_refl a)

and3 : {a b c : Bool} → a ≡ true → b ≡ true → c ≡ true → (a && b && c) ≡ true
and3 p q r = ground arith

fits_iff :
    (env : Env) (n : ℕ) (previous : Option String) (e : SecurityAuditEvent)
    → (fits env n previous e ≡ true) ↔ (
        (e.payload.sequence_number ≡ n)
        × (e.payload.previous_event_hash ≡ previous)
        × (e.event_hash ≡ hash_payload env e.payload))
fits_iff env n previous e = (to, from)
  where
    to :
        fits env n previous e ≡ true
        → (e.payload.sequence_number ≡ n)
          × (e.payload.previous_event_hash ≡ previous)
          × (e.event_hash ≡ hash_payload env e.payload)
    to h = (
      ground arith,
      opt_eq-eq e.payload.previous_event_hash previous (ground arith),
      (eq_iff e.event_hash (hash_payload env e.payload)).0 (ground arith),
    )

    from :
        (e.payload.sequence_number ≡ n)
          × (e.payload.previous_event_hash ≡ previous)
          × (e.event_hash ≡ hash_payload env e.payload)
        → fits env n previous e ≡ true
    from h =
        and3 ((==_iff e.payload.sequence_number n).1 h.0)
          (opt_eq_of e.payload.previous_event_hash previous h.1)
          ((eq_iff e.event_hash (hash_payload env e.payload)).1 h.2)

-- The loop accepts exactly the chains.
pub verify_from-chain :
    (env : Env) (n : ℕ) (previous : Option String) (es : List SecurityAuditEvent)
    → IsChain env n previous es
    → verify_from env n previous es ≡ valid (n + length es - 1)
unfolding verify_from
verify_from-chain env n previous [] h = ap valid (omega arith)
verify_from-chain env n previous (e ∷ es) h =
    rw ((fits_iff env n previous e).1 (h.0, h.1, h.2))
      (verify_from-chain env (n + 1) (some e.event_hash) es h.3 ∙ ap valid (omega arith))

pub IsChain-verify_from :
    (env : Env) (n : ℕ) (previous : Option String) (es : List SecurityAuditEvent) (m : ℕ)
    → verify_from env n previous es ≡ valid m
    → IsChain env n previous es
unfolding verify_from
IsChain-verify_from env n previous [] m h = tt
IsChain-verify_from env n previous (e ∷ es) m h = elim (Bool-cases (fits env n previous e)) [
  | inl good ↦
      let (a, b, c) = (fits_iff env n previous e).0 good in
      (a, b, c, IsChain-verify_from env (n + 1) (some e.event_hash) es m (rw good at h))
  | inr bad ↦ cc (rw bad at h)
]

insert_event-first :
    (e : SecurityAuditEvent) (es : List SecurityAuditEvent) (env : Env) (previous : Option String)
    → IsChain env (e.payload.sequence_number + 1) previous es
    → insert_event e es ≡ e ∷ es
unfolding insert_event
insert_event-first e [] env previous h = refl
insert_event-first e (d ∷ ds) env previous h = ground (arith, h.0)

-- A chain is in the order of its sequence numbers.
pub in_sequence-chain :
    (env : Env) (n : ℕ) (previous : Option String) (es : List SecurityAuditEvent)
    → IsChain env n previous es
    → in_sequence es ≡ es
unfolding in_sequence
in_sequence-chain env n previous [] h = refl
in_sequence-chain env n previous (e ∷ es) h =
    rw (in_sequence-chain env (n + 1) (some e.event_hash) es h.3) (
      insert_event-first e es env (some e.event_hash)
        (subst (λ k. IsChain env (k + 1) (some e.event_hash) es) (sym h.0) h.3))

IsChain-append :
    (env : Env) (n : ℕ) (previous : Option String) (es : List SecurityAuditEvent)
    (x : SecurityAuditEvent)
    → IsChain env n previous es
    → x.payload.sequence_number ≡ n + length es
    → x.payload.previous_event_hash ≡ last_hash previous es
    → x.event_hash ≡ hash_payload env x.payload
    → IsChain env n previous (es ++ x ∷ [])
IsChain-append env n previous [] x h s p q = (omega arith, p, q, tt)
IsChain-append env n previous (e ∷ es) x h s p q =
    (h.0, h.1, h.2, IsChain-append env (n + 1) (some e.event_hash) es x h.3 (omega arith) p q)

-- The event with the largest number is the last one of the chain.
latest-chain :
    (env : Env) (n : ℕ) (previous : Option String) (e : SecurityAuditEvent)
    (es : List SecurityAuditEvent)
    → IsChain env n previous (e ∷ es)
    → (l : SecurityAuditEvent) × (latest (e ∷ es) ≡ some l)
      × (l.payload.sequence_number ≡ n + length es)
      × (last_hash previous (e ∷ es) ≡ some l.event_hash)
unfolding latest
latest-chain env n previous e [] h = (e, refl, omega arith, refl)
latest-chain env n previous e (d ∷ ds) h =
    let (l, a, b, c) = latest-chain env (n + 1) (some e.event_hash) d ds h.3 in
    (l, ground (arith, a, h.0, b), omega arith, c)

next_payload-fits :
    (env : Env) (now : Moment) (entry : AuditEntry) (t : Tables) (es : List SecurityAuditEvent)
    → IsChain env 1 none es
    → let p = next_payload env now entry t (latest es) in
      (p.sequence_number ≡ 1 + length es) × (p.previous_event_hash ≡ last_hash none es)
unfolding next_payload
next_payload-fits env now entry t [] h = unfold latest in (omega arith, refl)
next_payload-fits env now entry t (e ∷ es) h =
    let (l, a, b, c) = latest-chain env 1 none e es h in rw a (omega arith, sym c)

-- A new event continues a chain.
append_event-IsChain :
    (env : Env) (now : Moment) (entry : AuditEntry) (s : Db)
    → IsChain env 1 none s.live.events
    → IsChain env 1 none (append_event env now entry s).1.live.events
unfolding append_event
append_event-IsChain env now entry s h =
    let (a, b) = next_payload-fits env now entry s.live s.live.events h in
    IsChain-append env 1 none s.live.events _ h a b refl

-- Events appended one after the other, each at its moment.
pub append_all : Env → List (Moment × AuditEntry) → Db → Db
append_all env [] s = s
append_all env ((now, entry) ∷ rest) s = append_all env rest (append_event env now entry s).1

append_all-IsChain :
    (env : Env) (entries : List (Moment × AuditEntry)) (s : Db)
    → IsChain env 1 none s.live.events
    → IsChain env 1 none (append_all env entries s).live.events
unfolding append_all
append_all-IsChain env [] s h = h
append_all-IsChain env ((now, entry) ∷ rest) s h =
    append_all-IsChain env rest (append_event env now entry s).1
      (append_event-IsChain env now entry s h)

length-append_all :
    (env : Env) (entries : List (Moment × AuditEntry)) (s : Db)
    → length (append_all env entries s).live.events ≡ length s.live.events + length entries
unfolding append_all append_event
length-append_all env [] s = omega arith
length-append_all env ((now, entry) ∷ rest) s =
    length-append_all env rest (append_event env now entry s).1
    ∙ omega (arith, length-append {0} s.live.events)

-- A log that starts empty passes `verify_integrity` after any number of appended events, whatever
-- they are and whenever they come, and the report counts every one of them.
pub append_all_verifies :
    (env : Env) (entries : List (Moment × AuditEntry)) (s : Db)
    → s.live.events ≡ []
    → verify_integrity env (append_all env entries s).live ≡ valid (length entries)
unfolding verify_integrity
append_all_verifies env entries s empty =
    let h = append_all-IsChain env entries s (subst (IsChain env 1 none) (sym empty) tt) in
    rw (in_sequence-chain env 1 none (append_all env entries s).live.events h) (
      verify_from-chain env 1 none (append_all env entries s).live.events h
      ∙ ap valid (omega (arith, length-append_all env entries s, ap length empty)))
