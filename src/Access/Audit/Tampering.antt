-- ===== src/Access/Audit/Tampering.antt =====
-- What a valid report says of the events: it pins them down up to a collision of the hash.
use threat_scope_xdr.Prelude.{
  ℕ, ◌+◌, String, ◌≡◌, refl, sym, ap, ◌∙◌, ◌≢◌, ◌⊎◌, inl, inr, Option, none, some, List, [], ◌∷◌,
  arith, str_eq, eq_iff, Bool-cases, length,
}
use threat_scope_xdr.Access.Models.{AuditPayload, SecurityAuditEvent}
use threat_scope_xdr.Access.Store.{Env, Tables}
use native.Mathlib.Decide.{ℕ_discrete}
use threat_scope_xdr.Access.Audit.{hash_payload, in_sequence, valid, verify_integrity}
use threat_scope_xdr.Access.Audit.Chain.{IsChain, last_hash, IsChain-verify_from, verify_from-chain}
use mathlib.Core.Path.{ap₂}

String-discrete : Discrete String
String-discrete s t = elim (Bool-cases (str_eq s t)) [
  | inl same ↦ yes ((eq_iff s t).0 same)
  | inr other ↦ no (λ e. cc (other, (eq_iff s t).1 e))
]

AuditPayload-discrete : Discrete AuditPayload
AuditPayload-discrete = hlevel (ℕ_discrete, String-discrete)

-- two payloads that differ and have one hash
abbrev pub Collision : Env → Type 0
Collision env =
    (p : AuditPayload) × (q : AuditPayload) × (p ≢ q) × (hash_payload env p ≡ hash_payload env q)

-- The events' payloads, in the order of the chain.
abbrev pub payloads : List SecurityAuditEvent → List AuditPayload
payloads [] = []
payloads (e ∷ es) = e.payload ∷ payloads es

-- One event: equal hashes come from equal payloads, or show a collision.
same_payload :
    (env : Env) (p q : AuditPayload)
    → hash_payload env p ≡ hash_payload env q
    → (p ≡ q) ⊎ Collision env
same_payload env p q h = elim (AuditPayload-discrete p q) [
  | yes same ↦ inl same
  | no differ ↦ inr (p, q, differ, h)
]

valid_injective : {a b : ℕ} → valid a ≡ valid b → a ≡ b
valid_injective h = cc

some_injective : {a b : String} → some a ≡ some b → a ≡ b
some_injective h = cc

-- The step from the events after `e` and `d` to those from `e` and `d` on.
first_payload :
    (env : Env) (e d : SecurityAuditEvent) (p q : Option String) (rest others : List AuditPayload)
    → (e.payload.previous_event_hash ≡ p) × (e.event_hash ≡ hash_payload env e.payload)
    → (d.payload.previous_event_hash ≡ q) × (d.event_hash ≡ hash_payload env d.payload)
    → ((some e.event_hash ≡ some d.event_hash) × (rest ≡ others)) ⊎ Collision env
    → ((p ≡ q) × (e.payload ∷ rest ≡ d.payload ∷ others)) ⊎ Collision env
first_payload env e d p q rest others h k (inr collision) = inr collision
first_payload env e d p q rest others h k (inl (hashes, tails)) =
    elim (same_payload env e.payload d.payload (sym h.1 ∙ some_injective hashes ∙ k.1)) [
      | inl same ↦ inl (sym h.0 ∙ ap (λ x. x.previous_event_hash) same ∙ k.0, ap₂ ◌∷◌ same tails)
      | inr collision ↦ inr collision
    ]

-- Two chains of one length that end in one hash are the same from the first event on.
same_chain :
    (env : Env) (n m : ℕ) (p q : Option String) (es ds : List SecurityAuditEvent)
    → IsChain env n p es
    → IsChain env m q ds
    → length es ≡ length ds
    → last_hash p es ≡ last_hash q ds
    → ((p ≡ q) × (payloads es ≡ payloads ds)) ⊎ Collision env
same_chain env n m p q [] [] h k len last = inl (last, refl)
same_chain env n m p q [] (d ∷ ds) h k len last = absurd (omega arith)
same_chain env n m p q (e ∷ es) [] h k len last = absurd (omega arith)
same_chain env n m p q (e ∷ es) (d ∷ ds) h k len last =
    first_payload env e d p q (payloads es) (payloads ds) (h.1, h.2) (k.1, k.2)
      (same_chain env (n + 1) (m + 1) (some e.event_hash) (some d.event_hash) es ds h.3 k.3
        (omega arith) last)

-- Two logs that `verify_integrity` accepts with one number of events and whose last events have
-- one hash hold the same payloads, event by event, or they show two payloads with one hash:
-- without a collision nothing in an accepted log can be edited, dropped or reordered unless the
-- last hash changes.
pub verify_integrity_tamper_evident :
    (env : Env) (t u : Tables) (n : ℕ)
    → verify_integrity env t ≡ valid n
    → verify_integrity env u ≡ valid n
    → last_hash none (in_sequence t.events) ≡ last_hash none (in_sequence u.events)
    → (payloads (in_sequence t.events) ≡ payloads (in_sequence u.events)) ⊎ Collision env
unfolding verify_integrity
verify_integrity_tamper_evident env t u n h k last =
    let a = IsChain-verify_from env 1 none (in_sequence t.events) n h in
    let b = IsChain-verify_from env 1 none (in_sequence u.events) n k in
    let c = valid_injective (
      sym (verify_from-chain env 1 none (in_sequence t.events) a)
      ∙ h
      ∙ sym k
      ∙ verify_from-chain env 1 none (in_sequence u.events) b) in
    elim (same_chain env 1 1 none none (in_sequence t.events) (in_sequence u.events) a b
      (omega arith) last) [ inl same ↦ inl same.1 | inr collision ↦ inr collision ]
