-- ===== src/Detection/Outcomes/Decided.antt =====
-- detection_engineering/evaluator.py: evaluate, for a rule whose condition parses.
use threat_scope_xdr.Prelude.{
  String, ◌≡◌, refl, ap, inl, inr, Bool, true, List, [], ◌∷◌, map, str_eq, is_some, Bool-cases,
  elem,
}
use threat_scope_xdr.Soar.Json.{Json, Entries}
use threat_scope_xdr.Detection.Tokens.{Python, int, is_digits}
use threat_scope_xdr.Detection.Parser.{Parsed, parsed, invalid, exhausted}
use threat_scope_xdr.Detection.Parser.Sound.{KeepsDigits, is_named}
use threat_scope_xdr.Detection.Outcomes.{Library, FieldTest, outcomes_of, lookup}

names-outcomes_of :
    (library : Library) (event : Entries) (ss : List (String × List FieldTest))
    → map (λ o. o.0) (outcomes_of library event ss) ≡ map (λ s. s.0) ss
unfolding outcomes_of
names-outcomes_of library event [] = refl
names-outcomes_of library event (s ∷ ss) = ap (λ ks. s.0 ∷ ks) (names-outcomes_of library event ss)

lookup_some :
    (os : List (String × Bool)) (s : String)
    → elem s (map (λ o. o.0) os) ≡ true
    → is_some (lookup s os) ≡ true
lookup_some [] s h = absurd (cc h)
lookup_some (o ∷ os) s h = elim (Bool-cases (str_eq o.0 s)) [
  | inl e ↦ rw e refl
  | inr e ↦ rw e (lookup_some os s (rw e at h))
]

-- every selection of the rule has an outcome
pub lookup-outcomes_of :
    (library : Library) (event : Entries) (ss : List (String × List FieldTest)) (s : String)
    → elem s (map (λ t. t.0) ss) ≡ true
    → is_some (lookup s (outcomes_of library event ss)) ≡ true
lookup-outcomes_of library event ss s h =
    lookup_some (outcomes_of library event ss) s (rw (names-outcomes_of library event ss) h)

pub int_some : (s : String) → is_digits s ≡ true → is_some (int s) ≡ true
unfolding int
int_some s h = rw h refl

module _ (py : Python) (keeps : KeepsDigits py) (names : List String) where
  is_named_parsed : Parsed → Bool
  is_named_parsed (parsed n rest) = is_named py keeps names n
  is_named_parsed (invalid e) = true
  is_named_parsed exhausted = true
