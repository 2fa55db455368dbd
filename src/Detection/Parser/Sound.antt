-- ===== src/Detection/Parser/Sound.antt =====
-- detection_engineering/evaluator.py: what _parse_condition returns.
use threat_scope_xdr.Prelude.{
  ℕ, zero, suc, ◌+◌, ◌≤◌, ◌<◌, String, ◌≡◌, refl, ◌⊎◌, inl, inr, Bool, true, ◌&&◌, ◌||◌, List, [],
  ◌∷◌, arith, str_eq, eq_refl, ltb, is_some, Bool-cases, length, select, first, all, elem,
  all-sorted,
}
use threat_scope_xdr.Detection.Tokens.{Python, is_digits}
use threat_scope_xdr.Detection.Parser.{
  Node, selection, opposite, both, either, of_group, Parsed, parsed, invalid, exhausted, and_then,
  max_depth, closed, tail, next_is, is_amount, matching, named, group, atom, unary, and_rest,
  conjunction, or_rest, expression, finish, parse_tokens,
}

all-select : (p q : String → Bool) (ks : List String) → all p ks ≡ true → all p (select q ks) ≡ true
all-select p q [] h = refl
all-select p q (k ∷ ks) h = ground (arith, all-select p q ks)

pub all-weaken :
    (p q : String → Bool) (ks : List String)
    → ((k : String) → p k ≡ true → q k ≡ true)
    → all p ks ≡ true
    → all q ks ≡ true
all-weaken p q [] h hs = refl
all-weaken p q (k ∷ ks) h hs = ground (arith, h k, all-weaken p q ks h)

or_true : (a b : Bool) → b ≡ true → (a || b) ≡ true
or_true a b h = ground arith

all-elem : (ks : List String) → all (λ k. elem k ks) ks ≡ true
all-elem [] = refl
all-elem (k ∷ ks) = rw (eq_refl k) (
    all-weaken (λ j. elem j ks) (λ j. str_eq k j || elem j ks) ks
      (λ j h. or_true (str_eq k j) (elem j ks) h) (all-elem ks))

-- `str.lower` leaves digits as they are
abbrev pub KeepsDigits : Python → Type 0
KeepsDigits py = (s : String) → is_digits s ≡ true → py.lower s ≡ s

module _ (py : Python) (keeps : KeepsDigits py) (names : List String) where
  -- the node names selections of the rule alone, and its amounts are numbers or `all`
  abbrev pub is_named : Node → Bool
  is_named (selection s) = elem s names
  is_named (opposite n) = is_named n
  is_named (both a b) = is_named a && is_named b
  is_named (either a b) = is_named a && is_named b
  is_named (of_group amount matched) =
      (is_digits amount || str_eq amount "all") && all (λ n. elem n names) matched

  -- a node that is named, with fewer tokens after it, or an error
  abbrev pub IsFine : List String → Parsed → Type 0
  IsFine ts (parsed n rest) = (is_named n ≡ true) × (length rest < length ts)
  IsFine ts (invalid e) = Unit {0}
  IsFine ts exhausted = ⊥

  and_then-IsFine :
      (ts us : List String) (p : Parsed) (f : Node → List String → Parsed)
      → IsFine us p
      → ((n : Node) (rest : List String)
          → is_named n ≡ true
          → length rest < length us
          → IsFine ts (f n rest))
      → IsFine ts (and_then p f)
  and_then-IsFine ts us (parsed n rest) f h k = k n rest h.0 h.1
  and_then-IsFine ts us (invalid e) f h k = tt
  and_then-IsFine ts us exhausted f h k = absurd h

  named-IsFine :
      (t : String) (ts us : List String) → length us < length ts → IsFine ts (named py names t us)
  unfolding named
  named-IsFine t ts us lt = elim (Bool-cases (elem t names)) [
    | inl h ↦ rw h (h, lt)
    | inr h ↦ rw h tt
  ]

  amount_lem :
      (t : String)
      → is_amount py names t ≡ true
      → (is_digits (py.lower t) || str_eq (py.lower t) "all") ≡ true
  amount_lem t h = elim (Bool-cases (is_digits t)) [
    | inl d ↦ rw (keeps t d, d) refl
    | inr d ↦ or_true (is_digits (py.lower t)) (str_eq (py.lower t) "all") (rw d at h)
  ]

  pub all-matching : (pattern : String) → all (λ n. elem n names) (matching py names pattern) ≡ true
  unfolding matching
  all-matching pattern =
      all-sorted (λ n. elem n names) (select _ names)
        (all-select (λ n. elem n names) _ names (all-elem names))

  group-IsFine :
      (t pattern : String) (ts us : List String)
      → is_amount py names t ≡ true
      → length us < length ts
      → IsFine ts (group py names t pattern us)
  unfolding group
  group-IsFine t pattern ts us h lt =
      elim (Bool-cases (is_some (first (λ n. true) (matching py names pattern)))) [
        | inl s ↦ rw s (rw (amount_lem t h, all-matching pattern) refl, lt)
        | inr s ↦ rw s tt
      ]

  atom-IsFine : (t : String) (ts : List String) → IsFine (t ∷ ts) (atom py names t ts)
  unfolding atom
  atom-IsFine t [] = named-IsFine t (t ∷ []) [] (omega arith)
  atom-IsFine t (o ∷ []) = named-IsFine t (t ∷ o ∷ []) (o ∷ []) (omega arith)
  atom-IsFine t (o ∷ p ∷ rest) = elim (Bool-cases (is_amount py names t)) [
    | inl a ↦ elim (Bool-cases (str_eq (py.lower o) "of")) [
      | inl e ↦ rw (a, e) (group-IsFine t p (t ∷ o ∷ p ∷ rest) rest a (omega arith))
      | inr e ↦ rw (a, e) (named-IsFine t (t ∷ o ∷ p ∷ rest) (o ∷ p ∷ rest) (omega arith))
    ]
    | inr a ↦ rw a (named-IsFine t (t ∷ o ∷ p ∷ rest) (o ∷ p ∷ rest) (omega arith))
  ]

  closed-IsFine :
      (t : String) (ts : List String) (p : Parsed) → IsFine ts p → IsFine (t ∷ ts) (closed p)
  unfolding closed
  closed-IsFine t ts (parsed n []) h = tt
  closed-IsFine t ts (parsed n (u ∷ rest)) h = elim (Bool-cases (str_eq u ")")) [
    | inl e ↦ rw e (h.0, omega (arith, h.1))
    | inr e ↦ rw e tt
  ]
  closed-IsFine t ts (invalid e) h = tt
  closed-IsFine t ts exhausted h = absurd h

  length-tail : (ts : List String) → length (tail ts) ≤ length ts
  length-tail [] = omega arith
  length-tail (t ∷ ts) = omega arith

  -- `room` and the depth bound how deep `expr` may go
  module _ (room : ℕ) (expr : ℕ → List String → Parsed)
      (fine : (d : ℕ) → 10 ≤ room + d → (ts : List String) → IsFine ts (expr d ts)) where
    unary-IsFine :
        (d : ℕ) → 10 ≤ room + d → (ts : List String) → IsFine ts (unary py names expr d ts)
    unfolding unary
    unary-IsFine d le [] = tt
    unary-IsFine d le (t ∷ ts) = elim (Bool-cases (str_eq (py.lower t) "not")) [
      | inl e ↦
          rw (e, IsFine)
            (and_then-IsFine (t ∷ ts) ts (unary py names expr (suc d) ts) _
              (unary-IsFine (suc d) (omega arith) ts) (λ n rest h lt. (h, omega (arith, lt))))
      | inr e ↦ elim (Bool-cases (str_eq t "(")) [
        | inl o ↦
            rw (e, o, IsFine) (closed-IsFine t ts (expr (suc d) ts) (fine (suc d) (omega arith) ts))
        | inr o ↦ rw (e, o, IsFine) (atom-IsFine t ts)
      ]
    ]

    and_rest-IsFine :
        (rounds d : ℕ) (n : Node) (ts us : List String)
        → 10 ≤ room + d
        → is_named n ≡ true
        → length us < length ts
        → length us < rounds
        → IsFine ts (and_rest py names expr rounds d n us)
    unfolding and_rest
    and_rest-IsFine zero d n ts us le h lt enough = absurd (omega (arith, enough))
    and_rest-IsFine (suc rounds) d n ts us le h lt enough =
        elim (Bool-cases (next_is py names "and" us)) [
          | inl e ↦
              rw (e, IsFine)
                (and_then-IsFine ts (tail us) (unary py names expr (suc d) (tail us)) _
                  (unary-IsFine (suc d) (omega arith) (tail us))
                  (λ m rest k less.
                    and_rest-IsFine rounds d (both n m) ts rest le (rw (h, k) refl)
                      (omega (arith, less, length-tail us)) (omega (arith, less, length-tail us))))
          | inr e ↦ rw (e, IsFine) (h, lt)
        ]

    conjunction-IsFine :
        (d : ℕ) → 10 ≤ room + d → (ts : List String) → IsFine ts (conjunction py names expr d ts)
    unfolding conjunction
    conjunction-IsFine d le ts =
        and_then-IsFine ts ts (unary py names expr (suc d) ts) _
          (unary-IsFine (suc d) (omega arith) ts)
          (λ n rest h lt. and_rest-IsFine (suc (length rest)) d n ts rest le h lt (omega arith))

    or_rest-IsFine :
        (rounds d : ℕ) (n : Node) (ts us : List String)
        → 10 ≤ room + suc d
        → is_named n ≡ true
        → length us < length ts
        → length us < rounds
        → IsFine ts (or_rest py names expr rounds d n us)
    unfolding or_rest
    or_rest-IsFine zero d n ts us le h lt enough = absurd (omega (arith, enough))
    or_rest-IsFine (suc rounds) d n ts us le h lt enough =
        elim (Bool-cases (next_is py names "or" us)) [
          | inl e ↦
              rw (e, IsFine)
                (and_then-IsFine ts (tail us) (conjunction py names expr (suc d) (tail us)) _
                  (conjunction-IsFine (suc d) le (tail us))
                  (λ m rest k less.
                    or_rest-IsFine rounds d (either n m) ts rest le (rw (h, k) refl)
                      (omega (arith, less, length-tail us)) (omega (arith, less, length-tail us))))
          | inr e ↦ rw (e, IsFine) (h, lt)
        ]

  too_deep : (d : ℕ) → 10 ≤ d → ltb max_depth d ≡ true
  too_deep d le = ground arith

  expression-IsFine :
      (room d : ℕ) → 10 ≤ room + d → (ts : List String) → IsFine ts (expression py names room d ts)
  unfolding expression
  expression-IsFine zero d le ts = rw (too_deep d (omega arith)) tt
  expression-IsFine (suc room) d le ts = elim (Bool-cases (ltb max_depth d)) [
    | inl e ↦ rw (e, IsFine) tt
    | inr e ↦
        rw (e, IsFine)
          (and_then-IsFine ts ts (conjunction py names (expression py names room) (suc d) ts) _
            (conjunction-IsFine room (expression py names room) (expression-IsFine room) (suc d)
              (omega arith) ts)
            (λ n rest h lt.
              or_rest-IsFine room (expression py names room) (expression-IsFine room)
                (suc (length rest)) d n ts rest (omega arith) h lt (omega arith)))
  ]

  ended :
      (ts : List String) (p : Parsed)
      → IsFine ts p
      → ((n : Node) × (finish py names p ≡ parsed n []) × (is_named n ≡ true))
        ⊎ ((e : String) × (finish py names p ≡ invalid e))
  unfolding finish
  ended ts (parsed n []) h = inl (n, refl, h.0)
  ended ts (parsed n (t ∷ rest)) h = inr ("Malformed condition", refl)
  ended ts (invalid e) h = inr (e, refl)
  ended ts exhausted h = absurd h

  -- The parser comes to an end on every list of tokens: it returns a tree with no token left, in
  -- which every selection is one of the rule's and every amount is a number or `all`, or it raises
  -- an error. (The lower case of digits is the digits.)
  pub parse_tokens_total :
      (ts : List String)
      → ((n : Node) × (parse_tokens py names ts ≡ parsed n []) × (is_named n ≡ true))
        ⊎ ((e : String) × (parse_tokens py names ts ≡ invalid e))
  unfolding parse_tokens
  parse_tokens_total ts =
      ended ts (expression py names 10 0 ts) (expression-IsFine 10 0 (omega arith) ts)
