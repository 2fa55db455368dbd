-- ===== src/Soar/Conditions/Refines.antt =====
-- soar/conditions.py: the evaluation against the meaning of conditions.
use threat_scope_xdr.Prelude.{
  ℕ, zero, suc, ◌+◌, ◌≤◌, ◌<◌, String, ◌≡◌, refl, sym, ap, ◌∙◌, ◌↔◌, inl, inr, Bool, true, false,
  not, ◌&&◌, Option, none, some, List, ◌∷◌, arith, str_eq, leb, ◌==◌, if◌then◌else◌, Bool-cases,
  any, all, ==_iff,
}
use threat_scope_xdr.Soar.Json.{
  Json, Elements, Python, arr, nil, cons, size_elements, nothing, boolean, number, str, dict,
}
use threat_scope_xdr.Soar.Conditions.{
  Outcome, returned, raised, ◌>>=◌, ConditionResult, operator_of, get_field, sum_comparisons,
  evaluate_each, group_result, evaluate_group, negated, comparison, evaluate_operator, evaluate_at,
  evaluate, max_depth, max_comparisons,
}
use threat_scope_xdr.Soar.Conditions.Meaning.{
  Condition, Conditions, every, some_of, opposite, further, leaves, leaves_of, denote, denote_all,
  denote_any, both, map_option, read_each, read_group, read_operator, if_returned, read, leaves_pos,
}

pub fits_twenty : (n : ℕ) → leb n 19 ≡ true → (leb 1 (suc n) && leb (suc n) 20) ≡ true
fits_twenty n h = ground arith

pub over_twenty : (n : ℕ) → leb n 19 ≡ false → (leb 1 (suc n) && leb (suc n) 20) ≡ false
over_twenty n h = ground arith

module _ (py : Python) (context : Json) where
  -- what an evaluation of a condition that spells a tree gives, with `budget` comparisons left
  abbrev pub Agrees : Outcome (ConditionResult × ℕ) → Option Condition → ℕ → Type 0
  Agrees (returned (r, left)) (some t) budget =
      (r.matched ≡ denote py context t) × (r.comparisons ≡ leaves t) × (left + leaves t ≡ budget)
  Agrees (returned _) none budget = ⊥
  Agrees (raised e) (some t) budget = budget < leaves t
  Agrees (raised e) none budget = Unit {0}

  abbrev AgreesEach : Outcome (List ConditionResult × ℕ) → Option Conditions → ℕ → Type 0
  AgreesEach (returned (rs, left)) (some ts) budget =
      (all (λ r. r.matched) rs ≡ denote_all py context ts)
      × (any (λ r. r.matched) rs ≡ denote_any py context ts)
      × (sum_comparisons rs ≡ leaves_of ts)
      × (left + leaves_of ts ≡ budget)
  AgreesEach (returned _) none budget = ⊥
  AgreesEach (raised e) (some ts) budget = budget < leaves_of ts
  AgreesEach (raised e) none budget = Unit {0}

  after_first :
      (r : ConditionResult) (t : Condition) (budget left : ℕ)
      (o : Outcome (List ConditionResult × ℕ)) (q : Option Conditions)
      → Agrees (returned (r, left)) (some t) budget
      → AgreesEach o q left
      → AgreesEach (o >>= λ rs. returned (r ∷ rs.0, rs.1)) (both further (some t) q) budget
  unfolding leaves_of denote_all denote_any
  after_first r t budget left (returned (rs, rest)) (some ts) h k =
      (ground arith, ground arith, omega arith, omega arith)
  after_first r t budget left (returned (rs, rest)) none h k = k
  after_first r t budget left (raised e) (some ts) h k = omega arith
  after_first r t budget left (raised e) none h k = tt

  first_then :
      (o : Outcome (ConditionResult × ℕ)) (p : Option Condition) (budget : ℕ)
      (others : ℕ → Outcome (List ConditionResult × ℕ)) (q : Option Conditions)
      → Agrees o p budget
      → ((left : ℕ) → AgreesEach (others left) q left)
      → AgreesEach
          (o >>= λ r. others r.1 >>= λ rs. returned (r.0 ∷ rs.0, rs.1))
          (both further p q)
          budget
  unfolding leaves_of
  first_then (returned (r, left)) (some t) budget others q h k =
      after_first r t budget left (others left) q h (k left)
  first_then (returned r) none budget others q h k = absurd h
  first_then (raised e) (some t) budget others (some ts) h k = omega arith
  first_then (raised e) (some t) budget others none h k = tt
  first_then (raised e) none budget others (some ts) h k = tt
  first_then (raised e) none budget others none h k = tt

  module _ (call : Json → ℕ → Outcome (ConditionResult × ℕ)) (spelled : Json → Option Condition)
      (agrees : (c : Json) (budget : ℕ) → Agrees (call c budget) (spelled c) budget) where
    each-AgreesEach :
        (xs : Elements) (budget : ℕ)
        → AgreesEach (evaluate_each py context call xs budget) (read_each spelled xs) budget
    unfolding evaluate_each read_each leaves_of denote_all denote_any
    each-AgreesEach nil budget = (refl, refl, refl, omega arith)
    each-AgreesEach (cons x xs) budget =
        first_then (call x budget) (spelled x) budget (evaluate_each py context call xs)
          (read_each spelled xs) (agrees x budget) (each-AgreesEach xs)

    abbrev make : String → Condition → Conditions → Condition
    make op = if str_eq op "all" then every else some_of

    group-Agrees :
        (op : String) (o : Outcome (List ConditionResult × ℕ)) (p : Option Condition)
        (q : Option Conditions) (budget : ℕ)
        → AgreesEach o (both further p q) budget
        → Agrees
            (o >>= λ rs. returned (group_result py context op rs.0, rs.1))
            (both (make op) p q)
            budget
    unfolding leaves denote leaves_of denote_all denote_any
    group-Agrees op (returned (rs, left)) (some t) (some ts) budget h =
        elim (Bool-cases (str_eq op "all")) [
          | inl e ↦ rw e (h.0, h.2, h.3)
          | inr e ↦ rw e (h.1, h.2, h.3)
        ]
    group-Agrees op (returned (rs, left)) (some t) none budget h = h
    group-Agrees op (returned (rs, left)) none (some ts) budget h = h
    group-Agrees op (returned (rs, left)) none none budget h = h
    group-Agrees op (raised e) (some t) (some ts) budget h = elim (Bool-cases (str_eq op "all")) [
      | inl e ↦ rw e h
      | inr e ↦ rw e h
    ]
    group-Agrees op (raised e) (some t) none budget h = tt
    group-Agrees op (raised e) none (some ts) budget h = tt
    group-Agrees op (raised e) none none budget h = tt

    listed-Agrees :
        (op : String) (v : Json) (budget : ℕ)
        → Agrees
            (evaluate_group py context call op v budget)
            (read_group spelled (make op) v)
            budget
    unfolding evaluate_group read_group
    listed-Agrees op (arr nil) budget = tt
    listed-Agrees op (arr (cons x xs)) budget = elim (Bool-cases (leb (size_elements xs) 19)) [
      | inl few ↦
          rw (few, fits_twenty (size_elements xs) few)
            (group-Agrees op (evaluate_each py context call (cons x xs) budget) (spelled x)
              (read_each spelled xs) budget (each-AgreesEach (cons x xs) budget))
      | inr many ↦ rw (many, over_twenty (size_elements xs) many) tt
    ]
    listed-Agrees op nothing budget = tt
    listed-Agrees op (boolean b) budget = tt
    listed-Agrees op (number n) budget = tt
    listed-Agrees op (str s) budget = tt
    listed-Agrees op (dict fs) budget = tt

    opposite-Agrees :
        (o : Outcome (ConditionResult × ℕ)) (p : Option Condition) (budget : ℕ)
        → Agrees o p budget
        → Agrees (o >>= λ r. returned (negated py context r.0, r.1)) (map_option opposite p) budget
    unfolding leaves denote
    opposite-Agrees (returned (r, left)) (some t) budget h = (ap not h.0, h.1, h.2)
    opposite-Agrees (returned r) none budget h = h
    opposite-Agrees (raised e) (some t) budget h = h
    opposite-Agrees (raised e) none budget h = tt

    operator-Agrees :
        (condition : Json) (op : String) (budget : ℕ)
        → (budget == 0) ≡ false
        → Agrees
            (evaluate_operator py context call condition budget op)
            (read_operator spelled condition op)
            budget
    unfolding evaluate_operator read_operator comparison leaves denote
    operator-Agrees condition op budget h = elim (Bool-cases (str_eq op "all")) [
      | inl e ↦ rw e (rw e at (listed-Agrees op (get_field condition "conditions") budget))
      | inr e ↦ elim (Bool-cases (str_eq op "any")) [
        | inl e' ↦ rw (e, e') (rw e at (listed-Agrees op (get_field condition "conditions") budget))
        | inr e' ↦ elim (Bool-cases (str_eq op "not")) [
          | inl n ↦
              rw (e, e', n)
                (opposite-Agrees (call (get_field condition "condition") budget)
                  (spelled (get_field condition "condition")) budget
                  (agrees (get_field condition "condition") budget))
          | inr n ↦ rw (e, e', n) (refl, refl, ground arith)
        ]
      ]
    ]

  spent :
      (p : Option Condition) (budget : ℕ)
      → budget ≡ 0
      → Agrees (raised "Condition comparison limit exceeded") p budget
  spent (some t) budget z = omega (arith, leaves_pos t)
  spent none budget z = tt

  checked-Agrees :
      (call : Json → ℕ → Outcome (ConditionResult × ℕ)) (spelled : Json → Option Condition)
      (condition : Json) (budget : ℕ) (o : Outcome String)
      → ((c : Json) (left : ℕ) → Agrees (call c left) (spelled c) left)
      → Agrees
          (if budget == 0
            then raised "Condition comparison limit exceeded"
            else o >>= evaluate_operator py context call condition budget)
          (if_returned o (read_operator spelled condition))
          budget
  checked-Agrees call spelled condition budget (raised e) agrees = elim (Bool-cases (budget == 0)) [
    | inl z ↦ rw z tt
    | inr p ↦ rw p tt
  ]
  checked-Agrees call spelled condition budget (returned op) agrees =
      elim (Bool-cases (budget == 0)) [
        | inl z ↦ rw z (spent (read_operator spelled condition op) budget ((==_iff budget 0).0 z))
        | inr p ↦ rw p (operator-Agrees call spelled agrees condition op budget p)
      ]

  evaluate_at-Agrees :
      (room : ℕ) (condition : Json) (budget : ℕ)
      → Agrees (evaluate_at py context room condition budget) (read room condition) budget
  unfolding evaluate_at read
  evaluate_at-Agrees zero condition budget = tt
  evaluate_at-Agrees (suc room) condition budget =
      checked-Agrees (evaluate_at py context room) (read room) condition budget
        (operator_of condition) (evaluate_at-Agrees room)

  -- one run of `evaluate` that returns
  abbrev pub Decides : Json → Bool → ℕ → Type 0
  Decides condition matched comparisons =
      (r : ConditionResult) × (evaluate py context condition ≡ returned r)
      × (r.matched ≡ matched)
      × (r.comparisons ≡ comparisons)

  -- a tree that a condition spells within the limits
  abbrev pub Means : Json → Bool → ℕ → Type 0
  Means condition matched comparisons =
      (t : Condition) × (read (suc max_depth) condition ≡ some t)
      × (leaves t ≤ max_comparisons)
      × (denote py context t ≡ matched)
      × (leaves t ≡ comparisons)

  decided :
      (o : Outcome (ConditionResult × ℕ)) (p : Option Condition) (matched : Bool) (comparisons : ℕ)
      → Agrees o p max_comparisons
      → ((r : ConditionResult) × ((o >>= λ r. returned r.0) ≡ returned r)
          × (r.matched ≡ matched)
          × (r.comparisons ≡ comparisons))
        ↔ ((t : Condition) × (p ≡ some t)
            × (leaves t ≤ max_comparisons)
            × (denote py context t ≡ matched)
            × (leaves t ≡ comparisons))
  decided (returned (r, left)) (some t) matched comparisons h = (
    λ (r', e, m, n). (
      t,
      refl,
      omega (arith, h.2),
      sym h.0 ∙ ap (λ o. shown o) e ∙ m,
      sym h.1 ∙ ap (λ o. counted o) e ∙ n,
    ),
    λ (t', e, le, m, n). (r, refl, h.0 ∙ ap (λ q. meant q) e ∙ m, h.1 ∙ ap (λ q. sized q) e ∙ n),
  )
    where
      shown : Outcome ConditionResult → Bool
      shown (returned q) = q.matched
      shown (raised e) = false

      counted : Outcome ConditionResult → ℕ
      counted (returned q) = q.comparisons
      counted (raised e) = 0

      meant : Option Condition → Bool
      meant (some q) = denote py context q
      meant none = false

      sized : Option Condition → ℕ
      sized (some q) = leaves q
      sized none = 0
  decided (returned o) none matched comparisons h = absurd h
  decided (raised e) (some t) matched comparisons h =
      (λ (r, e', m, n). absurd (cc e'), λ (t', e', le, m, n). absurd (over e' le))
    where
      over : {u : Condition} → some t ≡ some u → leaves u ≤ max_comparisons → ⊥
      over e' le = grind (arith, h, e', le)
  decided (raised e) none matched comparisons h =
      (λ (r, e', m, n). absurd (cc e'), λ (t', e', le, m, n). absurd (cc e'))

  -- A condition evaluates to a truth value with a number of comparisons exactly when it spells a
  -- tree within the limits of depth and width, of at most 100 comparisons, that has this value and
  -- this number.
  pub evaluate_iff :
      (condition : Json) (matched : Bool) (comparisons : ℕ)
      → Decides condition matched comparisons ↔ Means condition matched comparisons
  unfolding evaluate
  evaluate_iff condition matched comparisons =
      decided (evaluate_at py context (suc max_depth) condition max_comparisons)
        (read (suc max_depth) condition) matched comparisons
        (evaluate_at-Agrees (suc max_depth) condition max_comparisons)
