-- ===== src/Soar/Validation/Admitted.antt =====
-- soar/validation.py with soar/conditions.py: a condition that a playbook is admitted with.
use threat_scope_xdr.Prelude.{
  ℕ, zero, suc, ◌+◌, ◌≤◌, String, ◌≡◌, refl, inl, inr, Bool, true, false, Option, none, some, List,
  [], ◌∷◌, ◌++◌, arith, str_eq, ltb, leb, if◌then◌else◌, Bool-cases, elem, count,
}
use threat_scope_xdr.Soar.Json.{
  Json, Elements, Python, arr, nil, cons, size_elements, nothing, boolean, number, str, dict,
  find_entry, or_nothing,
}
use threat_scope_xdr.Soar.Conditions.{
  Outcome, returned, raised, ◌>>=◌, ConditionResult, operators, check_operator, operator_of,
  get_field, max_depth, max_comparisons, evaluate,
}
use threat_scope_xdr.Soar.Conditions.Meaning.{
  Condition, Conditions, compared, every, some_of, opposite, last, further, leaves, leaves_of, both,
  map_option, read_each, read_group, read_operator, if_returned, read, denote,
}
use threat_scope_xdr.Soar.Conditions.Refines.{fits_twenty, over_twenty, evaluate_iff}
use threat_scope_xdr.Soar.Validation.{
  Problem, Report, known, known_operator, side_problems, comparison_problems, part_problems,
  group_problems, operator_problems, condition_errors_at, condition_errors,
}

-- a report without an error is of a condition that spells a tree whose comparisons it counted
abbrev Clean : Report → Option Condition → ℕ → Type 0
Clean (returned ([], after)) p count =
    (t : Condition) × (p ≡ some t) × (count + leaves t ≡ after) × (after ≤ 100)
Clean (returned (e ∷ es, after)) p count = Unit {0}
Clean (raised e) p count = Unit {0}

abbrev CleanEach : Report → Option Conditions → ℕ → Type 0
CleanEach (returned ([], after)) q count =
    (ts : Conditions) × (q ≡ some ts) × (count + leaves_of ts ≡ after) × (after ≤ 100)
CleanEach (returned (e ∷ es, after)) q count = Unit {0}
CleanEach (raised e) q count = Unit {0}

then_others :
    (o : Report) (p : Option Condition) (count : ℕ) (others : ℕ → Report) (q : Option Conditions)
    → Clean o p count
    → ((after : ℕ) → after ≤ 100 → CleanEach (others after) q after)
    → CleanEach
        (o >>= λ r. others r.1 >>= λ rs. returned (r.0 ++ rs.0, rs.1))
        (both further p q)
        count
unfolding leaves_of
then_others (raised e) p count others q h k = tt
then_others (returned (e ∷ es, after)) p count others q h k = whatever (others after)
  where
    whatever :
        (o : Report)
        → CleanEach (o >>= λ rs. returned ((e ∷ es) ++ rs.0, rs.1)) (both further p q) count
    whatever (returned r) = tt
    whatever (raised x) = tt
then_others (returned ([], after)) p count others q (t, e, n, le) k =
    rest (others after) (k after le)
  where
    rest :
        (o : Report)
        → CleanEach o q after
        → CleanEach (o >>= λ rs. returned ([] ++ rs.0, rs.1)) (both further p q) count
    rest (returned ([], final)) (ts, e', n', le') = (further t ts, rw (e, e'), omega arith, le')
    rest (returned (x ∷ xs, final)) h' = tt
    rest (raised x) h' = tt

leaves_of_injective : {ts us : Conditions} → some ts ≡ some us → leaves_of ts ≡ leaves_of us
leaves_of_injective e = cc

sum_every : (t : Condition) (ts : Conditions) → leaves (every t ts) ≡ leaves t + leaves_of ts
unfolding leaves
sum_every t ts = refl

sum_some_of : (t : Condition) (ts : Conditions) → leaves (some_of t ts) ≡ leaves t + leaves_of ts
unfolding leaves
sum_some_of t ts = refl

module _ (call : Json → String → ℕ → Report) (spelled : Json → Option Condition)
    (clean : (c : Json) (path : String) (count : ℕ)
      → count ≤ 100
      → Clean (call c path count) (spelled c) count) where
  parts-Clean :
      (xs : Elements) (path : String) (index count : ℕ)
      → count ≤ 100
      → CleanEach (part_problems call xs path index count) (read_each spelled xs) count
  unfolding part_problems read_each leaves_of
  parts-Clean nil path index count le = (last, refl, omega arith, le)
  parts-Clean (cons x xs) path index count le =
      then_others (call x _ count) (spelled x) count (part_problems call xs path (index + 1))
        (read_each spelled xs) (clean x _ count le) (parts-Clean xs path (index + 1))

  made-Clean :
      (o : Report) (make : Condition → Conditions → Condition) (p : Option Condition)
      (q : Option Conditions) (count : ℕ)
      → ((t : Condition) (ts : Conditions) → leaves (make t ts) ≡ leaves t + leaves_of ts)
      → CleanEach o (both further p q) count
      → Clean o (both make p q) count
  unfolding leaves_of
  made-Clean (raised e) make p q count sum h = tt
  made-Clean (returned (e ∷ es, after)) make p q count sum h = tt
  made-Clean (returned ([], after)) make (some t) (some ts) count sum (us, e, n, le) =
      (make t ts, refl, grind (arith, sum t ts, leaves_of_injective e), le)
  made-Clean (returned ([], after)) make (some t) none count sum (us, e, n, le) = absurd (cc e)
  made-Clean (returned ([], after)) make none (some ts) count sum (us, e, n, le) = absurd (cc e)
  made-Clean (returned ([], after)) make none none count sum (us, e, n, le) = absurd (cc e)

  group-Clean :
      (make : Condition → Conditions → Condition) (op : String) (v : Json) (path : String)
      (count : ℕ)
      → ((t : Condition) (ts : Conditions) → leaves (make t ts) ≡ leaves t + leaves_of ts)
      → count ≤ 100
      → Clean (group_problems call op v path count) (read_group spelled make v) count
  unfolding group_problems read_group
  group-Clean make op (arr nil) path count sum le = tt
  group-Clean make op (arr (cons x xs)) path count sum le =
      elim (Bool-cases (leb (size_elements xs) 19)) [
        | inl few ↦
            rw (few, fits_twenty (size_elements xs) few)
              (made-Clean (part_problems call (cons x xs) path 0 count) make (spelled x)
                (read_each spelled xs) count sum (parts-Clean (cons x xs) path 0 count le))
        | inr many ↦ rw (many, over_twenty (size_elements xs) many) tt
      ]
  group-Clean make op nothing path count sum le = tt
  group-Clean make op (boolean b) path count sum le = tt
  group-Clean make op (number n) path count sum le = tt
  group-Clean make op (str s) path count sum le = tt
  group-Clean make op (dict fs) path count sum le = tt

  opposite-Clean :
      (o : Report) (p : Option Condition) (count : ℕ)
      → Clean o p count
      → Clean o (map_option opposite p) count
  unfolding leaves
  opposite-Clean (raised e) p count h = tt
  opposite-Clean (returned (e ∷ es, after)) p count h = tt
  opposite-Clean (returned ([], after)) p count (t, e, n, le) = (opposite t, rw e, n, le)

  comparison-Clean :
      (node : Json) (op path : String) (count : ℕ)
      → Clean (returned (comparison_problems node path count)) (some (compared op node)) count
  unfolding comparison_problems leaves
  comparison-Clean node op path count = elim (Bool-cases (ltb 100 (count + 1))) [
    | inl over ↦ rw over tt
    | inr within ↦
        rw within
          (sides (side_problems node path "left" ++ side_problems node path "right") (ground arith))
  ]
    where
      sides :
          (es : List Problem)
          → count + 1 ≤ 100
          → Clean (returned (es, count + 1)) (some (compared op node)) count
      sides [] le = (compared op node, refl, omega arith, le)
      sides (e ∷ es) le = tt

  operator-Clean :
      (node : Json) (op path : String) (count : ℕ)
      → count ≤ 100
      → Clean
          (operator_problems call node path count (some op))
          (read_operator spelled node op)
          count
  unfolding operator_problems read_operator
  operator-Clean node op path count le = elim (Bool-cases (str_eq op "all")) [
    | inl e ↦ rw e (group-Clean every op (get_field node "conditions") path count sum_every le)
    | inr e ↦ elim (Bool-cases (str_eq op "any")) [
      | inl e' ↦
          rw (e, e')
            (group-Clean some_of op (get_field node "conditions") path count sum_some_of le)
      | inr e' ↦ elim (Bool-cases (str_eq op "not")) [
        | inl n ↦
            rw (e, e', n)
              (opposite-Clean (call (get_field node "condition") _ count)
                (spelled (get_field node "condition")) count
                (clean (get_field node "condition") _ count le))
        | inr n ↦ rw (e, e', n) (comparison-Clean node op path count)
      ]
    ]
  ]

picked :
    (b : Bool) (s op : String)
    → returned (if b then some s else none) ≡ returned (some op)
    → (if b then returned s else raised "Unsupported condition operator") ≡ returned op
picked true s op h = cc
picked false s op h = absurd (cc h)

known-returned :
    (v : Json) (op : String) → known v ≡ returned (some op) → check_operator v ≡ returned op
unfolding known check_operator
known-returned (str s) op h = picked (elem s operators) s op h
known-returned nothing op h = cc
known-returned (boolean b) op h = cc
known-returned (number n) op h = cc
known-returned (arr xs) op h = cc
known-returned (dict fs) op h = cc

known_operator-returned :
    (node : Json) (op : String)
    → known_operator node ≡ returned (some op)
    → operator_of node ≡ returned op
unfolding known_operator operator_of
known_operator-returned (dict fs) op h = known-returned (or_nothing (find_entry "operator" fs)) op h
known_operator-returned nothing op h = cc
known_operator-returned (boolean b) op h = cc
known_operator-returned (number n) op h = cc
known_operator-returned (str s) op h = cc
known_operator-returned (arr xs) op h = cc

checked-Clean :
    (call : Json → String → ℕ → Report) (spelled : Json → Option Condition) (node : Json)
    (path : String) (count : ℕ) (o : Outcome (Option String))
    → ((c : Json) (path : String) (count : ℕ)
        → count ≤ 100
        → Clean (call c path count) (spelled c) count)
    → count ≤ 100
    → known_operator node ≡ o
    → Clean
        (o >>= operator_problems call node path count)
        (if_returned (operator_of node) (read_operator spelled node))
        count
unfolding operator_problems
checked-Clean call spelled node path count (raised e) clean le h = tt
checked-Clean call spelled node path count (returned none) clean le h = tt
checked-Clean call spelled node path count (returned (some op)) clean le h =
    rw (known_operator-returned node op h) (operator-Clean call spelled clean node op path count le)

condition_errors_at-Clean :
    (room : ℕ) (node : Json) (path : String) (count : ℕ)
    → count ≤ 100
    → Clean (condition_errors_at room node path count) (read room node) count
unfolding condition_errors_at read
condition_errors_at-Clean zero node path count le = tt
condition_errors_at-Clean (suc room) node path count le =
    checked-Clean (condition_errors_at room) (read room) node path count (known_operator node)
      (condition_errors_at-Clean room) le refl

spelled-Clean :
    (o : Report) (p : Option Condition)
    → Clean o p 0
    → (o >>= λ r. returned r.0) ≡ returned []
    → (t : Condition) × (p ≡ some t) × (leaves t ≤ max_comparisons)
spelled-Clean (raised e) p h k = absurd (cc k)
spelled-Clean (returned (e ∷ es, after)) p h k = absurd (cc k)
spelled-Clean (returned ([], after)) p (t, e, n, le) k = (t, e, omega arith)

-- A condition that the validation of playbooks finds no error in never raises when it is
-- evaluated, whatever the context: it gives a truth value after at most 100 comparisons.
pub condition_errors-evaluate :
    (py : Python) (context node : Json) (path : String)
    → condition_errors node path ≡ returned []
    → (r : ConditionResult) × (evaluate py context node ≡ returned r) × (r.comparisons ≤ 100)
unfolding condition_errors
condition_errors-evaluate py context node path h =
    let (t, e, le) =
      spelled-Clean (condition_errors_at (suc max_depth) node path 0) (read (suc max_depth) node)
        (condition_errors_at-Clean (suc max_depth) node path 0 (omega arith)) h in
    let (r, returns, _, n) =
      (evaluate_iff py context node (denote py context t) (leaves t)).1 (t, e, le, refl, refl) in
    (r, returns, omega arith)
