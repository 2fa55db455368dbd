-- ===== src/Soar/Conditions/Meaning.antt =====
-- What a condition of soar/conditions.py means, with no limit and no order of evaluation: the tree
-- that it spells, the truth of the tree and the number of its comparisons.
use threat_scope_xdr.Prelude.{
  ℕ, zero, suc, ◌+◌, ◌≤◌, String, Bool, true, false, not, ◌&&◌, ◌||◌, Option, none, some, arith,
  str_eq, leb, if◌then◌else◌,
}
use threat_scope_xdr.Soar.Json.{Json, Elements, Python, arr, nil, cons, size_elements}
use threat_scope_xdr.Soar.Conditions.{Outcome, returned, raised, operator_of, get_field, matches}

-- `every` and `some_of` have a first part, so that no group is empty
mutual
  pub data Condition : Type 0 where
    compared : String → Json → Condition
    every some_of : Condition → Conditions → Condition
    opposite : Condition → Condition

  pub data Conditions : Type 0 where
    last : Conditions
    further : Condition → Conditions → Conditions

unfoldable mutual
  pub leaves : Condition → ℕ
  leaves (compared op c) = 1
  leaves (every t ts) = leaves t + leaves_of ts
  leaves (some_of t ts) = leaves t + leaves_of ts
  leaves (opposite t) = leaves t

  pub leaves_of : Conditions → ℕ
  leaves_of last = 0
  leaves_of (further t ts) = leaves t + leaves_of ts

module _ (py : Python) (context : Json) where
  unfoldable mutual
    pub denote : Condition → Bool
    denote (compared op c) = matches py context op c
    denote (every t ts) = denote t && denote_all ts
    denote (some_of t ts) = denote t || denote_any ts
    denote (opposite t) = not (denote t)

    pub denote_all : Conditions → Bool
    denote_all last = true
    denote_all (further t ts) = denote t && denote_all ts

    pub denote_any : Conditions → Bool
    denote_any last = false
    denote_any (further t ts) = denote t || denote_any ts

abbrev pub both {ℓ κ μ} :
    {A : Type ℓ} {B : Type κ} {C : Type μ} → (A → B → C) → Option A → Option B → Option C
both f (some a) (some b) = some (f a b)
both f (some a) none = none
both f none b = none

abbrev pub map_option {ℓ κ} : {A : Type ℓ} {B : Type κ} → (A → B) → Option A → Option B
map_option f none = none
map_option f (some a) = some (f a)

-- the trees of the elements
unfoldable pub read_each : (Json → Option Condition) → Elements → Option Conditions
read_each read nil = some last
read_each read (cons x xs) = both further (read x) (read_each read xs)

-- one to twenty of them
unfoldable pub read_group :
    (Json → Option Condition) → (Condition → Conditions → Condition) → Json → Option Condition
unfolding read_each
read_group read group (arr (cons x xs)) =
    if leb (size_elements xs) 19 then both group (read x) (read_each read xs) else none
read_group read group _ = none

unfoldable pub read_operator : (Json → Option Condition) → Json → String → Option Condition
unfolding read_group
read_operator read condition op =
    if str_eq op "all"
    then read_group read every (get_field condition "conditions")
    else if str_eq op "any"
    then read_group read some_of (get_field condition "conditions")
    else if str_eq op "not"
    then map_option opposite (read (get_field condition "condition"))
    else some (compared op condition)

abbrev pub if_returned {ℓ κ} : {A : Type ℓ} {B : Type κ} → Outcome A → (A → Option B) → Option B
if_returned (returned a) f = f a
if_returned (raised e) f = none

-- The tree that a condition spells, if its operators are known, its groups have one to twenty
-- parts and it is nested less than `room` deep.
unfoldable pub read : ℕ → Json → Option Condition
unfolding read_operator
read zero condition = none
read (suc room) condition =
    if_returned (operator_of condition) (read_operator (read room) condition)

mutual
  unfolding leaves

  pub leaves_pos : (t : Condition) → 1 ≤ leaves t
  leaves_pos (compared op c) = omega arith
  leaves_pos (every t ts) = omega (arith, leaves_pos t)
  leaves_pos (some_of t ts) = omega (arith, leaves_pos t)
  leaves_pos (opposite t) = leaves_pos t
