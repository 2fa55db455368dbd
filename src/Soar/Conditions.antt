-- ===== src/Soar/Conditions.antt =====
-- soar/conditions.py: references into the context, and the evaluation of a condition.
pub mod Meaning
pub mod Refines
use threat_scope_xdr.Prelude.{
  ℕ, zero, suc, ◌+◌, ◌-◌, ◌*◌, ◌/◌, ◌%◌, ◌≤◌, ◌<◌, min, max, String, ◌≡◌, refl, sym, ap, ◌∙◌, ◌≢◌,
  ◌↔◌, ◌⊎◌, inl, inr, Bool, true, false, not, ◌&&◌, ◌||◌, Option, none, some, List, [], ◌∷◌, ◌++◌,
  map, arith, str_eq, starts_with, eq_iff, eq_refl, ltb, leb, ◌==◌, if◌then◌else◌, is_some,
  Bool-cases, Option-cases, length, select, first, count_where, delete_where, update_where, any,
  all, All, next_id, count_where-append, first-test, count_where-delete_where, count_where_mono,
  first-update_where_ne, count_where-update_where_ne, contains, ends_with, nonempty, elem, take,
  rstrip_slash, strip, join_words, is_space, concat, opt_eq, show, ==_iff, opt_eq-eq, count, unique,
  sorted, any-append, any-delete_where, any-delete_where_self, any-select, any_mono, length-append,
  count_where_pos, first-update_where, count_where-update_where_self,
}
use Prim.Native.String.{len, slice}
use threat_scope_xdr.Soar.Json.{
  Number, int, float, Json, Elements, Entries, Python, nothing, boolean, number, str, arr, dict,
  nil, cons, end, entry, find_entry, or_nothing, type_name, truthy, less, less_equal, same,
  is_among, split_dots, size_elements,
}

-- `raised` holds the message of the exception.
pub data Outcome {ℓ} (A : Type ℓ) : Type ℓ where
  returned : A → Outcome A
  raised : String → Outcome A

infixl 5 ◌>>=◌
abbrev pub ◌>>=◌ {ℓ κ} : {A : Type ℓ} {B : Type κ} → Outcome A → (A → Outcome B) → Outcome B
returned a >>= f = f a
raised e >>= f = raised e

abbrev pub operators : List String
operators =
    "equals" ∷ "not_equals" ∷ "contains" ∷ "starts_with" ∷ "ends_with" ∷ "in" ∷ "not_in"
    ∷ "greater_than" ∷ "greater_than_or_equal" ∷ "less_than" ∷ "less_than_or_equal" ∷ "exists"
    ∷ "not_exists" ∷ "is_true" ∷ "is_false" ∷ "all" ∷ "any" ∷ "not" ∷ []

abbrev pub allowed_roots : List String
allowed_roots = "trigger" ∷ "execution" ∷ "playbook" ∷ "steps" ∷ "analyst_input" ∷ "constants" ∷ []

abbrev pub max_depth : ℕ
max_depth = 8

abbrev pub max_comparisons : ℕ
max_comparisons = 100

pub record ConditionResult : Type 0 where
  pub matched : Bool
  pub explanation : String
  pub comparisons : ℕ

-- a part of a path that is not private
unfoldable pub is_public : String → Bool
is_public part = not (str_eq part "" || starts_with part "_" || contains part "__")

unfoldable pub starts_at_root : List String → Bool
starts_at_root [] = false
starts_at_root (p ∷ ps) = elem p allowed_roots

-- `value[2:-1]`
unfoldable pub reference_path : String → List String
unfolding split_dots
reference_path s = split_dots (slice s 2 (len s - 1))

-- the loop of `resolve_reference`
unfoldable pub walk : Json → List String → Option Json
unfolding find_entry
walk current [] = some current
walk (dict fs) (p ∷ ps) = elim (find_entry p fs) [ none ↦ none | some v ↦ walk v ps ]
walk _ (p ∷ ps) = none

-- `none` stands for MISSING
unfoldable pub resolve_text : String → Json → Option Json
unfolding walk reference_path starts_at_root is_public ends_with contains
resolve_text s context =
    if starts_with s "${" && ends_with s "}"
    then if starts_at_root (reference_path s) && all is_public (reference_path s)
      then walk context (reference_path s)
      else none
    else some (str s)

unfoldable pub resolve_reference : Json → Json → Option Json
unfolding resolve_text
resolve_reference (str s) context = resolve_text s context
resolve_reference value context = some value

unfoldable pub is_valid_part : String → Bool
unfolding is_public contains
is_valid_part part = is_public part && leb (len part) 100

unfoldable pub validate_text : String → Bool
unfolding reference_path starts_at_root is_valid_part ends_with
validate_text s =
    if starts_with s "${"
    then if ends_with s "}"
      then starts_at_root (reference_path s) && all is_valid_part (reference_path s)
      else false
    else true

unfoldable pub validate_reference : Json → Bool
unfolding validate_text
validate_reference (str s) = validate_text s
validate_reference _ = true

-- `condition.get(key)` of a dictionary
abbrev pub get_field : Json → String → Json
get_field (dict fs) key = or_nothing (find_entry key fs)
get_field _ key = nothing

-- `condition.get("case_sensitive", True)`
abbrev pub is_case_sensitive : Json → Bool
is_case_sensitive (dict fs) = elim (find_entry "case_sensitive" fs) [
  | none ↦ true
  | some v ↦ truthy v
]
is_case_sensitive _ = true

-- the membership in OPERATORS; a list or a dictionary has no hash
unfoldable pub check_operator : Json → Outcome String
check_operator (str op) =
    if elem op operators then returned op else raised "Unsupported condition operator"
check_operator (arr xs) = raised "unhashable type: 'list'"
check_operator (dict fs) = raised "unhashable type: 'dict'"
check_operator _ = raised "Unsupported condition operator"

unfoldable pub operator_of : Json → Outcome String
unfolding check_operator
operator_of (dict fs) = check_operator (or_nothing (find_entry "operator" fs))
operator_of _ = raised "Unsupported condition operator"

abbrev pub is_group : String → Bool
is_group op = str_eq op "all" || str_eq op "any"

abbrev lower : Bool → String
lower true = "true"
lower false = "false"

abbrev join : String → List String → String
join sep [] = ""
join sep (t ∷ []) = t
join sep (t ∷ u ∷ ts) = concat t (concat sep (join sep (u ∷ ts)))

-- `str(b)`
abbrev capital : Bool → String
capital true = "True"
capital false = "False"

abbrev sum_comparisons : List ConditionResult → ℕ
sum_comparisons [] = 0
sum_comparisons (r ∷ rs) = r.comparisons + sum_comparisons rs

-- `left is not MISSING and left is not None`
abbrev exists : Option Json → Bool
exists none = false
exists (some nothing) = false
exists (some _) = true

-- `left is True`, `left is False`
abbrev is_boolean : Bool → Option Json → Bool
is_boolean true (some (boolean b)) = b
is_boolean false (some (boolean b)) = not b
is_boolean _ _ = false

abbrev safe_name : Option Json → String
safe_name none = "missing"
safe_name (some v) = type_name v

module _ (py : Python) where
  -- `equals` and `not_equals`: texts without their case if the condition says so
  equal_values : Bool → Json → Json → Bool
  unfolding same
  equal_values sensitive (str s) (str t) =
      if sensitive then str_eq s t else str_eq (py.casefold s) (py.casefold t)
  equal_values sensitive left right = same py left right

  contains_value : Bool → Json → Json → Bool
  unfolding is_among contains
  contains_value sensitive (str s) (str t) =
      if sensitive then contains s t else contains (py.casefold s) (py.casefold t)
  contains_value sensitive (arr xs) right = is_among py right xs
  contains_value sensitive _ right = false

  -- `starts_with` and `ends_with`
  affix : String → Bool → Json → Json → Bool
  unfolding ends_with
  affix op sensitive (str s) (str t) =
      let a = if sensitive then s else py.casefold s in
      let b = if sensitive then t else py.casefold t in
      if str_eq op "starts_with" then starts_with a b else ends_with a b
  affix op sensitive _ _ = false

  listed : Json → Json → Bool
  unfolding is_among
  listed left (arr xs) = is_among py left xs
  listed left _ = false

  ordered : String → Json → Json → Bool
  unfolding less less_equal
  ordered op (number a) (number b) =
      if str_eq op "greater_than"
      then less py b a
      else if str_eq op "greater_than_or_equal"
      then less_equal py b a
      else if str_eq op "less_than"
      then less py a b
      else less_equal py a b
  ordered op _ _ = false

  -- the operators that look at two values that are there
  compare_values : String → Bool → Json → Json → Bool
  unfolding equal_values contains_value affix listed ordered
  compare_values op sensitive left right =
      if str_eq op "equals"
      then equal_values sensitive left right
      else if str_eq op "not_equals"
      then not (equal_values sensitive left right)
      else if str_eq op "contains"
      then contains_value sensitive left right
      else if str_eq op "starts_with" || str_eq op "ends_with"
      then affix op sensitive left right
      else if str_eq op "in"
      then listed left right
      else if str_eq op "not_in"
      then not (listed left right)
      else if elem op
          ("greater_than" ∷ "greater_than_or_equal" ∷ "less_than" ∷ "less_than_or_equal" ∷ [])
      then ordered op left right
      else false

  present : String → Bool → Option Json → Option Json → Bool
  unfolding compare_values
  present op sensitive (some left) (some right) = compare_values op sensitive left right
  present op sensitive _ _ = false

  -- the chain of tests on the operator
  unfoldable pub compare : String → Bool → Option Json → Option Json → Bool
  unfolding present
  compare op sensitive left right =
      if str_eq op "exists"
      then exists left
      else if str_eq op "not_exists"
      then not (exists left)
      else if str_eq op "is_true"
      then is_boolean true left
      else if str_eq op "is_false"
      then is_boolean false left
      else present op sensitive left right

  module _ (context : Json) where
    -- `matched` of a comparison
    unfoldable pub matches : String → Json → Bool
    unfolding compare resolve_reference
    matches op condition =
        compare op (is_case_sensitive condition)
          (resolve_reference (get_field condition "left") context)
          (resolve_reference (get_field condition "right") context)

    -- the last statements of `evaluate`
    unfoldable pub comparison : String → Json → ConditionResult
    unfolding concat
    comparison op condition = record {
      matched = matches op condition;
      explanation = concat op (
          concat "(" (
            concat (safe_name (resolve_reference (get_field condition "left") context)) (
              concat ", " (
                concat (safe_name (resolve_reference (get_field condition "right") context))
                  (concat ") => " (lower (matches op condition)))))));
      comparisons = 1;
    }

    -- the recursive calls of `all` and `any`, with the budget that they share
    unfoldable pub evaluate_each :
        (Json → ℕ → Outcome (ConditionResult × ℕ))
        → Elements
        → ℕ
        → Outcome (List ConditionResult × ℕ)
    evaluate_each call nil budget = returned ([], budget)
    evaluate_each call (cons x xs) budget =
        call x budget >>= λ r. evaluate_each call xs r.1 >>= λ rs. returned (r.0 ∷ rs.0, rs.1)

    abbrev pub group_result : String → List ConditionResult → ConditionResult
    group_result op rs =
        let matched : Bool =
          if str_eq op "all" then all (λ r. r.matched) rs else any (λ r. r.matched) rs in
        record {
          matched = matched;
          explanation = concat op (
              concat "(" (
                concat (join ", " (map (λ r. lower r.matched) rs))
                  (concat ") => " (lower matched))));
          comparisons = sum_comparisons rs;
        }

    unfoldable pub evaluate_group :
        (Json → ℕ → Outcome (ConditionResult × ℕ))
        → String
        → Json
        → ℕ
        → Outcome (ConditionResult × ℕ)
    unfolding evaluate_each concat
    evaluate_group call op (arr xs) budget =
        if leb 1 (size_elements xs) && leb (size_elements xs) 20
        then (evaluate_each call xs budget >>= λ rs. returned (group_result op rs.0, rs.1))
        else raised (concat op " requires 1 to 20 conditions")
    evaluate_group call op _ budget = raised (concat op " requires 1 to 20 conditions")

    abbrev pub negated : ConditionResult → ConditionResult
    negated r = record {
      matched = not r.matched;
      explanation =
          concat "not(" (concat (capital r.matched) (concat ") => " (capital (not r.matched))));
      comparisons = r.comparisons;
    }

    -- what follows the tests on the depth, the budget and the operator
    unfoldable pub evaluate_operator :
        (Json → ℕ → Outcome (ConditionResult × ℕ))
        → Json
        → ℕ
        → String
        → Outcome (ConditionResult × ℕ)
    unfolding evaluate_group comparison
    evaluate_operator call condition budget op =
        if is_group op
        then evaluate_group call op (get_field condition "conditions") budget
        else if str_eq op "not"
        then (call (get_field condition "condition") budget >>= λ r. returned (negated r.0, r.1))
        else returned (comparison op condition, budget - 1)

    -- `room` is MAX_DEPTH + 1 - depth, the number of calls that may be open below and with this one
    unfoldable pub evaluate_at : ℕ → Json → ℕ → Outcome (ConditionResult × ℕ)
    unfolding evaluate_operator operator_of
    evaluate_at zero condition budget = raised "Condition nesting exceeds maximum depth 8"
    evaluate_at (suc room) condition budget =
        if budget == 0
        then raised "Condition comparison limit exceeded"
        else operator_of condition >>= evaluate_operator (evaluate_at room) condition budget

    unfoldable pub evaluate : Json → Outcome ConditionResult
    unfolding evaluate_at
    evaluate condition = evaluate_at (suc max_depth) condition max_comparisons >>= λ r. returned r.0
