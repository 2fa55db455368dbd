-- ===== src/Soar/Validation.antt =====
-- soar/validation.py: the errors of a condition in a playbook.
pub mod Admitted
use threat_scope_xdr.Prelude.{
  ℕ, zero, suc, ◌+◌, ◌-◌, ◌*◌, ◌/◌, ◌%◌, ◌≤◌, ◌<◌, min, max, String, ◌≡◌, refl, sym, ap, ◌∙◌, ◌≢◌,
  ◌↔◌, ◌⊎◌, inl, inr, Bool, true, false, not, ◌&&◌, ◌||◌, Option, none, some, List, [], ◌∷◌, ◌++◌,
  map, arith, str_eq, starts_with, eq_iff, eq_refl, ltb, leb, ◌==◌, if◌then◌else◌, is_some,
  Bool-cases, Option-cases, length, select, first, count_where, delete_where, update_where, any,
  all, All, next_id, count_where-append, first-test, count_where-delete_where, count_where_mono,
  first-update_where_ne, count_where-update_where_ne, contains, ends_with, nonempty, elem, take,
  rstrip_slash, strip, join_words, is_space, concat, opt_eq, show, ==_iff, opt_eq-eq, count, unique,
  sorted, any-append, any-delete_where, any-delete_where_self, any-select, any_mono, length-append,
  count_where_pos, first-update_where, count_where-update_where_self,
}
use threat_scope_xdr.Soar.Json.{
  Json, Elements, nothing, boolean, number, str, arr, dict, nil, cons, find_entry, or_nothing,
  size_elements,
}
use threat_scope_xdr.Soar.Conditions.{
  Outcome, returned, raised, ◌>>=◌, operators, is_group, get_field, validate_reference, max_depth,
}

-- one row of `errors`
pub record Problem : Type 0 where
  pub code : String
  pub path : Option String
  pub step_key : Option String
  pub message : String

abbrev pub invalid : String → String → Problem
invalid path message = record {
  code = "SOAR_PLAYBOOK_INVALID";
  path = some path;
  step_key = none;
  message = message;
}

-- `node["operator"]` if it is in OPERATORS; a list or a dictionary has no hash
unfoldable pub known : Json → Outcome (Option String)
known (str op) = returned (if elem op operators then some op else none)
known (arr xs) = raised "unhashable type: 'list'"
known (dict fs) = raised "unhashable type: 'dict'"
known _ = returned none

unfoldable pub known_operator : Json → Outcome (Option String)
unfolding known
known_operator (dict fs) = known (or_nothing (find_entry "operator" fs))
known_operator _ = returned none

-- what a call appends to `errors`, and the counter that it leaves
abbrev pub Report : Type 0
Report = Outcome (List Problem × ℕ)

unfoldable pub side_problems : Json → String → String → List Problem
unfolding concat
side_problems (dict fs) path side = elim (find_entry side fs) [
  | none ↦ []
  | some v ↦
      if validate_reference v
      then []
      else invalid (concat path (concat "." side)) "Variable reference is not allowed" ∷ []
]
side_problems _ path side = []

unfoldable pub comparison_problems : Json → String → ℕ → List Problem × ℕ
unfolding side_problems
comparison_problems node path count = (
  (if ltb 100 (count + 1) then invalid path "Condition comparison count exceeds 100" ∷ [] else [])
      ++ (side_problems node path "left" ++ side_problems node path "right"),
  count + 1,
)

-- the loop over the parts of a group
unfoldable pub part_problems : (Json → String → ℕ → Report) → Elements → String → ℕ → ℕ → Report
unfolding concat show
part_problems call nil path index count = returned ([], count)
part_problems call (cons x xs) path index count =
    call x (concat path (concat ".conditions[" (concat (show index) "]"))) count >>= λ r.
    part_problems call xs path (index + 1) r.1 >>= λ rs. returned (r.0 ++ rs.0, rs.1)

unfoldable pub group_problems : (Json → String → ℕ → Report) → String → Json → String → ℕ → Report
unfolding part_problems concat
group_problems call op (arr xs) path count =
    if leb 1 (size_elements xs) && leb (size_elements xs) 20
    then part_problems call xs path 0 count
    else returned (invalid path (concat op " requires 1 to 20 conditions") ∷ [], count)
group_problems call op _ path count =
    returned (invalid path (concat op " requires 1 to 20 conditions") ∷ [], count)

unfoldable pub operator_problems :
    (Json → String → ℕ → Report) → Json → String → ℕ → Option String → Report
unfolding group_problems comparison_problems concat
operator_problems call node path count none =
    returned (invalid path "Condition operator is invalid" ∷ [], count)
operator_problems call node path count (some op) =
    if is_group op
    then group_problems call op (get_field node "conditions") path count
    else if str_eq op "not"
    then call (get_field node "condition") (concat path ".condition") count
    else returned (comparison_problems node path count)

-- `room` is MAX_DEPTH + 1 - depth
unfoldable pub condition_errors_at : ℕ → Json → String → ℕ → Report
unfolding operator_problems known_operator
condition_errors_at zero node path count =
    returned (invalid path "Condition depth exceeds 8" ∷ [], count)
condition_errors_at (suc room) node path count =
    known_operator node >>= operator_problems (condition_errors_at room) node path count

-- `_condition_errors`
unfoldable pub condition_errors : Json → String → Outcome (List Problem)
unfolding condition_errors_at
condition_errors node path = condition_errors_at (suc max_depth) node path 0 >>= λ r. returned r.0
