-- ===== src/Soar/Examples/Conditions.antt =====
-- Tests of the conditions and of their validation.
use threat_scope_xdr.Prelude.{◌≤◌, String, ◌≡◌, refl, ◌↔◌, true, false, none, []}
use threat_scope_xdr.Soar.Json.{
  pos, int, Json, Python, number, str, arr, dict, nil, cons, end, entry, find_entry,
}
use threat_scope_xdr.Soar.Conditions.{
  ConditionResult, evaluate, returned, raised, resolve_reference, validate_reference, matches,
}
use threat_scope_xdr.Soar.Conditions.Refines.{Decides, Means, evaluate_iff}
use threat_scope_xdr.Soar.Validation.{condition_errors}
use threat_scope_xdr.Soar.Validation.Admitted.{condition_errors-evaluate}

-- texts of ASCII capitals are not needed, and no number is a float
abbrev pub test_python : Python
test_python = record {
  casefold = λ s. s;
  repr = λ s. s;
  float_less = λ a b. false;
  float_less_equal = λ a b. false;
  float_equal = λ a b. false;
}

abbrev alert_context : Json
alert_context = dict (
    entry "trigger"
      (dict (entry "severity" (str "high") (entry "score" (number (int (pos 91))) end))) end)

-- {"operator": op, "left": left, "right": right}
abbrev comparing : String → Json → Json → Json
comparing op left right =
    dict (entry "operator" (str op) (entry "left" left (entry "right" right end)))

-- a high severity and a score above 80
abbrev severe : Json
severe = dict (
    entry "operator" (str "all") (
      entry "conditions"
        (arr (
          cons (comparing "equals" (str "${trigger.severity}") (str "high"))
            (cons (comparing "greater_than" (str "${trigger.score}") (number (int (pos 80)))) nil)))
        end))

severe_matches :
    evaluate test_python alert_context severe
    ≡ returned (record { matched = true; explanation = "all(true, true) => true"; comparisons = 2 })
unfolding evaluate find_entry matches
severe_matches = refl

private_part_is_missing : resolve_reference (str "${trigger._id}") alert_context ≡ none
unfolding resolve_reference
private_part_is_missing = refl

unknown_operator_raises :
    evaluate test_python alert_context (comparing "matches" (str "a") (str "b"))
    ≡ raised "Unsupported condition operator"
unfolding evaluate find_entry
unknown_operator_raises = refl

evaluate_iff_example :
    Decides test_python alert_context severe true 2 ↔ Means test_python alert_context severe true 2
evaluate_iff_example = evaluate_iff test_python alert_context severe true 2

severe_is_valid : condition_errors severe "steps[0].condition" ≡ returned []
unfolding condition_errors find_entry validate_reference
severe_is_valid = refl

condition_errors-evaluate_example :
    (r : ConditionResult) × (evaluate test_python alert_context severe ≡ returned r)
    × (r.comparisons ≤ 100)
condition_errors-evaluate_example =
    condition_errors-evaluate test_python alert_context severe "steps[0].condition" severe_is_valid
