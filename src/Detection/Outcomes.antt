-- ===== src/Detection/Outcomes.antt =====
-- detection_engineering/evaluator.py: _match_value and evaluate.
pub mod Decided
pub mod Meaning
use threat_scope_xdr.Prelude.{
  ℕ, zero, suc, ◌+◌, ◌-◌, ◌*◌, ◌/◌, ◌%◌, ◌≤◌, ◌<◌, min, max, String, ◌≡◌, refl, sym, ap, ◌∙◌, ◌≢◌,
  ◌↔◌, ◌⊎◌, inl, inr, Bool, true, false, not, ◌&&◌, ◌||◌, Option, none, some, List, [], ◌∷◌, ◌++◌,
  map, arith, str_eq, starts_with, eq_iff, eq_refl, ltb, leb, ◌==◌, if◌then◌else◌, is_some,
  Bool-cases, Option-cases, length, select, first, count_where, delete_where, update_where, any,
  all, All, next_id, count_where-append, first-test, count_where-delete_where, count_where_mono,
  first-update_where_ne, count_where-update_where_ne, contains, ends_with, nonempty, elem, take,
  rstrip_slash, strip, join_words, is_space, concat, opt_eq, show, ==_iff, opt_eq-eq, count, unique,
  sorted, all-sorted, any-append, any-delete_where, any-delete_where_self, any-select, any_mono,
  length-append, count_where_pos, first-update_where, count_where-update_where_self,
}
use threat_scope_xdr.Soar.Json.{
  Json, Entries, Elements, nil, cons, arr, nothing, str, boolean, find_entry, or_nothing, truthy,
}
use threat_scope_xdr.Detection.Tokens.{Python, int}
use threat_scope_xdr.Detection.Parser.{
  Node, selection, opposite, both, either, of_group, Parsed, parsed, invalid, exhausted,
  parse_condition,
}

-- What the code calls and this repository does not implement: `str`, `casefold`, `float` with the
-- comparisons of floats, `==`, and the modules ipaddress and fnmatch. `none` is an exception that
-- the code handles.
pub record Library : Type 0 where
  pub text_of : Json → String
  pub casefold : String → String
  pub to_float : Json → Option ℕ
  pub less : ℕ → ℕ → Bool
  pub less_equal : ℕ → ℕ → Bool
  pub equal : Json → Json → Bool
  pub in_network : String → String → Option Bool
  pub fnmatch : String → String → Bool

-- a term of a selection
pub record FieldTest : Type 0 where
  pub field : String
  pub operator : String
  pub value : Json
  pub every : Bool
  pub unsupported : Bool

pub record Rule : Type 0 where
  pub selections : List (String × List FieldTest)
  pub condition : String

abbrev elements : Elements → List Json
elements nil = []
elements (cons x xs) = x ∷ elements xs

-- a value, or the values of a list
values_of : Json → List Json
values_of (arr xs) = elements xs
values_of v = v ∷ []

is_nothing : Json → Bool
is_nothing nothing = true
is_nothing v = false

module _ (library : Library) where
  abbrev is_ordered : String → Bool
  is_ordered op = str_eq op "gt" || str_eq op "gte" || str_eq op "lt" || str_eq op "lte"

  ordered : String → Option ℕ → Option ℕ → Bool
  ordered op (some a) (some b) =
      if str_eq op "gt"
      then library.less b a
      else if str_eq op "gte"
      then library.less_equal b a
      else if str_eq op "lt"
      then library.less a b
      else library.less_equal a b
  ordered op a b = false

  compare_folded : String → String → String → Bool
  compare_folded op a b =
      if str_eq op "iexact"
      then str_eq a b
      else if str_eq op "contains"
      then contains a b
      else if str_eq op "startswith"
      then starts_with a b
      else if str_eq op "endswith"
      then ends_with a b
      else if str_eq op "wildcard"
      then library.fnmatch a b
      else false

  compare_text : String → String → String → Bool
  unfolding compare_folded
  compare_text op a b =
      if str_eq op "exact"
      then str_eq a b
      else compare_folded op (library.casefold a) (library.casefold b)

  unfoldable pub match_value : Json → String → Json → Bool
  unfolding ordered compare_text values_of is_nothing
  match_value actual op expected =
      if str_eq op "exists"
      then (if is_nothing actual then not (truthy expected) else truthy expected)
      else if is_nothing actual
      then false
      else if str_eq op "cidr"
      then elim (library.in_network (library.text_of actual) (library.text_of expected)) [
        | none ↦ false
        | some b ↦ b
      ]
      else if is_ordered op
      then ordered op (library.to_float actual) (library.to_float expected)
      else if str_eq op "in"
      then any (library.equal actual) (values_of expected)
      else compare_text op (library.text_of actual) (library.text_of expected)

  abbrev value_at : Entries → String → Json
  value_at event field = or_nothing (find_entry field event)

  -- one round of the loop over the terms
  unfoldable pub holds : Entries → FieldTest → Bool
  unfolding match_value values_of
  holds event t =
      let values = if str_eq t.operator "in" then t.value ∷ [] else values_of t.value in
      let check = match_value (value_at event t.field) t.operator in
      if t.unsupported then false else if t.every then all check values else any check values

  unfoldable pub outcomes_of : Entries → List (String × List FieldTest) → List (String × Bool)
  unfolding holds
  outcomes_of event [] = []
  outcomes_of event (s ∷ ss) = (s.0, all (holds event) s.1) ∷ outcomes_of event ss

  -- the fields of the terms that hold, each with the event's value, in the order of first use
  matched_terms : Entries → List FieldTest → List String
  unfolding holds
  matched_terms event [] = []
  matched_terms event (t ∷ ts) =
      let rest = matched_terms event ts in if holds event t then t.field ∷ rest else rest

  matched_fields : Entries → List (String × List FieldTest) → List String
  unfolding matched_terms
  matched_fields event [] = []
  matched_fields event (s ∷ ss) = matched_terms event s.1 ++ matched_fields event ss

  unfoldable pub matched_of : Entries → List (String × List FieldTest) → List (String × Json)
  unfolding matched_fields
  matched_of event ss = map (λ f. (f, value_at event f)) (unique (matched_fields event ss))

-- `outcomes[name]`
abbrev pub lookup : String → List (String × Bool) → Option Bool
lookup name [] = none
lookup name (o ∷ os) = if str_eq o.0 name then some o.1 else lookup name os

abbrev pub is_true : List (String × Bool) → String → Bool
is_true os name = elim (lookup name os) [ none ↦ false | some b ↦ b ]

-- a group whose selections all have an outcome
unfoldable pub resolve_group : List (String × Bool) → String → List String → Option Bool
resolve_group os amount matched =
    let count = count_where (is_true os) matched in
    if str_eq amount "all"
    then some (count == length matched)
    else elim (int amount) [ none ↦ none | some n ↦ some (leb n count) ]

-- `resolve`; `none` stands for an exception
unfoldable pub resolve : List (String × Bool) → Node → Option Bool
unfolding resolve_group
resolve os (selection s) = lookup s os
resolve os (opposite n) = elim (resolve os n) [ none ↦ none | some b ↦ some (not b) ]
resolve os (both a b) = elim (resolve os a) [
  | none ↦ none
  | some x ↦ if x then resolve os b else some false
]
resolve os (either a b) = elim (resolve os a) [
  | none ↦ none
  | some x ↦ if x then some true else resolve os b
]
resolve os (of_group amount matched) =
    if all (λ n. is_some (lookup n os)) matched then resolve_group os amount matched else none

-- the result with the matched fields and selections, or an exception
pub data Evaluated : Type 0 where
  decided : Bool → List (String × Json) → List String → Evaluated
  failed : String → Evaluated

abbrev pub names_of : Rule → List String
names_of rule = map (λ s. s.0) rule.selections

unfoldable pub decide_with : Option Bool → List (String × Json) → List String → Evaluated
decide_with none fields true_names = failed "KeyError"
decide_with (some b) fields true_names = decided b (if b then fields else []) true_names

unfoldable pub evaluate_parsed : Parsed → List (String × Bool) → List (String × Json) → Evaluated
unfolding resolve decide_with
evaluate_parsed (parsed n rest) os fields =
    decide_with (resolve os n) fields (sorted (map (λ o. o.0) (select (λ o. o.1) os)))
evaluate_parsed (invalid e) os fields = failed e
evaluate_parsed exhausted os fields = failed ""

unfoldable pub evaluate : Python → Library → Rule → Entries → Evaluated
unfolding outcomes_of matched_of evaluate_parsed parse_condition
evaluate py library rule event =
    evaluate_parsed (parse_condition py (names_of rule) rule.condition)
      (outcomes_of library event rule.selections) (matched_of library event rule.selections)
