-- ===== src/Detection/Examples.antt =====
-- Tests of the conditions of detection rules.
use threat_scope_xdr.Prelude.{
  String, ◌≡◌, refl, ◌⊎◌, true, false, none, [], ◌∷◌, str_eq, ltb, leb, sorted,
}
use threat_scope_xdr.Soar.Json.{Json, Entries, end, entry, str, find_entry}
use threat_scope_xdr.Detection.Tokens.{ascii, is_digits, int}
use threat_scope_xdr.Detection.Parser.{
  Node, selection, opposite, either, of_group, parsed, invalid, parse_tokens, parse_condition,
  matching,
}
use threat_scope_xdr.Detection.Parser.Sound.{KeepsDigits, is_named, parse_tokens_total}
use threat_scope_xdr.Detection.Parser.Grammar.{
  Term, name, counted, negated, nested, no_factor, no_summand, plus, print, tree_of, allows,
}
use threat_scope_xdr.Detection.Parser.Rounds.{KeepsGrammar}
use threat_scope_xdr.Detection.Parser.RoundTrip.{parse_tokens-print}
use threat_scope_xdr.Detection.Outcomes.{Library, FieldTest, Rule, names_of, decided, evaluate}

abbrev ascii_digits : KeepsDigits ascii
ascii_digits = λ s h. refl

abbrev ascii_words : KeepsGrammar ascii
ascii_words = (refl, refl, refl, refl, refl, refl)

abbrev test_library : Library
test_library = record {
  text_of = λ v. elim v [ str s ↦ s | _ ↦ "" ];
  casefold = λ s. s;
  to_float = λ v. none;
  less = ltb;
  less_equal = leb;
  equal = λ a b. false;
  in_network = λ a b. none;
  fnmatch = str_eq;
}

abbrev field_is : String → String → FieldTest
field_is field text = record {
  field = field;
  operator = "iexact";
  value = str text;
  every = false;
  unsupported = false;
}

abbrev test_rule : Rule
test_rule = record {
  selections =
      ("b1", field_is "user.name" "root" ∷ [])
      ∷ ("b2", field_is "host.name" "web" ∷ [])
      ∷ ("a", field_is "event.action" "login" ∷ [])
      ∷ [];
  condition = "not(a or 1of b*)";
}

abbrev test_event : Entries
test_event = entry "user.name" (str "guest") (entry "host.name" (str "web") end)

-- `(a or 1 of b*)`
abbrev inner : Term
inner = nested (name "a") no_factor (plus (counted "1" "b*") no_factor no_summand)

inner_allowed : allows ascii (names_of test_rule) (negated inner) no_factor no_summand ≡ true
unfolding allows is_digits matching sorted
inner_allowed = refl

abbrev inner_tree : Node
inner_tree = opposite (either (selection "a") (of_group "1" ("b1" ∷ "b2" ∷ [])))

-- a selection that starts with a keyword and a hyphen cannot stand in a condition
hyphen_test :
    parse_condition ascii ("not-admin" ∷ []) "not-admin"
    ≡ invalid "Condition contains unsupported syntax"
unfolding parse_condition
hyphen_test = refl

evaluate_test : evaluate ascii test_library test_rule test_event ≡ decided false [] ("b2" ∷ [])
unfolding evaluate is_digits sorted find_entry int
evaluate_test = refl

parse_tokens_total_example :
    ((n : Node) × (parse_tokens ascii ("a" ∷ "b" ∷ []) ("a" ∷ "or" ∷ "(" ∷ "b" ∷ []) ≡ parsed n [])
      × (is_named ascii ascii_digits ("a" ∷ "b" ∷ []) n ≡ true))
    ⊎ ((e : String) × (parse_tokens ascii ("a" ∷ "b" ∷ []) ("a" ∷ "or" ∷ "(" ∷ "b" ∷ [])
          ≡ invalid e))
parse_tokens_total_example =
    parse_tokens_total ascii ascii_digits ("a" ∷ "b" ∷ []) ("a" ∷ "or" ∷ "(" ∷ "b" ∷ [])

parse_tokens-print_example :
    parse_tokens ascii (names_of test_rule) (print (negated inner) no_factor no_summand)
    ≡ parsed (tree_of ascii (names_of test_rule) (negated inner) no_factor no_summand) []
parse_tokens-print_example =
    parse_tokens-print ascii ascii_words (names_of test_rule) (negated inner) no_factor no_summand
      inner_allowed
