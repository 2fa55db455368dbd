-- ===== src/Detection/Parser.antt =====
-- detection_engineering/evaluator.py: _parse_condition.
pub mod Grammar
pub mod Sound
pub mod Rounds
pub mod RoundTrip
use threat_scope_xdr.Prelude.{
  ℕ, zero, suc, ◌+◌, ◌-◌, ◌*◌, ◌/◌, ◌%◌, ◌≤◌, ◌<◌, min, max, String, ◌≡◌, refl, sym, ap, ◌∙◌, ◌≢◌,
  ◌↔◌, ◌⊎◌, inl, inr, Bool, true, false, not, ◌&&◌, ◌||◌, Option, none, some, List, [], ◌∷◌, ◌++◌,
  map, arith, str_eq, starts_with, eq_iff, eq_refl, ltb, leb, ◌==◌, if◌then◌else◌, is_some,
  Bool-cases, Option-cases, length, select, first, count_where, delete_where, update_where, any,
  all, All, next_id, count_where-append, first-test, count_where-delete_where, count_where_mono,
  first-update_where_ne, count_where-update_where_ne, contains, ends_with, nonempty, elem, take,
  rstrip_slash, strip, join_words, is_space, concat, opt_eq, show, ==_iff, opt_eq-eq, count, unique,
  sorted, any-append, any-delete_where, any-delete_where_self, any-select, any_mono, length-append,
  count_where_pos, first-update_where, count_where-update_where_self,
}
use threat_scope_xdr.Detection.Tokens.{Python, tokens, join, without_spaces, is_digits}
use Prim.Native.String.{len, slice}

-- the tuples that the parser builds
pub data Node : Type 0 where
  selection : String → Node
  opposite : Node → Node
  both : Node → Node → Node
  either : Node → Node → Node
  of_group : String → List String → Node

-- A node with the tokens after it, an error, or a model that ran out of rounds. The parser never
-- comes to `exhausted`.
pub data Parsed : Type 0 where
  parsed : Node → List String → Parsed
  invalid : String → Parsed
  exhausted : Parsed

abbrev pub and_then : Parsed → (Node → List String → Parsed) → Parsed
and_then (parsed n rest) f = f n rest
and_then (invalid e) f = invalid e
and_then exhausted f = exhausted

abbrev pub max_depth : ℕ
max_depth = 8

-- `pattern[:-1] if pattern.endswith("*") else pattern`
unfoldable pub prefix_of : String → String
unfolding ends_with
prefix_of pattern = if ends_with pattern "*" then slice pattern 0 (len pattern - 1) else pattern

-- after the `(` of a nested expression
unfoldable pub closed : Parsed → Parsed
closed (parsed n (t ∷ rest)) =
    if str_eq t ")" then parsed n rest else invalid "Unbalanced condition parentheses"
closed (parsed n []) = invalid "Unbalanced condition parentheses"
closed (invalid e) = invalid e
closed exhausted = exhausted

abbrev pub tail : List String → List String
tail [] = []
tail (t ∷ ts) = ts

module _ (py : Python) (names : List String) where
  -- `tokens[pos].lower() == word`, where there is a token
  abbrev pub next_is : String → List String → Bool
  next_is word [] = false
  next_is word (t ∷ ts) = str_eq (py.lower t) word

  abbrev pub is_amount : String → Bool
  is_amount t = is_digits t || str_eq (py.lower t) "all"

  unfoldable pub matching : String → List String
  unfolding prefix_of
  matching pattern = sorted (select (λ n. starts_with n (prefix_of pattern)) names)

  unfoldable pub named : String → List String → Parsed
  named t rest =
      if elem t names
      then parsed (selection t) rest
      else invalid (concat "Unknown selection in condition: " t)

  unfoldable pub group : String → String → List String → Parsed
  unfolding matching
  group amount pattern rest =
      let matched = matching pattern in
      if is_some (first (λ n. true) matched)
      then parsed (of_group (py.lower amount) matched) rest
      else invalid "Condition wildcard references no selections"

  -- a token that is neither `not` nor `(`
  unfoldable pub atom : String → List String → Parsed
  unfolding named group
  atom t (o ∷ p ∷ rest) =
      if is_amount t && str_eq (py.lower o) "of" then group t p rest else named t (o ∷ p ∷ rest)
  atom t rest = named t rest

  -- `expr` is `expression`, which the depth bounds
  module _ (expr : ℕ → List String → Parsed) where
    unfoldable pub unary : ℕ → List String → Parsed
    unfolding closed atom
    unary depth [] = invalid "Incomplete condition"
    unary depth (t ∷ ts) = elim (str_eq (py.lower t) "not") [
      | true ↦ and_then (unary (suc depth) ts) (λ n rest. parsed (opposite n) rest)
      | false ↦ elim (str_eq t "(") [ true ↦ closed (expr (suc depth) ts) | false ↦ atom t ts ]
    ]

    -- the loop of `conjunction`, with as many rounds as there are tokens, and one more
    unfoldable pub and_rest : ℕ → ℕ → Node → List String → Parsed
    unfolding unary
    and_rest zero depth node ts = exhausted
    and_rest (suc rounds) depth node ts = elim (next_is "and" ts) [
      | true ↦
          and_then (unary (suc depth) (tail ts))
            (λ n rest. and_rest rounds depth (both node n) rest)
      | false ↦ parsed node ts
    ]

    unfoldable pub conjunction : ℕ → List String → Parsed
    unfolding and_rest unary
    conjunction depth ts =
        and_then (unary (suc depth) ts) (λ n rest. and_rest (suc (length rest)) depth n rest)

    -- the loop of `expression`
    unfoldable pub or_rest : ℕ → ℕ → Node → List String → Parsed
    unfolding conjunction
    or_rest zero depth node ts = exhausted
    or_rest (suc rounds) depth node ts = elim (next_is "or" ts) [
      | true ↦
          and_then (conjunction (suc depth) (tail ts))
            (λ n rest. or_rest rounds depth (either node n) rest)
      | false ↦ parsed node ts
    ]

  -- An expression in an expression is at least three deeper, so ten rooms are enough.
  unfoldable pub expression : ℕ → ℕ → List String → Parsed
  unfolding conjunction or_rest
  expression zero depth ts =
      if ltb max_depth depth then invalid "Condition depth limit exceeded" else exhausted
  expression (suc room) depth ts = elim (ltb max_depth depth) [
    | true ↦ invalid "Condition depth limit exceeded"
    | false ↦
        and_then (conjunction (expression room) (suc depth) ts)
          (λ n rest. or_rest (expression room) (suc (length rest)) depth n rest)
  ]

  unfoldable pub finish : Parsed → Parsed
  finish (parsed n (t ∷ rest)) = invalid "Malformed condition"
  finish p = p

  -- the tokens of a condition
  unfoldable pub parse_tokens : List String → Parsed
  unfolding expression finish
  parse_tokens ts = finish (expression 10 0 ts)

  unfoldable pub parse_condition : String → Parsed
  unfolding tokens join without_spaces parse_tokens
  parse_condition condition =
      let ts = tokens py condition in
      if str_eq (py.lower (join ts)) (py.lower (without_spaces condition))
      then parse_tokens ts
      else invalid "Condition contains unsupported syntax"
