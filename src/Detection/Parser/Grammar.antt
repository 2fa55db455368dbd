-- ===== src/Detection/Parser/Grammar.antt =====
-- The grammar of conditions: a sum of products of terms, with the tokens that write one, the tree
-- that it stands for, and when a rule's selections allow it.
use threat_scope_xdr.Prelude.{
  ℕ, suc, String, Bool, true, not, ◌&&◌, List, [], ◌∷◌, str_eq, ltb, is_some, first, elem,
}
use threat_scope_xdr.Detection.Tokens.{Python}
use threat_scope_xdr.Detection.Parser.{
  Node, selection, opposite, both, either, of_group, max_depth, is_amount, matching,
}

-- `nested` is a sum in parentheses: its first product is a term with factors
mutual
  pub data Term : Type 0 where
    name : String → Term
    counted : String → String → Term
    negated : Term → Term
    nested : Term → Factors → Summands → Term

  pub data Factors : Type 0 where
    no_factor : Factors
    times : Term → Factors → Factors

  pub data Summands : Type 0 where
    no_summand : Summands
    plus : Term → Factors → Summands → Summands

-- the tokens, in front of others
unfoldable mutual
  pub put : Term → List String → List String
  put (name s) k = s ∷ k
  put (counted amount pattern) k = amount ∷ "of" ∷ pattern ∷ k
  put (negated t) k = "not" ∷ put t k
  put (nested t fs ss) k = "(" ∷ put t (put_factors fs (put_summands ss (")" ∷ k)))

  pub put_factors : Factors → List String → List String
  put_factors no_factor k = k
  put_factors (times t fs) k = "and" ∷ put t (put_factors fs k)

  pub put_summands : Summands → List String → List String
  put_summands no_summand k = k
  put_summands (plus t fs ss) k = "or" ∷ put t (put_factors fs (put_summands ss k))

module _ (py : Python) (names : List String) where
  -- products and sums lean to the left
  unfoldable mutual
    pub tree : Term → Node
    tree (name s) = selection s
    tree (counted amount pattern) = of_group (py.lower amount) (matching py names pattern)
    tree (negated t) = opposite (tree t)
    tree (nested t fs ss) = tree_summands (tree_factors (tree t) fs) ss

    pub tree_factors : Node → Factors → Node
    tree_factors n no_factor = n
    tree_factors n (times t fs) = tree_factors (both n (tree t)) fs

    pub tree_summands : Node → Summands → Node
    tree_summands n no_summand = n
    tree_summands n (plus t fs ss) = tree_summands (either n (tree_factors (tree t) fs)) ss

  -- a selection of the rule that is no word of the grammar
  abbrev pub is_plain : String → Bool
  is_plain s =
      elem s names
      && not (str_eq (py.lower s) "not")
      && not (str_eq s "(")
      && not (is_amount py names s)

  -- an amount, of a pattern that selections match
  abbrev pub is_counted : String → String → Bool
  is_counted amount pattern =
      is_amount py names amount
      && not (str_eq (py.lower amount) "not")
      && not (str_eq amount "(")
      && is_some (first (λ n. true) (matching py names pattern))

  -- the rule's selections allow the term at a depth
  unfoldable mutual
    pub fits : ℕ → Term → Bool
    fits d (name s) = is_plain s
    fits d (counted amount pattern) = is_counted amount pattern
    fits d (negated t) = fits (suc d) t
    fits d (nested t fs ss) =
        not (ltb max_depth (suc d))
        && fits (suc (suc (suc d))) t
        && fits_factors (suc (suc (suc d))) fs
        && fits_summands (suc (suc (suc d))) ss

    pub fits_factors : ℕ → Factors → Bool
    fits_factors d no_factor = true
    fits_factors d (times t fs) = fits d t && fits_factors d fs

    pub fits_summands : ℕ → Summands → Bool
    fits_summands d no_summand = true
    fits_summands d (plus t fs ss) = fits d t && fits_factors d fs && fits_summands d ss

  -- a whole condition: the sum at depth 0
  unfoldable pub allows : Term → Factors → Summands → Bool
  unfolding fits fits_factors fits_summands
  allows t fs ss = fits 2 t && fits_factors 2 fs && fits_summands 2 ss

unfoldable pub print : Term → Factors → Summands → List String
unfolding put put_factors put_summands
print t fs ss = put t (put_factors fs (put_summands ss []))

unfoldable pub tree_of : Python → List String → Term → Factors → Summands → Node
unfolding tree tree_factors tree_summands
tree_of py names t fs ss = tree_summands py names (tree_factors py names (tree py names t) fs) ss
