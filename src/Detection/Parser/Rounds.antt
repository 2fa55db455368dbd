-- ===== src/Detection/Parser/Rounds.antt =====
-- detection_engineering/evaluator.py: the single steps of _parse_condition on the tokens that the
-- grammar makes.
use threat_scope_xdr.Prelude.{
  ℕ, zero, suc, ◌+◌, ◌≤◌, ◌<◌, String, ◌≡◌, refl, Bool, true, false, not, ◌&&◌, List, [], ◌∷◌,
  arith, str_eq, ltb, is_some, length, first, elem,
}
use threat_scope_xdr.Detection.Tokens.{Python}
use threat_scope_xdr.Detection.Parser.{
  Node, selection, opposite, both, either, of_group, Parsed, parsed, max_depth, closed, next_is,
  is_amount, matching, named, group, atom, unary, and_rest, conjunction, or_rest, expression,
}
use threat_scope_xdr.Detection.Parser.Grammar.{
  Term, Factors, Summands, name, counted, negated, nested, no_factor, times, no_summand, plus, put,
  put_factors, put_summands, is_plain, is_counted,
}

-- `str.lower` leaves the words and the parentheses of the grammar as they are
abbrev pub KeepsGrammar : Python → Type 0
KeepsGrammar py =
    (py.lower "not" ≡ "not")
    × (py.lower "and" ≡ "and")
    × (py.lower "or" ≡ "or")
    × (py.lower "of" ≡ "of")
    × (py.lower "(" ≡ "(")
    × (py.lower ")" ≡ ")")

mutual
  unfolding put put_factors put_summands

  pub length-put : (t : Term) (k : List String) → length k < length (put t k)
  length-put (name s) k = omega arith
  length-put (counted amount pattern) k = omega arith
  length-put (negated t) k = omega (arith, length-put t k)
  length-put (nested t fs ss) k = omega (
    arith,
    length-put t (put_factors fs (put_summands ss (")" ∷ k))),
    length-put_factors fs (put_summands ss (")" ∷ k)),
    length-put_summands ss (")" ∷ k),
  )

  pub length-put_factors : (fs : Factors) (k : List String) → length k ≤ length (put_factors fs k)
  length-put_factors no_factor k = omega arith
  length-put_factors (times t fs) k =
      omega (arith, length-put t (put_factors fs k), length-put_factors fs k)

  pub length-put_summands :
      (ss : Summands) (k : List String) → length k ≤ length (put_summands ss k)
  length-put_summands no_summand k = omega arith
  length-put_summands (plus t fs ss) k = omega (
    arith,
    length-put t (put_factors fs (put_summands ss k)),
    length-put_factors fs (put_summands ss k),
    length-put_summands ss k,
  )

pub and_both : (a b : Bool) → (a && b) ≡ true → (a ≡ true) × (b ≡ true)
and_both true b h = (refl, h)
and_both false b h = absurd (cc h)

pub not-true : (a : Bool) → not a ≡ true → a ≡ false
not-true a h = ground arith

pub three_true : (a b c : Bool) → (a && b && c) ≡ true → (a ≡ true) × (b ≡ true) × (c ≡ true)
three_true a b c h = let p = and_both (a && b) c h in let q = and_both a b p.0 in (q.0, q.1, p.1)

pub four_true :
    (a b c d : Bool)
    → (a && not b && not c && d) ≡ true
    → (a ≡ true) × (b ≡ false) × (c ≡ false) × (d ≡ true)
four_true a b c d h =
    let p = and_both (a && not b && not c) d h in
    let q = three_true a (not b) (not c) p.0 in (q.0, not-true b q.1, not-true c q.2, p.1)

pub shallow : (d : ℕ) → 10 ≤ 0 + d → not (ltb max_depth (suc d)) ≡ true → ⊥
shallow d le h = ground arith

module _ (py : Python) (keeps : KeepsGrammar py) (names : List String) where
  -- no `and` and no `or` comes next
  abbrev pub Stops : List String → Type 0
  Stops k = (next_is py names "and" k ≡ false) × (next_is py names "or" k ≡ false)

  pub Stops-closed : (k : List String) → Stops (")" ∷ k)
  Stops-closed k = rw keeps.5 (refl, refl)

  pub next_is-put_summands :
      (ss : Summands) (k : List String)
      → next_is py names "and" k ≡ false
      → next_is py names "and" (put_summands ss k) ≡ false
  unfolding put_summands
  next_is-put_summands no_summand k h = h
  next_is-put_summands (plus t fs ss) k h = rw keeps.2 refl

  pub atom-named :
      (s : String) (k : List String)
      → elem s names ≡ true
      → is_amount py names s ≡ false
      → atom py names s k ≡ parsed (selection s) k
  unfolding atom named
  atom-named s [] e a = rw e refl
  atom-named s (o ∷ []) e a = rw e refl
  atom-named s (o ∷ p ∷ k) e a = rw (a, e) refl

  pub unary-name :
      (expr : ℕ → List String → Parsed) (d : ℕ) (s : String) (k : List String)
      → is_plain py names s ≡ true
      → unary py names expr d (s ∷ k) ≡ parsed (selection s) k
  unfolding unary
  unary-name expr d s k h =
      let p =
        four_true (elem s names) (str_eq (py.lower s) "not") (str_eq s "(")
          (not (is_amount py names s)) h in
      rw (p.1, p.2, unary) (atom-named s k p.0 (not-true (is_amount py names s) p.3))

  pub atom-group :
      (amount pattern : String) (k : List String)
      → is_amount py names amount ≡ true
      → is_some (first (λ n. true) (matching py names pattern)) ≡ true
      → atom py names amount ("of" ∷ pattern ∷ k)
        ≡ parsed (of_group (py.lower amount) (matching py names pattern)) k
  unfolding atom group
  atom-group amount pattern k a m = rw (a, keeps.3, m) refl

  pub unary-counted :
      (expr : ℕ → List String → Parsed) (d : ℕ) (amount pattern : String) (k : List String)
      → is_counted py names amount pattern ≡ true
      → unary py names expr d (amount ∷ "of" ∷ pattern ∷ k)
        ≡ parsed (of_group (py.lower amount) (matching py names pattern)) k
  unfolding unary
  unary-counted expr d amount pattern k h =
      let p =
        four_true (is_amount py names amount) (str_eq (py.lower amount) "not") (str_eq amount "(")
          (is_some (first (λ n. true) (matching py names pattern))) h in
      rw (p.1, p.2, unary) (atom-group amount pattern k p.0 p.3)

  pub unary-negated :
      (expr : ℕ → List String → Parsed) (d : ℕ) (ts k : List String) (n : Node)
      → unary py names expr (suc d) ts ≡ parsed n k
      → unary py names expr d ("not" ∷ ts) ≡ parsed (opposite n) k
  unfolding unary
  unary-negated expr d ts k n e = rw (keeps.0, e, unary) refl

  pub unary-nested :
      (expr : ℕ → List String → Parsed) (d : ℕ) (ts k : List String) (n : Node)
      → expr (suc d) ts ≡ parsed n (")" ∷ k)
      → unary py names expr d ("(" ∷ ts) ≡ parsed n k
  unfolding unary closed
  unary-nested expr d ts k n e = rw (keeps.4, e, unary) refl

  pub and_rest-stop :
      (expr : ℕ → List String → Parsed) (rounds d : ℕ) (n : Node) (k : List String)
      → length k < rounds
      → next_is py names "and" k ≡ false
      → and_rest py names expr rounds d n k ≡ parsed n k
  unfolding and_rest
  and_rest-stop expr zero d n k lt h = absurd (omega (arith, lt))
  and_rest-stop expr (suc rounds) d n k lt h = rw (h, and_rest) refl

  pub and_rest-go :
      (expr : ℕ → List String → Parsed) (rounds d : ℕ) (n m : Node) (ts k : List String)
      → unary py names expr (suc d) ts ≡ parsed m k
      → and_rest py names expr (suc rounds) d n ("and" ∷ ts)
        ≡ and_rest py names expr rounds d (both n m) k
  unfolding and_rest
  and_rest-go expr rounds d n m ts k e = rw (keeps.1, e, and_rest) refl

  pub conjunction_lem :
      (expr : ℕ → List String → Parsed) (d : ℕ) (n m : Node) (ts us k : List String)
      → unary py names expr (suc d) ts ≡ parsed n us
      → and_rest py names expr (suc (length us)) d n us ≡ parsed m k
      → conjunction py names expr d ts ≡ parsed m k
  unfolding conjunction
  conjunction_lem expr d n m ts us k e f = rw e f

  pub or_rest-stop :
      (expr : ℕ → List String → Parsed) (rounds d : ℕ) (n : Node) (k : List String)
      → length k < rounds
      → next_is py names "or" k ≡ false
      → or_rest py names expr rounds d n k ≡ parsed n k
  unfolding or_rest
  or_rest-stop expr zero d n k lt h = absurd (omega (arith, lt))
  or_rest-stop expr (suc rounds) d n k lt h = rw (h, or_rest) refl

  pub or_rest-go :
      (expr : ℕ → List String → Parsed) (rounds d : ℕ) (n m : Node) (ts k : List String)
      → conjunction py names expr (suc d) ts ≡ parsed m k
      → or_rest py names expr (suc rounds) d n ("or" ∷ ts)
        ≡ or_rest py names expr rounds d (either n m) k
  unfolding or_rest
  or_rest-go expr rounds d n m ts k e = rw (keeps.2, e, or_rest) refl

  pub expression_lem :
      (room d : ℕ) (n m : Node) (ts us k : List String)
      → ltb max_depth d ≡ false
      → conjunction py names (expression py names room) (suc d) ts ≡ parsed n us
      → or_rest py names (expression py names room) (suc (length us)) d n us ≡ parsed m k
      → expression py names (suc room) d ts ≡ parsed m k
  unfolding expression
  expression_lem room d n m ts us k h e f = rw (h, e, expression) f
