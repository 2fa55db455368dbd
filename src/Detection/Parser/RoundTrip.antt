-- ===== src/Detection/Parser/RoundTrip.antt =====
-- detection_engineering/evaluator.py: _parse_condition on the tokens of a condition that the
-- grammar makes.
use threat_scope_xdr.Prelude.{
  ℕ, zero, suc, ◌+◌, ◌≤◌, ◌<◌, String, ◌≡◌, refl, ◌∙◌, true, false, not, List, [], ◌∷◌, arith, ltb,
  length,
}
use threat_scope_xdr.Detection.Tokens.{Python}
use threat_scope_xdr.Detection.Parser.{
  Node, both, either, Parsed, parsed, max_depth, next_is, unary, and_rest, or_rest, expression,
  finish, parse_tokens,
}
use threat_scope_xdr.Detection.Parser.Grammar.{
  Term, Factors, Summands, name, counted, negated, nested, no_factor, times, no_summand, plus, put,
  put_factors, put_summands, tree, tree_factors, tree_summands, fits, fits_factors, fits_summands,
  allows, print, tree_of,
}
use threat_scope_xdr.Detection.Parser.Rounds.{
  length-put, length-put_factors, and_both, not-true, three_true, shallow, Stops-closed,
  next_is-put_summands, unary-name, unary-counted, unary-negated, unary-nested, and_rest-stop,
  and_rest-go, conjunction_lem, or_rest-stop, or_rest-go, expression_lem, Stops, KeepsGrammar,
}

module _ (py : Python) (keeps : KeepsGrammar py) (names : List String) where
  nested_shallow :
      (d : ℕ) (t : Term) (fs : Factors) (ss : Summands)
      → fits py names d (nested t fs ss) ≡ true
      → not (ltb max_depth (suc d)) ≡ true
  unfolding fits fits_factors fits_summands
  nested_shallow d t fs ss h =
      let r = and_both _ (fits_summands py names (suc (suc (suc d))) ss) h in
      (three_true (not (ltb max_depth (suc d))) (fits py names (suc (suc (suc d))) t)
        (fits_factors py names (suc (suc (suc d))) fs) r.0).0

  mutual
    unfolding put put_factors put_summands tree tree_factors tree_summands fits fits_factors
        fits_summands

    unary-put :
        (t : Term) (room d : ℕ) (k : List String)
        → 10 ≤ room + d
        → fits py names d t ≡ true
        → unary py names (expression py names room) d (put t k) ≡ parsed (tree py names t) k
    unary-put (name s) room d k le h = unary-name py keeps names (expression py names room) d s k h
    unary-put (counted amount pattern) room d k le h =
        unary-counted py keeps names (expression py names room) d amount pattern k h
    unary-put (negated t) room d k le h =
        unary-negated py keeps names (expression py names room) d (put t k) k (tree py names t)
          (unary-put t room (suc d) k (omega arith) h)
    unary-put (nested t fs ss) zero d k le h = absurd (shallow d le (nested_shallow d t fs ss h))
    unary-put (nested t fs ss) (suc room) d k le h =
        let r = and_both _ (fits_summands py names (suc (suc (suc d))) ss) h in
        let q =
          three_true (not (ltb max_depth (suc d))) (fits py names (suc (suc (suc d))) t)
            (fits_factors py names (suc (suc (suc d))) fs) r.0 in
        let us = put_summands ss (")" ∷ k) in
        unary-nested py keeps names (expression py names (suc room)) d (put t (put_factors fs us)) k
          (tree_summands py names (tree_factors py names (tree py names t) fs) ss)
          (expression_lem py keeps names room (suc d) (tree_factors py names (tree py names t) fs)
            (tree_summands py names (tree_factors py names (tree py names t) fs) ss)
            (put t (put_factors fs us)) us (")" ∷ k) (not-true (ltb max_depth (suc d)) q.0)
            (conjunction_lem py keeps names (expression py names room) (suc (suc d))
              (tree py names t) (tree_factors py names (tree py names t) fs)
              (put t (put_factors fs us)) (put_factors fs us) us
              (unary-put t room (suc (suc (suc d))) (put_factors fs us) (omega arith) q.1)
              (and_rest-put fs (suc (length (put_factors fs us))) room (suc (suc d))
                (tree py names t) us (omega arith) (omega arith) q.2
                (next_is-put_summands py keeps names ss (")" ∷ k)
                  (Stops-closed py keeps names k).0)))
            (or_rest-put ss (suc (length us)) room (suc d)
              (tree_factors py names (tree py names t) fs) (")" ∷ k) (omega arith) (omega arith) r.1
              (Stops-closed py keeps names k)))

    and_rest-put :
        (fs : Factors) (rounds room d : ℕ) (n : Node) (k : List String)
        → 10 ≤ room + suc d
        → length (put_factors fs k) < rounds
        → fits_factors py names (suc d) fs ≡ true
        → next_is py names "and" k ≡ false
        → and_rest py names (expression py names room) rounds d n (put_factors fs k)
          ≡ parsed (tree_factors py names n fs) k
    and_rest-put no_factor rounds room d n k le lt h stop =
        and_rest-stop py keeps names (expression py names room) rounds d n k lt stop
    and_rest-put (times t fs) zero room d n k le lt h stop = absurd (omega (arith, lt))
    and_rest-put (times t fs) (suc rounds) room d n k le lt h stop =
        let p = and_both (fits py names (suc d) t) (fits_factors py names (suc d) fs) h in
        and_rest-go py keeps names (expression py names room) rounds d n (tree py names t)
          (put t (put_factors fs k)) (put_factors fs k)
          (unary-put t room (suc d) (put_factors fs k) le p.0)
        ∙ and_rest-put fs rounds room d (both n (tree py names t)) k le
            (omega (arith, lt, length-put t (put_factors fs k))) p.1 stop

    or_rest-put :
        (ss : Summands) (rounds room d : ℕ) (n : Node) (k : List String)
        → 10 ≤ room + suc d
        → length (put_summands ss k) < rounds
        → fits_summands py names (suc (suc d)) ss ≡ true
        → Stops py keeps names k
        → or_rest py names (expression py names room) rounds d n (put_summands ss k)
          ≡ parsed (tree_summands py names n ss) k
    or_rest-put no_summand rounds room d n k le lt h stop =
        or_rest-stop py keeps names (expression py names room) rounds d n k lt stop.1
    or_rest-put (plus t fs ss) zero room d n k le lt h stop = absurd (omega (arith, lt))
    or_rest-put (plus t fs ss) (suc rounds) room d n k le lt h stop =
        let q =
          three_true (fits py names (suc (suc d)) t) (fits_factors py names (suc (suc d)) fs)
            (fits_summands py names (suc (suc d)) ss) h in
        let us = put_summands ss k in
        or_rest-go py keeps names (expression py names room) rounds d n
          (tree_factors py names (tree py names t) fs) (put t (put_factors fs us)) us
          (conjunction_lem py keeps names (expression py names room) (suc d) (tree py names t)
            (tree_factors py names (tree py names t) fs) (put t (put_factors fs us))
            (put_factors fs us) us
            (unary-put t room (suc (suc d)) (put_factors fs us) (omega arith) q.0)
            (and_rest-put fs (suc (length (put_factors fs us))) room (suc d) (tree py names t) us
              (omega arith) (omega arith) q.1 (next_is-put_summands py keeps names ss k stop.0)))
        ∙ or_rest-put ss rounds room d (either n (tree_factors py names (tree py names t) fs)) k le
            (omega (arith, lt, length-put t (put_factors fs us), length-put_factors fs us)) q.2 stop

  finished : (p : Parsed) (n : Node) → p ≡ parsed n [] → finish py names p ≡ parsed n []
  unfolding finish
  finished p n e = rw e refl

  -- The tokens of a condition of the grammar parse to its tree: sums and products lean to the left,
  -- `and` binds closer than `or`, and `not` closer still, whatever the parentheses. The condition's
  -- selections are the rule's, and its parentheses are within the depth. (The lower case of the
  -- grammar's own words is the words.)
  pub parse_tokens-print :
      (t : Term) (fs : Factors) (ss : Summands)
      → allows py names t fs ss ≡ true
      → parse_tokens py names (print t fs ss) ≡ parsed (tree_of py names t fs ss) []
  unfolding parse_tokens allows print tree_of
  parse_tokens-print t fs ss h =
      let q =
        three_true (fits py names 2 t) (fits_factors py names 2 fs) (fits_summands py names 2 ss)
          h in
      let us = put_summands ss [] in
      finished (expression py names 10 0 (put t (put_factors fs us)))
        (tree_summands py names (tree_factors py names (tree py names t) fs) ss)
        (expression_lem py keeps names 9 0 (tree_factors py names (tree py names t) fs)
          (tree_summands py names (tree_factors py names (tree py names t) fs) ss)
          (put t (put_factors fs us)) us [] refl
          (conjunction_lem py keeps names (expression py names 9) 1 (tree py names t)
            (tree_factors py names (tree py names t) fs) (put t (put_factors fs us))
            (put_factors fs us) us (unary-put t 9 2 (put_factors fs us) (omega arith) q.0)
            (and_rest-put fs (suc (length (put_factors fs us))) 9 1 (tree py names t) us
              (omega arith) (omega arith) q.1 (next_is-put_summands py keeps names ss [] refl)))
          (or_rest-put ss (suc (length us)) 9 0 (tree_factors py names (tree py names t) fs) []
            (omega arith) (omega arith) q.2 (refl, refl)))
