-- ===== src/Detection/Outcomes/Meaning.antt =====
-- detection_engineering/evaluator.py: evaluate, against the meaning of the grammar of conditions.
use threat_scope_xdr.Prelude.{
  ℕ, suc, ◌≤◌, String, ◌≡◌, refl, ap, ◌∙◌, inl, inr, Bool, true, false, not, ◌&&◌, ◌||◌, Option,
  none, some, List, [], ◌∷◌, arith, str_eq, ltb, leb, ◌==◌, if◌then◌else◌, is_some, Bool-cases,
  length, first, count_where, all, elem,
}
use threat_scope_xdr.Soar.Json.{Json}
use threat_scope_xdr.Detection.Tokens.{Python, tokens, join, without_spaces, int, is_digits}
use threat_scope_xdr.Detection.Parser.{
  Node, selection, opposite, both, either, of_group, max_depth, is_amount, matching,
}
use threat_scope_xdr.Detection.Parser.Grammar.{
  Term, Factors, Summands, name, counted, negated, nested, no_factor, times, no_summand, plus, tree,
  tree_factors, tree_summands, fits, fits_factors, fits_summands, allows, print, tree_of,
}
use threat_scope_xdr.Detection.Parser.Sound.{KeepsDigits, all-weaken, all-matching}
use threat_scope_xdr.Detection.Parser.Rounds.{and_both, three_true, four_true}
use threat_scope_xdr.Detection.Outcomes.{lookup, is_true, resolve_group, resolve}
use threat_scope_xdr.Detection.Outcomes.Decided.{int_some}

-- how many selections an amount asks for
abbrev asked : String → ℕ
asked amount = elim (int amount) [ none ↦ 0 | some n ↦ n ]

module _ (py : Python) (names : List String) (os : List (String × Bool)) where
  -- the value of a term, by the outcomes of the selections
  unfoldable mutual
    pub means : Term → Bool
    means (name s) = is_true os s
    means (counted amount pattern) =
        let matched = matching py names pattern in
        leb (if str_eq (py.lower amount) "all" then length matched else asked amount)
          (count_where (is_true os) matched)
    means (negated t) = not (means t)
    means (nested t fs ss) = (means t && all_hold fs) || some_holds ss

    -- the factors all hold
    pub all_hold : Factors → Bool
    all_hold no_factor = true
    all_hold (times t fs) = means t && all_hold fs

    -- one of the summands holds
    pub some_holds : Summands → Bool
    some_holds no_summand = false
    some_holds (plus t fs ss) = (means t && all_hold fs) || some_holds ss

count_le : (p : String → Bool) (ks : List String) → count_where p ks ≤ length ks
count_le p [] = omega arith
count_le p (k ∷ ks) = ground (arith, count_le p ks)

count_eq_leb : (m n : ℕ) → m ≤ n → (m == n) ≡ leb n m
count_eq_leb m n le = ground arith

or_else {ℓ} :
    {A : Type ℓ} (default : A) (o : Option A)
    → is_some o ≡ true
    → o ≡ some (elim o [ none ↦ default | some a ↦ a ])
or_else default none h = absurd (cc h)
or_else default (some a) h = refl

and_assoc : (a b c : Bool) → (a && b && c) ≡ (a && (b && c))
and_assoc true b c = refl
and_assoc false b c = refl

or_assoc : (a b c : Bool) → (a || b || c) ≡ (a || (b || c))
or_assoc true b c = refl
or_assoc false b c = refl

and_true : (a : Bool) → a ≡ (a && true)
and_true a = ground arith

or_false : (a : Bool) → a ≡ (a || false)
or_false a = ground arith

resolve-opposite :
    (os : List (String × Bool)) (n : Node) (b : Bool)
    → resolve os n ≡ some b
    → resolve os (opposite n) ≡ some (not b)
unfolding resolve
resolve-opposite os n b e = rw e refl

resolve-both :
    (os : List (String × Bool)) (m n : Node) (a b : Bool)
    → resolve os m ≡ some a
    → resolve os n ≡ some b
    → resolve os (both m n) ≡ some (a && b)
unfolding resolve
resolve-both os m n true b e f = rw (e, f) refl
resolve-both os m n false b e f = rw e refl

resolve-either :
    (os : List (String × Bool)) (m n : Node) (a b : Bool)
    → resolve os m ≡ some a
    → resolve os n ≡ some b
    → resolve os (either m n) ≡ some (a || b)
unfolding resolve
resolve-either os m n true b e f = rw e refl
resolve-either os m n false b e f = rw (e, f) refl

module _ (py : Python) (keeps : KeepsDigits py) (names : List String) (os : List (String × Bool))
    (present : (s : String) → elem s names ≡ true → is_some (lookup s os) ≡ true) where
  all_present :
      (pattern : String) → all (λ n. is_some (lookup n os)) (matching py names pattern) ≡ true
  all_present pattern =
      all-weaken (λ n. elem n names) (λ n. is_some (lookup n os)) (matching py names pattern)
        present (all-matching py keeps names pattern)

  digits_lem :
      (amount : String)
      → is_amount py names amount ≡ true
      → str_eq (py.lower amount) "all" ≡ false
      → is_digits amount ≡ true
  digits_lem amount h e = elim (Bool-cases (is_digits amount)) [
    | inl d ↦ d
    | inr d ↦ absurd (cc (rw (d, e) at h))
  ]

  resolve-group :
      (amount pattern : String)
      → is_amount py names amount ≡ true
      → resolve os (of_group (py.lower amount) (matching py names pattern))
        ≡ some (means py names os (counted amount pattern))
  unfolding resolve resolve_group means all_hold some_holds
  resolve-group amount pattern h = elim (Bool-cases (str_eq (py.lower amount) "all")) [
    | inl e ↦
        rw (all_present pattern, e)
          (ap some (
            count_eq_leb (count_where (is_true os) (matching py names pattern))
              (length (matching py names pattern))
              (count_le (is_true os) (matching py names pattern))))
    | inr e ↦
        let d = digits_lem amount h e in
        rw (all_present pattern, e, keeps amount d)
          (rw (or_else 0 (int amount) (int_some amount d)) refl)
  ]

  resolve-name : (s : String) → elem s names ≡ true → resolve os (selection s) ≡ some (is_true os s)
  unfolding resolve
  resolve-name s h = or_else false (lookup s os) (present s h)

  mutual
    unfolding tree tree_factors tree_summands fits fits_factors fits_summands means all_hold
        some_holds

    resolve-tree :
        (t : Term) (d : ℕ)
        → fits py names d t ≡ true
        → resolve os (tree py names t) ≡ some (means py names os t)
    resolve-tree (name s) d h =
        resolve-name s
          (four_true (elem s names) (str_eq (py.lower s) "not") (str_eq s "(")
            (not (is_amount py names s)) h).0
    resolve-tree (counted amount pattern) d h =
        resolve-group amount pattern
          (four_true (is_amount py names amount) (str_eq (py.lower amount) "not")
            (str_eq amount "(") (is_some (first (λ n. true) (matching py names pattern))) h).0
    resolve-tree (negated t) d h =
        resolve-opposite os (tree py names t) (means py names os t) (resolve-tree t (suc d) h)
    resolve-tree (nested t fs ss) d h =
        let q = and_both _ (fits_summands py names (suc (suc (suc d))) ss) h in
        let p =
          three_true (not (ltb max_depth (suc d))) (fits py names (suc (suc (suc d))) t)
            (fits_factors py names (suc (suc (suc d))) fs) q.0 in
        resolve-tree_summands ss (suc (suc (suc d))) (tree_factors py names (tree py names t) fs)
          (means py names os t && all_hold py names os fs) q.1
          (resolve-tree_factors fs (suc (suc (suc d))) (tree py names t) (means py names os t) p.2
            (resolve-tree t (suc (suc (suc d))) p.1))

    resolve-tree_factors :
        (fs : Factors) (d : ℕ) (n : Node) (b : Bool)
        → fits_factors py names d fs ≡ true
        → resolve os n ≡ some b
        → resolve os (tree_factors py names n fs) ≡ some (b && all_hold py names os fs)
    resolve-tree_factors no_factor d n b h e = e ∙ ap some (and_true b)
    resolve-tree_factors (times t fs) d n b h e =
        let p = and_both (fits py names d t) (fits_factors py names d fs) h in
        resolve-tree_factors fs d (both n (tree py names t)) (b && means py names os t) p.1
          (resolve-both os n (tree py names t) b (means py names os t) e (resolve-tree t d p.0))
        ∙ ap some (and_assoc b (means py names os t) (all_hold py names os fs))

    resolve-tree_summands :
        (ss : Summands) (d : ℕ) (n : Node) (b : Bool)
        → fits_summands py names d ss ≡ true
        → resolve os n ≡ some b
        → resolve os (tree_summands py names n ss) ≡ some (b || some_holds py names os ss)
    resolve-tree_summands no_summand d n b h e = e ∙ ap some (or_false b)
    resolve-tree_summands (plus t fs ss) d n b h e =
        let p =
          three_true (fits py names d t) (fits_factors py names d fs) (fits_summands py names d ss)
            h in
        let c = means py names os t && all_hold py names os fs in
        let m = tree_factors py names (tree py names t) fs in
        resolve-tree_summands ss d (either n m) (b || c) p.2 (
          resolve-either os n m b c e (
            resolve-tree_factors fs d (tree py names t) (means py names os t) p.1
              (resolve-tree t d p.0)))
        ∙ ap some (or_assoc b c (some_holds py names os ss))

  -- a whole condition that the rule's selections allow
  pub resolve-tree_of :
      (t : Term) (fs : Factors) (ss : Summands)
      → allows py names t fs ss ≡ true
      → resolve os (tree_of py names t fs ss) ≡ some (means py names os (nested t fs ss))
  unfolding tree_of allows means all_hold some_holds
  resolve-tree_of t fs ss h =
      let p =
        three_true (fits py names 2 t) (fits_factors py names 2 fs) (fits_summands py names 2 ss)
          h in
      resolve-tree_summands ss 2 (tree_factors py names (tree py names t) fs)
        (means py names os t && all_hold py names os fs) p.2
        (resolve-tree_factors fs 2 (tree py names t) (means py names os t) p.1
          (resolve-tree t 2 p.0))

-- the text is the tokens of a condition of the grammar, with spaces between them
abbrev pub Writes : Python → String → Term → Factors → Summands → Type 0
Writes py condition t fs ss =
    (tokens py condition ≡ print t fs ss)
    × (str_eq (py.lower (join (print t fs ss))) (py.lower (without_spaces condition)) ≡ true)
