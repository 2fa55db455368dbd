-- ===== src/Soar/Graph/Valid.antt =====
-- soar/validation.py: what a playbook with no error in its graph is like.
use threat_scope_xdr.Prelude.{
  ℕ, ◌<◌, String, ◌≡◌, refl, sym, ap, ◌∙◌, inl, inr, Bool, true, false, not, some, List, [], ◌∷◌,
  ◌++◌, map, arith, str_eq, eq_iff, Bool-cases, length, select, any, All, elem,
}
use threat_scope_xdr.Prelude.{sorted-nil}
use threat_scope_xdr.Soar.Json.{Python}
use threat_scope_xdr.Soar.Validation.{Problem}
use threat_scope_xdr.Soar.Models.{Step}
use threat_scope_xdr.Soar.Graph.{
  Playbook, find_step, is_key, routes, reachable_keys, has_cycle, report_if, at_step,
  route_problems, all_route_problems, unreachable_keys, is_end, graph_problems, search_from,
}
use threat_scope_xdr.Soar.Graph.Walks.{Walk, elem-cons, elem-cons_self, elem-cons_cases}
use threat_scope_xdr.Soar.Graph.Acyclic.{has_cycle_lem, has_cycle-Walk}
use threat_scope_xdr.Soar.Graph.Reachable.{CanReach, reachable_keys_iff}

append-nil_left {ℓ} : {A : Type ℓ} (xs ys : List A) → xs ++ ys ≡ [] → (xs ≡ []) × (ys ≡ [])
append-nil_left [] ys h = (refl, h)
append-nil_left (x ∷ xs) ys h = absurd (cc h)

map-nil_only {ℓ κ} : {A : Type ℓ} {B : Type κ} (f : A → B) (xs : List A) → map f xs ≡ [] → xs ≡ []
map-nil_only f [] h = refl
map-nil_only f (x ∷ xs) h = absurd (cc h)

report_if-nil : (b : Bool) (path message : String) → report_if b path message ≡ [] → b ≡ false
report_if-nil true path message h = absurd (cc h)
report_if-nil false path message h = refl

none_selected :
    (p : String → Bool) (k : String) (ks : List String)
    → select p ks ≡ []
    → elem k ks ≡ true
    → p k ≡ false
none_selected p k [] h e = absurd (cc e)
none_selected p k (j ∷ ks) h e = elim (Bool-cases (p j)) [
  | inl t ↦ absurd (cc (rw t at h))
  | inr f ↦ elim (elem-cons_cases k j ks e) [
    | inl same ↦ rw (← same) f
    | inr later ↦ none_selected p k ks (rw f at h) later
  ]
]

any-elem :
    (p : String → Bool) (ks : List String)
    → any p ks ≡ true
    → (k : String) × (elem k ks ≡ true) × (p k ≡ true)
any-elem p [] h = absurd (cc h)
any-elem p (k ∷ ks) h = elim (Bool-cases (p k)) [
  | inl t ↦ (k, elem-cons_self k ks, t)
  | inr f ↦ let (j, e, t) = any-elem p ks (rw f at h) in (j, elem-cons j k ks e, t)
]

is_key-elem :
    (m : Playbook) (key : String) → is_key m key ≡ true → elem key (map (λ entry. entry.0) m) ≡ true
unfolding is_key find_step
is_key-elem [] key h = cc
is_key-elem ((k, s) ∷ m) key h = ground (arith, is_key-elem m key)

route_problems-nil :
    (py : Python) (by_key : Playbook) (key : String) (ts : List String)
    → route_problems py by_key key ts ≡ []
    → All (λ t. (is_key by_key t ≡ true) × (str_eq t key ≡ false)) ts
unfolding route_problems
route_problems-nil py by_key key [] h = tt
route_problems-nil py by_key key (t ∷ ts) h = elim (Bool-cases (str_eq t key)) [
  | inl self ↦ absurd (cc (rw self at h))
  | inr other ↦ elim (Bool-cases (is_key by_key t)) [
    | inl known ↦ ((known, other), route_problems-nil py by_key key ts (rw (other, known) at h))
    | inr unknown ↦ absurd (cc (rw (other, unknown) at h))
  ]
]

pub some_injective {ℓ} : {A : Type ℓ} {a b : A} → some a ≡ some b → a ≡ b
some_injective h = cc

all_route_problems-nil :
    (py : Python) (by_key m : Playbook)
    → all_route_problems py by_key m ≡ []
    → (key : String) (s : Step) → find_step key m ≡ some s
    → All (λ t. (is_key by_key t ≡ true) × (str_eq t key ≡ false)) (routes s)
unfolding all_route_problems find_step
all_route_problems-nil py by_key [] h key s e = absurd (cc e)
all_route_problems-nil py by_key ((k, st) ∷ m) h key s e =
    let (here, later) =
      append-nil_left (route_problems py by_key k (routes st)) (all_route_problems py by_key m) h in
    elim (Bool-cases (str_eq k key)) [
      | inl same ↦
          rw (← (eq_iff k key).0 same, ← some_injective (rw same at e))
            (route_problems-nil py by_key k (routes st) here)
      | inr other ↦ all_route_problems-nil py by_key m later key s (rw other at e)
    ]

not-false : (b : Bool) → not b ≡ false → b ≡ true
not-false true h = refl
not-false false h = absurd (cc h)

known-key :
    (by_key : Playbook) (key : String) (s : Step)
    → find_step key by_key ≡ some s
    → is_key by_key key ≡ true
unfolding is_key
known-key by_key key s e = rw e refl

module _ (py : Python) (by_key : Playbook) (start : String) where
  -- the two loops end, whatever the start
  loops_end :
      ((r : List String) × (reachable_keys by_key start ≡ some r))
      × ((b : Bool) × (has_cycle by_key start ≡ some b))
  unfolding reachable_keys has_cycle search_from
  loops_end = elim (Bool-cases (is_key by_key start)) [
    | inl key ↦
        let (r, e, _) = reachable_keys_iff by_key start key in
        let (cs, b, e', _, _, _) = has_cycle_lem by_key start key in ((r, e), (b, e'))
    | inr no_key ↦ (([], rw no_key refl), (false, rw no_key refl))
  ]

  -- the rows, from what the two loops find
  problems : List String → Bool → List Problem
  problems reachable cycle =
      report_if (not (is_key by_key start)) "start_step" "Start step does not exist"
      ++ (all_route_problems py by_key by_key
          ++ (map (λ key. at_step key "Step is unreachable") (unreachable_keys by_key reachable)
              ++ (report_if cycle "steps" "Cycles and recursive playbooks are prohibited"
                  ++ report_if (not (any (is_end by_key) reachable)) "steps"
                      "No reachable terminal end step")))

  graph_problems_lem :
      (r : List String) (b : Bool)
      → reachable_keys by_key start ≡ some r
      → has_cycle by_key start ≡ some b
      → graph_problems py by_key start ≡ some (problems r b)
  unfolding graph_problems problems
  graph_problems_lem r b e e' = rw (e, e') refl

  -- The validation of the graph ends for every playbook and every start.
  pub graph_problems_total : (es : List Problem) × (graph_problems py by_key start ≡ some es)
  graph_problems_total =
      let ((r, e), (b, e')) = loops_end in (problems r b, graph_problems_lem r b e e')

  record NoProblems (r : List String) (b : Bool) : Type 0 where
    start_exists : is_key by_key start ≡ true
    routes_exist : all_route_problems py by_key by_key ≡ []
    no_cycle : b ≡ false
    all_found : unreachable_keys by_key r ≡ []
    end_found : any (is_end by_key) r ≡ true

  no_problems : (r : List String) (b : Bool) → problems r b ≡ [] → NoProblems r b
  unfolding problems
  no_problems r b h =
      let (h1, t1) =
        append-nil_left
          (report_if (not (is_key by_key start)) "start_step" "Start step does not exist") _ h in
      let (h2, t2) = append-nil_left (all_route_problems py by_key by_key) _ t1 in
      let (h3, t3) =
        append-nil_left (map (λ key. at_step key "Step is unreachable") (unreachable_keys by_key r))
          _ t2 in
      let (h4, h5) =
        append-nil_left (report_if b "steps" "Cycles and recursive playbooks are prohibited") _
          t3 in
      record {
        start_exists = not-false (is_key by_key start) (report_if-nil _ _ _ h1);
        routes_exist = h2;
        no_cycle = report_if-nil _ _ _ h4;
        all_found = map-nil_only (λ key. at_step key "Step is unreachable") _ h3;
        end_found = not-false (any (is_end by_key) r) (report_if-nil _ _ _ h5);
      }

  found :
      graph_problems py by_key start ≡ some []
      → (r : List String) × (b : Bool) × (reachable_keys by_key start ≡ some r)
        × (has_cycle by_key start ≡ some b)
        × NoProblems r b
  found h =
      let ((r, e), (b, e')) = loops_end in
      (r, b, e, e', no_problems r b (some_injective (sym (graph_problems_lem r b e e') ∙ h)))

  -- In a playbook with no error in its graph, every walk from the start visits no more steps than
  -- the playbook has.
  pub graph_problems-Walk :
      graph_problems py by_key start ≡ some []
      → {u : String} {n : ℕ} → Walk by_key start u n
      → n < length by_key
  graph_problems-Walk h w =
      let (r, b, e, e', ok) = found h in
      has_cycle-Walk by_key start ok.start_exists (e' ∙ ap some ok.no_cycle) w

  -- In a playbook with no error in its graph, a walk from the start leads to every step, and every
  -- route of the step leads to a step other than itself.
  pub graph_problems-CanReach :
      (key : String) (s : Step)
      → graph_problems py by_key start ≡ some []
      → find_step key by_key ≡ some s
      → CanReach by_key start key
        × All (λ t. (is_key by_key t ≡ true) × (str_eq t key ≡ false)) (routes s)
  unfolding unreachable_keys
  graph_problems-CanReach key s h e =
      let (r, b, e', _, ok) = found h in
      let (r', e'', reach) = reachable_keys_iff by_key start ok.start_exists in
      let same : r ≡ r' = some_injective (sym e' ∙ e'') in
      let kept =
        none_selected (λ k. not (elem k r)) key (map (λ entry. entry.0) by_key)
          (sorted-nil _ ok.all_found) (is_key-elem by_key key (known-key by_key key s e)) in
      (
        (reach key).0 (rw (← same) (not-false (elem key r) kept)),
        all_route_problems-nil py by_key by_key ok.routes_exist key s e,
      )

  -- In a playbook with no error in its graph, a walk from the start leads to an end step.
  pub graph_problems-end :
      graph_problems py by_key start ≡ some []
      → (key : String) × CanReach by_key start key × (is_end by_key key ≡ true)
  graph_problems-end h =
      let (r, b, e, _, ok) = found h in
      let (r', e', reach) = reachable_keys_iff by_key start ok.start_exists in
      let same : r ≡ r' = some_injective (sym e ∙ e') in
      let (key, in_r, t) = any-elem (is_end by_key) r ok.end_found in
      (key, (reach key).0 (rw (← same) in_r), t)
