-- ===== src/Soar/Graph.antt =====
-- soar/validation.py: the graph of the steps of a playbook.
pub mod Walks
pub mod Acyclic
pub mod Reachable
pub mod Valid
use threat_scope_xdr.Prelude.{
  ℕ, zero, suc, ◌+◌, ◌-◌, ◌*◌, ◌/◌, ◌%◌, ◌≤◌, ◌<◌, min, max, String, ◌≡◌, refl, sym, ap, ◌∙◌, ◌≢◌,
  ◌↔◌, ◌⊎◌, inl, inr, Bool, true, false, not, ◌&&◌, ◌||◌, Option, none, some, List, [], ◌∷◌, ◌++◌,
  map, arith, str_eq, starts_with, eq_iff, eq_refl, ltb, leb, ◌==◌, if◌then◌else◌, is_some,
  Bool-cases, Option-cases, length, select, first, count_where, delete_where, update_where, any,
  all, All, next_id, count_where-append, first-test, count_where-delete_where, count_where_mono,
  first-update_where_ne, count_where-update_where_ne, contains, ends_with, nonempty, elem, take,
  rstrip_slash, strip, join_words, is_space, concat, opt_eq, show, ==_iff, opt_eq-eq, count, unique,
  sorted, any-append, any-delete_where, any-delete_where_self, any-select, any_mono, length-append,
  count_where_pos, first-update_where, count_where-update_where_self,
}
use threat_scope_xdr.Soar.Json.{Python}
use threat_scope_xdr.Soar.Models.{Step}
use threat_scope_xdr.Soar.Validation.{Problem, invalid}

-- `by_key`: the steps in the order in which they came
abbrev pub Playbook : Type 0
Playbook = List (String × Step)

unfoldable pub find_step : String → Playbook → Option Step
find_step key [] = none
find_step key ((k, s) ∷ rest) =
    let found = find_step key rest in if str_eq k key then some s else found

-- `key in by_key`
unfoldable pub is_key : Playbook → String → Bool
unfolding find_step
is_key by_key key = is_some (find_step key by_key)

abbrev pub given : Option String → List String → List String
given none ts = ts
given (some t) ts = t ∷ ts

unfoldable pub routes : Step → List String
routes s = given s.on_success (given s.on_failure (given s.on_timeout []))

abbrev routes_of : Option Step → List String
routes_of none = []
routes_of (some s) = routes s

-- `adjacency.get(key, [])`
unfoldable pub adjacency : Playbook → String → List String
unfolding find_step routes
adjacency by_key key = routes_of (find_step key by_key)

-- the `while queue` loop, for at most `fuel` rounds; `none` if they do not suffice
unfoldable pub search_from : Playbook → ℕ → List String → List String → Option (List String)
unfolding is_key adjacency
search_from by_key fuel reachable [] = some reachable
search_from by_key zero reachable (key ∷ queue) = none
search_from by_key (suc fuel) reachable (key ∷ queue) =
    let skip = search_from by_key fuel reachable queue in
    let go =
      search_from by_key fuel (key ∷ reachable)
        (queue ++ select (is_key by_key) (adjacency by_key key)) in
    if elem key reachable then skip else go

-- every step is taken up once and puts at most three keys into the queue
abbrev pub rounds : Playbook → ℕ
rounds by_key = 1 + 3 * length by_key

unfoldable pub reachable_keys : Playbook → String → Option (List String)
unfolding search_from is_key
reachable_keys by_key start =
    search_from by_key (rounds by_key) [] (if is_key by_key start then start ∷ [] else [])

-- `color`, the latest assignment first, and `cycle`
pub record Coloring : Type 0 where
  pub color : List (String × ℕ)
  pub cycle : Bool

-- `color.get(key, 0)`
unfoldable pub color_of : String → List (String × ℕ) → ℕ
color_of key [] = 0
color_of key ((k, c) ∷ rest) = let found = color_of key rest in if str_eq k key then c else found

unfoldable pub paint : String → ℕ → Coloring → Coloring
paint key c s = record s { color = (key, c) ∷ s.color }

infixl 5 ◌>>=◌
abbrev pub ◌>>=◌ {ℓ κ} : {A : Type ℓ} {B : Type κ} → Option A → (A → Option B) → Option B
none >>= f = none
some a >>= f = f a

-- one round of the loop over the targets
unfoldable pub visit_target :
    Playbook → (String → Coloring → Option Coloring) → String → Coloring → Option Coloring
unfolding is_key color_of
visit_target by_key call target s =
    if not (is_key by_key target)
    then some s
    else if color_of target s.color == 1
    then some (record s { cycle = true })
    else if color_of target s.color == 0
    then call target s
    else some s

unfoldable pub visit_targets :
    Playbook → (String → Coloring → Option Coloring) → List String → Coloring → Option Coloring
unfolding visit_target
visit_targets by_key call [] s = some s
visit_targets by_key call (t ∷ ts) s = visit_target by_key call t s >>= visit_targets by_key call ts

-- `visit`, with at most `fuel` calls open at once
unfoldable pub visit : Playbook → ℕ → String → Coloring → Option Coloring
unfolding visit_targets adjacency paint
visit by_key zero key s = none
visit by_key (suc fuel) key s =
    visit_targets by_key (visit by_key fuel) (adjacency by_key key) (paint key 1 s) >>= λ t.
    some (paint key 2 t)

abbrev pub uncolored : Coloring
uncolored = record { color = []; cycle = false }

-- `cycle` in the end; one open call for each key is enough
unfoldable pub has_cycle : Playbook → String → Option Bool
unfolding visit is_key
has_cycle by_key start =
    if is_key by_key start
    then (visit by_key (length by_key) start uncolored >>= λ s. some s.cycle)
    else some false

abbrev pub at_step : String → String → Problem
at_step key message = record {
  code = "SOAR_PLAYBOOK_INVALID";
  path = none;
  step_key = some key;
  message = message;
}

unfoldable pub route_problems : Python → Playbook → String → List String → List Problem
unfolding is_key concat
route_problems py by_key key [] = []
route_problems py by_key key (target ∷ ts) =
    let rest = route_problems py by_key key ts in
    if str_eq target key
    then at_step key "Self-loop is prohibited" ∷ rest
    else if not (is_key by_key target)
    then at_step key (concat "Route target " (concat (py.repr target) " does not exist")) ∷ rest
    else rest

-- the loop over `by_key.items()`
unfoldable pub all_route_problems : Python → Playbook → Playbook → List Problem
unfolding route_problems routes
all_route_problems py by_key [] = []
all_route_problems py by_key ((key, s) ∷ rest) =
    route_problems py by_key key (routes s) ++ all_route_problems py by_key rest

-- `set(by_key) - reachable`, sorted
unfoldable pub unreachable_keys : Playbook → List String → List String
unfolding sorted
unreachable_keys by_key reachable =
    sorted (select (λ key. not (elem key reachable)) (map (λ entry. entry.0) by_key))

unfoldable pub is_end : Playbook → String → Bool
unfolding find_step
is_end by_key key = elim (find_step key by_key) [ none ↦ false | some s ↦ str_eq s.type_name "end" ]

abbrev pub report_if : Bool → String → String → List Problem
report_if true path message = invalid path message ∷ []
report_if false path message = []

-- The rows that the graph adds to `errors`, in order; `none` would be a loop that does not end.
unfoldable pub graph_problems : Python → Playbook → String → Option (List Problem)
unfolding is_key all_route_problems reachable_keys unreachable_keys has_cycle is_end
graph_problems py by_key start = reachable_keys by_key start >>= λ reachable.
    has_cycle by_key start >>= λ cycle. some (
      report_if (not (is_key by_key start)) "start_step" "Start step does not exist"
      ++ (all_route_problems py by_key by_key
          ++ (map (λ key. at_step key "Step is unreachable") (unreachable_keys by_key reachable)
              ++ (report_if cycle "steps" "Cycles and recursive playbooks are prohibited"
                  ++ report_if (not (any (is_end by_key) reachable)) "steps"
                      "No reachable terminal end step"))))
