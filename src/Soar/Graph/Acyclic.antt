-- ===== src/Soar/Graph/Acyclic.antt =====
-- soar/validation.py: what the depth-first visit of the steps leaves behind.
use threat_scope_xdr.Prelude.{
  ℕ, zero, suc, ◌+◌, ◌≤◌, ◌<◌, String, ◌≡◌, refl, sym, ap, inl, inr, Bool, true, false, Option,
  some, List, [], ◌∷◌, arith, str_eq, eq_iff, ltb, ◌==◌, if◌then◌else◌, is_some, Bool-cases, length,
  select, count_where, All, elem,
}
use threat_scope_xdr.Soar.Graph.Walks.{
  Walk, at_start, along, All-elem, targets, elem-cons, elem-cons_self, elem-cons_cases,
}
use threat_scope_xdr.Soar.Models.{Step}
use threat_scope_xdr.Soar.Graph.{
  Playbook, find_step, is_key, adjacency, Coloring, color_of, paint, visit_target, visit_targets,
  visit, uncolored, has_cycle,
}

-- the keys that the visit has left, the last first
unfoldable pub finished : List (String × ℕ) → List String
finished [] = []
finished ((k, c) ∷ rest) = let older = finished rest in if ltb 1 c then k ∷ older else older

module _ (by_key : Playbook) where
  -- every step leads only to steps behind it
  abbrev pub IsTopological : List String → Type 0
  IsTopological [] = Unit
  IsTopological (k ∷ ks) = All (λ t. elem t ks ≡ true) (targets by_key k) × IsTopological ks

  unfoldable pub whites : Coloring → ℕ
  whites s = count_where (λ entry. color_of entry.0 s.color == 0) by_key

  pub record Progress (s s' : Coloring) : Type 0 where
    pub fewer : whites s' ≤ whites s
    pub total : length (finished s'.color) + whites s' ≤ length (finished s.color) + whites s
    pub latched : s'.cycle ≡ false → s.cycle ≡ false
    pub kept : (k : String) → elem k (finished s.color) ≡ true → elem k (finished s'.color) ≡ true
    pub ordered :
        s'.cycle ≡ false → IsTopological (finished s.color) → IsTopological (finished s'.color)

  Progress-refl : (s : Coloring) → Progress s s
  Progress-refl s = record {
    fewer = omega arith;
    total = omega arith;
    latched = λ h. h;
    kept = λ k h. h;
    ordered = λ h t. t;
  }

  Progress-trans : {s t u : Coloring} → Progress s t → Progress t u → Progress s u
  Progress-trans p q = record {
    fewer = omega (arith, p.fewer, q.fewer);
    total = omega (arith, p.total, q.total);
    latched = λ h. p.latched (q.latched h);
    kept = λ k h. q.kept k (p.kept k h);
    ordered = λ h t. q.ordered h (p.ordered (q.latched h) t);
  }

  Progress-cycle : (s : Coloring) → Progress s (record s { cycle = true })
  unfolding whites
  Progress-cycle s = record {
    fewer = omega arith;
    total = omega arith;
    latched = λ h. absurd (cc h);
    kept = λ k h. h;
    ordered = λ h t. t;
  }

  abbrev Finished : Coloring → String → Type 0
  Finished s key = s.cycle ≡ false → elem key (finished s.color) ≡ true

  -- what a visit of a white step gives while there are no more white steps than `fuel`
  abbrev Visits : ℕ → (String → Coloring → Option Coloring) → Type 0
  Visits fuel call =
      (t : String) (s : Coloring)
      → is_key by_key t ≡ true
      → (color_of t s.color == 0) ≡ true
      → whites s ≤ fuel
      → (s' : Coloring) × (call t s ≡ some s') × Progress s s' × Finished s' t

color_of-finished :
    (key : String) (cs : List (String × ℕ))
    → (color_of key cs == 1) ≡ false
    → (color_of key cs == 0) ≡ false
    → elem key (finished cs) ≡ true
unfolding color_of finished
color_of-finished key [] h k = ground arith
color_of-finished key ((j, c) ∷ cs) h k = ground (arith, color_of-finished key cs)

whites_painted :
    (key : String) (c : ℕ) (s : Coloring) (m : Playbook)
    → (c == 0) ≡ false
    → count_where (λ entry. color_of entry.0 (paint key c s).color == 0) m
      ≤ count_where (λ entry. color_of entry.0 s.color == 0) m
unfolding color_of paint
whites_painted key c s [] h = omega arith
whites_painted key c s ((k, st) ∷ m) h = ground (arith, whites_painted key c s m)

whites_painted_lt :
    (key : String) (c : ℕ) (s : Coloring) (m : Playbook)
    → (c == 0) ≡ false
    → is_some (find_step key m) ≡ true
    → (color_of key s.color == 0) ≡ true
    → count_where (λ entry. color_of entry.0 (paint key c s).color == 0) m
      < count_where (λ entry. color_of entry.0 s.color == 0) m
unfolding color_of paint find_step
whites_painted_lt key c s [] h k w = cc
whites_painted_lt key c s ((j, st) ∷ m) h k w = elim (Bool-cases (str_eq j key)) [
  | inl e ↦
      let here = (eq_iff j key).0 e in
      ground (
        arith,
        whites_painted key c s m h,
        (eq_iff key j).1 (sym here),
        ap (λ i. color_of i s.color) here,
      )
  | inr e ↦ ground (arith, eq_iff key j, eq_iff j key, whites_painted_lt key c s m)
]

finished_painted_grey :
    (key : String) (s : Coloring) → finished (paint key 1 s).color ≡ finished s.color
unfolding finished paint
finished_painted_grey key s = refl

All-if :
    (P : String → Type 0) (b : Bool) (x : String) (xs : List String)
    → (b ≡ true → P x)
    → All P xs
    → All P (if b then x ∷ xs else xs)
All-if P true x xs h a = (h refl, a)
All-if P false x xs h a = a

count_where-le :
    (p : String × Step → Bool) (xs : List (String × Step)) → count_where p xs ≤ length xs
count_where-le p [] = omega arith
count_where-le p (x ∷ xs) = ground (arith, count_where-le p xs)

module _ (by_key : Playbook) where
  -- The targets of a step, each visited if it is a white key.
  module _ (fuel : ℕ) (call : String → Coloring → Option Coloring)
      (visits : Visits by_key fuel call) where
    visit_target_lem :
        (t : String) (s : Coloring)
        → whites by_key s ≤ fuel
        → (s' : Coloring) × (visit_target by_key call t s ≡ some s')
          × Progress by_key s s'
          × (is_key by_key t ≡ true → Finished by_key s' t)
    unfolding visit_target
    visit_target_lem t s le = elim (Bool-cases (is_key by_key t)) [
      | inr no_key ↦ (s, rw no_key refl, Progress-refl by_key s, λ k. absurd (cc (no_key, k)))
      | inl key ↦ elim (Bool-cases (color_of t s.color == 1)) [
        | inl grey ↦ (
          record s { cycle = true },
          rw (key, grey) refl,
          Progress-cycle by_key s,
          λ k h. absurd (cc h),
        )
        | inr not_grey ↦ elim (Bool-cases (color_of t s.color == 0)) [
          | inl white ↦
              let (s', e, p, f) = visits t s key white le in
              (s', rw (key, not_grey, white) e, p, λ k. f)
          | inr black ↦ (
            s,
            rw (key, not_grey, black) refl,
            Progress-refl by_key s,
            λ k h. color_of-finished t s.color not_grey black,
          )
        ]
      ]
    ]

    visit_targets_lem :
        (ts : List String) (s : Coloring)
        → whites by_key s ≤ fuel
        → (s' : Coloring) × (visit_targets by_key call ts s ≡ some s')
          × Progress by_key s s'
          × (s'.cycle ≡ false
              → All (λ t. elem t (finished s'.color) ≡ true) (select (is_key by_key) ts))
    unfolding visit_targets
    visit_targets_lem [] s le = (s, refl, Progress-refl by_key s, λ h. tt)
    visit_targets_lem (t ∷ ts) s le =
        let (s1, e1, p1, f1) = visit_target_lem t s le in
        let (s2, e2, p2, f2) = visit_targets_lem ts s1 (omega (arith, p1.fewer)) in
        (
          s2,
          rw e1 e2,
          Progress-trans by_key p1 p2,
          λ h.
              All-if (λ k. elem k (finished s2.color) ≡ true) (is_key by_key t) t
                (select (is_key by_key) ts) (λ k. p2.kept t (f1 k (p2.latched h))) (f2 h),
        )

  whites-paint :
      (key : String) (c : ℕ) (s : Coloring)
      → (c == 0) ≡ false
      → whites by_key (paint key c s) ≤ whites by_key s
  unfolding whites
  whites-paint key c s h = whites_painted key c s by_key h

  whites-paint_lt :
      (key : String) (s : Coloring)
      → is_key by_key key ≡ true
      → (color_of key s.color == 0) ≡ true
      → whites by_key (paint key 1 s) < whites by_key s
  unfolding whites is_key
  whites-paint_lt key s k w = whites_painted_lt key 1 s by_key refl k w

  -- the visit of a step, from its targets' visits
  leave_step :
      (key : String) (s s' : Coloring)
      → whites by_key (paint key 1 s) < whites by_key s
      → Progress by_key (paint key 1 s) s'
      → (s'.cycle ≡ false → All (λ t. elem t (finished s'.color) ≡ true) (targets by_key key))
      → Progress by_key s (paint key 2 s')
  unfolding paint finished
  leave_step key s s' lt p done = record {
    fewer = omega (arith, p.fewer, lt, whites-paint key 2 s' refl);
    total = omega (arith, p.total, lt, whites-paint key 2 s' refl);
    latched = p.latched;
    kept = λ k h. elem-cons k key (finished s'.color) (p.kept k h);
    ordered = λ h t. (done h, p.ordered h t);
  }

  finished_left : (key : String) (s : Coloring) → elem key (finished (paint key 2 s).color) ≡ true
  unfolding finished paint
  finished_left key s = elem-cons_self key (finished s.color)

  visit_lem : (fuel : ℕ) → Visits by_key fuel (visit by_key fuel)
  unfolding visit targets
  visit_lem zero t s key white le = absurd (omega (arith, whites-paint_lt t s key white, le))
  visit_lem (suc fuel) t s key white le =
      let lt = whites-paint_lt t s key white in
      let (s', e, p, f) =
        visit_targets_lem fuel (visit by_key fuel) (visit_lem fuel) (adjacency by_key t)
          (paint t 1 s) (omega (arith, lt, le)) in
      (paint t 2 s', rw e refl, leave_step t s s' lt p f, λ h. finished_left t s')

  whites-uncolored : whites by_key uncolored ≤ length by_key
  unfolding whites
  whites-uncolored = count_where-le (λ entry. color_of entry.0 [] == 0) by_key

  -- the visit ends, and without a cycle it leaves an order of at most all steps, the start in it
  pub has_cycle_lem :
      (start : String)
      → is_key by_key start ≡ true
      → (cs : List (String × ℕ)) × (b : Bool) × (has_cycle by_key start ≡ some b)
        × (length (finished cs) ≤ length by_key)
        × (b ≡ false → elem start (finished cs) ≡ true)
        × (b ≡ false → IsTopological by_key (finished cs))
  unfolding has_cycle color_of finished
  has_cycle_lem start key =
      let (s, e, p, f) = visit_lem (length by_key) start uncolored key refl whites-uncolored in
      (
        s.color,
        s.cycle,
        rw (key, e) refl,
        omega (arith, p.total, whites-uncolored),
        f,
        λ h. p.ordered h tt,
      )

  -- behind a finished step stand its targets
  cut :
      (k : String) (ks : List String)
      → IsTopological by_key ks
      → elem k ks ≡ true
      → (rest : List String) × IsTopological by_key (k ∷ rest) × (length rest < length ks)
  cut k [] t h = absurd (cc h)
  cut k (j ∷ ks) t h = elim (elem-cons_cases k j ks h) [
    | inl e ↦ (ks, rw (← e) t, omega arith)
    | inr later ↦ let (rest, u, lt) = cut k ks t.1 later in (rest, u, omega arith)
  ]

  descend :
      (start : String) (order : List String)
      → IsTopological by_key order
      → elem start order ≡ true
      → {u : String} {n : ℕ} → Walk by_key start u n
      → (rest : List String) × IsTopological by_key (u ∷ rest) × (n + length rest < length order)
  descend start order t h at_start =
      let (rest, u, lt) = cut start order t h in (rest, u, omega arith)
  descend start order t h (along {u} {v} w e) =
      let (rest, top, lt) = descend start order t h w in
      let (rest', top', lt') =
        cut v rest top.1 (All-elem (λ i. elem i rest ≡ true) v (targets by_key u) top.0 e) in
      (rest', top', omega arith)

  -- If the visit finds no cycle, every walk from the start has fewer routes than there are steps.
  pub has_cycle-Walk :
      (start : String)
      → is_key by_key start ≡ true
      → has_cycle by_key start ≡ some false
      → {u : String} {n : ℕ} → Walk by_key start u n
      → n < length by_key
  has_cycle-Walk start key h w =
      let (cs, b, e, le, found, top) = has_cycle_lem start key in
      let no_cycle : b ≡ false = cc (e, h) in
      let (rest, _, lt) = descend start (finished cs) (top no_cycle) (found no_cycle) w in
      omega arith
