-- ===== src/Soar/Graph/Reachable.antt =====
-- soar/validation.py: the worklist loop over the steps finds exactly those that a walk leads to.
use threat_scope_xdr.Prelude.{
  ℕ, zero, suc, ◌+◌, ◌*◌, ◌≤◌, ◌<◌, String, ◌≡◌, refl, sym, ap, ◌↔◌, ◌⊎◌, inl, inr, Bool, true,
  false, not, some, List, [], ◌∷◌, ◌++◌, arith, str_eq, eq_iff, is_some, Bool-cases, Option-cases,
  length, select, count_where, elem, length-append,
}
use threat_scope_xdr.Soar.Models.{Step}
use threat_scope_xdr.Soar.Graph.{
  Playbook, find_step, is_key, routes, adjacency, search_from, rounds, reachable_keys,
}
use threat_scope_xdr.Soar.Graph.Walks.{
  Walk, at_start, along, targets, elem-cons, elem-cons_self, elem-cons_eq, elem-cons_cases,
  elem-append_left, elem-append_right, elem-append_cases, targets-is_key,
}

length-routes : (s : Step) → length (routes s) ≤ 3
unfolding routes
length-routes s = ground arith

length-select-le : (p : String → Bool) (xs : List String) → length (select p xs) ≤ length xs
length-select-le p [] = omega arith
length-select-le p (x ∷ xs) = ground (arith, length-select-le p xs)

-- steps that were not taken up
unseen : Playbook → List String → ℕ
unseen by_key seen = count_where (λ entry. not (elem entry.0 seen)) by_key

unseen-cons :
    (m : Playbook) (key : String) (seen : List String) → unseen m (key ∷ seen) ≤ unseen m seen
unfolding unseen
unseen-cons [] key seen = omega arith
unseen-cons ((k, s) ∷ m) key seen = ground (arith, unseen-cons m key seen)

unseen-cons_lt :
    (m : Playbook) (key : String) (seen : List String)
    → is_some (find_step key m) ≡ true
    → elem key seen ≡ false
    → unseen m (key ∷ seen) < unseen m seen
unfolding unseen find_step
unseen-cons_lt [] key seen h k = absurd (cc h)
unseen-cons_lt ((j, s) ∷ m) key seen h k = elim (Bool-cases (str_eq j key)) [
  | inl e ↦
      let here = (eq_iff j key).0 e in
      ground
        (arith, unseen-cons m key seen, (eq_iff key j).1 (sym here), ap (λ i. elem i seen) here)
  | inr e ↦ ground (arith, eq_iff key j, eq_iff j key, unseen-cons_lt m key seen)
]

unseen-nil : (m : Playbook) → unseen m [] ≤ length m
unfolding unseen
unseen-nil [] = omega arith
unseen-nil (e ∷ m) = omega (arith, unseen-nil m)

module _ (by_key : Playbook) (start : String) where
  length-adjacency : (key : String) → length (adjacency by_key key) ≤ 3
  unfolding adjacency
  length-adjacency key = elim (Option-cases (find_step key by_key)) [
    | inl e ↦ rw e (omega arith)
    | inr (s, e) ↦ rw e (length-routes s)
  ]

  length-targets : (key : String) → length (targets by_key key) ≤ 3
  unfolding targets
  length-targets key =
      omega (arith, length-adjacency key, length-select-le (is_key by_key) (adjacency by_key key))

  -- a step that a walk leads to
  abbrev pub CanReach : String → Type 0
  CanReach v = (n : ℕ) × Walk by_key start v n

  -- the targets of what was taken up were taken up, or wait in the queue
  abbrev IsClosed : List String → List String → Type 0
  IsClosed reachable queue =
      (k t : String)
      → elem k reachable ≡ true
      → elem t (targets by_key k) ≡ true
      → (elem t reachable ≡ true) ⊎ (elem t queue ≡ true)

  abbrev AllReached : List String → Type 0
  AllReached ks = (k : String) → elem k ks ≡ true → CanReach k × (is_key by_key k ≡ true)

  record Found (reachable queue r : List String) : Type 0 where
    only : AllReached r
    closed : IsClosed r []
    kept : (k : String) → elem k reachable ≡ true → elem k r ≡ true
    queued : (k : String) → elem k queue ≡ true → elem k r ≡ true

  -- a key that was taken up before
  skipped :
      (key : String) (reachable queue : List String)
      → elem key reachable ≡ true
      → IsClosed reachable (key ∷ queue)
      → IsClosed reachable queue
  skipped key reachable queue seen closed k t h e = elim (closed k t h e) [
    | inl old ↦ inl old
    | inr waits ↦ elim (elem-cons_cases t key queue waits) [
      | inl same ↦ inl (rw (← same) seen)
      | inr other ↦ inr other
    ]
  ]

  taken :
      (key : String) (reachable queue : List String)
      → IsClosed reachable (key ∷ queue)
      → IsClosed (key ∷ reachable) (queue ++ targets by_key key)
  taken key reachable queue closed k t h e = elim (elem-cons_cases k key reachable h) [
    | inl same ↦ inr (elem-append_right t queue (targets by_key key) (rw same e))
    | inr old ↦ elim (closed k t old e) [
      | inl seen ↦ inl (elem-cons t key reachable seen)
      | inr waits ↦ elim (elem-cons_cases t key queue waits) [
        | inl now ↦ inl (elem-cons_eq t key reachable now)
        | inr other ↦ inr (elem-append_left t queue (targets by_key key) other)
      ]
    ]
  ]

  reached_target :
      (key t : String)
      → CanReach key
      → elem t (targets by_key key) ≡ true
      → CanReach t × (is_key by_key t ≡ true)
  reached_target key t (n, w) e = ((suc n, along w e), targets-is_key by_key key t e)

  AllReached-taken :
      (key : String) (queue : List String)
      → AllReached (key ∷ queue)
      → AllReached (queue ++ targets by_key key)
  AllReached-taken key queue h k e = elim (elem-append_cases k queue (targets by_key key) e) [
    | inl waits ↦ h k (elem-cons k key queue waits)
    | inr new ↦ reached_target key k (h key (elem-cons_self key queue)).0 new
  ]

  AllReached-cons :
      (key : String) (queue reachable : List String)
      → AllReached (key ∷ queue)
      → AllReached reachable
      → AllReached (key ∷ reachable)
  AllReached-cons key queue reachable h all_seen k e = elim (elem-cons_cases k key reachable e) [
    | inl same ↦ h k (elem-cons_eq k key queue same)
    | inr old ↦ all_seen k old
  ]

  fuel_left :
      (fuel : ℕ) (key : String) (reachable queue : List String)
      → length (key ∷ queue) + 3 * unseen by_key reachable ≤ suc fuel
      → is_key by_key key ≡ true
      → elem key reachable ≡ false
      → length (queue ++ targets by_key key) + 3 * unseen by_key (key ∷ reachable) ≤ fuel
  unfolding is_key
  fuel_left fuel key reachable queue le k new = omega (
    arith,
    length-append queue (targets by_key key),
    length-targets key,
    unseen-cons_lt by_key key reachable k new,
  )

  Found-skipped :
      (key : String) (reachable queue r : List String)
      → elem key reachable ≡ true
      → Found reachable queue r
      → Found reachable (key ∷ queue) r
  Found-skipped key reachable queue r old f = record {
    only = f.only;
    closed = f.closed;
    kept = f.kept;
    queued = λ k h. elim (elem-cons_cases k key queue h) [
      | inl same ↦ rw (← same) (f.kept key old)
      | inr other ↦ f.queued k other
    ];
  }

  Found-taken :
      (key : String) (reachable queue r : List String)
      → Found (key ∷ reachable) (queue ++ targets by_key key) r
      → Found reachable (key ∷ queue) r
  Found-taken key reachable queue r f = record {
    only = f.only;
    closed = f.closed;
    kept = λ k h. f.kept k (elem-cons k key reachable h);
    queued = λ k h. elim (elem-cons_cases k key queue h) [
      | inl same ↦ f.kept k (elem-cons_eq k key reachable same)
      | inr other ↦ f.queued k (elem-append_left k queue (targets by_key key) other)
    ];
  }

  search_from_lem :
      (fuel : ℕ) (reachable queue : List String)
      → length queue + 3 * unseen by_key reachable ≤ fuel
      → AllReached reachable
      → AllReached queue
      → IsClosed reachable queue
      → (r : List String) × (search_from by_key fuel reachable queue ≡ some r)
        × Found reachable queue r
  unfolding search_from targets
  search_from_lem fuel reachable [] le seen waits closed = (
    reachable,
    refl,
    record { only = seen; closed = closed; kept = λ k h. h; queued = λ k h. absurd (cc h) },
  )
  search_from_lem zero reachable (key ∷ queue) le seen waits closed = absurd (omega arith)
  search_from_lem (suc fuel) reachable (key ∷ queue) le seen waits closed =
      elim (Bool-cases (elem key reachable)) [
        | inl old ↦
            let (r, e, f) =
              search_from_lem fuel reachable queue (omega arith) seen
                (λ k h. waits k (elem-cons k key queue h))
                (skipped key reachable queue old closed) in
            (r, rw old e, Found-skipped key reachable queue r old f)
        | inr new ↦
            let (r, e, f) =
              search_from_lem fuel (key ∷ reachable) (queue ++ targets by_key key)
                (fuel_left fuel key reachable queue le (waits key (elem-cons_self key queue)).1 new)
                (AllReached-cons key queue reachable waits seen) (AllReached-taken key queue waits)
                (taken key reachable queue closed) in
            (r, rw new e, Found-taken key reachable queue r f)
      ]

  walks-Found :
      (queue r : List String)
      → Found [] queue r
      → elem start queue ≡ true
      → {v : String} {n : ℕ} → Walk by_key start v n
      → elem v r ≡ true
  walks-Found queue r f h at_start = f.queued start h
  walks-Found queue r f h (along {u} {v} w e) = elim (f.closed u v (walks-Found queue r f h w) e) [
    | inl found ↦ found
    | inr none_left ↦ absurd (cc none_left)
  ]

  start_reached : is_key by_key start ≡ true → AllReached (start ∷ [])
  start_reached key k h = elim (elem-cons_cases k start [] h) [
    | inl same ↦ rw (← same) ((0, at_start), key)
    | inr other ↦ absurd (cc other)
  ]

  -- The worklist loop ends, and finds exactly the steps that some walk from the start leads to.
  pub reachable_keys_iff :
      is_key by_key start ≡ true
      → (r : List String) × (reachable_keys by_key start ≡ some r)
        × ((v : String) → (elem v r ≡ true) ↔ CanReach v)
  unfolding reachable_keys
  reachable_keys_iff key =
      let (r, e, f) =
        search_from_lem (rounds by_key) [] (start ∷ []) (omega (arith, unseen-nil by_key))
          (λ k h. absurd (cc h)) (start_reached key) (λ k t h. absurd (cc h)) in
      (
        r,
        rw key e,
        λ v. (
          λ h. (f.only v h).0,
          λ (n, w). walks-Found (start ∷ []) r f (elem-cons_self start []) w,
        ),
      )
