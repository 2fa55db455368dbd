-- ===== src/Soar/Graph/Walks.antt =====
-- soar/validation.py: the ways that an execution can take through the steps of a playbook.
use threat_scope_xdr.Prelude.{
  ℕ, zero, suc, String, ◌≡◌, refl, ◌⊎◌, inl, inr, Bool, true, List, [], ◌∷◌, ◌++◌, arith, str_eq,
  eq_iff, eq_refl, Bool-cases, select, All, elem,
}
use threat_scope_xdr.Soar.Graph.{Playbook, is_key, adjacency}

module _ (by_key : Playbook) where
  -- the steps that `key` leads to
  unfoldable pub targets : String → List String
  targets key = select (is_key by_key) (adjacency by_key key)

  -- a walk along so many routes
  pub data Walk (start : String) : String → ℕ → Type 0 where
    at_start : Walk start start zero
    along :
        {u v : String} {n : ℕ} → Walk start u n → elem v (targets u) ≡ true → Walk start v (suc n)

pub All-elem :
    (P : String → Type 0) (k : String) (ks : List String) → All P ks → elem k ks ≡ true → P k
All-elem P k [] a h = absurd (cc h)
All-elem P k (j ∷ ks) (first_one, others) h = elim (Bool-cases (str_eq j k)) [
  | inl e ↦ rw (← (eq_iff j k).0 e) first_one
  | inr e ↦ All-elem P k ks others (ground (arith, h, e))
]

pub elem-cons : (k j : String) (js : List String) → elem k js ≡ true → elem k (j ∷ js) ≡ true
elem-cons k j js h = ground arith

pub elem-cons_self : (k : String) (js : List String) → elem k (k ∷ js) ≡ true
elem-cons_self k js = rw (eq_refl k) refl

pub elem-cons_eq : (k j : String) (js : List String) → j ≡ k → elem k (j ∷ js) ≡ true
elem-cons_eq k j js e = rw ((eq_iff j k).1 e) refl

pub elem-cons_cases :
    (k j : String) (js : List String) → elem k (j ∷ js) ≡ true → (j ≡ k) ⊎ (elem k js ≡ true)
elem-cons_cases k j js h = elim (Bool-cases (str_eq j k)) [
  | inl e ↦ inl ((eq_iff j k).0 e)
  | inr e ↦ inr (ground (arith, h, e))
]

pub elem-append_left :
    (k : String) (ks ls : List String) → elem k ks ≡ true → elem k (ks ++ ls) ≡ true
elem-append_left k [] ls h = absurd (cc h)
elem-append_left k (j ∷ ks) ls h = ground (arith, elem-append_left k ks ls)

pub elem-append_right :
    (k : String) (ks ls : List String) → elem k ls ≡ true → elem k (ks ++ ls) ≡ true
elem-append_right k [] ls h = h
elem-append_right k (j ∷ ks) ls h = ground (arith, elem-append_right k ks ls)

pub elem-append_cases :
    (k : String) (ks ls : List String)
    → elem k (ks ++ ls) ≡ true
    → (elem k ks ≡ true) ⊎ (elem k ls ≡ true)
elem-append_cases k [] ls h = inr h
elem-append_cases k (j ∷ ks) ls h = elim (elem-cons_cases k j (ks ++ ls) h) [
  | inl e ↦ inl (elem-cons_eq k j ks e)
  | inr later ↦ elim (elem-append_cases k ks ls later) [
    | inl l ↦ inl (elem-cons k j ks l)
    | inr r ↦ inr r
  ]
]

pub All-intro :
    (P : String → Type 0) (ks : List String) → ((k : String) → elem k ks ≡ true → P k) → All P ks
All-intro P [] h = tt
All-intro P (k ∷ ks) h =
    (h k (elem-cons_self k ks), All-intro P ks (λ j e. h j (elem-cons j k ks e)))

pub elem-select :
    (p : String → Bool) (k : String) (ks : List String) → elem k (select p ks) ≡ true → p k ≡ true
elem-select p k [] h = absurd (cc h)
elem-select p k (j ∷ ks) h = ground (arith, eq_iff j k, elem-select p k ks)

pub targets-is_key :
    (by_key : Playbook) (u v : String) → elem v (targets by_key u) ≡ true → is_key by_key v ≡ true
unfolding targets
targets-is_key by_key u v h = elem-select (is_key by_key) v (adjacency by_key u) h
