-- ===== src/Soar/Approvals/Rows.antt =====
-- soar/service.py: the rows of approvals under the updates of decide_approval, and its refusals.
use threat_scope_xdr.Prelude.{
  ℕ, ◌≤◌, ◌≡◌, refl, inl, inr, Bool, true, false, not, ◌&&◌, ◌||◌, Option, none, some, List, [],
  ◌∷◌, ◌++◌, arith, ◌==◌, if◌then◌else◌, Bool-cases, first, count_where, update_where, any, All,
  next_id,
}
use threat_scope_xdr.Access.Models.{UserAccount, is_active}
use threat_scope_xdr.Soar.Models.{Approval, ApprovalDecision, Run}
use threat_scope_xdr.Soar.World.{World}
use threat_scope_xdr.Soar.Graph.Valid.{some_injective}
use threat_scope_xdr.Soar.Approvals.{
  is_decision_of, refusal, may_decide, has_other_approver, is_locked_at, is_other,
}

pub All-update_where {ℓ} :
    {A : Type ℓ} (P Q : A → Type 0) (q : A → Bool) (f : A → A) (xs : List A)
    → ((x : A) → q x ≡ true → P x → Q (f x))
    → ((x : A) → q x ≡ false → P x → Q x)
    → All P xs
    → All Q (update_where q f xs)
All-update_where P Q q f [] h k a = tt
All-update_where P Q q f (x ∷ xs) h k (one, others) = elim (Bool-cases (q x)) [
  | inl e ↦ rw e (h x e one, All-update_where P Q q f xs h k others)
  | inr e ↦ rw e (k x e one, All-update_where P Q q f xs h k others)
]

pub All-mono {ℓ} :
    {A : Type ℓ} (P Q : A → Type 0) (xs : List A) → ((x : A) → P x → Q x) → All P xs → All Q xs
All-mono P Q [] h a = tt
All-mono P Q (x ∷ xs) h (one, others) = (h x one, All-mono P Q xs h others)

pub All-append_intro {ℓ} :
    {A : Type ℓ} (P : A → Type 0) (xs ys : List A) → All P xs → All P ys → All P (xs ++ ys)
All-append_intro P [] ys h k = k
All-append_intro P (x ∷ xs) ys (one, others) k = (one, All-append_intro P xs ys others k)

pub All-first :
    {A : Type 0} (P : A → Type 0) (p : A → Bool) (xs : List A) (x : A)
    → All P xs
    → first p xs ≡ some x
    → P x
All-first P p [] x h e = absurd (cc e)
All-first P p (y ∷ xs) x (one, others) e = elim (Bool-cases (p y)) [
  | inl t ↦ rw (← some_injective (rw t at e)) one
  | inr f ↦ All-first P p xs x others (rw f at e)
]

pub next_id-update_where :
    (q : Approval → Bool) (f : Approval → Approval) (xs : List Approval)
    → ((x : Approval) → (f x).id ≡ x.id)
    → next_id (λ b. b.id) (update_where q f xs) ≡ next_id (λ b. b.id) xs
next_id-update_where q f [] h = refl
next_id-update_where q f (x ∷ xs) h = elim (Bool-cases (q x)) [
  | inl e ↦ rw (e, h x, next_id-update_where q f xs h) refl
  | inr e ↦ rw (e, next_id-update_where q f xs h) refl
]

pub next_id-append_le :
    (xs ys : List Approval) → next_id (λ b. b.id) xs ≤ next_id (λ b. b.id) (xs ++ ys)
next_id-append_le [] [] = omega arith
next_id-append_le [] (y ∷ ys) = omega arith
next_id-append_le (x ∷ xs) ys = omega (arith, next_id-append_le xs ys)

pub no_decision :
    (id user : ℕ) (ds : List ApprovalDecision)
    → any (is_decision_of id user) ds ≡ false
    → count_where (is_decision_of id user) ds ≡ 0
no_decision id user [] h = refl
no_decision id user (d ∷ ds) h = ground (arith, no_decision id user ds)

pub skip_if :
    {A : Type 0} (b : Bool) (x : A) (o : Option A)
    → (if b then some x else o) ≡ none
    → (b ≡ false) × (o ≡ none)
skip_if true x o h = absurd (cc h)
skip_if false x o h = (refl, h)

-- an approval that no one refuses is one that the user did not decide
pub undecided :
    (w : World) (a : Approval) (actor : UserAccount) (r : Run)
    → refusal w a actor r ≡ none
    → any (is_decision_of a.id actor.id) r.decisions ≡ false
unfolding refusal
undecided w a actor r h =
    let (_, h1) = skip_if (not (may_decide w a actor)) _ _ h in
    let (_, h2) =
      skip_if (not (is_active actor.status) || is_locked_at w.now actor.locked_until) _ _ h1 in
    let (_, h3) = skip_if (is_other a.assigned_to_user_id actor.id) _ _ h2 in
    let (_, h4) =
      skip_if
        (a.separation_required && a.requester_user_id == actor.id && has_other_approver w a actor) _
        _ h3 in
    (skip_if (any (is_decision_of a.id actor.id) r.decisions) _ none h4).0
