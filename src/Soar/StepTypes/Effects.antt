-- ===== src/Soar/StepTypes/Effects.antt =====
-- soar/service.py: which calls of an action's own code a step makes.
use threat_scope_xdr.Prelude.{
  ℕ, ◌≤◌, String, ◌≡◌, refl, sym, ◌∙◌, inl, inr, Bool, true, false, not, ◌&&◌, ◌||◌, Option, none,
  some, List, [], ◌∷◌, ◌++◌, arith, ◌==◌, Option-cases, any, All, next_id, elem, any-append,
}
use mathlib.Core.List.{append-nil, append_assoc}
use threat_scope_xdr.Access.Models.{UserAccount}
use threat_scope_xdr.Access.Roles.{effective_permissions}
use threat_scope_xdr.Soar.Models.{
  same_mode, is_sensitive, is_read_only, StepRun, is_approved, Approval, Effect, Run,
}
use threat_scope_xdr.Soar.World.{World, log}
use threat_scope_xdr.Soar.StepRuns.{fail, step_failed, last_running, latest_approval}
use threat_scope_xdr.Soar.StepTypes.{is_enabled, is_dry_run}

-- an approved approval of the step
abbrev pub approves : ℕ → Approval → Bool
approves step_id a = is_approved a.status && a.step_execution_id == step_id

pub latest_approval-approves :
    (id : ℕ) (xs : List Approval) (a : Approval)
    → latest_approval id xs ≡ some a
    → is_approved a.status ≡ true
    → any (approves id) xs ≡ true
unfolding latest_approval
latest_approval-approves id [] a h k = absurd (cc h)
latest_approval-approves id (b ∷ xs) a h k = elim (Option-cases (latest_approval id xs)) [
  | inl e ↦ ground (arith, e)
  | inr (c, e) ↦ ground (arith, e, latest_approval-approves id xs c e)
]

-- an approval that was not there, and that no one has decided
abbrev pub IsFresh : List Approval → Approval → Type 0
IsFresh xs a = (is_approved a.status ≡ false) × (next_id (λ b. b.id) xs ≤ a.id)

pub next_id-append :
    (xs ys : List Approval) → next_id (λ b. b.id) xs ≤ next_id (λ b. b.id) (xs ++ ys)
next_id-append [] [] = omega arith
next_id-append [] (y ∷ ys) = omega arith
next_id-append (x ∷ xs) ys = omega (arith, next_id-append xs ys)

pub next_id_grows :
    (r s : Run) (more : List Approval)
    → s.approvals ≡ r.approvals ++ more
    → next_id (λ b. b.id) r.approvals ≤ next_id (λ b. b.id) s.approvals
next_id_grows r s more h = rw h (next_id-append r.approvals more)

pub All-IsFresh-mono :
    (xs ys more : List Approval)
    → next_id (λ b. b.id) ys ≤ next_id (λ b. b.id) xs
    → All (IsFresh xs) more
    → All (IsFresh ys) more
All-IsFresh-mono xs ys [] le h = tt
All-IsFresh-mono xs ys (a ∷ more) le (one, others) =
    ((one.0, omega arith), All-IsFresh-mono xs ys more le others)

pub IsFresh-append :
    (xs more even_more : List Approval)
    → All (IsFresh xs) more
    → All (IsFresh xs) even_more
    → All (IsFresh xs) (more ++ even_more)
IsFresh-append xs [] even_more h k = k
IsFresh-append xs (a ∷ more) even_more (one, others) k =
    (one, IsFresh-append xs more even_more others k)

pub not-false : (b : Bool) → not b ≡ false → b ≡ true
not-false true h = refl
not-false false h = absurd (cc h)

pub not_dry : (a b : Bool) → (a && not b) ≡ false → b ≡ false → a ≡ false
not_dry a b h k = ground arith

pub or_right : (a : Bool) {b : Bool} → b ≡ true → (not a || b) ≡ true
or_right a h = ground arith

pub or_left : {a : Bool} (b : Bool) → a ≡ false → (not a || b) ≡ true
or_left b h = ground arith

module _ (w : World) (actor : UserAccount) where
  -- An effect that may be: of an action that is no simulation and reads not only, outside a dry
  -- run, which is enabled, allowed in the mode and permitted to the actor, and approved for this
  -- step if it is sensitive.
  pub record IsAllowed (approvals : List Approval) (e : Effect) : Type 0 where
    pub not_simulated : e.action.simulated ≡ false
    pub not_read_only : is_read_only e.action.safety ≡ false
    pub not_dry_run : is_dry_run e.mode ≡ false
    pub is_on : is_enabled w.policies e.action.action_key ≡ true
    pub has_mode : any (same_mode e.mode) e.action.allowed_modes ≡ true
    pub is_permitted :
        elem e.action.required_permission (effective_permissions actor w.tables) ≡ true
    pub was_approved :
        (not (is_sensitive e.action.safety) || any (approves e.step_execution_id) approvals) ≡ true

  -- Nothing but allowed effects and approvals that no one has decided is new.
  pub record Extends (r r' : Run) : Type 0 where
    pub added : List Effect
    pub effects_lem : r'.effects ≡ r.effects ++ added
    pub allowed : All (IsAllowed r'.approvals) added
    pub more : List Approval
    pub approvals_lem : r'.approvals ≡ r.approvals ++ more
    pub fresh : All (IsFresh r.approvals) more
    pub decisions_lem : r'.decisions ≡ r.decisions

  pub Extends-same :
      (r r' : Run)
      → r'.effects ≡ r.effects
      → r'.approvals ≡ r.approvals
      → r'.decisions ≡ r.decisions
      → Extends r r'
  Extends-same r r' e a d = record {
    added = [];
    effects_lem = e ∙ sym (append-nil r.effects);
    allowed = tt;
    more = [];
    approvals_lem = a ∙ sym (append-nil r.approvals);
    fresh = tt;
    decisions_lem = d;
  }

  pub IsAllowed-mono :
      (xs ys : List Approval) (e : Effect)
      → ((id : ℕ) → any (approves id) xs ≡ true → any (approves id) ys ≡ true)
      → IsAllowed xs e
      → IsAllowed ys e
  IsAllowed-mono xs ys e h ok = record {
    not_simulated = ok.not_simulated;
    not_read_only = ok.not_read_only;
    not_dry_run = ok.not_dry_run;
    is_on = ok.is_on;
    has_mode = ok.has_mode;
    is_permitted = ok.is_permitted;
    was_approved = ground (arith, ok.was_approved, h e.step_execution_id);
  }

  pub All-IsAllowed-mono :
      (xs ys : List Approval) (es : List Effect)
      → ((id : ℕ) → any (approves id) xs ≡ true → any (approves id) ys ≡ true)
      → All (IsAllowed xs) es
      → All (IsAllowed ys) es
  All-IsAllowed-mono xs ys [] h ok = tt
  All-IsAllowed-mono xs ys (e ∷ es) h (one, others) =
      (IsAllowed-mono xs ys e h one, All-IsAllowed-mono xs ys es h others)

  pub All-append :
      (xs : List Approval) (es fs : List Effect)
      → All (IsAllowed xs) es
      → All (IsAllowed xs) fs
      → All (IsAllowed xs) (es ++ fs)
  All-append xs [] fs h k = k
  All-append xs (e ∷ es) fs (one, others) k = (one, All-append xs es fs others k)

  pub Extends-trans : (r s t : Run) → Extends r s → Extends s t → Extends r t
  Extends-trans r s t x y = record {
    added = x.added ++ y.added;
    effects_lem = rw (y.effects_lem, x.effects_lem) (append_assoc r.effects x.added y.added);
    allowed =
        All-append t.approvals x.added y.added
          (All-IsAllowed-mono s.approvals t.approvals x.added
            (λ id h. rw (y.approvals_lem, any-append (approves id) s.approvals y.more, h) refl)
            x.allowed)
          y.allowed;
    more = x.more ++ y.more;
    approvals_lem = rw (y.approvals_lem, x.approvals_lem) (append_assoc r.approvals x.more y.more);
    fresh = IsFresh-append r.approvals x.more y.more x.fresh (
        All-IsFresh-mono s.approvals r.approvals y.more (next_id_grows r s x.more x.approvals_lem)
          y.fresh);
    decisions_lem = y.decisions_lem ∙ x.decisions_lem;
  }

  pub log-Extends : (t : String) (n : ℕ) (i : Option ℕ) (r : Run) → Extends r (log t n i r)
  unfolding log
  log-Extends t n i r = Extends-same r (log t n i r) refl refl refl

  pub fail-Extends : (n : ℕ) (code message : String) (r : Run) → Extends r (fail w n code message r)
  unfolding fail
  fail-Extends n code message r =
      Extends-same r (fail w n code message r) (failed_effects (last_running r.step_runs))
        (failed_approvals (last_running r.step_runs)) (failed_decisions (last_running r.step_runs))
    where
      failed_effects : (o : Option StepRun) → (step_failed w code o r).effects ≡ r.effects
      failed_effects none = refl
      failed_effects (some s) = refl

      failed_approvals : (o : Option StepRun) → (step_failed w code o r).approvals ≡ r.approvals
      failed_approvals none = refl
      failed_approvals (some s) = refl

      failed_decisions : (o : Option StepRun) → (step_failed w code o r).decisions ≡ r.decisions
      failed_decisions none = refl
      failed_decisions (some s) = refl
