-- ===== src/Soar/Approvals/Counted.antt =====
-- soar/service.py: an approval is complete only with enough decisions of different users.
use threat_scope_xdr.Prelude.{
  ℕ, String, ◌≡◌, refl, inl, inr, true, Option, none, some, List, [], ◌∷◌, arith, leb, ◌==◌,
  Bool-cases, Option-cases, first, first-test, ==_iff,
}
use threat_scope_xdr.Access.Models.{UserAccount}
use threat_scope_xdr.Soar.Graph.{Playbook}
use threat_scope_xdr.Soar.Models.{
  StepRun, ApprovalStatus, is_open, Approval, Decision, approve, reject, Run,
}
use threat_scope_xdr.Soar.World.{World, Answer, left_by, log}
use threat_scope_xdr.Soar.Executions.{is_over}
use threat_scope_xdr.Soar.Executions.Allowed.{run_execution-Extends}
use threat_scope_xdr.Soar.Approvals.{
  refusal, approval_count, reject_run, approve_run, partly_approve_run, record_decision,
  apply_decision, answer_refusal, decide_approval, decide,
}
use threat_scope_xdr.Soar.Approvals.Rows.{All-first, undecided}
use threat_scope_xdr.Soar.Approvals.Counts.{
  has_enough, IsCounted, IsCounted-Extends, record_decision-IsCounted, set_approval-IsCounted,
  not_approved_enough, expired-IsCounted,
}

module _ (id minimum : ℕ) where
  module _ (w : World) (by_key : Playbook) (a : Approval) (s : StepRun) (actor : UserAccount)
      (r : Run) where
    reject_run-IsCounted : IsCounted id minimum r → IsCounted id minimum (reject_run w a actor r)
    unfolding reject_run log
    reject_run-IsCounted c =
        let x =
          set_approval-IsCounted id minimum a.id _ r (λ b. refl)
            (λ b e k.
              not_approved_enough id minimum ApprovalStatus.rejected (some w.now) b r.decisions refl
                k)
            c in
        record { there = x.there; enough = x.enough; once = x.once }

    partly_approve_run-IsCounted :
        IsCounted id minimum r → IsCounted id minimum (partly_approve_run a actor r)
    unfolding partly_approve_run log
    partly_approve_run-IsCounted c =
        let x =
          set_approval-IsCounted id minimum a.id _ r (λ b. refl)
            (λ b e k.
              not_approved_enough id minimum ApprovalStatus.partially_approved b.decided_at b
                r.decisions refl k)
            c in
        record { there = x.there; enough = x.enough; once = x.once }

    approve_run-IsCounted :
        leb minimum (approval_count id r.decisions) ≡ true
        → IsCounted id minimum r
        → IsCounted id minimum (approve_run w by_key a s actor r)
    unfolding approve_run log
    approve_run-IsCounted le c =
        let x =
          set_approval-IsCounted id minimum a.id
            (λ b. record b { status = ApprovalStatus.approved; decided_at = some w.now }) r
            (λ b. refl) (λ b e k. ground (arith, k, le)) c in
        record { there = x.there; enough = x.enough; once = x.once }

    apply_decision-IsCounted :
        (d : Decision)
        → a.id ≡ id
        → a.minimum_approvals ≡ minimum
        → IsCounted id minimum r
        → IsCounted id minimum (left_by (apply_decision w by_key a s actor d r))
    unfolding apply_decision
    apply_decision-IsCounted reject same m c = reject_run-IsCounted c
    apply_decision-IsCounted approve same m c =
        elim (Bool-cases (leb a.minimum_approvals (approval_count a.id r.decisions))) [
          | inl le ↦ rw le (
              IsCounted-Extends id minimum w actor (approve_run w by_key a s actor r) _
                (run_execution-Extends w actor by_key (approve_run w by_key a s actor r))
                (approve_run-IsCounted (at_row le) c))
          | inr gt ↦ rw gt (partly_approve_run-IsCounted c)
        ]
      where
        at_row :
            leb a.minimum_approvals (approval_count a.id r.decisions) ≡ true
            → leb minimum (approval_count id r.decisions) ≡ true
        at_row le = rw (← m, ← same) le

    answered-IsCounted :
        (o : Option (ℕ × String)) (next : Answer)
        → IsCounted id minimum r
        → (o ≡ none → IsCounted id minimum (left_by next))
        → IsCounted id minimum (left_by (answer_refusal r o next))
    unfolding answer_refusal
    answered-IsCounted none next c h = h refl
    answered-IsCounted (some (code, message)) next c h = c

  module _ (w : World) (by_key : Playbook) (s : StepRun) (actor : UserAccount) (d : Decision) where
    decide_approval-IsCounted :
        (a : Approval) (r : Run)
        → a.id ≡ id
        → a.minimum_approvals ≡ minimum
        → IsCounted id minimum r
        → IsCounted id minimum (left_by (decide_approval w by_key a s actor d r))
    unfolding decide_approval
    decide_approval-IsCounted a r same m c = elim (Bool-cases (is_open a.status)) [
      | inr shut ↦ rw shut c
      | inl still ↦ elim (Bool-cases (is_over w.now a.expires_at)) [
        | inl late ↦ rw (still, late) (expired-IsCounted id minimum a r c)
        | inr early ↦
            rw (still, early)
              (answered-IsCounted w by_key a s actor r (refusal w a actor r) _ c λ free.
                apply_decision-IsCounted w by_key a s actor (record_decision a actor d r) d same m (
                  record_decision-IsCounted id minimum a actor d r same (undecided w a actor r free)
                    c))
      ]
    ]

    decide-IsCounted :
        (r : Run)
        → IsCounted id minimum r
        → IsCounted id minimum (left_by (decide w by_key id s actor d r))
    unfolding decide
    decide-IsCounted r c = elim (Option-cases (first (λ a. a.id == id) r.approvals)) [
      | inl e ↦ rw (e, decide) c
      | inr (a, e) ↦
          let same = (==_iff a.id id).0 (first-test (λ b. b.id == id) r.approvals a e) in
          let fits =
            All-first (λ b. has_enough id minimum r.decisions b ≡ true) (λ b. b.id == id)
              r.approvals a c.enough e in
          rw (e, decide) (decide_approval-IsCounted a r same (has_minimum a r same fits) c)
    ]
      where
        has_minimum :
            (a : Approval) (r : Run)
            → a.id ≡ id
            → has_enough id minimum r.decisions a ≡ true
            → a.minimum_approvals ≡ minimum
        has_minimum a r same h = ground arith

-- the calls of `decide` for one approval, each by some user in some state of the platform
pub record Call : Type 0 where
  pub world : World
  pub step_run : StepRun
  pub user : UserAccount
  pub decision : Decision

unfoldable pub decide_all : Playbook → ℕ → List Call → Run → Run
decide_all by_key id [] r = r
decide_all by_key id (c ∷ cs) r =
    decide_all by_key id cs (left_by (decide c.world by_key id c.step_run c.user c.decision r))

-- Whatever users decide about an approval, it is approved only when at least its minimum of
-- approvals are recorded for it, and no user has more than one decision recorded for it.
pub decide_all-IsCounted :
    (by_key : Playbook) (id minimum : ℕ) (calls : List Call) (r : Run)
    → IsCounted id minimum r
    → IsCounted id minimum (decide_all by_key id calls r)
unfolding decide_all
decide_all-IsCounted by_key id minimum [] r c = c
decide_all-IsCounted by_key id minimum (k ∷ ks) r c =
    decide_all-IsCounted by_key id minimum ks
      (left_by (decide k.world by_key id k.step_run k.user k.decision r))
      (decide-IsCounted id minimum k.world by_key k.step_run k.user k.decision r c)
