-- ===== src/Soar/Approvals/Counts.antt =====
-- soar/service.py: the decisions of one approval, and the writes that keep their count.
use threat_scope_xdr.Prelude.{
  ℕ, ◌+◌, ◌≤◌, ◌<◌, ◌≡◌, refl, inl, inr, Bool, true, false, not, ◌&&◌, ◌||◌, Option, List, [], ◌∷◌,
  ◌++◌, arith, leb, ◌==◌, Bool-cases, count_where, any, All, next_id, count_where-append, ==_iff,
}
use threat_scope_xdr.Access.Models.{UserAccount}
use threat_scope_xdr.Soar.Models.{
  ApprovalStatus, is_approved, Approval, Decision, is_approve, ApprovalDecision, Run,
}
use threat_scope_xdr.Soar.World.{World}
use threat_scope_xdr.Soar.StepTypes.Effects.{Extends, IsFresh}
use threat_scope_xdr.Soar.Approvals.{set_approval, is_decision_of, approval_count, record_decision}
use threat_scope_xdr.Soar.Approvals.Rows.{
  All-update_where, All-mono, All-append_intro, next_id-update_where, next_id-append_le,
  no_decision,
}

-- `minimum` decisions of approval `id`, if the row is approved
abbrev pub has_enough : ℕ → ℕ → List ApprovalDecision → Approval → Bool
has_enough id minimum ds b =
    not (b.id == id)
    || (b.minimum_approvals == minimum
        && (not (is_approved b.status) || leb minimum (approval_count id ds)))

-- Approval `id` is there, it is approved only with `minimum` approvals, and no user decided twice.
pub record IsCounted (id minimum : ℕ) (r : Run) : Type 0 where
  pub there : id < next_id (λ b. b.id) r.approvals
  pub enough : All (λ b. has_enough id minimum r.decisions b ≡ true) r.approvals
  pub once : (user : ℕ) → count_where (is_decision_of id user) r.decisions ≤ 1

module _ (id minimum : ℕ) where
  pub fresh_enough :
      (xs more : List Approval) (ds : List ApprovalDecision)
      → id < next_id (λ b. b.id) xs
      → All (IsFresh xs) more
      → All (λ b. has_enough id minimum ds b ≡ true) more
  fresh_enough xs [] ds lt h = tt
  fresh_enough xs (b ∷ more) ds lt (one, others) =
      (other_id b (omega (arith, one.1)), fresh_enough xs more ds lt others)
    where
      other_id : (b : Approval) → id < b.id → has_enough id minimum ds b ≡ true
      other_id b lt' = ground arith

  pub IsCounted-Extends :
      (w : World) (actor : UserAccount) (r r' : Run)
      → Extends w actor r r'
      → IsCounted id minimum r
      → IsCounted id minimum r'
  IsCounted-Extends w actor r r' x c = record {
    there = rw x.approvals_lem (there' x.more);
    enough =
        rw (x.approvals_lem, x.decisions_lem)
          (All-append_intro (λ b. has_enough id minimum r.decisions b ≡ true) r.approvals x.more
            c.enough (fresh_enough r.approvals x.more r.decisions c.there x.fresh));
    once = λ user. rw x.decisions_lem (c.once user);
  }
    where
      there' : (more : List Approval) → id < next_id (λ b. b.id) (r.approvals ++ more)
      there' more = omega (arith, c.there, next_id-append_le r.approvals more)

  -- more decisions leave enough
  pub has_enough_mono :
      (a : Approval) (actor : UserAccount) (d : Decision) (r : Run) (b : Approval)
      → has_enough id minimum r.decisions b ≡ true
      → has_enough id minimum (record_decision a actor d r).decisions b ≡ true
  unfolding record_decision approval_count
  has_enough_mono a actor d r b h = ground (
    arith,
    h,
    count_where-append (λ e. e.approval_id == id && is_approve e.decision) r.decisions
        (record { approval_id = a.id; decision = d; decided_by_user_id = actor.id } ∷ []),
  )

  pub once_lem :
      (a : Approval) (actor : UserAccount) (d : Decision) (r : Run)
      → a.id ≡ id
      → any (is_decision_of a.id actor.id) r.decisions ≡ false
      → ((user : ℕ) → count_where (is_decision_of id user) r.decisions ≤ 1)
      → (user : ℕ)
      → count_where (is_decision_of id user) (record_decision a actor d r).decisions ≤ 1
  unfolding record_decision
  once_lem a actor d r same new once user = elim (Bool-cases (actor.id == user)) [
    | inl e ↦
        let counted =
          no_decision id user r.decisions (rw (← same, ← (==_iff actor.id user).0 e) new) in
        ground (arith, counted, split user)
    | inr e ↦ ground (arith, once user, e, split user)
  ]
    where
      split :
          (user : ℕ)
          → count_where (is_decision_of id user) (
              r.decisions
              ++ record { approval_id = a.id; decision = d; decided_by_user_id = actor.id } ∷ [])
            ≡ count_where (is_decision_of id user) r.decisions
              + count_where
                  (is_decision_of id user)
                  (record { approval_id = a.id; decision = d; decided_by_user_id = actor.id } ∷ [])
      split user =
          count_where-append (is_decision_of id user) r.decisions
            (record { approval_id = a.id; decision = d; decided_by_user_id = actor.id } ∷ [])

  pub record_decision-IsCounted :
      (a : Approval) (actor : UserAccount) (d : Decision) (r : Run)
      → a.id ≡ id
      → any (is_decision_of a.id actor.id) r.decisions ≡ false
      → IsCounted id minimum r
      → IsCounted id minimum (record_decision a actor d r)
  unfolding record_decision
  record_decision-IsCounted a actor d r same new c = record {
    there = c.there;
    enough =
        All-mono (λ b. has_enough id minimum r.decisions b ≡ true)
          (λ b. has_enough id minimum (record_decision a actor d r).decisions b ≡ true) r.approvals
          (has_enough_mono a actor d r) c.enough;
    once = once_lem a actor d r same new c.once;
  }

  pub set_approval-IsCounted :
      (aid : ℕ) (f : Approval → Approval) (r : Run)
      → ((b : Approval) → (f b).id ≡ b.id)
      → ((b : Approval)
          → (b.id == aid) ≡ true
          → has_enough id minimum r.decisions b ≡ true
          → has_enough id minimum r.decisions (f b) ≡ true)
      → IsCounted id minimum r
      → IsCounted id minimum (set_approval aid f r)
  set_approval-IsCounted aid f r same h c = record {
    there = rw (next_id-update_where (λ b. b.id == aid) f r.approvals same) c.there;
    enough =
        All-update_where (λ b. has_enough id minimum r.decisions b ≡ true)
          (λ b. has_enough id minimum r.decisions b ≡ true) (λ b. b.id == aid) f r.approvals h
          (λ b e k. k) c.enough;
    once = c.once;
  }

  pub not_approved_enough :
      (s : ApprovalStatus) (at : Option ℕ) (b : Approval) (ds : List ApprovalDecision)
      → is_approved s ≡ false
      → has_enough id minimum ds b ≡ true
      → has_enough id minimum ds (record b { status = s; decided_at = at }) ≡ true
  not_approved_enough s at b ds h k = ground arith

  pub expired-IsCounted :
      (a : Approval) (r : Run)
      → IsCounted id minimum r
      → IsCounted id minimum
          (set_approval a.id (λ b. record b { status = ApprovalStatus.expired }) r)
  expired-IsCounted a r c =
      set_approval-IsCounted a.id _ r (λ b. refl)
        (λ b e k. not_approved_enough ApprovalStatus.expired b.decided_at b r.decisions refl k) c
