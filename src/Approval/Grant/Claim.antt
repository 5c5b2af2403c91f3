-- ===== src/Approval/Grant/Claim.antt =====
-- Who holds the claim on an approval, and how many attempts an approval admits.
use wire_agent.Base.{
  ℕ, ◌≤◌, String, Bool, true, false, ◌≡◌, ◌∙◌, ap, ◌↔◌, inl, inr, none, some, List, [], ◌∷◌, ◌==◌,
  eq_iff, ltb, leb, arith, Option-cases, ◌≢◌, All, opt_eq_iff,
}
use wire_agent.Approval.Grant.{
  ApprovalGrant, Presented, validate_live, spend_if_live, take_claim, claim, release_claim, spend,
  revoke,
}
use wire_agent.Approval.Grant.Live.{
  IsLive, validate_live_frame, validate_live_accepts, validate_live-IsLive,
}
use wire_agent.Approval.Grant.Spend.{
  Operation, validating, spending_if_live, claiming, releasing, spending, revoking, step, run,
}

-- The claim is free for the attempt, or already its own.
abbrev pub admits : String → ApprovalGrant → Bool
admits a g = elim g.claimed_by [
  | none ↦ ltb g.precommit_attempts g.max_precommit_attempts
  | some holder ↦ holder == a
]

take_claim_iff :
    (a : String) (g : ApprovalGrant)
    → (((take_claim a g).0 ≡ none) ↔ (admits a g ≡ true))
      × (((take_claim a g).0 ≡ none) → (take_claim a g).1 ≡ record g { claimed_by = some a })
      × (((take_claim a g).0 ≢ none) → (take_claim a g).1 ≡ g)
unfolding take_claim
take_claim_iff a g = elim (Option-cases g.claimed_by) [
  | inl e ↦ ground (arith, e)
  | inr (h, e) ↦ ground (arith, e)
]

module _ (a : String) (b : Presented) (now : ℕ) (g : ApprovalGrant) where
  claim_live : IsLive b now g → claim a b now g ≡ take_claim a g
  unfolding claim
  claim_live l =
      rw (claim, validate_live_accepts b now g l)
        (ap (λ x. take_claim a x.1) (validate_live_accepts b now g l))

  claim_dead :
      ((validate_live b now g).0 ≢ none)
      → ((claim a b now g).0 ≢ none) × ((claim a b now g).1 ≡ (validate_live b now g).1)
  unfolding claim
  claim_dead n = elim (Option-cases (validate_live b now g).0) [
    | inl e ↦ absurd (n e)
    | inr (x, e) ↦ ground (arith, e)
  ]

  -- claim succeeds exactly on a live approval whose claim is the attempt's own, or is free with a
  -- try left, and then nothing but the holder changes.
  pub claim-IsLive :
      (((claim a b now g).0 ≡ none) ↔ (IsLive b now g × (admits a g ≡ true)))
      × (((claim a b now g).0 ≡ none) → (claim a b now g).1 ≡ record g { claimed_by = some a })
  claim-IsLive = elim (Option-cases (validate_live b now g).0) [
    | inl e ↦
        let l = (validate_live-IsLive b now g).0 e in
        rw (claim_live l) (
          (λ h. (l, (take_claim_iff a g).0.0 h), λ h. (take_claim_iff a g).0.1 h.1),
          (take_claim_iff a g).1,
        )
    | inr (x, e) ↦
        let d = claim_dead (ground (arith, e)) in
        (
          (
            λ h. absurd (d.0 h),
            λ h. absurd (ground (arith, (validate_live-IsLive b now g).1 h.0, e)),
          ),
          λ h. absurd (d.0 h),
        )
  ]

  claim_frame :
      ((claim a b now g).0 ≢ none)
      → (claim a b now g).1 ≡ record g { state = (claim a b now g).1.state }
  claim_frame n = elim (Option-cases (validate_live b now g).0) [
    | inl e ↦
        let l = (validate_live-IsLive b now g).0 e in
        let n' : (take_claim a g).0 ≢ none = λ z. n (ap (λ x. x.0) (claim_live l) ∙ z) in
        let k = (take_claim_iff a g).2 n' in ground (arith, claim_live l, k)
    | inr (x, e) ↦
        let d = claim_dead (ground (arith, e)) in ground (arith, d, validate_live_frame b now g)
  ]

-- The tries that are used, and the one that a holder may still use up, are within the budget.
abbrev pub within : ApprovalGrant → Bool
within g = elim g.claimed_by [
  | none ↦ leb g.precommit_attempts g.max_precommit_attempts
  | some holder ↦ ltb g.precommit_attempts g.max_precommit_attempts
]

-- The operation gives the claim of the attempt back.
abbrev pub releases : String → Operation → Bool
releases a (validating b now) = false
releases a (spending_if_live b now) = false
releases a (claiming c b now) = false
releases a (releasing c) = c == a
releases a spending = false
releases a revoking = false

-- What an operation may do to the claim and the budget.
module _ (g : ApprovalGrant) where
  claim-within :
      (a : String) (b : Presented) (now : ℕ) → within g ≡ true → within (claim a b now g).1 ≡ true
  claim-within a b now w = elim (Option-cases (claim a b now g).0) [
    | inl e ↦
        let k = (claim-IsLive a b now g).1 e in
        let h = ((claim-IsLive a b now g).0.0 e).1 in ground (arith, k, h)
    | inr (x, e) ↦ ground (arith, claim_frame a b now g (ground (arith, e)))
  ]

  step-within : (o : Operation) → within g ≡ true → within (step o g).1 ≡ true
  unfolding step spend_if_live release_claim spend revoke
  step-within (validating b now) w = ground (arith, validate_live_frame b now g)
  step-within (spending_if_live b now) w = ground (arith, validate_live_frame b now g)
  step-within (claiming a b now) w = ground (arith, claim-within a b now w)
  step-within (releasing a) w = ground (arith, opt_eq_iff g.claimed_by (some a))
  step-within spending w = ground arith
  step-within revoking w = ground arith

  pub step_holder :
      (a : String) (o : Operation)
      → g.claimed_by ≡ some a
      → releases a o ≡ false
      → (step o g).1.claimed_by ≡ some a
  unfolding step spend_if_live release_claim spend revoke
  step_holder a (validating b now) h r = ground (arith, validate_live_frame b now g)
  step_holder a (spending_if_live b now) h r = ground (arith, validate_live_frame b now g)
  step_holder a (claiming c b now) h r = elim (Option-cases (claim c b now g).0) [
    | inl e ↦
        let k = (claim-IsLive c b now g).1 e in
        let m = ((claim-IsLive c b now g).0.0 e).1 in ground (arith, k, m, eq_iff a c)
    | inr (x, e) ↦ ground (arith, claim_frame c b now g (ground (arith, e)))
  ]
  step_holder a (releasing c) h r =
      ground (arith, opt_eq_iff g.claimed_by (some c), eq_iff c a, eq_iff a c)
  step_holder a spending h r = ground arith
  step_holder a revoking h r = ground arith

run-within : (os : List Operation) (g : ApprovalGrant) → within g ≡ true → within (run os g) ≡ true
unfolding run
run-within [] g w = w
run-within (o ∷ os) g w = run-within os (step o g).1 (step-within g o w)

run_holder :
    (a : String) (os : List Operation) (g : ApprovalGrant)
    → g.claimed_by ≡ some a
    → All (λ o. releases a o ≡ false) os
    → (run os g).claimed_by ≡ some a
unfolding run
run_holder a [] g h r = h
run_holder a (o ∷ os) g h r = run_holder a os (step o g).1 (step_holder g a o h r.0) r.1

-- After an attempt has claimed an approval, no other attempt can claim it before the holder's
-- claim is released by release_claim, whatever else is called on the approval.
pub claim_excludes :
    (a c : String) (b d : Presented) (now later : ℕ) (g : ApprovalGrant) (os : List Operation)
    → (claim a b now g).0 ≡ none
    → All (λ o. releases a o ≡ false) os
    → a ≢ c
    → (claim c d later (run os (claim a b now g).1)).0 ≢ none
claim_excludes a c b d now later g os h r n z =
    let k : (claim a b now g).1.claimed_by ≡ some a =
      ground (arith, (claim-IsLive a b now g).1 h) in
    let e = run_holder a os (claim a b now g).1 k r in
    let m = ((claim-IsLive c d later (run os (claim a b now g).1)).0.0 z).1 in
    n (ground (arith, e, m, eq_iff a c))

-- Starting unclaimed with no try used, an approval never counts more tries than its maximum,
-- whatever the calls.
pub run-attempts :
    (os : List Operation) (g : ApprovalGrant)
    → g.claimed_by ≡ none
    → g.precommit_attempts ≡ 0
    → (run os g).precommit_attempts ≤ (run os g).max_precommit_attempts
run-attempts os g c z = elim (Option-cases (run os g).claimed_by) [
  | inl e ↦ ground (arith, e, run-within os g (ground arith))
  | inr (x, e) ↦ ground (arith, e, run-within os g (ground arith))
]
