-- ===== src/Approval/Examples.antt =====
-- The theorems on approvals and attempts at concrete calls.
use wire_agent.Base.{
  ◌≤◌, ◌↔◌, ◌≢◌, String, true, false, ◌≡◌, refl, eq_iff, Option, none, some, [], ◌∷◌,
}
use wire_agent.Approval.Grant.{
  GrantState, active, spent, ApprovalGrant, Presented, spend_if_live, claim, validate_live,
  refresh_state, check_state, check_bindings, take_claim, is_expired,
}
use wire_agent.Approval.Grant.Live.{IsLive, spend_if_live-IsLive}
use wire_agent.Approval.Grant.Spend.{
  validating, spending_if_live, spending, run, spends, spends-le-one,
}
use wire_agent.Approval.Grant.Claim.{admits, claim-IsLive, claim_excludes}
use wire_agent.Approval.Attempt.{AttemptState, preparing, EffectAttempt}
use wire_agent.Approval.Attempt.Life.{
  Move, beginning, closing_clean, reserving, losing, on_grant, IsClean, mark_no_effect-IsClean,
  attempt_final, IsCommitted, run-IsCommitted,
}
use wire_agent.Approval.Attempt.Life as Life

abbrev approval : GrantState → Option String → ApprovalGrant
approval s holder = record {
  intent_hash = "i1";
  actor_id = "a1";
  action_type = "post";
  target_type = "";
  target_id = "";
  policy_binding = "p1";
  authorization_epoch = 3;
  grant_id = "g1";
  issued_at = 0;
  expires_at = 100;
  max_precommit_attempts = 3;
  state = s;
  claimed_by = holder;
  precommit_attempts = 0;
  approver = "human";
}

abbrev presented : Presented
presented = record {
  intent_hash = "i1";
  actor_id = "a1";
  policy_binding = "p1";
  authorization_epoch = 3;
}

abbrev attempt : AttemptState → EffectAttempt
attempt s = record {
  grant_id = "g1";
  attempt_id = "x1";
  effect_id = "e1";
  state = s;
  reservation_started = false;
}

spend_if_live-IsLive_example :
    (((spend_if_live presented 40 (approval active none)).0 ≡ none)
      ↔ IsLive presented 40 (approval active none))
    × (IsLive presented 40 (approval active none)
        → (spend_if_live presented 40 (approval active none)).1 ≡ approval spent none)
spend_if_live-IsLive_example = spend_if_live-IsLive presented 40 (approval active none)

spends-le-one_example :
    spends (spending_if_live presented 40 ∷ (spending ∷ (spending ∷ []))) (approval active none) ≤ 1
spends-le-one_example =
    spends-le-one (spending_if_live presented 40 ∷ (spending ∷ (spending ∷ [])))
      (approval active none)

claim-IsLive_example :
    (((claim "x2" presented 40 (approval active (some "x1"))).0 ≡ none) ↔ (
      IsLive presented 40 (approval active (some "x1"))
      × (admits "x2" (approval active (some "x1")) ≡ true)))
    × (((claim "x2" presented 40 (approval active (some "x1"))).0 ≡ none)
        → (claim "x2" presented 40 (approval active (some "x1"))).1 ≡ approval active (some "x2"))
claim-IsLive_example = claim-IsLive "x2" presented 40 (approval active (some "x1"))

claim_excludes_example :
    (claim "x2" presented 45
      (run (validating presented 41 ∷ []) (claim "x1" presented 40 (approval active none)).1)).0
    ≢ none
unfolding claim validate_live refresh_state check_state check_bindings take_claim is_expired
claim_excludes_example =
    claim_excludes "x1" "x2" presented presented 40 45 (approval active none)
      (validating presented 41 ∷ []) refl (refl, tt) (λ e. cc ((eq_iff "x1" "x2").1 e))

abbrev begun : EffectAttempt
begun = record (attempt preparing) { reservation_started = true }

run-IsCommitted_example :
    IsCommitted "x1"
      (Life.run (closing_clean ∷ (reserving ∷ [])) (approval active (some "x1")) begun).0
      (Life.run (closing_clean ∷ (reserving ∷ [])) (approval active (some "x1")) begun).1
run-IsCommitted_example =
    run-IsCommitted "x1" (closing_clean ∷ (reserving ∷ [])) (approval active (some "x1")) begun
      (refl, (refl, tt)) (record { attempt_id = refl; started = refl; holder = refl })
