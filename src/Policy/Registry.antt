-- ===== src/Policy/Registry.antt =====
-- What the policies that a fence gives out say of durability.
use wire_agent.Base.{String, ◌≡◌, ◌⊎◌, inl, inr, arith, decided_iff, Bool-cases, Option-cases}
use wire_agent.Base.Results.{ok}
use wire_agent.Base.Dict.{get}
use wire_agent.Risk.{RiskTier, private_reversible, public_reversible_engagement}
use wire_agent.Policy.{
  ReplaySemantics, safe_state_set, safe_target_delete, DurabilityPolicy-discrete, best_effort,
  EffectPolicy, derive_durability, validate_policy, EffectPolicyRegistry, policy_fence,
}

abbrev pub IsMild : RiskTier → Type 0
IsMild t = (t ≡ private_reversible) ⊎ (t ≡ public_reversible_engagement)

abbrev pub IsReplayable : ReplaySemantics → Type 0
IsReplayable r = (r ≡ safe_state_set) ⊎ (r ≡ safe_target_delete)

derived_best_effort :
    (t : RiskTier) (r : ReplaySemantics)
    → derive_durability t r ≡ best_effort
    → IsMild t × IsReplayable r
unfolding derive_durability
derived_best_effort t r h = ground arith

-- A fence gives out a policy of best effort only where the tier is one of the two mild ones and
-- the replay is safe, whatever was put into the registry.
pub fence_best_effort :
    (action : String) (r : EffectPolicyRegistry) (p : EffectPolicy)
    → policy_fence action r ≡ ok p
    → p.durability ≡ best_effort
    → IsMild p.risk_tier × IsReplayable p.replay_semantics
unfolding policy_fence validate_policy
fence_best_effort action r p h b = elim (Option-cases (get r action)) [
  | inl e ↦ absurd (ground (arith, e))
  | inr (q, e) ↦ elim (Bool-cases (validate_policy q)) [
    | inr v ↦ absurd (ground (arith, e, v))
    | inl v ↦
        let x : q ≡ p = ground (arith, e, v) in
        let d =
          (decided_iff (
            DurabilityPolicy-discrete q.durability
              (derive_durability q.risk_tier q.replay_semantics))) in
        derived_best_effort p.risk_tier p.replay_semantics (ground (arith, x, d, v, b))
  ]
]
