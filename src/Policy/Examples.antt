-- ===== src/Policy/Examples.antt =====
-- The theorem on the policy registry at one registered policy.
use wire_agent.Base.{refl, [], ◌∷◌}
use wire_agent.Base.Dict.{get}
use wire_agent.Risk.{private_reversible}
use wire_agent.Policy.{
  EffectPolicy, best_effort, safe_state_set, set_bookmark, clear_bookmark, policy_fence,
  validate_policy, derive_durability, DurabilityPolicy-discrete,
}
use wire_agent.Policy.Registry.{IsMild, IsReplayable, fence_best_effort}

abbrev bookmark : EffectPolicy
bookmark = record {
  action_type = "bookmark";
  risk_tier = private_reversible;
  allowed_effects = set_bookmark ∷ (clear_bookmark ∷ []);
  replay_semantics = safe_state_set;
  durability = best_effort;
  preparation_effects = [];
  schema_version = 2;
}

fence_best_effort_example : IsMild private_reversible × IsReplayable safe_state_set
unfolding policy_fence get validate_policy derive_durability DurabilityPolicy-discrete
fence_best_effort_example =
    fence_best_effort "bookmark" (("bookmark", bookmark) ∷ []) bookmark refl refl
