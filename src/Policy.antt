-- ===== src/Policy.antt =====
-- src/webwire/safety/effect_policy.py: which effects an action may cause, and whether its commit
-- needs a durable reservation. A frozen set is the list of its elements.
pub mod Registry
mod Examples
use wire_agent.Base.{
  String, Bool, true, false, not, ◌&&◌, ◌||◌, ◌≡◌, Option, none, some, List, [], ◌∷◌, ◌==◌, ℕ,
  if◌then◌else◌, decided,
}
use wire_agent.Base.Results.{Result, ok, err}
use wire_agent.Base.Dict.{Dict, get, put}
use wire_agent.Risk.{
  RiskTier, private_reversible, public_reversible_engagement, public_amplifying_reversible,
  public_content_irreversible,
}

pub data ReplaySemantics : Type 0 where
  safe_state_set safe_target_delete non_idempotent_create : ReplaySemantics
  replay_has_residual_effects unknown : ReplaySemantics

pub data DurabilityPolicy : Type 0 where
  required best_effort : DurabilityPolicy

unfoldable pub DurabilityPolicy-discrete : Discrete DurabilityPolicy
DurabilityPolicy-discrete = hlevel

pub data PreparationVerb : Type 0 where
  open_composer fill_composer attach_media : PreparationVerb

pub data EffectVerb : Type 0 where
  set_bookmark clear_bookmark set_like clear_like follow unfollow : EffectVerb
  repost unrepost submit_content delete_post : EffectVerb

-- The value of the enumeration.
abbrev pub verb_text : EffectVerb → String
verb_text set_bookmark = "set_bookmark"
verb_text clear_bookmark = "clear_bookmark"
verb_text set_like = "set_like"
verb_text clear_like = "clear_like"
verb_text follow = "follow"
verb_text unfollow = "unfollow"
verb_text repost = "repost"
verb_text unrepost = "unrepost"
verb_text submit_content = "submit_content"
verb_text delete_post = "delete_post"

abbrev replay_is_uncertain : ReplaySemantics → Bool
replay_is_uncertain safe_state_set = false
replay_is_uncertain safe_target_delete = false
replay_is_uncertain non_idempotent_create = true
replay_is_uncertain replay_has_residual_effects = true
replay_is_uncertain unknown = true

abbrev tier_is_fenced : RiskTier → Bool
tier_is_fenced private_reversible = false
tier_is_fenced public_reversible_engagement = false
tier_is_fenced public_amplifying_reversible = true
tier_is_fenced public_content_irreversible = true

unfoldable pub derive_durability : RiskTier → ReplaySemantics → DurabilityPolicy
derive_durability t r =
    if tier_is_fenced t then required else if replay_is_uncertain r then required else best_effort

pub record EffectPolicy : Type 0 where
  pub action_type : String
  pub risk_tier : RiskTier
  pub allowed_effects : List EffectVerb
  pub replay_semantics : ReplaySemantics
  pub durability : DurabilityPolicy
  pub preparation_effects : List PreparationVerb
  pub schema_version : ℕ

abbrev is_empty : {A : Type 0} → List A → Bool
is_empty [] = true
is_empty (x ∷ xs) = false

-- `EffectPolicy.derive`: no effect at all is a `ValueError`.
unfoldable pub derive :
    String
    → RiskTier
    → List EffectVerb
    → ReplaySemantics
    → List PreparationVerb
    → Option EffectPolicy
derive action tier effects replay preparation =
    if is_empty effects
    then none
    else some (record {
      action_type = action;
      risk_tier = tier;
      allowed_effects = effects;
      replay_semantics = replay;
      durability = derive_durability tier replay;
      preparation_effects = preparation;
      schema_version = 2;
    })

-- `EffectPolicy.validate`: `false` is a `ValueError`.
unfoldable pub validate_policy : EffectPolicy → Bool
validate_policy p =
    not (p.action_type == "")
    && (not (is_empty p.allowed_effects)
        && decided (
            DurabilityPolicy-discrete p.durability
              (derive_durability p.risk_tier p.replay_semantics)))

abbrev pub is_required : DurabilityPolicy → Bool
is_required required = true
is_required best_effort = false

abbrev pub EffectPolicyRegistry : Type 0
EffectPolicyRegistry = Dict EffectPolicy

-- `register`: `none` is the `ValueError` of a policy that does not validate.
unfoldable pub register_policy : EffectPolicy → EffectPolicyRegistry → Option EffectPolicyRegistry
unfolding validate_policy
register_policy p r = if validate_policy p then some (put r p.action_type p) else none

-- Why `policy_fence` and `require` raise.
pub data PolicyError : Type 0 where
  policy_missing policy_invalid : PolicyError

-- `policy_fence`, and `require` with the `validate` of its callers.
unfoldable pub policy_fence : String → EffectPolicyRegistry → Result PolicyError EffectPolicy
unfolding validate_policy
policy_fence action r = elim (get r action) [
  | none ↦ err policy_missing
  | some p ↦ if validate_policy p then ok p else err policy_invalid
]
