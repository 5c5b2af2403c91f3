-- ===== src/Gateway/Authorize.antt =====
-- `authorize_commit` of `CommitGateway`, with `_validate_grant_identity`: from an approval and an
-- attempt to one permit, through the durable reservation that a fenced action needs.
use wire_agent.Base.{
  ℕ, String, not, ◌&&◌, ◌||◌, Option, none, some, ◌==◌, eqb, if◌then◌else◌, opt_eq,
}
use wire_agent.Base.Results.{Result, ok, err}
use wire_agent.Base.Dict.{get}
use wire_agent.Policy.{EffectPolicy}
use wire_agent.Approval.Grant.{ApprovalGrant, is_active, GrantClaimDenied, validate_live}
use wire_agent.Approval.Attempt.{EffectAttempt, is_preparing}
use wire_agent.Gateway.State.{
  IntentSnapshot, GatewayDenied, kill_switch, grant_mismatch, claim_not_held, attempt_not_preparing,
  grant_not_active, action_mismatch, target_missing, target_mismatch, actor_mismatch, by_grant,
  GatewayError, denied, state_error, epoch_domain_changed, Gateway, Action, throw, ◌>>=◌, ◌>>◌,
  require, grant_of, attempt_of, ask, blocked_now,
}
use wire_agent.Gateway.Retire.{current_epoch, is_denied, Retirement, retire_dead}
use wire_agent.Gateway.Permit.{policy_of, binding_of, prune_expired}
use wire_agent.Gateway.Consume.{refuse}
use wire_agent.Gateway.Mint.{Authorization, presented, fence_of, with_locals}

-- The comparisons of `_validate_grant_identity` before `validate_live`.
unfoldable pub check_identity :
    ApprovalGrant → EffectAttempt → IntentSnapshot → Option GatewayDenied
check_identity g a snap =
    if not (a.grant_id == g.grant_id)
    then some grant_mismatch
    else if not (opt_eq g.claimed_by (some a.attempt_id))
    then some claim_not_held
    else if not (is_preparing a.state)
    then some attempt_not_preparing
    else if not (is_active g.state)
    then some grant_not_active
    else if not (g.action_type == snap.action_type)
    then some action_mismatch
    else if snap.target_type == "" || snap.target_id == ""
    then some target_missing
    else if not (g.target_type == snap.target_type) || not (g.target_id == snap.target_id)
    then some target_mismatch
    else if snap.actor_id == "" || not (snap.actor_id == g.actor_id)
    then some actor_mismatch
    else none

unfoldable pub refuse_by_grant : Option GrantClaimDenied → Action (Unit {0})
refuse_by_grant d s = elim d [ none ↦ (ok tt, s) | some e ↦ (err (denied (by_grant e)), s) ]

-- `_validate_grant_identity`
unfoldable pub validate_grant_identity : Authorization → String → ℕ → Action (Unit {0})
unfolding check_identity refuse refuse_by_grant
validate_grant_identity i binding epoch = do
  g ← grant_of i.grant
  a ← attempt_of i.attempt
  refuse (check_identity g a i.snapshot)
  refused ← ask i.grant (validate_live (presented i.snapshot binding epoch) i.live_now)
  refuse_by_grant refused

-- `except GatewayDenied: _retire_dead_prepermit_owner_if_possible(…); raise`
unfoldable pub retire_after :
    Retirement
    → String
    → Result GatewayError (Unit {0}) × Gateway
    → Result GatewayError (Unit {0}) × Gateway
retire_after t effect_id (ok v, s) = (ok v, s)
retire_after t effect_id (err e, s) =
    if is_denied e then (retire_dead t effect_id >> throw e) s else (err e, s)

unfoldable pub retire_if_denied : Retirement → String → Action (Unit {0}) → Action (Unit {0})
unfolding retire_after
retire_if_denied t effect_id m s = retire_after t effect_id (m s)

-- The test of the owner that the effect may have already.
unfoldable pub check_epoch_domain : ℕ → String → Action (Unit {0})
check_epoch_domain ha effect_id s = elim (get s.live effect_id) [
  | none ↦ (ok tt, s)
  | some o ↦
      if eqb o.attempt ha && not (eqb o.authorization_epoch s.epoch)
      then (err (state_error epoch_domain_changed), s)
      else (ok tt, s)
]

-- The body of the fences of the policy and of the claim, once the identity is validated.
unfoldable pub reserve_and_mint : Authorization → EffectPolicy → String → Action ℕ
unfolding with_locals
reserve_and_mint i policy binding = do
  g ← grant_of i.grant
  a ← attempt_of i.attempt
  with_locals i (record { grant = g; attempt = a; policy = policy; binding = binding })

-- The body of the fence of the policy.
unfoldable pub under_policy : Authorization → EffectPolicy → Action ℕ
unfolding reserve_and_mint check_epoch_domain validate_grant_identity retire_if_denied
under_policy i policy = do
  binding ← binding_of policy
  epoch ← current_epoch
  a ← attempt_of i.attempt
  g ← grant_of i.grant
  check_epoch_domain i.attempt a.effect_id
  refuse_by_grant (fence_of g a)
  retire_if_denied i.retirement a.effect_id (validate_grant_identity i binding epoch)
  reserve_and_mint i policy binding

-- `authorize_commit`, with the reference to the permit as its result.
unfoldable pub authorize_commit : Authorization → Action ℕ
unfolding under_policy
authorize_commit i = do
  blocked ← blocked_now i.entry
  require (not blocked) (denied kill_switch)
  prune_expired i.prune_now i.prune_close
  policy ← policy_of i.snapshot.action_type
  under_policy i policy
