-- ===== src/Gateway/Consume.antt =====
-- `consume_permit` of `CommitGateway`, and the outcomes that are recorded for a consumed permit:
-- `_validate_outcome_objects`, `record_effect_confirmed` and `record_effect_unknown`.
pub mod Exact
pub mod Fences
use wire_agent.Base.{
  ℕ, ◌+◌, String, Bool, true, false, not, ◌&&◌, ◌||◌, ◌≡◌, Option, none, some, List, [], ◌∷◌, ◌==◌,
  eqb, leb, if◌then◌else◌, decided,
}
use wire_agent.Base.Results.{Result, ok, err}
use wire_agent.Base.Heap.{at, set_at}
use wire_agent.Json.{Fields}
use wire_agent.Effect.Record.{EffectState, effect_confirmed, effect_unknown}
use wire_agent.Policy.{EffectPolicy, EffectVerb}
use wire_agent.Approval.Attempt.{
  AttemptState, is_preparing, EffectAttempt, AttemptError, mark_effect_confirmed,
  mark_effect_unknown,
}
use wire_agent.KillSwitch.{HotFile}
use wire_agent.Gateway.State.{
  EffectPermit, GatewayDenied, kill_switch, permit_reused, permit_expired, target_mismatch,
  actor_mismatch, epoch_mismatch, policy_mismatch, effect_not_allowed, intent_mismatch,
  GatewayError, denied, state_error, not_canonical_attempt, permit_attempt_mismatch, not_consumed,
  wrong_attempt_state, not_persisted, Gateway, Action, ret, throw, ◌>>=◌, ◌>>◌, require, modify,
  attempt_of, permit_of, mark, Write, blocked_now,
}
use wire_agent.Gateway.Owner.{retire_live}
use wire_agent.Gateway.Retire.{epoch_at, current_epoch, is_reserved}
use wire_agent.Gateway.Permit.{
  policy_of, current_policy_binding, require_issued, canonical_attempt, evict, append_terminal,
  close_expired,
}

unfoldable pub EffectVerb-discrete : Discrete EffectVerb
EffectVerb-discrete = hlevel

-- `effect in permit.allowed_effects`
unfoldable pub allows : List EffectVerb → EffectVerb → Bool
unfolding EffectVerb-discrete
allows [] v = false
allows (w ∷ ws) v = let rest = allows ws v in decided (EffectVerb-discrete w v) || rest

-- What the executor presents with a permit.
pub record Use : Type 0 where
  pub effect : EffectVerb
  pub intent_hash : String
  pub actor_id : String
  pub target_type : String
  pub target_id : String
  pub policy_binding : String

-- What `consume_permit` meets: the hot file at its two looks at the kill switch, its two readings of
-- the clock, and the append of a closure.
pub record Boundary : Type 0 where
  pub entry : HotFile
  pub fast_now : ℕ
  pub crossing : HotFile
  pub boundary_now : ℕ
  pub close : Write

-- The comparisons that follow the one of the epochs, where `binding` is the current one.
unfoldable pub check_use : Use → String → EffectPermit → Option GatewayDenied
unfolding allows
check_use u binding p =
    if not (binding == p.policy_binding)
    then some policy_mismatch
    else if not (u.policy_binding == p.policy_binding)
    then some policy_mismatch
    else if not (allows p.allowed_effects u.effect)
    then some effect_not_allowed
    else if not (u.intent_hash == p.intent_hash)
    then some intent_mismatch
    else if not (u.actor_id == p.actor_id)
    then some actor_mismatch
    else if not (u.target_type == p.target_type) || not (u.target_id == p.target_id)
    then some target_mismatch
    else none

unfoldable pub refuse : Option GatewayDenied → Action (Unit {0})
refuse d s = elim d [ none ↦ (ok tt, s) | some e ↦ (err (denied e), s) ]

-- The permit is consumed: its `_PermitUse` is written.
unfoldable pub put_use : ℕ → EffectPermit → EffectVerb → ℕ → Gateway → Gateway
put_use h p v now s = record s {
  permits =
      set_at s.permits h
        (record p { consumed = true; consumed_effect = some v; consumed_at = some now });
}

unfoldable pub expire : Write → ℕ → Action (Unit {0})
expire w h = close_expired w h >> throw (denied permit_expired)

-- The end of `consume_permit`, once all is compared: the last look at the kill switch and at the
-- clock, and the crossing.
unfoldable pub cross : Boundary → Use → ℕ → EffectPermit → Action (Unit {0})
unfolding put_use expire
cross b u h p = do
  blocked ← blocked_now b.crossing
  require (not blocked) (denied kill_switch)
  if leb p.expires_at b.boundary_now
      then expire b.close h
      else modify (put_use h p u.effect b.boundary_now)

-- The body of the fences of the policy and of the epoch.
unfoldable pub compare_and_cross : Boundary → Use → ℕ → EffectPermit → Action (Unit {0})
unfolding cross check_use refuse
compare_and_cross b u h p = do
  policy_of p.action_type
  current ← current_epoch
  require (eqb p.authorization_epoch current) (denied epoch_mismatch)
  binding ← current_policy_binding p.action_type
  refuse (check_use u binding p)
  cross b u h p

-- `consume_permit` under the fence of the kill switch.
unfoldable pub admitted : Boundary → Use → ℕ → Action (Unit {0})
unfolding compare_and_cross expire
admitted b u h = do
  p ← require_issued h
  require (not p.consumed) (denied permit_reused)
  if leb p.expires_at b.fast_now then expire b.close h else compare_and_cross b u h p

unfoldable pub consume_permit : Boundary → Use → ℕ → Action (Unit {0})
unfolding admitted
consume_permit b u h = do
  blocked ← blocked_now b.entry
  require (not blocked) (denied kill_switch)
  admitted b u h

-- `_validate_outcome_objects`, with the permit that it accepts.
unfoldable pub validate_outcome_objects : ℕ → ℕ → Action EffectPermit
validate_outcome_objects h ha = do
  p ← require_issued h
  canonical ← canonical_attempt p
  require (eqb canonical ha) (state_error not_canonical_attempt)
  a ← attempt_of ha
  require (p.attempt_id == a.attempt_id) (state_error permit_attempt_mismatch)
  require (p.grant_id == a.grant_id) (state_error permit_attempt_mismatch)
  require (p.effect_id == a.effect_id) (state_error permit_attempt_mismatch)
  require p.consumed (state_error not_consumed)
  require (if p.fenced then is_reserved a.state else is_preparing a.state)
      (state_error wrong_attempt_state)
  ret p

-- What both methods do with an outcome, given the transition of the attempt.
unfoldable pub record_outcome :
    Write
    → EffectState
    → (EffectAttempt → Option AttemptError × EffectAttempt)
    → Fields
    → ℕ
    → ℕ
    → Action (Unit {0})
unfolding validate_outcome_objects
record_outcome w state f evidence h ha = do
  p ← validate_outcome_objects h ha
  append_terminal w (state_error not_persisted) p state evidence
  mark ha f
  retire_live ha
  modify (evict p)

unfoldable pub record_effect_confirmed : Write → Fields → ℕ → ℕ → Action (Unit {0})
unfolding record_outcome
record_effect_confirmed w evidence h ha =
    record_outcome w effect_confirmed mark_effect_confirmed evidence h ha

unfoldable pub record_effect_unknown : Write → Fields → ℕ → ℕ → Action (Unit {0})
unfolding record_outcome
record_effect_unknown w evidence h ha =
    record_outcome w effect_unknown mark_effect_unknown evidence h ha
