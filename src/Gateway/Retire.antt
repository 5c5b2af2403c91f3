-- ===== src/Gateway/Retire.antt =====
-- The retirement of an owner whose authority is dead: from `_owner_authority_dead_reason` to
-- `settle_dead_prepermit_owner_for_reconciliation` of `CommitGateway`.
use wire_agent.Base.{
  ℕ, String, Bool, true, false, not, ◌||◌, Option, none, some, ◌==◌, if◌then◌else◌, opt_eq,
}
use wire_agent.Base.Results.{ok, err}
use wire_agent.Base.Dict.{get, has}
use wire_agent.Base.Heap.{at}
use wire_agent.Effect.History.{LedgerError, corrupt, failed, value_error}
use wire_agent.Approval.Grant.{ApprovalGrant, is_active, GrantClaimDenied, validate_live}
use wire_agent.Approval.Attempt.{
  AttemptState, preparing, reserved as attempt_reserved, no_effect as attempt_no_effect,
  effect_confirmed, effect_unknown, is_preparing, mark_reserved,
}
use wire_agent.Gateway.State.{
  ClosureReason, denied_before_permit, LiveEffectOwner, GatewayError, denied, state_error,
  attempt_error, policy_value_error, record_value_error, argument_value_error, dangling, Action,
  ret, throw, ◌>>=◌, ◌>>◌, require, found, grant_of, attempt_of, mark, ask, Write, append_fact,
}
use wire_agent.Gateway.Owner.{set_closure_reason, reservation_record, close_reserved}

-- `AuthorizationEpoch.current` of the epoch object.
unfoldable pub epoch_at : ℕ → Action ℕ
unfolding found
epoch_at h = found (λ s. at s.epochs h) dangling

-- `self._epoch.current`
unfoldable pub current_epoch : Action ℕ
unfolding epoch_at
current_epoch s = epoch_at s.epoch s

abbrev if_dead : ApprovalGrant → Option GrantClaimDenied → Option GrantClaimDenied
if_dead g refused = if is_active g.state then none else refused

-- The body of the fences of `_owner_authority_dead_reason`.
unfoldable pub check_dead : ℕ → ℕ → LiveEffectOwner → Action (Option GrantClaimDenied)
check_dead now current o = do
  refused ← ask o.grant (
      validate_live
        (record {
          intent_hash = o.snapshot.intent_hash;
          actor_id = o.snapshot.actor_id;
          policy_binding = o.policy_binding;
          authorization_epoch = current;
        })
        now)
  g ← grant_of o.grant
  ret (if_dead g refused)

-- `_owner_authority_dead_reason`
unfoldable pub dead_reason : ℕ → LiveEffectOwner → Action (Option GrantClaimDenied)
unfolding epoch_at check_dead
dead_reason now o = do
  g ← grant_of o.grant
  a ← attempt_of o.attempt
  current ← epoch_at o.authorization_epoch
  if not (opt_eq g.claimed_by (some a.attempt_id)) then ret none else check_dead now current o

abbrev pub is_denied : GatewayError → Bool
is_denied (denied d) = true
is_denied (state_error e) = false
is_denied (attempt_error e) = false
is_denied policy_value_error = false
is_denied record_value_error = false
is_denied argument_value_error = false
is_denied dangling = false

-- `try: … except GatewayDenied: return`
unfoldable pub unless_denied : Action (Unit {0}) → Action (Unit {0})
unless_denied m s =
    let (r, s') = m s in
    (elim r [ ok _ ↦ ok tt | err e ↦ if is_denied e then ok tt else err e ], s')

-- `mark_reserved` under the claim fence, with whether it succeeded.
unfoldable pub try_reserve : ℕ → ℕ → Action Bool
try_reserve hg ha s = elim (at s.grants hg) [
  | none ↦ (err dangling, s)
  | some g ↦ elim (at s.attempts ha) [
    | none ↦ (err dangling, s)
    | some a ↦
        if not (opt_eq g.claimed_by (some a.attempt_id))
        then (ok false, s)
        else (let (r, s') = mark ha (mark_reserved g) s in
            (ok (elim r [ ok _ ↦ true | err e ↦ false ]), s'))
  ]
]

abbrev pub is_reserved : AttemptState → Bool
is_reserved preparing = false
is_reserved attempt_no_effect = false
is_reserved attempt_reserved = true
is_reserved effect_confirmed = false
is_reserved effect_unknown = false

-- The answers to the two appends of a retirement.
pub record Retirement : Type 0 where
  pub now : ℕ
  pub reserve : Write
  pub close : Write

-- The end of `_retire_dead_prepermit_owner_if_possible`: the closure, which may be denied.
unfoldable pub close_owner : Retirement → LiveEffectOwner → ClosureReason → Action (Unit {0})
unfolding unless_denied close_reserved
close_owner t o reason =
    unless_denied (close_reserved t.close o.grant o.attempt o.snapshot o.policy_binding reason)

-- Once the append of the reservation has come back.
unfoldable pub after_reserve :
    Retirement → LiveEffectOwner → ClosureReason → Option LedgerError → Action (Unit {0})
unfolding try_reserve close_owner
after_reserve t o reason (some value_error) = throw record_value_error
after_reserve t o reason (some failed) = ret tt
after_reserve t o reason (some (corrupt c)) = ret tt
after_reserve t o reason none = do
  done ← try_reserve o.grant o.attempt
  if done then close_owner t o reason else ret tt

-- The reservation is made durable again, and then closed.
unfoldable pub reserve_again : Retirement → LiveEffectOwner → ClosureReason → Action (Unit {0})
unfolding after_reserve reservation_record
reserve_again t o reason = do
  g ← grant_of o.grant
  a ← attempt_of o.attempt
  failure ←
      append_fact t.reserve (reservation_record g a o.snapshot o.policy_binding t.reserve.timestamp)
  after_reserve t o reason failure

-- The second half of `_retire_dead_prepermit_owner_if_possible`, from `if attempt.state` on.
unfoldable pub settle_owner : Retirement → LiveEffectOwner → ClosureReason → Action (Unit {0})
unfolding close_owner reserve_again
settle_owner t o reason = do
  a ← attempt_of o.attempt
  if is_reserved a.state
      then close_owner t o reason
      else if not (is_preparing a.state) || not a.reservation_started
      then ret tt
      else reserve_again t o reason

-- What follows an answer of `_owner_authority_dead_reason`.
unfoldable pub close_dead :
    Retirement → LiveEffectOwner → Option GrantClaimDenied → Action (Unit {0})
unfolding settle_owner
close_dead t o none = ret tt
close_dead t o (some e) = do
  reason ← set_closure_reason o.attempt (denied_before_permit e)
  settle_owner t o reason

unfoldable pub retire_reason :
    Retirement → LiveEffectOwner → Option ClosureReason → Action (Unit {0})
unfolding dead_reason settle_owner close_dead
retire_reason t o (some reason) = settle_owner t o reason
retire_reason t o none = do dead ← dead_reason t.now o; close_dead t o dead

unfoldable pub retire_owner : Retirement → Option LiveEffectOwner → Action (Unit {0})
unfolding retire_reason
retire_owner t none = ret tt
retire_owner t (some o) = if o.permit_minted then ret tt else retire_reason t o o.closure_reason

-- `_retire_dead_prepermit_owner_if_possible`
unfoldable pub retire_dead : Retirement → String → Action (Unit {0})
unfolding retire_owner
retire_dead t i s = retire_owner t (get s.live i) s

-- `settle_dead_prepermit_owner_for_reconciliation`, and `live_attempt_owns_effect`: whether the
-- effect has a live owner. An empty id is a `ValueError`.
unfoldable pub live_attempt_owns_effect : String → Action Bool
live_attempt_owns_effect i = do
  require (not (i == "")) argument_value_error
  λ s. (ok (has s.live i), s)

unfoldable pub settle_dead_owner : Retirement → String → Action Bool
unfolding retire_dead live_attempt_owns_effect
settle_dead_owner t i = do
  require (not (i == "")) argument_value_error
  retire_dead t i
  live_attempt_owns_effect i
