-- ===== src/Gateway/Mint.antt =====
-- The last part of `authorize_commit` of `CommitGateway`: the reservation, the spending of the
-- approval and the permit.
use wire_agent.Base.{
  ℕ, ◌+◌, String, Bool, false, ◌&&◌, Option, none, some, List, [], ◌∷◌, ◌++◌, if◌then◌else◌, length,
}
use wire_agent.Base.Results.{ok}
use wire_agent.Base.Dict.{put}
use wire_agent.Base.Heap.{at, set_at}
use wire_agent.Policy.{EffectPolicy, is_required}
use wire_agent.Approval.Grant.{
  ApprovalGrant, Presented, GrantClaimDenied, spend_if_live, claim_fence,
}
use wire_agent.Approval.Attempt.{
  EffectAttempt, begin_reservation, mark_reserved, mark_no_effect_after_authority,
}
use wire_agent.KillSwitch.{HotFile}
use wire_agent.Gateway.State.{
  IntentSnapshot, EffectPermit, ClosureReason, killed_before_permit, denied_before_permit,
  GatewayDenied, kill_switch, reservation_failed, by_grant, denied, Gateway, Action, ret, throw,
  ◌>>=◌, ◌>>◌, attempt_of, mark, ask, Write, append_fact, blocked_now,
}
use wire_agent.Gateway.Owner.{
  register_live, set_closure_reason, mark_minted, reservation_record, or_raise, close_reserved,
}
use wire_agent.Gateway.Retire.{current_epoch, is_reserved, Retirement}

-- A call of `authorize_commit`: its arguments, where the intent is the snapshot that is captured of
-- it, and what it meets: the hot file, the clocks, the appends, how often the epoch is bumped
-- before the last fence, and the id that is drawn for the permit.
pub record Authorization : Type 0 where
  pub grant : ℕ
  pub attempt : ℕ
  pub snapshot : IntentSnapshot
  pub entry : HotFile
  pub prune_now : ℕ
  pub prune_close : ℕ → Write
  pub live_now : ℕ
  pub retirement : Retirement
  pub reserve : Write
  pub late_bumps : ℕ
  pub before_spend : HotFile
  pub spend_now : ℕ
  pub after_spend : HotFile
  pub mint_now : ℕ
  pub close : Write
  pub permit_id : String

abbrev pub presented : IntentSnapshot → String → ℕ → Presented
presented snap binding epoch = record {
  intent_hash = snap.intent_hash;
  actor_id = snap.actor_id;
  policy_binding = binding;
  authorization_epoch = epoch;
}

-- What the method knows once the identity is validated. The fields of the approval and of the
-- attempt that it reads from here on do not change any more.
pub record Locals : Type 0 where
  pub grant : ApprovalGrant
  pub attempt : EffectAttempt
  pub policy : EffectPolicy
  pub binding : String

-- The block `if fenced:`, up to `mark_reserved`.
unfoldable pub reserve_fenced : Authorization → Locals → Action (Unit {0})
unfolding reservation_record or_raise
reserve_fenced i l = do
  register_live i.attempt i.grant i.snapshot l.binding l.attempt
  mark i.attempt (begin_reservation l.grant)
  failure ←
      append_fact i.reserve
        (reservation_record l.grant l.attempt i.snapshot l.binding i.reserve.timestamp)
  or_raise (denied reservation_failed) failure
  mark i.attempt (mark_reserved l.grant)

-- The attempt is closed because no permit is minted.
unfoldable pub close_before_mint : Authorization → Bool → String → ClosureReason → Action (Unit {0})
unfolding set_closure_reason close_reserved
close_before_mint i fenced binding reason = do
  a ← attempt_of i.attempt
  if fenced && is_reserved a.state
      then (do
        kept ← set_closure_reason i.attempt reason
        close_reserved i.close i.grant i.attempt i.snapshot binding kept)
      else mark i.attempt mark_no_effect_after_authority

-- Its permit.
unfoldable pub new_permit : Authorization → Locals → ℕ → ℕ → EffectPermit
new_permit i l epoch ttl = record {
  grant_id = l.grant.grant_id;
  attempt_id = l.attempt.attempt_id;
  effect_id = l.attempt.effect_id;
  semantic_key = i.snapshot.semantic_key;
  intent_hash = i.snapshot.intent_hash;
  actor_id = i.snapshot.actor_id;
  action_type = i.snapshot.action_type;
  target_type = i.snapshot.target_type;
  target_id = i.snapshot.target_id;
  policy_binding = l.binding;
  authorization_epoch = epoch;
  allowed_effects = l.policy.allowed_effects;
  fenced = is_required l.policy.durability;
  issued_at = i.mint_now;
  expires_at = i.mint_now + ttl;
  approver = l.grant.approver;
  permit_id = i.permit_id;
  consumed = false;
  consumed_effect = none;
  consumed_at = none;
}

-- The permit enters the two maps of the gateway; the result is the reference to it.
unfoldable pub issue : EffectPermit → ℕ → Action ℕ
issue p ha s = (
  ok (length s.permits),
  record s {
    permits = s.permits ++ (p ∷ []);
    issued = put s.issued p.permit_id (record { permit = length s.permits; attempt = ha });
  },
)

unfoldable pub put_permit : Authorization → Locals → ℕ → Action ℕ
unfolding new_permit issue
put_permit i l epoch s = issue (new_permit i l epoch s.permit_ttl) i.attempt s

-- From `mint_now = self._clock()` to the return.
unfoldable pub mint_permit : Authorization → Locals → ℕ → Action ℕ
unfolding put_permit mark_minted
mint_permit i l epoch = do
  if is_required l.policy.durability then mark_minted i.attempt else ret tt
  put_permit i l epoch

unfoldable pub deny_mint : Authorization → Locals → ClosureReason → GatewayDenied → Action ℕ
unfolding close_before_mint
deny_mint i l reason d =
    close_before_mint i (is_required l.policy.durability) l.binding reason >> throw (denied d)

-- Once the approval is asked: its refusal, or a second look at the kill switch and the permit.
unfoldable pub spent_or_denied : Authorization → Locals → ℕ → Option GrantClaimDenied → Action ℕ
unfolding mint_permit deny_mint
spent_or_denied i l epoch (some e) = deny_mint i l (denied_before_permit e) (by_grant e)
spent_or_denied i l epoch none = do
  blocked ← blocked_now i.after_spend
  if blocked then deny_mint i l killed_before_permit kill_switch else mint_permit i l epoch

unfoldable pub ask_and_mint : Authorization → Locals → ℕ → Action ℕ
unfolding spent_or_denied
ask_and_mint i l epoch = do
  refused ← ask i.grant (spend_if_live (presented i.snapshot l.binding epoch) i.spend_now)
  spent_or_denied i l epoch refused

-- The fence of the epoch: looks at the kill switch, the spending of the approval, the permit.
unfoldable pub spend_and_mint : Authorization → Locals → ℕ → Action ℕ
unfolding ask_and_mint
spend_and_mint i l epoch = do
  blocked ← blocked_now i.before_spend
  if blocked then deny_mint i l killed_before_permit kill_switch else ask_and_mint i l epoch

unfoldable pub add_at : ℕ → ℕ → List ℕ → List ℕ
add_at h n es = elim (at es h) [ none ↦ es | some e ↦ set_at es h (e + n) ]

-- `AuthorizationEpoch.bump`, as often as the number says.
unfoldable pub bump_epoch : ℕ → ℕ → Gateway → Gateway
unfolding add_at
bump_epoch h n s = record s { epochs = add_at h n s.epochs }

-- What other threads do to the epoch in the meantime.
unfoldable pub late_bumps : ℕ → Action (Unit {0})
unfolding bump_epoch
late_bumps n s = (ok tt, bump_epoch s.epoch n s)

abbrev pub fence_of : ApprovalGrant → EffectAttempt → Option GrantClaimDenied
fence_of g a = claim_fence a.attempt_id g

unfoldable pub with_locals : Authorization → Locals → Action ℕ
unfolding reserve_fenced spend_and_mint late_bumps
with_locals i l = do
  if is_required l.policy.durability then reserve_fenced i l else ret tt
  late_bumps i.late_bumps
  epoch ← current_epoch
  spend_and_mint i l epoch
