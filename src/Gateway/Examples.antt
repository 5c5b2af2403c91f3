-- ===== src/Gateway/Examples.antt =====
-- The theorems on the commit gateway, at one post that is authorized, submitted and confirmed.
use wire_agent.Base.{true, false, ◌≡◌, ◌≤◌, refl, none, some, List, [], ◌∷◌, arith, ◌↔◌}
use wire_agent.Base.Results.{ok}
use wire_agent.Base.Dict.{get, put, pop}
use wire_agent.Base.Heap.{at, set_at}
use wire_agent.Json.{end, validate_json_value, dict}
use wire_agent.Storage.{no_file, write_all, row}
use wire_agent.Effect.Record.{
  EffectLedgerRecord, validate, reserved, effect_confirmed, effect_unknown, same_fact,
  EffectState-discrete, lineage_eq,
}
use wire_agent.Risk.{public_content_irreversible}
use wire_agent.Policy.{
  EffectPolicy, required, non_idempotent_create, submit_content, policy_fence, validate_policy,
  derive_durability, DurabilityPolicy-discrete,
}
use wire_agent.Approval.Grant.{
  ApprovalGrant, active, claim_fence, validate_live, refresh_state, is_expired, check_state,
  check_bindings, spend_if_live, spent,
}
use wire_agent.Approval.Attempt.{
  EffectAttempt, preparing, reserved as attempt_reserved, begin_reservation, mark_reserved,
  mark_no_effect_after_authority, mark_effect_confirmed, mark_effect_unknown,
}
use wire_agent.KillSwitch.{KillSwitch, absent, execution_blocked_now, sync, has_pending_critical}
use wire_agent.Gateway.State.{
  IntentSnapshot, EffectPermit, Gateway, Write, ◌>>=◌, ◌>>◌, require, found, grant_of, attempt_of,
  permit_of, mark, ask, append_fact, blocked_now, modify,
}
use wire_agent.Gateway.Consume.{
  Use, Boundary, consume_permit, record_effect_confirmed, record_effect_unknown, refuse, admitted,
  compare_and_cross, cross, check_use, allows, EffectVerb-discrete, record_outcome,
  validate_outcome_objects,
}
use wire_agent.Gateway.Mint.{
  Authorization, bump_epoch, add_at, late_bumps, with_locals, reserve_fenced, spend_and_mint,
  ask_and_mint, spent_or_denied, mint_permit, put_permit, new_permit, issue,
}
use wire_agent.Gateway.Authorize.{
  authorize_commit, under_policy, reserve_and_mint, retire_if_denied, retire_after,
  check_epoch_domain, validate_grant_identity, check_identity, refuse_by_grant,
}
use wire_agent.Gateway.Permit.{
  close_unconsumed_permit_no_effect, prune_expired, expired_permits, close_each, policy_of,
  binding_of, current_policy_binding, check_issued, require_issued, canonical_attempt,
  append_terminal, overlaps, terminal_record, evict, close_unconsumed,
}
use wire_agent.Gateway.Retire.{current_epoch, epoch_at}
use wire_agent.Gateway.Owner.{
  register_live, mark_minted, live_owner, put_owner, reservation_record, or_raise, lineage_of,
  retire_live, retire_of, drop_owner,
}
use wire_agent.Effect.File.{append_durable, read_records, repeats, latest, append_row, decode}
use wire_agent.Effect.History.{validate_history}
use wire_agent.Gateway.Commit.Whole.{Authorized, authorize_commit-Authorized}
use wire_agent.Gateway.Minting.{mintings-le-one}
use wire_agent.Gateway.Run.{
  Operation, authorizing, consuming, bumping, step, mintings, consumptions,
}
use wire_agent.Base.Strings.{strip}
use wire_agent.Gateway.Once.{consumptions-le-one, bump_revokes}
use wire_agent.Gateway.Consume.Exact.{MayUse, used, consume_permit_exact}
use wire_agent.Gateway.Outcome.Settled.{
  Settled, record_effect_confirmed-Settled, record_effect_unknown-Settled,
}
use wire_agent.Approval.Attempt.{
  effect_confirmed as attempt_confirmed, effect_unknown as attempt_unknown,
}
use wire_agent.Gateway.Outcome.Closed.{Closed, close_unconsumed-Closed, close_unconsumed_final}

abbrev policy : EffectPolicy
policy = record {
  action_type = "post";
  risk_tier = public_content_irreversible;
  allowed_effects = submit_content ∷ [];
  replay_semantics = non_idempotent_create;
  durability = required;
  preparation_effects = [];
  schema_version = 2;
}

abbrev grant : ApprovalGrant
grant = record {
  intent_hash = "i1";
  actor_id = "me";
  action_type = "post";
  target_type = "timeline";
  target_id = "home";
  policy_binding = "post";
  authorization_epoch = 7;
  grant_id = "g1";
  issued_at = 0;
  expires_at = 100;
  max_precommit_attempts = 3;
  state = active;
  claimed_by = some "a1";
  precommit_attempts = 0;
  approver = "human";
}

abbrev attempt : EffectAttempt
attempt = record {
  grant_id = "g1";
  attempt_id = "a1";
  effect_id = "e1";
  state = preparing;
  reservation_started = false;
}

abbrev snapshot : IntentSnapshot
snapshot = record {
  action_type = "post";
  target_type = "timeline";
  target_id = "home";
  actor_id = "me";
  semantic_key = "post:hello";
  intent_hash = "i1";
}

abbrev quiet : KillSwitch
quiet = record {
  flag = false;
  hot_file = absent;
  listeners = [];
  last_active = false;
  trip_generation = 0;
  notifying = false;
}

abbrev gateway : Gateway
gateway = record {
  grants = grant ∷ [];
  attempts = attempt ∷ [];
  permits = [];
  epochs = 7 ∷ [];
  epoch = 0;
  ledger = no_file;
  kill = quiet;
  policies = ("post", policy) ∷ [];
  permit_ttl = 60;
  issued = [];
  live = [];
  binding_hash = λ p. p.action_type;
  size = λ r. 10;
}

abbrev all_ok : Write
all_ok = record {
  io = record {
    readable = true;
    parent_ok = true;
    open_ok = true;
    writes = some 4 ∷ (some 7 ∷ []);
    fsync_ok = true;
    dir_fsync_ok = true;
    stat_ok = true;
    stat_after_ok = true;
  };
  timestamp = "t1";
}

abbrev authorization : Authorization
authorization = record {
  grant = 0;
  attempt = 0;
  snapshot = snapshot;
  entry = absent;
  prune_now = 10;
  prune_close = λ h. all_ok;
  live_now = 11;
  retirement = record { now = 11; reserve = all_ok; close = all_ok };
  reserve = all_ok;
  late_bumps = 0;
  before_spend = absent;
  spend_now = 12;
  after_spend = absent;
  mint_now = 13;
  close = all_ok;
  permit_id = "p1";
}

authorized : (authorize_commit authorization gateway).0 ≡ ok 0
unfolding ◌>>=◌ ◌>>◌ require found grant_of attempt_of permit_of mark ask append_fact blocked_now
    modify execution_blocked_now sync has_pending_critical prune_expired expired_permits close_each
    policy_of binding_of policy_fence validate_policy derive_durability DurabilityPolicy-discrete
    get put at set_at authorize_commit under_policy reserve_and_mint retire_if_denied retire_after
    check_epoch_domain validate_grant_identity check_identity refuse_by_grant refuse bump_epoch
    add_at late_bumps with_locals reserve_fenced spend_and_mint ask_and_mint spent_or_denied
    mint_permit put_permit new_permit issue current_epoch epoch_at register_live mark_minted
    live_owner put_owner reservation_record or_raise claim_fence validate_live refresh_state
    is_expired check_state check_bindings spend_if_live begin_reservation mark_reserved
    append_durable read_records validate repeats latest validate_history append_row write_all
    validate_json_value
authorized = refl

authorize_commit-Authorized_example :
    Authorized authorization gateway 0 (authorize_commit authorization gateway).1
authorize_commit-Authorized_example = authorize_commit-Authorized authorization gateway 0 authorized

mintings-le-one_example :
    mintings 0 (authorizing authorization ∷ (authorizing authorization ∷ [])) gateway ≤ 1
mintings-le-one_example =
    mintings-le-one (authorizing authorization ∷ (authorizing authorization ∷ [])) gateway 0

abbrev permit : EffectPermit
permit = record {
  grant_id = "g1";
  attempt_id = "a1";
  effect_id = "e1";
  semantic_key = "post:hello";
  intent_hash = "i1";
  actor_id = "me";
  action_type = "post";
  target_type = "timeline";
  target_id = "home";
  policy_binding = "post";
  authorization_epoch = 7;
  allowed_effects = submit_content ∷ [];
  fenced = true;
  issued_at = 13;
  expires_at = 73;
  approver = "human";
  permit_id = "p1";
  consumed = false;
  consumed_effect = none;
  consumed_at = none;
}

abbrev reservation : EffectLedgerRecord
reservation = record {
  effect_id = "e1";
  state = reserved;
  lineage = lineage_of snapshot "post";
  approver = some "human";
  timestamp = "t1";
  details = dict end;
}

-- The gateway once the permit is issued.
abbrev issued_gateway : Gateway
issued_gateway = record gateway {
  grants = record grant { state = spent } ∷ [];
  attempts = record attempt { state = attempt_reserved; reservation_started = true } ∷ [];
  permits = permit ∷ [];
  ledger = record {
    exists = true;
    lines = row reservation ∷ [];
    torn = false;
    utf8 = true;
    durable = row reservation ∷ [];
    entry_durable = true;
  };
  issued = ("p1", record { permit = 0; attempt = 0 }) ∷ [];
}

abbrev boundary : Boundary
boundary = record {
  entry = absent;
  fast_now = 20;
  crossing = absent;
  boundary_now = 21;
  close = all_ok;
}

abbrev submission : Use
submission = record {
  effect = submit_content;
  intent_hash = "i1";
  actor_id = "me";
  target_type = "timeline";
  target_id = "home";
  policy_binding = "post";
}

abbrev twice : List Operation
twice = consuming boundary submission 0 ∷ (consuming boundary submission 0 ∷ [])

consume_permit_exact_example :
    (((consume_permit boundary submission 0 issued_gateway).0 ≡ ok tt)
      ↔ ((p : EffectPermit) × MayUse boundary submission 0 p issued_gateway))
    × ((p : EffectPermit)
        → MayUse boundary submission 0 p issued_gateway
        → at (consume_permit boundary submission 0 issued_gateway).1.permits 0
          ≡ some (used boundary submission p))
consume_permit_exact_example = consume_permit_exact boundary submission 0 issued_gateway

consumed : (consume_permit boundary submission 0 issued_gateway).0 ≡ ok tt
unfolding ◌>>=◌ ◌>>◌ require found permit_of blocked_now modify execution_blocked_now sync
    has_pending_critical policy_of binding_of current_policy_binding policy_fence validate_policy
    derive_durability DurabilityPolicy-discrete EffectVerb-discrete get at refuse current_epoch
    epoch_at consume_permit admitted compare_and_cross cross check_use check_issued require_issued
    allows
consumed = refl

consumptions-le-one_example : consumptions 0 twice issued_gateway ≤ 1
consumptions-le-one_example = consumptions-le-one twice issued_gateway 0

bump_revokes_example : consumptions 0 twice (step (bumping 0) issued_gateway) ≡ 0
unfolding at
bump_revokes_example = bump_revokes issued_gateway 0 7 permit twice refl refl (omega arith)

closing_ok : (close_unconsumed_permit_no_effect all_ok "not sent" 0 issued_gateway).0 ≡ ok tt
unfolding ◌>>=◌ ◌>>◌ require found attempt_of permit_of mark append_fact modify get put pop at
    set_at close_unconsumed_permit_no_effect close_unconsumed canonical_attempt check_issued
    require_issued append_terminal overlaps terminal_record evict strip retire_live retire_of
    drop_owner mark_no_effect_after_authority append_durable read_records decode validate repeats
    latest same_fact EffectState-discrete lineage_eq validate_history append_row write_all
    validate_json_value
closing_ok = refl

close_unconsumed-Closed_example :
    Closed "not sent" 0 issued_gateway
      (close_unconsumed_permit_no_effect all_ok "not sent" 0 issued_gateway).1
close_unconsumed-Closed_example =
    close_unconsumed-Closed all_ok "not sent" 0 issued_gateway closing_ok

close_unconsumed_final_example :
    consumptions 0 twice (close_unconsumed_permit_no_effect all_ok "not sent" 0 issued_gateway).1
    ≡ 0
unfolding get
close_unconsumed_final_example =
    close_unconsumed_final all_ok "not sent" 0 issued_gateway twice (refl, tt) closing_ok

-- The gateway once the permit is consumed.
abbrev used_gateway : Gateway
used_gateway = record issued_gateway {
  permits =
      record permit {
        consumed = true;
        consumed_effect = some submit_content;
        consumed_at = some 21;
      }
      ∷ [];
}

confirming_ok : (record_effect_confirmed all_ok end 0 0 used_gateway).0 ≡ ok tt
unfolding ◌>>=◌ ◌>>◌ require found attempt_of permit_of mark append_fact modify get put pop at
    set_at record_effect_confirmed record_outcome validate_outcome_objects canonical_attempt
    check_issued require_issued append_terminal overlaps terminal_record evict retire_live retire_of
    drop_owner mark_effect_confirmed append_durable read_records decode validate repeats latest
    same_fact EffectState-discrete lineage_eq validate_history append_row write_all
    validate_json_value
confirming_ok = refl

record_effect_confirmed-Settled_example :
    Settled effect_confirmed attempt_confirmed end 0 0 used_gateway
      (record_effect_confirmed all_ok end 0 0 used_gateway).1
record_effect_confirmed-Settled_example =
    record_effect_confirmed-Settled all_ok end 0 0 used_gateway confirming_ok

losing_ok : (record_effect_unknown all_ok end 0 0 used_gateway).0 ≡ ok tt
unfolding ◌>>=◌ ◌>>◌ require found attempt_of permit_of mark append_fact modify get put pop at
    set_at record_effect_unknown record_outcome validate_outcome_objects canonical_attempt
    check_issued require_issued append_terminal overlaps terminal_record evict retire_live retire_of
    drop_owner mark_effect_unknown append_durable read_records decode validate repeats latest
    same_fact EffectState-discrete lineage_eq validate_history append_row write_all
    validate_json_value
losing_ok = refl

record_effect_unknown-Settled_example :
    Settled effect_unknown attempt_unknown end 0 0 used_gateway
      (record_effect_unknown all_ok end 0 0 used_gateway).1
record_effect_unknown-Settled_example =
    record_effect_unknown-Settled all_ok end 0 0 used_gateway losing_ok
