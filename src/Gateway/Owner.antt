-- ===== src/Gateway/Owner.antt =====
-- The live owners of `CommitGateway`: their registration, their closure before a permit, and their
-- retirement, from `_register_live_effect_attempt` to
-- `settle_dead_prepermit_owner_for_reconciliation`, with `_close_reserved_before_permit`.
use wire_agent.Base.{
  ℕ, String, Bool, true, false, not, ◌&&◌, ◌||◌, Option, none, some, ◌==◌, eqb, if◌then◌else◌,
}
use wire_agent.Base.Results.{ok, err}
use wire_agent.Base.Dict.{get, put, pop}
use wire_agent.Json.{text, dict, field, end, name}
use wire_agent.Effect.Record.{reserved, no_effect, Lineage, EffectLedgerRecord}
use wire_agent.Effect.History.{LedgerError, corrupt, failed, value_error}
use wire_agent.Approval.Grant.{
  ApprovalGrant, expired_grant, spent_grant, revoked_grant, epoch_mismatch, intent_mismatch,
  actor_mismatch, policy_mismatch, approval_already_claimed, attempts_exhausted, claim_not_held,
}
use wire_agent.Approval.Attempt.{is_open, EffectAttempt, mark_no_effect_after_authority}
use wire_agent.Gateway.State.{
  IntentSnapshot, ClosureReason, killed_before_permit, denied_before_permit, LiveEffectOwner,
  prepermit_close_failed, different_live_attempt, lineage_changed, epoch_domain_changed,
  lost_ownership, permit_exposed, closure_began, ownership_changed, nonterminal_attempt,
  GatewayError, denied, state_error, record_value_error, Gateway, Action, ret, throw, ◌>>=◌, ◌>>◌,
  require, modify, grant_of, attempt_of, mark, Write, append_fact,
}

-- Equality of two frozen dataclasses.
unfoldable pub snapshot_eq : IntentSnapshot → IntentSnapshot → Bool
snapshot_eq a b =
    a.action_type == b.action_type
    && (a.target_type == b.target_type
        && (a.target_id == b.target_id
            && (a.actor_id == b.actor_id
                && (a.semantic_key == b.semantic_key && a.intent_hash == b.intent_hash))))

unfoldable pub put_owner : String → LiveEffectOwner → Gateway → Gateway
put_owner i o s = record s { live = put s.live i o }

-- `_register_live_effect_attempt`
unfoldable pub register_live : ℕ → ℕ → IntentSnapshot → String → EffectAttempt → Action (Unit {0})
unfolding snapshot_eq put_owner
register_live ha hg snap binding a s = elim (get s.live a.effect_id) [
  | some o ↦
      if not (eqb o.attempt ha)
      then (err (state_error different_live_attempt), s)
      else if not (eqb o.grant hg)
          || (not (snapshot_eq o.snapshot snap) || not (o.policy_binding == binding))
      then (err (state_error lineage_changed), s)
      else if not (eqb o.authorization_epoch s.epoch)
      then (err (state_error epoch_domain_changed), s)
      else (ok tt, s)
  | none ↦ (
    ok tt,
    put_owner a.effect_id
        (record {
          attempt = ha;
          grant = hg;
          snapshot = snap;
          policy_binding = binding;
          authorization_epoch = s.epoch;
          permit_minted = false;
          closure_reason = none;
        })
        s,
  )
]

-- `_live_owner_for_attempt`
unfoldable pub live_owner : ℕ → EffectAttempt → Action LiveEffectOwner
live_owner ha a s = elim (get s.live a.effect_id) [
  | none ↦ (err (state_error lost_ownership), s)
  | some o ↦ if eqb o.attempt ha then (ok o, s) else (err (state_error lost_ownership), s)
]

abbrev pub or_reason : Option ClosureReason → ClosureReason → ClosureReason
or_reason none r = r
or_reason (some q) r = q

-- `_set_live_effect_closure_reason`
unfoldable pub set_closure_reason : ℕ → ClosureReason → Action ClosureReason
unfolding put_owner
set_closure_reason ha r = do
  a ← attempt_of ha
  o ← live_owner ha a
  require (not o.permit_minted) (state_error permit_exposed)
  modify (put_owner a.effect_id (record o { closure_reason = some (or_reason o.closure_reason r) }))
  ret (or_reason o.closure_reason r)

abbrev is_none : {A : Type 0} → Option A → Bool
is_none none = true
is_none (some a) = false

-- `_mark_live_effect_permit_minted`
unfoldable pub mark_minted : ℕ → Action (Unit {0})
unfolding put_owner
mark_minted ha = do
  a ← attempt_of ha
  o ← live_owner ha a
  require (is_none o.closure_reason) (state_error closure_began)
  require (not o.permit_minted) (state_error permit_exposed)
  modify (put_owner a.effect_id (record o { permit_minted = true }))

unfoldable pub drop_owner : String → Gateway → Gateway
drop_owner i s = record s { live = pop s.live i }

-- The owner that the map holds for the effect leaves it.
unfoldable pub retire_of : ℕ → EffectAttempt → Action (Unit {0})
unfolding drop_owner
retire_of ha a s = elim (get s.live a.effect_id) [
  | none ↦ (ok tt, s)
  | some o ↦
      if not (eqb o.attempt ha)
      then (err (state_error ownership_changed), s)
      else if is_open a.state
      then (err (state_error nonterminal_attempt), s)
      else (ok tt, drop_owner a.effect_id s)
]

-- `_retire_live_effect_attempt`
unfoldable pub retire_live : ℕ → Action (Unit {0})
unfolding retire_of
retire_live ha = do a ← attempt_of ha; retire_of ha a

-- The lineage that a snapshot gives a record.
abbrev pub lineage_of : IntentSnapshot → String → Lineage
lineage_of snap binding = record {
  semantic_key = snap.semantic_key;
  action_type = snap.action_type;
  intent_hash = snap.intent_hash;
  policy_binding = binding;
  actor_id = some snap.actor_id;
  target_type = some snap.target_type;
  target_id = some snap.target_id;
}

-- `_reservation_record`
unfoldable pub reservation_record :
    ApprovalGrant → EffectAttempt → IntentSnapshot → String → String → EffectLedgerRecord
reservation_record g a snap binding time = record {
  effect_id = a.effect_id;
  state = reserved;
  lineage = lineage_of snap binding;
  approver = some g.approver;
  timestamp = time;
  details = dict (
      field (name "attempt_id") (text a.attempt_id)
        (field (name "grant_id") (text g.grant_id) end));
}

abbrev pub closure_text : ClosureReason → String
closure_text killed_before_permit = "kill_switch_before_permit"
closure_text (denied_before_permit expired_grant) = "expired_before_permit"
closure_text (denied_before_permit spent_grant) = "spent_before_permit"
closure_text (denied_before_permit revoked_grant) = "revoked_before_permit"
closure_text (denied_before_permit epoch_mismatch) = "epoch_mismatch_before_permit"
closure_text (denied_before_permit intent_mismatch) = "intent_mismatch_before_permit"
closure_text (denied_before_permit actor_mismatch) = "actor_mismatch_before_permit"
closure_text (denied_before_permit policy_mismatch) = "policy_mismatch_before_permit"
closure_text (denied_before_permit approval_already_claimed) =
    "approval_already_claimed_before_permit"
closure_text (denied_before_permit attempts_exhausted) = "attempts_exhausted_before_permit"
closure_text (denied_before_permit claim_not_held) = "claim_not_held_before_permit"

-- The record of `_close_reserved_before_permit`.
unfoldable pub closure_record :
    ApprovalGrant
    → EffectAttempt
    → IntentSnapshot
    → String
    → ClosureReason
    → String
    → EffectLedgerRecord
closure_record g a snap binding reason time = record {
  effect_id = a.effect_id;
  state = no_effect;
  lineage = lineage_of snap binding;
  approver = some g.approver;
  timestamp = time;
  details = dict (
      field (name "attempt_id") (text a.attempt_id) (
        field (name "grant_id") (text g.grant_id)
          (field (name "reason") (text (closure_text reason)) end)));
}

-- Raises what a failed append amounts to: a record that does not validate is a `ValueError`, any
-- other failure an `EffectLedgerError` and thereby the given error.
unfoldable pub or_raise : GatewayError → Option LedgerError → Action (Unit {0})
or_raise e none = ret tt
or_raise e (some value_error) = throw record_value_error
or_raise e (some failed) = throw e
or_raise e (some (corrupt c)) = throw e

-- `_close_reserved_before_permit`
unfoldable pub close_reserved :
    Write → ℕ → ℕ → IntentSnapshot → String → ClosureReason → Action (Unit {0})
unfolding closure_record
close_reserved w hg ha snap binding reason = do
  g ← grant_of hg
  a ← attempt_of ha
  failure ← append_fact w (closure_record g a snap binding reason w.timestamp)
  or_raise (denied prepermit_close_failed) failure
  mark ha mark_no_effect_after_authority
  retire_live ha
