-- ===== src/Gateway/Permit.antt =====
-- The permits of `CommitGateway`: their consumption, their closure without an effect, and the
-- outcomes that are recorded for them, from `_require_issued_permit` to `record_effect_unknown`.
use wire_agent.Base.{
  ℕ, String, Bool, false, not, ◌&&◌, ◌||◌, Option, none, some, List, [], ◌∷◌, ◌==◌, eqb, leb,
  if◌then◌else◌,
}
use wire_agent.Base.Results.{ok, err}
use wire_agent.Base.Dict.{Dict, get, pop}
use wire_agent.Base.Heap.{at}
use wire_agent.Base.Strings.{strip}
use wire_agent.Json.{Value, null, text, dict, Fields, field, end, Key, name, other_key}
use wire_agent.Effect.Record.{EffectState, no_effect, EffectLedgerRecord}
use wire_agent.Effect.History.{LedgerError, corrupt, failed, value_error}
use wire_agent.Policy.{
  EffectPolicy, EffectVerb, verb_text, policy_missing as missing, policy_invalid, policy_fence,
}
use wire_agent.Approval.Attempt.{mark_no_effect_after_authority}
use wire_agent.Gateway.State.{
  EffectPermit, Issued, GatewayDenied, policy_missing, permit_reused, permit_unknown,
  expiry_close_failed, no_effect_close_failed, GatewayError, denied, state_error,
  lost_attempt_lineage, already_consumed, empty_reason, reserved_detail_keys, invalid_evidence,
  policy_value_error, Gateway, Action, ret, throw, ◌>>=◌, ◌>>◌, require, modify, permit_of, mark,
  Write, append_fact,
}
use wire_agent.Gateway.Owner.{lineage_of, retire_live}

-- `_policy_for` and the fence of the registry; `_current_policy_binding` is its binding.
unfoldable pub policy_of : String → Action EffectPolicy
policy_of action s = elim (policy_fence action s.policies) [
  | ok p ↦ (ok p, s)
  | err missing ↦ (err (denied policy_missing), s)
  | err policy_invalid ↦ (err policy_value_error, s)
]

-- `policy.binding_hash()`
unfoldable pub binding_of : EffectPolicy → Action String
binding_of p s = (ok (s.binding_hash p), s)

unfoldable pub current_policy_binding : String → Action String
unfolding policy_of binding_of
current_policy_binding action = do p ← policy_of action; binding_of p

-- The tests of `_require_issued_permit` on the object that the reference leads to.
unfoldable pub check_issued : ℕ → EffectPermit → Action EffectPermit
check_issued h p s = elim (get s.issued p.permit_id) [
  | none ↦ (err (denied (if p.consumed then permit_reused else permit_unknown)), s)
  | some i ↦ if eqb i.permit h then (ok p, s) else (err (denied permit_unknown), s)
]

-- `_require_issued_permit`, with the permit that the reference leads to.
unfoldable pub require_issued : ℕ → Action EffectPermit
unfolding check_issued
require_issued h = do p ← permit_of h; check_issued h p

-- `_canonical_attempt`
unfoldable pub canonical_attempt : EffectPermit → Action ℕ
canonical_attempt p s = elim (get s.issued p.permit_id) [
  | none ↦ (err (state_error lost_attempt_lineage), s)
  | some i ↦ (ok i.attempt, s)
]

-- `_evict_permit`
unfoldable pub evict : EffectPermit → Gateway → Gateway
evict p s = record s { issued = pop s.issued p.permit_id }

abbrev pub is_reserved_key : Key → Bool
is_reserved_key (name k) =
    k == "attempt_id" || (k == "grant_id" || (k == "permit_id" || k == "effect"))
is_reserved_key other_key = false

-- `_RESERVED_DETAIL_KEYS.intersection(evidence)` is not empty.
unfoldable pub overlaps : Fields → Bool
overlaps end = false
overlaps (field k v fs) = is_reserved_key k || overlaps fs

abbrev effect_value : Option EffectVerb → Value
effect_value none = null
effect_value (some v) = text (verb_text v)

-- `evidence.update`, where none of the new keys is there yet.
unfoldable pub with_lineage : EffectPermit → Fields → Fields
with_lineage p end = field (name "attempt_id") (text p.attempt_id) (
    field (name "grant_id") (text p.grant_id) (
      field (name "permit_id") (text p.permit_id)
        (field (name "effect") (effect_value p.consumed_effect) end)))
with_lineage p (field k v fs) = field k v (with_lineage p fs)

-- The record of `_terminal_record`.
unfoldable pub terminal_record : EffectPermit → EffectState → Fields → String → EffectLedgerRecord
unfolding with_lineage
terminal_record p state evidence time = record {
  effect_id = p.effect_id;
  state = state;
  lineage =
      lineage_of
        (record {
          action_type = p.action_type;
          target_type = p.target_type;
          target_id = p.target_id;
          actor_id = p.actor_id;
          semantic_key = p.semantic_key;
          intent_hash = p.intent_hash;
        })
        p.policy_binding;
  approver = some p.approver;
  timestamp = time;
  details = dict (with_lineage p evidence);
}

-- What a failed append of a terminal record amounts to: a record that does not validate was refused
-- by `_terminal_record`, any other failure is the given error.
abbrev pub terminal_failure : GatewayError → LedgerError → GatewayError
terminal_failure e value_error = state_error invalid_evidence
terminal_failure e failed = e
terminal_failure e (corrupt c) = e

abbrev pub raise_terminal : GatewayError → Option LedgerError → Action (Unit {0})
raise_terminal e none = ret tt
raise_terminal e (some x) = throw (terminal_failure e x)

-- `append_durable(_terminal_record(…))`, where a failure of the ledger raises `e`.
unfoldable pub append_terminal :
    Write → GatewayError → EffectPermit → EffectState → Fields → Action (Unit {0})
unfolding overlaps terminal_record
append_terminal w e p state evidence = do
  require (not (overlaps evidence)) (state_error reserved_detail_keys)
  failure ← append_fact w (terminal_record p state evidence w.timestamp)
  raise_terminal e failure

-- `_close_unconsumed_permit_no_effect`
unfoldable pub close_unconsumed : Write → String → GatewayDenied → ℕ → Action (Unit {0})
unfolding canonical_attempt append_terminal evict
close_unconsumed w reason failure h = do
  p ← permit_of h
  require (not p.consumed) (state_error already_consumed)
  ha ← canonical_attempt p
  if p.fenced
      then append_terminal w (denied failure) p no_effect (field (name "reason") (text reason) end)
      else ret tt
  mark ha mark_no_effect_after_authority
  retire_live ha
  modify (evict p)

-- `close_unconsumed_permit_no_effect`
unfoldable pub close_unconsumed_permit_no_effect : Write → String → ℕ → Action (Unit {0})
unfolding close_unconsumed require_issued
close_unconsumed_permit_no_effect w reason h = do
  require (not (strip reason == "")) (state_error empty_reason)
  require_issued h
  close_unconsumed w (strip reason) no_effect_close_failed h

-- `_close_expired_unconsumed`
unfoldable pub close_expired : Write → ℕ → Action (Unit {0})
unfolding close_unconsumed
close_expired w h = close_unconsumed w "permit_expired" expiry_close_failed h

-- The permits that `_prune_expired_unconsumed` collects.
unfoldable pub expired_permits : ℕ → List EffectPermit → Dict Issued → List ℕ
expired_permits now ps [] = []
expired_permits now ps ((k, i) ∷ d) =
    let rest = expired_permits now ps d in
    elim (at ps i.permit) [
      | none ↦ rest
      | some p ↦ if not p.consumed && leb p.expires_at now then i.permit ∷ rest else rest
    ]

unfoldable pub close_each : (ℕ → Write) → List ℕ → Action (Unit {0})
unfolding close_expired
close_each closes [] = ret tt
close_each closes (h ∷ hs) = close_expired (closes h) h >> close_each closes hs

-- `_prune_expired_unconsumed`, with what happens to the closure of each permit.
unfoldable pub prune_expired : ℕ → (ℕ → Write) → Action (Unit {0})
unfolding expired_permits close_each
prune_expired now closes s = close_each closes (expired_permits now s.permits s.issued) s
