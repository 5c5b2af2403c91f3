-- ===== src/Gateway/Fact.antt =====
-- What a record of the effect ledger says of a permit, in the permit's own terms.
use wire_agent.Base.{arith, String, ◌≡◌, refl, ap, none, some, List}
use wire_agent.Json.{null, text, dict, Fields, field, end, name}
use wire_agent.Policy.{verb_text}
use wire_agent.Effect.Record.{EffectLedgerRecord, EffectState}
use wire_agent.Effect.File.{LedgerFile}
use wire_agent.Effect.File.Append.{Shows}
use wire_agent.Effect.File.Outcome.{IsRecorded}
use wire_agent.Gateway.State.{EffectPermit}
use wire_agent.Gateway.Permit.{with_lineage, terminal_record}
use wire_agent.Gateway.Outcome.{IsDurable}

-- The record is of the effect of the permit, and has its lineage.
pub record HasLineage (p : EffectPermit) (r : EffectLedgerRecord) : Type 0 where
  pub effect_id : r.effect_id ≡ p.effect_id
  pub semantic_key : r.lineage.semantic_key ≡ p.semantic_key
  pub action_type : r.lineage.action_type ≡ p.action_type
  pub intent_hash : r.lineage.intent_hash ≡ p.intent_hash
  pub policy_binding : r.lineage.policy_binding ≡ p.policy_binding
  pub actor_id : r.lineage.actor_id ≡ some p.actor_id
  pub target_type : r.lineage.target_type ≡ some p.target_type
  pub target_id : r.lineage.target_id ≡ some p.target_id
  pub approver : r.approver ≡ some p.approver

-- Entries, and after them the ids of the permit and what it was used for.
abbrev pub signed : EffectPermit → Fields → Fields
signed p end = field (name "attempt_id") (text p.attempt_id) (
    field (name "grant_id") (text p.grant_id) (
      field (name "permit_id") (text p.permit_id) (
        field (name "effect") (elim p.consumed_effect [ none ↦ null | some v ↦ text (verb_text v) ])
          end)))
signed p (field k v fs) = field k v (signed p fs)

-- The ledger is readable, its latest record of the effect of the permit states the fact with the
-- evidence, and every line is durable.
pub record IsFact (p : EffectPermit) (st : EffectState) (evidence : Fields) (f : LedgerFile)
    : Type 0 where
  pub fact : EffectLedgerRecord
  pub state : fact.state ≡ st
  pub lineage : HasLineage p fact
  pub details : fact.details ≡ dict (signed p evidence)
  pub history : List EffectLedgerRecord
  pub shows : Shows f history
  pub recorded : IsRecorded fact history
  pub durable : f.durable ≡ f.lines

with_lineage-signed : (p : EffectPermit) (fs : Fields) → with_lineage p fs ≡ signed p fs
unfolding with_lineage
with_lineage-signed p end = ground arith
with_lineage-signed p (field k v fs) = ap (field k v) (with_lineage-signed p fs)

pub terminal_record-IsFact :
    (p : EffectPermit) (st : EffectState) (fs : Fields) (time : String) (f : LedgerFile)
    → IsDurable (terminal_record p st fs time) f
    → IsFact p st fs f
unfolding terminal_record
terminal_record-IsFact p st fs time f d = record {
  fact = terminal_record p st fs time;
  state = refl;
  lineage = record {
    effect_id = refl;
    semantic_key = refl;
    action_type = refl;
    intent_hash = refl;
    policy_binding = refl;
    actor_id = refl;
    target_type = refl;
    target_id = refl;
    approver = refl;
  };
  details = ap dict (with_lineage-signed p fs);
  history = d.history;
  shows = d.shows;
  recorded = d.recorded;
  durable = d.durable;
}
