-- ===== src/Reconciliation/Record.antt =====
-- `ReconciliationVerdict`, `ReconciliationRecord` and `_same_fact` of
-- src/webwire/safety/reconciliation_ledger.py.
use wire_agent.Base.{
  refl, String, Bool, true, ◌&&◌, ◌≡◌, ◌↔◌, ◌==◌, eq_iff, arith, decided, decided_iff,
}
use wire_agent.Effect.Record.{Lineage, lineage_eq, lineage_eq_iff}

pub data ReconciliationVerdict : Type 0 where
  confirmed_effect confirmed_no_effect : ReconciliationVerdict

unfoldable pub ReconciliationVerdict-discrete : Discrete ReconciliationVerdict
ReconciliationVerdict-discrete = hlevel

pub record ReconciliationRecord : Type 0 where
  pub reconciliation_id : String
  pub effect_id : String
  pub lineage : Lineage
  pub verdict : ReconciliationVerdict
  pub operator_id : String
  pub evidence_hash : String
  pub timestamp : String
  -- the canonical text of the evidence
  pub evidence_json : String

unfoldable pub same_fact : ReconciliationRecord → ReconciliationRecord → Bool
same_fact a b =
    a.reconciliation_id == b.reconciliation_id
    && (a.effect_id == b.effect_id
        && (lineage_eq a.lineage b.lineage
            && (decided (ReconciliationVerdict-discrete a.verdict b.verdict)
                && (a.operator_id == b.operator_id
                    && (a.evidence_hash == b.evidence_hash
                        && a.evidence_json == b.evidence_json)))))

-- The two records state one fact, perhaps at two times.
pub record SameFact (a b : ReconciliationRecord) : Type 0 where
  pub reconciliation_id : a.reconciliation_id ≡ b.reconciliation_id
  pub effect_id : a.effect_id ≡ b.effect_id
  pub lineage : a.lineage ≡ b.lineage
  pub verdict : a.verdict ≡ b.verdict
  pub operator_id : a.operator_id ≡ b.operator_id
  pub evidence_hash : a.evidence_hash ≡ b.evidence_hash
  pub evidence_json : a.evidence_json ≡ b.evidence_json

pub same_fact_iff : (a b : ReconciliationRecord) → (same_fact a b ≡ true) ↔ SameFact a b
unfolding same_fact
same_fact_iff a b = ground (
  arith,
  eq_iff a.reconciliation_id b.reconciliation_id,
  eq_iff a.effect_id b.effect_id,
  lineage_eq_iff a.lineage b.lineage,
  decided_iff (ReconciliationVerdict-discrete a.verdict b.verdict),
  eq_iff a.operator_id b.operator_id,
  eq_iff a.evidence_hash b.evidence_hash,
  eq_iff a.evidence_json b.evidence_json,
)

pub SameFact-refl : (r : ReconciliationRecord) → SameFact r r
SameFact-refl r = record {
  reconciliation_id = refl;
  effect_id = refl;
  lineage = refl;
  verdict = refl;
  operator_id = refl;
  evidence_hash = refl;
  evidence_json = refl;
}
