-- ===== src/Recovery/Projector.antt =====
-- `RecoveryProjector` of src/webwire/safety/recovery_projector.py. The publication fence is a
-- lock: each function here runs whole.
pub mod Exact
use wire_agent.Base.{
  String, Bool, true, false, ◌≡◌, Option, none, some, List, [], ◌∷◌, if◌then◌else◌, sort_by,
}
use wire_agent.Base.Results.{Result, ok, err, ◌>>=◌, ◌>>◌}
use wire_agent.Base.Dict.{Dict, get, put}
use wire_agent.Storage.{Io}
use wire_agent.Effect.Record.{
  EffectState, EffectLedgerRecord, no_effect, effect_confirmed, reserved, effect_unknown,
  is_unresolved, lineage_eq,
}
use wire_agent.Effect.History.{LedgerError as EffectLedgerError}
use wire_agent.Effect.File.{LedgerFile as EffectFile, read_records}
use wire_agent.Effect.Projection.{last_by_effect}
use wire_agent.Reconciliation.Record.{
  ReconciliationRecord, ReconciliationVerdict, confirmed_effect, confirmed_no_effect,
}
use wire_agent.Reconciliation.History.{LedgerError as ReconciliationLedgerError}
use wire_agent.Reconciliation.Ledger.{PathState, read_authoritative}

pub data RecoveryDisposition : Type 0 where
  settled_no_effect settled_effect unresolved_unknown : RecoveryDisposition
  reconciled_effect reconciled_no_effect : RecoveryDisposition

-- Why the two histories form no composite history.
pub data Mismatch : Type 0 where
  missing_effect already_settled changed_lineage settled_with_reconciliation : Mismatch
  key_error : Mismatch

-- What `project` raises.
pub data ProjectorError : Type 0 where
  corrupt : Mismatch → ProjectorError
  effect_ledger : EffectLedgerError → ProjectorError
  reconciliation_ledger : ReconciliationLedgerError → ProjectorError

pub record CompositeRecoveryProjection : Type 0 where
  pub effect_id : String
  pub semantic_key : String
  pub raw_state : EffectState
  pub disposition : RecoveryDisposition
  pub unresolved : Bool
  pub first_record : EffectLedgerRecord
  pub last_record : EffectLedgerRecord
  pub reconciliation : Option ReconciliationRecord

-- `setdefault` for each record.
unfoldable pub first_by_effect :
    Dict EffectLedgerRecord → List EffectLedgerRecord → Dict EffectLedgerRecord
first_by_effect d [] = d
first_by_effect d (r ∷ rs) =
    first_by_effect (elim (get d r.effect_id) [ none ↦ put d r.effect_id r | some _ ↦ d ]) rs

-- One round of the loop over the reconciliations: its tests.
unfoldable pub check_reconciliation :
    Option EffectLedgerRecord
    → Option EffectLedgerRecord
    → ReconciliationRecord
    → Result Mismatch (Unit {0})
check_reconciliation (some first) (some last) q =
    if is_unresolved last.state
    then if lineage_eq q.lineage first.lineage then ok tt else err changed_lineage
    else err already_settled
check_reconciliation _ _ q = err missing_effect

-- `reconciliation_by_effect`
unfoldable pub reconciliation_by_effect :
    Dict EffectLedgerRecord
    → Dict EffectLedgerRecord
    → Dict ReconciliationRecord
    → List ReconciliationRecord
    → Result Mismatch (Dict ReconciliationRecord)
reconciliation_by_effect first last d [] = ok d
reconciliation_by_effect first last d (q ∷ qs) =
    check_reconciliation (get first q.effect_id) (get last q.effect_id) q
    >> reconciliation_by_effect first last (put d q.effect_id q) qs

-- `_disposition`. Each state is settled or in `_RECONCILABLE_STATES`, and there are two verdicts,
-- so the other refusals of the source cannot be reached.
abbrev pub verdict_disposition : ReconciliationVerdict → RecoveryDisposition
verdict_disposition confirmed_effect = reconciled_effect
verdict_disposition confirmed_no_effect = reconciled_no_effect

unfoldable pub disposition_of :
    EffectState → Option ReconciliationRecord → Result Mismatch RecoveryDisposition
disposition_of no_effect none = ok settled_no_effect
disposition_of no_effect (some q) = err settled_with_reconciliation
disposition_of effect_confirmed none = ok settled_effect
disposition_of effect_confirmed (some q) = err settled_with_reconciliation
disposition_of _ none = ok unresolved_unknown
disposition_of _ (some q) = ok (verdict_disposition q.verdict)

abbrev pub is_unresolved_unknown : RecoveryDisposition → Bool
is_unresolved_unknown unresolved_unknown = true
is_unresolved_unknown _ = false

-- The entry of one effect.
unfoldable pub project_effect :
    Dict EffectLedgerRecord
    → Dict ReconciliationRecord
    → String
    → EffectLedgerRecord
    → Result Mismatch CompositeRecoveryProjection
unfolding disposition_of
project_effect first reconciliations i last = do
  d ← disposition_of last.state (get reconciliations i)
  elim (get first i) [
    | none ↦ err key_error
    | some f ↦ ok (record {
      effect_id = i;
      semantic_key = last.lineage.semantic_key;
      raw_state = last.state;
      disposition = d;
      unresolved = is_unresolved_unknown d;
      first_record = f;
      last_record = last;
      reconciliation = get reconciliations i;
    })
  ]

unfoldable pub project_effects :
    Dict EffectLedgerRecord
    → Dict ReconciliationRecord
    → Dict EffectLedgerRecord
    → Result Mismatch (List CompositeRecoveryProjection)
project_effects first reconciliations [] = ok []
project_effects first reconciliations ((i, last) ∷ d) = do
  p ← project_effect first reconciliations i last
  ps ← project_effects first reconciliations d
  ok (p ∷ ps)

-- The join of the two histories.
unfoldable pub join :
    List EffectLedgerRecord
    → List ReconciliationRecord
    → Result Mismatch (List CompositeRecoveryProjection)
join es qs = do
  let first = first_by_effect [] es
  let last = last_by_effect [] es
  reconciliations ← reconciliation_by_effect first last [] qs
  ps ← project_effects first reconciliations last
  ok (sort_by (λ p. p.effect_id) ps)

-- `project`: both ledgers are read, the reconciliations with authority.
unfoldable pub project :
    Io
    → Io
    → EffectFile
    → PathState
    → Result ProjectorError (List CompositeRecoveryProjection) × PathState
project io io' f s = elim (read_records io f) [
  | err e ↦ (err (effect_ledger e), s)
  | ok es ↦
      (let (read, s') = read_authoritative io' s in
        (
          elim read [
            | err e ↦ err (reconciliation_ledger e)
            | ok qs ↦ elim (join es qs) [ err e ↦ err (corrupt e) | ok ps ↦ ok ps ]
          ],
          s',
        ))
]
