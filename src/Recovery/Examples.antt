-- ===== src/Recovery/Examples.antt =====
-- The theorems on the recovery projector and the recovery guard at concrete histories and ledgers.
use wire_agent.Base.{
  sort_by, ◌↔◌, In, String, true, false, ◌≡◌, refl, inl, Option, none, some, [], ◌∷◌,
}
use wire_agent.Base.Results.{ok, err}
use wire_agent.Base.Dict.{get, put}
use wire_agent.Json.{Value, Fields, validate_json_value}
use wire_agent.Storage.{row, File, no_file, Io}
use wire_agent.Effect.Record.{effect_unknown, Lineage, lineage_eq, EffectLedgerRecord, validate}
use wire_agent.Effect.History.{validate_history}
use wire_agent.Effect.File.{read_records, decode}
use wire_agent.Effect.Projection.{last_by_effect}
use wire_agent.Reconciliation.Record.{ReconciliationRecord, confirmed_effect}
use wire_agent.Reconciliation.History.{validate_history as validate_rows}
use wire_agent.Reconciliation.Ledger.{
  read_authoritative, read_records_unchecked, decode as decode_rows,
}
use wire_agent.Recovery.Projector.{
  unresolved_unknown, reconciled_effect, CompositeRecoveryProjection, first_by_effect,
  check_reconciliation, reconciliation_by_effect, project_effect, project_effects, join,
}
use wire_agent.Recovery.Projector.Exact.{IsEntry, join_sound}
use wire_agent.Recovery.Guard.{
  RecoveryEffect, RecoveryBlock, new_guard, unavailable, Ledgers, cached_block, require_clear,
}
use wire_agent.Recovery.Guard.Exact.{IsUnresolved, effect_in}
use wire_agent.Recovery.Guard.Denial.{effects_of, unfit, require_clear_exact, require_clear_closed}

abbrev post_lineage : Lineage
post_lineage = record {
  semantic_key = "post:hello";
  action_type = "post";
  intent_hash = "i1";
  policy_binding = "p1";
  actor_id = some "a1";
  target_type = none;
  target_id = none;
}

abbrev fact : EffectLedgerRecord
fact = record {
  effect_id = "e1";
  state = effect_unknown;
  lineage = post_lineage;
  approver = some "human";
  timestamp = "t1";
  details = Value.dict Fields.end;
}

abbrev settling : String → ReconciliationRecord
settling e = record {
  reconciliation_id = "q1";
  effect_id = e;
  lineage = post_lineage;
  verdict = confirmed_effect;
  operator_id = "o1";
  evidence_hash = "h1";
  timestamp = "t2";
  evidence_json = "{}";
}

abbrev all_ok : Io
all_ok = record {
  readable = true;
  parent_ok = true;
  open_ok = true;
  writes = [];
  fsync_ok = true;
  dir_fsync_ok = true;
  stat_ok = true;
  stat_after_ok = true;
}

abbrev file_of : {R : Type 0} → R → File R
file_of r = record {
  exists = true;
  lines = row r ∷ [];
  torn = false;
  utf8 = true;
  durable = row r ∷ [];
  entry_durable = true;
}

-- The entry of the effect, with and without its reconciliation.
abbrev open_entry : CompositeRecoveryProjection
open_entry = record {
  effect_id = "e1";
  semantic_key = "post:hello";
  raw_state = effect_unknown;
  disposition = unresolved_unknown;
  unresolved = true;
  first_record = fact;
  last_record = fact;
  reconciliation = none;
}

abbrev settled_entry : CompositeRecoveryProjection
settled_entry = record open_entry {
  disposition = reconciled_effect;
  unresolved = false;
  reconciliation = some (settling "e1");
}

joined : join (fact ∷ []) (settling "e1" ∷ []) ≡ ok (settled_entry ∷ [])
unfolding join first_by_effect last_by_effect reconciliation_by_effect check_reconciliation
    project_effects project_effect lineage_eq get put sort_by
joined = refl

join_sound_example : IsEntry (fact ∷ []) (settling "e1" ∷ []) settled_entry
join_sound_example =
    join_sound (fact ∷ []) (settling "e1" ∷ []) (settled_entry ∷ []) joined settled_entry (inl refl)

-- Ledgers with one effect, and with no or one reconciliation.
abbrev ledgers : File ReconciliationRecord → Ledgers
ledgers f = record {
  effect_io = all_ok;
  reconciliation_io = all_ok;
  effects = file_of fact;
  reconciliations = record { file = f; ambiguous_fact = none };
}

require_clear_exact_example :
    (b : Option RecoveryBlock) × ((require_clear (ledgers no_file) "post:hello" true new_guard).0
      ≡ ok b)
    × ((e : RecoveryEffect)
        → In e (effects_of b) ↔ (
            (i : String) × (r : EffectLedgerRecord) × IsUnresolved (fact ∷ []) [] "post:hello" i r
            × (e ≡ effect_in i r)))
    × ((b ≡ none)
        ↔ ((i : String) (r : EffectLedgerRecord) → ¬ IsUnresolved (fact ∷ []) [] "post:hello" i r))
unfolding read_records decode validate validate_json_value validate_history read_authoritative
    read_records_unchecked join first_by_effect last_by_effect reconciliation_by_effect
    project_effects project_effect get put sort_by
require_clear_exact_example =
    require_clear_exact (ledgers no_file) "post:hello" new_guard (fact ∷ []) [] (open_entry ∷ [])
      (record { effects = refl; reconciliations = refl; joins = refl }) (λ e. cc)

-- The reconciliation is of an effect that the ledger does not know.
require_clear_closed_example :
    ((require_clear (ledgers (file_of (settling "e2"))) "post:hello" true new_guard).0
      ≡ err unavailable)
    × ((j : String)
        → cached_block j
            (require_clear (ledgers (file_of (settling "e2"))) "post:hello" true new_guard).1
          ≡ err unavailable)
unfolding read_records decode validate validate_json_value validate_history read_authoritative
    read_records_unchecked decode_rows validate_rows get
require_clear_closed_example =
    require_clear_closed (ledgers (file_of (settling "e2"))) "post:hello" new_guard
      (unfit (fact ∷ []) (settling "e2" ∷ []) (settling "e2") refl refl (inl refl)
        (λ (first, last, a, _, _, _). cc))
      (λ e. cc)
