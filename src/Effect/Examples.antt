-- ===== src/Effect/Examples.antt =====
-- The theorems on the effect ledger at concrete histories, files and answers of the operating
-- system.
use wire_agent.Base.{ℕ, ◌↔◌, In, String, true, false, ◌≡◌, refl, none, some, List, [], ◌∷◌}
use wire_agent.Base.Results.{ok, err}
use wire_agent.Json.{
  Value, Fields, validate_json_value, value_eq, canonical, insert_field, Value-discrete, field, end,
  dict, name, null, boolean, integer,
}
use wire_agent.Base.Dict.{get}
use wire_agent.Storage.{Line, row, no_file, Io, write_all}
use wire_agent.Json.Same.{same as same_value}
use wire_agent.Effect.Record.{
  EffectState, reserved, no_effect, effect_confirmed, Lineage, EffectLedgerRecord, SameFact,
  validate,
}
use wire_agent.Effect.History.{Corruption, corrupt, validate_history}
use wire_agent.Effect.History.Lawful.{IsLawful, of_effect, validate_history-IsLawful}
use wire_agent.Effect.File.{
  LedgerFile, read_records, append_durable, append_row, latest, repeats, decode,
}
use wire_agent.Effect.File.Append.{Shows, After, append_durable-After}
use wire_agent.Effect.File.Outcome.{IsRecorded, append_durable-IsRecorded}
use wire_agent.Effect.File.Refusal.{settled_refuses}
use wire_agent.Effect.Projection.{
  IsPending, unresolved_semantic_keys, unresolved_semantic_keys_exact,
}

abbrev post_lineage : Lineage
post_lineage = record {
  semantic_key = "post:hello";
  action_type = "post";
  intent_hash = "i1";
  policy_binding = "p1";
  actor_id = some "a1";
  target_type = none;
  target_id = none;
}

abbrev fact : EffectState → EffectLedgerRecord
fact s = record {
  effect_id = "e1";
  state = s;
  lineage = post_lineage;
  approver = some "human";
  timestamp = "t1";
  details = Value.dict Fields.end;
}

abbrev all_ok : Io
all_ok = record {
  readable = true;
  parent_ok = true;
  open_ok = true;
  writes = some 4 ∷ (some 7 ∷ []);
  fsync_ok = true;
  dir_fsync_ok = true;
  stat_ok = true;
  stat_after_ok = true;
}

abbrev size : EffectLedgerRecord → ℕ
size r = 10

-- A ledger with these facts, all durable.
abbrev ledger : List EffectLedgerRecord → LedgerFile
ledger rs =
    let ls = rows rs in
    record {
      exists = true;
      lines = ls;
      torn = false;
      utf8 = true;
      durable = ls;
      entry_durable = true;
    }
  where
    rows : List EffectLedgerRecord → List (Line EffectLedgerRecord)
    rows [] = []
    rows (r ∷ rs) = row r ∷ rows rs

append_durable-IsRecorded_example :
    (rs : List EffectLedgerRecord) × Shows (append_durable size all_ok no_file (fact reserved)).1 rs
    × IsRecorded (fact reserved) rs
    × ((append_durable size all_ok no_file (fact reserved)).1.durable
        ≡ (append_durable size all_ok no_file (fact reserved)).1.lines)
unfolding append_durable append_row validate read_records repeats latest validate_history write_all
    validate_json_value get
append_durable-IsRecorded_example =
    append_durable-IsRecorded size all_ok no_file (fact reserved) refl

-- The third write fails after eleven of the bytes.
abbrev write_fails : Io
write_fails = record all_ok { writes = some 4 ∷ (some 3 ∷ (none ∷ [])) }

append_durable-After_example :
    After
      (fact reserved ∷ [])
      (fact effect_confirmed)
      (append_durable size write_fails (ledger (fact reserved ∷ [])) (fact effect_confirmed)).1
unfolding read_records decode validate validate_history validate_json_value get
append_durable-After_example =
    append_durable-After size write_fails (ledger (fact reserved ∷ [])) (fact effect_confirmed)
      (fact reserved ∷ []) refl

settled_refuses_example :
    (c : Corruption) × (append_durable size all_ok
        (ledger (fact effect_confirmed ∷ []))
        (fact no_effect)
      ≡ (err (corrupt c), ledger (fact effect_confirmed ∷ [])))
unfolding read_records decode validate validate_history latest validate_json_value get
settled_refuses_example =
    settled_refuses size all_ok (ledger (fact effect_confirmed ∷ [])) (fact no_effect)
      {rs = fact effect_confirmed ∷ []} refl (fact effect_confirmed) refl (λ e. cc)
      (λ s. let e = s.state in cc) refl

-- The order of the entries of a dictionary does not matter.
reordered :
    value_eq
      (dict (field (name "b") null (field (name "a") (boolean true) end)))
      (dict (field (name "a") (integer false 1) (field (name "b") null end)))
    ≡ true
unfolding value_eq canonical insert_field Value-discrete
reordered = refl

same : SameFact (fact reserved) (fact reserved)
same = record {
  effect_id = refl;
  state = refl;
  lineage = refl;
  approver = refl;
  details = same_value (dict end);
}

validate_history-IsLawful_example :
    (validate_history (fact reserved ∷ (fact no_effect ∷ [])) ≡ ok tt)
    ↔ ((i : String) → IsLawful (of_effect i (fact reserved ∷ (fact no_effect ∷ []))))
validate_history-IsLawful_example =
    validate_history-IsLawful (fact reserved ∷ (fact no_effect ∷ []))

unresolved_semantic_keys_exact_example :
    (ks : List String) × (unresolved_semantic_keys all_ok (ledger (fact reserved ∷ [])) ≡ ok ks)
    × ((k : String)
        → In k ks ↔ (
            (i : String) × (r : EffectLedgerRecord) × IsPending (fact reserved ∷ []) i r
            × (k ≡ r.lineage.semantic_key)))
unfolding read_records decode validate validate_history validate_json_value get
unresolved_semantic_keys_exact_example =
    unresolved_semantic_keys_exact all_ok (ledger (fact reserved ∷ [])) (fact reserved ∷ []) refl
