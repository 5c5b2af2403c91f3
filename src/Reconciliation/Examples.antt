-- ===== src/Reconciliation/Examples.antt =====
-- The theorems on the reconciliation ledger at concrete rows, files and answers of the operating
-- system.
use wire_agent.Base.{ℕ, String, true, false, ◌≡◌, refl, inl, none, some, [], ◌∷◌}
use wire_agent.Base.Results.{err}
use wire_agent.Base.Dict.{get}
use wire_agent.Storage.{row, no_file, Io, write_all}
use wire_agent.Reconciliation.Record.{
  ReconciliationRecord, ReconciliationVerdict, confirmed_effect, confirmed_no_effect,
}
use wire_agent.Reconciliation.History.{Corruption, corrupt, validate_history}
use wire_agent.Reconciliation.Ledger.{
  PathState, decode, read_records_unchecked, append_row, scan, append_clear, append_durable,
}
use wire_agent.Reconciliation.Ledger.Latch.{IsLatched, append_durable-IsLatched}
use wire_agent.Reconciliation.Ledger.Outcome.{IsEstablished, append_durable-IsEstablished}
use wire_agent.Reconciliation.Ledger.Refusal.{second_refused}

abbrev row_of : String → ReconciliationVerdict → ReconciliationRecord
row_of i v = record {
  reconciliation_id = i;
  effect_id = "e1";
  lineage = record {
    semantic_key = "post:hello";
    action_type = "post";
    intent_hash = "i1";
    policy_binding = "p1";
    actor_id = some "a1";
    target_type = none;
    target_id = none;
  };
  verdict = v;
  operator_id = "o1";
  evidence_hash = "h1";
  timestamp = "t1";
  evidence_json = "{}";
}

abbrev first_row : ReconciliationRecord
first_row = row_of "q1" confirmed_effect

abbrev second_row : ReconciliationRecord
second_row = row_of "q2" confirmed_no_effect

abbrev all_ok : Io
all_ok = record {
  readable = true;
  parent_ok = true;
  open_ok = true;
  writes = some 4 ∷ (some 7 ∷ []);
  fsync_ok = true;
  dir_fsync_ok = true;
  stat_ok = true;
  stat_after_ok = true;
}

-- The second write fails after four of the bytes.
abbrev write_fails : Io
write_fails = record all_ok { writes = some 4 ∷ (none ∷ []) }

abbrev size : ReconciliationRecord → ℕ
size r = 10

abbrev nothing_there : PathState
nothing_there = record { file = no_file; ambiguous_fact = none }

abbrev one_row : PathState
one_row = record {
  file = record {
    exists = true;
    lines = row first_row ∷ [];
    torn = false;
    utf8 = true;
    durable = row first_row ∷ [];
    entry_durable = true;
  };
  ambiguous_fact = none;
}

append_durable-IsLatched_example :
    IsLatched (append_durable size write_fails nothing_there first_row).1
append_durable-IsLatched_example =
    append_durable-IsLatched size write_fails nothing_there first_row (λ e. (refl, refl))

append_durable-IsEstablished_example :
    IsEstablished first_row (append_durable size all_ok nothing_there first_row).1
unfolding append_durable append_clear append_row read_records_unchecked scan validate_history
    write_all get
append_durable-IsEstablished_example =
    append_durable-IsEstablished size all_ok nothing_there first_row refl

second_refused_example :
    (c : Corruption) × (append_durable size all_ok one_row second_row ≡ (err (corrupt c), one_row))
unfolding read_records_unchecked decode validate_history get
second_refused_example =
    second_refused all_ok one_row {rs = first_row ∷ []} size first_row second_row refl refl
      (inl refl) refl (λ s. let e = s.verdict in cc)
