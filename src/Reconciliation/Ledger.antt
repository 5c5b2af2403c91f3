-- ===== src/Reconciliation/Ledger.antt =====
-- `ReconciliationLedger` of src/webwire/safety/reconciliation_ledger.py: the file and the
-- durability latch that all objects for one path share. A method takes this state and the answers
-- of the operating system, and returns its result with the state that it leaves.
pub mod Latch
pub mod Append
pub mod Outcome
pub mod Refusal
use wire_agent.Base.{
  ◌+◌, ℕ, suc, String, Bool, true, false, not, ◌&&◌, ◌≡◌, refl, Option, none, some, List, [], ◌∷◌,
  ◌++◌, ◌==◌, eqb, ltb, if◌then◌else◌,
}
use wire_agent.Base.Results.{Result, ok, err, ◌>>=◌, ◌>>◌}
use wire_agent.Storage.{Line, blank, malformed, row, File, opened, Io, write_all, after_write}
use wire_agent.Reconciliation.Record.{ReconciliationRecord, same_fact}
use wire_agent.Reconciliation.History.{
  LedgerError, corrupt, ambiguous, failed, not_utf8, torn_tail, blank_line, bad_line, id_collision,
  already_reconciled, validate_history,
}

abbrev pub LedgerFile : Type 0
LedgerFile = File ReconciliationRecord

-- `_PathState`, with the file at the path.
pub record PathState : Type 0 where
  pub file : LedgerFile
  pub ambiguous_fact : Option ReconciliationRecord

unfoldable pub decode :
    List (Line ReconciliationRecord) → Result LedgerError (List ReconciliationRecord)
decode [] = ok []
decode (blank ∷ ls) = err (corrupt blank_line)
decode (malformed ∷ ls) = err (corrupt bad_line)
decode (row r ∷ ls) = do rs ← decode ls; ok (r ∷ rs)

-- `_read_records_unchecked`
unfoldable pub read_records_unchecked :
    Io → LedgerFile → Result LedgerError (List ReconciliationRecord)
read_records_unchecked io f =
    if not f.exists
    then ok []
    else if not io.readable
    then err failed
    else if not f.utf8
    then err (corrupt not_utf8)
    else if f.torn
    then err (corrupt torn_tail)
    else (do rs ← decode f.lines; validate_history rs; ok rs)

-- `_redurable_existing_file`
unfoldable pub redurable_existing_file :
    Io → LedgerFile → Result LedgerError (Unit {0}) × LedgerFile
redurable_existing_file io f =
    if io.open_ok && io.fsync_ok
    then (if io.dir_fsync_ok
        then (ok tt, record f { durable = f.lines; entry_durable = true })
        else (err failed, record f { durable = f.lines }))
    else (err failed, f)

-- `read_authoritative`
unfoldable pub read_authoritative :
    Io → PathState → Result LedgerError (List ReconciliationRecord) × PathState
unfolding redurable_existing_file
read_authoritative io s = elim s.ambiguous_fact [
  | some a ↦ (err ambiguous, s)
  | none ↦ elim (read_records_unchecked io s.file) [
    | err e ↦ (err e, s)
    | ok rs ↦
        if not s.file.exists
        then (ok rs, s)
        else (let (done, f) = redurable_existing_file io s.file in
            ((do done; ok rs), record s { file = f }))
  ]
]

-- `_append_failure_may_have_changed_file`, with the file as it was before. Where no byte was
-- written the sizes before and after are equal.
unfoldable pub append_failure_may_have_changed_file : Io → LedgerFile → LedgerFile → ℕ → Bool
append_failure_may_have_changed_file io before now bytes_reported =
    if ltb 0 bytes_reported
    then true
    else if now.exists
    then not io.stat_after_ok
    else if io.stat_after_ok
    then before.exists
    else true

abbrev latch_if : Bool → ReconciliationRecord → PathState → PathState
latch_if true r s = record s { ambiguous_fact = some r }
latch_if false r s = s

-- From `payload = …` on.
unfoldable pub append_row :
    (ReconciliationRecord → ℕ)
    → Io
    → PathState
    → ReconciliationRecord
    → Result LedgerError (Unit {0}) × PathState
unfolding append_failure_may_have_changed_file
append_row size io s r =
    if not io.parent_ok
    then (err failed, s)
    else if not io.stat_ok
    then (err failed, s)
    else if not io.open_ok
    then (err failed, latch_if (append_failure_may_have_changed_file io s.file s.file 0) r s)
    else (let progress = write_all (size r + 1) 0 io.writes in
        let written = after_write (opened s.file) r progress in
        if progress.1 && io.fsync_ok
        then (let synced = record written { durable = written.lines } in
            if io.dir_fsync_ok
            then (ok tt, record s { file = record synced { entry_durable = true } })
            else (err failed, record s { file = synced; ambiguous_fact = some r }))
        else (
          err failed,
          latch_if (append_failure_may_have_changed_file io s.file written progress.0) r
              (record s { file = written }),
        ))

-- What the loop over the existing rows finds.
pub data Scan : Type 0 where
  fresh repeated collision reconciled : Scan

unfoldable pub scan : ReconciliationRecord → List ReconciliationRecord → Scan
scan r [] = fresh
scan r (p ∷ rs) =
    let rest = scan r rs in
    if p.reconciliation_id == r.reconciliation_id
    then if same_fact p r then repeated else collision
    else if p.effect_id == r.effect_id
    then reconciled
    else rest

-- How many of the rows are the fact.
unfoldable pub matching : ReconciliationRecord → List ReconciliationRecord → ℕ
matching r [] = 0
matching r (p ∷ rs) = let rest = matching r rs in if same_fact p r then suc rest else rest

-- `append_durable` with the latch set: only the exact fact is retried.
unfoldable pub append_latched :
    Io
    → PathState
    → ReconciliationRecord
    → ReconciliationRecord
    → Result LedgerError (Unit {0}) × PathState
unfolding redurable_existing_file
append_latched io s a r =
    if not (same_fact a r) then (err ambiguous, s) else elim (read_records_unchecked io s.file) [
      | err e ↦ (err e, s)
      | ok visible ↦
          if eqb (matching r visible) 1
          then (let (done, f) = redurable_existing_file io s.file in
              elim done [
                | ok _ ↦ (ok tt, record s { file = f; ambiguous_fact = none })
                | err e ↦ (err e, record s { file = f })
              ])
          else (err ambiguous, s)
    ]

-- `append_durable` with the latch clear.
unfoldable pub append_clear :
    (ReconciliationRecord → ℕ)
    → Io
    → PathState
    → ReconciliationRecord
    → Result LedgerError (Unit {0}) × PathState
unfolding redurable_existing_file
append_clear size io s r = elim (read_records_unchecked io s.file) [
  | err e ↦ (err e, s)
  | ok existing ↦ elim (scan r existing) [
    | repeated ↦
        (let (done, f) = redurable_existing_file io s.file in
          elim done [
            | ok _ ↦ (ok tt, record s { file = f })
            | err e ↦ (err e, record s { file = f; ambiguous_fact = some r })
          ])
    | collision ↦ (err (corrupt id_collision), s)
    | reconciled ↦ (err (corrupt already_reconciled), s)
    | fresh ↦ elim (validate_history (existing ++ (r ∷ []))) [
      | err e ↦ (err e, s)
      | ok _ ↦ append_row size io s r
    ]
  ]
]

-- `append_durable`, where `size` is the length of a record's JSON, without its newline.
unfoldable pub append_durable :
    (ReconciliationRecord → ℕ)
    → Io
    → PathState
    → ReconciliationRecord
    → Result LedgerError (Unit {0}) × PathState
append_durable size io s r = elim s.ambiguous_fact [
  | some a ↦ append_latched io s a r
  | none ↦ append_clear size io s r
]
