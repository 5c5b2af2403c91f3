-- ===== src/Effect/File.antt =====
-- The file of the effect ledger: `read_records`, `_redurable_existing_fact` and
-- `append_durable` of src/webwire/safety/effect_ledger.py. A method takes the file and what the
-- operating system answers to its calls, and returns its result with the file that it leaves.
pub mod Append
pub mod Outcome
pub mod Refusal
use wire_agent.Base.{
  ◌+◌, ℕ, ◌+◌, String, Bool, true, false, not, ◌&&◌, ◌≡◌, refl, Option, none, some, List, [], ◌∷◌,
  ◌++◌, ◌==◌, eqb, ltb, leb, arith, if◌then◌else◌,
}
use wire_agent.Base.Results.{Result, ok, err, ◌>>=◌, ◌>>◌}
use wire_agent.Storage.{
  Line, blank, malformed, row, File, no_file, opened, Io, write_all, after_write,
}
use wire_agent.Effect.Record.{EffectLedgerRecord, validate, same_fact}
use wire_agent.Effect.History.{
  LedgerError, Corruption, corrupt, failed, value_error, not_utf8, torn_tail, bad_line,
  validate_history,
}

abbrev pub LedgerFile : Type 0
LedgerFile = File EffectLedgerRecord

-- The records of the lines: blank lines are skipped.
unfoldable pub decode :
    List (Line EffectLedgerRecord) → Result LedgerError (List EffectLedgerRecord)
decode [] = ok []
decode (blank ∷ ls) = decode ls
decode (malformed ∷ ls) = err (corrupt bad_line)
decode (row r ∷ ls) =
    let rest = decode ls in
    if validate r then (do rs ← rest; ok (r ∷ rs)) else err (corrupt bad_line)

unfoldable pub read_records : Io → LedgerFile → Result LedgerError (List EffectLedgerRecord)
read_records io f =
    if not f.exists
    then ok []
    else if not io.readable
    then err failed
    else if not f.utf8
    then err (corrupt not_utf8)
    else if f.torn
    then err (corrupt torn_tail)
    else (do rs ← decode f.lines; validate_history rs; ok rs)

-- `_redurable_existing_fact`
unfoldable pub redurable_existing_fact :
    Io → LedgerFile → Result LedgerError (Unit {0}) × LedgerFile
redurable_existing_fact io f =
    if io.open_ok && io.fsync_ok
    then (if io.dir_fsync_ok
        then (ok tt, record f { durable = f.lines; entry_durable = true })
        else (err failed, record f { durable = f.lines }))
    else (err failed, f)

-- From `existed = self._path.exists()` on.
unfoldable pub append_row :
    (EffectLedgerRecord → ℕ)
    → Io
    → LedgerFile
    → EffectLedgerRecord
    → Result LedgerError (Unit {0}) × LedgerFile
append_row size io f r =
    if not io.parent_ok
    then (err failed, f)
    else if not io.open_ok
    then (err failed, f)
    else (let progress = write_all (size r + 1) 0 io.writes in
        let written = after_write (opened f) r progress in
        if progress.1 && io.fsync_ok
        then (let synced = record written { durable = written.lines } in
            if f.exists
            then (ok tt, synced)
            else if io.dir_fsync_ok
            then (ok tt, record synced { entry_durable = true })
            else (err failed, synced))
        else (err failed, written))

-- The last record of the effect: the first that the loop over `reversed(existing)` meets.
unfoldable pub latest : String → List EffectLedgerRecord → Option EffectLedgerRecord
latest i [] = none
latest i (r ∷ rs) =
    let rest = latest i rs in
    elim rest [ some p ↦ some p | none ↦ if r.effect_id == i then some r else none ]

-- `record` repeats the latest fact of its effect.
unfoldable pub repeats : List EffectLedgerRecord → EffectLedgerRecord → Bool
repeats rs r = elim (latest r.effect_id rs) [ none ↦ false | some p ↦ same_fact p r ]

-- `append_durable`, where `size` is the length of a record's JSON, without its newline.
unfoldable pub append_durable :
    (EffectLedgerRecord → ℕ)
    → Io
    → LedgerFile
    → EffectLedgerRecord
    → Result LedgerError (Unit {0}) × LedgerFile
append_durable size io f r =
    if not (validate r) then (err value_error, f) else elim (read_records io f) [
      | err e ↦ (err e, f)
      | ok rs ↦
          if repeats rs r
          then redurable_existing_fact io f
          else elim (validate_history (rs ++ (r ∷ []))) [
            | err e ↦ (err e, f)
            | ok _ ↦ append_row size io f r
          ]
    ]
