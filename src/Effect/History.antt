-- ===== src/Effect/History.antt =====
-- `_validate_history` of src/webwire/safety/effect_ledger.py: immutable lineage and the
-- per-effect state machine, over all records of the ledger in append order.
pub mod Lawful
use wire_agent.Base.{Option, none, some, List, [], ◌∷◌, if◌then◌else◌}
use wire_agent.Base.Results.{Result, ok, err, ◌>>◌}
use wire_agent.Base.Dict.{Dict, get, put}
use wire_agent.Effect.Record.{EffectLedgerRecord, is_initial, is_allowed, same_lineage}

pub data Corruption : Type 0 where
  illegal_initial_state changed_lineage illegal_transition : Corruption
  -- a key that a dictionary does not have
  key_error : Corruption
  -- the file's framing and its lines
  not_utf8 torn_tail bad_line : Corruption

-- `EffectLedgerCorruptError`, the other `EffectLedgerError`s, and the `ValueError` of a record
-- that does not validate.
pub data LedgerError : Type 0 where
  corrupt : Corruption → LedgerError
  failed : LedgerError
  value_error : LedgerError

-- `first_by_effect` and `last_by_effect`
pub record Seen : Type 0 where
  pub first : Dict EffectLedgerRecord
  pub last : Dict EffectLedgerRecord

abbrev pub nothing_seen : Seen
nothing_seen = record { first = []; last = [] }

-- The tests of one round, given what the two dictionaries hold for the record's effect.
unfoldable pub check_record :
    Option EffectLedgerRecord
    → Option EffectLedgerRecord
    → EffectLedgerRecord
    → Result LedgerError (Unit {0})
check_record none last r = if is_initial r.state then ok tt else err (corrupt illegal_initial_state)
check_record (some f) none r =
    if same_lineage f r then err (corrupt key_error) else err (corrupt changed_lineage)
check_record (some f) (some p) r =
    if same_lineage f r
    then if is_allowed p.state r.state then ok tt else err (corrupt illegal_transition)
    else err (corrupt changed_lineage)

-- The writes of one round.
unfoldable pub note : Seen → EffectLedgerRecord → Seen
note seen r = elim (get seen.first r.effect_id) [
  | none ↦ record { first = put seen.first r.effect_id r; last = put seen.last r.effect_id r }
  | some _ ↦ record seen { last = put seen.last r.effect_id r }
]

-- The loop, from what has been seen.
unfoldable pub validate_from : Seen → List EffectLedgerRecord → Result LedgerError (Unit {0})
unfolding check_record
validate_from seen [] = ok tt
validate_from seen (r ∷ rs) =
    check_record (get seen.first r.effect_id) (get seen.last r.effect_id) r
    >> validate_from (note seen r) rs

unfoldable pub validate_history : List EffectLedgerRecord → Result LedgerError (Unit {0})
unfolding validate_from note
validate_history rs = validate_from nothing_seen rs
