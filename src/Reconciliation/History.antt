-- ===== src/Reconciliation/History.antt =====
-- `_validate_history` of src/webwire/safety/reconciliation_ledger.py: one row for each
-- reconciliation id, and one terminal reconciliation for each effect.
use wire_agent.Base.{◌≡◌, ◌≢◌, refl, ◌↔◌, none, List, [], ◌∷◌, eq_iff, arith, if◌then◌else◌}
use wire_agent.Base.Results.{Result, ok, err}
use wire_agent.Base.Dict.{Dict, get, put, has, get-put}
use wire_agent.Reconciliation.Record.{ReconciliationRecord}

pub data Corruption : Type 0 where
  -- `_validate_history`
  duplicate_id duplicate_effect : Corruption
  -- the file's framing and its lines
  not_utf8 torn_tail blank_line bad_line : Corruption
  -- `append_durable`
  id_collision already_reconciled : Corruption

-- `ReconciliationLedgerCorruptError`, `ReconciliationLedgerAmbiguousError` and the other
-- `ReconciliationLedgerError`s.
pub data LedgerError : Type 0 where
  corrupt : Corruption → LedgerError
  ambiguous : LedgerError
  failed : LedgerError

-- The loop, with `by_id` and `by_effect`.
unfoldable pub validate_from :
    Dict ReconciliationRecord
    → Dict ReconciliationRecord
    → List ReconciliationRecord
    → Result LedgerError (Unit {0})
validate_from by_id by_effect [] = ok tt
validate_from by_id by_effect (r ∷ rs) =
    let rest = validate_from (put by_id r.reconciliation_id r) (put by_effect r.effect_id r) rs in
    if has by_id r.reconciliation_id
    then err (corrupt duplicate_id)
    else if has by_effect r.effect_id
    then err (corrupt duplicate_effect)
    else rest

unfoldable pub validate_history : List ReconciliationRecord → Result LedgerError (Unit {0})
unfolding validate_from
validate_history rs = validate_from [] [] rs

-- Another row than `r`: both ids differ.
abbrev pub IsApart : ReconciliationRecord → List ReconciliationRecord → Type 0
IsApart r [] = Unit
IsApart r (q ∷ rs) =
    ((r.reconciliation_id ≢ q.reconciliation_id) × (r.effect_id ≢ q.effect_id)) × IsApart r rs

-- No two rows share a reconciliation id or an effect id.
abbrev pub IsTerminal : List ReconciliationRecord → Type 0
IsTerminal [] = Unit
IsTerminal (r ∷ rs) = IsApart r rs × IsTerminal rs

-- None of the rows has an id that the dictionaries have.
abbrev Fresh :
    Dict ReconciliationRecord → Dict ReconciliationRecord → List ReconciliationRecord → Type 0
Fresh ids effects [] = Unit
Fresh ids effects (q ∷ rs) =
    ((get ids q.reconciliation_id ≡ none) × (get effects q.effect_id ≡ none)) × Fresh ids effects rs

module _ (ids effects : Dict ReconciliationRecord) (r : ReconciliationRecord) where
  Fresh-put :
      (rs : List ReconciliationRecord)
      → Fresh (put ids r.reconciliation_id r) (put effects r.effect_id r) rs
        ↔ (IsApart r rs × Fresh ids effects rs)
  Fresh-put [] = (λ _. (tt, tt), λ _. tt)
  Fresh-put (q ∷ rs) = ground (
    arith,
    Fresh-put rs,
    get-put ids r.reconciliation_id q.reconciliation_id r,
    get-put effects r.effect_id q.effect_id r,
    eq_iff r.reconciliation_id q.reconciliation_id,
    eq_iff r.effect_id q.effect_id,
  )

validate_from_iff :
    (ids effects : Dict ReconciliationRecord) (rs : List ReconciliationRecord)
    → (validate_from ids effects rs ≡ ok tt) ↔ (Fresh ids effects rs × IsTerminal rs)
unfolding validate_from
validate_from_iff ids effects [] = (λ _. (tt, tt), λ _. refl)
validate_from_iff ids effects (r ∷ rs) = ground (
  arith,
  Fresh-put ids effects r rs,
  validate_from_iff (put ids r.reconciliation_id r) (put effects r.effect_id r) rs,
)

Fresh-empty : (rs : List ReconciliationRecord) → Fresh [] [] rs
unfolding get
Fresh-empty [] = tt
Fresh-empty (r ∷ rs) = ((refl, refl), Fresh-empty rs)

-- A history of reconciliations is accepted exactly when no two of its rows have the same
-- reconciliation id or the same effect id.
pub validate_history-IsTerminal :
    (rs : List ReconciliationRecord) → (validate_history rs ≡ ok tt) ↔ IsTerminal rs
unfolding validate_history
validate_history-IsTerminal rs = ground (arith, validate_from_iff [] [] rs, Fresh-empty rs)
