-- ===== src/Storage.antt =====
-- The append-only NDJSON file under the two safety ledgers, and the answers of the operating
-- system to the calls of one method. `_write_all` is that of
-- src/webwire/safety/effect_ledger.py, which `append_durable` of
-- src/webwire/safety/reconciliation_ledger.py repeats in its own body.
use wire_agent.Base.{
  ◌≤◌, ◌≡◌, arith, ℕ, ◌+◌, Bool, true, false, Option, none, some, List, [], ◌∷◌, ◌++◌, eqb, ltb,
  leb, if◌then◌else◌,
}

-- A line that ends in a newline: blank, a row that `json.loads` reads as the fields of a record
-- of type `R`, or anything else.
pub data Line (R : Type 0) : Type 0 where
  blank malformed : Line R
  row : R → Line R

pub record File (R : Type 0) : Type 0 where
  pub exists : Bool
  pub lines : List (Line R)
  -- bytes follow the last newline
  pub torn : Bool
  pub utf8 : Bool
  -- the lines that an fsync has covered
  pub durable : List (Line R)
  -- an fsync of the folder has covered the file's entry
  pub entry_durable : Bool

abbrev pub no_file : {R : Type 0} → File R
no_file = record {
  exists = false;
  lines = [];
  torn = false;
  utf8 = true;
  durable = [];
  entry_durable = false;
}

-- The file once `os.open` has created it if need be.
abbrev pub opened : {R : Type 0} → File R → File R
opened f = if f.exists then f else record no_file { exists = true }

-- What the operating system answers during one call: `false` and `none` are `OSError`.
pub record Io : Type 0 where
  pub readable : Bool
  -- `_ensure_parent`
  pub parent_ok : Bool
  pub open_ok : Bool
  -- the results of `os.write`, one after the other
  pub writes : List (Option ℕ)
  pub fsync_ok : Bool
  pub dir_fsync_ok : Bool
  -- `stat` before an append, and after it has failed
  pub stat_ok : Bool
  pub stat_after_ok : Bool

-- The bytes that were written, and whether the payload of `n` bytes is complete. A result of 0 is
-- raised as `OSError`.
unfoldable pub write_all : ℕ → ℕ → List (Option ℕ) → ℕ × Bool
write_all n total [] = (total, leb n total)
write_all n total (w ∷ ws) =
    if ltb total n
    then (elim w [
      | none ↦ (total, false)
      | some k ↦ elim (eqb k 0) [ true ↦ (total, false) | false ↦ write_all n (total + k) ws ]
    ])
    else (total, true)

-- The file after the bytes of the line of `r`.
unfoldable pub after_write : {R : Type 0} → File R → R → ℕ × Bool → File R
after_write f r (total, true) = record f { lines = f.lines ++ (row r ∷ []) }
after_write f r (total, false) = if eqb total 0 then f else record f { torn = true }

-- A payload that is complete has been written whole.
pub write_all_done :
    (n total : ℕ) (ws : List (Option ℕ))
    → (write_all n total ws).1 ≡ true
    → n ≤ (write_all n total ws).0
unfolding write_all
write_all_done n total [] h = ground arith
write_all_done n total (none ∷ ws) h = ground arith
write_all_done n total (some k ∷ ws) h = ground (arith, write_all_done n (total + k) ws)
