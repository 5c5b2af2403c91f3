-- ===== src/Reconciliation/Ledger/Append.antt =====
-- What an append and an authoritative read leave, and what their results say.
use wire_agent.Base.{
  ◌+◌, ℕ, Bool, true, false, ◌≡◌, refl, ◌∙◌, ◌⊎◌, inl, inr, List, [], ◌∷◌, ◌++◌, arith,
  Option-cases,
}
use wire_agent.Base.Results.{ok, ◌>>=◌}
use wire_agent.Storage.{Line, blank, malformed, row, opened, Io, write_all, after_write}
use wire_agent.Reconciliation.Record.{ReconciliationRecord}
use wire_agent.Reconciliation.History.{validate_history}
use wire_agent.Reconciliation.Ledger.{
  LedgerFile, PathState, decode, read_records_unchecked, redurable_existing_file, append_row,
  append_latched, append_clear, append_durable,
}
use wire_agent.Reconciliation.Ledger.Latch.{append_durable_clear, append_durable_latched}

-- The file is readable and holds exactly these rows.
abbrev pub Shows : LedgerFile → List ReconciliationRecord → Type 0
Shows f rs =
    ((f.exists ≡ false) × (rs ≡ []))
    ⊎ ((f.exists ≡ true)
        × (f.utf8 ≡ true)
        × (f.torn ≡ false)
        × (decode f.lines ≡ ok rs)
        × (validate_history rs ≡ ok tt))

abbrev pub IsTorn : LedgerFile → Type 0
IsTorn f = (f.exists ≡ true) × (f.utf8 ≡ true) × (f.torn ≡ true)

pub read_records_unchecked-Shows :
    (io : Io) (f : LedgerFile) {rs : List ReconciliationRecord}
    → read_records_unchecked io f ≡ ok rs
    → Shows f rs
unfolding read_records_unchecked
read_records_unchecked-Shows io f h = ground arith

pub Shows-read_records_unchecked :
    (io : Io) (f : LedgerFile) (rs : List ReconciliationRecord)
    → io.readable ≡ true
    → Shows f rs
    → read_records_unchecked io f ≡ ok rs
unfolding read_records_unchecked
Shows-read_records_unchecked io f rs h s = ground arith

decode-row :
    (ls : List (Line ReconciliationRecord)) (r : ReconciliationRecord)
    → decode (ls ++ (row r ∷ [])) ≡ (decode ls >>= λ rs. ok (rs ++ (r ∷ [])))
unfolding decode
decode-row [] r = refl
decode-row (blank ∷ ls) r = refl
decode-row (malformed ∷ ls) r = refl
decode-row (row q ∷ ls) r = ground (arith, decode-row ls r)

-- The three outcomes of an append for the history that the file shows: as before, one row more,
-- or an unfinished line.
abbrev pub Leaves : List ReconciliationRecord → ReconciliationRecord → LedgerFile → Type 0
Leaves rs r g = Shows g rs ⊎ Shows g (rs ++ (r ∷ [])) ⊎ IsTorn g

opened_lem :
    (f : LedgerFile) (rs : List ReconciliationRecord)
    → Shows f rs
    → ((opened f).exists ≡ true)
      × ((opened f).utf8 ≡ true)
      × ((opened f).torn ≡ false)
      × (decode (opened f).lines ≡ ok rs)
      × (validate_history rs ≡ ok tt)
unfolding decode validate_history
opened_lem f rs s = ground arith

module _ (f : LedgerFile) (r : ReconciliationRecord) (rs : List ReconciliationRecord) (n : ℕ) where
  pub after_write-Shows :
      Shows f rs
      → validate_history (rs ++ (r ∷ [])) ≡ ok tt
      → Shows (after_write (opened f) r (n, true)) (rs ++ (r ∷ []))
  unfolding after_write
  after_write-Shows s h =
      let o = opened_lem f rs s in inr (o.0, o.1, o.2, decode-row (opened f).lines r ∙ rw o.3, h)

  after_write-Leaves :
      (done : Bool)
      → Shows f rs
      → validate_history (rs ++ (r ∷ [])) ≡ ok tt
      → Leaves rs r (after_write (opened f) r (n, done))
  unfolding after_write
  after_write-Leaves true s h = inr (inl (after_write-Shows s h))
  after_write-Leaves false s h = let o = opened_lem f rs s in ground (arith, o)

pub redurable-Shows :
    (io : Io) (f : LedgerFile) (rs : List ReconciliationRecord)
    → Shows f rs
    → Shows (redurable_existing_file io f).1 rs
unfolding redurable_existing_file
redurable-Shows io f rs s = ground arith

-- A read or a re-durability that returns has covered the file and its entry.
pub redurable_ok :
    (io : Io) (f : LedgerFile)
    → (redurable_existing_file io f).0 ≡ ok tt
    → ((redurable_existing_file io f).1.durable ≡ (redurable_existing_file io f).1.lines)
      × ((redurable_existing_file io f).1.entry_durable ≡ true)
unfolding redurable_existing_file
redurable_ok io f h = ground arith

module _ (size : ReconciliationRecord → ℕ) (io : Io) (s : PathState) (r : ReconciliationRecord)
    {rs : List ReconciliationRecord} (read : read_records_unchecked io s.file ≡ ok rs) where
  append_row-Leaves :
      validate_history (rs ++ (r ∷ [])) ≡ ok tt → Leaves rs r (append_row size io s r).1.file
  unfolding append_row
  append_row-Leaves h =
      let p = write_all (size r + 1) 0 io.writes in
      let shows = read_records_unchecked-Shows io s.file read in
      ground (arith, after_write-Leaves s.file r rs p.0 p.1 shows h)

  append_clear-Leaves : Leaves rs r (append_clear size io s r).1.file
  unfolding append_clear
  append_clear-Leaves =
      let shows = read_records_unchecked-Shows io s.file read in
      ground (arith, read, redurable-Shows io s.file rs shows, append_row-Leaves)

  append_latched-Leaves : (a : ReconciliationRecord) → Leaves rs r (append_latched io s a r).1.file
  unfolding append_latched
  append_latched-Leaves a =
      let shows = read_records_unchecked-Shows io s.file read in
      ground (arith, read, redurable-Shows io s.file rs shows)

  -- When the file is readable, an append_durable that returns or raises leaves a file that shows
  -- the same rows, or these and the one row more, or that ends in an unfinished line.
  pub append_durable-Leaves : Leaves rs r (append_durable size io s r).1.file
  append_durable-Leaves = elim (Option-cases s.ambiguous_fact) [
    | inl c ↦ rw (append_durable_clear size io s r c) append_clear-Leaves
    | inr (a, c) ↦ rw (append_durable_latched size io s r a c) (append_latched-Leaves a)
  ]
