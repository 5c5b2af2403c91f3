-- ===== src/Effect/File/Append.antt =====
-- What an append leaves behind, whatever the operating system answers.
use wire_agent.Base.{
  ◌+◌, ℕ, Bool, true, false, ◌≡◌, refl, ◌∙◌, ◌⊎◌, inl, inr, List, [], ◌∷◌, ◌++◌, arith,
}
use wire_agent.Base.Results.{ok, err, ◌>>=◌}
use wire_agent.Effect.Record.{EffectLedgerRecord, validate}
use wire_agent.Effect.History.{corrupt, torn_tail, validate_history}
use wire_agent.Storage.{Line, blank, malformed, row, opened, Io, write_all, after_write}
use wire_agent.Effect.File.{
  LedgerFile, decode, read_records, redurable_existing_fact, append_row, append_durable,
}

-- The file is readable and holds exactly these records.
abbrev pub Shows : LedgerFile → List EffectLedgerRecord → Type 0
Shows f rs =
    ((f.exists ≡ false) × (rs ≡ []))
    ⊎ ((f.exists ≡ true)
        × (f.utf8 ≡ true)
        × (f.torn ≡ false)
        × (decode f.lines ≡ ok rs)
        × (validate_history rs ≡ ok tt))

-- The file ends in an unfinished line.
abbrev pub IsTorn : LedgerFile → Type 0
IsTorn f = (f.exists ≡ true) × (f.utf8 ≡ true) × (f.torn ≡ true)

pub Shows-read_records :
    (io : Io) (f : LedgerFile) (rs : List EffectLedgerRecord)
    → read_records io f ≡ ok rs
    → Shows f rs
unfolding read_records
Shows-read_records io f rs h = ground arith

pub read_records-Shows :
    (io : Io) (f : LedgerFile) (rs : List EffectLedgerRecord)
    → io.readable ≡ true
    → Shows f rs
    → read_records io f ≡ ok rs
unfolding read_records
read_records-Shows io f rs h (inl s) = ground arith
read_records-Shows io f rs h (inr s) = ground arith

pub read_records-IsTorn :
    (io : Io) (f : LedgerFile)
    → io.readable ≡ true
    → IsTorn f
    → read_records io f ≡ err (corrupt torn_tail)
unfolding read_records
read_records-IsTorn io f h t = ground arith

decode-row :
    (ls : List (Line EffectLedgerRecord)) (r : EffectLedgerRecord)
    → validate r ≡ true
    → decode (ls ++ (row r ∷ [])) ≡ (decode ls >>= λ rs. ok (rs ++ (r ∷ [])))
unfolding decode
decode-row [] r v = rw v
decode-row (blank ∷ ls) r v = decode-row ls r v
decode-row (malformed ∷ ls) r v = refl
decode-row (row q ∷ ls) r v = ground (arith, decode-row ls r v)

-- The three outcomes of an append for the history that the file shows: as before, one record
-- more, or an unfinished line.
abbrev pub After : List EffectLedgerRecord → EffectLedgerRecord → LedgerFile → Type 0
After rs r g = Shows g rs ⊎ Shows g (rs ++ (r ∷ [])) ⊎ IsTorn g

opened_lem :
    (f : LedgerFile) (rs : List EffectLedgerRecord)
    → Shows f rs
    → ((opened f).exists ≡ true)
      × ((opened f).utf8 ≡ true)
      × ((opened f).torn ≡ false)
      × (decode (opened f).lines ≡ ok rs)
      × (validate_history rs ≡ ok tt)
unfolding decode validate_history
opened_lem f rs s = ground arith

pub after_write-Shows :
    (f : LedgerFile) (r : EffectLedgerRecord) (rs : List EffectLedgerRecord) (n : ℕ)
    → Shows f rs
    → validate r ≡ true
    → validate_history (rs ++ (r ∷ [])) ≡ ok tt
    → Shows (after_write (opened f) r (n, true)) (rs ++ (r ∷ []))
unfolding after_write
after_write-Shows f r rs n s v h =
    let o = opened_lem f rs s in inr (o.0, o.1, o.2, decode-row (opened f).lines r v ∙ rw o.3, h)

after_write-After :
    (f : LedgerFile) (r : EffectLedgerRecord) (rs : List EffectLedgerRecord) (n : ℕ) (done : Bool)
    → Shows f rs
    → validate r ≡ true
    → validate_history (rs ++ (r ∷ [])) ≡ ok tt
    → After rs r (after_write (opened f) r (n, done))
unfolding after_write
after_write-After f r rs n true s v h = inr (inl (after_write-Shows f r rs n s v h))
after_write-After f r rs n false s v h =
    let o = opened_lem f rs s in ground (arith, o.0, o.1, o.2, o.3, o.4)

append_row-After :
    (size : EffectLedgerRecord → ℕ) (io : Io) (f : LedgerFile) (r : EffectLedgerRecord)
    (rs : List EffectLedgerRecord)
    → Shows f rs
    → validate r ≡ true
    → validate_history (rs ++ (r ∷ [])) ≡ ok tt
    → After rs r (append_row size io f r).1
unfolding append_row
append_row-After size io f r rs s v h =
    let p = write_all (size r + 1) 0 io.writes in
    ground (arith, after_write-After f r rs p.0 p.1 s v h)

-- When the ledger is readable, an append_durable that returns or fails leaves a file that shows
-- the same history, or the history with the one record more, or that ends in an unfinished line.
pub append_durable-After :
    (size : EffectLedgerRecord → ℕ) (io : Io) (f : LedgerFile) (r : EffectLedgerRecord)
    (rs : List EffectLedgerRecord)
    → read_records io f ≡ ok rs
    → After rs r (append_durable size io f r).1
unfolding append_durable redurable_existing_fact
append_durable-After size io f r rs read =
    let s = Shows-read_records io f rs read in ground (arith, s, append_row-After size io f r rs s)
