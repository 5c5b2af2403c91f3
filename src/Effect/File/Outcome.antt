-- ===== src/Effect/File/Outcome.antt =====
-- What the result of an append says of the file, and what the ledger refuses.
use wire_agent.Base.{
  ◌+◌, Option-cases, ℕ, true, false, ◌≡◌, refl, ◌⊎◌, inl, inr, some, List, [], ◌∷◌, ◌++◌, eq_refl,
  arith, Bool-cases,
}
use wire_agent.Base.Results.{ok, Result-cases}
use wire_agent.Json.Same.{same}
use wire_agent.Effect.Record.{EffectLedgerRecord, SameFact, same_fact-SameFact, validate}
use wire_agent.Effect.History.{validate_history}
use wire_agent.Storage.{Io, write_all}
use wire_agent.Effect.File.{
  LedgerFile, read_records, redurable_existing_fact, append_row, latest, repeats, append_durable,
}
use wire_agent.Effect.File.Append.{Shows, after_write-Shows, Shows-read_records}

-- The record's fact is the latest of its effect, in a history that the file shows.
abbrev pub IsRecorded : EffectLedgerRecord → List EffectLedgerRecord → Type 0
IsRecorded r rs = (p : EffectLedgerRecord) × (latest r.effect_id rs ≡ some p) × SameFact p r

latest-append :
    (rs : List EffectLedgerRecord) (r : EffectLedgerRecord)
    → latest r.effect_id (rs ++ (r ∷ [])) ≡ some r
unfolding latest
latest-append [] r = rw eq_refl
latest-append (q ∷ rs) r = rw (latest-append rs r)

IsRecorded-append :
    (rs : List EffectLedgerRecord) (r : EffectLedgerRecord) → IsRecorded r (rs ++ (r ∷ []))
IsRecorded-append rs r = (
  r,
  latest-append rs r,
  record {
    effect_id = refl;
    state = refl;
    lineage = refl;
    approver = refl;
    details = same r.details;
  },
)

repeats-IsRecorded :
    (rs : List EffectLedgerRecord) (r : EffectLedgerRecord) → repeats rs r ≡ true → IsRecorded r rs
unfolding repeats
repeats-IsRecorded rs r h = elim (Option-cases (latest r.effect_id rs)) [
  | inl e ↦ absurd (ground (arith, e))
  | inr (p, e) ↦ (p, e, same_fact-SameFact p r (ground (arith, e)))
]

append_row_ok :
    (size : EffectLedgerRecord → ℕ) (io : Io) (f : LedgerFile) (r : EffectLedgerRecord)
    (rs : List EffectLedgerRecord)
    → Shows f rs
    → validate r ≡ true
    → validate_history (rs ++ (r ∷ [])) ≡ ok tt
    → (append_row size io f r).0 ≡ ok tt
    → Shows (append_row size io f r).1 (rs ++ (r ∷ []))
      × ((append_row size io f r).1.durable ≡ (append_row size io f r).1.lines)
unfolding append_row
append_row_ok size io f r rs s v h done =
    let p = write_all (size r + 1) 0 io.writes in ground (arith, after_write-Shows f r rs p.0 s v h)

-- The ways in which an append can return.
module _ (size : EffectLedgerRecord → ℕ) (io : Io) (f : LedgerFile) (r : EffectLedgerRecord) where
  abbrev Repeats : List EffectLedgerRecord → Type 0
  Repeats rs = (repeats rs r ≡ true) × (append_durable size io f r ≡ redurable_existing_fact io f)

  abbrev Appends : List EffectLedgerRecord → Type 0
  Appends rs =
      (repeats rs r ≡ false)
      × (validate_history (rs ++ (r ∷ [])) ≡ ok tt)
      × (append_durable size io f r ≡ append_row size io f r)

  append_durable-cases :
      (append_durable size io f r).0 ≡ ok tt
      → (rs : List EffectLedgerRecord) × (validate r ≡ true)
        × (read_records io f ≡ ok rs)
        × (Repeats rs ⊎ Appends rs)
  unfolding append_durable
  append_durable-cases done = elim (Bool-cases (validate r)) [
    | inr v ↦ absurd (ground (arith, v))
    | inl v ↦ elim (Result-cases (read_records io f)) [
      | inr (e, q) ↦ absurd (ground (arith, v, q))
      | inl (rs, q) ↦ (
        rs,
        v,
        q,
        elim (Bool-cases (repeats rs r)) [
          | inl w ↦ inl (w, rw (v, q, w))
          | inr w ↦ elim (Result-cases (validate_history (rs ++ (r ∷ [])))) [
            | inr (e, h) ↦ absurd (ground (arith, v, q, w, h))
            | inl (u, h) ↦ inr (w, h, rw (v, q, w, h))
          ]
        ],
      )
    ]
  ]

  redurable_ok :
      {rs : List EffectLedgerRecord}
      → Shows f rs
      → (redurable_existing_fact io f).0 ≡ ok tt
      → Shows (redurable_existing_fact io f).1 rs
        × ((redurable_existing_fact io f).1.durable ≡ (redurable_existing_fact io f).1.lines)
  unfolding redurable_existing_fact
  redurable_ok s done = ground arith

  -- Whatever the operating system answers, when append_durable returns, the file is readable, the
  -- latest record of the effect states the appended fact, and every line of the file has been
  -- covered by an fsync.
  pub append_durable-IsRecorded :
      (append_durable size io f r).0 ≡ ok tt
      → (rs : List EffectLedgerRecord) × Shows (append_durable size io f r).1 rs
        × IsRecorded r rs
        × ((append_durable size io f r).1.durable ≡ (append_durable size io f r).1.lines)
  append_durable-IsRecorded done =
      let (rs, v, q, way) = append_durable-cases done in
      let s = Shows-read_records io f rs q in
      elim way [
        | inl (w, e) ↦
            let g = redurable_ok s (rw e at done) in
            (rs, rw e g.0, repeats-IsRecorded rs r w, rw e g.1)
        | inr (w, h, e) ↦
            let g = append_row_ok size io f r rs s v h (rw e at done) in
            (rs ++ (r ∷ []), rw e g.0, IsRecorded-append rs r, rw e g.1)
      ]
