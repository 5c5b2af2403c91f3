-- ===== src/Reconciliation/Ledger/Outcome.antt =====
-- What the result of an append says of the file, and what the ledger refuses.
use wire_agent.Base.{
  ◌+◌, ℕ, true, ◌≡◌, ◌≢◌, refl, ◌∙◌, ◌⊎◌, inl, inr, none, some, List, [], ◌∷◌, ◌++◌, arith,
  Bool-cases, Option-cases, In,
}
use wire_agent.Base.Results.{ok, err, Result-cases}
use wire_agent.Storage.{Io, write_all}
use wire_agent.Reconciliation.Record.{
  ReconciliationRecord, same_fact, SameFact, SameFact-refl, same_fact_iff,
}
use wire_agent.Reconciliation.History.{ambiguous, validate_history}
use wire_agent.Reconciliation.Ledger.{
  PathState, read_records_unchecked, append_row, fresh, repeated, scan, matching, append_latched,
  append_clear, append_durable,
}
use wire_agent.Reconciliation.Ledger.Latch.{append_durable_clear, append_durable_latched}
use wire_agent.Reconciliation.Ledger.Append.{
  Shows, read_records_unchecked-Shows, after_write-Shows, redurable-Shows, redurable_ok,
}

-- One of the rows states the fact of `r`.
abbrev pub IsReconciled : ReconciliationRecord → List ReconciliationRecord → Type 0
IsReconciled r rs = (p : ReconciliationRecord) × In p rs × SameFact p r

pub scan-repeated :
    (r : ReconciliationRecord) (rs : List ReconciliationRecord)
    → scan r rs ≡ repeated
    → IsReconciled r rs
unfolding scan
scan-repeated r [] h = absurd (cc)
scan-repeated r (p ∷ rs) h = elim (Bool-cases (same_fact p r)) [
  | inl y ↦ (p, inl refl, (same_fact_iff p r).0 y)
  | inr y ↦ let (q, m, e) = scan-repeated r rs (ground (arith, y)) in (q, inr m, e)
]

matching-IsReconciled :
    (r : ReconciliationRecord) (rs : List ReconciliationRecord)
    → matching r rs ≢ 0
    → IsReconciled r rs
unfolding matching
matching-IsReconciled r [] h = absurd (h refl)
matching-IsReconciled r (p ∷ rs) h = elim (Bool-cases (same_fact p r)) [
  | inl y ↦ (p, inl refl, (same_fact_iff p r).0 y)
  | inr y ↦ let (q, m, e) = matching-IsReconciled r rs (ground (arith, y)) in (q, inr m, e)
]

In-last : (r : ReconciliationRecord) (rs : List ReconciliationRecord) → In r (rs ++ (r ∷ []))
In-last r [] = inl refl
In-last r (q ∷ rs) = inr (In-last r rs)

-- The fact is established: the row is there, every line and the file's entry are durable, and the
-- latch is clear.
abbrev pub IsEstablished : ReconciliationRecord → PathState → Type 0
IsEstablished r s =
    (rs : List ReconciliationRecord) × Shows s.file rs
    × IsReconciled r rs
    × (s.file.durable ≡ s.file.lines)
    × (s.file.entry_durable ≡ true)
    × (s.ambiguous_fact ≡ none)

module _ (size : ReconciliationRecord → ℕ) (io : Io) (s : PathState)
    (r : ReconciliationRecord) where
  append_row_ok :
      {rs : List ReconciliationRecord}
      → Shows s.file rs
      → validate_history (rs ++ (r ∷ [])) ≡ ok tt
      → s.ambiguous_fact ≡ none
      → (append_row size io s r).0 ≡ ok tt
      → IsEstablished r (append_row size io s r).1
  unfolding append_row
  append_row_ok {rs} shows h c done =
      let p = write_all (size r + 1) 0 io.writes in
      (
        rs ++ (r ∷ []),
        ground (arith, after_write-Shows s.file r rs p.0 shows h),
        (r, In-last r rs, SameFact-refl r),
        ground arith,
        ground arith,
        ground arith,
      )

  append_clear-cases :
      (append_clear size io s r).0 ≡ ok tt
      → ((rs : List ReconciliationRecord) × (read_records_unchecked io s.file ≡ ok rs)
          × (scan r rs ≡ repeated))
        ⊎ ((rs : List ReconciliationRecord) × (read_records_unchecked io s.file ≡ ok rs)
            × (scan r rs ≡ fresh)
            × (validate_history (rs ++ (r ∷ [])) ≡ ok tt))
  unfolding append_clear
  append_clear-cases done = ground arith

  append_fresh :
      (rs : List ReconciliationRecord)
      → read_records_unchecked io s.file ≡ ok rs
      → scan r rs ≡ fresh
      → validate_history (rs ++ (r ∷ [])) ≡ ok tt
      → append_clear size io s r ≡ append_row size io s r
  unfolding append_clear
  append_fresh rs q f h = ground (arith, q, f, h)

  append_repeated :
      (rs : List ReconciliationRecord)
      → read_records_unchecked io s.file ≡ ok rs
      → scan r rs ≡ repeated
      → s.ambiguous_fact ≡ none
      → (append_clear size io s r).0 ≡ ok tt
      → IsEstablished r (append_clear size io s r).1
  unfolding append_clear
  append_repeated rs q f c done =
      let shows = redurable-Shows io s.file rs (read_records_unchecked-Shows io s.file q) in
      let d = redurable_ok io s.file (ground (arith, q, f)) in
      (
        rs,
        ground (arith, q, f, shows),
        scan-repeated r rs f,
        ground (arith, q, f, d),
        ground (arith, q, f, d),
        ground (arith, q, f),
      )

  append_clear_ok :
      s.ambiguous_fact ≡ none
      → (append_clear size io s r).0 ≡ ok tt
      → IsEstablished r (append_clear size io s r).1
  append_clear_ok c done = elim (append_clear-cases done) [
    | inl (rs, q, f) ↦ append_repeated rs q f c done
    | inr (rs, q, f, h) ↦
        let e = append_fresh rs q f h in
        rw e (append_row_ok (read_records_unchecked-Shows io s.file q) h c (rw e at done))
  ]

  append_latched_ok :
      (a : ReconciliationRecord)
      → (append_latched io s a r).0 ≡ ok tt
      → IsEstablished r (append_latched io s a r).1
  unfolding append_latched
  append_latched_ok a done = elim (Result-cases (read_records_unchecked io s.file)) [
    | inr (e, q) ↦ absurd (ground (arith, q))
    | inl (rs, q) ↦
        let shows = redurable-Shows io s.file rs (read_records_unchecked-Shows io s.file q) in
        let d = redurable_ok io s.file (ground (arith, q)) in
        (
          rs,
          ground (arith, q, shows),
          matching-IsReconciled r rs (ground (arith, q)),
          ground (arith, q, d),
          ground (arith, q, d),
          ground (arith, q),
        )
  ]

  -- Whatever the operating system answers, when append_durable returns, the file is readable, one
  -- of its rows states the fact, every line and the directory entry are durable, and the latch is
  -- clear.
  pub append_durable-IsEstablished :
      (append_durable size io s r).0 ≡ ok tt → IsEstablished r (append_durable size io s r).1
  append_durable-IsEstablished done = elim (Option-cases s.ambiguous_fact) [
    | inl c ↦ let e = append_durable_clear size io s r c in rw e (append_clear_ok c (rw e at done))
    | inr (a, c) ↦
        let e = append_durable_latched size io s r a c in rw e (append_latched_ok a (rw e at done))
  ]

  -- While the latch is set, every other fact is refused and nothing changes.
  pub latched_refuses :
      (a : ReconciliationRecord)
      → s.ambiguous_fact ≡ some a
      → ¬ SameFact a r
      → append_durable size io s r ≡ (err ambiguous, s)
  unfolding append_latched
  latched_refuses a c d = elim (Bool-cases (same_fact a r)) [
    | inl y ↦ absurd (d ((same_fact_iff a r).0 y))
    | inr y ↦ append_durable_latched size io s r a c ∙ ground (arith, y)
  ]
