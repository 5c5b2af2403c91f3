-- ===== src/Reconciliation/Ledger/Refusal.antt =====
-- What `append_durable` refuses of a reconciled effect, and what `read_authoritative` establishes.
use wire_agent.Base.{
  subst, ℕ, true, ◌≡◌, ◌≢◌, refl, sym, ◌∙◌, ap, ◌⊎◌, inl, inr, none, List, [], ◌∷◌, eq_iff, arith,
  In,
}
use wire_agent.Base.Results.{ok, err, Result-cases}
use wire_agent.Storage.{Io}
use wire_agent.Reconciliation.Record.{ReconciliationRecord, SameFact}
use wire_agent.Reconciliation.History.{corrupt, id_collision, already_reconciled}
use wire_agent.Reconciliation.Ledger.{
  LedgerFile, PathState, read_records_unchecked, read_authoritative, Scan, fresh, repeated,
  collision, reconciled, scan, append_clear, append_durable,
}
use wire_agent.Reconciliation.Ledger.Latch.{append_durable_clear}
use wire_agent.Reconciliation.History.{Corruption, IsApart, IsTerminal, validate_history-IsTerminal}
use wire_agent.Reconciliation.Ledger.Append.{Shows, read_records_unchecked-Shows}
use wire_agent.Reconciliation.Ledger.Outcome.{scan-repeated}

IsApart-In :
    (r q : ReconciliationRecord) (rs : List ReconciliationRecord)
    → IsApart r rs
    → In q rs
    → r.effect_id ≢ q.effect_id
IsApart-In r q [] h m = elim m [ ]
IsApart-In r q (x ∷ rs) h (inl e) = rw e h.0.1
IsApart-In r q (x ∷ rs) h (inr m) = IsApart-In r q rs h.1 m

terminal_unique :
    (p q : ReconciliationRecord) (rs : List ReconciliationRecord)
    → IsTerminal rs
    → In p rs
    → In q rs
    → p.effect_id ≡ q.effect_id
    → p ≡ q
terminal_unique p q [] h m n e = elim m [ ]
terminal_unique p q (x ∷ rs) h (inl a) (inl b) e = a ∙ sym b
terminal_unique p q (x ∷ rs) h (inl a) (inr n) e =
    absurd (IsApart-In x q rs h.0 n (ap (λ (r : ReconciliationRecord). r.effect_id) (sym a) ∙ e))
terminal_unique p q (x ∷ rs) h (inr m) (inl b) e =
    absurd
      (IsApart-In x p rs h.0 m (ap (λ (r : ReconciliationRecord). r.effect_id) (sym b) ∙ sym e))
terminal_unique p q (x ∷ rs) h (inr m) (inr n) e = terminal_unique p q rs h.1 m n e

scan-ne-fresh :
    (r p : ReconciliationRecord) (rs : List ReconciliationRecord)
    → In p rs
    → p.effect_id ≡ r.effect_id
    → scan r rs ≢ fresh
unfolding scan
scan-ne-fresh r p [] m e h = elim m [ ]
scan-ne-fresh r p (x ∷ rs) (inl a) e h =
    ground (arith, eq_iff x.effect_id r.effect_id, ap (λ (r : ReconciliationRecord). r.effect_id) a)
scan-ne-fresh r p (x ∷ rs) (inr m) e h = ground (arith, scan-ne-fresh r p rs m e)

Scan-cases : (x : Scan) → (x ≡ fresh) ⊎ ((x ≡ repeated) ⊎ ((x ≡ collision) ⊎ (x ≡ reconciled)))
Scan-cases fresh = inl refl
Scan-cases repeated = inr (inl refl)
Scan-cases collision = inr (inr (inl refl))
Scan-cases reconciled = inr (inr (inr refl))

IsTerminal-of_read :
    (io : Io) (f : LedgerFile) {rs : List ReconciliationRecord}
    → read_records_unchecked io f ≡ ok rs
    → IsTerminal rs
IsTerminal-of_read io f {rs} q = elim (read_records_unchecked-Shows io f q) [
  | inl (x, e) ↦ rw e tt
  | inr (x, y, z, d, h) ↦ (validate_history-IsTerminal rs).0 h
]

-- A row with the effect of `r` and another fact leaves no row with the fact of `r`.
not_repeated :
    (p r : ReconciliationRecord) (rs : List ReconciliationRecord)
    → IsTerminal rs
    → In p rs
    → p.effect_id ≡ r.effect_id
    → ¬ SameFact p r
    → scan r rs ≢ repeated
not_repeated p r rs t m e d f =
    let (x, n, same) = scan-repeated r rs f in
    d (subst (λ y. SameFact y r) (terminal_unique x p rs t n m (same.effect_id ∙ sym e)) same)

module _ (io : Io) (s : PathState) {rs : List ReconciliationRecord} where
  -- When the latch is clear and the file is readable, a row for an effect that already has
  -- another reconciliation is refused as corruption, and nothing changes.
  pub second_refused :
      (size : ReconciliationRecord → ℕ) (p r : ReconciliationRecord)
      → s.ambiguous_fact ≡ none
      → read_records_unchecked io s.file ≡ ok rs
      → In p rs
      → p.effect_id ≡ r.effect_id
      → ¬ SameFact p r
      → (c : Corruption) × (append_durable size io s r ≡ (err (corrupt c), s))
  unfolding append_clear
  second_refused size p r c q m e d =
      let apart = scan-ne-fresh r p rs m e in
      elim (Scan-cases (scan r rs)) [
        | inl f ↦ absurd (apart f)
        | inr (inl f) ↦ absurd (not_repeated p r rs (IsTerminal-of_read io s.file q) m e d f)
        | inr (inr (inl f)) ↦
            (id_collision, append_durable_clear size io s r c ∙ ground (arith, q, f))
        | inr (inr (inr f)) ↦
            (already_reconciled, append_durable_clear size io s r c ∙ ground (arith, q, f))
      ]

  -- When read_authoritative returns rows, the file shows exactly these, the latch was clear, and
  -- a file that was there has all its lines and its directory entry durable.
  pub read_authoritative_ok :
      (read_authoritative io s).0 ≡ ok rs
      → Shows (read_authoritative io s).1.file rs
        × (s.ambiguous_fact ≡ none)
        × ((s.file.exists ≡ true)
            → ((read_authoritative io s).1.file.durable ≡ (read_authoritative io s).1.file.lines)
              × ((read_authoritative io s).1.file.entry_durable ≡ true))
  unfolding read_authoritative
  read_authoritative_ok h = elim (Result-cases (read_records_unchecked io s.file)) [
    | inr (e, q) ↦ absurd (ground (arith, q))
    | inl (us, q) ↦
        let shows = read_records_unchecked-Shows io s.file q in
        (ground (arith, q, shows), ground (arith, q), ground (arith, q))
  ]
