-- ===== src/Effect/File/Refusal.antt =====
-- What the ledger refuses, what a retry leaves, and the durability of the file's entry.
use wire_agent.Base.{
  ℕ, String, true, ◌≡◌, ◌≢◌, refl, sym, ◌∙◌, ap, inl, inr, Option, none, some, List, [], ◌∷◌, ◌++◌,
  ◌==◌, eq_refl, arith, Bool-cases, subst,
}
use wire_agent.Base.Results.{ok, err, Result-cases}
use wire_agent.Base.Dict.{get}
use wire_agent.Effect.Record.{
  EffectLedgerRecord, SameFact, same_fact-SameFact, validate, same_fact, reserved,
}
use wire_agent.Effect.History.{
  LedgerError, Corruption, corrupt, validate_history, validate_from, check_record, note, Seen,
  nothing_seen,
}
use wire_agent.Effect.History.Lawful.{of_effect, IsLawful, validate_history-IsLawful}
use wire_agent.Storage.{Io, after_write}
use wire_agent.Effect.File.{
  LedgerFile, read_records, redurable_existing_fact, append_row, latest, repeats, append_durable,
}

of_effect-append_self :
    (rs : List EffectLedgerRecord) (r : EffectLedgerRecord)
    → of_effect r.effect_id (rs ++ (r ∷ [])) ≡ of_effect r.effect_id rs ++ (r ∷ [])
of_effect-append_self [] r = rw eq_refl
of_effect-append_self (q ∷ rs) r = elim (Bool-cases (q.effect_id == r.effect_id)) [
  | inl e ↦ rw (e, of_effect-append_self rs r)
  | inr e ↦ rw (e, of_effect-append_self rs r)
]

-- `latest` is the last of the effect's records.
abbrev last? : List EffectLedgerRecord → Option EffectLedgerRecord
last? [] = none
last? (r ∷ l) = elim (last? l) [ none ↦ some r | some p ↦ some p ]

latest-of_effect :
    (i : String) (rs : List EffectLedgerRecord) → latest i rs ≡ last? (of_effect i rs)
unfolding latest
latest-of_effect i [] = refl
latest-of_effect i (r ∷ rs) = ground (arith, latest-of_effect i rs)

not-IsLawful :
    (l : List EffectLedgerRecord) (p r : EffectLedgerRecord)
    → last? l ≡ some p
    → p.state ≢ reserved
    → ¬ IsLawful (l ++ (r ∷ []))
not-IsLawful [] p r e n h = cc
not-IsLawful (a ∷ []) p r e n h = n (cc (h.0))
not-IsLawful (a ∷ b ∷ []) p r e n h = h
not-IsLawful (a ∷ b ∷ c ∷ l) p r e n h = h

check_record_corrupt :
    (f l : Option EffectLedgerRecord) (r : EffectLedgerRecord) {e : LedgerError}
    → check_record f l r ≡ err e
    → (c : Corruption) × (e ≡ corrupt c)
unfolding check_record
check_record_corrupt none l r h = ground arith
check_record_corrupt (some f) none r h = ground arith
check_record_corrupt (some f) (some p) r h = ground arith

validate_from_corrupt :
    (seen : Seen) (rs : List EffectLedgerRecord) {e : LedgerError}
    → validate_from seen rs ≡ err e
    → (c : Corruption) × (e ≡ corrupt c)
unfolding validate_from
validate_from_corrupt seen [] h = absurd (cc)
validate_from_corrupt seen (r ∷ rs) h =
    elim (Result-cases (check_record (get seen.first r.effect_id) (get seen.last r.effect_id) r)) [
      | inl (u, c) ↦ validate_from_corrupt (note seen r) rs (rw c at h)
      | inr (x, c) ↦
          check_record_corrupt (get seen.first r.effect_id) (get seen.last r.effect_id) r
            (ground (arith, c, h))
    ]

-- After a settled fact no record of the effect makes a history that is accepted.
history_refuses :
    (rs : List EffectLedgerRecord) (p r : EffectLedgerRecord)
    → latest r.effect_id rs ≡ some p
    → p.state ≢ reserved
    → (c : Corruption) × (validate_history (rs ++ (r ∷ [])) ≡ err (corrupt c))
unfolding validate_history
history_refuses rs p r e n = elim (Result-cases (validate_history (rs ++ (r ∷ [])))) [
  | inl (u, h) ↦
      let l = of_effect r.effect_id rs in
      let lawful = (validate_history-IsLawful (rs ++ (r ∷ []))).0 h r.effect_id in
      absurd (
        not-IsLawful l p r (sym (latest-of_effect r.effect_id rs) ∙ e) n
          (subst IsLawful (of_effect-append_self rs r) lawful))
  | inr (x, h) ↦
      let (c, k) = validate_from_corrupt nothing_seen (rs ++ (r ∷ [])) h in (c, h ∙ ap err k)
]

module _ (size : EffectLedgerRecord → ℕ) (io : Io) (f : LedgerFile) (r : EffectLedgerRecord)
    {rs : List EffectLedgerRecord} (read : read_records io f ≡ ok rs) where
  -- When the ledger is readable and the latest record of the effect is no reservation, appending
  -- a valid record of that effect that states another fact, where the order of the keys in the
  -- details makes no other fact, is refused as corruption and leaves the file as it was.
  pub settled_refuses :
      (p : EffectLedgerRecord)
      → latest r.effect_id rs ≡ some p
      → p.state ≢ reserved
      → ¬ SameFact p r
      → validate r ≡ true
      → (c : Corruption) × (append_durable size io f r ≡ (err (corrupt c), f))
  unfolding append_durable repeats
  settled_refuses p e n d v =
      let (c, h) = history_refuses rs p r e n in
      elim (Bool-cases (same_fact p r)) [
        | inl y ↦ absurd (d (same_fact-SameFact p r y))
        | inr y ↦ (c, ground (arith, v, read, e, y, h))
      ]

  -- When the ledger is readable and the latest record of the effect passes for the fact, appending it
  -- again writes no line, whether the call returns or raises.
  pub retry_adds_no_line :
      (p : EffectLedgerRecord)
      → latest r.effect_id rs ≡ some p
      → same_fact p r ≡ true
      → (append_durable size io f r).1.lines ≡ f.lines
  unfolding append_durable repeats redurable_existing_fact
  retry_adds_no_line p e d = ground (arith, read, d)

-- A new fact in a file that is there says nothing of the file's entry in its folder.
pub entry_unchanged :
    (size : EffectLedgerRecord → ℕ) (io : Io) (f : LedgerFile) (r : EffectLedgerRecord)
    → f.exists ≡ true
    → (append_row size io f r).1.entry_durable ≡ f.entry_durable
unfolding append_row after_write
entry_unchanged size io f r h = ground arith
