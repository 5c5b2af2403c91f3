-- ===== src/Effect/History/Lawful.antt =====
-- What `_validate_history` accepts, said of each effect's own records.
use wire_agent.Base.{
  subst, String, true, false, ◌≡◌, ◌≢◌, refl, sym, ◌↔◌, inl, inr, Option, none, some, List, [], ◌∷◌,
  ◌==◌, eq_iff, eq_refl, arith, if◌then◌else◌, text_cases,
}
use wire_agent.Base.Results.{ok, bind-eq-ok}
use wire_agent.Base.Dict.{get, get-put}
use wire_agent.Effect.Record.{
  EffectLedgerRecord, reserved, is_initial, is_allowed, same_lineage, same_lineage_iff,
}
use wire_agent.Effect.History.{
  Seen, nothing_seen, check_record, note, validate_from, validate_history,
}

-- The records of one effect, in order.
abbrev pub of_effect : String → List EffectLedgerRecord → List EffectLedgerRecord
of_effect i [] = []
of_effect i (r ∷ rs) = let rest = of_effect i rs in if r.effect_id == i then r ∷ rest else rest

-- One effect's history: nothing, one initial record, or a reservation and its one successor,
-- which has the same lineage.
abbrev pub IsLawful : List EffectLedgerRecord → Type 0
IsLawful [] = Unit
IsLawful (r ∷ []) = is_initial r.state ≡ true
IsLawful (r ∷ s ∷ []) =
    (r.state ≡ reserved)
    × (s.state ≢ reserved)
    × (r.lineage ≡ s.lineage)
    × (r.approver ≡ s.approver)
IsLawful (r ∷ s ∷ t ∷ rs) = ⊥

abbrev Continues : EffectLedgerRecord → EffectLedgerRecord → List EffectLedgerRecord → Type 0
Continues f p [] = Unit
Continues f p (r ∷ rs) =
    (same_lineage f r ≡ true) × (is_allowed p.state r.state ≡ true) × Continues f r rs

abbrev or_else : Option EffectLedgerRecord → EffectLedgerRecord → EffectLedgerRecord
or_else none r = r
or_else (some f) r = f

abbrev Runs :
    Option EffectLedgerRecord → Option EffectLedgerRecord → List EffectLedgerRecord → Type 0
Runs f l [] = Unit
Runs f l (r ∷ rs) = (check_record f l r ≡ ok tt) × Continues (or_else f r) r rs

Continues-Runs :
    (f p : EffectLedgerRecord) (rs : List EffectLedgerRecord)
    → Continues f p rs
    → Runs (some f) (some p) rs
unfolding check_record
Continues-Runs f p [] h = tt
Continues-Runs f p (r ∷ rs) h = (ground (arith, h.0, h.1), h.2)

Runs-Continues :
    (f p : EffectLedgerRecord) (rs : List EffectLedgerRecord)
    → Runs (some f) (some p) rs
    → Continues f p rs
unfolding check_record
Runs-Continues f p [] h = tt
Runs-Continues f p (r ∷ rs) h = (ground (arith, h.0), ground (arith, h.0), h.1)

first-note :
    (seen : Seen) (r : EffectLedgerRecord) (i : String)
    → get (note seen r).first i
      ≡ (if r.effect_id == i then some (or_else (get seen.first i) r) else get seen.first i)
unfolding note
first-note seen r i = ground (arith, get-put seen.first r.effect_id i r, eq_iff r.effect_id i)

last-note :
    (seen : Seen) (r : EffectLedgerRecord) (i : String)
    → get (note seen r).last i ≡ (if r.effect_id == i then some r else get seen.last i)
unfolding note
last-note seen r i = ground (arith, get-put seen.last r.effect_id i r)

abbrev RunsAt : Seen → String → List EffectLedgerRecord → Type 0
RunsAt seen i rs = Runs (get seen.first i) (get seen.last i) rs

-- What a round leaves for the records that follow, at its own effect and at any other.
module _ (seen : Seen) (r : EffectLedgerRecord) (i : String) (l : List EffectLedgerRecord) where
  RunsAt-note_self :
      (r.effect_id == i) ≡ true
      → RunsAt (note seen r) i l ≡ Runs (some (or_else (get seen.first i) r)) (some r) l
  RunsAt-note_self e = rw (first-note, last-note, e)

  RunsAt-note_ne : (r.effect_id == i) ≡ false → RunsAt (note seen r) i l ≡ RunsAt seen i l
  RunsAt-note_ne e = rw (first-note, last-note, e)

abbrev Checks : Seen → EffectLedgerRecord → String → Type 0
Checks seen r i = check_record (get seen.first i) (get seen.last i) r ≡ ok tt

module _ (seen : Seen) (r : EffectLedgerRecord) (rs : List EffectLedgerRecord) (i : String) where
  RunsAt-cons :
      Checks seen r r.effect_id
      → RunsAt (note seen r) i (of_effect i rs)
      → RunsAt seen i (of_effect i (r ∷ rs))
  RunsAt-cons c h = elim (text_cases r.effect_id i) [
    | inl e ↦ rw e.0 (
      subst (Checks seen r) e.1 c,
      Runs-Continues _ _ _ (subst (λ T. T) (RunsAt-note_self seen r i _ e.0) h),
    )
    | inr n ↦ rw n.0 (subst (λ T. T) (RunsAt-note_ne seen r i _ n.0) h)
  ]

  RunsAt-uncons : RunsAt seen i (of_effect i (r ∷ rs)) → RunsAt (note seen r) i (of_effect i rs)
  RunsAt-uncons h = elim (text_cases r.effect_id i) [
    | inl e ↦
        let t : Runs (get seen.first i) (get seen.last i) (r ∷ of_effect i rs) = rw e.0 at h in
        subst (λ T. T) (sym (RunsAt-note_self seen r i _ e.0)) (Continues-Runs _ _ _ t.1)
    | inr n ↦ subst (λ T. T) (sym (RunsAt-note_ne seen r i _ n.0)) (rw n.0 at h)
  ]

check_of_RunsAt :
    (seen : Seen) (r : EffectLedgerRecord) (rs : List EffectLedgerRecord)
    → RunsAt seen r.effect_id (of_effect r.effect_id (r ∷ rs))
    → Checks seen r r.effect_id
check_of_RunsAt seen r rs h =
    let t : Runs (get seen.first r.effect_id) (get seen.last r.effect_id)
        (r ∷ of_effect r.effect_id rs) =
      rw eq_refl at h in
    t.0

validate_from_iff :
    (seen : Seen) (rs : List EffectLedgerRecord)
    → (validate_from seen rs ≡ ok tt) ↔ ((i : String) → RunsAt seen i (of_effect i rs))
unfolding validate_from
validate_from_iff seen [] = (λ _ i. tt, λ _. refl)
validate_from_iff seen (r ∷ rs) =
    let ih = validate_from_iff (note seen r) rs in
    (
      λ h i.
          let (u, c, t) = bind-eq-ok (check_record _ _ r) _ h in
          RunsAt-cons seen r rs i c (ih.0 t i),
      λ h.
          rw (check_of_RunsAt seen r rs (h r.effect_id))
            (ih.1 (λ i. RunsAt-uncons seen r rs i (h i))),
    )

IsLawful-iff : (l : List EffectLedgerRecord) → Runs none none l ↔ IsLawful l
unfolding check_record
IsLawful-iff [] = (λ h. h, λ h. h)
IsLawful-iff (r ∷ []) = ground arith
IsLawful-iff (r ∷ s ∷ []) = ground (arith, same_lineage_iff r s)
IsLawful-iff (r ∷ s ∷ t ∷ l) = ground arith

-- A history is accepted exactly when the records of every effect are none, one in an initial
-- state, or a reservation followed by one record in another state with the same lineage and
-- approver.
pub validate_history-IsLawful :
    (rs : List EffectLedgerRecord)
    → (validate_history rs ≡ ok tt) ↔ ((i : String) → IsLawful (of_effect i rs))
unfolding validate_history get
validate_history-IsLawful rs =
    let e = validate_from_iff nothing_seen rs in
    (
      λ h i. (IsLawful-iff (of_effect i rs)).0 (e.0 h i),
      λ h. e.1 (λ i. (IsLawful-iff (of_effect i rs)).1 (h i)),
    )
