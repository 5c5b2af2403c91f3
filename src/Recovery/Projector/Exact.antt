-- ===== src/Recovery/Projector/Exact.antt =====
-- The composite projection of `RecoveryProjector` against the two histories.
use wire_agent.Base.{
  ◌&&◌, subst, String, Bool, true, false, ◌≡◌, refl, sym, ap, ◌∙◌, ◌↔◌, ◌⊎◌, inl, inr, Option, none,
  some, List, [], ◌∷◌, ◌==◌, eq_iff, arith, if◌then◌else◌, Option-cases, In, sort_by, In-sort_by,
}
use wire_agent.Base.Results.{ok, bind-eq-ok}
use wire_agent.Base.Dict.{Dict, get, put, get-put, get-In, In-get}
use wire_agent.Effect.Record.{
  EffectLedgerRecord, EffectState, no_effect, reserved, effect_confirmed, effect_unknown,
  is_unresolved, lineage_eq_iff,
}
use wire_agent.Effect.File.{latest}
use wire_agent.Effect.Projection.{
  last_by_effect, get-last_by_effect_empty, last_by_effect-IsDict, is_unresolved_iff,
}
use wire_agent.Reconciliation.Record.{
  ReconciliationRecord, ReconciliationVerdict, confirmed_effect, confirmed_no_effect,
}
use wire_agent.Recovery.Projector.{
  RecoveryDisposition, settled_no_effect, settled_effect, unresolved_unknown, reconciled_effect,
  reconciled_no_effect, verdict_disposition, CompositeRecoveryProjection, first_by_effect,
  check_reconciliation, reconciliation_by_effect, disposition_of, project_effect, project_effects,
  join,
}

-- The reconciliation that the dictionary ends with for an effect: the last of its rows.
abbrev pub reconciliation_of : String → List ReconciliationRecord → Option ReconciliationRecord
reconciliation_of i [] = none
reconciliation_of i (q ∷ qs) =
    let rest = reconciliation_of i qs in
    elim rest [ some p ↦ some p | none ↦ if q.effect_id == i then some q else none ]

abbrev or_else :
    Option ReconciliationRecord → Option ReconciliationRecord → Option ReconciliationRecord
or_else none b = b
or_else (some a) b = some a

module _ (first last : Dict EffectLedgerRecord) where
  get-reconciliation_by_effect :
      (d out : Dict ReconciliationRecord) (qs : List ReconciliationRecord) (i : String)
      → reconciliation_by_effect first last d qs ≡ ok out
      → get out i ≡ or_else (reconciliation_of i qs) (get d i)
  unfolding reconciliation_by_effect
  get-reconciliation_by_effect d out [] i h = ground arith
  get-reconciliation_by_effect d out (q ∷ qs) i h =
      let (u, c, t) = bind-eq-ok (check_reconciliation _ _ q) _ h in
      ground (
        arith,
        get-reconciliation_by_effect (put d q.effect_id q) out qs i t,
        get-put d q.effect_id i q,
      )

  -- Every reconciliation that is joined belongs to an open effect with its lineage.
  checked_reconciliation :
      (d out : Dict ReconciliationRecord) (qs : List ReconciliationRecord)
      (q : ReconciliationRecord)
      → reconciliation_by_effect first last d qs ≡ ok out
      → In q qs
      → check_reconciliation (get first q.effect_id) (get last q.effect_id) q ≡ ok tt
  unfolding reconciliation_by_effect
  checked_reconciliation d out [] q h m = elim m [ ]
  checked_reconciliation d out (p ∷ qs) q h (inl e) =
      let (u, c, t) =
        bind-eq-ok (check_reconciliation (get first p.effect_id) (get last p.effect_id) p) _ h in
      subst (λ r. check_reconciliation (get first r.effect_id) (get last r.effect_id) r ≡ ok tt)
        (sym e) c
  checked_reconciliation d out (p ∷ qs) q h (inr m) =
      let (u, c, t) =
        bind-eq-ok (check_reconciliation (get first p.effect_id) (get last p.effect_id) p) _ h in
      checked_reconciliation (put d p.effect_id p) out qs q t m

abbrev pub is_none : Option ReconciliationRecord → Bool
is_none none = true
is_none (some q) = false

-- What an entry says, given the reconciliation of its effect.
record IsJoined (q : Option ReconciliationRecord) (p : CompositeRecoveryProjection) : Type 0 where
  semantic_key : p.semantic_key ≡ p.last_record.lineage.semantic_key
  raw_state : p.raw_state ≡ p.last_record.state
  reconciliation : p.reconciliation ≡ q
  disposition : disposition_of p.raw_state q ≡ ok p.disposition
  unresolved : p.unresolved ≡ (is_unresolved p.last_record.state && is_none q)

project_effect_ok :
    (first : Dict EffectLedgerRecord) (recs : Dict ReconciliationRecord) (i : String)
    (r : EffectLedgerRecord) (p : CompositeRecoveryProjection)
    → project_effect first recs i r ≡ ok p
    → (p.effect_id ≡ i)
      × (p.last_record ≡ r)
      × (get first i ≡ some p.first_record)
      × IsJoined (get recs i) p
unfolding project_effect
project_effect_ok first recs i r p h = ground arith

module _ (first : Dict EffectLedgerRecord) (recs : Dict ReconciliationRecord) where
  head-IsJoined :
      (i : String) (r : EffectLedgerRecord) (d : Dict EffectLedgerRecord)
      (x : CompositeRecoveryProjection)
      → (x.effect_id ≡ i)
        × (x.last_record ≡ r)
        × (get first i ≡ some x.first_record)
        × IsJoined (get recs i) x
      → In (x.effect_id, x.last_record) ((i, r) ∷ d)
        × (get first x.effect_id ≡ some x.first_record)
        × IsJoined (get recs x.effect_id) x
  head-IsJoined i r d x f = (
    inl (cc (f.0, f.1)),
    subst (λ j. get first j ≡ some x.first_record) (sym f.0) f.2,
    subst (λ j. IsJoined (get recs j) x) (sym f.0) f.3,
  )

  project_effects-cons :
      (i : String) (r : EffectLedgerRecord) (d : Dict EffectLedgerRecord)
      (ps : List CompositeRecoveryProjection)
      → project_effects first recs ((i, r) ∷ d) ≡ ok ps
      → (x : CompositeRecoveryProjection) × (xs : List CompositeRecoveryProjection) × (ps ≡ x ∷ xs)
        × (project_effect first recs i r ≡ ok x)
        × (project_effects first recs d ≡ ok xs)
  unfolding project_effects
  project_effects-cons i r d ps h = ground arith

  In-project_effects :
      (d : Dict EffectLedgerRecord) (ps : List CompositeRecoveryProjection)
      (p : CompositeRecoveryProjection)
      → project_effects first recs d ≡ ok ps
      → In p ps
      → In (p.effect_id, p.last_record) d
        × (get first p.effect_id ≡ some p.first_record)
        × IsJoined (get recs p.effect_id) p
  unfolding project_effects
  In-project_effects [] [] p h m = elim m [ ]
  In-project_effects [] (x ∷ ps) p h m = cc
  In-project_effects ((i, r) ∷ d) ps p h m =
      let (x, xs, e, a, b) = project_effects-cons i r d ps h in
      let n : (p ≡ x) ⊎ In p xs = subst (In p) e m in
      elim n [
        | inl q ↦
            subst
              (λ y.
                In (y.effect_id, y.last_record) ((i, r) ∷ d)
                × (get first y.effect_id ≡ some y.first_record)
                × IsJoined (get recs y.effect_id) y)
              (sym q) (head-IsJoined i r d x (project_effect_ok first recs i r x a))
        | inr n ↦ let ih = In-project_effects d xs p b n in (inr ih.0, ih.1, ih.2)
      ]

  project_effects-has :
      (d : Dict EffectLedgerRecord) (ps : List CompositeRecoveryProjection) (i : String)
      (r : EffectLedgerRecord)
      → project_effects first recs d ≡ ok ps
      → In (i, r) d
      → (p : CompositeRecoveryProjection) × In p ps × (p.effect_id ≡ i)
  project_effects-has [] ps i r h m = elim m [ ]
  project_effects-has ((j, s) ∷ d) ps i r h m =
      let (x, xs, e, a, b) = project_effects-cons j s d ps h in
      let f = project_effect_ok first recs j s x a in
      elim m [
        | inl q ↦ (
          x,
          subst (In x) (sym e) (inl refl),
          f.0 ∙ sym (ap (λ (p : String × EffectLedgerRecord). p.0) q),
        )
        | inr n ↦
            let (p, k, g) = project_effects-has d xs i r b n in (p, subst (In p) (sym e) (inr k), g)
      ]

-- The first record of an effect.
abbrev pub earliest : String → List EffectLedgerRecord → Option EffectLedgerRecord
earliest i [] = none
earliest i (r ∷ rs) = let rest = earliest i rs in if r.effect_id == i then some r else rest

get-first_by_effect :
    (d : Dict EffectLedgerRecord) (rs : List EffectLedgerRecord) (i : String)
    → get (first_by_effect d rs) i ≡ elim (get d i) [ some r ↦ some r | none ↦ earliest i rs ]
unfolding first_by_effect
get-first_by_effect d [] i = ground arith
get-first_by_effect d (r ∷ rs) i = elim (Option-cases (get d r.effect_id)) [
  | inl e ↦ ground (
    arith,
    e,
    get-first_by_effect (put d r.effect_id r) rs i,
    get-put d r.effect_id i r,
    eq_iff r.effect_id i,
  )
  | inr (x, e) ↦ ground (arith, e, get-first_by_effect d rs i, eq_iff r.effect_id i)
]

-- What becomes of an effect whose latest record has the state, given its reconciliation.
pub data Disposes : EffectState → Option ReconciliationRecord → RecoveryDisposition → Type 0 where
  never_happened : Disposes no_effect none settled_no_effect
  happened : Disposes effect_confirmed none settled_effect
  left_reserved : Disposes reserved none unresolved_unknown
  left_unknown : Disposes effect_unknown none unresolved_unknown
  found_effect :
      (s : EffectState) (q : ReconciliationRecord)
      → (s ≡ reserved) ⊎ (s ≡ effect_unknown)
      → q.verdict ≡ confirmed_effect
      → Disposes s (some q) reconciled_effect
  found_no_effect :
      (s : EffectState) (q : ReconciliationRecord)
      → (s ≡ reserved) ⊎ (s ≡ effect_unknown)
      → q.verdict ≡ confirmed_no_effect
      → Disposes s (some q) reconciled_no_effect

by_verdict :
    (s : EffectState) (q : ReconciliationRecord) (v : ReconciliationVerdict)
    → (s ≡ reserved) ⊎ (s ≡ effect_unknown)
    → q.verdict ≡ v
    → Disposes s (some q) (verdict_disposition v)
by_verdict s q confirmed_effect o e = found_effect s q o e
by_verdict s q confirmed_no_effect o e = found_no_effect s q o e

disposition_of-Disposes :
    (s : EffectState) (q : Option ReconciliationRecord) (d : RecoveryDisposition)
    → disposition_of s q ≡ ok d
    → Disposes s q d
unfolding disposition_of
disposition_of-Disposes no_effect none d h = subst (Disposes no_effect none) (cc) never_happened
disposition_of-Disposes no_effect (some q) d h = absurd (cc)
disposition_of-Disposes effect_confirmed none d h =
    subst (Disposes effect_confirmed none) (cc) happened
disposition_of-Disposes effect_confirmed (some q) d h = absurd (cc)
disposition_of-Disposes reserved none d h = subst (Disposes reserved none) (cc) left_reserved
disposition_of-Disposes reserved (some q) d h =
    subst (Disposes reserved (some q)) (cc) (by_verdict reserved q q.verdict (inl refl) refl)
disposition_of-Disposes effect_unknown none d h =
    subst (Disposes effect_unknown none) (cc) left_unknown
disposition_of-Disposes effect_unknown (some q) d h =
    subst (Disposes effect_unknown (some q)) (cc)
      (by_verdict effect_unknown q q.verdict (inr refl) refl)

unresolved_iff :
    (s : EffectState) (q : Option ReconciliationRecord) (u : Bool)
    → u ≡ (is_unresolved s && is_none q)
    → (u ≡ true) ↔ (((s ≡ reserved) ⊎ (s ≡ effect_unknown)) × (q ≡ none))
unresolved_iff s none u h = ground (arith, h, is_unresolved_iff s)
unresolved_iff s (some q) u h = (λ e. absurd (ground (arith, h, e)), λ (_, e). absurd (cc))

-- An entry of the composite projection, as the two histories have it.
pub record IsEntry (es : List EffectLedgerRecord) (qs : List ReconciliationRecord)
    (p : CompositeRecoveryProjection) : Type 0 where
  pub last_record : latest p.effect_id es ≡ some p.last_record
  pub first_record : earliest p.effect_id es ≡ some p.first_record
  pub semantic_key : p.semantic_key ≡ p.last_record.lineage.semantic_key
  pub raw_state : p.raw_state ≡ p.last_record.state
  pub reconciliation : p.reconciliation ≡ reconciliation_of p.effect_id qs
  pub disposition : Disposes p.last_record.state (reconciliation_of p.effect_id qs) p.disposition
  -- it is open exactly when its last record is and no reconciliation has settled it
  pub unresolved : (p.unresolved ≡ true) ↔ (
      ((p.last_record.state ≡ reserved) ⊎ (p.last_record.state ≡ effect_unknown))
      × (reconciliation_of p.effect_id qs ≡ none))

module _ (es : List EffectLedgerRecord) (qs : List ReconciliationRecord)
    (ps : List CompositeRecoveryProjection) (joins : join es qs ≡ ok ps) where
  join_parts :
      (recs : Dict ReconciliationRecord) × (out : List CompositeRecoveryProjection)
      × (reconciliation_by_effect (first_by_effect [] es) (last_by_effect [] es) [] qs ≡ ok recs)
      × (project_effects (first_by_effect [] es) recs (last_by_effect [] es) ≡ ok out)
      × (sort_by (λ p. p.effect_id) out ≡ ps)
  unfolding join
  join_parts = ground arith

  -- When the histories join, every entry of the projection has the first and the last record of
  -- its effect and the last reconciliation row of that effect if there is one; without such a row
  -- its disposition is settled_no_effect, settled_effect or unresolved_unknown as the last record
  -- is NO_EFFECT, EFFECT_CONFIRMED or one of RESERVED and EFFECT_UNKNOWN; with one the last
  -- record is RESERVED or EFFECT_UNKNOWN, and the disposition is reconciled_effect or
  -- reconciled_no_effect as the verdict says; and it is unresolved exactly when the last record
  -- is RESERVED or EFFECT_UNKNOWN and there is no such row.
  pub join_sound : (p : CompositeRecoveryProjection) → In p ps → IsEntry es qs p
  unfolding get
  join_sound p m =
      let (recs, out, a, b, c) = join_parts in
      let n = (In-sort_by (λ p. p.effect_id) p out).0 (subst (In p) (sym c) m) in
      let (k, f, j) =
        In-project_effects (first_by_effect [] es) recs (last_by_effect [] es) out p b n in
      let q = reconciliation_of p.effect_id qs in
      let x : IsJoined q p =
        subst (λ q. IsJoined q p)
          (get-reconciliation_by_effect (first_by_effect [] es) (last_by_effect [] es) [] recs qs
              p.effect_id a
            ∙ ground arith)
          j in
      record {
        last_record =
            sym (get-last_by_effect_empty es p.effect_id)
            ∙ In-get _ _ _ (last_by_effect-IsDict [] es tt) k;
        first_record = sym (get-first_by_effect [] es p.effect_id) ∙ f;
        semantic_key = x.semantic_key;
        raw_state = x.raw_state;
        reconciliation = x.reconciliation;
        disposition =
            subst (λ s. Disposes s q p.disposition) x.raw_state
              (disposition_of-Disposes p.raw_state q p.disposition x.disposition);
        unresolved = unresolved_iff p.last_record.state q p.unresolved x.unresolved;
      }

  -- When the histories join, every effect that has a record has an entry in the projection.
  pub join_complete :
      (i : String) (r : EffectLedgerRecord)
      → latest i es ≡ some r
      → (p : CompositeRecoveryProjection) × In p ps × (p.effect_id ≡ i)
  join_complete i r l =
      let (recs, out, a, b, c) = join_parts in
      let (p, n, e) =
        project_effects-has (first_by_effect [] es) recs (last_by_effect [] es) out i r b
          (get-In (last_by_effect [] es) i r (get-last_by_effect_empty es i ∙ l)) in
      (p, subst (In p) c ((In-sort_by (λ p. p.effect_id) p out).1 n), e)

  -- When the histories join, every reconciliation row is of an effect that has records, whose
  -- last record is unresolved, and has the lineage of its first record.
  pub join_admits :
      (q : ReconciliationRecord)
      → In q qs
      → (first : EffectLedgerRecord) × (last : EffectLedgerRecord) × (earliest q.effect_id es
          ≡ some first)
        × (latest q.effect_id es ≡ some last)
        × (is_unresolved last.state ≡ true)
        × (q.lineage ≡ first.lineage)
  unfolding get check_reconciliation
  join_admits q m =
      let (recs, out, a, b, c) = join_parts in
      let ok' =
        checked_reconciliation (first_by_effect [] es) (last_by_effect [] es) [] recs qs q a m in
      let f = get-first_by_effect [] es q.effect_id in
      let l = get-last_by_effect_empty es q.effect_id in
      elim (Option-cases (earliest q.effect_id es)) [
        | inl e ↦ absurd (ground (arith, ok', f, e))
        | inr (x, e) ↦ elim (Option-cases (latest q.effect_id es)) [
          | inl g ↦ absurd (ground (arith, ok', f, e, l, g))
          | inr (y, g) ↦ (
            x,
            y,
            e,
            g,
            ground (arith, ok', f, e, l, g),
            ground (arith, ok', f, e, l, g, lineage_eq_iff q.lineage x.lineage),
          )
        ]
      ]
