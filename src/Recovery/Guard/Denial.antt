-- ===== src/Recovery/Guard/Denial.antt =====
-- What `require_clear` answers when the ledgers can be read and when they cannot.
use wire_agent.Base.{
  String, true, ◌≡◌, ◌≢◌, refl, ap, ◌∙◌, ◌↔◌, ◌⊎◌, inl, inr, Option, none, some, List, [], ◌∷◌,
  eq_iff, arith, In, In-sort_by,
}
use wire_agent.Base.Results.{ok, err, Result-cases}
use wire_agent.Base.Dict.{get}
use wire_agent.Effect.Record.{EffectLedgerRecord, reserved, effect_unknown}
use wire_agent.Effect.File.{read_records, latest}
use wire_agent.Effect.History.{LedgerError as EffectError}
use wire_agent.Effect.Projection.{is_unresolved_iff}
use wire_agent.Reconciliation.History.{LedgerError as RowError}
use wire_agent.Recovery.Projector.Exact.{earliest, join_admits}
use wire_agent.Reconciliation.Record.{ReconciliationRecord}
use wire_agent.Reconciliation.Ledger.{read_authoritative}
use wire_agent.Recovery.Projector.{
  CompositeRecoveryProjection, ProjectorError, corrupt, effect_ledger, reconciliation_ledger, join,
  project,
}
use wire_agent.Recovery.Guard.{
  RecoveryEffect, RecoveryBlock, RecoveryGuard, unavailable, Ledgers, blocks_from_projection,
  refresh, cached_block, require_clear,
}
use wire_agent.Recovery.Guard.Exact.{
  block_under, open_under, open_under_exact, get-blocks, IsUnresolved, effect_in,
}

abbrev pub effects_of : Option RecoveryBlock → List RecoveryEffect
effects_of none = []
effects_of (some b) = b.effects

-- The histories that the guard reads, and their join.
pub record IsRead (l : Ledgers) (es : List EffectLedgerRecord) (qs : List ReconciliationRecord)
    (ps : List CompositeRecoveryProjection) : Type 0 where
  pub effects : read_records l.effect_io l.effects ≡ ok es
  pub reconciliations : (read_authoritative l.reconciliation_io l.reconciliations).0 ≡ ok qs
  pub joins : join es qs ≡ ok ps

-- The reconciliation row is of an effect that has records, whose latest record is a reservation or
-- of unknown outcome, and it has the lineage of the first of them.
abbrev pub Fits : List EffectLedgerRecord → ReconciliationRecord → Type 0
Fits es q =
    (first : EffectLedgerRecord) × (last : EffectLedgerRecord) × (earliest q.effect_id es
      ≡ some first)
    × (latest q.effect_id es ≡ some last)
    × ((last.state ≡ reserved) ⊎ (last.state ≡ effect_unknown))
    × (q.lineage ≡ first.lineage)

-- Why the guard cannot know what is unresolved.
pub data IsRefused (l : Ledgers) : Type 0 where
  effects_unread : (x : EffectError) → read_records l.effect_io l.effects ≡ err x → IsRefused l
  reconciliations_unread :
      (x : RowError)
      → (read_authoritative l.reconciliation_io l.reconciliations).0 ≡ err x
      → IsRefused l
  -- both are read, and a reconciliation does not fit the effects
  unfit :
      (es : List EffectLedgerRecord) (qs : List ReconciliationRecord) (q : ReconciliationRecord)
      → read_records l.effect_io l.effects ≡ ok es
      → (read_authoritative l.reconciliation_io l.reconciliations).0 ≡ ok qs
      → In q qs
      → ¬ Fits es q
      → IsRefused l

join-Fits :
    (es : List EffectLedgerRecord) (qs : List ReconciliationRecord)
    (ps : List CompositeRecoveryProjection) (q : ReconciliationRecord)
    → join es qs ≡ ok ps
    → In q qs
    → Fits es q
join-Fits es qs ps q h m =
    let (first, last, a, b, c, d) = join_admits es qs ps h q m in
    (first, last, a, b, (is_unresolved_iff last.state).0 c, d)

abbrev IsErring : Ledgers → Type 0
IsErring l =
    (x : ProjectorError) × ((project l.effect_io l.reconciliation_io l.effects l.reconciliations).0
      ≡ err x)

project_refused : (l : Ledgers) → IsRefused l → IsErring l
unfolding project
project_refused l (effects_unread x e) = (effect_ledger x, ground (arith, e))
project_refused l (reconciliations_unread x e) =
    elim (Result-cases (read_records l.effect_io l.effects)) [
      | inl (es, f) ↦ (reconciliation_ledger x, ground (arith, e, f))
      | inr (y, f) ↦ (effect_ledger y, ground (arith, f))
    ]
project_refused l (unfit es qs q e f m n) = elim (Result-cases (join es qs)) [
  | inl (ps, h) ↦ absurd (n (join-Fits es qs ps q h m))
  | inr (y, h) ↦ (corrupt y, ground (arith, e, f, h))
]

module _ (l : Ledgers) (k : String) (g : RecoveryGuard) where
  In-block_under :
      (es : List RecoveryEffect) (e : RecoveryEffect)
      → In e (effects_of (block_under k es)) ↔ In e es
  In-block_under [] e = (λ m. m, λ m. m)
  In-block_under (x ∷ es) e = In-sort_by (λ e. e.effect_id) e (x ∷ es)

  none_left : (es : List RecoveryEffect) (e : RecoveryEffect) → block_under k es ≡ none → ¬ In e es
  none_left [] e h m = m
  none_left (x ∷ es) e h m = cc

  block_under_empty :
      (es : List RecoveryEffect) → ((e : RecoveryEffect) → ¬ In e es) → block_under k es ≡ none
  block_under_empty [] h = refl
  block_under_empty (x ∷ es) h = absurd (h x (inl refl))

  require_clear_read :
      (es : List EffectLedgerRecord) (qs : List ReconciliationRecord)
      (ps : List CompositeRecoveryProjection)
      → IsRead l es qs ps
      → k ≢ ""
      → (require_clear l k true g).0 ≡ ok (get (blocks_from_projection ps) k)
  unfolding require_clear refresh project
  require_clear_read es qs ps h n =
      ground (arith, h.effects, h.reconciliations, h.joins, eq_iff k "")

  -- When both ledgers are read and their histories join, a refreshing require_clear for a non-
  -- empty key answers; its block lists exactly the effects that the histories leave unresolved
  -- under that key, each with its raw and effective state; and there is no block exactly when
  -- there is no such effect.
  pub require_clear_exact :
      (es : List EffectLedgerRecord) (qs : List ReconciliationRecord)
      (ps : List CompositeRecoveryProjection)
      → IsRead l es qs ps
      → k ≢ ""
      → (b : Option RecoveryBlock) × ((require_clear l k true g).0 ≡ ok b)
        × ((e : RecoveryEffect)
            → In e (effects_of b) ↔ (
                (i : String) × (r : EffectLedgerRecord) × IsUnresolved es qs k i r
                × (e ≡ effect_in i r)))
        × ((b ≡ none) ↔ ((i : String) (r : EffectLedgerRecord) → ¬ IsUnresolved es qs k i r))
  require_clear_exact es qs ps h n =
      let x = open_under_exact es qs ps h.joins k in
      (
        block_under k (open_under k ps),
        require_clear_read es qs ps h n ∙ ap ok (get-blocks ps k),
        λ e. (
          λ m. (x e).0 ((In-block_under (open_under k ps) e).0 m),
          λ w. (In-block_under (open_under k ps) e).1 ((x e).1 w),
        ),
        (
          λ b i r u.
              none_left (open_under k ps) (effect_in i r) b ((x (effect_in i r)).1 (i, r, u, refl)),
          λ no.
              block_under_empty (open_under k ps) (λ e m. let (i, r, u, d) = (x e).0 m in no i r u),
        ),
      )

  require_clear_refused :
      (x : ProjectorError)
      → (project l.effect_io l.reconciliation_io l.effects l.reconciliations).0 ≡ err x
      → k ≢ ""
      → ((require_clear l k true g).0 ≡ err unavailable)
        × ((j : String) → cached_block j (require_clear l k true g).1 ≡ err unavailable)
  unfolding require_clear refresh cached_block
  require_clear_refused x h n =
      (ground (arith, h, eq_iff k ""), λ j. ground (arith, h, eq_iff k ""))

  -- When the effect ledger or the reconciliation ledger cannot be read, or both are read and some
  -- reconciliation row is of an effect without records, of one whose latest record is neither a
  -- reservation nor of unknown outcome, or of another lineage than its first record, a refreshing
  -- require_clear for a non-empty key raises RecoveryGuardUnavailable, and afterwards the cached
  -- answer for every key is that error too.
  pub require_clear_closed :
      IsRefused l
      → k ≢ ""
      → ((require_clear l k true g).0 ≡ err unavailable)
        × ((j : String) → cached_block j (require_clear l k true g).1 ≡ err unavailable)
  require_clear_closed h n = let (x, e) = project_refused l h in require_clear_refused x e n
