-- ===== src/Recovery/Guard/Exact.antt =====
-- The blocks of the `RecoveryGuard` against the effects that the two histories leave open.
use wire_agent.Base.{
  subst, String, true, ◌&&◌, ◌≡◌, refl, sym, ap, ◌∙◌, ◌↔◌, ◌⊎◌, inl, inr, Option, none, some, List,
  [], ◌∷◌, ◌++◌, map, ◌==◌, eq_iff, arith, if◌then◌else◌, Bool-cases, text_cases, In, sort_by,
}
use mathlib.Core.List.{append_assoc, append-nil}
use wire_agent.Base.Results.{ok}
use wire_agent.Base.Dict.{Dict, get, put, get-put}
use wire_agent.Effect.Record.{EffectLedgerRecord, is_unresolved}
use wire_agent.Effect.File.{latest}
use wire_agent.Effect.Projection.{effective, IsOpen, is_unresolved_iff}
use wire_agent.Reconciliation.Record.{ReconciliationRecord}
use wire_agent.Recovery.Projector.{CompositeRecoveryProjection, join}
use wire_agent.Recovery.Projector.Exact.{reconciliation_of, join_sound, join_complete}
use wire_agent.Recovery.Guard.{
  RecoveryEffect, RecoveryBlock, effect_of, or_empty, group, block_of, blocks_from_projection,
}

-- The effects that the projection leaves open under a key, in its order.
abbrev pub open_under : String → List CompositeRecoveryProjection → List RecoveryEffect
open_under k [] = []
open_under k (p ∷ ps) =
    let rest = open_under k ps in
    if p.unresolved && (p.semantic_key == k) then effect_of p ∷ rest else rest

abbrev extend : Option (List RecoveryEffect) → List RecoveryEffect → Option (List RecoveryEffect)
extend none [] = none
extend none (e ∷ es) = some (e ∷ es)
extend (some xs) es = some (xs ++ es)

extend-cons :
    (o : Option (List RecoveryEffect)) (e : RecoveryEffect) (es : List RecoveryEffect)
    → extend (some (or_empty o ++ (e ∷ []))) es ≡ extend o (e ∷ es)
extend-cons none e es = refl
extend-cons (some xs) e es = ap some (append_assoc xs (e ∷ []) es)

extend-nil : (o : Option (List RecoveryEffect)) → extend o [] ≡ o
extend-nil none = refl
extend-nil (some xs) = ap some (append-nil xs)

abbrev with_effect :
    Dict (List RecoveryEffect) → CompositeRecoveryProjection → Dict (List RecoveryEffect)
with_effect g p = put g p.semantic_key (or_empty (get g p.semantic_key) ++ (effect_of p ∷ []))

-- One round of the grouping, seen under one key.
get-with_effect :
    (g : Dict (List RecoveryEffect)) (p : CompositeRecoveryProjection) (es : List RecoveryEffect)
    (k : String)
    → extend (get (with_effect g p) k) es
      ≡ extend (get g k) (if p.semantic_key == k then effect_of p ∷ es else es)
get-with_effect g p es k = elim (text_cases p.semantic_key k) [
  | inl e ↦
      rw (get-put, e.0)
        (subst
          (λ j.
            extend (some (or_empty (get g j) ++ (effect_of p ∷ []))) es
            ≡ extend (get g k) (effect_of p ∷ es))
          (sym e.1) (extend-cons (get g k) (effect_of p) es))
  | inr n ↦ rw (get-put, n.0)
]

get-group :
    (g : Dict (List RecoveryEffect)) (ps : List CompositeRecoveryProjection) (k : String)
    → get (group g ps) k ≡ extend (get g k) (open_under k ps)
unfolding group
get-group g [] k = sym (extend-nil (get g k))
get-group g (p ∷ ps) k = elim (Bool-cases p.unresolved) [
  | inr u ↦ rw u (get-group g ps k)
  | inl u ↦ rw u (get-group (with_effect g p) ps k ∙ get-with_effect g p (open_under k ps) k)
]

get-map :
    (d : Dict (List RecoveryEffect)) (k : String)
    → get (map block_of d) k ≡ elim (get d k) [ none ↦ none | some es ↦ some (block_of (k, es)).1 ]
unfolding get
get-map [] k = refl
get-map ((j, es) ∷ d) k = ground (arith, get-map d k, eq_iff j k)

abbrev pub sorted : List RecoveryEffect → List RecoveryEffect
sorted es = sort_by (λ e. e.effect_id) es

-- The block of a key: none when nothing is open under it, and else its open effects.
abbrev pub block_under : String → List RecoveryEffect → Option RecoveryBlock
block_under k [] = none
block_under k (e ∷ es) = some (record { semantic_key = k; effects = sorted (e ∷ es) })

pub get-blocks :
    (ps : List CompositeRecoveryProjection) (k : String)
    → get (blocks_from_projection ps) k ≡ block_under k (open_under k ps)
unfolding blocks_from_projection get
get-blocks ps k = ground (arith, get-map (group [] ps) k, get-group [] ps k)

head_open :
    (k : String) (p : CompositeRecoveryProjection) (rest : List RecoveryEffect) (e : RecoveryEffect)
    → p.unresolved ≡ true
    → p.semantic_key ≡ k
    → e ≡ effect_of p
    → In e (if p.unresolved && (p.semantic_key == k) then effect_of p ∷ rest else rest)
head_open k p rest e u c d = rw (u, (eq_iff p.semantic_key k).1 c) (inl d)

In-open_under :
    (k : String) (ps : List CompositeRecoveryProjection) (e : RecoveryEffect)
    → In e (open_under k ps) ↔ (
        (p : CompositeRecoveryProjection) × In p ps
        × (p.unresolved ≡ true)
        × (p.semantic_key ≡ k)
        × (e ≡ effect_of p))
In-open_under k [] e = (λ m. elim m [ ], λ (p, m, u, h, q). m)
In-open_under k (p ∷ ps) e = (
  λ m. elim (Bool-cases (p.unresolved && (p.semantic_key == k))) [
    | inl u ↦ elim (let t : (e ≡ effect_of p) ⊎ In e (open_under k ps) = rw u at m in t) [
      | inl q ↦ (p, inl refl, ground (arith, u), ground (arith, u, eq_iff p.semantic_key k), q)
      | inr n ↦ let (x, a, b, c, d) = (In-open_under k ps e).0 n in (x, inr a, b, c, d)
    ]
    | inr u ↦
        let t : In e (open_under k ps) = rw u at m in
        let (x, a, b, c, d) = (In-open_under k ps e).0 t in (x, inr a, b, c, d)
  ],
  λ (x, m, b, c, d). elim m [
    | inl q ↦
        subst
          (λ y. In e (
            if y.unresolved && (y.semantic_key == k)
            then effect_of y ∷ open_under k ps
            else open_under k ps))
          q (head_open k x (open_under k ps) e b c d)
    | inr n ↦
        let t = (In-open_under k ps e).1 (x, n, b, c, d) in
        elim (Bool-cases (p.unresolved && (p.semantic_key == k))) [
          | inl u ↦ rw u (inr t)
          | inr u ↦ rw u t
        ]
  ],
)

-- The histories leave the effect `i` open under the key: its latest record `r` is, and no
-- reconciliation settles it.
abbrev pub IsUnresolved :
    List EffectLedgerRecord
    → List ReconciliationRecord
    → String
    → String
    → EffectLedgerRecord
    → Type 0
IsUnresolved es qs k i r =
    IsOpen es i r × (reconciliation_of i qs ≡ none) × (r.lineage.semantic_key ≡ k)

abbrev pub effect_in : String → EffectLedgerRecord → RecoveryEffect
effect_in i r = record { effect_id = i; raw_state = r.state; effective_state = effective r.state }

module _ (es : List EffectLedgerRecord) (qs : List ReconciliationRecord)
    (ps : List CompositeRecoveryProjection) (joins : join es qs ≡ ok ps) (k : String) where
  pub open_under_exact :
      (e : RecoveryEffect)
      → In e (open_under k ps)
        ↔ ((i : String) × (r : EffectLedgerRecord) × IsUnresolved es qs k i r × (e ≡ effect_in i r))
  open_under_exact e = (
    λ m.
        let (p, n, u, c, d) = (In-open_under k ps e).0 m in
        let s = join_sound es qs ps joins p n in
        let (o, none_left) = s.unresolved.0 u in
        (
          p.effect_id,
          p.last_record,
          (
            (s.last_record, (is_unresolved_iff p.last_record.state).1 o),
            none_left,
            sym s.semantic_key ∙ c,
          ),
          d
              ∙ ap
                  (λ x.
                    let e : RecoveryEffect = record {
                      effect_id = p.effect_id;
                      raw_state = x;
                      effective_state = effective x;
                    } in
                    e)
                  s.raw_state,
        ),
    λ (i, r, o, d).
        let (p, n, h) = join_complete es qs ps joins i r o.0.0 in
        let s = join_sound es qs ps joins p n in
        let same : p.last_record ≡ r =
          ground (arith, s.last_record, o.0.0, ap (λ i. latest i es) h) in
        (In-open_under k ps e).1 (
          p,
          n,
          s.unresolved.1 (
            (is_unresolved_iff p.last_record.state).0
                (ap (λ (r : EffectLedgerRecord). is_unresolved r.state) same ∙ o.0.1),
            ap (λ i. reconciliation_of i qs) h ∙ o.1,
          ),
          s.semantic_key ∙ ap (λ (r : EffectLedgerRecord). r.lineage.semantic_key) same ∙ o.2,
          d ∙ cc (h, same, s.raw_state),
        ),
  )
