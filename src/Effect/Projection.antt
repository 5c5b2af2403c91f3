-- ===== src/Effect/Projection.antt =====
-- `recovery_projection` and `unresolved_semantic_keys` of
-- src/webwire/safety/effect_ledger.py.
use wire_agent.Base.{
  String, Bool, true, ◌≡◌, refl, sym, ◌∙◌, ap, ◌↔◌, ◌⊎◌, inl, inr, Option, none, some, List, [],
  ◌∷◌, map, arith, if◌then◌else◌, Bool-cases, In, In-map, sort_by, In-sort_by,
}
use wire_agent.Base.Results.{Result, ok, ◌>>=◌}
use wire_agent.Base.Dict.{Dict, IsDict, get, put, get-put, put-IsDict, get-In, In-get}
use wire_agent.Effect.Record.{
  EffectLedgerRecord, EffectState, no_effect, reserved, effect_confirmed, effect_unknown,
  is_unresolved,
}
use wire_agent.Effect.History.{LedgerError}
use wire_agent.Storage.{Io}
use wire_agent.Effect.File.{LedgerFile, read_records, latest}

pub record RecoveryProjection : Type 0 where
  pub effect_id : String
  pub semantic_key : String
  pub raw_state : EffectState
  pub effective_state : EffectState
  pub unresolved : Bool
  pub last_record : EffectLedgerRecord

-- What a reservation amounts to after a crash.
abbrev pub effective : EffectState → EffectState
effective reserved = effect_unknown
effective s = s

abbrev pub project_record : String × EffectLedgerRecord → RecoveryProjection
project_record (i, r) = record {
  effect_id = i;
  semantic_key = r.lineage.semantic_key;
  raw_state = r.state;
  effective_state = effective r.state;
  unresolved = is_unresolved r.state;
  last_record = r;
}

-- `latest[record.effect_id] = record` for each record.
unfoldable pub last_by_effect :
    Dict EffectLedgerRecord → List EffectLedgerRecord → Dict EffectLedgerRecord
last_by_effect d [] = d
last_by_effect d (r ∷ rs) = last_by_effect (put d r.effect_id r) rs

unfoldable pub project_all : List EffectLedgerRecord → List RecoveryProjection
project_all rs = sort_by (λ p. p.effect_id) (map project_record (last_by_effect [] rs))

pub recovery_projection : Io → LedgerFile → Result LedgerError (List RecoveryProjection)
recovery_projection io f = do rs ← read_records io f; ok (project_all rs)

keys_of : List RecoveryProjection → List String
keys_of [] = []
keys_of (p ∷ ps) = let rest = keys_of ps in if p.unresolved then p.semantic_key ∷ rest else rest

-- The set is a list of its keys.
unfoldable pub unresolved_semantic_keys : Io → LedgerFile → Result LedgerError (List String)
unfolding keys_of recovery_projection
unresolved_semantic_keys io f = do ps ← recovery_projection io f; ok (keys_of ps)

abbrev or_else : Option EffectLedgerRecord → Option EffectLedgerRecord → Option EffectLedgerRecord
or_else none b = b
or_else (some a) b = some a

get-last_by_effect :
    (d : Dict EffectLedgerRecord) (rs : List EffectLedgerRecord) (i : String)
    → get (last_by_effect d rs) i ≡ or_else (latest i rs) (get d i)
unfolding last_by_effect latest
get-last_by_effect d [] i = refl
get-last_by_effect d (r ∷ rs) i =
    ground (arith, get-last_by_effect (put d r.effect_id r) rs i, get-put d r.effect_id i r)

pub last_by_effect-IsDict :
    (d : Dict EffectLedgerRecord) (rs : List EffectLedgerRecord)
    → IsDict d
    → IsDict (last_by_effect d rs)
unfolding last_by_effect
last_by_effect-IsDict d [] h = h
last_by_effect-IsDict d (r ∷ rs) h =
    last_by_effect-IsDict (put d r.effect_id r) rs (put-IsDict d r.effect_id r h)

-- The dictionary holds the latest record of each effect.
pub get-last_by_effect_empty :
    (rs : List EffectLedgerRecord) (i : String) → get (last_by_effect [] rs) i ≡ latest i rs
unfolding get
get-last_by_effect_empty rs i = get-last_by_effect [] rs i ∙ ground arith

-- The recovery projection has an entry exactly for each effect of the history, and the entry is
-- made of the latest record of that effect.
pub project_all_iff :
    (rs : List EffectLedgerRecord) (p : RecoveryProjection)
    → In p (project_all rs) ↔ (
        (r : EffectLedgerRecord) × (latest p.effect_id rs ≡ some r)
        × (p ≡ project_record (p.effect_id, r)))
unfolding project_all
project_all_iff rs p =
    let d = last_by_effect [] rs in
    (
      λ m.
          let (x, q, e) = (In-map project_record p d).0 ((In-sort_by (λ p. p.effect_id) p _).0 m) in
          let g = In-get d x.0 x.1 (last_by_effect-IsDict [] rs tt) q in
          let i : p.effect_id ≡ x.0 = ap (λ (p : RecoveryProjection). p.effect_id) e in
          (
            x.1,
            ap (λ j. latest j rs) i ∙ sym (get-last_by_effect_empty rs x.0) ∙ g,
            e ∙ ap (λ j. project_record (j, x.1)) (sym i),
          ),
      λ (r, l, e). (In-sort_by (λ p. p.effect_id) p _).1 (
          (In-map project_record p d).1
            ((p.effect_id, r), get-In d p.effect_id r (get-last_by_effect_empty rs _ ∙ l), e)),
    )

In-keys_of :
    (k : String) (ps : List RecoveryProjection)
    → In k (keys_of ps)
      ↔ ((p : RecoveryProjection) × In p ps × (p.unresolved ≡ true) × (k ≡ p.semantic_key))
unfolding keys_of
In-keys_of k [] = (λ m. elim m [ ], λ (p, m, u, e). m)
In-keys_of k (p ∷ ps) = (
  λ m. elim (Bool-cases p.unresolved) [
    | inl u ↦ elim (let t : (k ≡ p.semantic_key) ⊎ In k (keys_of ps) = rw u at m in t) [
      | inl e ↦ (p, inl refl, u, e)
      | inr n ↦ let (q, a, b, c) = (In-keys_of k ps).0 n in (q, inr a, b, c)
    ]
    | inr u ↦
        let t : In k (keys_of ps) = rw u at m in
        let (q, a, b, c) = (In-keys_of k ps).0 t in (q, inr a, b, c)
  ],
  λ (q, m, b, c). elim m [
    | inl e ↦
        rw (ap (λ (p : RecoveryProjection). p.unresolved) (sym e) ∙ b)
          (inl (c ∙ ap (λ (p : RecoveryProjection). p.semantic_key) e))
    | inr n ↦
        let t = (In-keys_of k ps).1 (q, n, b, c) in
        elim (Bool-cases p.unresolved) [ inl u ↦ rw u (inr t) | inr u ↦ rw u t ]
  ],
)

-- An effect of the history is open: its latest record is a reservation or of unknown outcome.
abbrev pub IsOpen : List EffectLedgerRecord → String → EffectLedgerRecord → Type 0
IsOpen rs i r = (latest i rs ≡ some r) × (is_unresolved r.state ≡ true)

-- The latest record of the effect is a reservation or of unknown outcome.
abbrev pub IsPending : List EffectLedgerRecord → String → EffectLedgerRecord → Type 0
IsPending rs i r = (latest i rs ≡ some r) × ((r.state ≡ reserved) ⊎ (r.state ≡ effect_unknown))

pub is_unresolved_iff :
    (s : EffectState) → (is_unresolved s ≡ true) ↔ ((s ≡ reserved) ⊎ (s ≡ effect_unknown))
is_unresolved_iff reserved = (λ _. inl refl, λ _. refl)
is_unresolved_iff effect_unknown = (λ _. inr refl, λ _. refl)
is_unresolved_iff no_effect =
    (λ e. absurd (cc), λ e. elim e [ inl x ↦ absurd (cc) | inr x ↦ absurd (cc) ])
is_unresolved_iff effect_confirmed =
    (λ e. absurd (cc), λ e. elim e [ inl x ↦ absurd (cc) | inr x ↦ absurd (cc) ])

-- When the ledger is readable, unresolved_semantic_keys returns exactly the semantic keys of the
-- effects whose latest record has the state RESERVED or EFFECT_UNKNOWN.
pub unresolved_semantic_keys_exact :
    (io : Io) (f : LedgerFile) (rs : List EffectLedgerRecord)
    → read_records io f ≡ ok rs
    → (ks : List String) × (unresolved_semantic_keys io f ≡ ok ks)
      × ((k : String)
          → In k ks ↔ (
              (i : String) × (r : EffectLedgerRecord) × IsPending rs i r
              × (k ≡ r.lineage.semantic_key)))
unfolding unresolved_semantic_keys
unresolved_semantic_keys_exact io f rs read = (
  keys_of (project_all rs),
  rw read,
  λ k. (
    λ m.
        let (p, n, u, e) = (In-keys_of k (project_all rs)).0 m in
        let (r, l, q) = (project_all_iff rs p).0 n in
        (
          p.effect_id,
          r,
          (
            l,
            (is_unresolved_iff r.state).0
                (ap (λ (p : RecoveryProjection). p.unresolved) (sym q) ∙ u),
          ),
          e ∙ ap (λ (p : RecoveryProjection). p.semantic_key) q,
        ),
    λ (i, r, o, e). (In-keys_of k (project_all rs)).1 (
      project_record (i, r),
      (project_all_iff rs (project_record (i, r))).1 (r, o.0, refl),
      (is_unresolved_iff r.state).1 o.1,
      e,
    ),
  ),
)
