-- ===== src/Recovery/Guard.antt =====
-- `RecoveryGuard` of src/webwire/safety/recovery_guard.py. The locks of the source make each
-- method run whole.
pub mod Exact
pub mod Denial
use wire_agent.Base.{
  ℕ, ◌+◌, String, Bool, true, false, not, ◌&&◌, ◌||◌, ◌≡◌, Option, none, some, List, [], ◌∷◌, ◌++◌,
  map, ◌==◌, length, if◌then◌else◌, sort_by,
}
use wire_agent.Base.Results.{Result, ok, err}
use wire_agent.Base.Dict.{Dict, get, put}
use wire_agent.Storage.{Io}
use wire_agent.Effect.Record.{EffectState}
use wire_agent.Effect.File.{LedgerFile as EffectFile}
use wire_agent.Effect.Projection.{effective}
use wire_agent.Reconciliation.Ledger.{PathState}
use wire_agent.Recovery.Projector.{CompositeRecoveryProjection, ProjectorError, project}

pub record RecoveryEffect : Type 0 where
  pub effect_id : String
  pub raw_state : EffectState
  pub effective_state : EffectState

pub record RecoveryBlock : Type 0 where
  pub semantic_key : String
  pub effects : List RecoveryEffect

pub record RecoveryStatus : Type 0 where
  pub hydrated : Bool
  pub available : Bool
  pub unresolved_semantic_keys : List String
  pub unresolved_effect_count : ℕ
  pub error : Option ProjectorError

pub record RecoveryGuard : Type 0 where
  pub blocks : Dict RecoveryBlock
  pub hydrated : Bool
  pub available : Bool
  pub error : Option ProjectorError

abbrev pub new_guard : RecoveryGuard
new_guard = record { blocks = []; hydrated = false; available = false; error = none }

-- `RecoveryGuardUnavailable`, and the `ValueError` of an empty key.
pub data GuardError : Type 0 where
  unavailable value_error : GuardError

abbrev pub effect_of : CompositeRecoveryProjection → RecoveryEffect
effect_of p = record {
  effect_id = p.effect_id;
  raw_state = p.raw_state;
  effective_state = effective p.raw_state;
}

abbrev pub or_empty : Option (List RecoveryEffect) → List RecoveryEffect
or_empty none = []
or_empty (some es) = es

-- `grouped.setdefault(key, []).append(…)` for each unresolved entry.
unfoldable pub group :
    Dict (List RecoveryEffect) → List CompositeRecoveryProjection → Dict (List RecoveryEffect)
group g [] = g
group g (p ∷ ps) =
    group
      (if p.unresolved
        then put g p.semantic_key (or_empty (get g p.semantic_key) ++ (effect_of p ∷ []))
        else g)
      ps

abbrev pub block_of : String × List RecoveryEffect → String × RecoveryBlock
block_of (k, es) = (k, record { semantic_key = k; effects = sort_by (λ e. e.effect_id) es })

-- The keys of `grouped` are distinct, so the blocks have its order.
unfoldable pub blocks_from_projection : List CompositeRecoveryProjection → Dict RecoveryBlock
unfolding group
blocks_from_projection ps = map block_of (group [] ps)

sum_effects : Dict RecoveryBlock → ℕ
sum_effects [] = 0
sum_effects ((k, b) ∷ d) = length b.effects + sum_effects d

keys : Dict RecoveryBlock → List String
keys [] = []
keys ((k, b) ∷ d) = k ∷ keys d

-- `_status_locked`
unfoldable pub status : RecoveryGuard → RecoveryStatus
unfolding sum_effects keys
status g = record {
  hydrated = g.hydrated;
  available = g.available;
  unresolved_semantic_keys = if g.available then sort_by (λ k. k) (keys g.blocks) else [];
  unresolved_effect_count = if g.available then sum_effects g.blocks else 0;
  error = g.error;
}

-- What the guard reads from, with the answers of the operating system for each ledger.
pub record Ledgers : Type 0 where
  pub effect_io : Io
  pub reconciliation_io : Io
  pub effects : EffectFile
  pub reconciliations : PathState

-- `refresh` and `hydrate`.
unfoldable pub refresh :
    Ledgers → RecoveryGuard → Result GuardError RecoveryStatus × RecoveryGuard × PathState
unfolding status
refresh l g =
    let (read, s) = project l.effect_io l.reconciliation_io l.effects l.reconciliations in
    elim read [
      | err e ↦ (
        err unavailable,
        record { blocks = []; hydrated = true; available = false; error = some e },
        s,
      )
      | ok ps ↦
          let g' : RecoveryGuard = record {
            blocks = blocks_from_projection ps;
            hydrated = true;
            available = true;
            error = none;
          } in
          (ok (status g'), g', s)
    ]

-- `require_clear` after the refresh.
unfoldable pub cached_block : String → RecoveryGuard → Result GuardError (Option RecoveryBlock)
cached_block k g =
    if not g.hydrated || not g.available then err unavailable else ok (get g.blocks k)

unfoldable pub require_clear :
    Ledgers
    → String
    → Bool
    → RecoveryGuard
    → Result GuardError (Option RecoveryBlock) × RecoveryGuard × PathState
unfolding cached_block
require_clear l k refreshing g =
    if k == ""
    then (err value_error, g, l.reconciliations)
    else if refreshing
    then (let (done, g', s) = refresh l g in
        elim done [ err e ↦ (err e, g', s) | ok _ ↦ (cached_block k g', g', s) ])
    else (cached_block k g, g, l.reconciliations)
