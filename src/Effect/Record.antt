-- ===== src/Effect/Record.antt =====
-- `EffectState`, the lineage fields and `EffectLedgerRecord` of
-- src/webwire/safety/effect_ledger.py, with `validate_approver` of execution_models.py.
use Prim.Native.String.{len}
use text.Mathlib.Text.{starts_with}
use wire_agent.Base.{
  subst, eq_refl, opt_eq_refl, String, Bool, true, false, not, ◌&&◌, ◌||◌, ◌≡◌, ◌↔◌, Option, none,
  some, ◌==◌, eq_iff, ltb, arith, opt_eq, opt_eq_iff, decided, decided_iff,
}
use wire_agent.Json.{Value, validate_json_value, value_eq}
use wire_agent.Json.Same.{SameValue, value_eq-SameValue}

pub data EffectState : Type 0 where
  no_effect reserved effect_confirmed effect_unknown : EffectState

unfoldable pub EffectState-discrete : Discrete EffectState
EffectState-discrete = hlevel

-- `record.state in _INITIAL_STATES`
abbrev pub is_initial : EffectState → Bool
is_initial no_effect = false
is_initial reserved = true
is_initial effect_confirmed = true
is_initial effect_unknown = true

-- `state in _ALLOWED_SUCCESSORS[previous]`
abbrev pub is_allowed : EffectState → EffectState → Bool
is_allowed reserved reserved = false
is_allowed reserved _ = true
is_allowed _ _ = false

-- `RESERVED` or `EFFECT_UNKNOWN`: what `recovery_projection` calls unresolved, and
-- `_RECONCILABLE_STATES` of recovery_projector.py.
abbrev pub is_unresolved : EffectState → Bool
is_unresolved reserved = true
is_unresolved effect_unknown = true
is_unresolved no_effect = false
is_unresolved effect_confirmed = false

-- The lineage fields that the two ledgers share; the effect ledger adds `approver`.
pub record Lineage : Type 0 where
  pub semantic_key : String
  pub action_type : String
  pub intent_hash : String
  pub policy_binding : String
  pub actor_id : Option String
  pub target_type : Option String
  pub target_id : Option String

unfoldable pub lineage_eq : Lineage → Lineage → Bool
lineage_eq a b =
    a.semantic_key == b.semantic_key
    && (a.action_type == b.action_type
        && (a.intent_hash == b.intent_hash
            && (a.policy_binding == b.policy_binding
                && (opt_eq a.actor_id b.actor_id
                    && (opt_eq a.target_type b.target_type && opt_eq a.target_id b.target_id)))))

pub lineage_eq_refl : (a : Lineage) → lineage_eq a a ≡ true
unfolding lineage_eq
lineage_eq_refl a = simp (eq_refl, opt_eq_refl)

pub lineage_eq_iff : (a b : Lineage) → (lineage_eq a b ≡ true) ↔ (a ≡ b)
unfolding lineage_eq
lineage_eq_iff a b = (
  (λ h. ground (
    arith,
    eq_iff a.semantic_key b.semantic_key,
    eq_iff a.action_type b.action_type,
    eq_iff a.intent_hash b.intent_hash,
    eq_iff a.policy_binding b.policy_binding,
    opt_eq_iff a.actor_id b.actor_id,
    opt_eq_iff a.target_type b.target_type,
    opt_eq_iff a.target_id b.target_id,
  )),
  (λ e. subst (λ x. lineage_eq a x ≡ true) e (lineage_eq_refl a)),
)

pub record EffectLedgerRecord : Type 0 where
  pub effect_id : String
  pub state : EffectState
  pub lineage : Lineage
  -- `None` on the rows of older versions
  pub approver : Option String
  pub timestamp : String
  pub details : Value

-- Every name of `_LINEAGE_FIELDS` is equal.
unfoldable pub same_lineage : EffectLedgerRecord → EffectLedgerRecord → Bool
same_lineage a b = lineage_eq a.lineage b.lineage && opt_eq a.approver b.approver

pub same_lineage_iff :
    (a b : EffectLedgerRecord)
    → (same_lineage a b ≡ true) ↔ ((a.lineage ≡ b.lineage) × (a.approver ≡ b.approver))
unfolding same_lineage
same_lineage_iff a b =
    ground (arith, lineage_eq_iff a.lineage b.lineage, opt_eq_iff a.approver b.approver)

-- `_same_fact`: all but the timestamp is equal.
unfoldable pub same_fact : EffectLedgerRecord → EffectLedgerRecord → Bool
unfolding same_lineage
same_fact a b =
    a.effect_id == b.effect_id
    && (decided (EffectState-discrete a.state b.state)
        && (same_lineage a b && value_eq a.details b.details))

-- The two records state one fact, perhaps at two times.
pub record SameFact (a b : EffectLedgerRecord) : Type 0 where
  pub effect_id : a.effect_id ≡ b.effect_id
  pub state : a.state ≡ b.state
  pub lineage : a.lineage ≡ b.lineage
  pub approver : a.approver ≡ b.approver
  -- equal in Python: the order of the entries of a dictionary does not matter
  pub details : SameValue a.details b.details

pub same_fact-SameFact : (a b : EffectLedgerRecord) → same_fact a b ≡ true → SameFact a b
unfolding same_fact
same_fact-SameFact a b h = record {
  effect_id = ground (arith, h, eq_iff a.effect_id b.effect_id);
  state = ground (arith, h, decided_iff (EffectState-discrete a.state b.state));
  lineage = ground (arith, h, lineage_eq_iff a.lineage b.lineage);
  approver = ground (arith, h, opt_eq_iff a.approver b.approver);
  details = value_eq-SameValue a.details b.details (ground (arith, h));
}

is_text : String → Bool
is_text s = not (s == "")

is_opt_text : Option String → Bool
unfolding is_text
is_opt_text none = true
is_opt_text (some s) = is_text s

-- `validate_approver`, on `"human"` or `"rule:<rule-id>"` with a rule id that is not empty.
unfoldable pub validate_approver : String → Bool
validate_approver s = s == "human" || (starts_with s "rule:" && ltb 5 (len s))

-- `EffectLedgerRecord.validate` without its tests on Python types: `false` is `ValueError`.
unfoldable pub validate : EffectLedgerRecord → Bool
unfolding is_text is_opt_text validate_approver
validate r =
    is_text r.effect_id
    && (is_text r.lineage.semantic_key
        && (is_text r.lineage.action_type
            && (is_text r.lineage.intent_hash
                && (is_text r.lineage.policy_binding
                    && (is_text r.timestamp
                        && (is_opt_text r.lineage.actor_id
                            && (is_opt_text r.lineage.target_type
                                && (is_opt_text r.lineage.target_id
                                    && (validate_json_value r.details && elim r.approver [
                                      | none ↦ true
                                      | some s ↦ validate_approver s
                                    ])))))))))
