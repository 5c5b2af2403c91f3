-- ===== src/Rules/Store.antt =====
-- The changes of the stored rules: `save`, `append_strict` and `replace_if_current` of `RuleStore`.
-- Each runs whole under the mutation fence; a lock that cannot be taken is one more failed write.
use wire_agent.Base.{
  String, Bool, true, false, not, ◌&&◌, Option, none, some, List, [], ◌∷◌, ◌++◌, ◌==◌, eqb,
  if◌then◌else◌,
}
use wire_agent.Risk.{RiskTier}
use wire_agent.Rules.{
  same_decision, Provenance, hand_written, compiled, other_provenance, UserRule, has_text, has_tier,
  Entry, fields, Document, rules, has_id, distinct_ids, load_strict,
}

-- `_write_replaced`: whether the directory, the staging file and the replacement succeeded is given.
pub data RuleStoreError : Type 0 where
  duplicate_ids not_written unreadable_store already_present rewritten_identity : RuleStoreError
  no_longer_present changed_since_review : RuleStoreError

unfoldable pub entries_of : List UserRule → List Entry
entries_of [] = []
entries_of (r ∷ rs) = fields r ∷ entries_of rs

unfoldable pub write_replaced : Bool → List UserRule → Document → Option RuleStoreError × Document
unfolding entries_of
write_replaced written rs d =
    if written then (none, rules (entries_of rs)) else (some not_written, d)

-- `save`
unfoldable pub save : Bool → List UserRule → Document → Option RuleStoreError × Document
unfolding write_replaced distinct_ids
save written rs d =
    if not (distinct_ids rs) then (some duplicate_ids, d) else write_replaced written rs d

-- `append_strict`
unfoldable pub append_strict : Bool → UserRule → Document → Option RuleStoreError × Document
unfolding write_replaced load_strict has_id
append_strict written r d = elim (load_strict d) [
  | none ↦ (some unreadable_store, d)
  | some rs ↦
      if has_id rs r.rule_id
      then (some already_present, d)
      else write_replaced written (rs ++ (r ∷ [])) d
]

-- Equality of two frozen sets.
abbrev all_in : List String → List String → Bool
all_in [] ys = true
all_in (x ∷ xs) ys = has_text ys x && all_in xs ys

abbrev all_tiers_in : List RiskTier → List RiskTier → Bool
all_tiers_in [] ys = true
all_tiers_in (x ∷ xs) ys = has_tier ys x && all_tiers_in xs ys

abbrev same_texts : Option (List String) → Option (List String) → Bool
same_texts none none = true
same_texts none (some ys) = false
same_texts (some xs) none = false
same_texts (some xs) (some ys) = all_in xs ys && all_in ys xs

abbrev same_tiers : Option (List RiskTier) → Option (List RiskTier) → Bool
same_tiers none none = true
same_tiers none (some ys) = false
same_tiers (some xs) none = false
same_tiers (some xs) (some ys) = all_tiers_in xs ys && all_tiers_in ys xs

abbrev same_provenance : Provenance → Provenance → Bool
same_provenance hand_written hand_written = true
same_provenance compiled compiled = true
same_provenance other_provenance other_provenance = true
same_provenance _ _ = false

-- Equality of two rules on every field.
unfoldable pub same_rule : UserRule → UserRule → Bool
same_rule a b =
    same_texts a.selector.action_types b.selector.action_types
    && (same_tiers a.selector.risk_tiers b.selector.risk_tiers
        && (same_texts a.selector.target_types b.selector.target_types
            && (same_texts a.selector.target_ids b.selector.target_ids
                && (same_texts a.selector.actors b.selector.actors
                    && (same_decision a.decision b.decision
                        && (a.rule_id == b.rule_id
                            && (eqb a.created_at b.created_at
                                && (eqb a.expires_at b.expires_at
                                    && (same_provenance a.provenance b.provenance
                                        && a.source_text == b.source_text)))))))))

-- The first stored rule of the id.
unfoldable pub current_rule : String → List UserRule → Option UserRule
current_rule i [] = none
current_rule i (r ∷ rs) = let rest = current_rule i rs in if r.rule_id == i then some r else rest

unfoldable pub replaced : String → UserRule → List UserRule → List UserRule
replaced i n [] = []
replaced i n (r ∷ rs) = let rest = replaced i n rs in (if r.rule_id == i then n else r) ∷ rest

-- `replace_if_current`
unfoldable pub replace_if_current :
    Bool → UserRule → UserRule → Document → Option RuleStoreError × Document
unfolding write_replaced load_strict same_rule current_rule replaced
replace_if_current written expected replacement d =
    if not (replacement.rule_id == expected.rule_id)
    then (some rewritten_identity, d)
    else elim (load_strict d) [
      | none ↦ (some unreadable_store, d)
      | some rs ↦ elim (current_rule expected.rule_id rs) [
        | none ↦ (some no_longer_present, d)
        | some r ↦
            if not (same_rule r expected)
            then (some changed_since_review, d)
            else write_replaced written (replaced expected.rule_id replacement rs) d
      ]
    ]
