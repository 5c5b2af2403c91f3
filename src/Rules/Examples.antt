-- ===== src/Rules/Examples.antt =====
-- The theorems on the standing rules at a store with two rules.
use wire_agent.Base.{true, false, ◌≡◌, refl, ◌⊎◌, ◌++◌, none, some, List, [], ◌∷◌, In}
use wire_agent.Base.Strings.{strip}
use wire_agent.Risk.{RiskTier-discrete, public_reversible_engagement}
use wire_agent.Rules.{
  allow, never, UserRule, hand_written, Query, settle, Document, Entry, RuleMatch, rules, fields,
  has_id, load, load_strict, match_rules, matches, has_text, has_tier, parse, validate_rule,
  validate_selector, validate_rule_id, distinct_ids, best_rule, better_rule,
}
use wire_agent.Rules.Store.{RuleStoreError, append_strict}
use wire_agent.Rules.Match.{Decides, match_rules-Decides, match_rules_allow}
use wire_agent.Rules.Match.Meaning.{Applies, Answers, IsLow, IsStore}
use wire_agent.Rules.Mutation.{append_strict_exact}

abbrev likes : UserRule
likes = record {
  selector = record {
    action_types = some ("like" ∷ []);
    risk_tiers = none;
    target_types = none;
    target_ids = none;
    actors = none;
  };
  decision = allow;
  rule_id = "allow likes";
  created_at = 0;
  expires_at = 100;
  provenance = hand_written;
  source_text = "likes are fine";
}

abbrev no_rival : UserRule
no_rival = record likes {
  selector = record {
    action_types = none;
    risk_tiers = none;
    target_types = none;
    target_ids = some ("rival" ∷ []);
    actors = none;
  };
  decision = never;
  rule_id = "not the rival";
}

abbrev document : Document
document = rules (fields likes ∷ (fields no_rival ∷ []))

abbrev like_of : Query
like_of = record {
  action_type = "like";
  risk_tier = public_reversible_engagement;
  target_type = "post";
  target_id = "friend";
  actor = "me";
}

store : IsStore document (likes ∷ (no_rival ∷ []))
unfolding validate_rule validate_selector validate_rule_id distinct_ids has_id strip
store = record { entries = refl; valid = (refl, (refl, tt)); distinct = refl }

match_rules-Decides_example :
    ((match_rules 5 like_of document ≡ none)
      × ((o : UserRule) → In o (likes ∷ (no_rival ∷ [])) → ¬ Applies 5 like_of o))
    ⊎ ((r : UserRule) × (m : RuleMatch) × Decides 5 like_of (likes ∷ (no_rival ∷ [])) r
        × (match_rules 5 like_of document ≡ some m)
        × Answers public_reversible_engagement r m)
match_rules-Decides_example = match_rules-Decides 5 like_of document (likes ∷ (no_rival ∷ [])) store

liked : match_rules 5 like_of document ≡ some (settle public_reversible_engagement likes)
unfolding match_rules matches has_text has_tier parse load validate_rule validate_selector
    validate_rule_id distinct_ids has_id best_rule better_rule strip RiskTier-discrete
liked = refl

match_rules_allow_example :
    IsLow public_reversible_engagement
    × ((es : List Entry) × (document ≡ rules es)
        × ((o : UserRule) → In (fields o) es → Applies 5 like_of o → o.decision ≡ allow))
match_rules_allow_example =
    match_rules_allow 5 like_of document (settle public_reversible_engagement likes) liked refl

append_strict_exact_example :
    (((append_strict true no_rival (rules (fields likes ∷ []))).0 ≡ none)
      × (load (append_strict true no_rival (rules (fields likes ∷ []))).1
          ≡ (load (rules (fields likes ∷ [])) ++ (no_rival ∷ [])))
      × ((rs : List UserRule) × (load_strict (rules (fields likes ∷ [])) ≡ some rs)
          × (has_id rs "not the rival" ≡ false)))
    ⊎ ((x : RuleStoreError) × ((append_strict true no_rival (rules (fields likes ∷ []))).0 ≡ some x)
        × ((append_strict true no_rival (rules (fields likes ∷ []))).1 ≡ rules (fields likes ∷ [])))
unfolding validate_rule validate_selector validate_rule_id strip
append_strict_exact_example = append_strict_exact true no_rival (rules (fields likes ∷ [])) refl
