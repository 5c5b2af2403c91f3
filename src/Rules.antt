-- ===== src/Rules.antt =====
-- src/webwire/safety/user_rules.py: the standing decisions of the owner. A frozen set is a list of
-- its elements. The stored document is what reading and parsing it yields: the JSON text and the
-- type tests on its parts are not modelled, an entry is malformed or the fields of a rule.
pub mod Match
pub mod Store
pub mod Mutation
mod Examples
use wire_agent.Base.{
  ℕ, ◌+◌, String, Bool, true, false, not, ◌&&◌, ◌||◌, ◌≡◌, Option, none, some, List, [], ◌∷◌, ◌++◌,
  ◌==◌, eqb, ltb, leb, if◌then◌else◌, decided,
}
use wire_agent.Base.Results.{Result, ok, err, ◌>>=◌, ◌>>◌}
use wire_agent.Base.Strings.{strip}
use wire_agent.Risk.{
  RiskTier, RiskTier-discrete, private_reversible, public_reversible_engagement,
  public_amplifying_reversible, public_content_irreversible,
}

pub data RuleDecision : Type 0 where
  allow ask never : RuleDecision

-- `_PRECEDENCE`
abbrev pub precedence : RuleDecision → ℕ
precedence never = 2
precedence ask = 1
precedence allow = 0

abbrev pub same_decision : RuleDecision → RuleDecision → Bool
same_decision a b = eqb (precedence a) (precedence b)

pub record RuleSelector : Type 0 where
  pub action_types : Option (List String)
  pub risk_tiers : Option (List RiskTier)
  pub target_types : Option (List String)
  pub target_ids : Option (List String)
  pub actors : Option (List String)

pub data Provenance : Type 0 where
  hand_written compiled other_provenance : Provenance

pub record UserRule : Type 0 where
  pub selector : RuleSelector
  pub decision : RuleDecision
  pub rule_id : String
  pub created_at : ℕ
  pub expires_at : ℕ
  pub provenance : Provenance
  pub source_text : String

-- `v in values`
unfoldable pub has_text : List String → String → Bool
has_text [] v = false
has_text (x ∷ xs) v = let rest = has_text xs v in x == v || rest

unfoldable pub has_tier : List RiskTier → RiskTier → Bool
unfolding RiskTier-discrete
has_tier [] v = false
has_tier (x ∷ xs) v = let rest = has_tier xs v in decided (RiskTier-discrete x v) || rest

abbrev is_set : {A : Type 0} → Option (List A) → Bool
is_set none = false
is_set (some []) = false
is_set (some (x ∷ xs)) = true

abbrev is_unset_or_full : {A : Type 0} → Option (List A) → Bool
is_unset_or_full none = true
is_unset_or_full (some []) = false
is_unset_or_full (some (x ∷ xs)) = true

abbrev full_texts : List String → Bool
full_texts [] = true
full_texts (x ∷ xs) = not (x == "") && full_texts xs

abbrev valid_texts : Option (List String) → Bool
valid_texts none = true
valid_texts (some []) = false
valid_texts (some (x ∷ xs)) = full_texts (x ∷ xs)

-- `RuleSelector.validate`
unfoldable pub validate_selector : RuleSelector → Bool
validate_selector s =
    (is_set s.action_types
      || (is_set s.risk_tiers
          || (is_set s.target_types || (is_set s.target_ids || is_set s.actors))))
    && (valid_texts s.action_types
        && (valid_texts s.target_types
            && (valid_texts s.target_ids
                && (valid_texts s.actors && is_unset_or_full s.risk_tiers))))

abbrev is_known : Provenance → Bool
is_known hand_written = true
is_known compiled = true
is_known other_provenance = false

-- `validate_rule_id`, and `UserRule.__post_init__`: `false` is a `ValueError`.
unfoldable pub validate_rule_id : String → Bool
validate_rule_id i = not (strip i == "")

unfoldable pub validate_rule : UserRule → Bool
unfolding validate_selector validate_rule_id
validate_rule r =
    validate_selector r.selector
    && (validate_rule_id r.rule_id && (is_known r.provenance && ltb r.created_at r.expires_at))

-- What is matched: the action that is asked for.
pub record Query : Type 0 where
  pub action_type : String
  pub risk_tier : RiskTier
  pub target_type : String
  pub target_id : String
  pub actor : String

abbrev admits_text : Option (List String) → String → Bool
admits_text none v = true
admits_text (some xs) v = has_text xs v

abbrev admits_tier : Option (List RiskTier) → RiskTier → Bool
admits_tier none v = true
admits_tier (some xs) v = has_tier xs v

-- `RuleSelector.matches`
unfoldable pub matches : RuleSelector → Query → Bool
unfolding has_text has_tier
matches s q =
    if not (admits_text s.action_types q.action_type)
    then false
    else if not (admits_tier s.risk_tiers q.risk_tier)
    then false
    else if not (admits_text s.target_types q.target_type)
    then false
    else if not (admits_text s.target_ids q.target_id)
    then false
    else if not (admits_text s.actors q.actor)
    then false
    else true

-- `is_expired`
abbrev pub is_expired : ℕ → UserRule → Bool
is_expired now r = leb r.expires_at now

-- An entry of the document, and what reading the document yields.
pub data Entry : Type 0 where
  malformed : Entry
  fields : UserRule → Entry

pub data Document : Type 0 where
  missing unreadable wrong_schema : Document
  rules : List Entry → Document

-- `_rule_from_dict` on every entry; `none` where one of them raises.
unfoldable pub parse : List Entry → Option (List UserRule)
unfolding validate_rule
parse [] = some []
parse (malformed ∷ es) = none
parse (fields r ∷ es) =
    let rest = parse es in
    if validate_rule r then elim rest [ none ↦ none | some rs ↦ some (r ∷ rs) ] else none

unfoldable pub has_id : List UserRule → String → Bool
has_id [] i = false
has_id (r ∷ rs) i = let rest = has_id rs i in r.rule_id == i || rest

-- No rule id occurs twice.
unfoldable pub distinct_ids : List UserRule → Bool
unfolding has_id
distinct_ids [] = true
distinct_ids (r ∷ rs) = let rest = distinct_ids rs in not (has_id rs r.rule_id) && rest

-- `_load_strict`: `none` is a `RuleStoreError`.
unfoldable pub load_strict : Document → Option (List UserRule)
unfolding parse distinct_ids
load_strict missing = some []
load_strict unreadable = none
load_strict wrong_schema = none
load_strict (rules es) = elim (parse es) [
  | none ↦ none
  | some rs ↦ if distinct_ids rs then some rs else none
]

-- `load`
unfoldable pub load : Document → List UserRule
unfolding parse distinct_ids
load missing = []
load unreadable = []
load wrong_schema = []
load (rules es) = elim (parse es) [ none ↦ [] | some rs ↦ if distinct_ids rs then rs else [] ]

-- The rule is live and matches.
abbrev pub applies : ℕ → Query → UserRule → Bool
applies now q r = not (is_expired now r) && matches r.selector q

-- The better of the best rule so far and the next one, which applies or does not.
unfoldable pub better_rule : Bool → Option UserRule → UserRule → Option UserRule
better_rule false best r = best
better_rule true none r = some r
better_rule true (some b) r =
    if ltb (precedence b.decision) (precedence r.decision) then some r else some b

-- The loop of `match`, from the best rule so far.
unfoldable pub best_rule : ℕ → Query → Option UserRule → List UserRule → Option UserRule
unfolding matches better_rule
best_rule now q best [] = best
best_rule now q best (r ∷ rs) = best_rule now q (better_rule (applies now q r) best r) rs

pub record RuleMatch : Type 0 where
  pub decision : RuleDecision
  pub rule_id : String
  pub ceiling_downgraded : Bool

-- `ALLOW_CEILING_TIERS`
abbrev pub under_ceiling : RiskTier → Bool
under_ceiling private_reversible = true
under_ceiling public_reversible_engagement = true
under_ceiling public_amplifying_reversible = false
under_ceiling public_content_irreversible = false

-- The end of `match`, on the best rule.
abbrev pub settle : RiskTier → UserRule → RuleMatch
settle tier r =
    let lowered = same_decision r.decision allow && not (under_ceiling tier) in
    record {
      decision = if lowered then ask else r.decision;
      rule_id = r.rule_id;
      ceiling_downgraded = lowered;
    }

-- `match`
unfoldable pub match_rules : ℕ → Query → Document → Option RuleMatch
unfolding load best_rule
match_rules now q d = elim (best_rule now q none (load d)) [
  | none ↦ none
  | some r ↦ some (settle q.risk_tier r)
]
