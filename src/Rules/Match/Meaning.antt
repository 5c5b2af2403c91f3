-- ===== src/Rules/Match/Meaning.antt =====
-- What matching, the order of the decisions, the ceiling and the stored document mean.
use wire_agent.Base.{
  ℕ, ◌<◌, ◌≤◌, String, Bool, true, false, ◌≡◌, ◌≢◌, refl, sym, ap, subst, ◌∙◌, ◌↔◌, ◌⊎◌, inl, inr,
  Option, none, some, List, [], ◌∷◌, map, In, All, eq_iff, arith, Bool-cases, Option-cases,
  decided_iff,
}
use wire_agent.Risk.{
  RiskTier, RiskTier-discrete, private_reversible, public_reversible_engagement,
  public_amplifying_reversible, public_content_irreversible,
}
use wire_agent.Rules.{
  RuleDecision, allow, ask, never, precedence, RuleSelector, UserRule, Query, has_text, has_tier,
  matches, applies, settle, RuleMatch, Document, Entry, malformed, fields, missing, unreadable,
  wrong_schema, rules, parse, load, validate_rule, distinct_ids, under_ceiling,
}

-- A set of the selector that is given has the value.
abbrev pub Admits : {A : Type 0} → Option (List A) → A → Type 0
Admits none v = Unit
Admits (some xs) v = In v xs

-- Every set of the selector that is given has what the query asks for.
pub record Selects (s : RuleSelector) (q : Query) : Type 0 where
  pub action_type : Admits s.action_types q.action_type
  pub risk_tier : Admits s.risk_tiers q.risk_tier
  pub target_type : Admits s.target_types q.target_type
  pub target_id : Admits s.target_ids q.target_id
  pub actor : Admits s.actors q.actor

-- The rule has not expired, and it matches.
pub record Applies (now : ℕ) (q : Query) (r : UserRule) : Type 0 where
  pub live : now < r.expires_at
  pub selects : Selects r.selector q

has_text_iff : (xs : List String) (v : String) → (has_text xs v ≡ true) ↔ In v xs
unfolding has_text
has_text_iff [] v = ground arith
has_text_iff (x ∷ xs) v = ground (arith, has_text_iff xs v, eq_iff x v)

has_tier_iff : (xs : List RiskTier) (v : RiskTier) → (has_tier xs v ≡ true) ↔ In v xs
unfolding has_tier
has_tier_iff [] v = ground arith
has_tier_iff (x ∷ xs) v = ground (arith, has_tier_iff xs v, decided_iff (RiskTier-discrete x v))

-- The same as a test.
abbrev passes_text : Option (List String) → String → Bool
passes_text none v = true
passes_text (some xs) v = has_text xs v

abbrev passes_tier : Option (List RiskTier) → RiskTier → Bool
passes_tier none v = true
passes_tier (some xs) v = has_tier xs v

passes_text_iff : (o : Option (List String)) (v : String) → (passes_text o v ≡ true) ↔ Admits o v
passes_text_iff none v = (λ _. tt, λ _. refl)
passes_text_iff (some xs) v = has_text_iff xs v

passes_tier_iff :
    (o : Option (List RiskTier)) (v : RiskTier) → (passes_tier o v ≡ true) ↔ Admits o v
passes_tier_iff none v = (λ _. tt, λ _. refl)
passes_tier_iff (some xs) v = has_tier_iff xs v

record Passes (s : RuleSelector) (q : Query) : Type 0 where
  action_type : passes_text s.action_types q.action_type ≡ true
  risk_tier : passes_tier s.risk_tiers q.risk_tier ≡ true
  target_type : passes_text s.target_types q.target_type ≡ true
  target_id : passes_text s.target_ids q.target_id ≡ true
  actor : passes_text s.actors q.actor ≡ true

matches-Passes : (s : RuleSelector) (q : Query) → (matches s q ≡ true) ↔ Passes s q
unfolding matches
matches-Passes s q = ground arith

matches_iff : (s : RuleSelector) (q : Query) → (matches s q ≡ true) ↔ Selects s q
matches_iff s q = (
  λ h.
      let p = (matches-Passes s q).0 h in
      record {
        action_type = (passes_text_iff s.action_types q.action_type).0 p.action_type;
        risk_tier = (passes_tier_iff s.risk_tiers q.risk_tier).0 p.risk_tier;
        target_type = (passes_text_iff s.target_types q.target_type).0 p.target_type;
        target_id = (passes_text_iff s.target_ids q.target_id).0 p.target_id;
        actor = (passes_text_iff s.actors q.actor).0 p.actor;
      },
  λ p. (matches-Passes s q).1 (record {
    action_type = (passes_text_iff s.action_types q.action_type).1 p.action_type;
    risk_tier = (passes_tier_iff s.risk_tiers q.risk_tier).1 p.risk_tier;
    target_type = (passes_text_iff s.target_types q.target_type).1 p.target_type;
    target_id = (passes_text_iff s.target_ids q.target_id).1 p.target_id;
    actor = (passes_text_iff s.actors q.actor).1 p.actor;
  }),
)

pub applies_iff : (now : ℕ) (q : Query) (r : UserRule) → (applies now q r ≡ true) ↔ Applies now q r
applies_iff now q r = (
  λ h. record {
    live = ground (arith, h);
    selects = (matches_iff r.selector q).0 (ground (arith, h));
  },
  λ a. let m = (matches_iff r.selector q).1 a.selects in let l = a.live in ground (arith, m, l),
)

-- NEVER is the strongest decision, then comes ASK.
abbrev pub IsNoStronger : RuleDecision → RuleDecision → Type 0
IsNoStronger a b = (b ≡ never) ⊎ (((a ≡ ask) × (b ≡ ask)) ⊎ (a ≡ allow))

pub IsNoStronger-of : (a b : RuleDecision) → precedence a ≤ precedence b → IsNoStronger a b
IsNoStronger-of allow b h = inr (inr refl)
IsNoStronger-of ask allow h = absurd (omega arith)
IsNoStronger-of ask ask h = inr (inl (refl, refl))
IsNoStronger-of ask never h = inl refl
IsNoStronger-of never allow h = absurd (omega arith)
IsNoStronger-of never ask h = absurd (omega arith)
IsNoStronger-of never never h = inl refl

rank_cases : (d : RuleDecision) → (d ≡ allow) ⊎ ((d ≡ ask) ⊎ (d ≡ never))
rank_cases allow = inl refl
rank_cases ask = inr (inl refl)
rank_cases never = inr (inr refl)

-- A tier for which a rule may allow.
abbrev pub IsLow : RiskTier → Type 0
IsLow t = (t ≡ private_reversible) ⊎ (t ≡ public_reversible_engagement)

pub under_ceiling_iff : (t : RiskTier) → (under_ceiling t ≡ true) ↔ IsLow t
under_ceiling_iff private_reversible = (λ _. inl refl, λ _. refl)
under_ceiling_iff public_reversible_engagement = (λ _. inr refl, λ _. refl)
under_ceiling_iff public_amplifying_reversible =
    (λ e. absurd (cc), λ e. elim e [ inl x ↦ absurd (cc) | inr x ↦ absurd (cc) ])
under_ceiling_iff public_content_irreversible =
    (λ e. absurd (cc), λ e. elim e [ inl x ↦ absurd (cc) | inr x ↦ absurd (cc) ])

-- What a rule that decides answers: its decision, but a lowered ASK for an ALLOW above the ceiling.
pub record Answers (t : RiskTier) (r : UserRule) (m : RuleMatch) : Type 0 where
  pub rule_id : m.rule_id ≡ r.rule_id
  pub lowered : r.decision ≡ allow → ¬ IsLow t → (m.decision ≡ ask) × (m.ceiling_downgraded ≡ true)
  pub kept :
      (r.decision ≢ allow) ⊎ IsLow t → (m.decision ≡ r.decision) × (m.ceiling_downgraded ≡ false)

kept_rank :
    (t : RiskTier) (r : UserRule)
    → r.decision ≢ allow
    → ((settle t r).decision ≡ r.decision) × ((settle t r).ceiling_downgraded ≡ false)
kept_rank t r n = elim (rank_cases r.decision) [ inl e ↦ absurd (n e) | inr e ↦ ground (arith, e) ]

pub settle-Answers : (t : RiskTier) (r : UserRule) → Answers t r (settle t r)
settle-Answers t r = record {
  rule_id = refl;
  lowered = λ a n. ground (arith, a, n, under_ceiling_iff t);
  kept = λ k. elim k [
    | inl n ↦ kept_rank t r n
    | inr l ↦ let u = (under_ceiling_iff t).1 l in ground (arith, u)
  ];
}

-- The document holds exactly these rules, each of them valid and no id twice.
pub record IsStore (d : Document) (rs : List UserRule) : Type 0 where
  pub entries : d ≡ rules (map fields rs)
  pub valid : All (λ r. validate_rule r ≡ true) rs
  pub distinct : distinct_ids rs ≡ true

parse-fields :
    (rs : List UserRule) → All (λ r. validate_rule r ≡ true) rs → parse (map fields rs) ≡ some rs
unfolding parse
parse-fields [] v = refl
parse-fields (r ∷ rs) v = let x = v.0 in ground (arith, x, parse-fields rs v.1)

pub load_store : (d : Document) (rs : List UserRule) → IsStore d rs → load d ≡ rs
unfolding load
load_store d rs s =
    let v = s.valid in
    let u = s.distinct in ap load s.entries ∙ ground (arith, parse-fields rs v, u)

parse-In :
    (es : List Entry) (rs : List UserRule) (o : UserRule)
    → parse es ≡ some rs
    → In (fields o) es
    → In o rs
unfolding parse
parse-In [] rs o h m = elim m [ ]
parse-In (malformed ∷ es) rs o h m = absurd (cc)
parse-In (fields r ∷ es) rs o h m = elim (Option-cases (parse es)) [
  | inl e ↦ absurd (ground (arith, h, e))
  | inr (ts, e) ↦
      let x : rs ≡ r ∷ ts = ground (arith, h, e) in
      subst (In o) (sym x)
        (elim m [ inl i ↦ inl (let j : o ≡ r = cc in j) | inr i ↦ inr (parse-In es ts o e i) ])
]

load_cases :
    (es : List Entry)
    → (load (rules es) ≡ [])
      ⊎ ((rs : List UserRule) × (parse es ≡ some rs) × (load (rules es) ≡ rs))
unfolding load
load_cases es = elim (Option-cases (parse es)) [
  | inl e ↦ inl (ground (arith, e))
  | inr (rs, e) ↦ elim (Bool-cases (distinct_ids rs)) [
    | inl b ↦ inr (rs, e, ground (arith, e, b))
    | inr b ↦ inl (ground (arith, e, b))
  ]
]

-- What is loaded comes from a document of rules, all of which are loaded.
pub loaded :
    (d : Document) (r : UserRule)
    → In r (load d)
    → (es : List Entry) × (d ≡ rules es) × ((o : UserRule) → In (fields o) es → In o (load d))
unfolding load
loaded missing r m = elim m [ ]
loaded unreadable r m = elim m [ ]
loaded wrong_schema r m = elim m [ ]
loaded (rules es) r m = elim (load_cases es) [
  | inl e ↦ absurd (let t : In r [] = subst (In r) e m in elim t [ ])
  | inr (rs, e, l) ↦ (es, refl, λ o i. subst (In o) (sym l) (parse-In es rs o e i))
]

pub All-In : {A : Type 0} (P : A → Type 0) (xs : List A) (x : A) → All P xs → In x xs → P x
All-In P [] x a m = elim m [ ]
All-In P (y ∷ xs) x a (inl e) = subst P (sym e) a.0
All-In P (y ∷ xs) x a (inr m) = All-In P xs x a.1 m
