-- ===== src/Rules/Match.antt =====
-- Which decision the rules give.
pub mod Meaning
use wire_agent.Base.{
  ℕ, ◌≤◌, Bool, true, false, ◌≡◌, refl, sym, subst, ltb→lt, ◌⊎◌, inl, inr, Option, none, some, List,
  [], ◌∷◌, In, arith, ltb, Bool-cases, Option-cases, All,
}
use wire_agent.Risk.{RiskTier}
use wire_agent.Rules.Match.Meaning.{
  Applies, applies_iff, IsNoStronger, IsNoStronger-of, Answers, settle-Answers, IsLow,
  under_ceiling_iff, IsStore, load_store, loaded, All-In,
}
use wire_agent.Rules.{
  Entry, rules, fields, RuleDecision, allow, ask, never, precedence, UserRule, Query, applies,
  better_rule, best_rule, settle, RuleMatch, Document, load, match_rules, under_ceiling,
}

-- The rule is no weaker than the best one so far.
abbrev Bounds : Option UserRule → UserRule → Type 0
Bounds none r = Unit
Bounds (some b) r = precedence b.decision ≤ precedence r.decision

picked_new :
    (b o : UserRule)
    → ltb (precedence b.decision) (precedence o.decision) ≡ true
    → better_rule true (some b) o ≡ some o
unfolding better_rule
picked_new b o x = ground (arith, x)

picked_old :
    (b o : UserRule)
    → ltb (precedence b.decision) (precedence o.decision) ≡ false
    → better_rule true (some b) o ≡ some b
unfolding better_rule
picked_old b o x = ground (arith, x)

better-Bounds :
    (t : Bool) (best : Option UserRule) (o r : UserRule)
    → Bounds (better_rule t best o) r
    → Bounds best r × (t ≡ true → precedence o.decision ≤ precedence r.decision)
unfolding better_rule
better-Bounds false best o r h = (h, λ e. absurd (cc))
better-Bounds true none o r h = (tt, λ e. h)
better-Bounds true (some b) o r h =
    elim (Bool-cases (ltb (precedence b.decision) (precedence o.decision))) [
      | inl x ↦
          let k : Bounds (some o) r = subst (λ z. Bounds z r) (picked_new b o x) h in
          (omega (arith, ltb→lt (precedence b.decision) (precedence o.decision) x), λ e. k)
      | inr x ↦
          let k : Bounds (some b) r = subst (λ z. Bounds z r) (picked_old b o x) h in
          (k, λ e. ground (arith, k, x))
    ]

better-From :
    (t : Bool) (best : Option UserRule) (o r : UserRule)
    → better_rule t best o ≡ some r
    → (best ≡ some r) ⊎ ((o ≡ r) × (t ≡ true))
unfolding better_rule
better-From false best o r h = inl h
better-From true none o r h = inr (cc, refl)
better-From true (some b) o r h =
    elim (Bool-cases (ltb (precedence b.decision) (precedence o.decision))) [
      | inl x ↦ inr (ground (arith, x, h), refl)
      | inr x ↦ inl (ground (arith, x, h))
    ]

better_none :
    (t : Bool) (best : Option UserRule) (o : UserRule)
    → better_rule t best o ≡ none
    → (best ≡ none) × (t ≡ false)
unfolding better_rule
better_none false best o h = (h, refl)
better_none true none o h = absurd (cc)
better_none true (some b) o h = absurd (ground (arith, h))

settle_allow :
    (t : RiskTier) (r : UserRule)
    → (settle t r).decision ≡ allow
    → (r.decision ≡ allow) × (under_ceiling t ≡ true)
settle_allow t r h = ground (arith, h)

weakest : (d : RuleDecision) → precedence d ≤ 0 → d ≡ allow
weakest allow h = refl
weakest ask h = absurd (omega arith)
weakest never h = absurd (omega arith)

module _ (now : ℕ) (q : Query) where
  best_rule-Bounds :
      (best : Option UserRule) (rs : List UserRule) (r : UserRule)
      → best_rule now q best rs ≡ some r
      → Bounds best r
        × All (λ o. applies now q o ≡ true → precedence o.decision ≤ precedence r.decision) rs
  unfolding best_rule
  best_rule-Bounds none [] r h = (tt, tt)
  best_rule-Bounds (some b) [] r h = (let e : b ≡ r = cc in ground (arith, e), tt)
  best_rule-Bounds best (o ∷ rs) r h =
      let (b, a) = best_rule-Bounds (better_rule (applies now q o) best o) rs r h in
      let (c, d) = better-Bounds (applies now q o) best o r b in (c, (d, a))

  best_rule-From :
      (best : Option UserRule) (rs : List UserRule) (r : UserRule)
      → best_rule now q best rs ≡ some r
      → (best ≡ some r) ⊎ (In r rs × (applies now q r ≡ true))
  unfolding best_rule
  best_rule-From best [] r h = inl h
  best_rule-From best (o ∷ rs) r h =
      elim (best_rule-From (better_rule (applies now q o) best o) rs r h) [
        | inr (i, a) ↦ inr (inr i, a)
        | inl x ↦ elim (better-From (applies now q o) best o r x) [
          | inl y ↦ inl y
          | inr (y, a) ↦ inr (inl (sym y), subst (λ z. applies now q z ≡ true) y a)
        ]
      ]

  best_rule-none :
      (best : Option UserRule) (rs : List UserRule)
      → best_rule now q best rs ≡ none
      → (best ≡ none) × All (λ o. applies now q o ≡ false) rs
  unfolding best_rule
  best_rule-none best [] h = (h, tt)
  best_rule-none best (o ∷ rs) h =
      let (b, a) = best_rule-none (better_rule (applies now q o) best o) rs h in
      let (c, d) = better_none (applies now q o) best o b in (c, (d, a))

  -- The strongest of the rules that apply.
  record Strongest (d : Document) (r : UserRule) : Type 0 where
    stored : In r (load d)
    live : applies now q r ≡ true
    strongest :
        All (λ o. applies now q o ≡ true → precedence o.decision ≤ precedence r.decision) (load d)

  match_rules-Strongest :
      (d : Document)
      → ((match_rules now q d ≡ none) × All (λ o. applies now q o ≡ false) (load d))
        ⊎ ((r : UserRule) × Strongest d r × (match_rules now q d ≡ some (settle q.risk_tier r)))
  unfolding match_rules
  match_rules-Strongest d = elim (Option-cases (best_rule now q none (load d))) [
    | inl e ↦ inl (ground (arith, e), (best_rule-none none (load d) e).1)
    | inr (r, e) ↦ elim (best_rule-From none (load d) r e) [
      | inl x ↦ absurd (cc)
      | inr (i, a) ↦ inr (
        r,
        record { stored = i; live = a; strongest = (best_rule-Bounds none (load d) r e).1 },
        ground (arith, e),
      )
    ]
  ]

  -- The strongest of the rules of a store that are live and match.
  pub record Decides (rs : List UserRule) (r : UserRule) : Type 0 where
    pub stored : In r rs
    pub live : Applies now q r
    pub strongest : (o : UserRule) → In o rs → Applies now q o → IsNoStronger o.decision r.decision

  Strongest-Decides :
      (d : Document) (rs : List UserRule) (r : UserRule)
      → load d ≡ rs
      → Strongest d r
      → Decides rs r
  Strongest-Decides d rs r e s = record {
    stored = subst (In r) e s.stored;
    live = (applies_iff now q r).0 s.live;
    strongest = λ o m a.
        IsNoStronger-of o.decision r.decision
          (All-In _ (load d) o s.strongest (subst (In o) (sym e) m) ((applies_iff now q o).1 a));
  }

  -- For a document that holds valid rules, no id twice: match answers nothing, and then no rule
  -- applies, that is, is unexpired and has in its selector the action type, tier, target type,
  -- target id and actor of the query wherever it lists any; or it answers with the id of a rule
  -- that applies, such that no rule that applies is stronger, where NEVER is stronger than ASK
  -- and ASK than ALLOW; and the answer is its decision, or a lowered ASK exactly when it is an
  -- ALLOW for a tier other than private_reversible and public_reversible_engagement.
  pub match_rules-Decides :
      (d : Document) (rs : List UserRule)
      → IsStore d rs
      → ((match_rules now q d ≡ none) × ((o : UserRule) → In o rs → ¬ Applies now q o))
        ⊎ ((r : UserRule) × (m : RuleMatch) × Decides rs r
            × (match_rules now q d ≡ some m)
            × Answers q.risk_tier r m)
  match_rules-Decides d rs h = elim (match_rules-Strongest d) [
    | inl (e, n) ↦ inl (
      e,
      λ o i a.
          let x = All-In _ (load d) o n (subst (In o) (sym (load_store d rs h)) i) in
          let y = (applies_iff now q o).1 a in absurd (cc),
    )
    | inr (r, s, e) ↦ inr (
      r,
      settle q.risk_tier r,
      Strongest-Decides d rs r (load_store d rs h) s,
      e,
      settle-Answers q.risk_tier r,
    )
  ]

  -- match answers ALLOW only where the tier is private_reversible or
  -- public_reversible_engagement, the document is a list of entries, and every rule among them
  -- that has not expired and whose selector has the action type, tier, target type, target id and
  -- actor of the query wherever it lists any is an ALLOW.
  pub match_rules_allow :
      (d : Document) (m : RuleMatch)
      → match_rules now q d ≡ some m
      → m.decision ≡ allow
      → IsLow q.risk_tier
        × ((es : List Entry) × (d ≡ rules es)
            × ((o : UserRule) → In (fields o) es → Applies now q o → o.decision ≡ allow))
  match_rules_allow d m h k = elim (match_rules-Strongest d) [
    | inl (e, _) ↦ absurd (cc)
    | inr (r, s, e) ↦
        let x : some m ≡ some (settle q.risk_tier r) = cc in
        let y : m ≡ settle q.risk_tier r = cc in
        let (a, u) = settle_allow q.risk_tier r (cc) in
        let (es, b, c) = loaded d r s.stored in
        (
          (under_ceiling_iff q.risk_tier).0 u,
          (
            es,
            b,
            λ o i l.
                let bound = All-In _ (load d) o s.strongest (c o i) ((applies_iff now q o).1 l) in
                weakest o.decision (ground (arith, bound, a)),
          ),
        )
  ]
