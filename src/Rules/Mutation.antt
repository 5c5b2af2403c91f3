-- ===== src/Rules/Mutation.antt =====
-- What a change of the stored rules leaves.
use wire_agent.Base.{
  String, Bool, true, false, ◌||◌, ◌≡◌, refl, subst, ◌⊎◌, inl, inr, none, some, List, [], ◌∷◌, ◌++◌,
  ◌==◌, arith, Bool-cases, Option-cases, All, eq_iff,
}
use wire_agent.Rules.{
  UserRule, Entry, malformed, fields, Document, missing, unreadable, wrong_schema, rules,
  validate_rule, parse, has_id, distinct_ids, load_strict, load,
}
use wire_agent.Rules.Store.{
  entries_of, write_replaced, RuleStoreError, append_strict, unreadable_store, already_present,
  not_written,
}

abbrev IsValid : UserRule → Type 0
IsValid r = validate_rule r ≡ true

parse-IsValid : (es : List Entry) (rs : List UserRule) → parse es ≡ some rs → All IsValid rs
unfolding parse
parse-IsValid [] rs h = let e : [] ≡ rs = cc in subst (All IsValid) e tt
parse-IsValid (malformed ∷ es) rs h = absurd (cc)
parse-IsValid (fields r ∷ es) rs h = elim (Bool-cases (validate_rule r)) [
  | inr v ↦ absurd (ground (arith, v, h))
  | inl v ↦ elim (Option-cases (parse es)) [
    | inl e ↦ absurd (ground (arith, v, e, h))
    | inr (qs, e) ↦
        let x : (r ∷ qs) ≡ rs = ground (arith, v, e, h) in
        subst (All IsValid) x (v, parse-IsValid es qs e)
  ]
]

parse-entries_of : (rs : List UserRule) → All IsValid rs → parse (entries_of rs) ≡ some rs
unfolding parse entries_of
parse-entries_of [] h = refl
parse-entries_of (r ∷ rs) h = ground (arith, h.0, parse-entries_of rs h.1)

All-append :
    (P : UserRule → Type 0) (rs : List UserRule) (r : UserRule)
    → All P rs
    → P r
    → All P (rs ++ (r ∷ []))
All-append P [] r h p = (p, tt)
All-append P (o ∷ rs) r h p = (h.0, All-append P rs r h.1 p)

has_id-append :
    (rs : List UserRule) (r : UserRule) (i : String)
    → has_id (rs ++ (r ∷ [])) i ≡ (has_id rs i || r.rule_id == i)
unfolding has_id
has_id-append [] r i = ground arith
has_id-append (o ∷ rs) r i = ground (arith, has_id-append rs r i)

distinct_ids-append :
    (rs : List UserRule) (r : UserRule)
    → distinct_ids rs ≡ true
    → has_id rs r.rule_id ≡ false
    → distinct_ids (rs ++ (r ∷ [])) ≡ true
unfolding distinct_ids has_id
distinct_ids-append [] r d h = ground arith
distinct_ids-append (o ∷ rs) r d h = ground (
  arith,
  distinct_ids-append rs r (ground (arith, d)) (ground (arith, h)),
  has_id-append rs r o.rule_id,
  d,
  h,
  eq_iff o.rule_id r.rule_id,
  eq_iff r.rule_id o.rule_id,
)

-- What a strict read says of the document.
load_strict-load :
    (d : Document) (rs : List UserRule)
    → load_strict d ≡ some rs
    → All IsValid rs × (distinct_ids rs ≡ true) × (load d ≡ rs)
unfolding load_strict load distinct_ids
load_strict-load missing rs h =
    let e : [] ≡ rs = cc in (subst (All IsValid) e tt, ground (arith, e), e)
load_strict-load unreadable rs h = absurd (cc)
load_strict-load wrong_schema rs h = absurd (cc)
load_strict-load (rules es) rs h = elim (Option-cases (parse es)) [
  | inl e ↦ absurd (ground (arith, e, h))
  | inr (qs, e) ↦ elim (Bool-cases (distinct_ids qs)) [
    | inr x ↦ absurd (ground (arith, e, x, h))
    | inl x ↦
        let y : qs ≡ rs = ground (arith, e, x, h) in
        (subst (All IsValid) y (parse-IsValid es qs e), cc, ground (arith, e, x, y))
  ]
]

load-entries_of :
    (rs : List UserRule)
    → All IsValid rs
    → distinct_ids rs ≡ true
    → load (rules (entries_of rs)) ≡ rs
unfolding load
load-entries_of rs v d = ground (arith, parse-entries_of rs v, d)

-- For a valid rule, append_strict returns, the document could be read strictly without a rule of
-- its id, and the rules in force are those of before and the new one; or it raises, and the
-- document is as it was.
pub append_strict_exact :
    (written : Bool) (r : UserRule) (d : Document)
    → validate_rule r ≡ true
    → (((append_strict written r d).0 ≡ none)
        × (load (append_strict written r d).1 ≡ (load d ++ (r ∷ [])))
        × ((rs : List UserRule) × (load_strict d ≡ some rs) × (has_id rs r.rule_id ≡ false)))
      ⊎ ((x : RuleStoreError) × ((append_strict written r d).0 ≡ some x)
          × ((append_strict written r d).1 ≡ d))
unfolding append_strict write_replaced
append_strict_exact w r d v = elim (Option-cases (load_strict d)) [
  | inl e ↦ inr (unreadable_store, ground (arith, e), ground (arith, e))
  | inr (rs, e) ↦ elim (Bool-cases (has_id rs r.rule_id)) [
    | inl i ↦ inr (already_present, ground (arith, e, i), ground (arith, e, i))
    | inr i ↦ elim (Bool-cases w) [
      | inr x ↦ inr (not_written, ground (arith, e, i, x), ground (arith, e, i, x))
      | inl x ↦
          let (a, b, c) = load_strict-load d rs e in
          let f =
            load-entries_of (rs ++ (r ∷ [])) (All-append IsValid rs r a v)
              (distinct_ids-append rs r b i) in
          inl (ground (arith, e, i, x), ground (arith, e, i, x, f, c), (rs, e, i))
    ]
  ]
]
