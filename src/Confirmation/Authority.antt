-- ===== src/Confirmation/Authority.antt =====
-- What a confirmation authorises, over any sequence of calls.
use wire_agent.Base.{
  ◌||◌, ℕ, ◌≤◌, ◌<◌, String, Bool, true, false, ◌≡◌, refl, ◌∙◌, ◌↔◌, inl, inr, Option, none, some,
  List, [], ◌∷◌, eq_iff, eq_refl, ltb, leb, arith, decided_iff, Option-cases,
}
use wire_agent.Base.Dict.{get, get-put}
use wire_agent.Risk.{RiskTier-discrete}
use wire_agent.Confirmation.Operations.{
  Operation, issuing, advancing, consuming, tampering, step, grants, run, count_if-cases,
}
use wire_agent.Confirmation.{
  ConfirmationToken, PendingAuthority, ConfirmationState, advance_epoch, Binding, new_pending,
  issue, check_pending, consume, consume_at, validate_and_consume,
}

-- The clock reading is accepted: it is a number and no earlier than the last.
abbrev pub not_earlier : Option ℕ → ℕ → Bool
not_earlier none now = true
not_earlier (some previous) now = leb previous now

abbrev pub IsSample : Option ℕ → ℕ → ConfirmationState → Type 0
IsSample clock now s = (clock ≡ some now) × (not_earlier s.last_authority_sample now ≡ true)

-- The pending authority holds for the request at this time and epoch.
pub record Authorises (epoch now : ℕ) (b : Binding) (p : PendingAuthority) : Type 0 where
  pub epoch_current : p.confirmation_epoch ≡ epoch
  pub in_time : now < p.authority_expires_at
  pub unused : p.consumed ≡ false
  pub capability_name : p.capability_name ≡ b.capability_name
  pub intent_hash : p.intent_hash ≡ b.intent_hash
  pub risk_tier : p.risk_tier ≡ b.risk_tier

check_pending_iff :
    (epoch now : ℕ) (b : Binding) (p : PendingAuthority)
    → (check_pending epoch now b p ≡ none) ↔ Authorises epoch now b p
unfolding check_pending
check_pending_iff epoch now b p = ground (
  arith,
  eq_iff p.capability_name b.capability_name,
  eq_iff p.intent_hash b.intent_hash,
  decided_iff (RiskTier-discrete p.risk_tier b.risk_tier),
)

-- The authority of a token is used up: consumed, or of an earlier epoch.
abbrev pub used_up : ℕ → Option PendingAuthority → Bool
used_up epoch none = false
used_up epoch (some p) = p.consumed || ltb p.confirmation_epoch epoch

abbrev pub IsDead : String → ConfirmationState → Type 0
IsDead t s = used_up s.epoch (get s.pending t) ≡ true

module _ (t : String) (s : ConfirmationState) where
  issue-IsDead :
      (clock wall : Option ℕ) (u : String) (b : Binding)
      → IsDead t s
      → IsDead t (issue clock wall u b s).1
  unfolding issue
  issue-IsDead none wall u b d = ground arith
  issue-IsDead (some now) none u b d = ground arith
  issue-IsDead (some now) (some wall) u b d = ground (
    arith,
    get-put s.pending u t
        (new_pending (record s { last_authority_sample = some now }) b u now wall),
    eq_iff u t,
  )

  consume_at-IsDead :
      (now : ℕ) (u : String) (b : Binding)
      → IsDead t s
      → IsDead t (consume_at now (get s.pending u) u b s).1
  unfolding consume_at
  consume_at-IsDead now u b d = elim (Option-cases (get s.pending u)) [
    | inl e ↦ rw (e, consume_at) d
    | inr (p, e) ↦ ground (arith, e, get-put s.pending u t (consume p), eq_iff u t)
  ]

consume_at-granted :
    (u : String) (s : ConfirmationState) (now : ℕ) (b : Binding)
    → (consume_at now (get s.pending u) u b s).0.blocked_by ≡ none
    → (used_up s.epoch (get s.pending u) ≡ false)
      × IsDead u (consume_at now (get s.pending u) u b s).1
unfolding consume_at
consume_at-granted u s now b h = elim (Option-cases (get s.pending u)) [
  | inl e ↦ absurd (ground (arith, e))
  | inr (p, e) ↦ ground (arith, e, get-put s.pending u u (consume p), eq_refl u)
]

module _ (t : String) (s : ConfirmationState) where
  consume-IsDead :
      (clock : Option ℕ) (u : Option String) (b : Binding)
      → IsDead t s
      → IsDead t (validate_and_consume clock u b s).1
  unfolding validate_and_consume
  consume-IsDead none u b d = d
  consume-IsDead (some now) none b d = ground arith
  consume-IsDead (some now) (some u) b d =
      ground (arith, consume_at-IsDead t (record s { last_authority_sample = some now }) now u b d)

  tamper-IsDead :
      (u : String) (x : ConfirmationToken) → IsDead t s → IsDead t (step (tampering u x) s).1
  unfolding step
  tamper-IsDead u x d = elim (Option-cases (get s.pending u)) [
    | inl e ↦ rw (e, step) d
    | inr (p, e) ↦ ground (arith, e, get-put s.pending u t (record p { token = x }), eq_iff u t)
  ]

  -- No operation revives a token.
  step-IsDead : (o : Operation) → IsDead t s → IsDead t (step o s).1
  unfolding step advance_epoch
  step-IsDead (issuing clock wall u b) d = issue-IsDead t s clock wall u b d
  step-IsDead advancing d = ground arith
  step-IsDead (consuming clock u b) d = consume-IsDead clock u b d
  step-IsDead (tampering u x) d = tamper-IsDead u x d

  -- A token is granted only while it is alive, and not afterwards.
  step-granted :
      (o : Operation)
      → (step o s).0 ≡ some t
      → (used_up s.epoch (get s.pending t) ≡ false) × IsDead t (step o s).1
  unfolding step validate_and_consume
  step-granted (issuing clock wall u b) h = cc
  step-granted advancing h = cc
  step-granted (tampering u x) h = absurd (ground arith)
  step-granted (consuming none u b) h = absurd (ground arith)
  step-granted (consuming (some now) none b) h = absurd (ground arith)
  step-granted (consuming (some now) (some u) b) h =
      ground (arith, consume_at-granted u (record s { last_authority_sample = some now }) now b)

-- A dead token is never granted.
dead_grants :
    (t : String) (os : List Operation) (s : ConfirmationState) → IsDead t s → grants t os s ≡ 0
unfolding grants
dead_grants t [] s d = refl
dead_grants t (o ∷ os) s d =
    let ih = dead_grants t os (step o s).1 (step-IsDead t s o d) in
    elim (count_if-cases t (step o s).0 (grants t os (step o s).1)) [
      | inl (g, e) ↦ absurd (ground (arith, step-granted t s o g, d))
      | inr e ↦ e ∙ ih
    ]

-- Over any sequence of issuing, consuming and epoch advances, and of changes of the token objects
-- by their holders, from any state, a token text is granted at most once.
pub grants-le-one : (t : String) (os : List Operation) (s : ConfirmationState) → grants t os s ≤ 1
unfolding grants
grants-le-one t [] s = omega arith
grants-le-one t (o ∷ os) s = elim (count_if-cases t (step o s).0 (grants t os (step o s).1)) [
  | inl (g, e) ↦
      let d = dead_grants t os (step o s).1 (step-granted t s o g).1 in omega (arith, e, d)
  | inr e ↦ let ih = grants-le-one t os (step o s).1 in omega (arith, e, ih)
]

-- Every pending authority is of the current epoch or an earlier one.
abbrev pub in_past : ℕ → Option PendingAuthority → Bool
in_past epoch none = true
in_past epoch (some p) = leb p.confirmation_epoch epoch

abbrev pub IsSound : ConfirmationState → Type 0
IsSound s = (t : String) → in_past s.epoch (get s.pending t) ≡ true

step-IsSound : (o : Operation) (s : ConfirmationState) → IsSound s → IsSound (step o s).1
unfolding step issue validate_and_consume advance_epoch
step-IsSound (issuing none wall u b) s h t = ground (arith, h t)
step-IsSound (issuing (some now) none u b) s h t = ground (arith, h t)
step-IsSound (issuing (some now) (some wall) u b) s h t = ground (
  arith,
  h t,
  get-put s.pending u t (new_pending (record s { last_authority_sample = some now }) b u now wall),
)
step-IsSound advancing s h t = ground (arith, h t)
step-IsSound (consuming none u b) s h t = ground (arith, h t)
step-IsSound (consuming (some now) none b) s h t = ground (arith, h t)
step-IsSound (consuming (some now) (some u) b) s h t = elim (Option-cases (get s.pending u)) [
  | inl e ↦ ground (arith, e, h t)
  | inr (p, e) ↦ ground (arith, e, h t, h u, get-put s.pending u t (consume p))
]
step-IsSound (tampering u x) s h t = elim (Option-cases (get s.pending u)) [
  | inl e ↦ ground (arith, e, h t)
  | inr (p, e) ↦ ground (arith, e, h t, h u, get-put s.pending u t (record p { token = x }))
]

run-IsSound : (os : List Operation) (s : ConfirmationState) → IsSound s → IsSound (run os s)
unfolding run
run-IsSound [] s h = h
run-IsSound (o ∷ os) s h = run-IsSound os (step o s).1 (step-IsSound o s h)

-- From a state without pending tokens and after any sequence of calls, once the epoch has
-- advanced, a token that was pending before is never granted, whatever the calls that follow.
pub advance_revokes :
    (s : ConfirmationState) (before after : List Operation) (t : String) (p : PendingAuthority)
    → s.pending ≡ []
    → get (run before s).pending t ≡ some p
    → grants t after (advance_epoch (run before s)).1 ≡ 0
unfolding advance_epoch get
advance_revokes s before after t p e h =
    let sound = run-IsSound before s (λ t. ground (arith, e)) in
    dead_grants t after (advance_epoch (run before s)).1 (ground (arith, sound t, h))

-- A call grants a token text exactly when the authority clock gives a reading no earlier than the
-- last one and there is a pending authority of that text that is of the current epoch, unexpired,
-- unconsumed, and bound to the capability, the intent and the risk tier of the call.
pub granted_iff :
    (clock : Option ℕ) (t : String) (b : Binding) (s : ConfirmationState)
    → ((step (consuming clock (some t) b) s).0 ≡ some t) ↔ (
        (now : ℕ) × (p : PendingAuthority) × IsSample clock now s
        × (get s.pending t ≡ some p)
        × Authorises s.epoch now b p)
unfolding step validate_and_consume consume_at
granted_iff none t b s = (λ h. absurd (ground arith), λ (now, p, c, e, a). absurd (ground arith))
granted_iff (some now) t b s = elim (Option-cases (get s.pending t)) [
  | inl e ↦ (λ h. absurd (ground (arith, e)), λ (m, p, c, g, a). absurd (ground (arith, e, g)))
  | inr (p, e) ↦ (
    λ h. (
      now,
      p,
      (refl, ground (arith, e)),
      e,
      (check_pending_iff s.epoch now b p).0 (ground (arith, e)),
    ),
    λ (m, q, c, g, a).
        let n : m ≡ now = ground (arith, c) in
        let x : q ≡ p = ground (arith, e, g) in
        let d = (check_pending_iff s.epoch m b q).1 a in ground (arith, e, c, n, x, d),
  )
]
