-- ===== src/Approval/Grant/Live.antt =====
-- When an approval is live, and what the check of it and its spend do.
use wire_agent.Base.{
  ℕ, ◌<◌, Bool, true, false, ◌&&◌, ◌≡◌, refl, ◌↔◌, ◌⊎◌, inl, inr, none, some, eq_iff, arith,
  Bool-cases, Option-cases, ◌≢◌,
}
use wire_agent.Approval.Grant.{
  GrantState, active, spent, expired, revoked, is_active, GrantClaimDenied, expired_grant,
  ApprovalGrant, Presented, is_expired, refresh_state, check_bindings, check_state, validate_live,
  spend_if_live,
}

-- The approval is active, in time, and bound to what is presented.
pub record IsLive (b : Presented) (now : ℕ) (g : ApprovalGrant) : Type 0 where
  pub state : g.state ≡ active
  pub in_time : (g.expires_at ≡ 0) ⊎ (now < g.expires_at)
  pub authorization_epoch : b.authorization_epoch ≡ g.authorization_epoch
  pub intent_hash : b.intent_hash ≡ g.intent_hash
  pub actor_id : b.actor_id ≡ g.actor_id
  pub policy_binding : b.policy_binding ≡ g.policy_binding

pub state_cases :
    (s : GrantState)
    → ((s ≡ active) × (is_active s ≡ true)) ⊎ ((s ≢ active) × (is_active s ≡ false))
state_cases active = inl (refl, refl)
state_cases spent = inr (λ e. cc, refl)
state_cases expired = inr (λ e. cc, refl)
state_cases revoked = inr (λ e. cc, refl)

module _ (b : Presented) (g : ApprovalGrant) where
  pub check_bindings_iff : ((check_bindings b g).0 ≡ none) ↔ (
      (b.authorization_epoch ≡ g.authorization_epoch)
      × (b.intent_hash ≡ g.intent_hash)
      × (b.actor_id ≡ g.actor_id)
      × (b.policy_binding ≡ g.policy_binding))
  unfolding check_bindings
  check_bindings_iff = ground (
    arith,
    eq_iff b.intent_hash g.intent_hash,
    eq_iff b.actor_id g.actor_id,
    eq_iff b.policy_binding g.policy_binding,
  )

  check_bindings_keeps : (check_bindings b g).0 ≡ none → (check_bindings b g).1 ≡ g
  unfolding check_bindings
  check_bindings_keeps h = ground arith

  check_state_refuses :
      (s : GrantState)
      → is_active s ≡ false
      → ((check_state s b g).0 ≢ none) × ((check_state s b g).1 ≡ g)
  unfolding check_state
  check_state_refuses active h = absurd (ground arith)
  check_state_refuses spent h = (λ e. cc, refl)
  check_state_refuses expired h = (λ e. cc, refl)
  check_state_refuses revoked h = (λ e. cc, refl)

  check_state_active : (s : GrantState) → s ≡ active → check_state s b g ≡ check_bindings b g
  unfolding check_state
  check_state_active s e = rw e

-- The approval lapses at this check.
abbrev pub lapses : ℕ → ApprovalGrant → Bool
unfolding is_expired
lapses now g = is_active g.state && is_expired now g

module _ (b : Presented) (now : ℕ) (g : ApprovalGrant) where
  refresh_true : lapses now g ≡ true → refresh_state now g ≡ record g { state = expired }
  unfolding refresh_state
  refresh_true h = rw h

  refresh_false : lapses now g ≡ false → refresh_state now g ≡ g
  unfolding refresh_state
  refresh_false h = rw h

  -- What a check does in each of its three cases.
  pub validate_live-cases :
      ((lapses now g ≡ true)
        × (validate_live b now g ≡ (some expired_grant, record g { state = expired })))
      ⊎ (((lapses now g ≡ false)
            × (is_active g.state ≡ false)
            × ((validate_live b now g).0 ≢ none)
            × ((validate_live b now g).1 ≡ g))
          ⊎ ((lapses now g ≡ false)
              × (g.state ≡ active)
              × (validate_live b now g ≡ check_bindings b g)))
  unfolding validate_live check_state
  validate_live-cases = elim (Bool-cases (lapses now g)) [
    | inl h ↦ inl (h, rw (refresh_true h) refl)
    | inr h ↦ elim (state_cases g.state) [
      | inl e ↦ inr (inr (h, e.0, rw (refresh_false h, check_state_active b g g.state e.0)))
      | inr e ↦
          let r = check_state_refuses b g g.state e.1 in
          inr (inl (h, e.1, rw (refresh_false h) r.0, rw (refresh_false h) r.1))
    ]
  ]

  -- A check succeeds exactly on a live approval.
  pub validate_live-IsLive : ((validate_live b now g).0 ≡ none) ↔ IsLive b now g
  unfolding is_expired
  validate_live-IsLive = elim validate_live-cases [
    | inl (h, e) ↦ ground (arith, e)
    | inr (inl (h, i, n, e)) ↦ ground (arith, e)
    | inr (inr (h, a, e)) ↦ ground (arith, e, check_bindings_iff b g)
  ]

  -- A successful check changes nothing.
  pub validate_live_keeps : (validate_live b now g).0 ≡ none → (validate_live b now g).1 ≡ g
  validate_live_keeps h = elim validate_live-cases [
    | inl (l, e) ↦ absurd (ground (arith, e))
    | inr (inl (l, i, n, e)) ↦ e
    | inr (inr (l, a, e)) ↦ rw e (check_bindings_keeps b g (ground (arith, e)))
  ]

  -- A check changes the state at most.
  pub validate_live_frame :
      (validate_live b now g).1 ≡ record g { state = (validate_live b now g).1.state }
  unfolding check_bindings
  validate_live_frame = elim validate_live-cases [
    | inl (l, e) ↦ ground (arith, e)
    | inr (inl (l, j, n, e)) ↦ ground (arith, e)
    | inr (inr (l, a, e)) ↦ ground (arith, e)
  ]

  -- A live approval passes the check.
  pub validate_live_accepts : IsLive b now g → validate_live b now g ≡ (none, g)
  validate_live_accepts l =
      let e = validate_live-IsLive.1 l in ground (arith, e, validate_live_keeps e)

  -- The check refuses an approval that is not active and leaves it as it was.
  pub validate_live_refuses :
      is_active g.state ≡ false → (e : GrantClaimDenied) × (validate_live b now g ≡ (some e, g))
  unfolding is_expired
  validate_live_refuses i = elim validate_live-cases [
    | inl (l, e) ↦ absurd (ground arith)
    | inr (inl (l, j, n, e)) ↦ elim (Option-cases (validate_live b now g).0) [
      | inl z ↦ absurd (n z)
      | inr (x, z) ↦ (x, ground (arith, z, e))
    ]
    | inr (inr (l, a, e)) ↦ absurd (ground arith)
  ]

  -- spend_if_live succeeds exactly when the approval is active, unexpired and bound to the
  -- presented epoch, intent, actor and policy, and then its state is spent and nothing else has
  -- changed.
  pub spend_if_live-IsLive :
      (((spend_if_live b now g).0 ≡ none) ↔ IsLive b now g)
      × (IsLive b now g → (spend_if_live b now g).1 ≡ record g { state = spent })
  unfolding spend_if_live
  spend_if_live-IsLive =
      (ground (arith, validate_live-IsLive), λ l. ground (arith, validate_live_accepts l))
