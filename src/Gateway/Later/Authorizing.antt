-- ===== src/Gateway/Later/Authorizing.antt =====
-- `authorize_commit` only moves on.
use wire_agent.Base.{ℕ, String, Bool, inl, inr, Option, none, some, arith, Bool-cases}
use wire_agent.Base.Results.{Result, ok, err}
use wire_agent.Policy.{EffectPolicy}
use wire_agent.Approval.Grant.{GrantClaimDenied}
use wire_agent.Gateway.State.{ClosureReason, GatewayDenied, GatewayError, Gateway, Action, throw}
use wire_agent.Gateway.Retire.{Retirement, current_epoch, retire_dead, is_denied}
use wire_agent.Gateway.Authorize.{
  validate_grant_identity, retire_if_denied, retire_after, check_epoch_domain, reserve_and_mint,
  under_policy, authorize_commit,
}
use wire_agent.Gateway.Mint.{
  Locals, ask_and_mint, with_locals, put_permit, reserve_fenced, close_before_mint, new_permit,
  mint_permit, deny_mint, spent_or_denied, spend_and_mint, Authorization, late_bumps,
}
use wire_agent.Gateway.Later.{Later, Keeps, Keeps-then, Later_trans, core}
use wire_agent.Gateway.Later.Steps.{
  Keeps-id, Keeps-throw, Keeps-blocked_now, Keeps-issue, Later-bump_epoch,
}
use wire_agent.Gateway.Later.Owners.{
  keeping, Keeps-epoch_at, Keeps-validating, Keeps-spending, Keeps-set_closure_reason,
  Keeps-register_live, Keeps-mark_minted, Keeps-or_raise, Keeps-close_reserved, Keeps-retire_dead,
}
use wire_agent.Gateway.Later.Calls.{
  Keeps-policy_of, Keeps-binding_of, Keeps-prune_expired, Keeps-refuse, Keeps-refuse_by_grant,
}

pub Keeps-validate_grant_identity :
    (i : Authorization) (b : String) (e : ℕ) → Keeps (validate_grant_identity i b e)
unfolding validate_grant_identity
Keeps-validate_grant_identity i b e =
    search (keeping, Keeps-refuse, Keeps-refuse_by_grant, Keeps-validating) depth 9

retired :
    (x : Result GatewayError (Unit {0}) × Gateway) (t : Retirement) (e : String) (s : Gateway)
    → Later s x.1
    → Later s (retire_after t e x).1
unfolding retire_after
retired (ok v, u) t e s l = l
retired (err d, u) t e s l = elim (Bool-cases (is_denied d)) [
  | inr n ↦ rw (n) l
  | inl n ↦ rw n (
      Later_trans (core s) (core u) _ l (
        Keeps-then (retire_dead t e) (throw d) (Keeps-retire_dead t e) (Keeps-throw (Unit {0}) d)
          u))
]

pub Keeps-retire_if_denied :
    (t : Retirement) (e : String) (m : Action (Unit {0})) → Keeps m → Keeps (retire_if_denied t e m)
unfolding retire_if_denied
Keeps-retire_if_denied t e m k s = retired (m s) t e s (k s)

Keeps-check_epoch_domain : (h : ℕ) (e : String) → Keeps (check_epoch_domain h e)
unfolding check_epoch_domain
Keeps-check_epoch_domain h e = Keeps-id (check_epoch_domain h e) (λ s. ground arith)

pub Keeps-reserve_fenced : (i : Authorization) (l : Locals) → Keeps (reserve_fenced i l)
unfolding reserve_fenced
Keeps-reserve_fenced i l = search (keeping, Keeps-register_live, Keeps-or_raise) depth 12

Keeps-close_before_mint :
    (i : Authorization) (f : Bool) (b : String) (r : ClosureReason)
    → Keeps (close_before_mint i f b r)
unfolding close_before_mint
Keeps-close_before_mint i f b r =
    search (keeping, Keeps-set_closure_reason, Keeps-close_reserved) depth 9

Keeps-put_permit : (i : Authorization) (l : Locals) (e : ℕ) → Keeps (put_permit i l e)
unfolding put_permit
Keeps-put_permit i l e s = Keeps-issue (new_permit i l e s.permit_ttl) i.attempt s

pub Keeps-mint_permit : (i : Authorization) (l : Locals) (e : ℕ) → Keeps (mint_permit i l e)
unfolding mint_permit
Keeps-mint_permit i l e = search (keeping, Keeps-mark_minted, Keeps-put_permit)

Keeps-deny_mint :
    (i : Authorization) (l : Locals) (r : ClosureReason) (d : GatewayDenied)
    → Keeps (deny_mint i l r d)
unfolding deny_mint
Keeps-deny_mint i l r d = search (keeping, Keeps-close_before_mint)

Keeps-spent_or_denied :
    (i : Authorization) (l : Locals) (e : ℕ) (r : Option GrantClaimDenied)
    → Keeps (spent_or_denied i l e r)
unfolding spent_or_denied
Keeps-spent_or_denied i l e none =
    search (keeping, Keeps-blocked_now, Keeps-deny_mint, Keeps-mint_permit)
Keeps-spent_or_denied i l e (some d) = Keeps-deny_mint i l _ _

Keeps-ask_and_mint : (i : Authorization) (l : Locals) (e : ℕ) → Keeps (ask_and_mint i l e)
unfolding ask_and_mint
Keeps-ask_and_mint i l e = search (keeping, Keeps-spending, Keeps-spent_or_denied)

Keeps-spend_and_mint : (i : Authorization) (l : Locals) (e : ℕ) → Keeps (spend_and_mint i l e)
unfolding spend_and_mint
Keeps-spend_and_mint i l e =
    search (keeping, Keeps-blocked_now, Keeps-deny_mint, Keeps-ask_and_mint)

pub Keeps-late_bumps : (n : ℕ) → Keeps (late_bumps n)
unfolding late_bumps
Keeps-late_bumps n s = Later-bump_epoch s.epoch n s

Keeps-current_epoch : Keeps current_epoch
unfolding current_epoch
Keeps-current_epoch s = Keeps-epoch_at s.epoch s

Keeps-with_locals : (i : Authorization) (l : Locals) → Keeps (with_locals i l)
unfolding with_locals
Keeps-with_locals i l =
    search
      (keeping, Keeps-reserve_fenced, Keeps-late_bumps, Keeps-current_epoch, Keeps-spend_and_mint)
      depth 9

pub Keeps-reserve_and_mint :
    (i : Authorization) (p : EffectPolicy) (b : String) → Keeps (reserve_and_mint i p b)
unfolding reserve_and_mint
Keeps-reserve_and_mint i p b = search (keeping, Keeps-with_locals) depth 9

Keeps-under_policy : (i : Authorization) (p : EffectPolicy) → Keeps (under_policy i p)
unfolding under_policy
Keeps-under_policy i p =
    search
      (
        keeping, Keeps-binding_of, Keeps-current_epoch, Keeps-check_epoch_domain,
        Keeps-refuse_by_grant, Keeps-retire_if_denied, Keeps-validate_grant_identity,
        Keeps-reserve_and_mint,
      )
      depth 14

pub Keeps-authorize_commit : (i : Authorization) → Keeps (authorize_commit i)
unfolding authorize_commit
Keeps-authorize_commit i =
    search (keeping, Keeps-blocked_now, Keeps-prune_expired, Keeps-policy_of, Keeps-under_policy)
      depth 9
