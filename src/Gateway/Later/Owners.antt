-- ===== src/Gateway/Later/Owners.antt =====
-- The registration, the closure and the retirement of live owners only move on.
use wire_agent.Base.{ℕ, String, false, ◌≡◌, Option, none, some, arith}
use wire_agent.Base.Dict.{get}
use wire_agent.Effect.History.{LedgerError, corrupt, failed, value_error}
use wire_agent.Approval.Grant.{
  ApprovalGrant, Presented, GrantClaimDenied, is_active, validate_live, spend_if_live,
}
use wire_agent.Approval.Grant.Live.{validate_live_refuses}
use wire_agent.Approval.Attempt.{EffectAttempt}
use wire_agent.Gateway.State.{
  IntentSnapshot, ClosureReason, LiveEffectOwner, GatewayError, Action, ◌>>◌, require, modify,
  grant_of, attempt_of, mark, ask, Write,
}
use wire_agent.Gateway.Owner.{
  put_owner, register_live, live_owner, set_closure_reason, mark_minted, drop_owner, retire_live,
  or_raise, close_reserved, retire_of,
}
use wire_agent.Gateway.Retire.{
  epoch_at, check_dead, dead_reason, unless_denied, try_reserve, Retirement, close_owner,
  after_reserve, reserve_again, settle_owner, retire_dead, close_dead, retire_reason, retire_owner,
  settle_dead_owner, live_attempt_owns_effect,
}
use wire_agent.Gateway.Later.{Later, Keeps, Keeps-bind, Keeps-then, Keeps-if, Later_refl, core}
use wire_agent.Gateway.Later.Steps.{
  Keeps-id, Keeps-ret, Keeps-throw, Keeps-require, Keeps-found, Keeps-mark, Keeps-append_fact,
  Keeps-ask,
}

pub Keeps-grant_of : (h : ℕ) → Keeps (grant_of h)
unfolding grant_of
Keeps-grant_of h = Keeps-found _ _

pub Keeps-attempt_of : (h : ℕ) → Keeps (attempt_of h)
unfolding attempt_of
Keeps-attempt_of h = Keeps-found _ _

pub ruleset keeping = (
  Keeps-bind, Keeps-then, Keeps-if, Keeps-ret, Keeps-throw, Keeps-require, Keeps-found, Keeps-mark,
  Keeps-append_fact, Keeps-grant_of, Keeps-attempt_of,
)

Keeps-put_owner : (i : String) (o : LiveEffectOwner) → Keeps (modify (put_owner i o))
unfolding modify put_owner
Keeps-put_owner i o s = Later_refl (core s)

Keeps-live_owner : (h : ℕ) (a : EffectAttempt) → Keeps (live_owner h a)
unfolding live_owner
Keeps-live_owner h a = Keeps-id (live_owner h a) (λ s. ground arith)

pub Keeps-set_closure_reason : (h : ℕ) (r : ClosureReason) → Keeps (set_closure_reason h r)
unfolding set_closure_reason
Keeps-set_closure_reason h r = search (keeping, Keeps-put_owner, Keeps-live_owner) depth 9

pub Keeps-register_live :
    (h g : ℕ) (n : IntentSnapshot) (b : String) (a : EffectAttempt)
    → Keeps (register_live h g n b a)
unfolding register_live
Keeps-register_live h g n b a = Keeps-id (register_live h g n b a) (λ s. ground arith)

pub Keeps-mark_minted : (h : ℕ) → Keeps (mark_minted h)
unfolding mark_minted
Keeps-mark_minted h = search (keeping, Keeps-put_owner, Keeps-live_owner) depth 9

Keeps-retire_of : (h : ℕ) (a : EffectAttempt) → Keeps (retire_of h a)
unfolding retire_of drop_owner
Keeps-retire_of h a = Keeps-id (retire_of h a) (λ s. ground arith)

pub Keeps-retire_live : (h : ℕ) → Keeps (retire_live h)
unfolding retire_live
Keeps-retire_live h = search (keeping, Keeps-retire_of)

pub Keeps-or_raise : (e : GatewayError) (f : Option LedgerError) → Keeps (or_raise e f)
unfolding or_raise
Keeps-or_raise e none = Keeps-ret tt
Keeps-or_raise e (some value_error) = search (keeping)
Keeps-or_raise e (some failed) = search (keeping)
Keeps-or_raise e (some (corrupt c)) = search (keeping)

pub Keeps-close_reserved :
    (w : Write) (g h : ℕ) (n : IntentSnapshot) (b : String) (r : ClosureReason)
    → Keeps (close_reserved w g h n b r)
unfolding close_reserved
Keeps-close_reserved w g h n b r = search (keeping, Keeps-or_raise, Keeps-retire_live) depth 12

pub Keeps-epoch_at : (h : ℕ) → Keeps (epoch_at h)
unfolding epoch_at
Keeps-epoch_at h = Keeps-found _ _

validate_live_final :
    (b : Presented) (now : ℕ) (g : ApprovalGrant)
    → is_active g.state ≡ false
    → (validate_live b now g).1 ≡ g
validate_live_final b now g h = let (e, q) = validate_live_refuses b now g h in cc

spend_if_live_final :
    (b : Presented) (now : ℕ) (g : ApprovalGrant)
    → is_active g.state ≡ false
    → (spend_if_live b now g).1 ≡ g
unfolding spend_if_live
spend_if_live_final b now g h = let (e, q) = validate_live_refuses b now g h in ground (arith, q)

pub Keeps-validating : (h : ℕ) (b : Presented) (now : ℕ) → Keeps (ask h (validate_live b now))
Keeps-validating h b now = Keeps-ask (validate_live b now) (validate_live_final b now) h

pub Keeps-spending : (h : ℕ) (b : Presented) (now : ℕ) → Keeps (ask h (spend_if_live b now))
Keeps-spending h b now = Keeps-ask (spend_if_live b now) (spend_if_live_final b now) h

Keeps-check_dead : (now e : ℕ) (o : LiveEffectOwner) → Keeps (check_dead now e o)
unfolding check_dead
Keeps-check_dead now e o = search (keeping, Keeps-validating) depth 9

Keeps-dead_reason : (now : ℕ) (o : LiveEffectOwner) → Keeps (dead_reason now o)
unfolding dead_reason
Keeps-dead_reason now o = search (keeping, Keeps-check_dead) depth 12

Keeps-unless_denied : (m : Action (Unit {0})) → Keeps m → Keeps (unless_denied m)
unfolding unless_denied
Keeps-unless_denied m k s = k s

Keeps-try_reserve : (g h : ℕ) → Keeps (try_reserve g h)
unfolding try_reserve mark
Keeps-try_reserve g h = Keeps-id (try_reserve g h) (λ s. ground arith)

Keeps-close_owner :
    (t : Retirement) (o : LiveEffectOwner) (r : ClosureReason) → Keeps (close_owner t o r)
unfolding close_owner
Keeps-close_owner t o r = search (Keeps-unless_denied, Keeps-close_reserved)

Keeps-after_reserve :
    (t : Retirement) (o : LiveEffectOwner) (r : ClosureReason) (f : Option LedgerError)
    → Keeps (after_reserve t o r f)
unfolding after_reserve
Keeps-after_reserve t o r none = search (keeping, Keeps-try_reserve, Keeps-close_owner)
Keeps-after_reserve t o r (some value_error) = search (keeping)
Keeps-after_reserve t o r (some failed) = search (keeping)
Keeps-after_reserve t o r (some (corrupt c)) = search (keeping)

Keeps-reserve_again :
    (t : Retirement) (o : LiveEffectOwner) (r : ClosureReason) → Keeps (reserve_again t o r)
unfolding reserve_again
Keeps-reserve_again t o r = search (keeping, Keeps-after_reserve) depth 9

Keeps-settle_owner :
    (t : Retirement) (o : LiveEffectOwner) (r : ClosureReason) → Keeps (settle_owner t o r)
unfolding settle_owner
Keeps-settle_owner t o r = search (keeping, Keeps-close_owner, Keeps-reserve_again) depth 9

Keeps-close_dead :
    (t : Retirement) (o : LiveEffectOwner) (e : Option GrantClaimDenied) → Keeps (close_dead t o e)
unfolding close_dead
Keeps-close_dead t o none = Keeps-ret tt
Keeps-close_dead t o (some e) = search (keeping, Keeps-set_closure_reason, Keeps-settle_owner)

Keeps-retire_reason :
    (t : Retirement) (o : LiveEffectOwner) (r : Option ClosureReason) → Keeps (retire_reason t o r)
unfolding retire_reason
Keeps-retire_reason t o none = search (keeping, Keeps-dead_reason, Keeps-close_dead)
Keeps-retire_reason t o (some r) = Keeps-settle_owner t o r

Keeps-retire_owner : (t : Retirement) (o : Option LiveEffectOwner) → Keeps (retire_owner t o)
unfolding retire_owner
Keeps-retire_owner t none = Keeps-ret tt
Keeps-retire_owner t (some o) = search (keeping, Keeps-retire_reason)

pub Keeps-retire_dead : (t : Retirement) (i : String) → Keeps (retire_dead t i)
unfolding retire_dead
Keeps-retire_dead t i s = Keeps-retire_owner t (get s.live i) s

Keeps-owns : (i : String) → Keeps (live_attempt_owns_effect i)
unfolding live_attempt_owns_effect require ◌>>◌
Keeps-owns i = Keeps-id (live_attempt_owns_effect i) (λ s. ground arith)

pub Keeps-settle_dead_owner : (t : Retirement) (i : String) → Keeps (settle_dead_owner t i)
unfolding settle_dead_owner
Keeps-settle_dead_owner t i = search (keeping, Keeps-retire_dead, Keeps-owns)
