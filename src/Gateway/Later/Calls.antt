-- ===== src/Gateway/Later/Calls.antt =====
-- The calls of the gateway only move on.
use wire_agent.Base.{ℕ, String, Option, none, some, List, [], ◌∷◌, arith}
use wire_agent.Json.{Fields}
use wire_agent.Effect.Record.{EffectState}
use wire_agent.Effect.History.{LedgerError}
use wire_agent.Policy.{EffectPolicy}
use wire_agent.Approval.Grant.{GrantClaimDenied}
use wire_agent.Approval.Attempt.{EffectAttempt, AttemptError}
use wire_agent.Gateway.State.{EffectPermit, GatewayDenied, GatewayError, permit_of, Write}
use wire_agent.Gateway.Permit.{
  policy_of, binding_of, current_policy_binding, require_issued, canonical_attempt, append_terminal,
  close_unconsumed, close_unconsumed_permit_no_effect, close_expired, close_each, prune_expired,
  expired_permits, raise_terminal, check_issued,
}
use wire_agent.Gateway.Consume.{
  refuse, expire, validate_outcome_objects, record_outcome, record_effect_confirmed,
  record_effect_unknown,
}
use wire_agent.Gateway.Authorize.{refuse_by_grant}
use wire_agent.Gateway.Later.{Keeps, Later_refl, core}
use wire_agent.Gateway.Later.Steps.{Keeps-id, Keeps-ret, Keeps-found, Keeps-evict}
use wire_agent.Gateway.Later.Owners.{keeping, Keeps-retire_live}

Keeps-permit_of : (h : ℕ) → Keeps (permit_of h)
unfolding permit_of
Keeps-permit_of h = Keeps-found _ _

pub Keeps-policy_of : (a : String) → Keeps (policy_of a)
unfolding policy_of
Keeps-policy_of a = Keeps-id (policy_of a) (λ s. ground arith)

pub Keeps-binding_of : (p : EffectPolicy) → Keeps (binding_of p)
unfolding binding_of
Keeps-binding_of p s = Later_refl (core s)

Keeps-current_policy_binding : (a : String) → Keeps (current_policy_binding a)
unfolding current_policy_binding
Keeps-current_policy_binding a = search (keeping, Keeps-policy_of, Keeps-binding_of)

Keeps-check_issued : (h : ℕ) (p : EffectPermit) → Keeps (check_issued h p)
unfolding check_issued
Keeps-check_issued h p = Keeps-id (check_issued h p) (λ s. ground arith)

Keeps-require_issued : (h : ℕ) → Keeps (require_issued h)
unfolding require_issued
Keeps-require_issued h = search (keeping, Keeps-permit_of, Keeps-check_issued)

Keeps-canonical_attempt : (p : EffectPermit) → Keeps (canonical_attempt p)
unfolding canonical_attempt
Keeps-canonical_attempt p = Keeps-id (canonical_attempt p) (λ s. ground arith)

Keeps-raise_terminal : (e : GatewayError) (f : Option LedgerError) → Keeps (raise_terminal e f)
Keeps-raise_terminal e none = Keeps-ret tt
Keeps-raise_terminal e (some x) = search (keeping)

Keeps-append_terminal :
    (w : Write) (e : GatewayError) (p : EffectPermit) (s : EffectState) (v : Fields)
    → Keeps (append_terminal w e p s v)
unfolding append_terminal
Keeps-append_terminal w e p s v = search (keeping, Keeps-raise_terminal)

Keeps-close_unconsumed :
    (w : Write) (r : String) (d : GatewayDenied) (h : ℕ) → Keeps (close_unconsumed w r d h)
unfolding close_unconsumed
Keeps-close_unconsumed w r d h =
    search
      (
        keeping, Keeps-permit_of, Keeps-canonical_attempt, Keeps-append_terminal, Keeps-retire_live,
        Keeps-evict,
      )
      depth 14

pub Keeps-close_unconsumed_permit_no_effect :
    (w : Write) (r : String) (h : ℕ) → Keeps (close_unconsumed_permit_no_effect w r h)
unfolding close_unconsumed_permit_no_effect
Keeps-close_unconsumed_permit_no_effect w r h =
    search (keeping, Keeps-require_issued, Keeps-close_unconsumed)

Keeps-close_expired : (w : Write) (h : ℕ) → Keeps (close_expired w h)
unfolding close_expired
Keeps-close_expired w h = Keeps-close_unconsumed w _ _ h

Keeps-close_each : (c : ℕ → Write) (hs : List ℕ) → Keeps (close_each c hs)
unfolding close_each
Keeps-close_each c [] = Keeps-ret tt
Keeps-close_each c (h ∷ hs) = search (keeping, Keeps-close_expired, Keeps-close_each c hs)

pub Keeps-prune_expired : (n : ℕ) (c : ℕ → Write) → Keeps (prune_expired n c)
unfolding prune_expired
Keeps-prune_expired n c s = Keeps-close_each c (expired_permits n s.permits s.issued) s

pub Keeps-expire : (w : Write) (h : ℕ) → Keeps (expire w h)
unfolding expire
Keeps-expire w h = search (keeping, Keeps-close_expired)

pub Keeps-refuse : (d : Option GatewayDenied) → Keeps (refuse d)
unfolding refuse
Keeps-refuse d = Keeps-id (refuse d) (λ s. ground arith)

pub Keeps-refuse_by_grant : (d : Option GrantClaimDenied) → Keeps (refuse_by_grant d)
unfolding refuse_by_grant
Keeps-refuse_by_grant d = Keeps-id (refuse_by_grant d) (λ s. ground arith)

Keeps-validate_outcome_objects : (h a : ℕ) → Keeps (validate_outcome_objects h a)
unfolding validate_outcome_objects
Keeps-validate_outcome_objects h a =
    search (keeping, Keeps-require_issued, Keeps-canonical_attempt) depth 14

Keeps-record_outcome :
    (w : Write) (s : EffectState) (f : EffectAttempt → Option AttemptError × EffectAttempt)
    (v : Fields) (h a : ℕ)
    → Keeps (record_outcome w s f v h a)
unfolding record_outcome
Keeps-record_outcome w s f v h a =
    search
      (
        keeping, Keeps-validate_outcome_objects, Keeps-append_terminal, Keeps-retire_live,
        Keeps-evict,
      )
      depth 9

pub Keeps-record_effect_confirmed :
    (w : Write) (v : Fields) (h a : ℕ) → Keeps (record_effect_confirmed w v h a)
unfolding record_effect_confirmed
Keeps-record_effect_confirmed w v h a = Keeps-record_outcome w _ _ v h a

pub Keeps-record_effect_unknown :
    (w : Write) (v : Fields) (h a : ℕ) → Keeps (record_effect_unknown w v h a)
unfolding record_effect_unknown
Keeps-record_effect_unknown w v h a = Keeps-record_outcome w _ _ v h a
