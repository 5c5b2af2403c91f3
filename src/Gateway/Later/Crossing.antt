-- ===== src/Gateway/Later/Crossing.antt =====
-- `consume_permit` only moves on.
use wire_agent.Base.{ℕ, Bool, true, false, not, ◌≡◌, refl, some, eqb, arith, if◌then◌else◌}
use wire_agent.Base.Results.{Result, ok, err}
use wire_agent.Base.Heap.{at}
use wire_agent.Gateway.State.{
  EffectPermit, kill_switch, permit_reused, epoch_mismatch, denied, GatewayError, Gateway, Action,
  and_then, ◌>>=◌, ◌>>◌, require, modify, blocked_now,
}
use wire_agent.Gateway.Retire.{current_epoch}
use wire_agent.Gateway.Permit.{policy_of, current_policy_binding, require_issued}
use wire_agent.Gateway.Consume.{
  Use, Boundary, check_use, refuse, put_use, expire, cross, compare_and_cross, admitted,
  consume_permit,
}
use wire_agent.Gateway.Actions.{
  policy_of_reads, current_policy_binding_reads, current_epoch_reads, require_reads, refuse_reads,
  require_issued_reads, require_issued-IsIssued, require-true,
}
use wire_agent.Gateway.Later.{Later, Keeps, Later_refl, Later_trans, core}
use wire_agent.Gateway.Later.Steps.{Keeps-blocked_now, Later-put_use}
use wire_agent.Gateway.Later.Owners.{keeping}
use wire_agent.Gateway.Later.Calls.{Keeps-expire}

-- On from what an action has left.
module _ {A B : Type 0} where
  onward_pair :
      (x : Result GatewayError A × Gateway) (k : A → Action B) (s : Gateway)
      → Later s x.1
      → ((a : A) → x.0 ≡ ok a → Later x.1 (k a x.1).1)
      → Later s (and_then x k).1
  onward_pair (ok a, t) k s e l = Later_trans (core s) (core t) (core (k a t).1) e (l a refl)
  onward_pair (err d, t) k s e l = e

  onward :
      (m : Action A) (k : A → Action B) (s : Gateway)
      → Later s (m s).1
      → ((a : A) → (m s).0 ≡ ok a → Later (m s).1 (k a (m s).1).1)
      → Later s ((m >>= k) s).1
  unfolding ◌>>=◌
  onward m k s e l = onward_pair (m s) k s e l

  -- Past an action that only reads.
  past_pair :
      (x : Result GatewayError A × Gateway) (k : A → Action B) (s : Gateway)
      → x.1 ≡ s
      → ((a : A) → x.0 ≡ ok a → Later s (k a s).1)
      → Later s (and_then x k).1
  past_pair (ok a, t) k s e l = rw e (l a refl)
  past_pair (err d, t) k s e l = rw e (Later_refl (core s))

  past :
      (m : Action A) (k : A → Action B) (s : Gateway)
      → (m s).1 ≡ s
      → ((a : A) → (m s).0 ≡ ok a → Later s (k a s).1)
      → Later s ((m >>= k) s).1
  unfolding ◌>>=◌
  past m k s e l = past_pair (m s) k s e l

  past_then :
      (m : Action A) (k : Action B) (s : Gateway)
      → (m s).1 ≡ s
      → ((a : A) → (m s).0 ≡ ok a → Later s (k s).1)
      → Later s ((m >> k) s).1
  unfolding ◌>>◌
  past_then m k s e l = past_pair (m s) (λ _. k) s e l

crossed :
    (t : Bool) (b : Boundary) (u : Use) (h : ℕ) (p : EffectPermit) (s : Gateway)
    → at s.permits h ≡ some p
    → p.consumed ≡ false
    → Later s ((if t then expire b.close h else modify (put_use h p u.effect b.boundary_now)) s).1
unfolding modify
crossed true b u h p s e c = Keeps-expire b.close h s
crossed false b u h p s e c = Later-put_use h p u.effect b.boundary_now s e c

Later-cross :
    (b : Boundary) (u : Use) (h : ℕ) (p : EffectPermit) (s : Gateway)
    → at s.permits h ≡ some p
    → p.consumed ≡ false
    → Later s (cross b u h p s).1
unfolding cross blocked_now
Later-cross b u h p s e c =
    onward (blocked_now b.crossing) _ s (Keeps-blocked_now b.crossing s) (λ blocked _.
      past_then (require (not blocked) (denied kill_switch)) _ (blocked_now b.crossing s).1
        (require_reads _ _ _) (λ _ _. crossed _ b u h p (blocked_now b.crossing s).1 e c))

Later-compare_and_cross :
    (b : Boundary) (u : Use) (h : ℕ) (p : EffectPermit) (s : Gateway)
    → at s.permits h ≡ some p
    → p.consumed ≡ false
    → Later s (compare_and_cross b u h p s).1
unfolding compare_and_cross
Later-compare_and_cross b u h p s e c =
    past_then (policy_of p.action_type) _ s (policy_of_reads _ s) (λ _ _.
      past current_epoch _ s (current_epoch_reads s) (λ current _.
        past_then (require (eqb p.authorization_epoch current) (denied epoch_mismatch)) _ s
          (require_reads _ _ s)
          (λ _ _.
            past (current_policy_binding p.action_type) _ s (current_policy_binding_reads _ s)
              (λ binding _.
                past_then (refuse (check_use u binding p)) _ s (refuse_reads _ s)
                  (λ _ _. Later-cross b u h p s e c)))))

consumed :
    (t : Bool) (b : Boundary) (u : Use) (h : ℕ) (p : EffectPermit) (s : Gateway)
    → at s.permits h ≡ some p
    → p.consumed ≡ false
    → Later s ((if t then expire b.close h else compare_and_cross b u h p) s).1
consumed true b u h p s e c = Keeps-expire b.close h s
consumed false b u h p s e c = Later-compare_and_cross b u h p s e c

Keeps-admitted : (b : Boundary) (u : Use) (h : ℕ) → Keeps (admitted b u h)
unfolding admitted
Keeps-admitted b u h s = past (require_issued h) _ s (require_issued_reads h s) (λ p e.
    past_then (require (not p.consumed) (denied permit_reused)) _ s (require_reads _ _ s) (λ v c.
      let x = require-true (not p.consumed) (denied permit_reused) s v c in
      consumed _ b u h p s (require_issued-IsIssued h s p e).object (ground (arith, x))))

pub Keeps-consume_permit : (b : Boundary) (u : Use) (h : ℕ) → Keeps (consume_permit b u h)
unfolding consume_permit
Keeps-consume_permit b u h = search (keeping, Keeps-blocked_now, Keeps-admitted)
