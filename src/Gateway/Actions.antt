-- ===== src/Gateway/Actions.antt =====
-- How an action that returns came to return.
use wire_agent.Base.{
  ℕ, String, Bool, true, false, ◌≡◌, refl, ap, inl, inr, Option, none, some, arith, Option-cases,
}
use wire_agent.Base.Results.{Result, ok, err}
use wire_agent.Base.Dict.{get}
use wire_agent.Base.Heap.{at}
use native.Mathlib.Decide.{ℕ_discrete}
use wire_agent.Policy.{EffectPolicy, policy_fence}
use wire_agent.Gateway.State.{
  EffectPermit, Issued, GatewayDenied, GatewayError, Gateway, Action, and_then, ◌>>=◌, ◌>>◌,
  require, found, permit_of,
}
use wire_agent.Gateway.Retire.{epoch_at, current_epoch}
use wire_agent.Gateway.Permit.{
  policy_of, binding_of, current_policy_binding, check_issued, require_issued,
}
use wire_agent.Gateway.Consume.{refuse}

module _ {A B : Type 0} where
  and_then-ok :
      (x : Result GatewayError A × Gateway) (k : A → Action B) (b : B)
      → (and_then x k).0 ≡ ok b
      → (a : A) × (x ≡ (ok a, x.1)) × ((k a x.1).0 ≡ ok b)
  and_then-ok (ok a, t) k b h = (a, refl, h)
  and_then-ok (err e, t) k b h = absurd (cc)

  pub bind-ok :
      (m : Action A) (k : A → Action B) (s : Gateway) (b : B)
      → ((m >>= k) s).0 ≡ ok b
      → (a : A) × (m s ≡ (ok a, (m s).1)) × ((k a (m s).1).0 ≡ ok b)
  unfolding ◌>>=◌
  bind-ok m k s b h = and_then-ok (m s) k b h

  pub then-ok :
      (m : Action A) (k : Action B) (s : Gateway) (b : B)
      → ((m >> k) s).0 ≡ ok b
      → (a : A) × (m s ≡ (ok a, (m s).1)) × ((k (m s).1).0 ≡ ok b)
  unfolding ◌>>◌
  then-ok m k s b h = and_then-ok (m s) (λ _. k) b h

  pub bind-run :
      (m : Action A) (k : A → Action B) (s t : Gateway) (a : A)
      → m s ≡ (ok a, t)
      → (m >>= k) s ≡ k a t
  unfolding ◌>>=◌
  bind-run m k s t a h = rw h

  pub then-run :
      (m : Action A) (k : Action B) (s t : Gateway) (a : A) → m s ≡ (ok a, t) → (m >> k) s ≡ k t
  unfolding ◌>>◌
  then-run m k s t a h = rw h

-- The same, with what is left to do.
module _ {A B : Type 0} where
  pub bind_on :
      (m : Action A) (k : A → Action B) (s : Gateway) (b : B)
      → ((m >>= k) s).0 ≡ ok b
      → (a : A) × (m s ≡ (ok a, (m s).1)) × ((k a (m s).1).0 ≡ ok b) × ((m >>= k) s ≡ k a (m s).1)
  bind_on m k s b h = let (a, e, f) = bind-ok m k s b h in (a, e, f, bind-run m k s (m s).1 a e)

  pub then_on :
      (m : Action A) (k : Action B) (s : Gateway) (b : B)
      → ((m >> k) s).0 ≡ ok b
      → (a : A) × (m s ≡ (ok a, (m s).1)) × ((k (m s).1).0 ≡ ok b) × ((m >> k) s ≡ k (m s).1)
  then_on m k s b h = let (a, e, f) = then-ok m k s b h in (a, e, f, then-run m k s (m s).1 a e)

-- The same for actions that only read.
module _ {A B : Type 0} where
  read_and_then :
      (x : Result GatewayError A × Gateway) (k : A → Action B) (s : Gateway) (b : B)
      → x.1 ≡ s
      → (and_then x k).0 ≡ ok b
      → (a : A) × (x ≡ (ok a, s)) × ((k a s).0 ≡ ok b) × (and_then x k ≡ k a s)
  read_and_then (ok a, t) k s b e h = (a, cc, cc, cc)
  read_and_then (err d, t) k s b e h = absurd (cc)

  pub read_bind :
      (m : Action A) (k : A → Action B) (s : Gateway) (b : B)
      → (m s).1 ≡ s
      → ((m >>= k) s).0 ≡ ok b
      → (a : A) × (m s ≡ (ok a, s)) × ((k a s).0 ≡ ok b) × ((m >>= k) s ≡ k a s)
  unfolding ◌>>=◌
  read_bind m k s b e h = read_and_then (m s) k s b e h

  pub read_then :
      (m : Action A) (k : Action B) (s : Gateway) (b : B)
      → (m s).1 ≡ s
      → ((m >> k) s).0 ≡ ok b
      → (a : A) × (m s ≡ (ok a, s)) × ((k s).0 ≡ ok b) × ((m >> k) s ≡ k s)
  unfolding ◌>>◌
  read_then m k s b e h = read_and_then (m s) (λ _. k) s b e h

pub policy_of_reads : (a : String) (s : Gateway) → (policy_of a s).1 ≡ s
unfolding policy_of
policy_of_reads a s = ground arith

pub current_policy_binding_reads : (a : String) (s : Gateway) → (current_policy_binding a s).1 ≡ s
unfolding current_policy_binding binding_of policy_of ◌>>=◌
current_policy_binding_reads a s = ground arith

pub current_epoch_reads : (s : Gateway) → (current_epoch s).1 ≡ s
unfolding current_epoch epoch_at found
current_epoch_reads s = ground arith

pub require_reads : (b : Bool) (e : GatewayError) (s : Gateway) → (require b e s).1 ≡ s
unfolding require
require_reads b e s = ground arith

pub refuse_reads : (d : Option GatewayDenied) (s : Gateway) → (refuse d s).1 ≡ s
unfolding refuse
refuse_reads d s = ground arith

pub require_issued_reads : (h : ℕ) (s : Gateway) → (require_issued h s).1 ≡ s
unfolding require_issued check_issued permit_of found ◌>>=◌
require_issued_reads h s = ground arith

pub require-true :
    (b : Bool) (e : GatewayError) (s : Gateway) (v : Unit {0}) → (require b e s).0 ≡ ok v → b ≡ true
unfolding require
require-true b e s v h = ground (arith, h)

pub require_ok :
    (b : Bool) (e : GatewayError) (s t : Gateway) (v : Unit {0})
    → require b e s ≡ (ok v, t)
    → (b ≡ true) × (t ≡ s)
unfolding require
require_ok true e s t v h = (refl, cc)
require_ok false e s t v h = absurd (cc)

pub require_run :
    (b : Bool) (e : GatewayError) (s : Gateway) → b ≡ true → require b e s ≡ (ok tt, s)
unfolding require
require_run b e s h = rw h

pub refuse_ok :
    (d : Option GatewayDenied) (s t : Gateway) (v : Unit {0})
    → refuse d s ≡ (ok v, t)
    → (d ≡ none) × (t ≡ s)
unfolding refuse
refuse_ok none s t v h = (refl, cc)
refuse_ok (some d) s t v h = absurd (cc)

pub policy_of_ok :
    (a : String) (s t : Gateway) (p : EffectPolicy)
    → policy_of a s ≡ (ok p, t)
    → (policy_fence a s.policies ≡ ok p) × (t ≡ s)
unfolding policy_of
policy_of_ok a s t p h = ground (arith, h)

pub current_epoch_ok :
    (s t : Gateway) (e : ℕ) → current_epoch s ≡ (ok e, t) → (at s.epochs s.epoch ≡ some e) × (t ≡ s)
unfolding current_epoch epoch_at found
current_epoch_ok s t e h = ground (arith, h)

pub current_policy_binding_ok :
    (a : String) (s t : Gateway) (b : String)
    → current_policy_binding a s ≡ (ok b, t)
    → ((p : EffectPolicy) × (policy_fence a s.policies ≡ ok p) × (s.binding_hash p ≡ b)) × (t ≡ s)
unfolding current_policy_binding binding_of policy_of ◌>>=◌
current_policy_binding_ok a s t b h =
    let (p, e, f) = bind-ok (policy_of a) binding_of s b (ap (λ x. x.0) h) in
    let (g, r) = policy_of_ok a s (policy_of a s).1 p e in ((p, g, cc), ground (arith, h))

-- The object is the one that is issued under its id.
pub record IsIssued (s : Gateway) (h : ℕ) (p : EffectPermit) : Type 0 where
  pub entry : Issued
  pub object : at s.permits h ≡ some p
  pub listed : get s.issued p.permit_id ≡ some entry
  pub same : entry.permit ≡ h

pub require_issued_ok :
    (h : ℕ) (s t : Gateway) (p : EffectPermit)
    → require_issued h s ≡ (ok p, t)
    → IsIssued s h p × (t ≡ s)
unfolding require_issued check_issued permit_of found ◌>>=◌
require_issued_ok h s t p e = elim (Option-cases (at s.permits h)) [
  | inl q ↦ absurd (ground (arith, q, e))
  | inr (o, q) ↦ elim (Option-cases (get s.issued o.permit_id)) [
    | inl i ↦ absurd (ground (arith, q, i, e))
    | inr (i, j) ↦ elim (ℕ_discrete i.permit h) [
      | no n ↦ absurd (ground (arith, q, j, n, e))
      | yes y ↦
          let x : o ≡ p = ground (arith, q, j, y, e) in
          (record { entry = i; object = cc; listed = cc; same = y }, ground (arith, q, j, y, e))
    ]
  ]
]

pub require_issued-IsIssued :
    (h : ℕ) (s : Gateway) (p : EffectPermit) → (require_issued h s).0 ≡ ok p → IsIssued s h p
require_issued-IsIssued h s p e = (require_issued_ok h s (require_issued h s).1 p (cc)).0

pub require_issued_run :
    (h : ℕ) (s : Gateway) (p : EffectPermit) → IsIssued s h p → require_issued h s ≡ (ok p, s)
unfolding require_issued check_issued permit_of found ◌>>=◌
require_issued_run h s p i = ground (arith, i.object, i.listed, i.same)
