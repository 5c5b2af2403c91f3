-- ===== src/Gateway/Later/Steps.antt =====
-- The steps that the calls of the gateway are made of only move on.
use wire_agent.Base.{
  ℕ, ◌+◌, String, Bool, true, false, ◌≡◌, refl, sym, ap, subst, inl, inr, Option, none, some, List,
  [], ◌∷◌, ◌++◌, ◌==◌, arith, Bool-cases, Option-cases, length, length-append,
}
use wire_agent.Base.Dict.{Dict, put, pop, get-put, get-pop, put-IsDict, pop-IsDict}
use wire_agent.Base.Heap.{at, set_at, at-set_at_same, at-set_at_other, at-append, length-set_at}
use wire_agent.Effect.Record.{EffectLedgerRecord}
use wire_agent.Approval.Grant.{ApprovalGrant, GrantClaimDenied, is_active}
use wire_agent.Approval.Attempt.{EffectAttempt, AttemptError}
use native.Mathlib.Decide.{ℕ_discrete}
use wire_agent.Policy.{EffectVerb}
use wire_agent.Gateway.Permit.{evict}
use wire_agent.Gateway.Consume.{put_use}
use wire_agent.Gateway.Mint.{issue, bump_epoch, add_at}
use wire_agent.KillSwitch.{HotFile}
use wire_agent.Gateway.State.{
  EffectPermit, Issued, GatewayError, Gateway, Action, ret, throw, require, modify, found, mark,
  ask, Write, append_fact, blocked_now,
}
use wire_agent.Gateway.Later.{
  Later, Core, core, LaterCore, Later_refl, Keeps, KeepsGrants, Later_permits, Later_grants,
  Later_epochs, Later_issued, Later_trans, KeepsPermits, KeepsEpochs, KeepsIssued, terms,
}

pub Later_same : (s t : Gateway) → core t ≡ core s → Later s t
Later_same s t e = subst (λ c. LaterCore (core s) c) (sym e) (Later_refl (core s))

pub Keeps-id : {A : Type 0} (m : Action A) → ((s : Gateway) → core (m s).1 ≡ core s) → Keeps m
Keeps-id m e s = Later_same s (m s).1 (e s)

pub Keeps-ret : {A : Type 0} (a : A) → Keeps (ret a)
Keeps-ret a s = Later_refl (core s)

pub Keeps-throw : (A : Type 0) (e : GatewayError) → Keeps (throw {A = A} e)
Keeps-throw A e s = Later_refl (core s)

pub Keeps-require : (b : Bool) (e : GatewayError) → Keeps (require b e)
unfolding require
Keeps-require true e s = Later_refl (core s)
Keeps-require false e s = Later_refl (core s)

pub Keeps-found : {A : Type 0} (f : Gateway → Option A) (e : GatewayError) → Keeps (found f e)
unfolding found
Keeps-found f e =
    Keeps-id (found f e)
      (λ s. elim (Option-cases (f s)) [ inl q ↦ rw (q, found) | inr (a, q) ↦ rw (q, found) ])

pub Keeps-mark :
    (h : ℕ) (f : EffectAttempt → Option AttemptError × EffectAttempt) → Keeps (mark h f)
unfolding mark
Keeps-mark h f = Keeps-id (mark h f) (λ s. elim (Option-cases (at s.attempts h)) [
  | inl q ↦ rw (q, mark)
  | inr (a, q) ↦ rw (q, mark)
])

pub Keeps-append_fact : (w : Write) (r : EffectLedgerRecord) → Keeps (append_fact w r)
unfolding append_fact
Keeps-append_fact w r s = Later_refl (core s)

pub Keeps-blocked_now : (f : HotFile) → Keeps (blocked_now f)
unfolding blocked_now
Keeps-blocked_now f s = Later_refl (core s)

module _ (f : ApprovalGrant → ApprovalGrant)
    (final : (g : ApprovalGrant) → is_active g.state ≡ false → f g ≡ g) where
  pub KeepsGrants-set :
      (gs : List ApprovalGrant) (h : ℕ) (g : ApprovalGrant)
      → at gs h ≡ some g
      → KeepsGrants gs (set_at gs h (f g))
  KeepsGrants-set gs h g e j k q i = elim (ℕ_discrete h j) [
    | no x ↦ cc (at-set_at_other gs h j (f g) x, q)
    | yes x ↦
        let y : at (set_at gs h (f g)) h ≡ some (f g) = at-set_at_same gs h (f g) g e in
        let z : some g ≡ some k = cc in
        let w : g ≡ k = cc in let v : is_active g.state ≡ false = cc in cc (final g v)
  ]

pub Keeps-ask :
    (f : ApprovalGrant → Option GrantClaimDenied × ApprovalGrant)
    → ((g : ApprovalGrant) → is_active g.state ≡ false → (f g).1 ≡ g)
    → (h : ℕ) → Keeps (ask h f)
unfolding ask
Keeps-ask f final h s = elim (Option-cases (at s.grants h)) [
  | inl q ↦ Later_same s (ask h f s).1 (rw (q, ask))
  | inr (g, q) ↦
      let x : core (ask h f s).1 ≡ core (record s { grants = set_at s.grants h (f g).1 }) =
        rw (q, ask) in
      subst (λ c. LaterCore (core s) c) (sym x)
        (Later_grants (core s) (set_at s.grants h (f g).1)
          (KeepsGrants-set (λ x. (f x).1) final s.grants h g q))
]

KeepsPermits-set :
    (ps : List EffectPermit) (h : ℕ) (p q : EffectPermit)
    → at ps h ≡ some p
    → p.consumed ≡ false
    → terms q ≡ terms p
    → KeepsPermits ps (set_at ps h q)
KeepsPermits-set ps h p q e c t = (
  omega (arith, length-set_at ps h q),
  λ j r d. elim (ℕ_discrete h j) [
    | no x ↦ (r, cc (at-set_at_other ps h j q x, d), refl, λ _. refl)
    | yes x ↦
        let y : at (set_at ps h q) h ≡ some q = at-set_at_same ps h q p e in
        let z : some p ≡ some r = cc in let w : p ≡ r = cc in (q, cc, cc, λ u. absurd (cc))
  ],
)

-- The use of a permit is written once.
pub Later-put_use :
    (h : ℕ) (p : EffectPermit) (v : EffectVerb) (now : ℕ) (s : Gateway)
    → at s.permits h ≡ some p
    → p.consumed ≡ false
    → Later s (put_use h p v now s)
unfolding put_use terms
Later-put_use h p v now s e c =
    let q : EffectPermit = record p {
      consumed = true;
      consumed_effect = some v;
      consumed_at = some now;
    } in
    Later_permits (core s) (set_at s.permits h q) (KeepsPermits-set s.permits h p q e c refl)

pub KeepsPermits-append :
    (ps : List EffectPermit) (p : EffectPermit) → KeepsPermits ps (ps ++ (p ∷ []))
KeepsPermits-append ps p =
    (omega (arith, length-append ps (p ∷ [])), λ j r d. (r, at-append ps j p r d, refl, λ _. refl))

permit_or : ℕ → Option Issued → ℕ
permit_or n none = n
permit_or n (some i) = i.permit

KeepsIssued-put :
    (n : ℕ) (d : Dict Issued) (k : String) (h : ℕ)
    → KeepsIssued n d (put d k (record { permit = n; attempt = h }))
unfolding permit_or
KeepsIssued-put n d k h u = (
  put-IsDict d k (record { permit = n; attempt = h }) u,
  λ j i e l. elim (Bool-cases (k == j)) [
    | inl q ↦
        let x : some (record { permit = n; attempt = h }) ≡ some i =
          ground (arith, get-put d k j (record { permit = n; attempt = h }), q, e) in
        let y : n ≡ i.permit = ap (permit_or n) x in absurd (omega arith)
    | inr q ↦ ground (arith, get-put d k j (record { permit = n; attempt = h }), q, e)
  ],
)

pub Keeps-issue : (p : EffectPermit) (h : ℕ) → Keeps (issue p h)
unfolding issue
Keeps-issue p h s =
    let d : Dict Issued =
      put s.issued p.permit_id (record { permit = length s.permits; attempt = h }) in
    let c : Core = record (core s) { issued = d } in
    Later_trans (core s) c (record c { permits = s.permits ++ (p ∷ []) })
      (Later_issued (core s) d (KeepsIssued-put (length s.permits) s.issued p.permit_id h))
      (Later_permits c (s.permits ++ (p ∷ [])) (KeepsPermits-append s.permits p))

KeepsIssued-pop : (n : ℕ) (d : Dict Issued) (k : String) → KeepsIssued n d (pop d k)
KeepsIssued-pop n d k u = (
  pop-IsDict d k u,
  λ j i e l. elim (Bool-cases (k == j)) [
    | inl q ↦ absurd (ground (arith, get-pop d k j u, q, e))
    | inr q ↦ ground (arith, get-pop d k j u, q, e)
  ],
)

pub Keeps-evict : (p : EffectPermit) → Keeps (modify (evict p))
unfolding evict modify
Keeps-evict p s =
    Later_issued (core s) (pop s.issued p.permit_id)
      (KeepsIssued-pop (length s.permits) s.issued p.permit_id)

KeepsEpochs-add : (h n : ℕ) (es : List ℕ) → KeepsEpochs es (add_at h n es)
unfolding add_at
KeepsEpochs-add h n es j e d = elim (Option-cases (at es h)) [
  | inl q ↦ (e, rw (q, add_at) d, omega arith)
  | inr (f, q) ↦ elim (ℕ_discrete h j) [
    | no x ↦ (e, rw (q, add_at) (cc (at-set_at_other es h j (f + n) x, d)), omega arith)
    | yes x ↦
        let z : some e ≡ some f = cc in
        let w : e ≡ f = cc in
        let y : at (set_at es h (f + n)) h ≡ some (f + n) = at-set_at_same es h (f + n) f q in
        (f + n, rw (q, add_at) (cc), omega arith)
  ]
]

pub Later-bump_epoch : (h n : ℕ) (s : Gateway) → Later s (bump_epoch h n s)
unfolding bump_epoch
Later-bump_epoch h n s = Later_epochs (core s) (add_at h n s.epochs) (KeepsEpochs-add h n s.epochs)
