-- ===== src/Gateway/Once.antt =====
-- What holds of a permit over any life of its gateway: it is consumed at most once, not after its
-- closure, and not after a bump of the epoch.
use wire_agent.Base.{
  ℕ, ◌+◌, ◌≤◌, ◌<◌, true, ◌≡◌, refl, sym, ap, subst, ◌≢◌, inl, inr, some, List, [], ◌∷◌, ◌++◌,
  arith, Bool-cases, Option-cases, eqb_iff,
}
use wire_agent.Base.Results.{ok, Result-cases}
use wire_agent.Base.Dict.{get, IsDict}
use wire_agent.Base.Heap.{at, set_at, at-append, at-length, at-set_at_same}
use wire_agent.Approval.Grant.{ApprovalGrant}
use wire_agent.Approval.Grant.Spend.{Operation as GrantOperation, step as grant_step, step_final}
use wire_agent.Gateway.State.{EffectPermit, Issued, Gateway}
use wire_agent.Gateway.Consume.{Use, Boundary, consume_permit}
use wire_agent.Gateway.Consume.Exact.{MayUse, used, consume_permit_exact}
use wire_agent.Gateway.Run.{
  Operation, authorizing, consuming, closing, confirming, losing, settling, asking, bumping,
  granting, forging, opening, disturbing, ask_grant, step, consumes, consumptions,
}
use wire_agent.Gateway.Mint.{bump_epoch, add_at}
use wire_agent.Gateway.Later.{
  Later, LaterCore, core, Later_refl, Later-Follows, Follows, Later_permits, Later_grants,
  Later_epochs, terms,
}
use wire_agent.Gateway.Later.Steps.{
  Later_same, Later-bump_epoch, KeepsGrants-set, KeepsPermits-append,
}
use wire_agent.Gateway.Later.Calls.{
  Keeps-close_unconsumed_permit_no_effect, Keeps-record_effect_confirmed,
  Keeps-record_effect_unknown,
}
use wire_agent.Gateway.Later.Crossing.{Keeps-consume_permit}
use wire_agent.Gateway.Later.Authorizing.{Keeps-authorize_commit}
use wire_agent.Gateway.Later.Owners.{Keeps-settle_dead_owner}

abbrev IsQuiet : Operation → Type 0
IsQuiet (disturbing f k r a l) = ⊥
IsQuiet (authorizing i) = Unit
IsQuiet (consuming b u h) = Unit
IsQuiet (closing w r h) = Unit
IsQuiet (confirming w v h a) = Unit
IsQuiet (losing w v h a) = Unit
IsQuiet (settling t e) = Unit
IsQuiet (asking h o) = Unit
IsQuiet (bumping h) = Unit
IsQuiet (granting g) = Unit
IsQuiet (forging p) = Unit
IsQuiet (opening e) = Unit

Later-ask_grant : (h : ℕ) (o : GrantOperation) (s : Gateway) → Later s (ask_grant h o s)
unfolding ask_grant
Later-ask_grant h o s = elim (Option-cases (at s.grants h)) [
  | inl q ↦ Later_same s (ask_grant h o s) (rw (q, ask_grant))
  | inr (g, q) ↦
      let f : ApprovalGrant → ApprovalGrant = λ x. (grant_step o x).1 in
      let x : core (ask_grant h o s) ≡ core (record s { grants = set_at s.grants h (f g) }) =
        rw (q, ask_grant) in
      subst (λ c. LaterCore (core s) c) (sym x)
        (Later_grants (core s) (set_at s.grants h (f g))
          (KeepsGrants-set f (λ k i. (step_final o k i).1) s.grants h g q))
]

Later-step : (o : Operation) (s : Gateway) → IsQuiet o → Later s (step o s)
unfolding step
Later-step (authorizing i) s n = Keeps-authorize_commit i s
Later-step (consuming b u h) s n = Keeps-consume_permit b u h s
Later-step (closing w r h) s n = Keeps-close_unconsumed_permit_no_effect w r h s
Later-step (confirming w v h a) s n = Keeps-record_effect_confirmed w v h a s
Later-step (losing w v h a) s n = Keeps-record_effect_unknown w v h a s
Later-step (settling t e) s n = Keeps-settle_dead_owner t e s
Later-step (asking h o) s n = Later-ask_grant h o s
Later-step (bumping h) s n = Later-bump_epoch h 1 s
Later-step (granting g) s n =
    Later_grants (core s) (s.grants ++ (g ∷ [])) (λ h k e _. at-append s.grants h g k e)
Later-step (forging p) s n =
    Later_permits (core s) (s.permits ++ (p ∷ [])) (KeepsPermits-append s.permits p)
Later-step (opening e) s n =
    Later_epochs (core s) (s.epochs ++ (e ∷ []))
      (λ h f q. (f, at-append s.epochs h e f q, omega arith))
Later-step (disturbing f k r a l) s n = absurd n

-- A step of the gateway's life moves on.
pub step-Follows : (o : Operation) (s : Gateway) → Follows s (step o s)
unfolding step
step-Follows (disturbing f k r a l) s = Later_refl (core s)
step-Follows (authorizing i) s =
    Later-Follows s (step (authorizing i) s) (Later-step (authorizing i) s tt)
step-Follows (consuming b u h) s =
    Later-Follows s (step (consuming b u h) s) (Later-step (consuming b u h) s tt)
step-Follows (closing w r h) s =
    Later-Follows s (step (closing w r h) s) (Later-step (closing w r h) s tt)
step-Follows (confirming w v h a) s =
    Later-Follows s (step (confirming w v h a) s) (Later-step (confirming w v h a) s tt)
step-Follows (losing w v h a) s =
    Later-Follows s (step (losing w v h a) s) (Later-step (losing w v h a) s tt)
step-Follows (settling t e) s =
    Later-Follows s (step (settling t e) s) (Later-step (settling t e) s tt)
step-Follows (asking h o) s = Later-Follows s (step (asking h o) s) (Later-step (asking h o) s tt)
step-Follows (bumping h) s = Later-Follows s (step (bumping h) s) (Later-step (bumping h) s tt)
step-Follows (granting g) s = Later-Follows s (step (granting g) s) (Later-step (granting g) s tt)
step-Follows (forging p) s = Later-Follows s (step (forging p) s) (Later-step (forging p) s tt)
step-Follows (opening e) s = Later-Follows s (step (opening e) s) (Later-step (opening e) s tt)

-- A step that consumes a permit consumes one that may be used, and it is consumed afterwards.
pub record Consumes (h : ℕ) (o : Operation) (s : Gateway) : Type 0 where
  pub boundary : Boundary
  pub use_of : Use
  pub permit : EffectPermit
  pub allowed : MayUse boundary use_of h permit s
  pub used : EffectPermit
  pub stored : at (step o s).permits h ≡ some used
  pub consumed : used.consumed ≡ true

consuming-Consumes :
    (h : ℕ) (b : Boundary) (u : Use) (s : Gateway)
    → (consume_permit b u h s).0 ≡ ok tt
    → Consumes h (consuming b u h) s
unfolding step
consuming-Consumes h b u s e =
    let (p, m) = (consume_permit_exact b u h s).0.0 e in
    let x = (consume_permit_exact b u h s).1 p m in
    record {
      boundary = b;
      use_of = u;
      permit = p;
      allowed = m;
      used = used b u p;
      stored = x;
      consumed = refl;
    }

consumes-Consumes : (h : ℕ) (o : Operation) (s : Gateway) → consumes h o s ≡ true → Consumes h o s
unfolding consumes
consumes-Consumes h (consuming b u j) s e = elim (Result-cases (consume_permit b u j s).0) [
  | inl (t, q) ↦
      let k : j ≡ h = ground (arith, e, eqb_iff j h) in
      subst (λ i. Consumes i (consuming b u j) s) k (consuming-Consumes j b u s q)
  | inr (x, q) ↦ absurd (ground (arith, e, q))
]
consumes-Consumes h (authorizing i) s e = absurd (cc)
consumes-Consumes h (closing w r j) s e = absurd (cc)
consumes-Consumes h (confirming w v j a) s e = absurd (cc)
consumes-Consumes h (losing w v j a) s e = absurd (cc)
consumes-Consumes h (settling t i) s e = absurd (cc)
consumes-Consumes h (asking j o) s e = absurd (cc)
consumes-Consumes h (bumping j) s e = absurd (cc)
consumes-Consumes h (granting g) s e = absurd (cc)
consumes-Consumes h (forging p) s e = absurd (cc)
consumes-Consumes h (opening i) s e = absurd (cc)
consumes-Consumes h (disturbing f k r a l) s e = absurd (cc)

-- Where nothing may ever consume the permit, nothing does.
never :
    (Safe : Gateway → Type 0) (h : ℕ)
    → ((s : Gateway) (o : Operation) → Safe s → Safe (step o s))
    → ((s : Gateway) (o : Operation) → Safe s → ¬ Consumes h o s)
    → (os : List Operation) (s : Gateway) → Safe s
    → consumptions h os s ≡ 0
unfolding consumptions
never Safe h keep barred [] s i = refl
never Safe h keep barred (o ∷ os) s i = elim (Bool-cases (consumes h o s)) [
  | inl e ↦ absurd (barred s o i (consumes-Consumes h o s e))
  | inr e ↦ ground (arith, e, never Safe h keep barred os (step o s) (keep s o i))
]

-- A consumed permit is not consumed again.
abbrev IsConsumed : ℕ → Gateway → Type 0
IsConsumed h s = (p : EffectPermit) × (at s.permits h ≡ some p) × (p.consumed ≡ true)

consumed_final :
    (h : ℕ) (os : List Operation) (s : Gateway) → IsConsumed h s → consumptions h os s ≡ 0
consumed_final h =
    never (IsConsumed h) h
      (λ s o (p, e, c). let (q, f, t, k) = (step-Follows o s).permits.1 h p e in (q, f, cc (k c)))
      (λ s o (p, e, c) x.
        let f = x.allowed.issued.object in let n = x.allowed.unused in absurd (cc))

-- Over any sequence of the calls of the gateway, of calls on approvals, epoch bumps, new
-- approvals, new epochs and new permit objects, and of changes of the ledger, the kill switch,
-- the policies, the attempts and the live owners by others, from any state, a permit object is
-- consumed at most once.
pub consumptions-le-one : (os : List Operation) (s : Gateway) (h : ℕ) → consumptions h os s ≤ 1
unfolding consumptions
consumptions-le-one [] s h = omega arith
consumptions-le-one (o ∷ os) s h = elim (Bool-cases (consumes h o s)) [
  | inl e ↦
      let x = consumes-Consumes h o s e in
      ground (arith, e, consumed_final h os (step o s) (x.used, x.stored, x.consumed))
  | inr e ↦ ground (arith, e, consumptions-le-one os (step o s) h)
]

-- The object is not the one that is issued under its id.
abbrev pub IsRetired : ℕ → Gateway → Type 0
IsRetired h s =
    (p : EffectPermit) × (at s.permits h ≡ some p)
    × IsDict s.issued
    × ((i : Issued) → get s.issued p.permit_id ≡ some i → i.permit ≢ h)

IsRetired-stays : (h : ℕ) (s : Gateway) (o : Operation) → IsRetired h s → IsRetired h (step o s)
unfolding terms
IsRetired-stays h s o (p, e, d, n) =
    let l = step-Follows o s in
    let (q, f, t, k) = l.permits.1 h p e in
    let id : q.permit_id ≡ p.permit_id = ap (λ x. x.permit_id) t in
    let (d', w) = l.issued d in
    (
      q,
      f,
      d',
      λ i g y.
          n i
            (subst (λ x. get s.issued x ≡ some i) id
              (w q.permit_id i g (omega (arith, at-length s.permits h p e))))
            y,
    )

pub retired_final :
    (h : ℕ) (os : List Operation) (s : Gateway) → IsRetired h s → consumptions h os s ≡ 0
retired_final h = never (IsRetired h) h (IsRetired-stays h) (λ s o (p, e, d, n) x.
    let i = x.allowed.issued in
    let f : some x.permit ≡ some p = cc (i.object, e) in
    let g : x.permit ≡ p = cc in n i.entry (cc (i.listed, g)) i.same)

-- The permit is of an epoch before the current one.
abbrev pub IsRevoked : ℕ → Gateway → Type 0
IsRevoked h s =
    (p : EffectPermit) × (e : ℕ) × (at s.permits h ≡ some p)
    × (at s.epochs s.epoch ≡ some e)
    × (p.authorization_epoch < e)

IsRevoked-stays : (h : ℕ) (s : Gateway) (o : Operation) → IsRevoked h s → IsRevoked h (step o s)
unfolding terms
IsRevoked-stays h s o (p, e, f, g, l) =
    let m = step-Follows o s in
    let (q, i, t, k) = m.permits.1 h p f in
    let (n, j, b) = m.epochs s.epoch e g in
    let a : q.authorization_epoch ≡ p.authorization_epoch = ap (λ x. x.authorization_epoch) t in
    (q, n, i, cc (j, m.epoch), omega arith)

pub revoked_final :
    (h : ℕ) (os : List Operation) (s : Gateway) → IsRevoked h s → consumptions h os s ≡ 0
revoked_final h = never (IsRevoked h) h (IsRevoked-stays h) (λ s o (p, e, f, g, l) x.
    let c = x.allowed.crosses.epoch in
    let i = x.allowed.issued.object in
    let y : some x.permit ≡ some p = cc (i, f) in
    let z : x.permit ≡ p = cc in
    let v : some e ≡ some x.permit.authorization_epoch = cc (g, c) in
    let u : e ≡ p.authorization_epoch = cc in omega arith)

-- Once the epoch of the gateway is bumped, a permit that carries the epoch of before the bump or
-- an earlier one is never consumed, whatever follows.
pub bump_revokes :
    (s : Gateway) (h e : ℕ) (p : EffectPermit) (os : List Operation)
    → at s.permits h ≡ some p
    → at s.epochs s.epoch ≡ some e
    → p.authorization_epoch ≤ e
    → consumptions h os (step (bumping s.epoch) s) ≡ 0
unfolding step bump_epoch add_at
bump_revokes s h e p os f g l =
    revoked_final h os (step (bumping s.epoch) s)
      (p, e + 1, f, rw (g, add_at) (at-set_at_same s.epochs s.epoch (e + 1) e g), omega arith)
