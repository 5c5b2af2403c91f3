-- ===== src/Gateway/Consume/Exact.antt =====
-- Exactly when `consume_permit` returns.
use wire_agent.Base.{
  ℕ, ◌<◌, Bool, true, false, not, ◌≡◌, refl, ap, ◌∙◌, ◌↔◌, inl, inr, some, leb, arith,
  if◌then◌else◌, Bool-cases,
}
use wire_agent.Base.Results.{Result, ok}
use wire_agent.Base.Heap.{at, at-set_at_same}
use wire_agent.Gateway.State.{
  EffectPermit, kill_switch, permit_reused, GatewayError, denied, Gateway, require, blocked_now,
}
use wire_agent.Gateway.Permit.{require_issued}
use wire_agent.Gateway.Consume.{
  Use, Boundary, put_use, expire, compare_and_cross, admitted, consume_permit,
}
use wire_agent.Gateway.Actions.{
  bind-ok, read_bind, read_then, require_reads, require_issued_reads, require_issued_run, bind-run,
  then-run, require_ok, require_run, IsIssued, require_issued_ok,
}
use wire_agent.Gateway.Consume.Fences.{
  expire_raises, is_blocked, entered, after, Crosses, compare_and_cross_ok, compare_and_cross_run,
}

module _ (b : Boundary) (u : Use) (h : ℕ) (p : EffectPermit) where
  -- When the permit may be used.
  pub record MayUse (s : Gateway) : Type 0 where
    pub issued : IsIssued s h p
    pub unused : p.consumed ≡ false
    pub open_at_entry : is_blocked b.entry s.kill ≡ false
    pub early : b.fast_now < p.expires_at
    pub crosses : Crosses b u h p (entered b s)

  -- The fast path is not taken exactly when the permit is in time.
  late_or : Gateway → Result GatewayError (Unit {0}) × Gateway
  late_or s =
      (if leb p.expires_at b.fast_now then expire b.close h else compare_and_cross b u h p) s

  not_late : (s : Gateway) → b.fast_now < p.expires_at → late_or s ≡ compare_and_cross b u h p s
  unfolding late_or
  not_late s l = let f : leb p.expires_at b.fast_now ≡ false = ground arith in rw f

  late_or_ok :
      (s : Gateway)
      → (late_or s).0 ≡ ok tt
      → (b.fast_now < p.expires_at) × (late_or s ≡ compare_and_cross b u h p s)
  unfolding late_or
  late_or_ok s e = elim (Bool-cases (leb p.expires_at b.fast_now)) [
    | inl t ↦
        let x : late_or s ≡ expire b.close h s = rw t in absurd (expire_raises b.close h s (cc))
    | inr f ↦ (ground arith, rw f)
  ]

  admitted_run :
      (s : Gateway)
      → IsIssued s h p
      → p.consumed ≡ false
      → b.fast_now < p.expires_at
      → Crosses b u h p s
      → admitted b u h s ≡ (ok tt, after b u h p s)
  unfolding admitted late_or
  admitted_run s i n l c =
      bind-run (require_issued h) _ s s p (require_issued_run h s p i)
      ∙ then-run (require (not p.consumed) (denied permit_reused)) _ s s tt
          (require_run _ _ s (ground (arith, n)))
      ∙ not_late s l
      ∙ compare_and_cross_run b u h p s c

admitted_ok :
    (b : Boundary) (u : Use) (h : ℕ) (s : Gateway)
    → (admitted b u h s).0 ≡ ok tt
    → (p : EffectPermit) × IsIssued s h p
      × (p.consumed ≡ false)
      × (b.fast_now < p.expires_at)
      × Crosses b u h p s
      × ((admitted b u h s).1 ≡ after b u h p s)
unfolding admitted late_or
admitted_ok b u h s e =
    let (p, i, e1, v) = read_bind (require_issued h) _ s tt (require_issued_reads h s) e in
    let (_, j, e2, w) =
      read_then (require (not p.consumed) (denied permit_reused)) _ s tt (require_reads _ _ s) e1 in
    let (t, x) = late_or_ok b u h p s e2 in
    let (c, f) = compare_and_cross_ok b u h p s (cc) in
    (
      p,
      (require_issued_ok h s s p i).0,
      ground (arith, require_ok (not p.consumed) (denied permit_reused) s s tt j),
      t,
      c,
      cc (v, w, x, f),
    )

looks_open :
    (b : Boundary) (s : Gateway)
    → is_blocked b.entry s.kill ≡ false
    → blocked_now b.entry s ≡ (ok false, entered b s)
unfolding blocked_now
looks_open b s e = ground (arith, e)

looked_ok :
    (b : Boundary) (s : Gateway) (t : Bool) (r : Gateway)
    → blocked_now b.entry s ≡ (ok t, r)
    → (t ≡ is_blocked b.entry s.kill) × (r ≡ entered b s)
unfolding blocked_now
looked_ok b s t r e = (ground (arith, e), ground (arith, e))

kept_issue :
    (b : Boundary) (s : Gateway) (h : ℕ) (p : EffectPermit)
    → IsIssued s h p ↔ IsIssued (entered b s) h p
kept_issue b s h p = (
  λ i. record { entry = i.entry; object = i.object; listed = i.listed; same = i.same },
  λ i. record { entry = i.entry; object = i.object; listed = i.listed; same = i.same },
)

pub consume_permit_run :
    (b : Boundary) (u : Use) (h : ℕ) (p : EffectPermit) (s : Gateway)
    → MayUse b u h p s
    → consume_permit b u h s ≡ (ok tt, after b u h p (entered b s))
unfolding consume_permit
consume_permit_run b u h p s m =
    bind-run (blocked_now b.entry) _ s (entered b s) false (looks_open b s m.open_at_entry)
    ∙ then-run (require true (denied kill_switch)) _ (entered b s) (entered b s) tt
        (require_run true _ (entered b s) refl)
    ∙ admitted_run b u h p (entered b s) ((kept_issue b s h p).0 m.issued) m.unused m.early
        m.crosses

pub consume_permit_ok :
    (b : Boundary) (u : Use) (h : ℕ) (s : Gateway)
    → (consume_permit b u h s).0 ≡ ok tt
    → (p : EffectPermit) × MayUse b u h p s
unfolding consume_permit
consume_permit_ok b u h s e =
    let (t, i, e1) = bind-ok (blocked_now b.entry) _ s tt e in
    let (o, x) = looked_ok b s t (blocked_now b.entry s).1 i in
    let (_, j, e2, w) =
      read_then (require (not t) (denied kill_switch)) _ (blocked_now b.entry s).1 tt
        (require_reads _ _ _) e1 in
    let (p, y, n, l, c, _) = admitted_ok b u h (entered b s) (cc) in
    (
      p,
      record {
        issued = (kept_issue b s h p).1 y;
        unused = n;
        open_at_entry = ground (
          arith,
          o,
          require_ok (not t) (denied kill_switch) (blocked_now b.entry s).1
              (blocked_now b.entry s).1 tt j,
        );
        early = l;
        crosses = c;
      },
    )

-- The permit once it is used.
abbrev pub used : Boundary → Use → EffectPermit → EffectPermit
used b u p = record p {
  consumed = true;
  consumed_effect = some u.effect;
  consumed_at = some b.boundary_now;
}

pub consume_permit_used :
    (b : Boundary) (u : Use) (h : ℕ) (p : EffectPermit) (s : Gateway)
    → MayUse b u h p s
    → at (consume_permit b u h s).1.permits h ≡ some (used b u p)
unfolding put_use
consume_permit_used b u h p s m =
    ap (λ z. at z.1.permits h) (consume_permit_run b u h p s m)
    ∙ at-set_at_same s.permits h (used b u p) p m.issued.object

-- consume_permit returns if and only if some permit is the one issued under its id and unused,
-- the kill switch lets it pass at both looks, both readings of the clock are before its deadline,
-- its epoch is the current one, its binding is that of the registered policy, and what is
-- presented agrees with it in binding, intent, actor and target and is one of its effects; and
-- whenever that is so, the permit is afterwards marked with the effect and the second reading of
-- the clock.
pub consume_permit_exact :
    (b : Boundary) (u : Use) (h : ℕ) (s : Gateway)
    → (((consume_permit b u h s).0 ≡ ok tt) ↔ ((p : EffectPermit) × MayUse b u h p s))
      × ((p : EffectPermit)
          → MayUse b u h p s
          → at (consume_permit b u h s).1.permits h ≡ some (used b u p))
consume_permit_exact b u h s = (
  (consume_permit_ok b u h s, λ (p, m). ap (λ z. z.0) (consume_permit_run b u h p s m)),
  λ p m. consume_permit_used b u h p s m,
)
