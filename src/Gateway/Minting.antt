-- ===== src/Gateway/Minting.antt =====
-- An approval yields at most one permit, over any life of the gateway.
use wire_agent.Base.{
  ℕ, ◌≤◌, true, false, ◌≡◌, refl, subst, inl, inr, some, List, [], ◌∷◌, arith, Bool-cases, eqb_iff,
}
use wire_agent.Base.Results.{ok, Result-cases}
use wire_agent.Base.Heap.{at}
use wire_agent.Approval.Grant.{ApprovalGrant, is_active}
use wire_agent.Gateway.State.{Gateway}
use wire_agent.Gateway.Authorize.{authorize_commit}
use wire_agent.Gateway.Mint.{Authorization}
use wire_agent.Gateway.Commit.Whole.{authorize_commit-Authorized}
use wire_agent.Gateway.Run.{
  Operation, authorizing, consuming, closing, confirming, losing, settling, asking, bumping,
  granting, forging, opening, disturbing, step, mints, mintings,
}
use wire_agent.Gateway.Once.{step-Follows}

-- The approval was active, and is not any more.
record Mints (h : ℕ) (s t : Gateway) : Type 0 where
  grant : ApprovalGrant
  was_active : (g : ApprovalGrant) → at s.grants h ≡ some g → is_active g.state ≡ true
  now : at t.grants h ≡ some grant
  inactive : is_active grant.state ≡ false

authorizing-Mints :
    (i : Authorization) (s : Gateway) (p : ℕ)
    → (authorize_commit i s).0 ≡ ok p
    → Mints i.grant s (step (authorizing i) s)
unfolding step
authorizing-Mints i s p e =
    let a = authorize_commit-Authorized i s p e in
    record { grant = _; was_active = a.was_active; now = a.spent_now; inactive = refl }

mints-Mints : (h : ℕ) (o : Operation) (s : Gateway) → mints h o s ≡ true → Mints h s (step o s)
unfolding mints
mints-Mints h (authorizing i) s e = elim (Result-cases (authorize_commit i s).0) [
  | inl (p, q) ↦
      let k : i.grant ≡ h = ground (arith, e, eqb_iff i.grant h) in
      subst (λ j. Mints j s (step (authorizing i) s)) k (authorizing-Mints i s p q)
  | inr (x, q) ↦ absurd (ground (arith, e, q))
]
mints-Mints h (consuming b u j) s e = absurd (cc)
mints-Mints h (closing w r j) s e = absurd (cc)
mints-Mints h (confirming w v j a) s e = absurd (cc)
mints-Mints h (losing w v j a) s e = absurd (cc)
mints-Mints h (settling t i) s e = absurd (cc)
mints-Mints h (asking j o) s e = absurd (cc)
mints-Mints h (bumping j) s e = absurd (cc)
mints-Mints h (granting g) s e = absurd (cc)
mints-Mints h (forging p) s e = absurd (cc)
mints-Mints h (opening i) s e = absurd (cc)
mints-Mints h (disturbing f k r a l) s e = absurd (cc)

-- An approval that is not active yields no permit any more.
mintings_final :
    (os : List Operation) (s : Gateway) (h : ℕ) (g : ApprovalGrant)
    → at s.grants h ≡ some g
    → is_active g.state ≡ false
    → mintings h os s ≡ 0
unfolding mintings
mintings_final [] s h g e n = refl
mintings_final (o ∷ os) s h g e n = elim (Bool-cases (mints h o s)) [
  | inl x ↦ let a = (mints-Mints h o s x).was_active g e in absurd (cc)
  | inr x ↦
      ground (arith, x, mintings_final os (step o s) h g ((step-Follows o s).grants h g e n) n)
]

-- Over any sequence of the calls of the gateway and of what others may do in between, calls on
-- approvals, epoch bumps and new objects included, from any state, authorize_commit returns a
-- permit at most once for an approval object.
pub mintings-le-one : (os : List Operation) (s : Gateway) (h : ℕ) → mintings h os s ≤ 1
unfolding mintings
mintings-le-one [] s h = omega arith
mintings-le-one (o ∷ os) s h = elim (Bool-cases (mints h o s)) [
  | inl x ↦
      let m = mints-Mints h o s x in
      ground (arith, x, mintings_final os (step o s) h m.grant m.now m.inactive)
  | inr x ↦ ground (arith, x, mintings-le-one os (step o s) h)
]
