-- ===== src/Approval/Grant/Spend.antt =====
-- The calls on an approval in any order, and how often one can be spent.
use wire_agent.Base.{
  ℕ, suc, ◌≤◌, String, Bool, true, false, ◌&&◌, ◌≡◌, refl, inl, inr, Option, none, some, List, [],
  ◌∷◌, arith, if◌then◌else◌, Bool-cases, Option-cases, ◌≢◌,
}
use wire_agent.Approval.Grant.Live.{validate_live_refuses}
use wire_agent.Approval.Grant.{
  is_active, GrantClaimDenied, ApprovalGrantError, denied, ApprovalGrant, Presented, validate_live,
  spend_if_live, claim, release_claim, spend, revoke,
}

-- The calls on an approval.
pub data Operation : Type 0 where
  validating spending_if_live : Presented → ℕ → Operation
  claiming : String → Presented → ℕ → Operation
  releasing : String → Operation
  spending revoking : Operation

abbrev pub lift :
    Option GrantClaimDenied × ApprovalGrant → Option ApprovalGrantError × ApprovalGrant
lift (none, g) = (none, g)
lift (some e, g) = (some (denied e), g)

unfoldable pub step : Operation → ApprovalGrant → Option ApprovalGrantError × ApprovalGrant
step (validating b now) g = lift (validate_live b now g)
step (spending_if_live b now) g = lift (spend_if_live b now g)
step (claiming a b now) g = lift (claim a b now g)
step (releasing a) g = release_claim a g
step spending g = spend g
step revoking g = revoke g

unfoldable pub run : List Operation → ApprovalGrant → ApprovalGrant
run [] g = g
run (o ∷ os) g = run os (step o g).1

-- The operation spends the approval if it raises nothing.
abbrev pub is_spending : Operation → Bool
is_spending (validating b now) = false
is_spending (spending_if_live b now) = true
is_spending (claiming a b now) = false
is_spending (releasing a) = false
is_spending spending = true
is_spending revoking = false

abbrev pub succeeded : Option ApprovalGrantError → Bool
succeeded none = true
succeeded (some e) = false

-- How many of the operations spend the approval.
unfoldable pub spends : List Operation → ApprovalGrant → ℕ
spends [] g = 0
spends (o ∷ os) g =
    let (e, g') = step o g in
    let rest = spends os g' in if is_spending o && succeeded e then suc rest else rest

-- An operation on an approval that is not active fails and changes nothing.
pub step_final :
    (o : Operation) (g : ApprovalGrant)
    → is_active g.state ≡ false
    → ((step o g).0 ≢ none) × ((step o g).1 ≡ g)
unfolding step spend_if_live claim release_claim spend revoke
step_final (validating b now) g i =
    let (e, h) = validate_live_refuses b now g i in rw h (λ n. cc, refl)
step_final (spending_if_live b now) g i =
    let (e, h) = validate_live_refuses b now g i in ground (arith, h)
step_final (claiming a b now) g i =
    let (e, h) = validate_live_refuses b now g i in ground (arith, h)
step_final (releasing a) g i = ground arith
step_final spending g i = ground arith
step_final revoking g i = ground arith

-- An approval whose state is not active is left as it is by every sequence of calls.
pub approval_final :
    (os : List Operation) (g : ApprovalGrant) → is_active g.state ≡ false → run os g ≡ g
unfolding run
approval_final [] g i = refl
approval_final (o ∷ os) g i = rw ((step_final o g i).1) (approval_final os g i)

final_spends :
    (os : List Operation) (g : ApprovalGrant) → is_active g.state ≡ false → spends os g ≡ 0
unfolding spends
final_spends [] g i = refl
final_spends (o ∷ os) g i = ground (arith, step_final o g i, final_spends os g i)

-- An operation that spends leaves the approval not active.
step_spends :
    (o : Operation) (g : ApprovalGrant)
    → (is_spending o && succeeded (step o g).0) ≡ true
    → is_active (step o g).1.state ≡ false
unfolding step spend_if_live spend
step_spends (validating b now) g h = absurd (ground arith)
step_spends (spending_if_live b now) g h = elim (Option-cases (validate_live b now g).0) [
  | inl e ↦ ground (arith, e)
  | inr (x, e) ↦ absurd (ground (arith, e))
]
step_spends (claiming a b now) g h = absurd (ground arith)
step_spends (releasing a) g h = absurd (ground arith)
step_spends spending g h = ground arith
step_spends revoking g h = absurd (ground arith)

-- Over any sequence of the calls on an approval, from any state, at most one spend or
-- spend_if_live succeeds.
pub spends-le-one : (os : List Operation) (g : ApprovalGrant) → spends os g ≤ 1
unfolding spends
spends-le-one [] g = omega arith
spends-le-one (o ∷ os) g = elim (Bool-cases (is_spending o && succeeded (step o g).0)) [
  | inl h ↦ ground (arith, h, final_spends os (step o g).1 (step_spends o g h))
  | inr h ↦ ground (arith, h, spends-le-one os (step o g).1)
]
