-- ===== src/Approval/Grant.antt =====
-- `AuthorizationEpoch`, `ApprovalGrant` and `ApprovalGrantStore` of
-- src/webwire/safety/execution_models.py. Each method runs whole under its lock; `now` is the time
-- that it was given or that it read from the clock, a natural number of some unit.
pub mod Live
pub mod Spend
pub mod Claim
use wire_agent.Base.{
  ℕ, ◌+◌, String, Bool, true, false, not, ◌&&◌, ◌≡◌, Option, none, some, List, [], ◌∷◌, ◌==◌, eqb,
  ltb, leb, if◌then◌else◌, decided, opt_eq, length,
}
use wire_agent.Base.Dict.{Dict, get, put}
use wire_agent.Effect.Record.{validate_approver}

pub data GrantState : Type 0 where
  active spent expired revoked : GrantState

unfoldable pub GrantState-discrete : Discrete GrantState
GrantState-discrete = hlevel

abbrev pub is_active : GrantState → Bool
is_active active = true
is_active spent = false
is_active expired = false
is_active revoked = false

-- The reason of a `GrantClaimDenied`.
pub data GrantClaimDenied : Type 0 where
  expired_grant spent_grant revoked_grant epoch_mismatch intent_mismatch : GrantClaimDenied
  actor_mismatch policy_mismatch approval_already_claimed : GrantClaimDenied
  attempts_exhausted claim_not_held : GrantClaimDenied

-- An `ApprovalGrantError`: a denied claim, or a `GrantStateError` with what was wrong.
pub data ApprovalGrantError : Type 0 where
  denied : GrantClaimDenied → ApprovalGrantError
  not_active not_holder : ApprovalGrantError

pub record AuthorizationEpoch : Type 0 where
  pub current : ℕ

unfoldable pub bump : AuthorizationEpoch → ℕ × AuthorizationEpoch
bump e = (e.current + 1, record { current = e.current + 1 })

pub record ApprovalGrant : Type 0 where
  pub intent_hash : String
  pub actor_id : String
  pub action_type : String
  pub target_type : String
  pub target_id : String
  pub policy_binding : String
  pub authorization_epoch : ℕ
  pub grant_id : String
  pub issued_at : ℕ
  pub expires_at : ℕ
  pub max_precommit_attempts : ℕ
  pub state : GrantState
  pub claimed_by : Option String
  pub precommit_attempts : ℕ
  pub approver : String

-- The bindings that a caller presents.
pub record Presented : Type 0 where
  pub intent_hash : String
  pub actor_id : String
  pub policy_binding : String
  pub authorization_epoch : ℕ

unfoldable pub is_expired : ℕ → ApprovalGrant → Bool
is_expired now g = ltb 0 g.expires_at && leb g.expires_at now

-- `_refresh_state`
unfoldable pub refresh_state : ℕ → ApprovalGrant → ApprovalGrant
unfolding is_expired
refresh_state now g =
    if is_active g.state && is_expired now g then record g { state = expired } else g

-- The comparisons of `validate_live`, in their order, on an active approval.
unfoldable pub check_bindings : Presented → ApprovalGrant → Option GrantClaimDenied × ApprovalGrant
check_bindings b g =
    if not (eqb b.authorization_epoch g.authorization_epoch)
    then (some epoch_mismatch, record g { state = revoked })
    else if not (b.intent_hash == g.intent_hash)
    then (some intent_mismatch, g)
    else if not (b.actor_id == g.actor_id)
    then (some actor_mismatch, g)
    else if not (b.policy_binding == g.policy_binding)
    then (some policy_mismatch, g)
    else (none, g)

-- What `validate_live` does once the state is refreshed.
unfoldable pub check_state :
    GrantState → Presented → ApprovalGrant → Option GrantClaimDenied × ApprovalGrant
unfolding check_bindings
check_state expired b g = (some expired_grant, g)
check_state spent b g = (some spent_grant, g)
check_state revoked b g = (some revoked_grant, g)
check_state active b g = check_bindings b g

unfoldable pub validate_live :
    Presented → ℕ → ApprovalGrant → Option GrantClaimDenied × ApprovalGrant
unfolding refresh_state check_state
validate_live b now g = check_state (refresh_state now g).state b (refresh_state now g)

unfoldable pub spend_if_live :
    Presented → ℕ → ApprovalGrant → Option GrantClaimDenied × ApprovalGrant
unfolding validate_live
spend_if_live b now g =
    let (refused, g') = validate_live b now g in
    elim refused [ some e ↦ (some e, g') | none ↦ (none, record g' { state = spent }) ]

-- The two tests that `claim` makes on a live approval, and the claim.
unfoldable pub take_claim : String → ApprovalGrant → Option GrantClaimDenied × ApprovalGrant
take_claim a g = elim g.claimed_by [
  | some holder ↦
      if not (holder == a)
      then (some approval_already_claimed, g)
      else (none, record g { claimed_by = some a })
  | none ↦
      if leb g.max_precommit_attempts g.precommit_attempts
      then (some attempts_exhausted, g)
      else (none, record g { claimed_by = some a })
]

unfoldable pub claim :
    String → Presented → ℕ → ApprovalGrant → Option GrantClaimDenied × ApprovalGrant
unfolding validate_live take_claim
claim a b now g =
    let (refused, g') = validate_live b now g in
    elim refused [ some e ↦ (some e, g') | none ↦ take_claim a g' ]

-- The test of `claim_fence`.
unfoldable pub claim_fence : String → ApprovalGrant → Option GrantClaimDenied
claim_fence a g = if opt_eq g.claimed_by (some a) then none else some claim_not_held

unfoldable pub release_claim : String → ApprovalGrant → Option ApprovalGrantError × ApprovalGrant
release_claim a g =
    if not (is_active g.state)
    then (some not_active, g)
    else if not (opt_eq g.claimed_by (some a))
    then (some not_holder, g)
    else (none, record g { claimed_by = none; precommit_attempts = g.precommit_attempts + 1 })

unfoldable pub spend : ApprovalGrant → Option ApprovalGrantError × ApprovalGrant
spend g =
    if not (is_active g.state) then (some not_active, g) else (none, record g { state = spent })

unfoldable pub revoke : ApprovalGrant → Option ApprovalGrantError × ApprovalGrant
revoke g =
    if not (is_active g.state) then (some not_active, g) else (none, record g { state = revoked })

-- `ApprovalGrantStore`; its time to live is a natural number.
pub record ApprovalGrantStore : Type 0 where
  pub ttl : ℕ
  pub max_attempts : ℕ
  pub grants : Dict ApprovalGrant

-- What `mint` is told about the approval.
pub record MintRequest : Type 0 where
  pub approver : String
  pub intent_hash : String
  pub actor_id : String
  pub action_type : String
  pub target_type : String
  pub target_id : String
  pub policy_binding : String
  pub authorization_epoch : ℕ

-- `mint`, with the id that is drawn and the two clock readings, for `expires_at` and `issued_at`.
-- `none` is the `ValueError` of `validate_approver`.
unfoldable pub mint :
    MintRequest → String → ℕ → ℕ → ApprovalGrantStore → Option ApprovalGrant × ApprovalGrantStore
mint r id now issued s =
    if not (validate_approver r.approver)
    then (none, s)
    else (let g : ApprovalGrant = record {
      intent_hash = r.intent_hash;
      actor_id = r.actor_id;
      action_type = r.action_type;
      target_type = r.target_type;
      target_id = r.target_id;
      policy_binding = r.policy_binding;
      authorization_epoch = r.authorization_epoch;
      grant_id = id;
      issued_at = issued;
      expires_at = now + s.ttl;
      max_precommit_attempts = s.max_attempts;
      state = active;
      claimed_by = none;
      precommit_attempts = 0;
      approver = r.approver;
    } in
        (some g, record s { grants = put s.grants id g }))

-- `ApprovalGrantStore.get`
unfoldable pub get_grant : String → ApprovalGrantStore → Option ApprovalGrant
get_grant id s = get s.grants id
