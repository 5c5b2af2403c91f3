-- ===== src/Approval/Attempt.antt =====
-- `EffectAttempt` of src/webwire/safety/execution_models.py: one try to cause an effect under an
-- approval, with the approval that it belongs to passed to the methods that read or change it.
pub mod Life
use wire_agent.Base.{
  String, Bool, true, false, not, ◌&&◌, ◌≡◌, Option, none, some, ◌==◌, if◌then◌else◌, opt_eq,
}
use wire_agent.Approval.Grant.{ApprovalGrant, ApprovalGrantError, release_claim}

pub data AttemptState : Type 0 where
  preparing no_effect reserved effect_confirmed effect_unknown : AttemptState

abbrev pub is_preparing : AttemptState → Bool
is_preparing preparing = true
is_preparing no_effect = false
is_preparing reserved = false
is_preparing effect_confirmed = false
is_preparing effect_unknown = false

-- `PREPARING` or `RESERVED`
abbrev pub is_open : AttemptState → Bool
is_open preparing = true
is_open no_effect = false
is_open reserved = true
is_open effect_confirmed = false
is_open effect_unknown = false

pub record EffectAttempt : Type 0 where
  pub grant_id : String
  pub attempt_id : String
  pub effect_id : String
  pub state : AttemptState
  pub reservation_started : Bool

-- What a `GrantStateError` of an attempt says, or the error of the approval.
pub data AttemptError : Type 0 where
  wrong_state other_grant claim_not_held : AttemptError
  reservation_has_started reservation_not_started : AttemptError
  of_grant : ApprovalGrantError → AttemptError

unfoldable pub begin_reservation :
    ApprovalGrant → EffectAttempt → Option AttemptError × EffectAttempt
begin_reservation g a =
    if not (is_preparing a.state)
    then (some wrong_state, a)
    else if not (g.grant_id == a.grant_id)
    then (some other_grant, a)
    else if not (opt_eq g.claimed_by (some a.attempt_id))
    then (some claim_not_held, a)
    else (none, record a { reservation_started = true })

unfoldable pub mark_no_effect :
    ApprovalGrant → EffectAttempt → Option AttemptError × ApprovalGrant × EffectAttempt
mark_no_effect g a =
    if not (is_preparing a.state)
    then (some wrong_state, g, a)
    else if not (g.grant_id == a.grant_id)
    then (some other_grant, g, a)
    else if a.reservation_started
    then (some reservation_has_started, g, a)
    else (let (refused, g') = release_claim a.attempt_id g in
        elim refused [
          | some e ↦ (some (of_grant e), g', a)
          | none ↦ (none, g', record a { state = no_effect })
        ])

unfoldable pub mark_no_effect_after_authority : EffectAttempt → Option AttemptError × EffectAttempt
mark_no_effect_after_authority a =
    if not (is_open a.state) then (some wrong_state, a) else (none, record a { state = no_effect })

unfoldable pub mark_reserved : ApprovalGrant → EffectAttempt → Option AttemptError × EffectAttempt
mark_reserved g a =
    if not (is_preparing a.state)
    then (some wrong_state, a)
    else if not (g.grant_id == a.grant_id)
    then (some other_grant, a)
    else if not a.reservation_started
    then (some reservation_not_started, a)
    else if not (opt_eq g.claimed_by (some a.attempt_id))
    then (some claim_not_held, a)
    else (none, record a { state = reserved })

unfoldable pub mark_effect_confirmed : EffectAttempt → Option AttemptError × EffectAttempt
mark_effect_confirmed a =
    if not (is_open a.state)
    then (some wrong_state, a)
    else (none, record a { state = effect_confirmed })

unfoldable pub mark_effect_unknown : EffectAttempt → Option AttemptError × EffectAttempt
mark_effect_unknown a =
    if not (is_open a.state)
    then (some wrong_state, a)
    else (none, record a { state = effect_unknown })
