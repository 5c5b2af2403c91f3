-- ===== src/Confirmation.antt =====
-- `ConfirmationState` of src/webwire/safety/confirmation_state.py. Each method runs whole under its
-- lock. A clock is read once in a call: `none` stands for a reading that is no finite number, and
-- times are natural numbers of some unit.
pub mod Operations
pub mod Authority
mod Examples
use wire_agent.Base.{
  ℕ, ◌+◌, String, Bool, true, false, not, ◌&&◌, ◌≡◌, Option, none, some, List, [], ◌∷◌, ◌==◌, eqb,
  ltb, leb, if◌then◌else◌, decided,
}
use wire_agent.Base.Results.{Result, ok, err, ◌>>=◌, ◌>>◌}
use wire_agent.Base.Dict.{Dict, get, put, has}
use wire_agent.Risk.{RiskTier, RiskTier-discrete}

-- The carrier that the caller receives; not authority.
pub record ConfirmationToken : Type 0 where
  pub token : String
  pub intent_hash : String
  pub risk_tier : RiskTier
  pub created_at : ℕ
  pub expires_at : ℕ
  pub capability_name : String
  pub consumed : Bool
  pub confirmation_epoch : ℕ
  pub authority_created_at : ℕ
  pub authority_expires_at : ℕ

-- `_PendingAuthority`
pub record PendingAuthority : Type 0 where
  pub token : ConfirmationToken
  pub intent_hash : String
  pub risk_tier : RiskTier
  pub capability_name : String
  pub confirmation_epoch : ℕ
  pub authority_expires_at : ℕ
  pub consumed : Bool

pub record ConfirmationState : Type 0 where
  pub ttl_seconds : ℕ
  pub epoch : ℕ
  pub pending : Dict PendingAuthority
  pub last_authority_sample : Option ℕ

-- `__init__`: a time to live that is not positive is a `ValueError`.
unfoldable pub new_confirmation_state : ℕ → Option ConfirmationState
new_confirmation_state ttl =
    if ltb 0 ttl
    then some (record { ttl_seconds = ttl; epoch = 0; pending = []; last_authority_sample = none })
    else none

-- Why `ConfirmationStateError` is raised.
pub data ConfirmationStateError : Type 0 where
  empty_intent_hash empty_capability_name bad_clock clock_regressed : ConfirmationStateError
  bad_wall_clock empty_token duplicate_token : ConfirmationStateError

-- `_sample_authority_locked`
unfoldable pub sample_authority :
    Option ℕ → ConfirmationState → Result ConfirmationStateError ℕ × ConfirmationState
sample_authority none s = (err bad_clock, s)
sample_authority (some value) s =
    if (elim s.last_authority_sample [ none ↦ false | some previous ↦ ltb value previous ])
    then (err clock_regressed, s)
    else (ok value, record s { last_authority_sample = some value })

unfoldable pub advance_epoch : ConfirmationState → ℕ × ConfirmationState
advance_epoch s = (s.epoch + 1, record s { epoch = s.epoch + 1 })

-- What a request binds.
pub record Binding : Type 0 where
  pub intent_hash : String
  pub risk_tier : RiskTier
  pub capability_name : String

abbrev pub new_token : ConfirmationState → Binding → String → ℕ → ℕ → ConfirmationToken
new_token s b t now wall = record {
  token = t;
  intent_hash = b.intent_hash;
  risk_tier = b.risk_tier;
  created_at = wall;
  expires_at = wall + s.ttl_seconds;
  capability_name = b.capability_name;
  consumed = false;
  confirmation_epoch = s.epoch;
  authority_created_at = now;
  authority_expires_at = now + s.ttl_seconds;
}

abbrev pub new_pending : ConfirmationState → Binding → String → ℕ → ℕ → PendingAuthority
new_pending s b t now wall = record {
  token = new_token s b t now wall;
  intent_hash = b.intent_hash;
  risk_tier = b.risk_tier;
  capability_name = b.capability_name;
  confirmation_epoch = s.epoch;
  authority_expires_at = now + s.ttl_seconds;
  consumed = false;
}

-- `issue` once the authority clock has been read; `t` is what the token factory returns.
unfoldable pub issue_at :
    ℕ
    → Option ℕ
    → String
    → Binding
    → ConfirmationState
    → Result ConfirmationStateError ConfirmationToken × ConfirmationState
issue_at now none t b s = (err bad_wall_clock, s)
issue_at now (some wall) t b s =
    if t == ""
    then (err empty_token, s)
    else if has s.pending t
    then (err duplicate_token, s)
    else (
      ok (new_token s b t now wall),
      record s { pending = put s.pending t (new_pending s b t now wall) },
    )

unfoldable pub issue :
    Option ℕ
    → Option ℕ
    → String
    → Binding
    → ConfirmationState
    → Result ConfirmationStateError ConfirmationToken × ConfirmationState
unfolding sample_authority issue_at
issue clock wall t b s =
    if b.intent_hash == ""
    then (err empty_intent_hash, s)
    else if b.capability_name == ""
    then (err empty_capability_name, s)
    else (let (sample, s') = sample_authority clock s in
        elim sample [ err e ↦ (err e, s') | ok now ↦ issue_at now wall t b s' ])

-- What `validate_and_consume` returns as its second component.
pub data Blocked : Type 0 where
  consumed_token stale_confirmation_epoch expired_token : Blocked
  capability_mismatch intent_mismatch : Blocked

-- The tests, in their order, on one pending authority.
unfoldable pub check_pending : ℕ → ℕ → Binding → PendingAuthority → Option Blocked
check_pending epoch now b p =
    if not (eqb p.confirmation_epoch epoch)
    then some stale_confirmation_epoch
    else if leb p.authority_expires_at now
    then some expired_token
    else if p.consumed
    then some consumed_token
    else if not (p.capability_name == b.capability_name)
    then some capability_mismatch
    else if not (p.intent_hash == b.intent_hash)
    then some intent_mismatch
    else if not (decided (RiskTier-discrete p.risk_tier b.risk_tier))
    then some intent_mismatch
    else none

-- `pending.consumed = True`, with its mirror in the token.
abbrev pub consume : PendingAuthority → PendingAuthority
consume p =
    let t : ConfirmationToken = p.token in
    record p { token = record t { consumed = true }; consumed = true }

-- The result: the token if one was found, and why it was refused.
pub record Verdict : Type 0 where
  pub token : Option ConfirmationToken
  pub blocked_by : Option Blocked

-- `validate_and_consume` once the clock has been read. `none` is a token that is no text.
unfoldable pub consume_at :
    ℕ → Option PendingAuthority → String → Binding → ConfirmationState → Verdict × ConfirmationState
unfolding check_pending
consume_at now none t b s = (record { token = none; blocked_by = some consumed_token }, s)
consume_at now (some p) t b s = elim (check_pending s.epoch now b p) [
  | some x ↦ (record { token = some p.token; blocked_by = some x }, s)
  | none ↦ (
    record { token = some (consume p).token; blocked_by = none },
    record s { pending = put s.pending t (consume p) },
  )
]

abbrev pub pending_for : Option String → ConfirmationState → Option PendingAuthority
pending_for none s = none
pending_for (some t) s = get s.pending t

abbrev pub text_of : Option String → String
text_of none = ""
text_of (some t) = t

unfoldable pub validate_and_consume :
    Option ℕ
    → Option String
    → Binding
    → ConfirmationState
    → Result ConfirmationStateError Verdict × ConfirmationState
unfolding sample_authority consume_at
validate_and_consume clock t b s =
    let (sample, s') = sample_authority clock s in
    elim sample [
      | err e ↦ (err e, s')
      | ok now ↦ (let (v, s'') = consume_at now (pending_for t s) (text_of t) b s' in (ok v, s''))
    ]
