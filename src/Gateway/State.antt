-- ===== src/Gateway/State.antt =====
-- The state of the commit gateway: the objects that it shares by reference, the ledger, the kill
-- switch, and its own maps. A reference is a position in a list of objects. Gateways of one ledger
-- path share the live owners, so an owner names the epoch object of the gateway that made it.
use wire_agent.Base.{ℕ, String, Bool, Option, none, some, List, if◌then◌else◌}
use wire_agent.Base.Results.{Result, ok, err}
use wire_agent.Base.Dict.{Dict}
use wire_agent.Base.Heap.{at, set_at}
use wire_agent.Storage.{Io}
use wire_agent.Effect.Record.{EffectLedgerRecord}
use wire_agent.Effect.History.{LedgerError}
use wire_agent.Effect.File.{LedgerFile, append_durable}
use wire_agent.Policy.{EffectPolicy, EffectPolicyRegistry, EffectVerb}
use wire_agent.Approval.Grant.{ApprovalGrant, GrantClaimDenied}
use wire_agent.Approval.Attempt.{EffectAttempt, AttemptError}
use wire_agent.KillSwitch.{KillSwitch, HotFile, execution_blocked_now}

-- `_IntentSnapshot`
pub record IntentSnapshot : Type 0 where
  pub action_type : String
  pub target_type : String
  pub target_id : String
  pub actor_id : String
  pub semantic_key : String
  pub intent_hash : String

-- `EffectPermit` with its `_PermitUse`.
pub record EffectPermit : Type 0 where
  pub grant_id : String
  pub attempt_id : String
  pub effect_id : String
  pub semantic_key : String
  pub intent_hash : String
  pub actor_id : String
  pub action_type : String
  pub target_type : String
  pub target_id : String
  pub policy_binding : String
  pub authorization_epoch : ℕ
  pub allowed_effects : List EffectVerb
  pub fenced : Bool
  pub issued_at : ℕ
  pub expires_at : ℕ
  pub approver : String
  pub permit_id : String
  pub consumed : Bool
  pub consumed_effect : Option EffectVerb
  pub consumed_at : Option ℕ

-- Why a live attempt is closed before a permit: the text is that of the source.
pub data ClosureReason : Type 0 where
  killed_before_permit : ClosureReason
  denied_before_permit : GrantClaimDenied → ClosureReason

-- `_LiveEffectOwner`, with references to its objects.
pub record LiveEffectOwner : Type 0 where
  pub attempt : ℕ
  pub grant : ℕ
  pub snapshot : IntentSnapshot
  pub policy_binding : String
  pub authorization_epoch : ℕ
  pub permit_minted : Bool
  pub closure_reason : Option ClosureReason

-- An entry of `_issued_permits` and of `_issued_attempts`.
pub record Issued : Type 0 where
  pub permit : ℕ
  pub attempt : ℕ

-- The reason of a `GatewayDenied`.
pub data GatewayDenied : Type 0 where
  policy_missing kill_switch permit_reused permit_unknown permit_expired : GatewayDenied
  grant_mismatch claim_not_held attempt_not_preparing grant_not_active : GatewayDenied
  action_mismatch target_missing target_mismatch actor_mismatch : GatewayDenied
  reservation_failed prepermit_close_failed expiry_close_failed : GatewayDenied
  no_effect_close_failed epoch_mismatch policy_mismatch effect_not_allowed : GatewayDenied
  intent_mismatch : GatewayDenied
  by_grant : GrantClaimDenied → GatewayDenied

-- What a `GatewayStateError` says.
pub data GatewayStateError : Type 0 where
  different_live_attempt lineage_changed epoch_domain_changed lost_ownership : GatewayStateError
  permit_exposed closure_began ownership_changed nonterminal_attempt : GatewayStateError
  lost_attempt_lineage already_consumed empty_reason not_canonical_attempt : GatewayStateError
  permit_attempt_mismatch not_consumed wrong_attempt_state : GatewayStateError
  reserved_detail_keys invalid_evidence not_persisted : GatewayStateError

pub data GatewayError : Type 0 where
  denied : GatewayDenied → GatewayError
  state_error : GatewayStateError → GatewayError
  -- a `GrantStateError` of the attempt
  attempt_error : AttemptError → GatewayError
  -- the `ValueError` of a policy, of a record or of an argument
  policy_value_error record_value_error argument_value_error : GatewayError
  -- a reference to no object, which Python cannot express
  dangling : GatewayError

pub record Gateway : Type 0 where
  pub grants : List ApprovalGrant
  pub attempts : List EffectAttempt
  pub permits : List EffectPermit
  -- the current value of each `AuthorizationEpoch`
  pub epochs : List ℕ
  pub epoch : ℕ
  pub ledger : LedgerFile
  pub kill : KillSwitch
  pub policies : EffectPolicyRegistry
  pub permit_ttl : ℕ
  pub issued : Dict Issued
  pub live : Dict LiveEffectOwner
  -- `binding_hash`, a SHA-256 of the policy's fields, and the length of a record's JSON
  pub binding_hash : EffectPolicy → String
  pub size : EffectLedgerRecord → ℕ

-- A method: its result or what it raises, and the state that it leaves.
abbrev pub Action : Type 0 → Type 0
Action A = Gateway → Result GatewayError A × Gateway

abbrev pub ret : {A : Type 0} → A → Action A
ret a s = (ok a, s)

abbrev pub throw : {A : Type 0} → GatewayError → Action A
throw e s = (err e, s)

abbrev pub and_then :
    {A B : Type 0}
    → Result GatewayError A × Gateway
    → (A → Action B)
    → Result GatewayError B × Gateway
and_then (ok a, s) k = k a s
and_then (err e, s) k = (err e, s)

infixl 5 ◌>>=◌ ◌>>◌
unfoldable pub ◌>>=◌ : {A B : Type 0} → Action A → (A → Action B) → Action B
(m >>= k) s = and_then (m s) k

unfoldable pub ◌>>◌ : {A B : Type 0} → Action A → Action B → Action B
(m >> k) s = and_then (m s) (λ _. k)

-- `raise` where the test fails.
unfoldable pub require : Bool → GatewayError → Action (Unit {0})
require b e s = if b then (ok tt, s) else (err e, s)

unfoldable pub modify : (Gateway → Gateway) → Action (Unit {0})
modify f s = (ok tt, f s)

unfoldable pub found : {A : Type 0} → (Gateway → Option A) → GatewayError → Action A
found f e s = elim (f s) [ none ↦ (err e, s) | some a ↦ (ok a, s) ]

unfoldable pub grant_of : ℕ → Action ApprovalGrant
unfolding found
grant_of h = found (λ s. at s.grants h) dangling

unfoldable pub attempt_of : ℕ → Action EffectAttempt
unfolding found
attempt_of h = found (λ s. at s.attempts h) dangling

unfoldable pub permit_of : ℕ → Action EffectPermit
unfolding found
permit_of h = found (λ s. at s.permits h) dangling

-- A transition of an attempt by one of its methods.
unfoldable pub mark : ℕ → (EffectAttempt → Option AttemptError × EffectAttempt) → Action (Unit {0})
mark h f s = elim (at s.attempts h) [
  | none ↦ (err dangling, s)
  | some a ↦
      (let (refused, a') = f a in
        (
          elim refused [ none ↦ ok tt | some e ↦ err (attempt_error e) ],
          record s { attempts = set_at s.attempts h a' },
        ))
]

-- A call on an approval that may deny.
unfoldable pub ask :
    ℕ → (ApprovalGrant → Option GrantClaimDenied × ApprovalGrant) → Action (Option GrantClaimDenied)
ask h f s = elim (at s.grants h) [
  | none ↦ (err dangling, s)
  | some g ↦ (let (refused, g') = f g in (ok refused, record s { grants = set_at s.grants h g' }))
]

-- One append to the ledger: what the operating system answers, and the time of the record.
pub record Write : Type 0 where
  pub io : Io
  pub timestamp : String

unfoldable pub append_fact : Write → EffectLedgerRecord → Action (Option LedgerError)
append_fact w r s =
    let (done, f) = append_durable s.size w.io s.ledger r in
    (ok (elim done [ ok _ ↦ none | err e ↦ some e ]), record s { ledger = f })

-- The kill switch as it is seen now, with the hot file as it is by now.
unfoldable pub blocked_now : HotFile → Action Bool
blocked_now f s =
    let (blocked, k) = execution_blocked_now (record s.kill { hot_file = f }) in
    (ok blocked, record s { kill = k })
