-- ===== src/Gateway/Run.antt =====
-- The life of a gateway: its calls, and what others do to the objects that it shares, in any order.
-- Each call runs whole, under the protocol lock. Other code may do anything to the ledger's file,
-- the kill switch, the policies, the attempts and the live owners.
use wire_agent.Base.{
  ℕ, suc, String, Bool, true, false, ◌&&◌, none, some, List, [], ◌∷◌, ◌++◌, eqb, if◌then◌else◌,
}
use wire_agent.Base.Results.{Result, ok, err}
use wire_agent.Base.Dict.{Dict}
use wire_agent.Base.Heap.{at, set_at}
use wire_agent.Json.{Fields}
use wire_agent.Effect.File.{LedgerFile}
use wire_agent.Policy.{EffectPolicyRegistry}
use wire_agent.Approval.Grant.{ApprovalGrant}
use wire_agent.Approval.Grant.Spend.{Operation as GrantOperation, step as grant_step}
use wire_agent.Approval.Attempt.{EffectAttempt}
use wire_agent.KillSwitch.{KillSwitch}
use wire_agent.Gateway.State.{EffectPermit, LiveEffectOwner, GatewayError, Gateway, Write}
use wire_agent.Gateway.Retire.{Retirement, settle_dead_owner}
use wire_agent.Gateway.Permit.{close_unconsumed_permit_no_effect}
use wire_agent.Gateway.Consume.{
  Use, Boundary, consume_permit, record_effect_confirmed, record_effect_unknown,
}
use wire_agent.Gateway.Authorize.{authorize_commit}
use wire_agent.Gateway.Mint.{bump_epoch, Authorization}

pub data Operation : Type 0 where
  authorizing : Authorization → Operation
  consuming : Boundary → Use → ℕ → Operation
  closing : Write → String → ℕ → Operation
  confirming losing : Write → Fields → ℕ → ℕ → Operation
  settling : Retirement → String → Operation
  -- a call on an approval, the bump of an epoch, and new objects
  asking : ℕ → GrantOperation → Operation
  bumping : ℕ → Operation
  granting : ApprovalGrant → Operation
  forging : EffectPermit → Operation
  opening : ℕ → Operation
  -- anything else that others may do
  disturbing :
      LedgerFile
      → KillSwitch
      → EffectPolicyRegistry
      → List EffectAttempt
      → Dict LiveEffectOwner
      → Operation

-- The call of an approval's method by other code.
unfoldable pub ask_grant : ℕ → GrantOperation → Gateway → Gateway
ask_grant h o s = elim (at s.grants h) [
  | none ↦ s
  | some g ↦ record s { grants = set_at s.grants h (grant_step o g).1 }
]

unfoldable pub step : Operation → Gateway → Gateway
unfolding ask_grant authorize_commit consume_permit close_unconsumed_permit_no_effect
    record_effect_confirmed record_effect_unknown settle_dead_owner bump_epoch
step (authorizing i) s = (authorize_commit i s).1
step (consuming b u h) s = (consume_permit b u h s).1
step (closing w reason h) s = (close_unconsumed_permit_no_effect w reason h s).1
step (confirming w evidence h ha) s = (record_effect_confirmed w evidence h ha s).1
step (losing w evidence h ha) s = (record_effect_unknown w evidence h ha s).1
step (settling t effect_id) s = (settle_dead_owner t effect_id s).1
step (asking h o) s = ask_grant h o s
step (bumping h) s = bump_epoch h 1 s
step (granting g) s = record s { grants = s.grants ++ (g ∷ []) }
step (forging p) s = record s { permits = s.permits ++ (p ∷ []) }
step (opening e) s = record s { epochs = s.epochs ++ (e ∷ []) }
step (disturbing f k r a l) s = record s {
  ledger = f;
  kill = k;
  policies = r;
  attempts = a;
  live = l;
}

unfoldable pub run : List Operation → Gateway → Gateway
unfolding step
run [] s = s
run (o ∷ os) s = run os (step o s)

abbrev pub returned : {A : Type 0} → Result GatewayError A → Bool
returned (ok a) = true
returned (err e) = false

-- The operation consumes the permit.
unfoldable pub consumes : ℕ → Operation → Gateway → Bool
unfolding consume_permit
consumes h (authorizing i) s = false
consumes h (consuming b u j) s = eqb j h && returned (consume_permit b u j s).0
consumes h (closing w reason j) s = false
consumes h (confirming w evidence j ha) s = false
consumes h (losing w evidence j ha) s = false
consumes h (settling t effect_id) s = false
consumes h (asking j o) s = false
consumes h (bumping j) s = false
consumes h (granting g) s = false
consumes h (forging p) s = false
consumes h (opening e) s = false
consumes h (disturbing f k r a l) s = false

-- The operation mints a permit from the approval.
unfoldable pub mints : ℕ → Operation → Gateway → Bool
unfolding authorize_commit
mints h (authorizing i) s = eqb i.grant h && returned (authorize_commit i s).0
mints h (consuming b u j) s = false
mints h (closing w reason j) s = false
mints h (confirming w evidence j ha) s = false
mints h (losing w evidence j ha) s = false
mints h (settling t effect_id) s = false
mints h (asking j o) s = false
mints h (bumping j) s = false
mints h (granting g) s = false
mints h (forging p) s = false
mints h (opening e) s = false
mints h (disturbing f k r a l) s = false

-- How many of the operations consume the permit, and how many mint one from the approval.
unfoldable pub consumptions : ℕ → List Operation → Gateway → ℕ
unfolding consumes step
consumptions h [] s = 0
consumptions h (o ∷ os) s =
    let rest = consumptions h os (step o s) in if consumes h o s then suc rest else rest

unfoldable pub mintings : ℕ → List Operation → Gateway → ℕ
unfolding mints step
mintings h [] s = 0
mintings h (o ∷ os) s =
    let rest = mintings h os (step o s) in if mints h o s then suc rest else rest
