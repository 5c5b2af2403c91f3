-- ===== src/Gateway/Commit/Whole.antt =====
-- What `authorize_commit` has done when it returns a permit, on the whole.
use wire_agent.Base.{
  ℕ, ◌+◌, ◌↔◌, String, Bool, true, false, not, ◌≡◌, refl, sym, ap, subst, ◌∙◌, inl, inr, Option,
  none, some, List, arith, if◌then◌else◌, Bool-cases,
}
use wire_agent.Base.Results.{ok}
use wire_agent.Base.Dict.{get}
use wire_agent.Base.Heap.{at}
use wire_agent.Json.{text, dict, field, end, name}
use wire_agent.Policy.{
  EffectPolicy, DurabilityPolicy, required, best_effort, is_required, policy_fence,
}
use wire_agent.Approval.Grant.{ApprovalGrant, GrantClaimDenied, is_active, spent}
use wire_agent.Approval.Grant.Live.{IsLive}
use wire_agent.Gateway.State.{
  EffectPermit, denied, kill_switch, Gateway, Action, ret, require, found, attempt_of, blocked_now,
}
use wire_agent.Gateway.Permit.{binding_of, policy_of, prune_expired}
use wire_agent.Gateway.Later.{Later, Later_trans, core, Keeps}
use wire_agent.Gateway.Later.Steps.{Keeps-ret, Keeps-blocked_now}
use wire_agent.Gateway.Later.Calls.{Keeps-prune_expired}
use wire_agent.Gateway.Later.Authorizing.{
  Keeps-reserve_fenced, Keeps-late_bumps, Keeps-retire_if_denied, Keeps-validate_grant_identity,
}
use wire_agent.Gateway.State.{grant_of}
use wire_agent.Gateway.Commit.{Spends, spend_and_mint-Spends}
use wire_agent.Gateway.Commit.Reserved.{IsReserved, reserve_fenced-IsReserved}
use wire_agent.Gateway.Owner.{reservation_record}
use wire_agent.Gateway.Retire.{current_epoch}
use wire_agent.Gateway.Authorize.{
  reserve_and_mint, under_policy, authorize_commit, retire_if_denied, validate_grant_identity,
  check_epoch_domain, refuse_by_grant,
}
use wire_agent.Gateway.Mint.{
  Locals, with_locals, fence_of, reserve_fenced, new_permit, spend_and_mint, Authorization,
  late_bumps,
}
use wire_agent.Effect.Record.{EffectLedgerRecord, reserved as reserved_state}
use wire_agent.Gateway.Fact.{HasLineage}
use wire_agent.Effect.File.Append.{Shows}
use wire_agent.Effect.File.Outcome.{IsRecorded}
use wire_agent.Gateway.Actions.{
  read_bind, read_then, current_epoch_ok, current_epoch_reads, policy_of_ok, policy_of_reads,
  require_reads, bind_on, then_on,
}

-- What a permit that `authorize_commit` returns stands for, in the state that it leaves.
pub record Authorized (i : Authorization) (s : Gateway) (h : ℕ) (t : Gateway) : Type 0 where
  pub permit : EffectPermit
  pub stored : at t.permits h ≡ some permit
  pub unused : permit.consumed ≡ false
  pub no_use : (permit.consumed_effect ≡ none) × (permit.consumed_at ≡ none)
  pub listed : get t.issued permit.permit_id ≡ some (record { permit = h; attempt = i.attempt })
  pub current : at t.epochs t.epoch ≡ some permit.authorization_epoch
  -- it is for what the snapshot says, until its time to live has passed
  pub semantic_key : permit.semantic_key ≡ i.snapshot.semantic_key
  pub intent_hash : permit.intent_hash ≡ i.snapshot.intent_hash
  pub actor_id : permit.actor_id ≡ i.snapshot.actor_id
  pub action_type : permit.action_type ≡ i.snapshot.action_type
  pub target_type : permit.target_type ≡ i.snapshot.target_type
  pub target_id : permit.target_id ≡ i.snapshot.target_id
  pub permit_id : permit.permit_id ≡ i.permit_id
  pub issued_at : permit.issued_at ≡ i.mint_now
  pub expires_at : permit.expires_at ≡ i.mint_now + t.permit_ttl
  -- the policy that is registered, and its binding
  pub policy : EffectPolicy
  pub registered : policy_fence i.snapshot.action_type s.policies ≡ ok policy
  pub binding : permit.policy_binding ≡ s.binding_hash policy
  pub effects : permit.allowed_effects ≡ policy.allowed_effects
  pub fenced : (permit.fenced ≡ true) ↔ (policy.durability ≡ required)
  -- the approval, which was live for exactly what the permit says
  pub grant : ApprovalGrant
  pub was_live :
      IsLive
        (record {
          intent_hash = permit.intent_hash;
          actor_id = permit.actor_id;
          policy_binding = permit.policy_binding;
          authorization_epoch = permit.authorization_epoch;
        })
        i.spend_now
        grant
  pub spent_now : at t.grants i.grant ≡ some (record grant { state = spent })
  pub was_active : (g : ApprovalGrant) → at s.grants i.grant ≡ some g → is_active g.state ≡ true
  -- the reservation
  pub reserved :
      policy.durability ≡ required
      → (r : EffectLedgerRecord) × (rs : List EffectLedgerRecord) × Shows t.ledger rs
        × IsRecorded r rs
        × (t.ledger.durable ≡ t.ledger.lines)
        × (r.state ≡ reserved_state)
        × HasLineage permit r
        × (r.details
            ≡ dict (
                field
                  (name "attempt_id")
                  (text permit.attempt_id)
                  (field (name "grant_id") (text permit.grant_id) end)))

is_required_iff : (d : DurabilityPolicy) → (is_required d ≡ true) ↔ (d ≡ required)
is_required_iff required = (λ _. refl, λ _. refl)
is_required_iff best_effort = (λ e. absurd (cc), λ e. absurd (cc))

IsReserved-if :
    (i : Authorization) (l : Locals) (t : Bool) (s : Gateway)
    → let m : Action (Unit {0}) = if t then reserve_fenced i l else ret tt in
      (m s).0 ≡ ok tt → t ≡ true → IsReserved i l (m s).1.ledger
IsReserved-if i l true s r e = reserve_fenced-IsReserved i l s r
IsReserved-if i l false s r e = absurd (cc)

Keeps-begin :
    (i : Authorization) (l : Locals) (t : Bool) → Keeps (if t then reserve_fenced i l else ret tt)
Keeps-begin i l true = Keeps-reserve_fenced i l
Keeps-begin i l false = Keeps-ret tt

-- An approval that is active later was active before.
active_before :
    (s t : Gateway) (h : ℕ) (g : ApprovalGrant)
    → Later s t
    → (at t.grants h ≡ some g → is_active g.state ≡ true)
    → at s.grants h ≡ some g
    → is_active g.state ≡ true
active_before s t h g k a e = elim (Bool-cases (is_active g.state)) [
  | inl x ↦ x
  | inr x ↦ a (k.grants h g e x)
]

active_then :
    (s : Gateway) (i : Authorization) (n : ℕ) (l : Locals) (h : ℕ) {t : Gateway}
    → Spends i l n s h t
    → (g : ApprovalGrant) → at s.grants i.grant ≡ some g
    → is_active g.state ≡ true
active_then s i n l h w g e =
    let x : some g ≡ some w.grant = cc (e, w.was) in
    let y : g ≡ w.grant = cc in let z = w.live.state in ground (arith, y, z)

with_locals-Authorized :
    (i : Authorization) (l : Locals) (s : Gateway) (h : ℕ)
    → (with_locals i l s).0 ≡ ok h
    → l.binding ≡ s.binding_hash l.policy
    → policy_fence i.snapshot.action_type s.policies ≡ ok l.policy
    → Authorized i s h (with_locals i l s).1
unfolding with_locals late_bumps new_permit reservation_record
with_locals-Authorized i l s h r b f =
    let m : Action (Unit {0}) =
      if is_required l.policy.durability then reserve_fenced i l else ret tt in
    let u : Gateway = (m s).1 in
    let (x, e1, r1, q1) = then_on m _ s h r in
    let v : Gateway = (late_bumps i.late_bumps u).1 in
    let (_, e2, r2, q2) = then_on (late_bumps i.late_bumps) _ u h r1 in
    let (n, e3, r3, q3) = read_bind current_epoch _ v h (current_epoch_reads v) r2 in
    let (c, _) = current_epoch_ok v v n e3 in
    let w = spend_and_mint-Spends i l n v h r3 in
    let k =
      Later_trans (core s) (core u) (core v) (Keeps-begin i l (is_required l.policy.durability) s)
        (Keeps-late_bumps i.late_bumps u) in
    subst (λ z. Authorized i s h z.1) (sym (q1 ∙ q2 ∙ q3))
      (record {
        permit = new_permit i l n v.permit_ttl;
        stored = w.stored;
        unused = refl;
        no_use = (refl, refl);
        semantic_key = refl;
        intent_hash = refl;
        actor_id = refl;
        action_type = refl;
        target_type = refl;
        target_id = refl;
        permit_id = refl;
        issued_at = refl;
        expires_at = ap (λ z. i.mint_now + z) (sym w.ttl);
        listed = w.listed;
        current = cc (w.epochs, w.epoch, c);
        policy = l.policy;
        registered = f;
        binding = b;
        effects = refl;
        fenced = is_required_iff l.policy.durability;
        grant = w.grant;
        was_live = w.live;
        spent_now = w.is;
        was_active = λ g q. active_before s v i.grant g k (active_then v i n l h w g) q;
        reserved = λ y.
            let o =
              IsReserved-if i l (is_required l.policy.durability) s (ap (λ z. z.0) e1)
                ((is_required_iff l.policy.durability).1 y) in
            let g : (spend_and_mint i l n v).1.ledger ≡ u.ledger = w.ledger in
            (
              reservation_record l.grant l.attempt i.snapshot l.binding i.reserve.timestamp,
              o.history,
              subst (λ z. Shows z o.history) (sym g) o.shows,
              o.recorded,
              subst (λ z. z.durable ≡ z.lines) (sym g) o.durable,
              refl,
              record {
                effect_id = refl;
                semantic_key = refl;
                action_type = refl;
                intent_hash = refl;
                policy_binding = refl;
                actor_id = refl;
                target_type = refl;
                target_id = refl;
                approver = refl;
              },
              refl,
            );
      })

grant_of_reads : (h : ℕ) (s : Gateway) → (grant_of h s).1 ≡ s
unfolding grant_of found
grant_of_reads h s = ground arith

attempt_of_reads : (h : ℕ) (s : Gateway) → (attempt_of h s).1 ≡ s
unfolding attempt_of found
attempt_of_reads h s = ground arith

check_epoch_domain_reads : (h : ℕ) (e : String) (s : Gateway) → (check_epoch_domain h e s).1 ≡ s
unfolding check_epoch_domain
check_epoch_domain_reads h e s = ground arith

refuse_by_grant_reads : (d : Option GrantClaimDenied) (s : Gateway) → (refuse_by_grant d s).1 ≡ s
unfolding refuse_by_grant
refuse_by_grant_reads d s = ground arith

binding_of_reads : (p : EffectPolicy) (s : Gateway) → (binding_of p s).1 ≡ s
unfolding binding_of
binding_of_reads p s = refl

binding_of_ok :
    (p : EffectPolicy) (s : Gateway) (b : String)
    → binding_of p s ≡ (ok b, s)
    → b ≡ s.binding_hash p
unfolding binding_of
binding_of_ok p s b e = cc

-- The same, where the policies were read before.
earlier :
    (i : Authorization) (s t u : Gateway) (h : ℕ)
    → Later s t
    → Authorized i t h u
    → Authorized i s h u
earlier i s t u h k a = record {
  permit = a.permit;
  stored = a.stored;
  unused = a.unused;
  no_use = a.no_use;
  semantic_key = a.semantic_key;
  intent_hash = a.intent_hash;
  actor_id = a.actor_id;
  action_type = a.action_type;
  target_type = a.target_type;
  target_id = a.target_id;
  permit_id = a.permit_id;
  issued_at = a.issued_at;
  expires_at = a.expires_at;
  listed = a.listed;
  current = a.current;
  policy = a.policy;
  registered = cc (a.registered, k.policies);
  binding = cc (a.binding, k.binding_hash);
  effects = a.effects;
  fenced = a.fenced;
  grant = a.grant;
  was_live = a.was_live;
  spent_now = a.spent_now;
  was_active = λ g e. active_before s t i.grant g k (a.was_active g) e;
  reserved = a.reserved;
}

reserve_and_mint-Authorized :
    (i : Authorization) (p : EffectPolicy) (b : String) (s : Gateway) (h : ℕ)
    → (reserve_and_mint i p b s).0 ≡ ok h
    → b ≡ s.binding_hash p
    → policy_fence i.snapshot.action_type s.policies ≡ ok p
    → Authorized i s h (reserve_and_mint i p b s).1
unfolding reserve_and_mint
reserve_and_mint-Authorized i p b s h r f g =
    let (x, _, r1, q1) = read_bind (grant_of i.grant) _ s h (grant_of_reads _ s) r in
    let (y, _, r2, q2) = read_bind (attempt_of i.attempt) _ s h (attempt_of_reads _ s) r1 in
    subst (λ z. Authorized i s h z.1) (sym (q1 ∙ q2)) (with_locals-Authorized i _ s h r2 f g)

under_policy-Authorized :
    (i : Authorization) (p : EffectPolicy) (s : Gateway) (h : ℕ)
    → (under_policy i p s).0 ≡ ok h
    → policy_fence i.snapshot.action_type s.policies ≡ ok p
    → Authorized i s h (under_policy i p s).1
unfolding under_policy
under_policy-Authorized i p s h r g =
    let (b, e1, r1, q1) = read_bind (binding_of p) _ s h (binding_of_reads p s) r in
    let (n, _, r2, q2) = read_bind current_epoch _ s h (current_epoch_reads s) r1 in
    let (a, _, r3, q3) = read_bind (attempt_of i.attempt) _ s h (attempt_of_reads _ s) r2 in
    let (o, _, r4, q4) = read_bind (grant_of i.grant) _ s h (grant_of_reads _ s) r3 in
    let (_, _, r5, q5) =
      read_then (check_epoch_domain i.attempt a.effect_id) _ s h (check_epoch_domain_reads _ _ s)
        r4 in
    let (_, _, r6, q6) =
      read_then (refuse_by_grant (fence_of o a)) _ s h (refuse_by_grant_reads _ s) r5 in
    let m : Action (Unit {0}) =
      retire_if_denied i.retirement a.effect_id (validate_grant_identity i b n) in
    let (_, _, r7, q7) = then_on m _ s h r6 in
    let k =
      Keeps-retire_if_denied i.retirement a.effect_id (validate_grant_identity i b n)
        (Keeps-validate_grant_identity i b n) s in
    let x : b ≡ s.binding_hash p = binding_of_ok p s b e1 in
    subst (λ z. Authorized i s h z.1) (sym (q1 ∙ q2 ∙ q3 ∙ q4 ∙ q5 ∙ q6 ∙ q7))
      (earlier i s (m s).1 _ h k (
        reserve_and_mint-Authorized i p b (m s).1 h r7 (cc (x, k.binding_hash))
          (cc (g, k.policies))))

-- When authorize_commit returns a permit: it is unused and issued for the attempt; its key, hash,
-- actor, action and target are those of the snapshot, and its deadline is the reading of the
-- clock at its minting and the time to live; it carries the current epoch, and the effects and
-- the binding of the policy that is registered, and is fenced exactly when that policy demands a
-- reservation; the approval was active when the call began, live for exactly the intent, the
-- actor, the policy and the epoch of the permit when it was spent, and is spent; and if the
-- policy demands a reservation, the ledger is readable, every line of it is durable, and its
-- latest record of the permit's effect is a reservation that has each lineage field and the
-- approver, attempt id and grant id of the permit.
pub authorize_commit-Authorized :
    (i : Authorization) (s : Gateway) (h : ℕ)
    → (authorize_commit i s).0 ≡ ok h
    → Authorized i s h (authorize_commit i s).1
unfolding authorize_commit
authorize_commit-Authorized i s h r =
    let (t, _, r1, q1) = bind_on (blocked_now i.entry) _ s h r in
    let u : Gateway = (blocked_now i.entry s).1 in
    let (_, _, r2, q2) =
      read_then (require (not t) (denied kill_switch)) _ u h (require_reads _ _ u) r1 in
    let (_, _, r3, q3) = then_on (prune_expired i.prune_now i.prune_close) _ u h r2 in
    let v : Gateway = (prune_expired i.prune_now i.prune_close u).1 in
    let k = Keeps-prune_expired i.prune_now i.prune_close u in
    let l = Keeps-blocked_now i.entry s in
    let (p, e4, r4, q4) =
      read_bind (policy_of i.snapshot.action_type) _ v h (policy_of_reads _ v) r3 in
    let (g, _) = policy_of_ok i.snapshot.action_type v v p e4 in
    subst (λ z. Authorized i s h z.1) (sym (q1 ∙ q2 ∙ q3 ∙ q4))
      (earlier i s v _ h (Later_trans (core s) (core u) (core v) l k)
        (under_policy-Authorized i p v h r4 g))
