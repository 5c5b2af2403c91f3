-- ===== src/Gateway/Consume/Fences.antt =====
-- What `consume_permit` compares under its fences, and the crossing.
use wire_agent.Base.{
  ℕ, ◌<◌, In, List, [], ◌∷◌, decided_iff, String, Bool, true, false, ◌≡◌, refl, ◌∙◌, ◌≢◌, ◌↔◌, none,
  some, eqb, arith, eqb_iff,
}
use text.Mathlib.TextEquality.{eq_iff}
use wire_agent.Base.Results.{ok}
use wire_agent.Base.Heap.{at}
use wire_agent.Policy.{EffectPolicy, EffectVerb, policy_fence}
use wire_agent.KillSwitch.{KillSwitch, HotFile, execution_blocked_now}
use wire_agent.Gateway.State.{
  EffectPermit, epoch_mismatch, permit_expired, denied, Gateway, throw, found, ◌>>=◌, ◌>>◌, require,
  modify, Write, blocked_now,
}
use wire_agent.Gateway.Retire.{current_epoch, epoch_at}
use wire_agent.Gateway.Permit.{policy_of, current_policy_binding, binding_of, close_expired}
use wire_agent.Gateway.Consume.{
  EffectVerb-discrete, Use, Boundary, allows, check_use, refuse, put_use, expire, cross,
  compare_and_cross,
}
use wire_agent.Gateway.Actions.{
  then-ok, read_bind, read_then, policy_of_reads, current_epoch_reads, require_reads, refuse_reads,
  current_policy_binding_reads, bind-run, then-run, require_ok, require_run, refuse_ok,
  current_epoch_ok, current_policy_binding_ok,
}

-- What the executor presents agrees with the permit.
pub record Agrees (u : Use) (p : EffectPermit) : Type 0 where
  pub policy_binding : u.policy_binding ≡ p.policy_binding
  pub effect : In u.effect p.allowed_effects
  pub intent_hash : u.intent_hash ≡ p.intent_hash
  pub actor_id : u.actor_id ≡ p.actor_id
  pub target_type : u.target_type ≡ p.target_type
  pub target_id : u.target_id ≡ p.target_id

allows_iff : (vs : List EffectVerb) (v : EffectVerb) → (allows vs v ≡ true) ↔ In v vs
unfolding allows
allows_iff [] v = ground arith
allows_iff (w ∷ vs) v = ground (arith, allows_iff vs v, decided_iff (EffectVerb-discrete w v))

module _ (u : Use) (binding : String) (p : EffectPermit) where
  check_use-Agrees : (check_use u binding p ≡ none) ↔ ((binding ≡ p.policy_binding) × Agrees u p)
  unfolding check_use
  check_use-Agrees = (
    λ h. (
      ground (arith, h, eq_iff binding p.policy_binding),
      record {
        policy_binding = ground (arith, h, eq_iff u.policy_binding p.policy_binding);
        effect = (allows_iff p.allowed_effects u.effect).0 (ground (arith, h));
        intent_hash = ground (arith, h, eq_iff u.intent_hash p.intent_hash);
        actor_id = ground (arith, h, eq_iff u.actor_id p.actor_id);
        target_type = ground (arith, h, eq_iff u.target_type p.target_type);
        target_id = ground (arith, h, eq_iff u.target_id p.target_id);
      },
    ),
    λ (e, a). ground (
      arith,
      e,
      a.policy_binding,
      (allows_iff p.allowed_effects u.effect).1 a.effect,
      a.intent_hash,
      a.actor_id,
      a.target_type,
      a.target_id,
      eq_iff binding p.policy_binding,
      eq_iff u.policy_binding p.policy_binding,
      eq_iff u.intent_hash p.intent_hash,
      eq_iff u.actor_id p.actor_id,
      eq_iff u.target_type p.target_type,
      eq_iff u.target_id p.target_id,
    ),
  )

pub expire_raises : (w : Write) (h : ℕ) (s : Gateway) → (expire w h s).0 ≢ ok tt
unfolding expire
expire_raises w h s e =
    let (_, _, f) = then-ok (close_expired w h) (throw (denied permit_expired)) s tt e in
    absurd (cc)

-- The kill switch after a look at it, with the hot file as it is then.
abbrev pub looked : HotFile → KillSwitch → KillSwitch
looked f k = (execution_blocked_now (record k { hot_file = f })).1

abbrev pub is_blocked : HotFile → KillSwitch → Bool
is_blocked f k = (execution_blocked_now (record k { hot_file = f })).0

-- The state that the first look at the kill switch leaves.
abbrev pub entered : Boundary → Gateway → Gateway
entered b s = record s { kill = looked b.entry s.kill }

module _ (b : Boundary) (u : Use) (h : ℕ) (p : EffectPermit) where
  abbrev pub after : Gateway → Gateway
  after s = put_use h p u.effect b.boundary_now (record s { kill = looked b.crossing s.kill })

  cross_ok :
      (s : Gateway)
      → (cross b u h p s).0 ≡ ok tt
      → (is_blocked b.crossing s.kill ≡ false)
        × (b.boundary_now < p.expires_at)
        × ((cross b u h p s).1 ≡ after s)
  unfolding cross blocked_now modify require ◌>>=◌ ◌>>◌
  cross_ok s e =
      ground (arith, expire_raises b.close h (record s { kill = looked b.crossing s.kill }))

  cross_run :
      (s : Gateway)
      → is_blocked b.crossing s.kill ≡ false
      → b.boundary_now < p.expires_at
      → cross b u h p s ≡ (ok tt, after s)
  unfolding cross blocked_now modify require ◌>>=◌ ◌>>◌
  cross_run s e l = ground (arith, e)

  -- The part of the conditions that is about the moment of the crossing.
  pub record Crosses (s : Gateway) : Type 0 where
    pub policy : EffectPolicy
    pub registered : policy_fence p.action_type s.policies ≡ ok policy
    pub binding : s.binding_hash policy ≡ p.policy_binding
    pub epoch : at s.epochs s.epoch ≡ some p.authorization_epoch
    pub agrees : Agrees u p
    pub open_at_crossing : is_blocked b.crossing s.kill ≡ false
    pub in_time : b.boundary_now < p.expires_at

  pub compare_and_cross_ok :
      (s : Gateway)
      → (compare_and_cross b u h p s).0 ≡ ok tt
      → Crosses s × ((compare_and_cross b u h p s).1 ≡ after s)
  unfolding compare_and_cross
  compare_and_cross_ok s e =
      let (q, i, e1, v) = read_then (policy_of p.action_type) _ s tt (policy_of_reads _ s) e in
      let (n, j, e2, w) = read_bind current_epoch _ s tt (current_epoch_reads s) e1 in
      let (_, k, e3, x) =
        read_then (require (eqb p.authorization_epoch n) (denied epoch_mismatch)) _ s tt
          (require_reads _ _ s) e2 in
      let (d, l, e4, y) =
        read_bind (current_policy_binding p.action_type) _ s tt (current_policy_binding_reads _ s)
          e3 in
      let (_, m, e5, z) = read_then (refuse (check_use u d p)) _ s tt (refuse_reads _ s) e4 in
      let (c, t, f) = cross_ok s e5 in
      let (g, _) = current_policy_binding_ok p.action_type s s d l in
      let (a, _) = refuse_ok (check_use u d p) s s tt m in
      let (equal, _) = require_ok (eqb p.authorization_epoch n) (denied epoch_mismatch) s s tt k in
      let (bd, agrees) = (check_use-Agrees u d p).0 a in
      (
        record {
          policy = g.0;
          registered = g.1;
          binding = cc (g.2, bd);
          epoch = cc ((current_epoch_ok s s n j).0, (eqb_iff p.authorization_epoch n).0 equal);
          agrees = agrees;
          open_at_crossing = c;
          in_time = t;
        },
        cc (v, w, x, y, z, f),
      )

  policy_of_run :
      (s : Gateway) → Crosses s → (q : EffectPolicy) × (policy_of p.action_type s ≡ (ok q, s))
  unfolding policy_of
  policy_of_run s c = (c.policy, ground (arith, c.registered))

  binding_run :
      (s : Gateway) → Crosses s → current_policy_binding p.action_type s ≡ (ok p.policy_binding, s)
  unfolding current_policy_binding binding_of policy_of ◌>>=◌
  binding_run s c = ground (arith, c.registered, c.binding)

  epoch_run : (s : Gateway) → Crosses s → current_epoch s ≡ (ok p.authorization_epoch, s)
  unfolding current_epoch epoch_at found
  epoch_run s c = ground (arith, c.epoch)

  refuse_run : (s : Gateway) → Crosses s → refuse (check_use u p.policy_binding p) s ≡ (ok tt, s)
  unfolding refuse
  refuse_run s c = rw ((check_use-Agrees u p.policy_binding p).1 (refl, c.agrees))

  pub compare_and_cross_run :
      (s : Gateway) → Crosses s → compare_and_cross b u h p s ≡ (ok tt, after s)
  unfolding compare_and_cross
  compare_and_cross_run s c =
      then-run (policy_of p.action_type) _ s s (policy_of_run s c).0 (policy_of_run s c).1
      ∙ bind-run current_epoch _ s s p.authorization_epoch (epoch_run s c)
      ∙ then-run (require (eqb p.authorization_epoch p.authorization_epoch) (denied epoch_mismatch))
          _ s s tt
          (require_run _ _ s ((eqb_iff p.authorization_epoch p.authorization_epoch).1 refl))
      ∙ bind-run (current_policy_binding p.action_type) _ s s p.policy_binding (binding_run s c)
      ∙ then-run (refuse (check_use u p.policy_binding p)) _ s s tt (refuse_run s c)
      ∙ cross_run s c.open_at_crossing c.in_time
