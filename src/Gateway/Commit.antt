-- ===== src/Gateway/Commit.antt =====
-- What `authorize_commit` has done when it returns a permit.
pub mod Reserved
pub mod Whole
use wire_agent.Base.{
  ℕ, suc, ◌+◌, ◌≤◌, ◌<◌, String, Bool, true, false, not, ◌&&◌, ◌≡◌, refl, sym, ap, subst, ◌≢◌, ◌∙◌,
  inl, inr, Option, none, some, List, [], ◌∷◌, ◌++◌, ◌==◌, eqb, arith, if◌then◌else◌, Bool-cases,
  Option-cases, length, eqb_iff,
}
use wire_agent.Base.Results.{Result, ok, err, Result-cases}
use wire_agent.Base.Dict.{Dict, get, put, get-put_self}
use wire_agent.Base.Heap.{at, set_at, at-append_new, at-set_at_same}
use wire_agent.Policy.{EffectPolicy, is_required}
use wire_agent.Approval.Grant.{
  ApprovalGrant, Presented, GrantClaimDenied, is_active, spent, spend_if_live,
}
use wire_agent.Approval.Grant.Live.{IsLive, spend_if_live-IsLive}
use wire_agent.Approval.Attempt.{EffectAttempt, AttemptError, begin_reservation, mark_reserved}
use wire_agent.KillSwitch.{HotFile}
use wire_agent.Gateway.State.{
  EffectPermit, Issued, GatewayDenied, reservation_failed, GatewayError, denied, ClosureReason,
  killed_before_permit, kill_switch, Gateway, Action, ret, throw, ◌>>=◌, ◌>>◌, require, modify,
  found, attempt_of, ask, blocked_now, mark, Write, append_fact,
}
use wire_agent.Gateway.Owner.{
  reservation_record, or_raise, register_live, mark_minted, live_owner, put_owner,
}
use wire_agent.Gateway.Mint.{
  Locals, reserve_fenced, new_permit, issue, put_permit, mint_permit, deny_mint, close_before_mint,
  spent_or_denied, ask_and_mint, spend_and_mint, Authorization, presented,
}
use wire_agent.Effect.Record.{EffectLedgerRecord}
use wire_agent.Effect.History.{LedgerError, corrupt, failed, value_error}
use wire_agent.Effect.File.{LedgerFile, append_durable}
use wire_agent.Effect.File.Append.{Shows}
use wire_agent.Effect.File.Outcome.{IsRecorded, append_durable-IsRecorded}
use wire_agent.Gateway.Actions.{bind-ok, then-ok, bind_on, then_on, bind-run, then-run}

mark_minted_frame :
    (h : ℕ) (s : Gateway) → (mark_minted h s).1 ≡ record s { live = (mark_minted h s).1.live }
unfolding mark_minted attempt_of found live_owner require modify put_owner ◌>>=◌ ◌>>◌
mark_minted_frame h s = ground arith

deny_mint_raises :
    (i : Authorization) (l : Locals) (r : ClosureReason) (d : GatewayDenied) (s : Gateway) (h : ℕ)
    → (deny_mint i l r d s).0 ≢ ok h
unfolding deny_mint
deny_mint_raises i l r d s h e =
    let (_, _, f) =
      then-ok (close_before_mint i (is_required l.policy.durability) l.binding r) (throw (denied d))
        s h e in
    absurd (cc)

module _ (i : Authorization) (l : Locals) (e : ℕ) where
  -- From `s` to `t` the permit `h` was made and issued.
  pub record Mints (s : Gateway) (h : ℕ) (t : Gateway) : Type 0 where
    pub new : h ≡ length s.permits
    pub stored : at t.permits h ≡ some (new_permit i l e s.permit_ttl)
    pub listed : get t.issued i.permit_id ≡ some (record { permit = h; attempt = i.attempt })
    pub ledger : t.ledger ≡ s.ledger
    pub grants : t.grants ≡ s.grants
    pub epochs : t.epochs ≡ s.epochs
    pub epoch : t.epoch ≡ s.epoch
    pub ttl : t.permit_ttl ≡ s.permit_ttl

  minted :
      (s u : Gateway) (h : ℕ)
      → u ≡ record s { live = u.live }
      → (put_permit i l e u).0 ≡ ok h
      → Mints s h (put_permit i l e u).1
  unfolding put_permit issue new_permit
  minted s u h f r =
      let p : length u.permits ≡ h = cc in
      let ps : u.permits ≡ s.permits = ap (λ x. x.permits) f in
      let ttl : u.permit_ttl ≡ s.permit_ttl = ap (λ x. x.permit_ttl) f in
      record {
        new = cc;
        stored = cc (at-append_new u.permits (new_permit i l e u.permit_ttl), ttl, p);
        listed = cc (
          get-put_self u.issued i.permit_id
              (record { permit = length u.permits; attempt = i.attempt }),
          p,
        );
        ledger = ap (λ x. x.ledger) f;
        grants = ap (λ x. x.grants) f;
        epochs = ap (λ x. x.epochs) f;
        epoch = ap (λ x. x.epoch) f;
        ttl = ap (λ x. x.permit_ttl) f;
      }

  begin_frame :
      (t : Bool) (s : Gateway)
      → let m : Action (Unit {0}) = if t then mark_minted i.attempt else ret tt in
        (m s).1 ≡ record s { live = (m s).1.live }
  begin_frame true s = mark_minted_frame i.attempt s
  begin_frame false s = refl

  mint_permit-Mints :
      (s : Gateway) (h : ℕ) → (mint_permit i l e s).0 ≡ ok h → Mints s h (mint_permit i l e s).1
  unfolding mint_permit
  mint_permit-Mints s h r =
      let m : Action (Unit {0}) =
        if is_required l.policy.durability then mark_minted i.attempt else ret tt in
      let (v, x, y) = then-ok m (put_permit i l e) s h r in
      let z = then-run m (put_permit i l e) s (m s).1 v x in
      subst (λ w. Mints s h w.1) (sym z)
        (minted s (m s).1 h (begin_frame (is_required l.policy.durability) s) y)

  -- From `s` to `t` the approval was spent, and then the permit `h` made and issued.
  pub record Spends (s : Gateway) (h : ℕ) (t : Gateway) : Type 0 where
    pub grant : ApprovalGrant
    pub was : at s.grants i.grant ≡ some grant
    pub live : IsLive (presented i.snapshot l.binding e) i.spend_now grant
    pub is : at t.grants i.grant ≡ some (record grant { state = spent })
    pub stored : at t.permits h ≡ some (new_permit i l e s.permit_ttl)
    pub listed : get t.issued i.permit_id ≡ some (record { permit = h; attempt = i.attempt })
    pub ledger : t.ledger ≡ s.ledger
    pub epochs : t.epochs ≡ s.epochs
    pub epoch : t.epoch ≡ s.epoch
    pub ttl : t.permit_ttl ≡ s.permit_ttl

  -- The same, once the approval is spent.
  pub record Asked (s t : Gateway) (refused : Option GrantClaimDenied) : Type 0 where
    pub grant : ApprovalGrant
    pub was : at s.grants i.grant ≡ some grant
    pub answer : (spend_if_live (presented i.snapshot l.binding e) i.spend_now grant).0 ≡ refused
    pub left : t ≡ record s {
      grants =
          set_at s.grants i.grant
            (spend_if_live (presented i.snapshot l.binding e) i.spend_now grant).1;
    }

  asked :
      (s t : Gateway) (d : Option GrantClaimDenied)
      → ask i.grant (spend_if_live (presented i.snapshot l.binding e) i.spend_now) s ≡ (ok d, t)
      → Asked s t d
  unfolding ask
  asked s t d q = elim (Option-cases (at s.grants i.grant)) [
    | inl x ↦ absurd (ground (arith, x, q))
    | inr (g, x) ↦ record {
      grant = g;
      was = x;
      answer = ground (arith, x, q);
      left = ground (arith, x, q);
    }
  ]

  look-Mints :
      (f : HotFile) (s : Gateway) (h : ℕ) (t : Gateway)
      → Mints (blocked_now f s).1 h t
      → Mints s h t
  unfolding blocked_now
  look-Mints f s h t m = record {
    new = m.new;
    stored = m.stored;
    listed = m.listed;
    ledger = m.ledger;
    grants = m.grants;
    epochs = m.epochs;
    epoch = m.epoch;
    ttl = m.ttl;
  }

  after_second_look :
      (b : Bool) (s : Gateway) (h : ℕ)
      → let m : Action ℕ =
          if b then deny_mint i l killed_before_permit kill_switch else mint_permit i l e in
        (m s).0 ≡ ok h → Mints s h (m s).1
  after_second_look true s h r =
      absurd (deny_mint_raises i l killed_before_permit kill_switch s h r)
  after_second_look false s h r = mint_permit-Mints s h r

  spent_or_denied-Mints :
      (d : Option GrantClaimDenied) (s : Gateway) (h : ℕ)
      → (spent_or_denied i l e d s).0 ≡ ok h
      → (d ≡ none) × Mints s h (spent_or_denied i l e d s).1
  unfolding spent_or_denied
  spent_or_denied-Mints (some d) s h r = absurd (deny_mint_raises i l _ _ s h r)
  spent_or_denied-Mints none s h r = (
    refl,
    (let (b, x, y) = bind-ok (blocked_now i.after_spend) _ s h r in
        let u : Gateway = (blocked_now i.after_spend s).1 in
        subst (λ w. Mints s h w.1) (sym (bind-run (blocked_now i.after_spend) _ s u b x))
          (look-Mints i.after_spend s h _ (after_second_look b u h y))),
  )

  ask_and_mint-Spends :
      (s : Gateway) (h : ℕ) → (ask_and_mint i l e s).0 ≡ ok h → Spends s h (ask_and_mint i l e s).1
  unfolding ask_and_mint
  ask_and_mint-Spends s h r =
      let b : Presented = presented i.snapshot l.binding e in
      let m : Action (Option GrantClaimDenied) = ask i.grant (spend_if_live b i.spend_now) in
      let u : Gateway = (m s).1 in
      let (d, x, y) = bind-ok m _ s h r in
      let a = asked s u d x in
      let (n, o) = spent_or_denied-Mints d u h y in
      let (iff, after) = spend_if_live-IsLive b i.spend_now a.grant in
      let live = iff.0 (cc (a.answer, n)) in
      let gs : u.grants ≡ set_at s.grants i.grant (record a.grant { state = spent }) =
        cc (ap (λ z. z.grants) a.left, after live) in
      let ttl : u.permit_ttl ≡ s.permit_ttl = ap (λ z. z.permit_ttl) a.left in
      subst (λ w. Spends s h w.1) (sym (bind-run m _ s u d x))
        (record {
          grant = a.grant;
          was = a.was;
          live = live;
          is = cc (
            at-set_at_same s.grants i.grant (record a.grant { state = spent }) a.grant a.was,
            gs,
            o.grants,
          );
          stored = cc (o.stored, ttl);
          listed = o.listed;
          ledger = cc (o.ledger, ap (λ z. z.ledger) a.left);
          epochs = cc (o.epochs, ap (λ z. z.epochs) a.left);
          epoch = cc (o.epoch, ap (λ z. z.epoch) a.left);
          ttl = cc (o.ttl, ttl);
        })

  look-Spends :
      (f : HotFile) (s : Gateway) (h : ℕ) (t : Gateway)
      → Spends (blocked_now f s).1 h t
      → Spends s h t
  unfolding blocked_now
  look-Spends f s h t m = record {
    grant = m.grant;
    was = m.was;
    live = m.live;
    is = m.is;
    stored = m.stored;
    listed = m.listed;
    ledger = m.ledger;
    epochs = m.epochs;
    epoch = m.epoch;
    ttl = m.ttl;
  }

  after_first_look :
      (b : Bool) (s : Gateway) (h : ℕ)
      → let m : Action ℕ =
          if b then deny_mint i l killed_before_permit kill_switch else ask_and_mint i l e in
        (m s).0 ≡ ok h → Spends s h (m s).1
  after_first_look true s h r = absurd (deny_mint_raises i l killed_before_permit kill_switch s h r)
  after_first_look false s h r = ask_and_mint-Spends s h r

  pub spend_and_mint-Spends :
      (s : Gateway) (h : ℕ)
      → (spend_and_mint i l e s).0 ≡ ok h
      → Spends s h (spend_and_mint i l e s).1
  unfolding spend_and_mint
  spend_and_mint-Spends s h r =
      let (b, x, y) = bind-ok (blocked_now i.before_spend) _ s h r in
      let u : Gateway = (blocked_now i.before_spend s).1 in
      subst (λ w. Spends s h w.1) (sym (bind-run (blocked_now i.before_spend) _ s u b x))
        (look-Spends i.before_spend s h _ (after_first_look b u h y))
